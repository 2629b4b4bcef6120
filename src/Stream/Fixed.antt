-- ===== src/Stream/Fixed.antt =====
-- Words of a fixed width and raw bytes: `read`, `readBytes`, `readRawBytes`, `ignoreBytes`,
-- `setPosition` of ReadOnlyBinaryStream.hpp; `write`, `writeBytes`, `writeRawBytes` of
-- BinaryStream.hpp (include/sculk/protocol/utility).
pub mod RoundTrip
use beprotocol.Common.{
  ℕ, ◌+◌, ◌-◌, ◌%◌, ◌^◌, List, [], ◌++◌, Bool, true, false, ◌||◌, length, take, drop, ltb, leb,
  ◌==◌, if◌then◌else◌,
}
use beprotocol.Stream.{
  Outcome, ReadOnlyBinaryStream, Reader, Writer, pure, fail, or_error, ◌>>=◌, ◌>>◌,
}
use beprotocol.Stream.Endian.{Endian, to_memory, from_memory, to_little_endian, from_little_endian}
use beprotocol.Stream.Endian
use Prim.Native.String.{String}

-- The byte order of the host; `Endian` has the laws for both.
abbrev pub native : Endian
native = Endian.little

-- An addition of two values of type `size_t`.
abbrev pub add_size : ℕ → ℕ → ℕ
add_size a b = (a + b) % 2 ^ 64

-- The error path that most reads share: the flag stays set.
abbrev pub overflow {ℓ} : {A : Type ℓ} → String → Reader A
overflow message s = (Outcome.err message, record s { has_overflowed = true })

-- The `n` bytes at the read pointer.
abbrev pub slice : ℕ → ReadOnlyBinaryStream → List ℕ
slice n s = take n (drop s.read_pointer s.buffer_view)

-- `newPointer < mReadPointer || newPointer > mBufferView.size()`, the test of every bounded read.
unfoldable pub exceeds : ℕ → ReadOnlyBinaryStream → Bool
exceeds n s =
    let next = add_size s.read_pointer n in
    ltb next s.read_pointer || ltb (length s.buffer_view) next

-- `read<T>` for a type of `n` bytes, up to the copy into the target.
unfoldable pub read_memory : ℕ → Reader (List ℕ)
read_memory n s =
    if s.has_overflowed
    then (Outcome.err "ReadOnlyBinaryStream::read overflowed", s)
    else if exceeds n s
    then overflow "ReadOnlyBinaryStream::read overflowed" s
    else (Outcome.ok (slice n s), record s { read_pointer = add_size s.read_pointer n })

-- `read<T>` for a type of `n` bytes.
unfoldable pub read_word : ℕ → Reader ℕ
read_word n = do
  bytes ← read_memory n
  pure (from_little_endian native n (from_memory native bytes))

unfoldable pub read_byte : Reader ℕ
read_byte = read_word 1

unfoldable pub read_signed_char : Reader ℕ
read_signed_char = read_word 1

unfoldable pub read_unsigned_short : Reader ℕ
read_unsigned_short = read_word 2

unfoldable pub read_signed_short : Reader ℕ
read_signed_short = read_word 2

unfoldable pub read_unsigned_int : Reader ℕ
read_unsigned_int = read_word 4

unfoldable pub read_signed_int : Reader ℕ
read_signed_int = read_word 4

unfoldable pub read_float : Reader ℕ
read_float = read_word 4

unfoldable pub read_unsigned_int64 : Reader ℕ
read_unsigned_int64 = read_word 8

unfoldable pub read_signed_int64 : Reader ℕ
read_signed_int64 = read_word 8

unfoldable pub read_double : Reader ℕ
read_double = read_word 8

-- A byte copied over a `bool`: C++ gives a value to 0 and 1 only.
unfoldable pub bool_of_byte : ℕ → Outcome Bool
bool_of_byte b =
    if b == 0 then Outcome.ok false else if b == 1 then Outcome.ok true else Outcome.fault

unfoldable pub read_bool : Reader Bool
read_bool = do byte ← read_word 1; λ s. (bool_of_byte byte, s)

-- `std::byteswap(value)` after the read.
unfoldable pub read_signed_big_endian_int : Reader ℕ
read_signed_big_endian_int =
    or_error "ReadOnlyBinaryStream::readSignedBigEndianInt failed"
      (read_word 4 >>= λ value. pure (Endian.swap_endian 4 value))

unfoldable pub read_bytes : ℕ → Reader (List ℕ)
read_bytes n s =
    if s.has_overflowed
    then (Outcome.err "ReadOnlyBinaryStream::readBytes overflowed", s)
    else if n == 0
    then (Outcome.ok [], s)
    else if exceeds n s
    then overflow "ReadOnlyBinaryStream::readBytes overflowed" s
    else (Outcome.ok (slice n s), record s { read_pointer = add_size s.read_pointer n })

-- Unlike the reads above it does not look at the flag.
unfoldable pub read_raw_bytes : ℕ → Reader (List ℕ)
read_raw_bytes n s =
    if n == 0
    then (Outcome.ok [], s)
    else if ltb (length s.buffer_view) s.read_pointer
    then overflow "ReadOnlyBinaryStream::readRawBytes overflowed" s
    else if ltb (length s.buffer_view - s.read_pointer) n
    then overflow "ReadOnlyBinaryStream::readRawBytes overflowed" s
    else (Outcome.ok (slice n s), record s { read_pointer = add_size s.read_pointer n })

unfoldable pub ignore_bytes : ℕ → Reader (Unit {0})
ignore_bytes n s =
    if exceeds n s
    then overflow "ReadOnlyBinaryStream::ignoreBytes overflowed" s
    else (Outcome.ok tt, record s { read_pointer = add_size s.read_pointer n })

unfoldable pub set_position : ℕ → ReadOnlyBinaryStream → ReadOnlyBinaryStream
set_position value s =
    if ltb (length s.buffer_view) value
    then record s { read_pointer = length s.buffer_view; has_overflowed = true }
    else record s { read_pointer = value }

unfoldable pub get_left_buffer_view : ReadOnlyBinaryStream → List ℕ
get_left_buffer_view s = drop s.read_pointer s.buffer_view

unfoldable pub has_data_left : ReadOnlyBinaryStream → Bool
has_data_left s = ltb s.read_pointer (length s.buffer_view)

-- The constructor from a span.
unfoldable pub open_stream : List ℕ → ReadOnlyBinaryStream
open_stream buffer = record { has_overflowed = false; buffer_view = buffer; read_pointer = 0 }

-- `appendBytes`, `writeBytes`, `writeRawBytes`, `writeAndMoveBuffer`: an insertion at the end.
unfoldable pub write_bytes : List ℕ → Writer
write_bytes bytes buffer = buffer ++ bytes

-- `write<T>` for a type of `n` bytes.
unfoldable pub write_word : ℕ → ℕ → Writer
write_word n v = write_bytes (to_memory native n (to_little_endian native n v))

unfoldable pub write_byte : ℕ → Writer
write_byte = write_word 1

unfoldable pub write_bool : Bool → Writer
write_bool b = write_word 1 (if b then 1 else 0)

unfoldable pub write_signed_char : ℕ → Writer
write_signed_char = write_word 1

unfoldable pub write_unsigned_short : ℕ → Writer
write_unsigned_short = write_word 2

unfoldable pub write_signed_short : ℕ → Writer
write_signed_short = write_word 2

unfoldable pub write_unsigned_int : ℕ → Writer
write_unsigned_int = write_word 4

unfoldable pub write_signed_int : ℕ → Writer
write_signed_int = write_word 4

unfoldable pub write_float : ℕ → Writer
write_float = write_word 4

unfoldable pub write_unsigned_int64 : ℕ → Writer
write_unsigned_int64 = write_word 8

unfoldable pub write_signed_int64 : ℕ → Writer
write_signed_int64 = write_word 8

unfoldable pub write_double : ℕ → Writer
write_double = write_word 8

unfoldable pub write_signed_big_endian_int : ℕ → Writer
write_signed_big_endian_int v = write_word 4 (Endian.swap_endian 4 v)
