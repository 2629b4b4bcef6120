-- ===== src/Stream/ReadBack.antt =====
-- What the writers of BinaryStream.hpp append, the readers of ReadOnlyBinaryStream.hpp
-- (include/sculk/protocol/utility) give back, wherever it stands in a buffer.
use beprotocol.Common.{
  ℕ, ◌+◌, ◌^◌, ◌≤◌, ◌<◌, ◌≡◌, List, ◌++◌, All, Option, length, length-append, arith, ap, ◌∙◌,
}
use beprotocol.Stream.{Reader, Writer, IsSize}
use beprotocol.Stream.RoundTrip.{RoundTrips, ReadsBack, RoundTrips-ReadsBack}
use beprotocol.Stream.Fixed.{write_signed_big_endian_int, read_signed_big_endian_int}
use beprotocol.Stream.Fixed.RoundTrip.{RoundTrips-signed_big_endian_int}
use beprotocol.Stream.VarInt.{
  write_unsigned_var_int, write_unsigned_var_int64, write_var_int, write_var_int64,
  read_unsigned_var_int, read_unsigned_var_int64, read_var_int, read_var_int64,
}
use beprotocol.Stream.VarInt.RoundTrip.{
  RoundTrips-unsigned_var_int, RoundTrips-unsigned_var_int64, RoundTrips-var_int,
  RoundTrips-var_int64, unsigned_var_int-length,
}
use beprotocol.Stream.Text.{
  write_string, read_string, write_long_string, read_long_string, RoundTrips-string,
  RoundTrips-long_string,
}
use beprotocol.Stream.Containers.{uint32, write_array, read_array, write_optional, read_optional}
use beprotocol.Stream.Containers.RoundTrip.{
  RoundTrips-var_int_array, RoundTrips-optional, OptionAll,
}

-- A `uint32_t` that `writeUnsignedVarInt` has written behind any bytes, `readUnsignedVarInt` reads back;
-- it stops right behind it.
pub read_unsigned_var_int-write_unsigned_var_int :
    (v : ℕ)
    → v < 2 ^ 32
    → (buffer rest : List ℕ) → IsSize (length (write_unsigned_var_int v buffer ++ rest))
    → ReadsBack (write_unsigned_var_int v) read_unsigned_var_int v buffer rest
read_unsigned_var_int-write_unsigned_var_int v h =
    RoundTrips-ReadsBack (RoundTrips-unsigned_var_int v h)

-- A `uint64_t` that `writeUnsignedVarInt64` has written behind any bytes, `readUnsignedVarInt64` reads
-- back; it stops right behind it.
pub read_unsigned_var_int64-write_unsigned_var_int64 :
    (v : ℕ)
    → v < 2 ^ 64
    → (buffer rest : List ℕ) → IsSize (length (write_unsigned_var_int64 v buffer ++ rest))
    → ReadsBack (write_unsigned_var_int64 v) read_unsigned_var_int64 v buffer rest
read_unsigned_var_int64-write_unsigned_var_int64 v h =
    RoundTrips-ReadsBack (RoundTrips-unsigned_var_int64 v h)

-- An `int32_t`, negative or not, that `writeVarInt` has written behind any bytes, `readVarInt` reads
-- back; it stops right behind it.
pub read_var_int-write_var_int :
    (v : ℕ)
    → v < 2 ^ 32
    → (buffer rest : List ℕ) → IsSize (length (write_var_int v buffer ++ rest))
    → ReadsBack (write_var_int v) read_var_int v buffer rest
read_var_int-write_var_int v h = RoundTrips-ReadsBack (RoundTrips-var_int v h)

-- An `int64_t`, negative or not, that `writeVarInt64` has written behind any bytes, `readVarInt64`
-- reads back; it stops right behind it.
pub read_var_int64-write_var_int64 :
    (v : ℕ)
    → v < 2 ^ 64
    → (buffer rest : List ℕ) → IsSize (length (write_var_int64 v buffer ++ rest))
    → ReadsBack (write_var_int64 v) read_var_int64 v buffer rest
read_var_int64-write_var_int64 v h = RoundTrips-ReadsBack (RoundTrips-var_int64 v h)

-- An `int32_t` that `writeSignedBigEndianInt` has written behind any bytes, `readSignedBigEndianInt`
-- reads back; it stops right behind it.
pub read_signed_big_endian_int-write_signed_big_endian_int :
    (v : ℕ)
    → v < 2 ^ 32
    → (buffer rest : List ℕ) → IsSize (length (write_signed_big_endian_int v buffer ++ rest))
    → ReadsBack (write_signed_big_endian_int v) read_signed_big_endian_int v buffer rest
read_signed_big_endian_int-write_signed_big_endian_int v h =
    RoundTrips-ReadsBack (RoundTrips-signed_big_endian_int v h)

-- A string shorter than `2 ^ 32` bytes that `writeString` has written behind any bytes, `readString`
-- reads back; it stops right behind it.
pub read_string-write_string :
    (text : List ℕ)
    → length text < 2 ^ 32
    → (buffer rest : List ℕ) → IsSize (length (write_string text buffer ++ rest))
    → ReadsBack (write_string text) read_string text buffer rest
read_string-write_string text h = RoundTrips-ReadsBack (RoundTrips-string text h)

-- A string shorter than `2 ^ 31` bytes that `writeLongString` has written behind any bytes,
-- `readLongString` reads back; it stops right behind it.
pub read_long_string-write_long_string :
    (text : List ℕ)
    → length text < 2 ^ 31
    → (buffer rest : List ℕ) → IsSize (length (write_long_string text buffer ++ rest))
    → ReadsBack (write_long_string text) read_long_string text buffer rest
read_long_string-write_long_string text h = RoundTrips-ReadsBack (RoundTrips-long_string text h)

-- `writeUnsignedVarInt` appends one byte at least and five at most.
pub length-write_unsigned_var_int :
    (v : ℕ) (buffer : List ℕ)
    → v < 2 ^ 32
    → (length buffer + 1 ≤ length (write_unsigned_var_int v buffer))
      × (length (write_unsigned_var_int v buffer) ≤ length buffer + 5)
length-write_unsigned_var_int v buffer h = (
  omega (arith, appended, (unsigned_var_int-length v h).0),
  omega (arith, appended, (unsigned_var_int-length v h).1),
)
  where
    r : RoundTrips (write_unsigned_var_int v) read_unsigned_var_int v
    r = RoundTrips-unsigned_var_int v h

    appended : length (write_unsigned_var_int v buffer) ≡ length buffer + length r.bytes
    appended = ap length (r.written buffer) ∙ length-append buffer r.bytes

-- Elements whose codec gives every element that satisfies `P` back.
module _ {ℓ κ} {A : Type ℓ} (P : A → Type κ) (func : A → Writer) (read : Reader A)
    (codec : (x : A) → P x → RoundTrips (func x) read x) where
  -- Let `func` and `read` be the codec of an element, which gives every element with `P` back. An array of
  -- fewer than `2 ^ 32` such elements that `writeArray` has written behind any bytes, its length as an
  -- unsigned variable-length integer, `readArray` reads back in its order; it stops right behind it.
  pub read_array-write_array :
      (xs : List A)
      → length xs < 2 ^ 32
      → All P xs
      → (buffer rest : List ℕ)
      → IsSize (length (write_array uint32 write_unsigned_var_int func xs buffer ++ rest))
      → ReadsBack
          (write_array uint32 write_unsigned_var_int func xs)
          (read_array uint32 read_unsigned_var_int read)
          xs
          buffer
          rest
  read_array-write_array xs fits h =
      RoundTrips-ReadsBack (RoundTrips-var_int_array P func read codec xs (fits, h))

  -- Let `func` and `read` be the codec of a value, which gives every value with `P` back. An optional, empty
  -- or with such a value, that `writeOptional` has written behind any bytes, `readOptional` reads back;
  -- it stops right behind it.
  pub read_optional-write_optional :
      (o : Option A)
      → OptionAll P o
      → (buffer rest : List ℕ) → IsSize (length (write_optional func o buffer ++ rest))
      → ReadsBack (write_optional func o) (read_optional read) o buffer rest
  read_optional-write_optional o h =
      RoundTrips-ReadsBack (RoundTrips-optional P func read codec o h)
