-- ===== src/Stream/VarInt.antt =====
-- Variable-length integers: `writeUnsignedVarInt`, `writeVarInt` and their 64-bit twins of
-- BinaryStream.hpp, `readUnsignedVarInt`, `readVarInt` and their twins of ReadOnlyBinaryStream.hpp
-- (include/sculk/protocol/utility). A signed integer is the bit pattern of its two's complement.
pub mod RoundTrip
use beprotocol.Common.{
  ℕ, ◌+◌, ◌-◌, ◌*◌, ◌/◌, ◌%◌, ◌^◌, ◌<◌, List, [], ◌∷◌, Bool, ◌&&◌, not, drop, ltb, leb, ◌==◌,
  if◌then◌else◌, bit_and, bit_or, lt_wf, dec_lt, arith,
}
use beprotocol.Stream.{Outcome, Reader, Writer, pure, ◌>>=◌, or_error}
use beprotocol.Stream.Fixed.{overflow, write_byte}
use Prim.Native.String.{String}
use mathlib.Core.Logic.{dite}
use mathlib.Core.WellFounded.{Acc}

group_shrinks : (v : ℕ) → 0 < v / 128 → v / 128 < v
group_shrinks v h = omega arith

-- The loop of both unsigned writers, which goes on while `uvalue >> 7` is not 0.
unfoldable pub write_groups : (v : ℕ) → Acc ◌<◌ v → Writer
unfolding group_shrinks
write_groups v (Acc.intro _ smaller) buffer =
    let next_byte = bit_and v 0x7f in
    dite (dec_lt 0 (v / 128))
      (λ more.
        write_groups (v / 128) (smaller _ (group_shrinks v more))
          (write_byte (bit_or next_byte 0x80) buffer))
      (λ _. write_byte next_byte buffer)

unfoldable pub write_unsigned_var_int : ℕ → Writer
write_unsigned_var_int v = write_groups v (lt_wf.apply v)

unfoldable pub write_unsigned_var_int64 : ℕ → Writer
write_unsigned_var_int64 v = write_groups v (lt_wf.apply v)

-- `value >= 0 ? value << 1 : (~value << 1) | 1`, on a pattern below `2 * half`.
unfoldable pub zigzag : ℕ → ℕ → ℕ
zigzag half v =
    if ltb v half then v * 2 % (2 * half) else bit_or ((2 * half - 1 - v) * 2 % (2 * half)) 1

unfoldable pub write_var_int : ℕ → Writer
write_var_int v = write_unsigned_var_int (zigzag (2 ^ 31) v)

unfoldable pub write_var_int64 : ℕ → Writer
write_var_int64 v = write_unsigned_var_int64 (zigzag (2 ^ 63) v)

-- The loop of both unsigned readers, over the bytes that the read pointer has not reached. At the
-- shift `last` the bits of `high` do not fit any more, and the shift `limit` is not reached.
module _ (limit last high modulus : ℕ) (message : String) where
  unfoldable pub read_groups : List ℕ → ℕ → ℕ → Reader ℕ
  read_groups [] shift value s = overflow message s
  read_groups (byte ∷ unread) shift value s =
      let moved = record s { read_pointer = s.read_pointer + 1 } in
      let value' = bit_or value (bit_and byte 0x7f * 2 ^ shift % modulus) in
      let more = read_groups unread (shift + 7) value' moved in
      if leb limit shift
      then overflow message s
      else if shift == last && (bit_and byte 0x80 == 0 && not (bit_and byte high == 0))
      then overflow message moved
      else if bit_and byte 0x80 == 0
      then (Outcome.ok value', moved)
      else more

unfoldable pub read_unsigned_var_int : Reader ℕ
read_unsigned_var_int s =
    read_groups 35 28 0x70 (2 ^ 32) "ReadOnlyBinaryStream::readUnsignedVarInt overflowed"
      (drop s.read_pointer s.buffer_view) 0 0 s

unfoldable pub read_unsigned_var_int64 : Reader ℕ
read_unsigned_var_int64 s =
    read_groups 70 63 0x7e (2 ^ 64) "ReadOnlyBinaryStream::readUnsignedVarInt64 overflowed"
      (drop s.read_pointer s.buffer_view) 0 0 s

-- `(temp & 1) ? ~(temp >> 1) : (temp >> 1)`, on a pattern below `2 * half`.
unfoldable pub unzigzag : ℕ → ℕ → ℕ
unzigzag half t = if bit_and t 1 == 0 then t / 2 else 2 * half - 1 - t / 2

unfoldable pub read_var_int : Reader ℕ
read_var_int = or_error "ReadOnlyBinaryStream::readVarInt failed" read_unsigned_var_int >>= λ temp.
    pure (unzigzag (2 ^ 31) temp)

unfoldable pub read_var_int64 : Reader ℕ
read_var_int64 =
    or_error "ReadOnlyBinaryStream::readVarInt64 failed" read_unsigned_var_int64 >>= λ temp.
    pure (unzigzag (2 ^ 63) temp)
