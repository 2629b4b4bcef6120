-- ===== src/Stream/Text.antt =====
-- Strings: `writeString`, `writeLongString` of BinaryStream.hpp, `readString`, `readLongString` of
-- ReadOnlyBinaryStream.hpp (include/sculk/protocol/utility). A string is the list of its bytes.
use beprotocol.Common.{ℕ, ◌%◌, ◌^◌, ◌<◌, ◌≡◌, List, length, leb, false, if◌then◌else◌, arith}
use beprotocol.Stream.{Reader, Writer, fail, ◌>>=◌, ◌>>◌, or_error}
use beprotocol.Stream.Fixed.{write_bytes, write_signed_int, read_signed_int, read_raw_bytes}
use beprotocol.Stream.Fixed.RoundTrip.{RoundTrips-signed_int, RoundTrips-raw_bytes}
use beprotocol.Stream.VarInt.{write_unsigned_var_int, read_unsigned_var_int}
use beprotocol.Stream.VarInt.RoundTrip.{RoundTrips-unsigned_var_int}
use beprotocol.Stream.RoundTrip.{RoundTrips, RoundTrips-bind, RoundTrips-or_error}
use native.Mathlib.Nat.{mod-eq_of_lt}

-- The length is cast to `uint32_t`; the bytes are not cut.
unfoldable pub write_string : List ℕ → Writer
write_string text = do write_unsigned_var_int (length text % 2 ^ 32); write_bytes text

unfoldable pub read_string : Reader (List ℕ)
read_string = do
  size ← or_error "ReadOnlyBinaryStream::readString failed" read_unsigned_var_int
  read_raw_bytes size

unfoldable pub write_long_string : List ℕ → Writer
write_long_string text = do write_signed_int (length text % 2 ^ 32); write_bytes text

-- A pattern from `2 ^ 31` on is a negative `int32_t`.
unfoldable pub read_long_string : Reader (List ℕ)
read_long_string = do
  size ← or_error "ReadOnlyBinaryStream::readLongString overflowed" read_signed_int
  if leb (2 ^ 31) size
      then fail "ReadOnlyBinaryStream::readLongString failed: negative length"
      else read_raw_bytes size

-- `length text % 2 ^ 32` is the length itself where it fits.
module _ (text : List ℕ) (fits : length text < 2 ^ 32) where
  size_fits : length text % 2 ^ 32 ≡ length text
  size_fits = mod-eq_of_lt fits

  pub RoundTrips-string : RoundTrips (write_string text) read_string text
  unfolding write_string read_string
  RoundTrips-string = rw size_fits (
      RoundTrips-bind _ _ _ _
        (RoundTrips-or_error _ _ (RoundTrips-unsigned_var_int (length text) fits))
        (RoundTrips-raw_bytes text))

pub RoundTrips-long_string :
    (text : List ℕ)
    → length text < 2 ^ 31
    → RoundTrips (write_long_string text) read_long_string text
unfolding write_long_string read_long_string
RoundTrips-long_string text fits = rw (size_fits text (omega arith)) (
    RoundTrips-bind _ _ _ _
      (RoundTrips-or_error _ _ (RoundTrips-signed_int (length text) (omega arith)))
      (rw not_negative (RoundTrips-raw_bytes text)))
  where
    not_negative : leb (2 ^ 31) (length text) ≡ false
    not_negative = ground arith
