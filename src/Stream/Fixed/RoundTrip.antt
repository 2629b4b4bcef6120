-- ===== src/Stream/Fixed/RoundTrip.antt =====
-- What the fixed-width writers of BinaryStream.hpp write, ReadOnlyBinaryStream.hpp reads back.
use beprotocol.Common.{
  ℕ, suc, suc-==_zero, ◌+◌, ◌-◌, ◌^◌, ◌<◌, ◌≡◌, refl, sym, ap, List, [], ◌∷◌, ◌++◌, Bool, true,
  false, length, ltb, append-nil, append_assoc, length-append, take-append, drop-append, arith,
  subst,
}
use beprotocol.Stream.{Outcome, ReadOnlyBinaryStream, Reader, Writer, IsSize, pure, ◌>>=◌}
use beprotocol.Stream.Endian.{
  le_bytes, le_value, length-le_bytes, le_value-le_bytes, to_memory, from_memory, to_little_endian,
  from_little_endian, swap_endian, swap_endian-swap_endian, swap_endian-lt,
}
use beprotocol.Stream.RoundTrip.{
  positioned, Decodes, RoundTrips, Decodes-then, RoundTrips-last, RoundTrips-or_error,
}
use beprotocol.Stream.Fixed.{
  ignore_bytes, add_size, slice, exceeds, read_memory, read_word, read_byte, read_bool,
  bool_of_byte, read_signed_char, read_unsigned_short, read_signed_short, read_unsigned_int,
  read_signed_int, read_float, read_unsigned_int64, read_signed_int64, read_double,
  read_signed_big_endian_int, read_bytes, read_raw_bytes, write_bytes, write_word, write_byte,
  write_bool, write_signed_char, write_unsigned_short, write_signed_short, write_unsigned_int,
  write_signed_int, write_float, write_unsigned_int64, write_signed_int64, write_double,
  write_signed_big_endian_int,
}

module _ (before bytes rest : List ℕ) (fits : IsSize (length (before ++ (bytes ++ rest)))) where
  lengths : length (before ++ (bytes ++ rest)) ≡ length before + (length bytes + length rest)
  lengths = omega (arith, length-append before (bytes ++ rest), length-append bytes rest)

  pub add_size-positioned : add_size (length before) (length bytes) ≡ length (before ++ bytes)
  add_size-positioned = omega (arith, lengths, length-append before bytes)

  pub slice-positioned : slice (length bytes) (positioned before (bytes ++ rest)) ≡ bytes
  slice-positioned = rw (drop-append before (bytes ++ rest)) (take-append bytes rest)

  pub exceeds-positioned : exceeds (length bytes) (positioned before (bytes ++ rest)) ≡ false
  unfolding exceeds
  exceeds-positioned = ground (arith, lengths, fits)

  -- The stream after the read of `bytes`.
  pub advance-positioned :
      record (positioned before (bytes ++ rest)) {
        read_pointer = add_size (length before) (length bytes);
      }
      ≡ positioned (before ++ bytes) rest
  advance-positioned = λ i. record {
    has_overflowed = false;
    buffer_view = sym (append_assoc before bytes rest) i;
    read_pointer = add_size-positioned i;
  }

pub Decodes-read_memory : (bytes : List ℕ) → Decodes (read_memory (length bytes)) bytes bytes
unfolding read_memory
Decodes-read_memory bytes = record {
  decode = λ before rest fits.
      rw (exceeds-positioned before bytes rest fits)
        (rw (slice-positioned before bytes rest fits, advance-positioned before bytes rest fits));
}

pub Decodes-ignore_bytes : (bytes : List ℕ) → Decodes (ignore_bytes (length bytes)) bytes tt
unfolding ignore_bytes
Decodes-ignore_bytes bytes = record {
  decode = λ before rest fits. rw (exceeds-positioned before bytes rest fits) (
      ap (λ (s : ReadOnlyBinaryStream). (Outcome.ok tt, s))
        (advance-positioned before bytes rest fits));
}

pub RoundTrips-word : (n v : ℕ) → v < 256 ^ n → RoundTrips (write_word n v) (read_word n) v
unfolding write_word write_bytes read_word to_memory to_little_endian from_memory from_little_endian
RoundTrips-word n v h = record {
  bytes = le_bytes n v;
  written = λ buffer. refl;
  decoded =
      subst (λ (k : ℕ). Decodes (read_memory k >>= λ bytes. pure (le_value bytes)) (le_bytes n v) v)
        (length-le_bytes n v)
        (Decodes-then _ _ (Decodes-read_memory (le_bytes n v))
          (unfold pure in λ s. ap (λ (u : ℕ). (Outcome.ok u, s)) (le_value-le_bytes n v h)));
}

pub RoundTrips-byte : (v : ℕ) → v < 256 → RoundTrips (write_byte v) read_byte v
unfolding write_byte read_byte
RoundTrips-byte v h = RoundTrips-word 1 v (omega arith)

pub RoundTrips-signed_char : (v : ℕ) → v < 256 → RoundTrips (write_signed_char v) read_signed_char v
unfolding write_signed_char read_signed_char
RoundTrips-signed_char v h = RoundTrips-word 1 v (omega arith)

pub RoundTrips-unsigned_short :
    (v : ℕ) → v < 2 ^ 16 → RoundTrips (write_unsigned_short v) read_unsigned_short v
unfolding write_unsigned_short read_unsigned_short
RoundTrips-unsigned_short v h = RoundTrips-word 2 v (omega arith)

pub RoundTrips-signed_short :
    (v : ℕ) → v < 2 ^ 16 → RoundTrips (write_signed_short v) read_signed_short v
unfolding write_signed_short read_signed_short
RoundTrips-signed_short v h = RoundTrips-word 2 v (omega arith)

pub RoundTrips-unsigned_int :
    (v : ℕ) → v < 2 ^ 32 → RoundTrips (write_unsigned_int v) read_unsigned_int v
unfolding write_unsigned_int read_unsigned_int
RoundTrips-unsigned_int v h = RoundTrips-word 4 v (omega arith)

pub RoundTrips-signed_int : (v : ℕ) → v < 2 ^ 32 → RoundTrips (write_signed_int v) read_signed_int v
unfolding write_signed_int read_signed_int
RoundTrips-signed_int v h = RoundTrips-word 4 v (omega arith)

pub RoundTrips-float : (v : ℕ) → v < 2 ^ 32 → RoundTrips (write_float v) read_float v
unfolding write_float read_float
RoundTrips-float v h = RoundTrips-word 4 v (omega arith)

pub RoundTrips-unsigned_int64 :
    (v : ℕ) → v < 2 ^ 64 → RoundTrips (write_unsigned_int64 v) read_unsigned_int64 v
unfolding write_unsigned_int64 read_unsigned_int64
RoundTrips-unsigned_int64 v h = RoundTrips-word 8 v (omega arith)

pub RoundTrips-signed_int64 :
    (v : ℕ) → v < 2 ^ 64 → RoundTrips (write_signed_int64 v) read_signed_int64 v
unfolding write_signed_int64 read_signed_int64
RoundTrips-signed_int64 v h = RoundTrips-word 8 v (omega arith)

pub RoundTrips-double : (v : ℕ) → v < 2 ^ 64 → RoundTrips (write_double v) read_double v
unfolding write_double read_double
RoundTrips-double v h = RoundTrips-word 8 v (omega arith)

-- Reading goes on with a value that the stream does not touch.
pub RoundTrips-then {ℓ κ} :
    {A : Type ℓ} {B : Type κ} {w : Writer} (m : Reader A) (f : A → Reader B) {a : A} {b : B}
    → RoundTrips w m a
    → ((s : ReadOnlyBinaryStream) → f a s ≡ (Outcome.ok b, s))
    → RoundTrips w (m >>= f) b
RoundTrips-then m f r e = record {
  bytes = r.bytes;
  written = r.written;
  decoded = Decodes-then m f r.decoded e;
}

pub RoundTrips-bool : (b : Bool) → RoundTrips (write_bool b) read_bool b
unfolding write_bool read_bool bool_of_byte
RoundTrips-bool true =
    RoundTrips-then (read_word 1) _ (RoundTrips-word 1 1 (omega arith)) (λ s. refl)
RoundTrips-bool false =
    RoundTrips-then (read_word 1) _ (RoundTrips-word 1 0 (omega arith)) (λ s. refl)

pub RoundTrips-signed_big_endian_int :
    (v : ℕ) → v < 2 ^ 32 → RoundTrips (write_signed_big_endian_int v) read_signed_big_endian_int v
unfolding write_signed_big_endian_int read_signed_big_endian_int
RoundTrips-signed_big_endian_int v h = RoundTrips-or_error _ _ (
    RoundTrips-last (write_word 4 (swap_endian 4 v)) (read_word 4)
      (λ value. pure (swap_endian 4 value))
      (RoundTrips-word 4 (swap_endian 4 v) (swap_endian-lt 4 v))
      (ap pure (swap_endian-swap_endian 4 v (omega arith))))

pub Decodes-read_bytes : (bytes : List ℕ) → Decodes (read_bytes (length bytes)) bytes bytes
unfolding read_bytes
Decodes-read_bytes [] = record { decode = λ before rest fits. rw append-nil }
Decodes-read_bytes (b ∷ bs) = record {
  decode = λ before rest fits.
      rw (suc-==_zero (length bs), exceeds-positioned before (b ∷ bs) rest fits)
        (rw (
          slice-positioned before (b ∷ bs) rest fits,
          advance-positioned before (b ∷ bs) rest fits,
        ));
}

pub Decodes-read_raw_bytes : (bytes : List ℕ) → Decodes (read_raw_bytes (length bytes)) bytes bytes
unfolding read_raw_bytes
Decodes-read_raw_bytes [] = record { decode = λ before rest fits. rw append-nil }
Decodes-read_raw_bytes (b ∷ bs) = record { decode = go }
  where
    go :
        (before rest : List ℕ)
        → IsSize (length (before ++ ((b ∷ bs) ++ rest)))
        → read_raw_bytes (length (b ∷ bs)) (positioned before ((b ∷ bs) ++ rest))
          ≡ (Outcome.ok (b ∷ bs), positioned (before ++ (b ∷ bs)) rest)
    go before rest fits =
        rw (suc-==_zero (length bs), past, short)
          (rw (
            slice-positioned before (b ∷ bs) rest fits,
            advance-positioned before (b ∷ bs) rest fits,
          ))
      where
        size : length (before ++ ((b ∷ bs) ++ rest)) ≡ length before + suc (length bs + length rest)
        size = omega (arith, length-append before ((b ∷ bs) ++ rest), length-append bs rest)

        past : ltb (length (before ++ ((b ∷ bs) ++ rest))) (length before) ≡ false
        past = ground (arith, size)

        short :
            ltb (length (before ++ ((b ∷ bs) ++ rest)) - length before) (length (b ∷ bs)) ≡ false
        short = ground (arith, size)

pub RoundTrips-raw_bytes :
    (bytes : List ℕ) → RoundTrips (write_bytes bytes) (read_raw_bytes (length bytes)) bytes
unfolding write_bytes
RoundTrips-raw_bytes bytes = record {
  bytes = bytes;
  written = λ buffer. refl;
  decoded = Decodes-read_raw_bytes bytes;
}

pub RoundTrips-read_bytes :
    (bytes : List ℕ) → RoundTrips (write_bytes bytes) (read_bytes (length bytes)) bytes
unfolding write_bytes
RoundTrips-read_bytes bytes = record {
  bytes = bytes;
  written = λ buffer. refl;
  decoded = Decodes-read_bytes bytes;
}
