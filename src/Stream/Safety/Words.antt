-- ===== src/Stream/Safety/Words.antt =====
-- The reads of words, raw bytes, variable-length integers and strings are safe on any bytes.
use beprotocol.Common.{
  ℕ, ◌+◌, ◌-◌, ◌*◌, ◌%◌, ◌^◌, ◌≤◌, ◌≡◌, refl, List, [], ◌∷◌, length, length-drop, Bool, true, false,
  ltb, leb, ◌==◌, ◌&&◌, not, drop, if◌then◌else◌, arith, bit_and, bit_or,
}
use beprotocol.Stream.{Outcome, ReadOnlyBinaryStream, Reader}
use beprotocol.Stream.Fixed.{
  add_size, exceeds, slice, overflow, read_memory, read_word, read_byte, read_signed_char,
  read_unsigned_short, read_signed_short, read_unsigned_int, read_signed_int, read_float,
  read_unsigned_int64, read_signed_int64, read_double, read_bool, bool_of_byte,
  read_signed_big_endian_int, read_bytes, read_raw_bytes, ignore_bytes,
}
use beprotocol.Stream.VarInt.{
  read_groups, read_unsigned_var_int, read_unsigned_var_int64, read_var_int, read_var_int64,
}
use beprotocol.Stream.Text.{read_string, read_long_string}
use beprotocol.Stream.Safety.{
  InBounds, Moves, Moves-InBounds, IsSafe, Moves-stay, Moves-trans, IsSafe-bind, IsSafe-pure,
  IsSafe-fail, IsSafe-or_error, IsSafe-answer,
}
use Prim.Native.String.{String}

Moves-overflow :
    (s : ReadOnlyBinaryStream) → InBounds s → Moves s (record s { has_overflowed = true })
Moves-overflow s h = record {
  same_buffer = refl;
  forward = omega arith;
  inside = h.0;
  bounded = h.1;
  sticky = λ _. refl;
}

Moves-to :
    (s : ReadOnlyBinaryStream) (p : ℕ)
    → InBounds s
    → s.read_pointer ≤ p
    → p ≤ length s.buffer_view
    → Moves s (record s { read_pointer = p })
Moves-to s p h low high = record {
  same_buffer = refl;
  forward = low;
  inside = high;
  bounded = h.1;
  sticky = λ e. e;
}

-- Past the test the pointer is in the buffer.
exceeds_bounds :
    (n : ℕ) (s : ReadOnlyBinaryStream)
    → exceeds n s ≡ false
    → (s.read_pointer ≤ add_size s.read_pointer n)
      × (add_size s.read_pointer n ≤ length s.buffer_view)
unfolding exceeds
exceeds_bounds n s e = (ground arith, ground arith)

Moves-advance :
    (n : ℕ) (s : ReadOnlyBinaryStream)
    → InBounds s
    → exceeds n s ≡ false
    → Moves s (record s { read_pointer = add_size s.read_pointer n })
Moves-advance n s h e =
    Moves-to s (add_size s.read_pointer n) h (exceeds_bounds n s e).0 (exceeds_bounds n s e).1

-- A test between two ends of a read.
Moves-if {ℓ} :
    {A : Type ℓ} (s : ReadOnlyBinaryStream) (c : Bool) (x y : Outcome A × ReadOnlyBinaryStream)
    → Moves s x.1
    → (c ≡ false → Moves s y.1)
    → Moves s (if c then x else y).1
Moves-if s true x y hx hy = hx
Moves-if s false x y hx hy = hy refl

-- The test that bounded reads share, behind which the pointer advances.
module _ {ℓ} {A : Type ℓ} (n : ℕ) (message : String) (r : Outcome A) (s : ReadOnlyBinaryStream)
    (h : InBounds s) where
  abbrev advance : Outcome A × ReadOnlyBinaryStream
  advance = (r, record s { read_pointer = add_size s.read_pointer n })

  abbrev checked : Outcome A × ReadOnlyBinaryStream
  checked = if exceeds n s then overflow message s else advance

  Moves-checked : Moves s checked.1
  Moves-checked =
      Moves-if s (exceeds n s) (overflow message s) advance (Moves-overflow s h)
        (Moves-advance n s h)

pub IsSafe-memory : (n : ℕ) → IsSafe (read_memory n)
unfolding read_memory
IsSafe-memory n = record { moves = go }
  where
    go : (s : ReadOnlyBinaryStream) → InBounds s → Moves s (read_memory n s).1
    go s h =
        let message : String = "ReadOnlyBinaryStream::read overflowed" in
        Moves-if s s.has_overflowed (Outcome.err message, s)
          (checked n message (Outcome.ok (slice n s)) s h) (Moves-stay s h)
          (λ _. Moves-checked n message (Outcome.ok (slice n s)) s h)

pub IsSafe-ignore_bytes : (n : ℕ) → IsSafe (ignore_bytes n)
unfolding ignore_bytes
IsSafe-ignore_bytes n = record {
  moves = λ s h. Moves-checked n "ReadOnlyBinaryStream::ignoreBytes overflowed" (Outcome.ok tt) s h;
}

pub IsSafe-bytes : (n : ℕ) → IsSafe (read_bytes n)
unfolding read_bytes
IsSafe-bytes n = record { moves = go }
  where
    go : (s : ReadOnlyBinaryStream) → InBounds s → Moves s (read_bytes n s).1
    go s h =
        let message : String = "ReadOnlyBinaryStream::readBytes overflowed" in
        let some_bytes = checked n message (Outcome.ok (slice n s)) s h in
        let after_flag : Outcome (List ℕ) × ReadOnlyBinaryStream =
          if n == 0 then (Outcome.ok [], s) else some_bytes in
        Moves-if s s.has_overflowed (Outcome.err message, s) after_flag (Moves-stay s h)
          (λ _.
            Moves-if s (n == 0) (Outcome.ok [], s) some_bytes (Moves-stay s h)
              (λ _. Moves-checked n message (Outcome.ok (slice n s)) s h))

-- The sum cannot wrap, for it is at most the size.
raw_bounds :
    (n : ℕ) (s : ReadOnlyBinaryStream)
    → InBounds s
    → ltb (length s.buffer_view - s.read_pointer) n ≡ false
    → (s.read_pointer ≤ add_size s.read_pointer n)
      × (add_size s.read_pointer n ≤ length s.buffer_view)
raw_bounds n s h e = (ground arith, ground arith)

pub IsSafe-raw_bytes : (n : ℕ) → IsSafe (read_raw_bytes n)
unfolding read_raw_bytes
IsSafe-raw_bytes n = record { moves = go }
  where
    go : (s : ReadOnlyBinaryStream) → InBounds s → Moves s (read_raw_bytes n s).1
    go s h =
        let failed : Outcome (List ℕ) × ReadOnlyBinaryStream =
          overflow "ReadOnlyBinaryStream::readRawBytes overflowed" s in
        let next = add_size s.read_pointer n in
        let done : Outcome (List ℕ) × ReadOnlyBinaryStream =
          (Outcome.ok (slice n s), record s { read_pointer = next }) in
        let bounded = if ltb (length s.buffer_view - s.read_pointer) n then failed else done in
        let in_buffer = if ltb (length s.buffer_view) s.read_pointer then failed else bounded in
        Moves-if s (n == 0) (Outcome.ok [], s) in_buffer (Moves-stay s h)
          (λ _.
            Moves-if s (ltb (length s.buffer_view) s.read_pointer) failed bounded
              (Moves-overflow s h)
              (λ _.
                Moves-if s (ltb (length s.buffer_view - s.read_pointer) n) failed done
                  (Moves-overflow s h)
                  (λ e. Moves-to s next h (raw_bounds n s h e).0 (raw_bounds n s h e).1)))

pub IsSafe-word : (n : ℕ) → IsSafe (read_word n)
unfolding read_word
IsSafe-word n = IsSafe-bind _ _ (IsSafe-memory n) (λ bytes. IsSafe-pure _)

pub IsSafe-byte : IsSafe read_byte
unfolding read_byte
IsSafe-byte = IsSafe-word 1

pub IsSafe-signed_char : IsSafe read_signed_char
unfolding read_signed_char
IsSafe-signed_char = IsSafe-word 1

pub IsSafe-unsigned_short : IsSafe read_unsigned_short
unfolding read_unsigned_short
IsSafe-unsigned_short = IsSafe-word 2

pub IsSafe-signed_short : IsSafe read_signed_short
unfolding read_signed_short
IsSafe-signed_short = IsSafe-word 2

pub IsSafe-unsigned_int : IsSafe read_unsigned_int
unfolding read_unsigned_int
IsSafe-unsigned_int = IsSafe-word 4

pub IsSafe-signed_int : IsSafe read_signed_int
unfolding read_signed_int
IsSafe-signed_int = IsSafe-word 4

pub IsSafe-float : IsSafe read_float
unfolding read_float
IsSafe-float = IsSafe-word 4

pub IsSafe-unsigned_int64 : IsSafe read_unsigned_int64
unfolding read_unsigned_int64
IsSafe-unsigned_int64 = IsSafe-word 8

pub IsSafe-signed_int64 : IsSafe read_signed_int64
unfolding read_signed_int64
IsSafe-signed_int64 = IsSafe-word 8

pub IsSafe-double : IsSafe read_double
unfolding read_double
IsSafe-double = IsSafe-word 8

pub IsSafe-bool : IsSafe read_bool
unfolding read_bool
IsSafe-bool = IsSafe-bind _ _ (IsSafe-word 1) (λ byte. IsSafe-answer (bool_of_byte byte))

pub IsSafe-signed_big_endian_int : IsSafe read_signed_big_endian_int
unfolding read_signed_big_endian_int
IsSafe-signed_big_endian_int =
    IsSafe-or_error _ _ (IsSafe-bind _ _ (IsSafe-word 4) (λ value. IsSafe-pure _))

-- The loops of the variable-length integers: `unread` is what the pointer has not reached.
module _ (limit last high modulus : ℕ) (message : String) where
  Moves-groups :
      (unread : List ℕ) (shift value : ℕ) (s : ReadOnlyBinaryStream)
      → InBounds s
      → s.read_pointer + length unread ≤ length s.buffer_view
      → Moves s (read_groups limit last high modulus message unread shift value s).1
  unfolding read_groups
  Moves-groups [] shift value s h left = Moves-overflow s h
  Moves-groups (byte ∷ unread) shift value s h left =
      let failed : Outcome ℕ × ReadOnlyBinaryStream = overflow message s in
      let moved = record s { read_pointer = s.read_pointer + 1 } in
      let failed' : Outcome ℕ × ReadOnlyBinaryStream = overflow message moved in
      let value' = bit_or value (bit_and byte 0x7f * 2 ^ shift % modulus) in
      let more = read_groups limit last high modulus message unread (shift + 7) value' moved in
      let done : Outcome ℕ × ReadOnlyBinaryStream = (Outcome.ok value', moved) in
      let unless_last = if bit_and byte 0x80 == 0 then done else more in
      let is_high = shift == last && (bit_and byte 0x80 == 0 && not (bit_and byte high == 0)) in
      let checked_high = if is_high then failed' else unless_last in
      let step : Moves s moved = Moves-to s (s.read_pointer + 1) h (omega arith) (omega arith) in
      let h' : InBounds moved = Moves-InBounds step in
      Moves-if s (leb limit shift) failed checked_high (Moves-overflow s h) (λ _.
        Moves-if s is_high failed' unless_last (Moves-trans step (Moves-overflow moved h')) (λ _.
          Moves-if s (bit_and byte 0x80 == 0) done more step (λ _.
            Moves-trans step (Moves-groups unread (shift + 7) value' moved h' (omega arith)))))

left_in_buffer :
    (s : ReadOnlyBinaryStream)
    → InBounds s
    → s.read_pointer + length (drop s.read_pointer s.buffer_view) ≤ length s.buffer_view
left_in_buffer s h = omega (arith, length-drop s.read_pointer s.buffer_view)

pub IsSafe-unsigned_var_int : IsSafe read_unsigned_var_int
unfolding read_unsigned_var_int
IsSafe-unsigned_var_int = record {
  moves = λ s h.
      Moves-groups 35 28 0x70 (2 ^ 32) _ (drop s.read_pointer s.buffer_view) 0 0 s h
        (left_in_buffer s h);
}

pub IsSafe-unsigned_var_int64 : IsSafe read_unsigned_var_int64
unfolding read_unsigned_var_int64
IsSafe-unsigned_var_int64 = record {
  moves = λ s h.
      Moves-groups 70 63 0x7e (2 ^ 64) _ (drop s.read_pointer s.buffer_view) 0 0 s h
        (left_in_buffer s h);
}

pub IsSafe-var_int : IsSafe read_var_int
unfolding read_var_int
IsSafe-var_int =
    IsSafe-bind _ _ (IsSafe-or_error _ _ IsSafe-unsigned_var_int) (λ temp. IsSafe-pure _)

pub IsSafe-var_int64 : IsSafe read_var_int64
unfolding read_var_int64
IsSafe-var_int64 =
    IsSafe-bind _ _ (IsSafe-or_error _ _ IsSafe-unsigned_var_int64) (λ temp. IsSafe-pure _)

pub IsSafe-string : IsSafe read_string
unfolding read_string
IsSafe-string =
    IsSafe-bind _ _ (IsSafe-or_error _ _ IsSafe-unsigned_var_int) (λ size. IsSafe-raw_bytes size)

-- Either branch of a reader.
pub IsSafe-if {ℓ} :
    {A : Type ℓ} (c : Bool) (m n : Reader A) → IsSafe m → IsSafe n → IsSafe (if c then m else n)
IsSafe-if true m n hm hn = hm
IsSafe-if false m n hm hn = hn

-- The same for a test on the stream.
pub IsSafe-branch {ℓ} :
    {A : Type ℓ} (test : ReadOnlyBinaryStream → Bool) (m n : Reader A)
    → IsSafe m
    → IsSafe n
    → IsSafe (λ s. if test s then m s else n s)
IsSafe-branch test m n hm hn = record {
  moves = λ s h. Moves-if s (test s) (m s) (n s) (hm.moves s h) (λ _. hn.moves s h);
}

pub IsSafe-long_string : IsSafe read_long_string
unfolding read_long_string
IsSafe-long_string =
    IsSafe-bind _ _ (IsSafe-or_error _ _ IsSafe-signed_int)
      (λ size. IsSafe-if (leb (2 ^ 31) size) _ _ (IsSafe-fail _) (IsSafe-raw_bytes size))
