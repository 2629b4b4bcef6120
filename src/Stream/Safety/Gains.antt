-- ===== src/Stream/Safety/Gains.antt =====
-- Readers that take at least one byte where they give a value.
use beprotocol.Common.{
  ℕ, ◌+◌, ◌*◌, ◌%◌, ◌^◌, ◌≤◌, ◌<◌, ◌≡◌, refl, List, [], ◌∷◌, Bool, true, false, leb, ◌==◌, ◌&&◌,
  not, bit_and, bit_or, drop, if◌then◌else◌, arith,
}
use beprotocol.Stream.{
  Outcome, ReadOnlyBinaryStream, Reader, ◌>>=◌, or_error, with_message, and_then,
}
use beprotocol.Stream.Fixed.{overflow, slice, exceeds, read_memory, read_word, read_byte, add_size}
use beprotocol.Stream.VarInt.{read_groups, read_unsigned_var_int}
use beprotocol.Stream.Text.{read_string}
use beprotocol.Stream.Containers.{IntType, read_enum}
use beprotocol.Stream.Safety.{InBounds, Moves-InBounds, IsSafe, IsSafe-pure, IsSafe-or_error}
use beprotocol.Stream.Safety.Words.{IsSafe-raw_bytes, IsSafe-memory, IsSafe-unsigned_var_int}
use Prim.Native.String.{String}

-- It returns, and with a value only past `p`.
abbrev pub Advances {ℓ} : {A : Type ℓ} → ℕ → Outcome A → ReadOnlyBinaryStream → Type 0
Advances p (Outcome.ok a) t = p < t.read_pointer
Advances p (Outcome.err message) t = Unit
Advances p Outcome.fault t = ⊥

pub Advances-if {ℓ} :
    {A : Type ℓ} (p : ℕ) (c : Bool) (x y : Outcome A × ReadOnlyBinaryStream)
    → Advances p x.0 x.1
    → Advances p y.0 y.1
    → Advances p (if c then x else y).0 (if c then x else y).1
Advances-if p true x y hx hy = hx
Advances-if p false x y hx hy = hy

module _ (limit last high modulus : ℕ) (message : String) where
  pub Advances-groups :
      (p : ℕ) (unread : List ℕ) (shift value : ℕ) (s : ReadOnlyBinaryStream)
      → p ≤ s.read_pointer
      → Advances p
          (read_groups limit last high modulus message unread shift value s).0
          (read_groups limit last high modulus message unread shift value s).1
  unfolding read_groups
  Advances-groups p [] shift value s h = tt
  Advances-groups p (byte ∷ unread) shift value s h =
      let failed : Outcome ℕ × ReadOnlyBinaryStream = overflow message s in
      let moved = record s { read_pointer = s.read_pointer + 1 } in
      let failed' : Outcome ℕ × ReadOnlyBinaryStream = overflow message moved in
      let value' = bit_or value (bit_and byte 0x7f * 2 ^ shift % modulus) in
      let more = read_groups limit last high modulus message unread (shift + 7) value' moved in
      let done : Outcome ℕ × ReadOnlyBinaryStream = (Outcome.ok value', moved) in
      let unless_last = if bit_and byte 0x80 == 0 then done else more in
      let is_high = shift == last && (bit_and byte 0x80 == 0 && not (bit_and byte high == 0)) in
      let checked_high = if is_high then failed' else unless_last in
      Advances-if p (leb limit shift) failed checked_high tt (
        Advances-if p is_high failed' unless_last tt (
          Advances-if p (bit_and byte 0x80 == 0) done more (omega arith)
            (Advances-groups p unread (shift + 7) value' moved (omega arith))))

-- With a value only past `p`.
abbrev pub GainsAt {ℓ} : {A : Type ℓ} → ℕ → Outcome A → ReadOnlyBinaryStream → Type 0
GainsAt p (Outcome.ok a) t = p < t.read_pointer
GainsAt p (Outcome.err message) t = Unit
GainsAt p Outcome.fault t = Unit

pub record Gains {ℓ} {A : Type ℓ} (m : Reader A) : Type 0 where
  pub gains : (s : ReadOnlyBinaryStream) → InBounds s → GainsAt s.read_pointer (m s).0 (m s).1

Advances-GainsAt {ℓ} :
    {A : Type ℓ} (p : ℕ) (r : Outcome A) (t : ReadOnlyBinaryStream) → Advances p r t → GainsAt p r t
Advances-GainsAt p (Outcome.ok a) t h = h
Advances-GainsAt p (Outcome.err message) t h = tt
Advances-GainsAt p Outcome.fault t h = tt

GainsAt-message {ℓ} :
    {A : Type ℓ} (p : ℕ) (message : String) (r : Outcome A) (t : ReadOnlyBinaryStream)
    → GainsAt p r t
    → GainsAt p (with_message message r) t
GainsAt-message p message (Outcome.ok a) t h = h
GainsAt-message p message (Outcome.err _) t h = tt
GainsAt-message p message Outcome.fault t h = tt

GainsAt-forward {ℓ} :
    {A : Type ℓ} (p : ℕ) (r : Outcome A) (t : ReadOnlyBinaryStream)
    → p < t.read_pointer
    → GainsAt p r t
GainsAt-forward p (Outcome.ok a) t h = h
GainsAt-forward p (Outcome.err message) t h = tt
GainsAt-forward p Outcome.fault t h = tt

module _ {ℓ κ} {A : Type ℓ} {B : Type κ} where
  GainsAt-and_then :
      (p : ℕ) (r : Outcome A) (f : A → Reader B) (t : ReadOnlyBinaryStream)
      → InBounds t
      → GainsAt p r t
      → ((a : A) → IsSafe (f a))
      → GainsAt p (and_then r f t).0 (and_then r f t).1
  GainsAt-and_then p (Outcome.ok a) f t b h safe =
      GainsAt-forward p (f a t).0 (f a t).1 (omega (arith, ((safe a).moves t b).forward))
  GainsAt-and_then p (Outcome.err message) f t b h safe = tt
  GainsAt-and_then p Outcome.fault f t b h safe = tt

  pub Gains-bind :
      (m : Reader A) (f : A → Reader B)
      → IsSafe m
      → Gains m
      → ((a : A) → IsSafe (f a))
      → Gains (m >>= f)
  unfolding ◌>>=◌
  Gains-bind m f safe h safe_f = record {
    gains = λ s b.
        GainsAt-and_then s.read_pointer (m s).0 f (m s).1 (Moves-InBounds (safe.moves s b))
          (h.gains s b) safe_f;
  }

pub Gains-or_error {ℓ} :
    {A : Type ℓ} (message : String) (m : Reader A) → Gains m → Gains (or_error message m)
unfolding or_error
Gains-or_error message m h = record {
  gains = λ s b. GainsAt-message s.read_pointer message (m s).0 (m s).1 (h.gains s b);
}

pub Gains-unsigned_var_int : Gains read_unsigned_var_int
unfolding read_unsigned_var_int
Gains-unsigned_var_int = record {
  gains = λ s b. Advances-GainsAt s.read_pointer _ _ (
      Advances-groups _ _ _ _ _ s.read_pointer (drop s.read_pointer s.buffer_view) 0 0 s
        (omega arith));
}

-- Where one byte more is not too many, the pointer has gone on.
not_exceeds-forward :
    (s : ReadOnlyBinaryStream)
    → InBounds s
    → exceeds 1 s ≡ false
    → s.read_pointer < add_size s.read_pointer 1
unfolding exceeds
not_exceeds-forward s b e = ground arith

Gains-memory : Gains (read_memory 1)
unfolding read_memory
Gains-memory = record {
  gains = λ s b. go s s.has_overflowed (exceeds 1 s) (not_exceeds-forward s b);
}
  where
    go :
        (s : ReadOnlyBinaryStream) (c d : Bool)
        → (d ≡ false → s.read_pointer < add_size s.read_pointer 1)
        → let r : Outcome (List ℕ) × ReadOnlyBinaryStream =
            if c
            then (Outcome.err "ReadOnlyBinaryStream::read overflowed", s)
            else if d
            then overflow "ReadOnlyBinaryStream::read overflowed" s
            else (Outcome.ok (slice 1 s), record s { read_pointer = add_size s.read_pointer 1 }) in
          GainsAt s.read_pointer r.0 r.1
    go s true d h = tt
    go s false true h = tt
    go s false false h = h refl

pub Gains-byte : Gains read_byte
unfolding read_byte read_word
Gains-byte = Gains-bind _ _ (IsSafe-memory 1) Gains-memory (λ bytes. IsSafe-pure _)

pub Gains-enum :
    (underlying wire : IntType) (func : Reader ℕ)
    → IsSafe func
    → Gains func
    → Gains (read_enum underlying wire func)
unfolding read_enum
Gains-enum underlying wire func safe h =
    Gains-bind _ _ (IsSafe-or_error _ _ safe) (Gains-or_error _ _ h) (λ value. IsSafe-pure _)

pub Gains-string : Gains read_string
unfolding read_string
Gains-string =
    Gains-bind _ _ (IsSafe-or_error _ _ IsSafe-unsigned_var_int)
      (Gains-or_error _ _ Gains-unsigned_var_int) (λ size. IsSafe-raw_bytes size)
