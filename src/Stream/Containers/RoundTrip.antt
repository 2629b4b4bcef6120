-- ===== src/Stream/Containers/RoundTrip.antt =====
-- Containers read back what was written, given that their elements do.
use beprotocol.Common.{
  ℕ, ◌-◌, ◌^◌, ◌<◌, ◌≡◌, refl, ap, ◌∙◌, List, [], ◌∷◌, true, false, ◌&&◌, Option, none, some,
  length, All, ltb, leb, arith,
}
use beprotocol.Stream.{Reader, Writer, pure, ◌>>◌}
use beprotocol.Stream.Fixed.{
  write_unsigned_short, read_unsigned_short, write_unsigned_int, read_unsigned_int,
}
use beprotocol.Stream.Fixed.RoundTrip.{
  RoundTrips-bool, RoundTrips-unsigned_short, RoundTrips-unsigned_int,
}
use beprotocol.Stream.VarInt.{write_unsigned_var_int, read_unsigned_var_int}
use beprotocol.Stream.VarInt.RoundTrip.{RoundTrips-unsigned_var_int}
use beprotocol.Stream.RoundTrip.{
  RoundTrips, RoundTrips-bind, RoundTrips-last, RoundTrips-or_error, RoundTrips-pure,
}
use beprotocol.Stream.Containers.{
  IntType, int8, uint8, int16, uint16, int32, uint32, size_type, static_cast, write_enum, read_enum,
  write_elements, write_array, read_elements, read_array, write_optional, read_present,
  read_optional, emplace_variant, read_variant, write_variant,
}
use native.Mathlib.Nat.{mod-eq_of_lt}

-- A value that survives the way to the wire type and back.
abbrev pub CastsBack : IntType → IntType → ℕ → Type 0
CastsBack underlying wire v = static_cast wire underlying (static_cast underlying wire v) ≡ v

unsigned_cast :
    (bits : ℕ) (to : IntType) (v : ℕ)
    → v < 2 ^ to.bits
    → static_cast (record { bits = bits; signed = false }) to v ≡ v
unfolding static_cast
unsigned_cast bits to v h = mod-eq_of_lt h

same_cast : (t : IntType) (v : ℕ) → v < 2 ^ t.bits → static_cast t t v ≡ v
unfolding static_cast
same_cast t v h = rw keeps_width (mod-eq_of_lt h)
  where
    keeps_width : (t.signed && (leb (2 ^ (t.bits - 1)) v && ltb t.bits t.bits)) ≡ false
    keeps_width = ground arith

pub CastsBack-same : (t : IntType) (v : ℕ) → v < 2 ^ t.bits → CastsBack t t v
CastsBack-same t v h = ap (static_cast t t) (same_cast t v h) ∙ same_cast t v h

pub CastsBack-int8-int16 : (v : ℕ) → v < 2 ^ 8 → CastsBack int8 int16 v
unfolding static_cast
CastsBack-int8-int16 v h = ground arith

pub CastsBack-int8-int32 : (v : ℕ) → v < 2 ^ 8 → CastsBack int8 int32 v
unfolding static_cast
CastsBack-int8-int32 v h = ground arith

pub CastsBack-uint8-int32 : (v : ℕ) → v < 2 ^ 8 → CastsBack uint8 int32 v
unfolding static_cast
CastsBack-uint8-int32 v h = ground arith

pub CastsBack-uint8-uint32 : (v : ℕ) → v < 2 ^ 8 → CastsBack uint8 uint32 v
unfolding static_cast
CastsBack-uint8-uint32 v h = ground arith

pub CastsBack-uint8-uint16 : (v : ℕ) → v < 2 ^ 8 → CastsBack uint8 uint16 v
unfolding static_cast
CastsBack-uint8-uint16 v h = ground arith

pub CastsBack-uint16-int32 : (v : ℕ) → v < 2 ^ 16 → CastsBack uint16 int32 v
unfolding static_cast
CastsBack-uint16-int32 v h = ground arith

pub static_cast-uint8-uint16-lt : (v : ℕ) → v < 2 ^ 8 → static_cast uint8 uint16 v < 2 ^ 16
unfolding static_cast
static_cast-uint8-uint16-lt v h = ground arith

pub static_cast-uint16-int32-lt : (v : ℕ) → v < 2 ^ 16 → static_cast uint16 int32 v < 2 ^ 32
unfolding static_cast
static_cast-uint16-int32-lt v h = ground arith

pub static_cast-uint8-uint32-lt : (v : ℕ) → v < 2 ^ 8 → static_cast uint8 uint32 v < 2 ^ 32
unfolding static_cast
static_cast-uint8-uint32-lt v h = ground arith

pub static_cast-int8-int16-lt : (v : ℕ) → v < 2 ^ 8 → static_cast int8 int16 v < 2 ^ 16
unfolding static_cast
static_cast-int8-int16-lt v h = ground arith

pub static_cast-int8-int32-lt : (v : ℕ) → v < 2 ^ 8 → static_cast int8 int32 v < 2 ^ 32
unfolding static_cast
static_cast-int8-int32-lt v h = ground arith

pub static_cast-uint8-int32-lt : (v : ℕ) → v < 2 ^ 8 → static_cast uint8 int32 v < 2 ^ 32
unfolding static_cast
static_cast-uint8-int32-lt v h = ground arith

pub RoundTrips-enum :
    (underlying wire : IntType) (func : ℕ → Writer) (read : Reader ℕ) (v : ℕ)
    → CastsBack underlying wire v
    → RoundTrips (func (static_cast underlying wire v)) read (static_cast underlying wire v)
    → RoundTrips (write_enum underlying wire func v) (read_enum underlying wire read) v
unfolding write_enum read_enum
RoundTrips-enum underlying wire func read v back r =
    RoundTrips-last _ _ _ (RoundTrips-or_error _ _ r) (ap pure back)

-- The case of an enum that goes out at its own width.
pub RoundTrips-same_enum :
    (t : IntType) (func : ℕ → Writer) (read : Reader ℕ) (v : ℕ)
    → v < 2 ^ t.bits
    → RoundTrips (func v) read v
    → RoundTrips (write_enum t t func v) (read_enum t t read) v
RoundTrips-same_enum t func read v h r =
    RoundTrips-enum t t func read v (CastsBack-same t v h) (rw (same_cast t v h) r)

-- What a predicate says of the value in an optional.
abbrev pub OptionAll {ℓ κ} : {A : Type ℓ} → (A → Type κ) → Option A → Type κ
OptionAll P none = Unit
OptionAll P (some x) = P x

-- `P` says which elements the element's codec carries.
module _ {ℓ κ} {A : Type ℓ} (P : A → Type κ) (func : A → Writer) (read : Reader A)
    (codec : (x : A) → P x → RoundTrips (func x) read x) where
  pub RoundTrips-elements :
      (xs : List A)
      → All P xs
      → RoundTrips (write_elements func xs) (read_elements read (length xs)) xs
  unfolding write_elements read_elements ◌>>◌
  RoundTrips-elements [] h = RoundTrips-pure []
  RoundTrips-elements (x ∷ xs) (hx, h) =
      RoundTrips-bind (func x) (write_elements func xs) read _ (codec x hx)
        (RoundTrips-last (write_elements func xs) _ _ (RoundTrips-elements xs h) refl)

  pub RoundTrips-array :
      (t : IntType) (prefix : ℕ → Writer) (read_prefix : Reader ℕ) (xs : List A)
      → static_cast size_type t (length xs) ≡ length xs
      → (t.signed && leb (2 ^ (t.bits - 1)) (length xs)) ≡ false
      → RoundTrips (prefix (length xs)) read_prefix (length xs)
      → All P xs
      → RoundTrips (write_array t prefix func xs) (read_array t read_prefix read) xs
  unfolding write_array read_array
  RoundTrips-array t prefix read_prefix xs fits positive r h =
      rw fits (
        RoundTrips-bind _ _ _ _ (RoundTrips-or_error _ _ r)
          (rw positive (RoundTrips-elements xs h)))

  pub RoundTrips-var_int_array :
      (xs : List A)
      → (length xs < 2 ^ 32) × All P xs
      → RoundTrips
          (write_array uint32 write_unsigned_var_int func xs)
          (read_array uint32 read_unsigned_var_int read)
          xs
  RoundTrips-var_int_array xs (fits, h) =
      RoundTrips-array uint32 _ _ xs (unsigned_cast 64 uint32 (length xs) fits) refl
        (RoundTrips-unsigned_var_int (length xs) fits) h

  pub RoundTrips-short_array :
      (xs : List A)
      → (length xs < 2 ^ 16) × All P xs
      → RoundTrips
          (write_array uint16 write_unsigned_short func xs)
          (read_array uint16 read_unsigned_short read)
          xs
  RoundTrips-short_array xs (fits, h) =
      RoundTrips-array uint16 _ _ xs (unsigned_cast 64 uint16 (length xs) fits) refl
        (RoundTrips-unsigned_short (length xs) fits) h

  pub RoundTrips-int_array :
      (xs : List A)
      → (length xs < 2 ^ 32) × All P xs
      → RoundTrips
          (write_array uint32 write_unsigned_int func xs)
          (read_array uint32 read_unsigned_int read)
          xs
  RoundTrips-int_array xs (fits, h) =
      RoundTrips-array uint32 _ _ xs (unsigned_cast 64 uint32 (length xs) fits) refl
        (RoundTrips-unsigned_int (length xs) fits) h

  pub RoundTrips-optional :
      (o : Option A) → OptionAll P o → RoundTrips (write_optional func o) (read_optional read) o
  unfolding write_optional read_optional read_present
  RoundTrips-optional none h =
      RoundTrips-last _ _ _ (RoundTrips-or_error _ _ (RoundTrips-bool false)) refl
  RoundTrips-optional (some x) h =
      RoundTrips-bind _ _ _ _ (RoundTrips-or_error _ _ (RoundTrips-bool true))
        (RoundTrips-last _ _ _ (codec x h) refl)

pub RoundTrips-variant {ℓ} :
    {A : Type ℓ} (alternatives : List (Reader A)) (index : ℕ) (visitor : Writer) (a : A)
    → index < 2 ^ 32
    → RoundTrips visitor (emplace_variant alternatives index) a
    → RoundTrips
        (write_variant uint32 write_unsigned_var_int index visitor)
        (read_variant uint32 read_unsigned_var_int alternatives)
        a
unfolding write_variant read_variant
RoundTrips-variant alternatives index visitor a fits r = rw (unsigned_cast 64 uint32 index fits) (
    RoundTrips-bind _ _ _ _ (RoundTrips-or_error _ _ (RoundTrips-unsigned_var_int index fits))
      (rw (unsigned_cast 32 size_type index (omega arith)) r))
