-- ===== src/Stream/Containers.antt =====
-- `writeArray`, `writeMap`, `writeOptional`, `writeEnum`, `writeVariant` of BinaryStream.hpp and the
-- reads that belong to them in ReadOnlyBinaryStream.hpp (include/sculk/protocol/utility). The codec
-- of an element is an argument, as in the source.
pub mod RoundTrip
use beprotocol.Common.{
  ℕ, zero, suc, ◌+◌, ◌-◌, ◌%◌, ◌^◌, ◌<◌, List, [], ◌∷◌, Bool, true, false, ◌&&◌, Option, none, some,
  length, ltb, leb, if◌then◌else◌,
}
use beprotocol.Stream.{
  Outcome, ReadOnlyBinaryStream, Reader, Writer, pure, fail, ◌>>=◌, ◌>>◌, or_error,
}
use beprotocol.Stream.Fixed.{write_bool, read_bool}
use Prim.Native.String.{String}

-- An integer type of C++: its width and whether it is signed. Its values are bit patterns.
pub record IntType : Type 0 where
  pub bits : ℕ
  pub signed : Bool

abbrev pub int8 : IntType
int8 = record { bits = 8; signed = true }

abbrev pub uint8 : IntType
uint8 = record { bits = 8; signed = false }

abbrev pub int16 : IntType
int16 = record { bits = 16; signed = true }

abbrev pub uint16 : IntType
uint16 = record { bits = 16; signed = false }

abbrev pub int32 : IntType
int32 = record { bits = 32; signed = true }

abbrev pub uint32 : IntType
uint32 = record { bits = 32; signed = false }

abbrev pub size_type : IntType
size_type = record { bits = 64; signed = false }

-- `static_cast` between integer types: a wider type takes the sign, a narrower one the low bits.
unfoldable pub static_cast : IntType → IntType → ℕ → ℕ
static_cast from to v =
    if from.signed && (leb (2 ^ (from.bits - 1)) v && ltb from.bits to.bits)
    then v + (2 ^ to.bits - 2 ^ from.bits)
    else v % 2 ^ to.bits

-- `writeEnum(value, func)`: the underlying type of the enum, and the argument type of `func`.
unfoldable pub write_enum : IntType → IntType → (ℕ → Writer) → ℕ → Writer
write_enum underlying wire func v = func (static_cast underlying wire v)

-- An enum has a value for every pattern of its underlying type.
unfoldable pub read_enum : IntType → IntType → Reader ℕ → Reader ℕ
read_enum underlying wire func = do
  value ← or_error "ReadOnlyBinaryStream::readEnum overflowed" func
  pure (static_cast wire underlying value)

module _ {ℓ} {A : Type ℓ} where
  -- `for (const auto& element : array) func(element)`.
  unfoldable pub write_elements : (A → Writer) → List A → Writer
  write_elements func [] buffer = buffer
  write_elements func (x ∷ xs) buffer = write_elements func xs (func x buffer)

  unfoldable pub write_array : IntType → (ℕ → Writer) → (A → Writer) → List A → Writer
  write_array prefix_type prefix func xs = do
    prefix (static_cast size_type prefix_type (length xs))
    write_elements func xs

  -- `for (auto& element : outVector) _SCULK_READ(func(element))`.
  unfoldable pub read_elements : Reader A → ℕ → Reader (List A)
  read_elements func zero = pure []
  read_elements func (suc n) = do x ← func; xs ← read_elements func n; pure (x ∷ xs)

  -- `resize` of a negative length asks for more than a vector can hold, and throws.
  unfoldable pub read_array : IntType → Reader ℕ → Reader A → Reader (List A)
  read_array prefix_type prefix func = do
    size ← or_error "ReadOnlyBinaryStream::readArray overflowed" prefix
    if prefix_type.signed && leb (2 ^ (prefix_type.bits - 1)) size
        then (λ s. (Outcome.fault, s))
        else read_elements func size

  unfoldable pub write_optional : (A → Writer) → Option A → Writer
  write_optional func none = write_bool false
  write_optional func (some x) = do write_bool true; func x

  unfoldable pub read_present : Reader A → Bool → Reader (Option A)
  read_present func true = func >>= λ x. pure (some x)
  read_present func false = pure none

  unfoldable pub read_optional : Reader A → Reader (Option A)
  read_optional func = do
    has_value ← or_error "ReadOnlyBinaryStream::readOptional overflowed" read_bool
    read_present func has_value

  -- `emplace_variant` counts the alternatives up to the index; each alternative has its reader.
  unfoldable pub emplace_variant : List (Reader A) → ℕ → Reader A
  emplace_variant [] index = fail "ReadOnlyBinaryStream::readVariant invalid variant index"
  emplace_variant (alternative ∷ others) zero = alternative
  emplace_variant (alternative ∷ others) (suc index) = emplace_variant others index

  unfoldable pub read_variant : IntType → Reader ℕ → List (Reader A) → Reader A
  read_variant prefix_type prefix alternatives = do
    index ← or_error "ReadOnlyBinaryStream::readVariant overflowed" prefix
    emplace_variant alternatives (static_cast prefix_type size_type index)

-- `visitor` is what the visitor writes for the alternative that the variant holds.
unfoldable pub write_variant : IntType → (ℕ → Writer) → ℕ → Writer → Writer
write_variant prefix_type prefix index visitor = do
  prefix (static_cast size_type prefix_type index)
  visitor

-- `std::map`, by its pairs in the order of its keys. `emplace` does nothing if the key is there.
module _ {ℓ κ} {K : Type ℓ} {V : Type κ} (less : K → K → Bool) where
  unfoldable pub emplace : K → V → List (K × V) → List (K × V)
  emplace k v [] = (k, v) ∷ []
  emplace k v ((j, w) ∷ rest) =
      if less k j
      then (k, v) ∷ ((j, w) ∷ rest)
      else if less j k
      then (j, w) ∷ emplace k v rest
      else (j, w) ∷ rest

  -- `for (AT i = 0; i < length; ++i)`, with the map so far. `AT` is unsigned, as for the callers in the code.
  unfoldable pub read_entries : Reader (K × V) → ℕ → List (K × V) → Reader (List (K × V))
  read_entries func zero entries = pure entries
  read_entries func (suc n) entries = do
    entry ← func
    read_entries func n (emplace entry.0 entry.1 entries)

  unfoldable pub read_map : Reader ℕ → Reader (K × V) → Reader (List (K × V))
  read_map prefix func = do
    size ← or_error "ReadOnlyBinaryStream::readMap overflowed" prefix
    read_entries func size []

unfoldable pub write_map {ℓ κ} :
    {K : Type ℓ} {V : Type κ} → (ℕ → Writer) → (K × V → Writer) → List (K × V) → Writer
write_map prefix func entries = do prefix (length entries % 2 ^ 32); write_elements func entries
