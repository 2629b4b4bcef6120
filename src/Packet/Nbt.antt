-- ===== src/Packet/Nbt.antt =====
-- Named binary tags: `TagVariant`, `ListTag`, `CompoundTag`, `ValueTag` and `ValueArrayTag` of
-- include/sculk/protocol/codec/nbt and src/sculk/protocol/codec/nbt. A compound is its entries in the order of
-- their keys, as in the `std::map`.
pub mod Fits
pub mod Fuel
pub mod Leaves
pub mod ReadBack
pub mod RoundTrip
use beprotocol.Common.{
  ℕ, zero, suc, ◌+◌, ◌-◌, ◌%◌, ◌^◌, List, [], ◌∷◌, Bool, true, false, Option, none, some, length,
  ltb, leb, ◌==◌, if◌then◌else◌,
}
use beprotocol.Stream.{Outcome, ReadOnlyBinaryStream, Reader, Writer, pure, fail, ◌>>=◌, ◌>>◌}
use beprotocol.Stream.Fixed.{
  write_byte, read_byte, write_signed_char, read_signed_char, write_signed_short, read_signed_short,
  write_float, read_float, write_double, read_double, ignore_bytes,
}
use beprotocol.Stream.VarInt.{write_var_int, read_var_int, write_var_int64, read_var_int64}
use beprotocol.Stream.Text.{write_string, read_string}
use beprotocol.Stream.Containers.{
  uint8, write_enum, read_enum, write_elements, read_elements, emplace,
}
use Prim.Native.String.{String}

-- The alternatives of `TagVariant`; `type` is the `mType` of a list, which any byte can be.
mutual
  pub data Tag : Type 0 where
    end_tag : Tag
    byte_tag : ℕ → Tag
    short_tag : ℕ → Tag
    int_tag : ℕ → Tag
    long_tag : ℕ → Tag
    float_tag : ℕ → Tag
    double_tag : ℕ → Tag
    byte_array_tag : List ℕ → Tag
    string_tag : List ℕ → Tag
    list_tag : ℕ → Tags → Tag
    compound_tag : Entries → Tag
    int_array_tag : List ℕ → Tag

  pub data Tags : Type 0 where
    no_tags : Tags
    more_tags : Tag → Tags → Tags

  pub data Entries : Type 0 where
    no_entries : Entries
    more_entries : List ℕ → Tag → Entries → Entries

-- `TagVariant::getType`, by the values of `TagType`.
unfoldable pub get_type : Tag → ℕ
get_type end_tag = 0
get_type (byte_tag v) = 1
get_type (short_tag v) = 2
get_type (int_tag v) = 3
get_type (long_tag v) = 4
get_type (float_tag v) = 5
get_type (double_tag v) = 6
get_type (byte_array_tag vs) = 7
get_type (string_tag text) = 8
get_type (list_tag type vs) = 9
get_type (compound_tag es) = 10
get_type (int_array_tag vs) = 11

abbrev pub tags_length : Tags → ℕ
tags_length no_tags = 0
tags_length (more_tags v vs) = suc (tags_length vs)

-- `ValueArrayTag<T>::serialize`, with what an element is written by.
unfoldable pub write_value_array : (ℕ → Writer) → List ℕ → Writer
write_value_array func vs = do write_var_int (length vs % 2 ^ 32); write_elements func vs

-- An entry whose value has the type End is left out.
unfoldable mutual
  pub serialize_tag : Tag → Writer
  serialize_tag end_tag buffer = buffer
  serialize_tag (byte_tag v) buffer = write_signed_char v buffer
  serialize_tag (short_tag v) buffer = write_signed_short v buffer
  serialize_tag (int_tag v) buffer = write_var_int v buffer
  serialize_tag (long_tag v) buffer = write_var_int64 v buffer
  serialize_tag (float_tag v) buffer = write_float v buffer
  serialize_tag (double_tag v) buffer = write_double v buffer
  serialize_tag (byte_array_tag vs) buffer = write_value_array write_signed_char vs buffer
  serialize_tag (string_tag text) buffer = write_string text buffer
  serialize_tag (list_tag type vs) buffer =
      serialize_tags vs
        (write_var_int (tags_length vs % 2 ^ 32) (write_enum uint8 uint8 write_byte type buffer))
  serialize_tag (compound_tag es) buffer = serialize_entries es buffer
  serialize_tag (int_array_tag vs) buffer = write_value_array write_var_int vs buffer

  pub serialize_tags : Tags → Writer
  serialize_tags no_tags buffer = buffer
  serialize_tags (more_tags v vs) buffer = serialize_tags vs (serialize_tag v buffer)

  pub serialize_entries : Entries → Writer
  serialize_entries no_entries buffer = write_byte 0 buffer
  serialize_entries (more_entries key v es) buffer =
      let skipped = serialize_entries es buffer in
      let whole = serialize_entries es (
        serialize_tag v
          (write_string key (write_enum uint8 uint8 write_byte (get_type v) buffer))) in
      if get_type v == 0 then skipped else whole

-- `CompoundTag::write`.
unfoldable pub write_compound : Entries → Writer
write_compound es = do write_enum uint8 uint8 write_byte 10; write_byte 0; serialize_entries es

-- `resize` of a negative size throws.
unfoldable pub read_resized {ℓ} : {A : Type ℓ} → Reader A → Reader (List A)
read_resized func = do
  size ← read_var_int
  if leb (2 ^ 31) size then (λ s. (Outcome.fault, s)) else read_elements func size

-- `std::less` on strings compares their bytes as unsigned numbers.
unfoldable pub string_less : List ℕ → List ℕ → Bool
string_less [] [] = false
string_less [] (y ∷ ys) = true
string_less (x ∷ xs) [] = false
string_less (x ∷ xs) (y ∷ ys) =
    let rest = string_less xs ys in if ltb x y then true else if ltb y x then false else rest

unfoldable pub tags_of : List Tag → Tags
tags_of [] = no_tags
tags_of (v ∷ vs) = more_tags v (tags_of vs)

unfoldable pub entries_of : List (List ℕ × Tag) → Entries
entries_of [] = no_entries
entries_of ((key, v) ∷ es) = more_entries key v (entries_of es)

-- What `TagVariant::emplace` makes of a type; a type that it has no case for leaves an EndTag.
pub data TagType : Type 0 where
  end byte short int long float double byte_array string list compound int_array : TagType

unfoldable pub emplace_type : ℕ → TagType
emplace_type t =
    if t == 1
    then TagType.byte
    else if t == 2
    then TagType.short
    else if t == 3
    then TagType.int
    else if t == 4
    then TagType.long
    else if t == 5
    then TagType.float
    else if t == 6
    then TagType.double
    else if t == 7
    then TagType.byte_array
    else if t == 8
    then TagType.string
    else if t == 9
    then TagType.list
    else if t == 10
    then TagType.compound
    else if t == 11
    then TagType.int_array
    else TagType.end

-- The answer where a reading runs out of fuel.
unfoldable pub spent {ℓ} : {A : Type ℓ} → Option String → Outcome A
spent none = Outcome.fault
spent (some message) = Outcome.err message

-- `deserialize`, after `emplace`. Fuel counts how deep tags lie in tags and how many entries a compound has; each
-- of these takes a byte, so that the bytes of the buffer are fuel enough; `out` says what it is where it runs out.
unfoldable mutual
  pub read_tag : Option String → ℕ → TagType → Reader Tag
  read_tag out fuel TagType.end = pure end_tag
  read_tag out fuel TagType.byte = read_signed_char >>= λ v. pure (byte_tag v)
  read_tag out fuel TagType.short = read_signed_short >>= λ v. pure (short_tag v)
  read_tag out fuel TagType.int = read_var_int >>= λ v. pure (int_tag v)
  read_tag out fuel TagType.long = read_var_int64 >>= λ v. pure (long_tag v)
  read_tag out fuel TagType.float = read_float >>= λ v. pure (float_tag v)
  read_tag out fuel TagType.double = read_double >>= λ v. pure (double_tag v)
  read_tag out fuel TagType.byte_array =
      read_resized read_signed_char >>= λ vs. pure (byte_array_tag vs)
  read_tag out fuel TagType.string = read_string >>= λ text. pure (string_tag text)
  read_tag out zero TagType.list = λ s. (spent out, s)
  read_tag out (suc fuel) TagType.list = do
    type ← read_enum uint8 uint8 read_byte
    vs ← read_resized (read_tag out fuel (emplace_type type))
    pure (list_tag type (tags_of vs))
  read_tag out zero TagType.compound = λ s. (spent out, s)
  read_tag out (suc fuel) TagType.compound =
      read_entries_tag out fuel [] >>= λ es. pure (compound_tag (entries_of es))
  read_tag out fuel TagType.int_array = read_resized read_var_int >>= λ vs. pure (int_array_tag vs)

  -- `while (true)` of `CompoundTag::deserialize`, with the map so far.
  pub read_entries_tag : Option String → ℕ → List (List ℕ × Tag) → Reader (List (List ℕ × Tag))
  read_entries_tag out zero es = λ s. (spent out, s)
  read_entries_tag out (suc fuel) es = do
    type ← read_enum uint8 uint8 read_byte
    let more : Reader (List (List ℕ × Tag)) = do
      key ← read_string
      v ← read_tag out fuel (emplace_type type)
      read_entries_tag out fuel (emplace string_less key v es)
    if type == 0 then pure es else more

-- `CompoundTag::deserialize` of a new compound.
unfoldable pub deserialize_compound : Reader Entries
deserialize_compound = do
  es ← (λ s. read_entries_tag none (suc (length s.buffer_view)) [] s)
  pure (entries_of es)

-- `CompoundTag::read`.
unfoldable pub read_compound : Reader Entries
read_compound = do
  root ← read_enum uint8 uint8 read_byte
  let entries : Reader Entries = do _ ← ignore_bytes 1; deserialize_compound
  if root == 10 then entries else fail "CompoundTag::read invalid root tag type"
