-- ===== src/Packet/Nbt/Leaves.antt =====
-- Round trips of the parts of a tag: types, arrays and the tags that hold no tags.
use beprotocol.Common.{
  ℕ, suc, ◌^◌, ◌≤◌, ◌<◌, ◌≡◌, refl, sym, ap, ◌∙◌, List, [], none, ◌++◌, append_assoc, append-nil,
  All, false, length, leb, arith,
}
use beprotocol.Stream.{Reader, Writer, pure, ◌>>=◌, ◌>>◌}
use beprotocol.Stream.Fixed.{write_byte, read_byte, write_word, write_bytes}
use beprotocol.Stream.Endian.{to_memory, to_little_endian, le_bytes}
use beprotocol.Stream.Fixed.RoundTrip.{
  RoundTrips-byte, RoundTrips-signed_char, RoundTrips-signed_short, RoundTrips-float,
  RoundTrips-double,
}
use beprotocol.Stream.VarInt.{write_var_int, read_var_int}
use beprotocol.Stream.VarInt.RoundTrip.{RoundTrips-var_int, RoundTrips-var_int64}
use beprotocol.Stream.Text.{RoundTrips-string}
use beprotocol.Stream.Containers.{
  uint8, static_cast, write_enum, read_enum, write_elements, read_elements,
}
use beprotocol.Stream.Containers.RoundTrip.{RoundTrips-same_enum, RoundTrips-elements}
use beprotocol.Stream.RoundTrip.{Decodes, RoundTrips, Decodes-bind, Decodes-then}
use beprotocol.Packet.Fits.{IsBits}
use beprotocol.Packet.Nbt.{
  Tag, Tags, Entries, get_type, tags_length, write_value_array, serialize_tag, serialize_tags,
  serialize_entries, read_resized, emplace_type, read_tag, read_entries_tag,
}
use beprotocol.Packet.Nbt.Fits.{
  FitsTag, depth, depth_tags, depth_entries, tag_list, entry_list, Follows,
}
use native.Mathlib.Nat.{mod-eq_of_lt}

abbrev pub write_type : ℕ → Writer
write_type = write_enum uint8 uint8 write_byte

abbrev pub read_type : Reader ℕ
read_type = read_enum uint8 uint8 read_byte

pub RoundTrips-type : (t : ℕ) → IsBits 8 t → RoundTrips (write_type t) read_type t
RoundTrips-type t h = RoundTrips-same_enum uint8 write_byte read_byte t h (RoundTrips-byte t h)

-- A type is one byte.
pub length-type : (t : ℕ) (r : RoundTrips (write_type t) read_type t) → length r.bytes ≡ 1
unfolding write_enum static_cast write_byte write_word write_bytes to_memory to_little_endian
    le_bytes
length-type t r = ap length (sym (r.written []))

-- An array of a size that `int32_t` has.
pub Decodes-resized {ℓ} :
    {A : Type ℓ} (func : Reader A) (n : ℕ) (size : RoundTrips (write_var_int n) read_var_int n)
    {bs : List ℕ} {xs : List A}
    → n < 2 ^ 31
    → Decodes (read_elements func n) bs xs
    → Decodes (read_resized func) (size.bytes ++ bs) xs
unfolding read_resized
Decodes-resized func n size small d = Decodes-bind _ _ size.decoded (rw positive d)
  where
    positive : leb (2 ^ 31) n ≡ false
    positive = ground arith

RoundTrips-value_array :
    (bits : ℕ) (func : ℕ → Writer) (read : Reader ℕ)
    → ((v : ℕ) → IsBits bits v → RoundTrips (func v) read v)
    → (vs : List ℕ) → length vs < 2 ^ 31
    → All (IsBits bits) vs
    → RoundTrips (write_value_array func vs) (read_resized read) vs
unfolding write_value_array ◌>>◌
RoundTrips-value_array bits func read codec vs small h = record {
  bytes = size.bytes ++ elements.bytes;
  written = λ buffer. rw (mod-eq_of_lt wide) (
      rw (size.written buffer)
        (elements.written (buffer ++ size.bytes) ∙ append_assoc buffer size.bytes elements.bytes));
  decoded = Decodes-resized read (length vs) size small elements.decoded;
}
  where
    wide : length vs < 2 ^ 32
    wide = omega arith

    size : RoundTrips (write_var_int (length vs)) read_var_int (length vs)
    size = RoundTrips-var_int (length vs) wide

    elements : RoundTrips (write_elements func vs) (read_elements read (length vs)) vs
    elements = RoundTrips-elements (IsBits bits) func read codec vs h

-- A tag comes back from its bytes, with as much fuel as it is deep, which is at most one more than its bytes.
pub record TagTrips (v : Tag) : Type 0 where
  pub bytes : List ℕ
  pub written : (buffer : List ℕ) → serialize_tag v buffer ≡ buffer ++ bytes
  pub deep : depth v ≤ suc (length bytes)
  pub decoded :
      (fuel : ℕ) → depth v ≤ fuel → Decodes (read_tag none fuel (emplace_type (get_type v))) bytes v

pub record TagsTrips (type : ℕ) (vs : Tags) : Type 0 where
  pub bytes : List ℕ
  pub written : (buffer : List ℕ) → serialize_tags vs buffer ≡ buffer ++ bytes
  pub deep : depth_tags vs ≤ suc (length bytes)
  pub decoded :
      (fuel : ℕ)
      → depth_tags vs ≤ fuel
      → Decodes
          (read_elements (read_tag none fuel (emplace_type type)) (tags_length vs))
          bytes
          (tag_list vs)

pub record EntriesTrips (es : Entries) : Type 0 where
  pub bytes : List ℕ
  pub written : (buffer : List ℕ) → serialize_entries es buffer ≡ buffer ++ bytes
  pub deep : depth_entries es ≤ length bytes
  pub decoded :
      (fuel : ℕ) (so_far : List (List ℕ × Tag))
      → depth_entries es ≤ fuel
      → Follows so_far es
      → Decodes (read_entries_tag none fuel so_far) bytes (so_far ++ entry_list es)

-- A tag that holds no tags: its reader goes through `m`.
leaf {ℓ} :
    {A : Type ℓ} (v : Tag) (c : A → Tag) {x : A} {w : Writer} (m : Reader A)
    → RoundTrips w m x
    → c x ≡ v
    → ((buffer : List ℕ) → serialize_tag v buffer ≡ w buffer)
    → depth v ≡ 0
    → ((fuel : ℕ) → read_tag none fuel (emplace_type (get_type v)) ≡ (m >>= λ y. pure (c y)))
    → TagTrips v
unfolding pure
leaf v c {w = w} m r e writes flat reads = record {
  bytes = r.bytes;
  written = λ buffer. writes buffer ∙ r.written buffer;
  deep = omega (arith, flat);
  decoded = λ fuel h.
      rw (reads fuel) (Decodes-then m (λ y. pure (c y)) r.decoded (λ s. ap (λ t. pure t s) e));
}

pub leaf_tag : (v : Tag) → FitsTag v → depth v ≡ 0 → TagTrips v
unfolding FitsTag depth serialize_tag read_tag get_type emplace_type
leaf_tag Tag.end_tag h e = record {
  bytes = [];
  written = λ buffer. sym (append-nil buffer);
  deep = omega arith;
  decoded = λ fuel _. record { decode = λ before rest size. unfold pure in rw append-nil };
}
leaf_tag (Tag.byte_tag v) h e =
    leaf (Tag.byte_tag v) Tag.byte_tag _ (RoundTrips-signed_char v h) refl (λ _. refl) e (λ _. refl)
leaf_tag (Tag.short_tag v) h e =
    leaf (Tag.short_tag v) Tag.short_tag _ (RoundTrips-signed_short v h) refl (λ _. refl) e
      (λ _. refl)
leaf_tag (Tag.int_tag v) h e =
    leaf (Tag.int_tag v) Tag.int_tag _ (RoundTrips-var_int v h) refl (λ _. refl) e (λ _. refl)
leaf_tag (Tag.long_tag v) h e =
    leaf (Tag.long_tag v) Tag.long_tag _ (RoundTrips-var_int64 v h) refl (λ _. refl) e (λ _. refl)
leaf_tag (Tag.float_tag v) h e =
    leaf (Tag.float_tag v) Tag.float_tag _ (RoundTrips-float v h) refl (λ _. refl) e (λ _. refl)
leaf_tag (Tag.double_tag v) h e =
    leaf (Tag.double_tag v) Tag.double_tag _ (RoundTrips-double v h) refl (λ _. refl) e (λ _. refl)
leaf_tag (Tag.byte_array_tag vs) h e =
    leaf (Tag.byte_array_tag vs) Tag.byte_array_tag _
      (RoundTrips-value_array 8 _ _ RoundTrips-signed_char vs h.0 h.1) refl (λ _. refl) e
      (λ _. refl)
leaf_tag (Tag.string_tag text) h e =
    leaf (Tag.string_tag text) Tag.string_tag _ (RoundTrips-string text h) refl (λ _. refl) e
      (λ _. refl)
leaf_tag (Tag.list_tag type vs) h e = absurd (omega arith)
leaf_tag (Tag.compound_tag es) h e = absurd (omega arith)
leaf_tag (Tag.int_array_tag vs) h e =
    leaf (Tag.int_array_tag vs) Tag.int_array_tag _
      (RoundTrips-value_array 32 _ _ RoundTrips-var_int vs h.0 h.1) refl (λ _. refl) e (λ _. refl)
