-- ===== src/Packet/Nbt/Fits.antt =====
-- Which tags fit their format: values of their types, lengths that fit, lists of one type, and compounds with their
-- keys in order and no EndTag.
use beprotocol.Common.{
  ℕ, suc, ◌^◌, ◌<◌, ◌≡◌, refl, ap, List, [], ◌∷◌, ◌++◌, All, true, false, length, arith,
}
use beprotocol.Stream.Containers.{emplace}
use beprotocol.Packet.Fits.{IsBits, FitsText}
use beprotocol.Packet.Nbt.{
  Tag, Tags, Entries, get_type, tags_length, string_less, tags_of, entries_of,
}
use Prim.Native.Nat.{max}

-- Every key of the entries is greater than `key`.
abbrev pub Above : List ℕ → Entries → Type 0
Above key Entries.no_entries = Unit
Above key (Entries.more_entries k v es) = (string_less key k ≡ true) × Above key es

unfoldable mutual
  pub FitsTag : Tag → Type 0
  FitsTag Tag.end_tag = Unit
  FitsTag (Tag.byte_tag v) = IsBits 8 v
  FitsTag (Tag.short_tag v) = IsBits 16 v
  FitsTag (Tag.int_tag v) = IsBits 32 v
  FitsTag (Tag.long_tag v) = IsBits 64 v
  FitsTag (Tag.float_tag v) = IsBits 32 v
  FitsTag (Tag.double_tag v) = IsBits 64 v
  FitsTag (Tag.byte_array_tag vs) = (length vs < 2 ^ 31) × All (IsBits 8) vs
  FitsTag (Tag.string_tag text) = FitsText text
  FitsTag (Tag.list_tag type vs) = IsBits 8 type × (tags_length vs < 2 ^ 31) × FitsTags type vs
  FitsTag (Tag.compound_tag es) = FitsEntries es
  FitsTag (Tag.int_array_tag vs) = (length vs < 2 ^ 31) × All (IsBits 32) vs

  pub FitsTags : ℕ → Tags → Type 0
  FitsTags type Tags.no_tags = Unit
  FitsTags type (Tags.more_tags v vs) = (get_type v ≡ type) × FitsTag v × FitsTags type vs

  pub FitsEntries : Entries → Type 0
  FitsEntries Entries.no_entries = Unit
  FitsEntries (Entries.more_entries key v es) =
      FitsText key × (0 < get_type v) × FitsTag v × Above key es × FitsEntries es

-- How much fuel reading takes.
unfoldable mutual
  pub depth : Tag → ℕ
  depth (Tag.list_tag type vs) = suc (depth_tags vs)
  depth (Tag.compound_tag es) = suc (depth_entries es)
  depth _ = 0

  pub depth_tags : Tags → ℕ
  depth_tags Tags.no_tags = 0
  depth_tags (Tags.more_tags v vs) = max (depth v) (depth_tags vs)

  pub depth_entries : Entries → ℕ
  depth_entries Entries.no_entries = 1
  depth_entries (Entries.more_entries key v es) = suc (max (depth v) (depth_entries es))

abbrev pub tag_list : Tags → List Tag
tag_list Tags.no_tags = []
tag_list (Tags.more_tags v vs) = v ∷ tag_list vs

abbrev pub entry_list : Entries → List (List ℕ × Tag)
entry_list Entries.no_entries = []
entry_list (Entries.more_entries key v es) = (key, v) ∷ entry_list es

pub tags_of-tag_list : (vs : Tags) → tags_of (tag_list vs) ≡ vs
unfolding tags_of
tags_of-tag_list Tags.no_tags = refl
tags_of-tag_list (Tags.more_tags v vs) = ap (Tags.more_tags v) (tags_of-tag_list vs)

pub entries_of-entry_list : (es : Entries) → entries_of (entry_list es) ≡ es
unfolding entries_of
entries_of-entry_list Entries.no_entries = refl
entries_of-entry_list (Entries.more_entries key v es) =
    ap (Entries.more_entries key v) (entries_of-entry_list es)

pub length-tag_list : (vs : Tags) → length (tag_list vs) ≡ tags_length vs
length-tag_list Tags.no_tags = refl
length-tag_list (Tags.more_tags v vs) = ap suc (length-tag_list vs)

string_less_asym : (xs ys : List ℕ) → string_less xs ys ≡ true → string_less ys xs ≡ false
unfolding string_less
string_less_asym [] [] h = refl
string_less_asym [] (y ∷ ys) h = refl
string_less_asym (x ∷ xs) [] h = ground arith
string_less_asym (x ∷ xs) (y ∷ ys) h = ground (arith, string_less_asym xs ys)

-- Every key of the map so far is less than `key`.
abbrev pub Below : List (List ℕ × Tag) → List ℕ → Type 0
Below so_far key = All (λ (e : List ℕ × Tag). string_less e.0 key ≡ true) so_far

-- A key above all others is put at the end.
pub emplace_last :
    (so_far : List (List ℕ × Tag)) (key : List ℕ) (v : Tag)
    → Below so_far key
    → emplace string_less key v so_far ≡ so_far ++ ((key, v) ∷ [])
unfolding emplace
emplace_last [] key v h = refl
emplace_last ((k, w) ∷ so_far) key v (hk, h) =
    rw (string_less_asym k key hk, hk)
      (ap (λ (t : List (List ℕ × Tag)). (k, w) ∷ t) (emplace_last so_far key v h))

-- The keys that come are greater than those that are there.
abbrev pub Follows : List (List ℕ × Tag) → Entries → Type 0
Follows so_far Entries.no_entries = Unit
Follows so_far (Entries.more_entries key v es) = Below so_far key × Follows so_far es

Below-append :
    (so_far : List (List ℕ × Tag)) (key k : List ℕ) (v : Tag)
    → Below so_far k
    → string_less key k ≡ true
    → Below (so_far ++ ((key, v) ∷ [])) k
Below-append [] key k v h less = (less, tt)
Below-append (e ∷ so_far) key k v (he, h) less = (he, Below-append so_far key k v h less)

pub Follows-append :
    (so_far : List (List ℕ × Tag)) (key : List ℕ) (v : Tag) (es : Entries)
    → Follows so_far es
    → Above key es
    → Follows (so_far ++ ((key, v) ∷ [])) es
Follows-append so_far key v Entries.no_entries h above = tt
Follows-append so_far key v (Entries.more_entries k w es) (hk, h) (less, above) =
    (Below-append so_far key k v hk less, Follows-append so_far key v es h above)

pub Follows-nil : (es : Entries) → Follows [] es
Follows-nil Entries.no_entries = tt
Follows-nil (Entries.more_entries key v es) = (tt, Follows-nil es)
