-- ===== src/Packet/Nbt/RoundTrip.antt =====
-- Round trips of tags, lists and compounds.
use beprotocol.Common.{
  ℕ, zero, suc, ◌^◌, ◌≤◌, ◌<◌, ◌≡◌, refl, sym, ap, subst, ◌∙◌, List, [], none, ◌∷◌, ◌++◌,
  append_assoc, append-nil, false, length-append, ◌==◌, arith,
}
use beprotocol.Stream.{Outcome, pure}
use beprotocol.Stream.Fixed.{write_byte}
use beprotocol.Stream.VarInt.{write_var_int, read_var_int}
use beprotocol.Stream.VarInt.RoundTrip.{RoundTrips-var_int}
use beprotocol.Stream.Text.{write_string, read_string, RoundTrips-string}
use beprotocol.Stream.Containers.{read_elements, write_enum, static_cast}
use beprotocol.Stream.RoundTrip.{Decodes, RoundTrips, Decodes-bind, Decodes-then}
use beprotocol.Packet.Fits.{IsBits, FitsText}
use beprotocol.Packet.Nbt.{
  Tag, Tags, Entries, get_type, tags_length, serialize_tag, serialize_tags, serialize_entries,
  TagType, emplace_type, read_tag, read_entries_tag,
}
use beprotocol.Packet.Nbt.Fits.{
  Above, FitsTag, FitsTags, FitsEntries, depth, depth_tags, depth_entries, entry_list,
  tags_of-tag_list, entries_of-entry_list, emplace_last, Follows, Follows-append, Follows-nil,
}
use beprotocol.Packet.Nbt.Leaves.{
  write_type, read_type, RoundTrips-type, length-type, Decodes-resized, TagTrips, TagsTrips,
  EntriesTrips, leaf_tag,
}
use native.Mathlib.Nat.{mod-eq_of_lt}

get_type-IsBits : (v : Tag) → IsBits 8 (get_type v)
unfolding get_type
get_type-IsBits v = ground arith

depth_entries-positive : (es : Entries) → 1 ≤ depth_entries es
unfolding depth_entries
depth_entries-positive Entries.no_entries = omega arith
depth_entries-positive (Entries.more_entries key v es) = omega arith

no_tags_trip : (type : ℕ) → TagsTrips type Tags.no_tags
unfolding serialize_tags depth_tags read_elements pure
no_tags_trip type = record {
  bytes = [];
  written = λ buffer. sym (append-nil buffer);
  deep = omega arith;
  decoded = λ fuel _. record { decode = λ before rest fits. rw append-nil };
}

more_tags_trip :
    (type : ℕ) (v : Tag) (vs : Tags)
    → get_type v ≡ type
    → TagTrips v
    → TagsTrips type vs
    → TagsTrips type (Tags.more_tags v vs)
unfolding serialize_tags depth_tags read_elements pure
more_tags_trip type v vs e r rs = record {
  bytes = r.bytes ++ rs.bytes;
  written = λ buffer.
      rw (r.written buffer) (rs.written (buffer ++ r.bytes) ∙ append_assoc buffer r.bytes rs.bytes);
  deep = omega (arith, r.deep, rs.deep, length-append r.bytes rs.bytes);
  decoded = λ fuel h.
      Decodes-bind _ _
        (subst (λ (t : ℕ). Decodes (read_tag none fuel (emplace_type t)) r.bytes v) e
          (r.decoded fuel (omega arith)))
        (Decodes-then _ _ (rs.decoded fuel (omega arith)) (λ s. refl));
}

-- Three writers in a row.
pub append3 :
    (buffer bs cs ds : List ℕ) → ((buffer ++ bs) ++ cs) ++ ds ≡ buffer ++ (bs ++ (cs ++ ds))
append3 buffer bs cs ds = append_assoc (buffer ++ bs) cs ds ∙ append_assoc buffer bs (cs ++ ds)

Decodes-list :
    (type : ℕ) (vs : Tags) (t : RoundTrips (write_type type) read_type type)
    (size : RoundTrips (write_var_int (tags_length vs)) read_var_int (tags_length vs))
    (rs : TagsTrips type vs)
    → tags_length vs < 2 ^ 31
    → (fuel : ℕ) → suc (depth_tags vs) ≤ fuel
    → Decodes
        (read_tag none fuel TagType.list)
        (t.bytes ++ (size.bytes ++ rs.bytes))
        (Tag.list_tag type vs)
Decodes-list type vs t size rs small zero h = absurd (omega arith)
Decodes-list type vs t size rs small (suc fuel) h =
    unfold read_tag in
    Decodes-bind _ _ t.decoded (
      Decodes-then _ _ (Decodes-resized _ _ size small (rs.decoded fuel (omega arith))) (λ s.
        unfold pure in
        ap (λ (us : Tags). (Outcome.ok (Tag.list_tag type us), s)) (tags_of-tag_list vs)))

list_trips :
    (type : ℕ) (vs : Tags)
    → IsBits 8 type
    → tags_length vs < 2 ^ 31
    → TagsTrips type vs
    → TagTrips (Tag.list_tag type vs)
unfolding serialize_tag depth get_type emplace_type
list_trips type vs ht small rs = record {
  bytes = t.bytes ++ (size.bytes ++ rs.bytes);
  written = λ buffer.
      rw
        (
          mod-eq_of_lt wide,
          t.written buffer,
          size.written (buffer ++ t.bytes),
          rs.written ((buffer ++ t.bytes) ++ size.bytes),
        )
        (append3 buffer t.bytes size.bytes rs.bytes);
  deep = omega (
    arith,
    rs.deep,
    length-append t.bytes (size.bytes ++ rs.bytes),
    length-append size.bytes rs.bytes,
    length-type type t,
  );
  decoded = Decodes-list type vs t size rs small;
}
  where
    wide : tags_length vs < 2 ^ 32
    wide = omega arith

    t : RoundTrips (write_type type) read_type type
    t = RoundTrips-type type ht

    size : RoundTrips (write_var_int (tags_length vs)) read_var_int (tags_length vs)
    size = RoundTrips-var_int (tags_length vs) wide

-- The byte behind the last entry is the type End.
pub end_written : (buffer : List ℕ) → write_byte 0 buffer ≡ write_type 0 buffer
unfolding write_enum static_cast
end_written buffer = refl

no_entries_trip : EntriesTrips Entries.no_entries
unfolding serialize_entries depth_entries
no_entries_trip = record {
  bytes = t.bytes;
  written = λ buffer. end_written buffer ∙ t.written buffer;
  deep = omega (arith, length-type 0 t);
  decoded = go;
}
  where
    t : RoundTrips (write_type 0) read_type 0
    t = RoundTrips-type 0 (omega arith)

    go :
        (fuel : ℕ) (so_far : List (List ℕ × Tag))
        → 1 ≤ fuel
        → Follows so_far Entries.no_entries
        → Decodes (read_entries_tag none fuel so_far) t.bytes (so_far ++ [])
    go zero so_far h f = absurd (omega arith)
    go (suc fuel) so_far h f =
        unfold read_entries_tag in
        Decodes-then _ _ t.decoded (λ s.
          unfold pure in
          ap (λ (us : List (List ℕ × Tag)). (Outcome.ok us, s)) (sym (append-nil so_far)))

more_entries_trip :
    (key : List ℕ) (v : Tag) (es : Entries)
    → FitsText key
    → 0 < get_type v
    → Above key es
    → TagTrips v
    → EntriesTrips es
    → EntriesTrips (Entries.more_entries key v es)
unfolding serialize_entries depth_entries
more_entries_trip key v es hk ht above r rs = record {
  bytes = t.bytes ++ (name.bytes ++ (r.bytes ++ rs.bytes));
  written = λ buffer.
      rw
        (
          named,
          t.written buffer,
          name.written (buffer ++ t.bytes),
          r.written ((buffer ++ t.bytes) ++ name.bytes),
          rs.written (((buffer ++ t.bytes) ++ name.bytes) ++ r.bytes),
        )
        (append_assoc ((buffer ++ t.bytes) ++ name.bytes) r.bytes rs.bytes
          ∙ append3 buffer t.bytes name.bytes (r.bytes ++ rs.bytes));
  deep = omega (
    arith,
    r.deep,
    rs.deep,
    depth_entries-positive es,
    length-append t.bytes (name.bytes ++ (r.bytes ++ rs.bytes)),
    length-append name.bytes (r.bytes ++ rs.bytes),
    length-append r.bytes rs.bytes,
    length-type (get_type v) t,
  );
  decoded = go;
}
  where
    named : (get_type v == 0) ≡ false
    named = ground arith

    t : RoundTrips (write_type (get_type v)) read_type (get_type v)
    t = RoundTrips-type (get_type v) (get_type-IsBits v)

    name : RoundTrips (write_string key) read_string key
    name = RoundTrips-string key hk

    go :
        (fuel : ℕ) (so_far : List (List ℕ × Tag))
        → depth_entries (Entries.more_entries key v es) ≤ fuel
        → Follows so_far (Entries.more_entries key v es)
        → Decodes
            (read_entries_tag none fuel so_far)
            (t.bytes ++ (name.bytes ++ (r.bytes ++ rs.bytes)))
            (so_far ++ ((key, v) ∷ entry_list es))
    go zero so_far h f = absurd (omega arith)
    go (suc fuel) so_far h (below, f) =
        unfold read_entries_tag in
        Decodes-bind _ _ t.decoded (
          rw named (
            Decodes-bind _ _ name.decoded (
              Decodes-bind _ _ (r.decoded fuel (omega arith))
                (rw (emplace_last so_far key v below) last))))
      where
        last :
            Decodes
              (read_entries_tag none fuel (so_far ++ ((key, v) ∷ [])))
              rs.bytes
              (so_far ++ ((key, v) ∷ entry_list es))
        last =
            subst (Decodes (read_entries_tag none fuel (so_far ++ ((key, v) ∷ []))) rs.bytes)
              (append_assoc so_far ((key, v) ∷ []) (entry_list es))
              (rs.decoded fuel (so_far ++ ((key, v) ∷ [])) (omega arith)
                (Follows-append so_far key v es f above))

compound_trips : (es : Entries) → EntriesTrips es → TagTrips (Tag.compound_tag es)
unfolding serialize_tag depth get_type emplace_type
compound_trips es rs = record {
  bytes = rs.bytes;
  written = rs.written;
  deep = omega (arith, rs.deep);
  decoded = go;
}
  where
    go :
        (fuel : ℕ)
        → suc (depth_entries es) ≤ fuel
        → Decodes (read_tag none fuel TagType.compound) rs.bytes (Tag.compound_tag es)
    go zero h = absurd (omega arith)
    go (suc fuel) h =
        unfold read_tag in
        Decodes-then _ _ (rs.decoded fuel [] (omega arith) (Follows-nil es)) (λ s.
          unfold pure in
          ap (λ (us : Entries). (Outcome.ok (Tag.compound_tag us), s)) (entries_of-entry_list es))

-- By recursion on the tag.
mutual
  unfolding FitsTag depth

  pub tag_trips : (v : Tag) → FitsTag v → TagTrips v
  tag_trips (Tag.list_tag type vs) (ht, small, h) =
      list_trips type vs ht small (tags_trips type vs h)
  tag_trips (Tag.compound_tag es) h = compound_trips es (entries_trips es h)
  tag_trips v h = leaf_tag v h refl

  pub tags_trips : (type : ℕ) (vs : Tags) → FitsTags type vs → TagsTrips type vs
  tags_trips type Tags.no_tags h = no_tags_trip type
  tags_trips type (Tags.more_tags v vs) (e, hv, h) =
      more_tags_trip type v vs e (tag_trips v hv) (tags_trips type vs h)

  pub entries_trips : (es : Entries) → FitsEntries es → EntriesTrips es
  entries_trips Entries.no_entries h = no_entries_trip
  entries_trips (Entries.more_entries key v es) (hk, ht, hv, above, h) =
      more_entries_trip key v es hk ht above (tag_trips v hv) (entries_trips es h)
