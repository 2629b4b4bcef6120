-- ===== src/Packet/Nbt/ReadBack.antt =====
-- `CompoundTag::write` and `CompoundTag::read` of src/sculk/protocol/codec/nbt/CompoundTag.cpp, one after the other.
use beprotocol.Common.{
  ℕ, suc, ap, subst, ◌∙◌, List, [], none, ◌++◌, append_assoc, length, length-append, arith,
}
use beprotocol.Stream.{Outcome, IsSize, pure, ◌>>◌}
use beprotocol.Stream.Fixed.{ignore_bytes}
use beprotocol.Stream.Fixed.RoundTrip.{Decodes-ignore_bytes}
use beprotocol.Stream.RoundTrip.{
  Decodes, RoundTrips, Decodes-bind, Decodes-then, ReadsBack, RoundTrips-ReadsBack,
}
use beprotocol.Packet.Nbt.{
  Entries, read_entries_tag, serialize_entries, deserialize_compound, write_compound, read_compound,
}
use beprotocol.Packet.Nbt.Fits.{FitsEntries, entry_list, entries_of-entry_list, Follows-nil}
use beprotocol.Packet.Nbt.Leaves.{write_type, read_type, RoundTrips-type, length-type, EntriesTrips}
use beprotocol.Packet.Nbt.RoundTrip.{end_written, entries_trips}

-- The loop starts with the bytes of the whole buffer as its fuel.
Decodes-entries :
    (es : Entries) (rs : EntriesTrips es)
    → Decodes
        (λ s. read_entries_tag none (suc (length s.buffer_view)) [] s)
        rs.bytes
        (entry_list es)
Decodes-entries es rs = record {
  decode = λ before rest fits.
      (rs.decoded (suc (length (before ++ (rs.bytes ++ rest)))) []
          (omega
            (arith, rs.deep, length-append before (rs.bytes ++ rest), length-append rs.bytes rest))
          (Follows-nil es)).decode
        before rest fits;
}

pub RoundTrips-entries :
    (es : Entries) → FitsEntries es → RoundTrips (serialize_entries es) deserialize_compound es
unfolding deserialize_compound
RoundTrips-entries es h = record {
  bytes = rs.bytes;
  written = rs.written;
  decoded =
      Decodes-then _ _ (Decodes-entries es rs)
        (λ s. unfold pure in ap (λ (us : Entries). (Outcome.ok us, s)) (entries_of-entry_list es));
}
  where
    rs : EntriesTrips es
    rs = entries_trips es h

pub RoundTrips-compound :
    (es : Entries) → FitsEntries es → RoundTrips (write_compound es) read_compound es
unfolding write_compound read_compound ◌>>◌
RoundTrips-compound es h = record {
  bytes = t.bytes ++ (name.bytes ++ rs.bytes);
  written = λ buffer.
      rw
        (
          t.written buffer,
          end_written (buffer ++ t.bytes),
          name.written (buffer ++ t.bytes),
          rs.written ((buffer ++ t.bytes) ++ name.bytes),
        )
        (append_assoc (buffer ++ t.bytes) name.bytes rs.bytes
          ∙ append_assoc buffer t.bytes (name.bytes ++ rs.bytes));
  decoded = Decodes-bind _ _ t.decoded (Decodes-bind _ _ skipped rs.decoded);
}
  where
    t : RoundTrips (write_type 10) read_type 10
    t = RoundTrips-type 10 (omega arith)

    name : RoundTrips (write_type 0) read_type 0
    name = RoundTrips-type 0 (omega arith)

    rs : RoundTrips (serialize_entries es) deserialize_compound es
    rs = RoundTrips-entries es h

    skipped : Decodes (ignore_bytes 1) name.bytes tt
    skipped =
        subst (λ (n : ℕ). Decodes (ignore_bytes n) name.bytes tt) (length-type 0 name)
          (Decodes-ignore_bytes name.bytes)

-- A compound of any depth whose values are of their types, whose arrays and lists have fewer than `2 ^ 31` elements,
-- whose lists hold only tags of their type, and whose entries are in the order of their keys with no EndTag among
-- them: what `CompoundTag::write` has written behind any bytes, `CompoundTag::read` reads back whole; it stops right
-- behind it.
pub read_compound-write_compound :
    (es : Entries)
    → FitsEntries es
    → (buffer rest : List ℕ) → IsSize (length (write_compound es buffer ++ rest))
    → ReadsBack (write_compound es) read_compound es buffer rest
read_compound-write_compound es h = RoundTrips-ReadsBack (RoundTrips-compound es h)
