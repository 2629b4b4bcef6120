-- ===== src/Connection/Batch.antt =====
-- The packets of a batch one after the other, each behind its length: the loops of `flush`,
-- `flushIfDue`, `flushPendingBeforeStateChangeUnlocked` and `serializeBatchedPackets`, and the loop of
-- `deserializeBatchPackets`, in src/sculk/protocol/connection/Session.cpp.
pub mod Total
use beprotocol.Common.{
  ℕ, zero, suc, ◌+◌, ◌-◌, ◌%◌, ◌^◌, ◌≤◌, ◌<◌, ◌≡◌, refl, sym, ap, ◌∙◌, subst, List, [], ◌∷◌, ◌++◌,
  append-nil, append_assoc, length, length-append, All, Bool, true, false, ltb, if◌then◌else◌,
  arith,
}
use beprotocol.Stream.{
  Outcome, ReadOnlyBinaryStream, Reader, Writer, IsSize, pure, fail, ◌>>=◌, ◌>>◌, or_error,
}
use beprotocol.Stream.Fixed.{write_bytes, read_bytes, has_data_left, open_stream}
use beprotocol.Stream.Fixed.RoundTrip.{Decodes-read_bytes}
use beprotocol.Stream.RoundTrip.{
  positioned, Decodes, RoundTrips, Decodes-bind, Decodes-then, RoundTrips-or_error,
}
use beprotocol.Stream.VarInt.{write_unsigned_var_int, read_unsigned_var_int}
use beprotocol.Stream.VarInt.RoundTrip.{RoundTrips-unsigned_var_int, unsigned_var_int-nonempty}
use native.Mathlib.Nat.{mod-eq_of_lt}

-- `writeUnsignedVarInt(packet.size())` and `writeBytes(packet)`.
unfoldable pub write_framed : List ℕ → Writer
write_framed packet = do write_unsigned_var_int (length packet % 2 ^ 32); write_bytes packet

unfoldable pub write_batch : List (List ℕ) → Writer
write_batch [] buffer = buffer
write_batch (packet ∷ packets) buffer = write_batch packets (write_framed packet buffer)

-- One round of the loop: a length, the test against what is left, and the bytes.
unfoldable pub read_framed : Reader (List ℕ)
read_framed = do
  size ← or_error "failed to read batched packet size" read_unsigned_var_int
  λ s.
      if ltb (length s.buffer_view - s.read_pointer) size
      then (Outcome.err "batched packet size exceeds remaining payload", s)
      else or_error "failed to read batched packet payload" (read_bytes size) s

-- `while (stream.hasDataLeft())`. A round reads a byte at least, so that the bytes of the buffer are
-- fuel enough; `fault` stands for a loop that goes on.
unfoldable pub read_batch : ℕ → Reader (List (List ℕ))
read_batch zero s = (Outcome.fault, s)
read_batch (suc fuel) s =
    let more : Reader (List (List ℕ)) = do
      packet ← read_framed
      packets ← read_batch fuel
      pure (packet ∷ packets)
    in if has_data_left s then more s else (Outcome.ok [], s)

unfoldable pub parse_batch : List ℕ → Outcome (List (List ℕ))
parse_batch buffer = (read_batch (suc (length buffer)) (open_stream buffer)).0

-- A packet whose length fits its prefix.
abbrev pub FitsFrame : List ℕ → Type 0
FitsFrame packet = length packet < 2 ^ 32

-- The bytes left after the length are enough.
payload_left :
    (before packet rest : List ℕ)
    → ltb (length (before ++ (packet ++ rest)) - length before) (length packet) ≡ false
payload_left before packet rest =
    ground (arith, length-append before (packet ++ rest), length-append packet rest)

Decodes-payload :
    (packet : List ℕ)
    → Decodes
        (λ s.
          if ltb (length s.buffer_view - s.read_pointer) (length packet)
          then (Outcome.err "batched packet size exceeds remaining payload", s)
          else or_error "failed to read batched packet payload" (read_bytes (length packet)) s)
        packet
        packet
unfolding or_error
Decodes-payload packet = record {
  decode = λ before rest bounded.
      rw (payload_left before packet rest)
        (rw ((Decodes-read_bytes packet).decode before rest bounded));
}

RoundTrips-size :
    (packet : List ℕ)
    → FitsFrame packet
    → RoundTrips
        (write_unsigned_var_int (length packet))
        (or_error "failed to read batched packet size" read_unsigned_var_int)
        (length packet)
RoundTrips-size packet fits =
    RoundTrips-or_error _ _ (RoundTrips-unsigned_var_int (length packet) fits)

RoundTrips-framed :
    (packet : List ℕ) → FitsFrame packet → RoundTrips (write_framed packet) read_framed packet
unfolding write_framed read_framed write_bytes ◌>>◌
RoundTrips-framed packet fits = record {
  bytes = size.bytes ++ packet;
  written = λ buffer.
      rw (mod-eq_of_lt fits) (rw (size.written buffer) (append_assoc buffer size.bytes packet));
  decoded = Decodes-bind _ _ size.decoded (Decodes-payload packet);
}
  where
    size :
        RoundTrips
          (write_unsigned_var_int (length packet))
          (or_error "failed to read batched packet size" read_unsigned_var_int)
          (length packet)
    size = RoundTrips-size packet fits

framed-nonempty :
    (packet : List ℕ) (fits : FitsFrame packet) → 1 ≤ length (RoundTrips-framed packet fits).bytes
unfolding RoundTrips-framed RoundTrips-size RoundTrips-or_error
framed-nonempty packet fits = omega (
  arith,
  unsigned_var_int-nonempty (length packet) fits,
  length-append (RoundTrips-unsigned_var_int (length packet) fits).bytes packet,
)

-- The bytes of a batch: whatever has been read before, the loop reads these to the end.
record BatchTrips (packets : List (List ℕ)) : Type 0 where
  bytes : List ℕ
  written : (buffer : List ℕ) → write_batch packets buffer ≡ buffer ++ bytes
  parsed :
      (fuel : ℕ) (before : List ℕ)
      → length bytes < fuel
      → IsSize (length (before ++ bytes))
      → read_batch fuel (positioned before bytes)
        ≡ (Outcome.ok packets, positioned (before ++ bytes) [])

-- One more round of the loop.
read_batch_step :
    (fuel : ℕ) (s t : ReadOnlyBinaryStream) (packet : List ℕ) (packets : List (List ℕ))
    (end : ReadOnlyBinaryStream)
    → has_data_left s ≡ true
    → read_framed s ≡ (Outcome.ok packet, t)
    → read_batch fuel t ≡ (Outcome.ok packets, end)
    → read_batch (suc fuel) s ≡ (Outcome.ok (packet ∷ packets), end)
unfolding read_batch ◌>>=◌ pure
read_batch_step fuel s t packet packets end left first later = rw (left, first, later)

read_batch-nil :
    (fuel : ℕ) (before : List ℕ)
    → 0 < fuel
    → read_batch fuel (positioned before []) ≡ (Outcome.ok [], positioned (before ++ []) [])
unfolding read_batch has_data_left
read_batch-nil zero before h = elim h [ ]
read_batch-nil (suc fuel) before h = rw (append-nil, nothing) (rw append-nil)
  where
    nothing : ltb (length before) (length before) ≡ false
    nothing = ground arith

BatchTrips-nil : BatchTrips []
unfolding write_batch
BatchTrips-nil = record {
  bytes = [];
  written = λ buffer. sym (append-nil buffer);
  parsed = λ fuel before h _. read_batch-nil fuel before h;
}

BatchTrips-cons :
    (packet : List ℕ) (packets : List (List ℕ))
    → FitsFrame packet
    → BatchTrips packets
    → BatchTrips (packet ∷ packets)
unfolding write_batch
BatchTrips-cons packet packets fits later = record {
  bytes = first.bytes ++ later.bytes;
  written = λ buffer.
      rw (first.written buffer)
        (later.written (buffer ++ first.bytes) ∙ append_assoc buffer first.bytes later.bytes);
  parsed = go;
}
  where
    first : RoundTrips (write_framed packet) read_framed packet
    first = RoundTrips-framed packet fits

    go :
        (fuel : ℕ) (before : List ℕ)
        → length (first.bytes ++ later.bytes) < fuel
        → IsSize (length (before ++ (first.bytes ++ later.bytes)))
        → read_batch fuel (positioned before (first.bytes ++ later.bytes))
          ≡ (Outcome.ok (packet ∷ packets), positioned (before ++ (first.bytes ++ later.bytes)) [])
    go zero before h bounded = elim h [ ]
    go (suc fuel) before h bounded =
        subst
          (λ (t : List ℕ).
            read_batch (suc fuel) (positioned before (first.bytes ++ later.bytes))
            ≡ (Outcome.ok (packet ∷ packets), positioned t []))
          (append_assoc before first.bytes later.bytes)
          (read_batch_step fuel _ _ packet packets _ left
            (first.decoded.decode before later.bytes bounded)
            (later.parsed fuel (before ++ first.bytes) (omega (arith, nonempty, sizes)) bounded'))
      where
        nonempty : 1 ≤ length first.bytes
        nonempty = framed-nonempty packet fits

        sizes : length (first.bytes ++ later.bytes) ≡ length first.bytes + length later.bytes
        sizes = length-append first.bytes later.bytes

        left : has_data_left (positioned before (first.bytes ++ later.bytes)) ≡ true
        left =
            unfold has_data_left in
            ground (arith, nonempty, sizes, length-append before (first.bytes ++ later.bytes))

        bounded' : IsSize (length ((before ++ first.bytes) ++ later.bytes))
        bounded' =
            subst (λ (t : List ℕ). IsSize (length t))
              (sym (append_assoc before first.bytes later.bytes)) bounded

BatchTrips-All : (packets : List (List ℕ)) → All FitsFrame packets → BatchTrips packets
BatchTrips-All [] h = BatchTrips-nil
BatchTrips-All (packet ∷ packets) (fits, h) =
    BatchTrips-cons packet packets fits (BatchTrips-All packets h)

-- Of packets shorter than `2 ^ 32` bytes that the loop of `flush` has put into one batch, of less than
-- `2 ^ 64` bytes, the loop of `deserializeBatchPackets` gives back these packets in their order.
pub parse_batch-write_batch :
    (packets : List (List ℕ))
    → All FitsFrame packets
    → IsSize (length (write_batch packets []))
    → parse_batch (write_batch packets []) ≡ Outcome.ok packets
unfolding parse_batch open_stream
parse_batch-write_batch packets fits bounded = rw (trips.written []) (
    ap (λ (r : Outcome (List (List ℕ)) × ReadOnlyBinaryStream). r.0)
      (trips.parsed (suc (length trips.bytes)) [] (omega arith)
        (subst (λ (t : List ℕ). IsSize (length t)) (trips.written []) bounded)))
  where
    trips : BatchTrips packets
    trips = BatchTrips-All packets fits
