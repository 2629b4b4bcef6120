-- ===== src/Connection/Ingress/Delivery.antt =====
-- From a client's session to the server's callback.
use beprotocol.Common.{
  ℕ, suc, ◌^◌, ◌≤◌, ◌<◌, ◌≡◌, refl, sym, ap, ◌∙◌, subst, List, [], ◌∷◌, ◌++◌, append-nil, All, true,
  false, Option, none, some, length, ltb, leb, ◌==◌, arith,
}
use beprotocol.Stream.{Outcome, IsSize, ◌>>=◌, ◌>>◌}
use beprotocol.Stream.Fixed.{open_stream, has_data_left}
use beprotocol.Stream.RoundTrip.{positioned, RoundTrips}
use beprotocol.Packet.Dispatch.{
  PacketClass, IPacket, PacketHeader, write_packet_header, write_header, write_with_header,
  read_packet_header, read_created, read_and_create_packet_from_header,
}
use beprotocol.Packet.Dispatch.RoundTrip.{
  FitsPacket, RoundTrips-packet_header, RoundTrips-created, header, created,
}
use mathlib.Core.List.{map}
use beprotocol.Connection.Batch.{write_batch, FitsFrame}
use beprotocol.Connection.Crypto.InStep.{CtrMode}
use beprotocol.Connection.Zlib.RoundTrip.{ZlibLaws}
use beprotocol.Connection.Compression.{SnappyLaws}
use beprotocol.Connection.Envelope.{
  Libraries, Session, compress_batch, serialize_batched_packets, deserialize_batch_packets,
}
use beprotocol.Connection.Envelope.RoundTrip.{
  EncryptionInStep, FitsEncryption, Takes, reaches, deserialize-serialize,
}
use beprotocol.Connection.Ingress.{
  Limits, admit, CallbackSet, Effect, Context, process_taken, process_session_packet, deliver_batch,
  deliver_packet, deliver_parsed, deliver_created, deliver_payload, deliver_payloads,
}

-- A packet of a class that the switch constructs, which its format can carry.
pub record IsSendable (registry : ℕ → Option PacketClass) (p : IPacket) : Type 1 where
  pub registered : registry p.packet_class.id ≡ some p.packet_class
  pub packet_fits : FitsPacket p
  pub short : length (write_with_header p []) < 2 ^ 32

module _ (registry : ℕ → Option PacketClass) (p : IPacket) (h : IsSendable registry p) where
  abbrev its_header : PacketHeader
  its_header = header registry p h.registered h.packet_fits

  RoundTrips-head : RoundTrips (write_packet_header its_header) read_packet_header its_header
  RoundTrips-head = RoundTrips-packet_header its_header h.packet_fits.header_fits

  RoundTrips-body :
      RoundTrips (p.packet_class.write p.state) (read_created registry its_header p.packet_class) p
  RoundTrips-body = RoundTrips-created registry p h.registered h.packet_fits

  write_with_header-bytes : write_with_header p [] ≡ RoundTrips-head.bytes ++ RoundTrips-body.bytes
  unfolding write_with_header write_header write_packet_header ◌>>◌
  write_with_header-bytes =
      ap (p.packet_class.write p.state) (RoundTrips-head.written [])
      ∙ RoundTrips-body.written RoundTrips-head.bytes

  short_bytes : length (RoundTrips-head.bytes ++ RoundTrips-body.bytes) < 2 ^ 32
  short_bytes = subst (λ (t : List ℕ). length t < 2 ^ 32) write_with_header-bytes h.short

  header_read :
      read_packet_header (open_stream (write_with_header p []))
      ≡ (Outcome.ok its_header, positioned RoundTrips-head.bytes RoundTrips-body.bytes)
  unfolding open_stream
  header_read =
      rw write_with_header-bytes
        (RoundTrips-head.decoded.decode [] RoundTrips-body.bytes (omega (arith, short_bytes)))

  created_read :
      read_created registry its_header p.packet_class
        (positioned RoundTrips-head.bytes RoundTrips-body.bytes)
      ≡ (Outcome.ok p, positioned (RoundTrips-head.bytes ++ RoundTrips-body.bytes) [])
  created_read =
      subst
        (λ (t : List ℕ).
          read_created registry its_header p.packet_class (positioned RoundTrips-head.bytes t)
          ≡ (Outcome.ok p, positioned (RoundTrips-head.bytes ++ RoundTrips-body.bytes) []))
        (append-nil RoundTrips-body.bytes)
        (RoundTrips-body.decoded.decode RoundTrips-head.bytes []
          (rw append-nil (omega (arith, short_bytes))))

  nothing_left :
      ltb
        (length (RoundTrips-head.bytes ++ RoundTrips-body.bytes))
        (length ((RoundTrips-head.bytes ++ RoundTrips-body.bytes) ++ []))
      ≡ false
  nothing_left = rw append-nil (ground arith)

  body_read :
      read_and_create_packet_from_header registry its_header
        (positioned RoundTrips-head.bytes RoundTrips-body.bytes)
      ≡ (Outcome.ok p, positioned (RoundTrips-head.bytes ++ RoundTrips-body.bytes) [])
  unfolding read_and_create_packet_from_header ◌>>=◌ has_data_left
  body_read =
      rw (created registry p h.registered h.packet_fits) (rw created_read (rw nothing_left refl))

  deliver_packet-write_with_header :
      (callbacks : CallbackSet)
      → deliver_packet registry callbacks (write_with_header p []) ≡ Effect.received p ∷ []
  unfolding deliver_packet deliver_parsed deliver_created
  deliver_packet-write_with_header callbacks = rw header_read (rw body_read refl)

module _ (registry : ℕ → Option PacketClass) (callbacks : CallbackSet) where
  -- The callback gets packets one after the other.
  pub deliver_payloads-map :
      (ps : List IPacket)
      → All (IsSendable registry) ps
      → callbacks.on_packet_receive ≡ true
      → callbacks.on_raw_packet_receive ≡ none
      → deliver_payloads registry callbacks (map (λ p. write_with_header p []) ps)
        ≡ map Effect.received ps
  unfolding deliver_payloads deliver_payload
  deliver_payloads-map [] h set open_all = refl
  deliver_payloads-map (p ∷ ps) (hp, h) set open_all =
      rw (one, deliver_payloads-map ps h set open_all) refl
    where
      one : deliver_payload registry callbacks (write_with_header p []) ≡ Effect.received p ∷ []
      one = rw (set, open_all) (deliver_packet-write_with_header registry p hp callbacks)

-- An outcome is of one value only.
value_of {ℓ} : {A : Type ℓ} → A → Outcome A → A
value_of a (Outcome.ok b) = b
value_of a (Outcome.err message) = a
value_of a Outcome.fault = a

same_ok {ℓ} : {A : Type ℓ} (a b : A) → Outcome.ok a ≡ Outcome.ok b → a ≡ b
unfolding value_of
same_ok a b e = ap (value_of a) e

FitsFrame-sent :
    (registry : ℕ → Option PacketClass) (ps : List IPacket)
    → All (IsSendable registry) ps
    → All FitsFrame (map (λ p. write_with_header p []) ps)
FitsFrame-sent registry [] h = tt
FitsFrame-sent registry (p ∷ ps) (hp, h) = (hp.short, FitsFrame-sent registry ps h)

-- Let zlib, snappy and OpenSSL behave as `ZlibLaws`, `SnappyLaws` and `CtrMode` say, and let the client's session
-- `a` and the session of the server's context have the same compression, neither of them encrypted or both and in
-- step. Let the server have a callback for packets and none for raw ones, let its limits take the message, and let
-- `0xfe` be neither of the ids by which RakNet says that a connection is lost. Let the reads of the registered
-- classes undo their writes, as `PacketClass` promises and as is shown of the modelled classes. Let the client
-- serialize packets of such classes that their formats can carry, each shorter than `2 ^ 32` bytes, with the members
-- that no byte carries at their defaults, in a batch that, if it reaches the threshold, is within the limit of 64
-- MiB of zlib or snappy, or has no compression, with sizes below `2 ^ 64`, and below `2 ^ 31 - 8` for what is
-- encrypted, into at least one byte. If the server gets the bytes behind `0xfe`, then it hands exactly these packets
-- to its callback in their order, and does nothing else.
pub process_session_packet-serialize :
    (registry : ℕ → Option PacketClass) (libs : Libraries) (zlib_laws : ZlibLaws libs.zlib)
    (snappy_laws : SnappyLaws libs.snappy) (mode : CtrMode libs.ssl) (notification lost : ℕ)
    → (0xfe == notification) ≡ false
    → (0xfe == lost) ≡ false
    → (limits : Limits) (callbacks : CallbackSet) (now : ℕ) (a : Session libs)
      (c : Context registry libs notification lost) (ps : List IPacket) (bytes : List ℕ)
    → callbacks.on_packet_receive ≡ true
    → callbacks.on_raw_packet_receive ≡ none
    → (admit limits now c.window).0 ≡ true
    → suc (length bytes) ≤ limits.max_packet_bytes
    → 1 ≤ length bytes
    → a.compression_type ≡ c.session.compression_type
    → EncryptionInStep libs mode a.encryption c.session.encryption
    → All (IsSendable registry) ps
    → IsSize (length (write_batch (map (λ p. write_with_header p []) ps) []))
    → ((type : ℕ)
        → a.compression_type ≡ some type
        → reaches libs a.compression_threshold
            (write_batch (map (λ p. write_with_header p []) ps) [])
          ≡ true
        → Takes libs type (write_batch (map (λ p. write_with_header p []) ps) []))
    → IsSize (
        length (
          compress_batch libs a.compression_type a.compression_threshold
            (write_batch (map (λ p. write_with_header p []) ps) [])))
    → FitsEncryption libs a.encryption (
        compress_batch libs a.compression_type a.compression_threshold
          (write_batch (map (λ p. write_with_header p []) ps) []))
    → (serialize_batched_packets libs a (map (λ p. write_with_header p []) ps)).0 ≡ Outcome.ok bytes
    → (process_session_packet registry libs notification lost limits callbacks now 0xfe bytes c).0
      ≡ map Effect.received ps
unfolding process_session_packet process_taken deliver_batch
process_session_packet-serialize registry libs zlib_laws snappy_laws mode notification lost n l
      limits callbacks now a c ps bytes set open_all taken small some_bytes same in_step h size
      takes packed ciphers sent =
    rw (fits, taken, n, l, long, opened) (deliver_payloads-map registry callbacks ps h set open_all)
  where
    fits : ltb limits.max_packet_bytes (suc (length bytes)) ≡ false
    fits = ground arith

    long : leb (suc (length bytes)) 1 ≡ false
    long = ground arith

    there :
        (b : List ℕ) × ((serialize_batched_packets libs a (map (λ p. write_with_header p []) ps)).0
          ≡ Outcome.ok b)
        × ((deserialize_batch_packets libs c.session b).0
            ≡ Outcome.ok (map (λ p. write_with_header p []) ps))
        × EncryptionInStep libs mode
            (serialize_batched_packets libs a (map (λ p. write_with_header p []) ps)).1.encryption
            (deserialize_batch_packets libs c.session b).1.encryption
    there =
        deserialize-serialize libs zlib_laws snappy_laws mode a c.session
          (map (λ p. write_with_header p []) ps) same in_step (FitsFrame-sent registry ps h) size
          takes packed ciphers

    opened :
        (deserialize_batch_packets libs c.session bytes).0
        ≡ Outcome.ok (map (λ p. write_with_header p []) ps)
    opened =
        subst
          (λ (b : List ℕ).
            (deserialize_batch_packets libs c.session b).0
            ≡ Outcome.ok (map (λ p. write_with_header p []) ps))
          (same_ok there.0 bytes (sym there.1 ∙ sent)) there.2
