-- ===== src/Packet/Dispatch/RoundTrip.antt =====
-- A packet that goes out with its header comes back as the same object of the same class.
use beprotocol.Common.{
  ℕ, ◌+◌, ◌*◌, ◌/◌, ◌^◌, ◌<◌, ◌≡◌, refl, ap, Option, some, List, [], ◌∷◌, ◌++◌, length, true, false,
  ltb, arith, bit_and, length-append, append-nil, subst,
}
use beprotocol.Common.Bits.{bit_and_three, bit_and_1023, bit_or_disjoint}
use beprotocol.Stream.{Outcome, IsSize, pure, ◌>>=◌, or_error}
use beprotocol.Stream.Fixed.{open_stream, has_data_left}
use beprotocol.Stream.RoundTrip.{
  RoundTrips, RoundTrips-bind, RoundTrips-last, RoundTrips-or_error, RoundTrips-whole,
}
use beprotocol.Stream.VarInt.RoundTrip.{RoundTrips-unsigned_var_int}
use beprotocol.Packet.Dispatch.{
  PacketClass, IPacket, PacketHeader, header_bits, write_packet_header, parse_header,
  read_packet_header, write_header, write_with_header, create_packet, read_created,
  read_and_create_packet_from_stream, no_data_left, read_and_create_packet_from_buffer,
}

-- Ids have ten bits, sub-client ids two.
pub record FitsHeader (id sender target : ℕ) : Type 0 where
  pub id_fits : id < 1024
  pub sender_fits : sender < 4
  pub target_fits : target < 4

module _ (id sender target : ℕ) (h : FitsHeader id sender target) where
  header_bits-sum : header_bits id sender target ≡ id + sender * 2 ^ 10 + target * 2 ^ 12
  unfolding header_bits
  header_bits-sum =
      rw (masked_id, masked_sender, masked_target)
        (rw (bit_or_disjoint 10 id sender h.id_fits)
          (bit_or_disjoint 12 (id + sender * 2 ^ 10) target (omega arith)))
    where
      masked_id : bit_and id 0x3ff ≡ id
      masked_id = omega (arith, bit_and_1023 id)

      masked_sender : bit_and sender 3 ≡ sender
      masked_sender = omega (arith, bit_and_three sender)

      masked_target : bit_and target 3 ≡ target
      masked_target = omega (arith, bit_and_three target)

  parse_header-header_bits :
      parse_header (header_bits id sender target)
      ≡ record { packet_id = id; sender_sub_client_id = sender; target_sub_client_id = target }
  unfolding parse_header
  parse_header-header_bits = rw header_bits-sum (λ i. record {
    packet_id = low i;
    sender_sub_client_id = middle i;
    target_sub_client_id = high i;
  })
    where
      value : ℕ
      value = id + sender * 2 ^ 10 + target * 2 ^ 12

      low : bit_and value 0x3ff ≡ id
      low = omega (arith, bit_and_1023 value)

      middle : bit_and (value / 2 ^ 10) 3 ≡ sender
      middle = omega (arith, bit_and_three (value / 2 ^ 10))

      high : bit_and (value / 2 ^ 12) 3 ≡ target
      high = omega (arith, bit_and_three (value / 2 ^ 12))

  header_bits-lt : header_bits id sender target < 2 ^ 32
  header_bits-lt = omega (arith, header_bits-sum)

pub RoundTrips-packet_header :
    (h : PacketHeader)
    → FitsHeader h.packet_id h.sender_sub_client_id h.target_sub_client_id
    → RoundTrips (write_packet_header h) read_packet_header h
unfolding write_packet_header read_packet_header
RoundTrips-packet_header h fits =
    RoundTrips-last _ _ _
      (RoundTrips-or_error _ _ (RoundTrips-unsigned_var_int _ (header_bits-lt _ _ _ fits)))
      (ap pure (parse_header-header_bits _ _ _ fits))

-- What an object must satisfy to be written and read back.
pub record FitsPacket (p : IPacket) : Type 0 where
  pub header_fits : FitsHeader p.packet_class.id p.sender_sub_client_id p.target_sub_client_id
  pub state_fits : p.packet_class.Fits p.state

module _ (registry : ℕ → Option PacketClass) (p : IPacket)
    (registered : registry p.packet_class.id ≡ some p.packet_class) (fits : FitsPacket p) where
  abbrev pub header : PacketHeader
  header = record {
    packet_id = p.packet_class.id;
    sender_sub_client_id = p.sender_sub_client_id;
    target_sub_client_id = p.target_sub_client_id;
  }

  pub RoundTrips-created :
      RoundTrips (p.packet_class.write p.state) (read_created registry header p.packet_class) p
  unfolding read_created
  RoundTrips-created =
      RoundTrips-last _ _ _ (RoundTrips-or_error _ _ (p.packet_class.codec p.state fits.state_fits))
        refl

  pub created : create_packet registry header.packet_id ≡ Outcome.ok p.packet_class
  unfolding create_packet
  created = rw (registered, create_packet)

  -- The class is found without reading.
  RoundTrips-class :
      RoundTrips
        (p.packet_class.write p.state)
        (or_error "Failed to create packet" (λ s. (create_packet registry header.packet_id, s))
          >>= λ c. read_created registry header c)
        p
  unfolding ◌>>=◌ or_error
  RoundTrips-class = record {
    bytes = RoundTrips-created.bytes;
    written = RoundTrips-created.written;
    decoded = record {
      decode = λ before rest size. rw created (RoundTrips-created.decoded.decode before rest size);
    };
  }

  -- What `writeWithHeader` writes, `readAndCreatePacketFromStream` reads back.
  pub RoundTrips-packet :
      RoundTrips (write_with_header p) (read_and_create_packet_from_stream registry) p
  unfolding write_with_header write_header write_packet_header read_and_create_packet_from_stream
  RoundTrips-packet =
      RoundTrips-bind _ _ _ _
        (RoundTrips-or_error _ _ (RoundTrips-packet_header header fits.header_fits))
        RoundTrips-class

  module _ (size : IsSize (length (write_with_header p []))) where
    -- The whole buffer is read, and nothing is left.
    pub read-write_with_header :
        read_and_create_packet_from_buffer registry (write_with_header p []) ≡ Outcome.ok p
    unfolding read_and_create_packet_from_buffer no_data_left open_stream has_data_left
    read-write_with_header = rw (RoundTrips-whole RoundTrips-packet size) (rw nothing_left)
      where
        nothing_left :
            ltb (length (write_with_header p [])) (length (write_with_header p [] ++ [])) ≡ false
        nothing_left = rw append-nil (ground arith)

-- If a packet of a registered class that its format can carry has been written with its header, and at
-- least one byte follows, `readAndCreatePacketFromBuffer` refuses the buffer.
pub read-write_with_header-extra :
    (registry : ℕ → Option PacketClass) (p : IPacket)
    → registry p.packet_class.id ≡ some p.packet_class
    → FitsPacket p
    → (x : ℕ) (extra : List ℕ) → IsSize (length (write_with_header p [] ++ (x ∷ extra)))
    → read_and_create_packet_from_buffer registry (write_with_header p [] ++ (x ∷ extra))
      ≡ Outcome.err "Extra data left in buffer after reading packet"
unfolding read_and_create_packet_from_buffer no_data_left open_stream has_data_left
read-write_with_header-extra registry p registered fits x extra size =
    rw (r.written []) (rw (r.decoded.decode [] (x ∷ extra) size') (rw more))
  where
    r : RoundTrips (write_with_header p) (read_and_create_packet_from_stream registry) p
    r = RoundTrips-packet registry p registered fits

    size' : IsSize (length (r.bytes ++ (x ∷ extra)))
    size' = subst (λ (t : List ℕ). IsSize (length (t ++ (x ∷ extra)))) (r.written []) size

    more : ltb (length r.bytes) (length (r.bytes ++ (x ∷ extra))) ≡ true
    more = ground (arith, length-append r.bytes (x ∷ extra))
