-- ===== src/Packet/Dispatch.antt =====
-- src/sculk/protocol/codec/MinecraftPackets.cpp and codec/packet/IPacket.cpp: the header of a packet
-- and the choice of the class that reads the rest.
pub mod RoundTrip
use beprotocol.Common.{
  ℕ, ◌*◌, ◌/◌, ◌%◌, ◌^◌, Bool, Option, none, some, List, if◌then◌else◌, bit_and, bit_or,
}
use beprotocol.Stream.{Outcome, ReadOnlyBinaryStream, Reader, Writer, pure, ◌>>=◌, ◌>>◌, or_error}
use beprotocol.Stream.Fixed.{open_stream, has_data_left}
use beprotocol.Stream.RoundTrip.{RoundTrips}
use beprotocol.Stream.VarInt.{write_unsigned_var_int, read_unsigned_var_int}

-- A class that implements `IPacket`, with what it promises of its codec. `read` starts from the
-- object that the class's constructor makes.
pub record PacketClass : Type 1 where
  pub State : Type 0
  pub id : ℕ
  pub write : State → Writer
  pub read : Reader State
  pub Fits : State → Type 0
  pub codec : (p : State) → Fits p → RoundTrips (write p) read p

-- An object of such a class, with the members of `IPacket` itself.
pub record IPacket : Type 1 where
  pub packet_class : PacketClass
  pub sender_sub_client_id : ℕ
  pub target_sub_client_id : ℕ
  pub state : packet_class.State

pub record PacketHeader : Type 0 where
  pub packet_id : ℕ
  pub sender_sub_client_id : ℕ
  pub target_sub_client_id : ℕ

-- `(id & 0x3FF) | ((sender & 3) << 10) | ((target & 3) << 12)`.
unfoldable pub header_bits : ℕ → ℕ → ℕ → ℕ
header_bits id sender target =
    bit_or (bit_or (bit_and id 0x3ff) (bit_and sender 3 * 2 ^ 10)) (bit_and target 3 * 2 ^ 12)

unfoldable pub write_packet_header : PacketHeader → Writer
write_packet_header h =
    write_unsigned_var_int (header_bits h.packet_id h.sender_sub_client_id h.target_sub_client_id)

unfoldable pub parse_header : ℕ → PacketHeader
parse_header header = record {
  packet_id = bit_and header 0x3ff;
  sender_sub_client_id = bit_and (header / 2 ^ 10) 3;
  target_sub_client_id = bit_and (header / 2 ^ 12) 3;
}

unfoldable pub read_packet_header : Reader PacketHeader
read_packet_header = or_error "Failed to read packet header" read_unsigned_var_int >>= λ header.
    pure (parse_header header)

-- `IPacket::writeHeader` and `IPacket::writeWithHeader`.
unfoldable pub write_header : IPacket → Writer
write_header p =
    write_unsigned_var_int
      (header_bits p.packet_class.id p.sender_sub_client_id p.target_sub_client_id)

unfoldable pub write_with_header : IPacket → Writer
write_with_header p = do write_header p; p.packet_class.write p.state

-- `registry` says which class a case of the switch in `createPacket(packetId)` constructs.
module _ (registry : ℕ → Option PacketClass) where
  unfoldable pub create_packet : ℕ → Outcome PacketClass
  create_packet id = elim (registry id) [
    | none ↦ Outcome.err "Invalid packet ID"
    | some c ↦ Outcome.ok c
  ]

  -- `createPacket(header)` followed by `read`, in which the header's members stay.
  unfoldable pub read_created : PacketHeader → PacketClass → Reader IPacket
  read_created header c = do
    state ← or_error "Failed to read packet from stream" c.read
    pure (record {
      packet_class = c;
      sender_sub_client_id = header.sender_sub_client_id;
      target_sub_client_id = header.target_sub_client_id;
      state = state;
    })

  unfoldable pub read_and_create_packet_from_stream : Reader IPacket
  read_and_create_packet_from_stream = do
    header ← or_error "Failed to read packet header" read_packet_header
    c ← or_error "Failed to create packet" (λ s. (create_packet header.packet_id, s))
    read_created header c

  -- `if (stream.hasDataLeft()) return makeError(...)` after a packet.
  unfoldable pub no_data_left : Outcome IPacket × ReadOnlyBinaryStream → Outcome IPacket
  no_data_left (Outcome.ok p, s) =
      if has_data_left s
      then Outcome.err "Extra data left in buffer after reading packet"
      else Outcome.ok p
  no_data_left (Outcome.err message, s) = Outcome.err "Failed to create packet from buffer"
  no_data_left (Outcome.fault, s) = Outcome.fault

  unfoldable pub read_and_create_packet_from_buffer : List ℕ → Outcome IPacket
  read_and_create_packet_from_buffer buffer =
      no_data_left (read_and_create_packet_from_stream (open_stream buffer))

  -- Here the error of `createPacket` is passed on.
  unfoldable pub read_and_create_packet_from_header : PacketHeader → Reader IPacket
  read_and_create_packet_from_header header = do
    c ← (λ s. (create_packet header.packet_id, s))
    p ← read_created header c
    λ s. (
      if has_data_left s
          then Outcome.err "Extra data left in buffer after reading packet"
          else Outcome.ok p,
      s,
    )
