-- ===== src/Packet/ReadBack.antt =====
-- What the packets of src/sculk/protocol/codec write, alone or behind their headers, is read back.
use beprotocol.Common.{ℕ, ◌≡◌, List, [], ◌++◌, length}
use beprotocol.Stream.{Outcome, IsSize}
use beprotocol.Stream.RoundTrip.{ReadsBack, RoundTrips-ReadsBack}
use beprotocol.Packet.Choices.{
  DisconnectPacket, write_disconnect_packet, read_disconnect_packet, FitsDisconnectPacket,
  RoundTrips-disconnect_packet, TextPacket, write_text_packet, read_text_packet, FitsTextPacket,
  RoundTrips-text_packet,
}
use beprotocol.Packet.Chunk.{
  LevelChunkPacket, write_level_chunk_packet, read_level_chunk_packet, FitsLevelChunkPacket,
  RoundTrips-level_chunk_packet,
}
use beprotocol.Packet.Rules.{
  GameRulesChangedPacket, write_game_rules_changed_packet, read_game_rules_changed_packet,
  FitsGameRulesChangedPacket, RoundTrips-game_rules_changed_packet,
}
use beprotocol.Packet.Resources.{
  ResourcePacksInfoPacket, write_resource_packs_info_packet, read_resource_packs_info_packet,
  FitsResourcePacksInfoPacket, RoundTrips-resource_packs_info_packet,
}
use beprotocol.Packet.Login.{
  NetworkSettingsPacket, write_network_settings_packet, read_network_settings_packet,
  FitsNetworkSettingsPacket, RoundTrips-network_settings_packet,
}
use beprotocol.Packet.Dispatch.{
  IPacket, PacketHeader, write_packet_header, read_packet_header, write_with_header,
  read_and_create_packet_from_buffer,
}
use beprotocol.Packet.Dispatch.RoundTrip.{
  FitsHeader, FitsPacket, RoundTrips-packet_header, read-write_with_header,
}
use beprotocol.Packet.Registry.{modelled_classes, modelled_registry, modelled_registry-Mem}
use mathlib.Core.List.{Memᴰ}

-- A packet of any of the classes of `modelled_classes`, with an id below 1024, sub-client ids below 4 and field
-- values that its format can carry; the members that no byte carries (`mRowingTime` of AnimatePacket, `mMinBounds`
-- of AddVolumeEntityPacket) have their defaults. What `writeWithHeader` writes into an empty buffer, less than `2 ^
-- 64` bytes, `readAndCreatePacketFromBuffer` turns into the same object of the same class, with its header members.
pub read_and_create-write_with_header :
    (p : IPacket)
    → Memᴰ p.packet_class modelled_classes
    → FitsPacket p
    → IsSize (length (write_with_header p []))
    → read_and_create_packet_from_buffer modelled_registry (write_with_header p []) ≡ Outcome.ok p
read_and_create-write_with_header p member fits size =
    read-write_with_header modelled_registry p (modelled_registry-Mem p.packet_class member) fits
      size

-- A header with an id below 1024 and sub-client ids below 4 that `writePacketHeader` has written behind any
-- bytes, `readPacketHeader` reads back; it stops right behind it.
pub read_packet_header-write_packet_header :
    (h : PacketHeader)
    → FitsHeader h.packet_id h.sender_sub_client_id h.target_sub_client_id
    → (buffer rest : List ℕ) → IsSize (length (write_packet_header h buffer ++ rest))
    → ReadsBack (write_packet_header h) read_packet_header h buffer rest
read_packet_header-write_packet_header h fits =
    RoundTrips-ReadsBack (RoundTrips-packet_header h fits)

-- A `DisconnectPacket` whose strings are shorter than `2 ^ 32` bytes and, if the message is skipped, empty,
-- comes back whole from what it has written behind any bytes; its `read` stops right behind it.
pub read_disconnect_packet-write_disconnect_packet :
    (p : DisconnectPacket)
    → FitsDisconnectPacket p
    → (buffer rest : List ℕ) → IsSize (length (write_disconnect_packet p buffer ++ rest))
    → ReadsBack (write_disconnect_packet p) read_disconnect_packet p buffer rest
read_disconnect_packet-write_disconnect_packet p h =
    RoundTrips-ReadsBack (RoundTrips-disconnect_packet p h)

-- A `TextPacket` of any of its three bodies, with strings and parameters that fit their length prefixes,
-- comes back whole from what it has written behind any bytes; its `read` stops right behind it.
pub read_text_packet-write_text_packet :
    (p : TextPacket)
    → FitsTextPacket p
    → (buffer rest : List ℕ) → IsSize (length (write_text_packet p buffer ++ rest))
    → ReadsBack (write_text_packet p) read_text_packet p buffer rest
read_text_packet-write_text_packet p h = RoundTrips-ReadsBack (RoundTrips-text_packet p h)

-- A `LevelChunkPacket` comes back whole from what it has written behind any bytes, and its `read` stops
-- right behind it, given that it is not marked as in tick range, that its lengths fit their prefixes, and
-- that it has a sub-chunk count below `0xfffffffe` and no limit, or a limit of -1 or more and no count.
pub read_level_chunk_packet-write_level_chunk_packet :
    (p : LevelChunkPacket)
    → FitsLevelChunkPacket p
    → (buffer rest : List ℕ) → IsSize (length (write_level_chunk_packet p buffer ++ rest))
    → ReadsBack (write_level_chunk_packet p) read_level_chunk_packet p buffer rest
read_level_chunk_packet-write_level_chunk_packet p h =
    RoundTrips-ReadsBack (RoundTrips-level_chunk_packet p h)

-- A `GameRulesChangedPacket` of rules with no value, a `bool`, an `int32_t` or a `float` comes back whole
-- from what it has written behind any bytes, given that its lengths fit their prefixes; its `read` stops
-- right behind it.
pub read_game_rules_changed_packet-write_game_rules_changed_packet :
    (p : GameRulesChangedPacket)
    → FitsGameRulesChangedPacket p
    → (buffer rest : List ℕ) → IsSize (length (write_game_rules_changed_packet p buffer ++ rest))
    → ReadsBack (write_game_rules_changed_packet p) read_game_rules_changed_packet p buffer rest
read_game_rules_changed_packet-write_game_rules_changed_packet p h =
    RoundTrips-ReadsBack (RoundTrips-game_rules_changed_packet p h)

-- A `ResourcePacksInfoPacket` of fewer than `2 ^ 16` packs, with strings that fit their prefixes, comes back
-- whole from what it has written behind any bytes; its `read` stops right behind it.
pub read_resource_packs_info_packet-write_resource_packs_info_packet :
    (p : ResourcePacksInfoPacket)
    → FitsResourcePacksInfoPacket p
    → (buffer rest : List ℕ) → IsSize (length (write_resource_packs_info_packet p buffer ++ rest))
    → ReadsBack (write_resource_packs_info_packet p) read_resource_packs_info_packet p buffer rest
read_resource_packs_info_packet-write_resource_packs_info_packet p h =
    RoundTrips-ReadsBack (RoundTrips-resource_packs_info_packet p h)

-- A `NetworkSettingsPacket` comes back whole from what it has written behind any bytes; its `read` stops
-- right behind it.
pub read_network_settings_packet-write_network_settings_packet :
    (p : NetworkSettingsPacket)
    → FitsNetworkSettingsPacket p
    → (buffer rest : List ℕ) → IsSize (length (write_network_settings_packet p buffer ++ rest))
    → ReadsBack (write_network_settings_packet p) read_network_settings_packet p buffer rest
read_network_settings_packet-write_network_settings_packet p h =
    RoundTrips-ReadsBack (RoundTrips-network_settings_packet p h)
