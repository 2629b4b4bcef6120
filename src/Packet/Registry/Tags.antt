-- ===== src/Packet/Registry/Tags.antt =====
-- The classes of the packets with tags that the switch of src/sculk/protocol/codec/MinecraftPackets.cpp constructs.
use beprotocol.Common.{List, [], ◌∷◌}
use beprotocol.Packet.Tagged.{
  BlockActorDataPacket, write_block_actor_data_packet, read_block_actor_data_packet,
  FitsBlockActorDataPacket, RoundTrips-block_actor_data_packet, LevelEventGenericPacket,
  write_level_event_generic_packet, read_level_event_generic_packet, FitsLevelEventGenericPacket,
  RoundTrips-level_event_generic_packet, AddVolumeEntityPacket, write_add_volume_entity_packet,
  read_add_volume_entity_packet, FitsAddVolumeEntityPacket, RoundTrips-add_volume_entity_packet,
}
use beprotocol.Packet.Dispatch.{PacketClass}

abbrev pub block_actor_data_class : PacketClass
block_actor_data_class = record {
  State = BlockActorDataPacket;
  id = 56;
  write = write_block_actor_data_packet;
  read = read_block_actor_data_packet;
  Fits = FitsBlockActorDataPacket;
  codec = RoundTrips-block_actor_data_packet;
}

abbrev pub level_event_generic_class : PacketClass
level_event_generic_class = record {
  State = LevelEventGenericPacket;
  id = 124;
  write = write_level_event_generic_packet;
  read = read_level_event_generic_packet;
  Fits = FitsLevelEventGenericPacket;
  codec = RoundTrips-level_event_generic_packet;
}

abbrev pub add_volume_entity_class : PacketClass
add_volume_entity_class = record {
  State = AddVolumeEntityPacket;
  id = 166;
  write = write_add_volume_entity_packet;
  read = read_add_volume_entity_packet;
  Fits = FitsAddVolumeEntityPacket;
  codec = RoundTrips-add_volume_entity_packet;
}

abbrev pub tags_classes : List PacketClass
tags_classes = block_actor_data_class ∷ (level_event_generic_class ∷ (add_volume_entity_class ∷ []))
