-- ===== src/Packet/Registry/Level.antt =====
-- The classes that the switch of src/sculk/protocol/codec/MinecraftPackets.cpp constructs, with the ids of
-- MinecraftPacketIds.hpp: world, blocks, effects, chunk, rules.
use beprotocol.Common.{List, [], ◌∷◌}
use beprotocol.Packet.World.{
  SetTimePacket, write_set_time_packet, read_set_time_packet, FitsSetTimePacket,
  RoundTrips-set_time_packet, ChunkRadiusUpdatedPacket, write_chunk_radius_updated_packet,
  read_chunk_radius_updated_packet, FitsChunkRadiusUpdatedPacket,
  RoundTrips-chunk_radius_updated_packet, RequestChunkRadiusPacket,
  write_request_chunk_radius_packet, read_request_chunk_radius_packet, FitsRequestChunkRadiusPacket,
  RoundTrips-request_chunk_radius_packet, BlockEventPacket, write_block_event_packet,
  read_block_event_packet, FitsBlockEventPacket, RoundTrips-block_event_packet, UpdateBlockPacket,
  write_update_block_packet, read_update_block_packet, FitsUpdateBlockPacket,
  RoundTrips-update_block_packet, ChangeDimensionPacket, write_change_dimension_packet,
  read_change_dimension_packet, FitsChangeDimensionPacket, RoundTrips-change_dimension_packet,
  LevelEventPacket, write_level_event_packet, read_level_event_packet, FitsLevelEventPacket,
  RoundTrips-level_event_packet,
}
use beprotocol.Packet.Blocks.{
  SetSpawnPositionPacket, write_set_spawn_position_packet, read_set_spawn_position_packet,
  FitsSetSpawnPositionPacket, RoundTrips-set_spawn_position_packet,
  NetworkChunkPublisherUpdatePacket, write_network_chunk_publisher_update_packet,
  read_network_chunk_publisher_update_packet, FitsNetworkChunkPublisherUpdatePacket,
  RoundTrips-network_chunk_publisher_update_packet, BlockPickRequestPacket,
  write_block_pick_request_packet, read_block_pick_request_packet, FitsBlockPickRequestPacket,
  RoundTrips-block_pick_request_packet, LecternUpdatePacket, write_lectern_update_packet,
  read_lectern_update_packet, FitsLecternUpdatePacket, RoundTrips-lectern_update_packet,
  AnvilDamagePacket, write_anvil_damage_packet, read_anvil_damage_packet, FitsAnvilDamagePacket,
  RoundTrips-anvil_damage_packet, OpenSignPacket, write_open_sign_packet, read_open_sign_packet,
  FitsOpenSignPacket, RoundTrips-open_sign_packet, SetDifficultyPacket, write_set_difficulty_packet,
  read_set_difficulty_packet, FitsSetDifficultyPacket, RoundTrips-set_difficulty_packet,
}
use beprotocol.Packet.Effects.{
  PlaySoundPacket, write_play_sound_packet, read_play_sound_packet, FitsPlaySoundPacket,
  RoundTrips-play_sound_packet, StopSoundPacket, write_stop_sound_packet, read_stop_sound_packet,
  FitsStopSoundPacket, RoundTrips-stop_sound_packet, SpawnParticleEffectPacket,
  write_spawn_particle_effect_packet, read_spawn_particle_effect_packet,
  FitsSpawnParticleEffectPacket, RoundTrips-spawn_particle_effect_packet, CameraShakePacket,
  write_camera_shake_packet, read_camera_shake_packet, FitsCameraShakePacket,
  RoundTrips-camera_shake_packet, PlayerFogPacket, write_player_fog_packet, read_player_fog_packet,
  FitsPlayerFogPacket, RoundTrips-player_fog_packet, SimpleEventPacket, write_simple_event_packet,
  read_simple_event_packet, FitsSimpleEventPacket, RoundTrips-simple_event_packet,
}
use beprotocol.Packet.Chunk.{
  write_level_chunk_packet, read_level_chunk_packet, LevelChunkPacket, FitsLevelChunkPacket,
  RoundTrips-level_chunk_packet,
}
use beprotocol.Packet.Rules.{
  write_game_rules_changed_packet, read_game_rules_changed_packet, GameRulesChangedPacket,
  FitsGameRulesChangedPacket, RoundTrips-game_rules_changed_packet,
}
use beprotocol.Packet.Dispatch.{PacketClass}

abbrev pub set_time_class : PacketClass
set_time_class = record {
  State = SetTimePacket;
  id = 10;
  write = write_set_time_packet;
  read = read_set_time_packet;
  Fits = FitsSetTimePacket;
  codec = RoundTrips-set_time_packet;
}

abbrev pub chunk_radius_updated_class : PacketClass
chunk_radius_updated_class = record {
  State = ChunkRadiusUpdatedPacket;
  id = 70;
  write = write_chunk_radius_updated_packet;
  read = read_chunk_radius_updated_packet;
  Fits = FitsChunkRadiusUpdatedPacket;
  codec = RoundTrips-chunk_radius_updated_packet;
}

abbrev pub request_chunk_radius_class : PacketClass
request_chunk_radius_class = record {
  State = RequestChunkRadiusPacket;
  id = 69;
  write = write_request_chunk_radius_packet;
  read = read_request_chunk_radius_packet;
  Fits = FitsRequestChunkRadiusPacket;
  codec = RoundTrips-request_chunk_radius_packet;
}

abbrev pub block_event_class : PacketClass
block_event_class = record {
  State = BlockEventPacket;
  id = 26;
  write = write_block_event_packet;
  read = read_block_event_packet;
  Fits = FitsBlockEventPacket;
  codec = RoundTrips-block_event_packet;
}

abbrev pub update_block_class : PacketClass
update_block_class = record {
  State = UpdateBlockPacket;
  id = 21;
  write = write_update_block_packet;
  read = read_update_block_packet;
  Fits = FitsUpdateBlockPacket;
  codec = RoundTrips-update_block_packet;
}

abbrev pub change_dimension_class : PacketClass
change_dimension_class = record {
  State = ChangeDimensionPacket;
  id = 61;
  write = write_change_dimension_packet;
  read = read_change_dimension_packet;
  Fits = FitsChangeDimensionPacket;
  codec = RoundTrips-change_dimension_packet;
}

abbrev pub level_event_class : PacketClass
level_event_class = record {
  State = LevelEventPacket;
  id = 25;
  write = write_level_event_packet;
  read = read_level_event_packet;
  Fits = FitsLevelEventPacket;
  codec = RoundTrips-level_event_packet;
}

abbrev pub set_spawn_position_class : PacketClass
set_spawn_position_class = record {
  State = SetSpawnPositionPacket;
  id = 43;
  write = write_set_spawn_position_packet;
  read = read_set_spawn_position_packet;
  Fits = FitsSetSpawnPositionPacket;
  codec = RoundTrips-set_spawn_position_packet;
}

abbrev pub network_chunk_publisher_update_class : PacketClass
network_chunk_publisher_update_class = record {
  State = NetworkChunkPublisherUpdatePacket;
  id = 121;
  write = write_network_chunk_publisher_update_packet;
  read = read_network_chunk_publisher_update_packet;
  Fits = FitsNetworkChunkPublisherUpdatePacket;
  codec = RoundTrips-network_chunk_publisher_update_packet;
}

abbrev pub block_pick_request_class : PacketClass
block_pick_request_class = record {
  State = BlockPickRequestPacket;
  id = 34;
  write = write_block_pick_request_packet;
  read = read_block_pick_request_packet;
  Fits = FitsBlockPickRequestPacket;
  codec = RoundTrips-block_pick_request_packet;
}

abbrev pub lectern_update_class : PacketClass
lectern_update_class = record {
  State = LecternUpdatePacket;
  id = 125;
  write = write_lectern_update_packet;
  read = read_lectern_update_packet;
  Fits = FitsLecternUpdatePacket;
  codec = RoundTrips-lectern_update_packet;
}

abbrev pub anvil_damage_class : PacketClass
anvil_damage_class = record {
  State = AnvilDamagePacket;
  id = 141;
  write = write_anvil_damage_packet;
  read = read_anvil_damage_packet;
  Fits = FitsAnvilDamagePacket;
  codec = RoundTrips-anvil_damage_packet;
}

abbrev pub open_sign_class : PacketClass
open_sign_class = record {
  State = OpenSignPacket;
  id = 303;
  write = write_open_sign_packet;
  read = read_open_sign_packet;
  Fits = FitsOpenSignPacket;
  codec = RoundTrips-open_sign_packet;
}

abbrev pub set_difficulty_class : PacketClass
set_difficulty_class = record {
  State = SetDifficultyPacket;
  id = 60;
  write = write_set_difficulty_packet;
  read = read_set_difficulty_packet;
  Fits = FitsSetDifficultyPacket;
  codec = RoundTrips-set_difficulty_packet;
}

abbrev pub play_sound_class : PacketClass
play_sound_class = record {
  State = PlaySoundPacket;
  id = 86;
  write = write_play_sound_packet;
  read = read_play_sound_packet;
  Fits = FitsPlaySoundPacket;
  codec = RoundTrips-play_sound_packet;
}

abbrev pub stop_sound_class : PacketClass
stop_sound_class = record {
  State = StopSoundPacket;
  id = 87;
  write = write_stop_sound_packet;
  read = read_stop_sound_packet;
  Fits = FitsStopSoundPacket;
  codec = RoundTrips-stop_sound_packet;
}

abbrev pub spawn_particle_effect_class : PacketClass
spawn_particle_effect_class = record {
  State = SpawnParticleEffectPacket;
  id = 118;
  write = write_spawn_particle_effect_packet;
  read = read_spawn_particle_effect_packet;
  Fits = FitsSpawnParticleEffectPacket;
  codec = RoundTrips-spawn_particle_effect_packet;
}

abbrev pub camera_shake_class : PacketClass
camera_shake_class = record {
  State = CameraShakePacket;
  id = 159;
  write = write_camera_shake_packet;
  read = read_camera_shake_packet;
  Fits = FitsCameraShakePacket;
  codec = RoundTrips-camera_shake_packet;
}

abbrev pub player_fog_class : PacketClass
player_fog_class = record {
  State = PlayerFogPacket;
  id = 160;
  write = write_player_fog_packet;
  read = read_player_fog_packet;
  Fits = FitsPlayerFogPacket;
  codec = RoundTrips-player_fog_packet;
}

abbrev pub simple_event_class : PacketClass
simple_event_class = record {
  State = SimpleEventPacket;
  id = 64;
  write = write_simple_event_packet;
  read = read_simple_event_packet;
  Fits = FitsSimpleEventPacket;
  codec = RoundTrips-simple_event_packet;
}

abbrev pub level_chunk_class : PacketClass
level_chunk_class = record {
  State = LevelChunkPacket;
  id = 58;
  write = write_level_chunk_packet;
  read = read_level_chunk_packet;
  Fits = FitsLevelChunkPacket;
  codec = RoundTrips-level_chunk_packet;
}

abbrev pub game_rules_changed_class : PacketClass
game_rules_changed_class = record {
  State = GameRulesChangedPacket;
  id = 72;
  write = write_game_rules_changed_packet;
  read = read_game_rules_changed_packet;
  Fits = FitsGameRulesChangedPacket;
  codec = RoundTrips-game_rules_changed_packet;
}

abbrev pub level_classes : List PacketClass
level_classes =
    set_time_class
    ∷ (chunk_radius_updated_class
        ∷ (request_chunk_radius_class
            ∷ (block_event_class
                ∷ (update_block_class
                    ∷ (change_dimension_class
                        ∷ (level_event_class
                            ∷ (set_spawn_position_class
                                ∷ (network_chunk_publisher_update_class
                                    ∷ (block_pick_request_class
                                        ∷ (lectern_update_class
                                            ∷ (anvil_damage_class
                                                ∷ (open_sign_class
                                                    ∷ (set_difficulty_class
                                                        ∷ (play_sound_class
                                                            ∷ (stop_sound_class
                                                            ∷ (spawn_particle_effect_class
                                                            ∷ (camera_shake_class
                                                            ∷ (player_fog_class
                                                            ∷ (simple_event_class
                                                            ∷ (level_chunk_class
                                                            ∷ (game_rules_changed_class
                                                            ∷ ([]))))))))))))))))))))))
