-- ===== src/Packet/Registry/Actors.antt =====
-- The classes that the switch of src/sculk/protocol/codec/MinecraftPackets.cpp constructs, with the ids of
-- MinecraftPacketIds.hpp: actor, player, motion.
use beprotocol.Common.{List, [], ◌∷◌}
use beprotocol.Packet.Actor.{
  RespawnPacket, write_respawn_packet, read_respawn_packet, FitsRespawnPacket,
  RoundTrips-respawn_packet, InteractPacket, write_interact_packet, read_interact_packet,
  FitsInteractPacket, RoundTrips-interact_packet, ActorEventPacket, write_actor_event_packet,
  read_actor_event_packet, FitsActorEventPacket, RoundTrips-actor_event_packet,
  SetActorMotionPacket, write_set_actor_motion_packet, read_set_actor_motion_packet,
  FitsSetActorMotionPacket, RoundTrips-set_actor_motion_packet, MoveActorAbsolutePacket,
  write_move_actor_absolute_packet, read_move_actor_absolute_packet, FitsMoveActorAbsolutePacket,
  RoundTrips-move_actor_absolute_packet, TakeItemActorPacket, write_take_item_actor_packet,
  read_take_item_actor_packet, FitsTakeItemActorPacket, RoundTrips-take_item_actor_packet,
  RemoveActorPacket, write_remove_actor_packet, read_remove_actor_packet, FitsRemoveActorPacket,
  RoundTrips-remove_actor_packet,
}
use beprotocol.Packet.Player.{
  MobEffectPacket, write_mob_effect_packet, read_mob_effect_packet, FitsMobEffectPacket,
  RoundTrips-mob_effect_packet, PlayerActionPacket, write_player_action_packet,
  read_player_action_packet, FitsPlayerActionPacket, RoundTrips-player_action_packet, AnimatePacket,
  write_animate_packet, read_animate_packet, FitsAnimatePacket, RoundTrips-animate_packet,
  SetHealthPacket, write_set_health_packet, read_set_health_packet, FitsSetHealthPacket,
  RoundTrips-set_health_packet, EmotePacket, write_emote_packet, read_emote_packet, FitsEmotePacket,
  RoundTrips-emote_packet, EmoteListPacket, write_emote_list_packet, read_emote_list_packet,
  FitsEmoteListPacket, RoundTrips-emote_list_packet, SetPlayerGameTypePacket,
  write_set_player_game_type_packet, read_set_player_game_type_packet, FitsSetPlayerGameTypePacket,
  RoundTrips-set_player_game_type_packet,
}
use beprotocol.Packet.Motion.{
  SetLocalPlayerAsInitializedPacket, write_set_local_player_as_initialized_packet,
  read_set_local_player_as_initialized_packet, FitsSetLocalPlayerAsInitializedPacket,
  RoundTrips-set_local_player_as_initialized_packet, MotionPredictionHintsPacket,
  write_motion_prediction_hints_packet, read_motion_prediction_hints_packet,
  FitsMotionPredictionHintsPacket, RoundTrips-motion_prediction_hints_packet, HurtArmorPacket,
  write_hurt_armor_packet, read_hurt_armor_packet, FitsHurtArmorPacket,
  RoundTrips-hurt_armor_packet, UpdatePlayerGameTypePacket, write_update_player_game_type_packet,
  read_update_player_game_type_packet, FitsUpdatePlayerGameTypePacket,
  RoundTrips-update_player_game_type_packet, ShowCreditsPacket, write_show_credits_packet,
  read_show_credits_packet, FitsShowCreditsPacket, RoundTrips-show_credits_packet,
  SetLastHurtByPacket, write_set_last_hurt_by_packet, read_set_last_hurt_by_packet,
  FitsSetLastHurtByPacket, RoundTrips-set_last_hurt_by_packet, ActorPickRequestPacket,
  write_actor_pick_request_packet, read_actor_pick_request_packet, FitsActorPickRequestPacket,
  RoundTrips-actor_pick_request_packet,
}
use beprotocol.Packet.Dispatch.{PacketClass}

abbrev pub respawn_class : PacketClass
respawn_class = record {
  State = RespawnPacket;
  id = 45;
  write = write_respawn_packet;
  read = read_respawn_packet;
  Fits = FitsRespawnPacket;
  codec = RoundTrips-respawn_packet;
}

abbrev pub interact_class : PacketClass
interact_class = record {
  State = InteractPacket;
  id = 33;
  write = write_interact_packet;
  read = read_interact_packet;
  Fits = FitsInteractPacket;
  codec = RoundTrips-interact_packet;
}

abbrev pub actor_event_class : PacketClass
actor_event_class = record {
  State = ActorEventPacket;
  id = 27;
  write = write_actor_event_packet;
  read = read_actor_event_packet;
  Fits = FitsActorEventPacket;
  codec = RoundTrips-actor_event_packet;
}

abbrev pub set_actor_motion_class : PacketClass
set_actor_motion_class = record {
  State = SetActorMotionPacket;
  id = 40;
  write = write_set_actor_motion_packet;
  read = read_set_actor_motion_packet;
  Fits = FitsSetActorMotionPacket;
  codec = RoundTrips-set_actor_motion_packet;
}

abbrev pub move_actor_absolute_class : PacketClass
move_actor_absolute_class = record {
  State = MoveActorAbsolutePacket;
  id = 18;
  write = write_move_actor_absolute_packet;
  read = read_move_actor_absolute_packet;
  Fits = FitsMoveActorAbsolutePacket;
  codec = RoundTrips-move_actor_absolute_packet;
}

abbrev pub take_item_actor_class : PacketClass
take_item_actor_class = record {
  State = TakeItemActorPacket;
  id = 17;
  write = write_take_item_actor_packet;
  read = read_take_item_actor_packet;
  Fits = FitsTakeItemActorPacket;
  codec = RoundTrips-take_item_actor_packet;
}

abbrev pub remove_actor_class : PacketClass
remove_actor_class = record {
  State = RemoveActorPacket;
  id = 14;
  write = write_remove_actor_packet;
  read = read_remove_actor_packet;
  Fits = FitsRemoveActorPacket;
  codec = RoundTrips-remove_actor_packet;
}

abbrev pub mob_effect_class : PacketClass
mob_effect_class = record {
  State = MobEffectPacket;
  id = 28;
  write = write_mob_effect_packet;
  read = read_mob_effect_packet;
  Fits = FitsMobEffectPacket;
  codec = RoundTrips-mob_effect_packet;
}

abbrev pub player_action_class : PacketClass
player_action_class = record {
  State = PlayerActionPacket;
  id = 36;
  write = write_player_action_packet;
  read = read_player_action_packet;
  Fits = FitsPlayerActionPacket;
  codec = RoundTrips-player_action_packet;
}

abbrev pub animate_class : PacketClass
animate_class = record {
  State = AnimatePacket;
  id = 44;
  write = write_animate_packet;
  read = read_animate_packet;
  Fits = FitsAnimatePacket;
  codec = RoundTrips-animate_packet;
}

abbrev pub set_health_class : PacketClass
set_health_class = record {
  State = SetHealthPacket;
  id = 42;
  write = write_set_health_packet;
  read = read_set_health_packet;
  Fits = FitsSetHealthPacket;
  codec = RoundTrips-set_health_packet;
}

abbrev pub emote_class : PacketClass
emote_class = record {
  State = EmotePacket;
  id = 138;
  write = write_emote_packet;
  read = read_emote_packet;
  Fits = FitsEmotePacket;
  codec = RoundTrips-emote_packet;
}

abbrev pub emote_list_class : PacketClass
emote_list_class = record {
  State = EmoteListPacket;
  id = 152;
  write = write_emote_list_packet;
  read = read_emote_list_packet;
  Fits = FitsEmoteListPacket;
  codec = RoundTrips-emote_list_packet;
}

abbrev pub set_player_game_type_class : PacketClass
set_player_game_type_class = record {
  State = SetPlayerGameTypePacket;
  id = 62;
  write = write_set_player_game_type_packet;
  read = read_set_player_game_type_packet;
  Fits = FitsSetPlayerGameTypePacket;
  codec = RoundTrips-set_player_game_type_packet;
}

abbrev pub set_local_player_as_initialized_class : PacketClass
set_local_player_as_initialized_class = record {
  State = SetLocalPlayerAsInitializedPacket;
  id = 113;
  write = write_set_local_player_as_initialized_packet;
  read = read_set_local_player_as_initialized_packet;
  Fits = FitsSetLocalPlayerAsInitializedPacket;
  codec = RoundTrips-set_local_player_as_initialized_packet;
}

abbrev pub motion_prediction_hints_class : PacketClass
motion_prediction_hints_class = record {
  State = MotionPredictionHintsPacket;
  id = 157;
  write = write_motion_prediction_hints_packet;
  read = read_motion_prediction_hints_packet;
  Fits = FitsMotionPredictionHintsPacket;
  codec = RoundTrips-motion_prediction_hints_packet;
}

abbrev pub hurt_armor_class : PacketClass
hurt_armor_class = record {
  State = HurtArmorPacket;
  id = 38;
  write = write_hurt_armor_packet;
  read = read_hurt_armor_packet;
  Fits = FitsHurtArmorPacket;
  codec = RoundTrips-hurt_armor_packet;
}

abbrev pub update_player_game_type_class : PacketClass
update_player_game_type_class = record {
  State = UpdatePlayerGameTypePacket;
  id = 151;
  write = write_update_player_game_type_packet;
  read = read_update_player_game_type_packet;
  Fits = FitsUpdatePlayerGameTypePacket;
  codec = RoundTrips-update_player_game_type_packet;
}

abbrev pub show_credits_class : PacketClass
show_credits_class = record {
  State = ShowCreditsPacket;
  id = 75;
  write = write_show_credits_packet;
  read = read_show_credits_packet;
  Fits = FitsShowCreditsPacket;
  codec = RoundTrips-show_credits_packet;
}

abbrev pub set_last_hurt_by_class : PacketClass
set_last_hurt_by_class = record {
  State = SetLastHurtByPacket;
  id = 96;
  write = write_set_last_hurt_by_packet;
  read = read_set_last_hurt_by_packet;
  Fits = FitsSetLastHurtByPacket;
  codec = RoundTrips-set_last_hurt_by_packet;
}

abbrev pub actor_pick_request_class : PacketClass
actor_pick_request_class = record {
  State = ActorPickRequestPacket;
  id = 35;
  write = write_actor_pick_request_packet;
  read = read_actor_pick_request_packet;
  Fits = FitsActorPickRequestPacket;
  codec = RoundTrips-actor_pick_request_packet;
}

abbrev pub actors_classes : List PacketClass
actors_classes =
    respawn_class
    ∷ (interact_class
        ∷ (actor_event_class
            ∷ (set_actor_motion_class
                ∷ (move_actor_absolute_class
                    ∷ (take_item_actor_class
                        ∷ (remove_actor_class
                            ∷ (mob_effect_class
                                ∷ (player_action_class
                                    ∷ (animate_class
                                        ∷ (set_health_class
                                            ∷ (emote_class
                                                ∷ (emote_list_class
                                                    ∷ (set_player_game_type_class
                                                        ∷ (set_local_player_as_initialized_class
                                                            ∷ (motion_prediction_hints_class
                                                            ∷ (hurt_armor_class
                                                            ∷ (update_player_game_type_class
                                                            ∷ (show_credits_class
                                                            ∷ (set_last_hurt_by_class
                                                            ∷ (actor_pick_request_class
                                                            ∷ ([])))))))))))))))))))))
