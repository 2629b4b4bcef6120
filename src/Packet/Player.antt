-- ===== src/Packet/Player.antt =====
-- src/sculk/protocol/codec/packet: the packets on players. A float is its bit pattern.
use beprotocol.Common.{ℕ, ◌<◌, ◌^◌, ◌≡◌, refl, ap, sym, List, length, All, Bool, Option}
use beprotocol.Stream.{Reader, Writer, pure, ◌>>=◌, ◌>>◌}
use beprotocol.Stream.RoundTrip.{RoundTrips, RoundTrips-bind, RoundTrips-last}
use beprotocol.Stream.Fixed.{write_byte, read_byte, write_bool, read_bool, write_float, read_float}
use beprotocol.Stream.Fixed.RoundTrip.{RoundTrips-byte, RoundTrips-bool, RoundTrips-float}
use beprotocol.Stream.VarInt.{
  write_unsigned_var_int, read_unsigned_var_int, write_unsigned_var_int64, read_unsigned_var_int64,
  write_var_int, read_var_int,
}
use beprotocol.Stream.VarInt.RoundTrip.{
  RoundTrips-unsigned_var_int, RoundTrips-unsigned_var_int64, RoundTrips-var_int,
}
use beprotocol.Stream.Text.{write_string, read_string, RoundTrips-string}
use beprotocol.Stream.Containers.{
  int8, uint8, int32, uint32, write_enum, read_enum, write_array, read_array, write_optional,
  read_optional,
}
use beprotocol.Stream.Containers.RoundTrip.{
  RoundTrips-enum, RoundTrips-same_enum, OptionAll, RoundTrips-var_int_array, RoundTrips-optional,
  CastsBack-int8-int32, static_cast-int8-int32-lt,
}
use beprotocol.Packet.Fits.{FitsText, IsBits}
use beprotocol.Packet.Types.{
  BlockPos, write_block_pos, read_block_pos, FitsBlockPos, RoundTrips-block_pos, Uuid, write_uuid,
  read_uuid, FitsUuid, RoundTrips-uuid,
}

-- `MobEffectPacket`.
pub record MobEffectPacket : Type 0 where
  pub actor_runtime_id : ℕ
  pub event_id : ℕ
  pub effect_id : ℕ
  pub effect_amplifier : ℕ
  pub show_particles : Bool
  pub effect_duration_ticks : ℕ
  pub tick : ℕ
  pub ambient : Bool

unfoldable pub write_mob_effect_packet : MobEffectPacket → Writer
write_mob_effect_packet p = do
  write_unsigned_var_int64 p.actor_runtime_id
  write_enum uint8 uint8 write_byte p.event_id
  write_var_int p.effect_id
  write_var_int p.effect_amplifier
  write_bool p.show_particles
  write_var_int p.effect_duration_ticks
  write_unsigned_var_int64 p.tick
  write_bool p.ambient

unfoldable pub read_mob_effect_packet : Reader MobEffectPacket
read_mob_effect_packet = do
  actor_runtime_id ← read_unsigned_var_int64
  event_id ← read_enum uint8 uint8 read_byte
  effect_id ← read_var_int
  effect_amplifier ← read_var_int
  show_particles ← read_bool
  effect_duration_ticks ← read_var_int
  tick ← read_unsigned_var_int64
  ambient ← read_bool
  pure (record {
    actor_runtime_id = actor_runtime_id;
    event_id = event_id;
    effect_id = effect_id;
    effect_amplifier = effect_amplifier;
    show_particles = show_particles;
    effect_duration_ticks = effect_duration_ticks;
    tick = tick;
    ambient = ambient;
  })

-- The values of the fields' types, with no text or array longer than its length prefix.
pub record FitsMobEffectPacket (p : MobEffectPacket) : Type 0 where
  pub actor_runtime_id_fits : IsBits 64 p.actor_runtime_id
  pub event_id_fits : IsBits 8 p.event_id
  pub effect_id_fits : IsBits 32 p.effect_id
  pub effect_amplifier_fits : IsBits 32 p.effect_amplifier
  pub effect_duration_ticks_fits : IsBits 32 p.effect_duration_ticks
  pub tick_fits : IsBits 64 p.tick

pub RoundTrips-mob_effect_packet :
    (p : MobEffectPacket)
    → FitsMobEffectPacket p
    → RoundTrips (write_mob_effect_packet p) read_mob_effect_packet p
unfolding write_mob_effect_packet read_mob_effect_packet
RoundTrips-mob_effect_packet p h =
    RoundTrips-bind _ _ _ _
      (RoundTrips-unsigned_var_int64 p.actor_runtime_id h.actor_runtime_id_fits)
      (RoundTrips-bind _ _ _ _
        (RoundTrips-same_enum uint8 _ _ p.event_id h.event_id_fits
          (RoundTrips-byte p.event_id h.event_id_fits))
        (RoundTrips-bind _ _ _ _ (RoundTrips-var_int p.effect_id h.effect_id_fits) (
          RoundTrips-bind _ _ _ _ (RoundTrips-var_int p.effect_amplifier h.effect_amplifier_fits) (
            RoundTrips-bind _ _ _ _ (RoundTrips-bool p.show_particles) (
              RoundTrips-bind _ _ _ _
                (RoundTrips-var_int p.effect_duration_ticks h.effect_duration_ticks_fits)
                (RoundTrips-bind _ _ _ _ (RoundTrips-unsigned_var_int64 p.tick h.tick_fits)
                  (RoundTrips-last _ _ _ (RoundTrips-bool p.ambient) refl)))))))

-- `PlayerActionPacket`.
pub record PlayerActionPacket : Type 0 where
  pub player_runtime_id : ℕ
  pub action : ℕ
  pub block_position : BlockPos
  pub result_position : BlockPos
  pub face : ℕ

unfoldable pub write_player_action_packet : PlayerActionPacket → Writer
write_player_action_packet p = do
  write_unsigned_var_int64 p.player_runtime_id
  write_enum int8 int32 write_var_int p.action
  write_block_pos p.block_position
  write_block_pos p.result_position
  write_var_int p.face

unfoldable pub read_player_action_packet : Reader PlayerActionPacket
read_player_action_packet = do
  player_runtime_id ← read_unsigned_var_int64
  action ← read_enum int8 int32 read_var_int
  block_position ← read_block_pos
  result_position ← read_block_pos
  face ← read_var_int
  pure (record {
    player_runtime_id = player_runtime_id;
    action = action;
    block_position = block_position;
    result_position = result_position;
    face = face;
  })

-- The values of the fields' types, with no text or array longer than its length prefix.
pub record FitsPlayerActionPacket (p : PlayerActionPacket) : Type 0 where
  pub player_runtime_id_fits : IsBits 64 p.player_runtime_id
  pub action_fits : IsBits 8 p.action
  pub block_position_fits : FitsBlockPos p.block_position
  pub result_position_fits : FitsBlockPos p.result_position
  pub face_fits : IsBits 32 p.face

pub RoundTrips-player_action_packet :
    (p : PlayerActionPacket)
    → FitsPlayerActionPacket p
    → RoundTrips (write_player_action_packet p) read_player_action_packet p
unfolding write_player_action_packet read_player_action_packet
RoundTrips-player_action_packet p h =
    RoundTrips-bind _ _ _ _
      (RoundTrips-unsigned_var_int64 p.player_runtime_id h.player_runtime_id_fits)
      (RoundTrips-bind _ _ _ _
        (RoundTrips-enum int8 int32 _ _ p.action (CastsBack-int8-int32 p.action h.action_fits)
          (RoundTrips-var_int _ (static_cast-int8-int32-lt p.action h.action_fits)))
        (RoundTrips-bind _ _ _ _ (RoundTrips-block_pos p.block_position h.block_position_fits) (
          RoundTrips-bind _ _ _ _ (RoundTrips-block_pos p.result_position h.result_position_fits)
            (RoundTrips-last _ _ _ (RoundTrips-var_int p.face h.face_fits) refl))))

-- `AnimatePacket`, whose `mRowingTime` is neither written nor read.
pub record AnimatePacket : Type 0 where
  pub action : ℕ
  pub actor_runtime_id : ℕ
  pub payload : ℕ
  pub rowing_time : ℕ
  pub swing_source : Option (List ℕ)

unfoldable pub write_animate_packet : AnimatePacket → Writer
write_animate_packet p = do
  write_enum uint8 uint8 write_byte p.action
  write_unsigned_var_int64 p.actor_runtime_id
  write_float p.payload
  write_optional write_string p.swing_source

unfoldable pub read_animate_packet : Reader AnimatePacket
read_animate_packet = do
  action ← read_enum uint8 uint8 read_byte
  actor_runtime_id ← read_unsigned_var_int64
  payload ← read_float
  swing_source ← read_optional read_string
  pure (record {
    action = action;
    actor_runtime_id = actor_runtime_id;
    payload = payload;
    rowing_time = 0;
    swing_source = swing_source;
  })

-- The values of the fields' types, with no text or array longer than its length prefix.
pub record FitsAnimatePacket (p : AnimatePacket) : Type 0 where
  pub action_fits : IsBits 8 p.action
  pub actor_runtime_id_fits : IsBits 64 p.actor_runtime_id
  pub payload_fits : IsBits 32 p.payload
  pub rowing_time_unset : p.rowing_time ≡ 0
  pub swing_source_fits : OptionAll FitsText p.swing_source

pub RoundTrips-animate_packet :
    (p : AnimatePacket)
    → FitsAnimatePacket p
    → RoundTrips (write_animate_packet p) read_animate_packet p
unfolding write_animate_packet read_animate_packet
RoundTrips-animate_packet p h =
    RoundTrips-bind _ _ _ _
      (RoundTrips-same_enum uint8 _ _ p.action h.action_fits
        (RoundTrips-byte p.action h.action_fits))
      (RoundTrips-bind _ _ _ _
        (RoundTrips-unsigned_var_int64 p.actor_runtime_id h.actor_runtime_id_fits)
        (RoundTrips-bind _ _ _ _ (RoundTrips-float p.payload h.payload_fits) (
          RoundTrips-last _ _ _
            (RoundTrips-optional FitsText _ _ RoundTrips-string p.swing_source h.swing_source_fits)
            (ap (λ (r : ℕ). pure (record p { rowing_time = r })) (sym h.rowing_time_unset)))))

-- `SetHealthPacket`.
pub record SetHealthPacket : Type 0 where
  pub health : ℕ

unfoldable pub write_set_health_packet : SetHealthPacket → Writer
write_set_health_packet p = write_var_int p.health

unfoldable pub read_set_health_packet : Reader SetHealthPacket
read_set_health_packet = do health ← read_var_int; pure (record { health = health })

-- The values of the fields' types, with no text or array longer than its length prefix.
pub record FitsSetHealthPacket (p : SetHealthPacket) : Type 0 where
  pub health_fits : IsBits 32 p.health

pub RoundTrips-set_health_packet :
    (p : SetHealthPacket)
    → FitsSetHealthPacket p
    → RoundTrips (write_set_health_packet p) read_set_health_packet p
unfolding write_set_health_packet read_set_health_packet
RoundTrips-set_health_packet p h =
    RoundTrips-last _ _ _ (RoundTrips-var_int p.health h.health_fits) refl

-- `EmotePacket`.
pub record EmotePacket : Type 0 where
  pub actor_runtime_id : ℕ
  pub emote_id : List ℕ
  pub emote_length_ticks : ℕ
  pub xuid : List ℕ
  pub platform_id : List ℕ
  pub flags : ℕ

unfoldable pub write_emote_packet : EmotePacket → Writer
write_emote_packet p = do
  write_unsigned_var_int64 p.actor_runtime_id
  write_string p.emote_id
  write_unsigned_var_int p.emote_length_ticks
  write_string p.xuid
  write_string p.platform_id
  write_byte p.flags

unfoldable pub read_emote_packet : Reader EmotePacket
read_emote_packet = do
  actor_runtime_id ← read_unsigned_var_int64
  emote_id ← read_string
  emote_length_ticks ← read_unsigned_var_int
  xuid ← read_string
  platform_id ← read_string
  flags ← read_byte
  pure (record {
    actor_runtime_id = actor_runtime_id;
    emote_id = emote_id;
    emote_length_ticks = emote_length_ticks;
    xuid = xuid;
    platform_id = platform_id;
    flags = flags;
  })

-- The values of the fields' types, with no text or array longer than its length prefix.
pub record FitsEmotePacket (p : EmotePacket) : Type 0 where
  pub actor_runtime_id_fits : IsBits 64 p.actor_runtime_id
  pub emote_id_fits : FitsText p.emote_id
  pub emote_length_ticks_fits : IsBits 32 p.emote_length_ticks
  pub xuid_fits : FitsText p.xuid
  pub platform_id_fits : FitsText p.platform_id
  pub flags_fits : IsBits 8 p.flags

pub RoundTrips-emote_packet :
    (p : EmotePacket) → FitsEmotePacket p → RoundTrips (write_emote_packet p) read_emote_packet p
unfolding write_emote_packet read_emote_packet
RoundTrips-emote_packet p h =
    RoundTrips-bind _ _ _ _
      (RoundTrips-unsigned_var_int64 p.actor_runtime_id h.actor_runtime_id_fits)
      (RoundTrips-bind _ _ _ _ (RoundTrips-string p.emote_id h.emote_id_fits) (
        RoundTrips-bind _ _ _ _
          (RoundTrips-unsigned_var_int p.emote_length_ticks h.emote_length_ticks_fits)
          (RoundTrips-bind _ _ _ _ (RoundTrips-string p.xuid h.xuid_fits) (
            RoundTrips-bind _ _ _ _ (RoundTrips-string p.platform_id h.platform_id_fits)
              (RoundTrips-last _ _ _ (RoundTrips-byte p.flags h.flags_fits) refl)))))

-- `EmoteListPacket`.
pub record EmoteListPacket : Type 0 where
  pub actor_runtime_id : ℕ
  pub emote_piece_ids : List Uuid

unfoldable pub write_emote_list_packet : EmoteListPacket → Writer
write_emote_list_packet p = do
  write_unsigned_var_int64 p.actor_runtime_id
  write_array uint32 write_unsigned_var_int write_uuid p.emote_piece_ids

unfoldable pub read_emote_list_packet : Reader EmoteListPacket
read_emote_list_packet = do
  actor_runtime_id ← read_unsigned_var_int64
  emote_piece_ids ← read_array uint32 read_unsigned_var_int read_uuid
  pure (record { actor_runtime_id = actor_runtime_id; emote_piece_ids = emote_piece_ids })

-- The values of the fields' types, with no text or array longer than its length prefix.
pub record FitsEmoteListPacket (p : EmoteListPacket) : Type 0 where
  pub actor_runtime_id_fits : IsBits 64 p.actor_runtime_id
  pub emote_piece_ids_fits : (length p.emote_piece_ids < 2 ^ 32) × All FitsUuid p.emote_piece_ids

pub RoundTrips-emote_list_packet :
    (p : EmoteListPacket)
    → FitsEmoteListPacket p
    → RoundTrips (write_emote_list_packet p) read_emote_list_packet p
unfolding write_emote_list_packet read_emote_list_packet
RoundTrips-emote_list_packet p h =
    RoundTrips-bind _ _ _ _
      (RoundTrips-unsigned_var_int64 p.actor_runtime_id h.actor_runtime_id_fits)
      (RoundTrips-last _ _ _
        (RoundTrips-var_int_array FitsUuid _ _ RoundTrips-uuid p.emote_piece_ids
          h.emote_piece_ids_fits)
        refl)

-- `SetPlayerGameTypePacket`.
pub record SetPlayerGameTypePacket : Type 0 where
  pub game_type : ℕ

unfoldable pub write_set_player_game_type_packet : SetPlayerGameTypePacket → Writer
write_set_player_game_type_packet p = write_enum int8 int32 write_var_int p.game_type

unfoldable pub read_set_player_game_type_packet : Reader SetPlayerGameTypePacket
read_set_player_game_type_packet = do
  game_type ← read_enum int8 int32 read_var_int
  pure (record { game_type = game_type })

-- The values of the fields' types, with no text or array longer than its length prefix.
pub record FitsSetPlayerGameTypePacket (p : SetPlayerGameTypePacket) : Type 0 where
  pub game_type_fits : IsBits 8 p.game_type

pub RoundTrips-set_player_game_type_packet :
    (p : SetPlayerGameTypePacket)
    → FitsSetPlayerGameTypePacket p
    → RoundTrips (write_set_player_game_type_packet p) read_set_player_game_type_packet p
unfolding write_set_player_game_type_packet read_set_player_game_type_packet
RoundTrips-set_player_game_type_packet p h =
    RoundTrips-last _ _ _
      (RoundTrips-enum int8 int32 _ _ p.game_type
        (CastsBack-int8-int32 p.game_type h.game_type_fits)
        (RoundTrips-var_int _ (static_cast-int8-int32-lt p.game_type h.game_type_fits)))
      refl
