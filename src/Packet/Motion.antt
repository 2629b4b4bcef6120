-- ===== src/Packet/Motion.antt =====
-- src/sculk/protocol/codec/packet: the packets on movement, harm and game modes. A float is its bit pattern.
use beprotocol.Common.{ℕ, refl, Bool}
use beprotocol.Stream.{Reader, Writer, pure, ◌>>=◌, ◌>>◌}
use beprotocol.Stream.RoundTrip.{RoundTrips, RoundTrips-bind, RoundTrips-last}
use beprotocol.Stream.Fixed.{
  write_byte, read_byte, write_signed_int64, read_signed_int64, write_bool, read_bool,
}
use beprotocol.Stream.Fixed.RoundTrip.{RoundTrips-byte, RoundTrips-signed_int64, RoundTrips-bool}
use beprotocol.Stream.VarInt.{
  write_unsigned_var_int64, read_unsigned_var_int64, write_var_int, read_var_int, write_var_int64,
  read_var_int64,
}
use beprotocol.Stream.VarInt.RoundTrip.{
  RoundTrips-unsigned_var_int64, RoundTrips-var_int, RoundTrips-var_int64,
}
use beprotocol.Stream.Containers.{int8, uint8, int32, write_enum, read_enum}
use beprotocol.Stream.Containers.RoundTrip.{
  RoundTrips-enum, CastsBack-int8-int32, CastsBack-uint8-int32, static_cast-int8-int32-lt,
  static_cast-uint8-int32-lt,
}
use beprotocol.Packet.Fits.{IsBits}
use beprotocol.Packet.Types.{Vec3, write_vec3, read_vec3, FitsVec3, RoundTrips-vec3}

-- `SetLocalPlayerAsInitializedPacket`.
pub record SetLocalPlayerAsInitializedPacket : Type 0 where
  pub runtime_id : ℕ

unfoldable pub write_set_local_player_as_initialized_packet :
    SetLocalPlayerAsInitializedPacket → Writer
write_set_local_player_as_initialized_packet p = write_unsigned_var_int64 p.runtime_id

unfoldable pub read_set_local_player_as_initialized_packet :
    Reader SetLocalPlayerAsInitializedPacket
read_set_local_player_as_initialized_packet = do
  runtime_id ← read_unsigned_var_int64
  pure (record { runtime_id = runtime_id })

-- The values of the fields' types, with no text or array longer than its length prefix.
pub record FitsSetLocalPlayerAsInitializedPacket (p : SetLocalPlayerAsInitializedPacket)
    : Type 0 where
  pub runtime_id_fits : IsBits 64 p.runtime_id

pub RoundTrips-set_local_player_as_initialized_packet :
    (p : SetLocalPlayerAsInitializedPacket)
    → FitsSetLocalPlayerAsInitializedPacket p
    → RoundTrips
        (write_set_local_player_as_initialized_packet p)
        read_set_local_player_as_initialized_packet
        p
unfolding write_set_local_player_as_initialized_packet read_set_local_player_as_initialized_packet
RoundTrips-set_local_player_as_initialized_packet p h =
    RoundTrips-last _ _ _ (RoundTrips-unsigned_var_int64 p.runtime_id h.runtime_id_fits) refl

-- `MotionPredictionHintsPacket`.
pub record MotionPredictionHintsPacket : Type 0 where
  pub actor_runtime_id : ℕ
  pub motion : Vec3
  pub on_ground : Bool

unfoldable pub write_motion_prediction_hints_packet : MotionPredictionHintsPacket → Writer
write_motion_prediction_hints_packet p = do
  write_unsigned_var_int64 p.actor_runtime_id
  write_vec3 p.motion
  write_bool p.on_ground

unfoldable pub read_motion_prediction_hints_packet : Reader MotionPredictionHintsPacket
read_motion_prediction_hints_packet = do
  actor_runtime_id ← read_unsigned_var_int64
  motion ← read_vec3
  on_ground ← read_bool
  pure (record { actor_runtime_id = actor_runtime_id; motion = motion; on_ground = on_ground })

-- The values of the fields' types, with no text or array longer than its length prefix.
pub record FitsMotionPredictionHintsPacket (p : MotionPredictionHintsPacket) : Type 0 where
  pub actor_runtime_id_fits : IsBits 64 p.actor_runtime_id
  pub motion_fits : FitsVec3 p.motion

pub RoundTrips-motion_prediction_hints_packet :
    (p : MotionPredictionHintsPacket)
    → FitsMotionPredictionHintsPacket p
    → RoundTrips (write_motion_prediction_hints_packet p) read_motion_prediction_hints_packet p
unfolding write_motion_prediction_hints_packet read_motion_prediction_hints_packet
RoundTrips-motion_prediction_hints_packet p h =
    RoundTrips-bind _ _ _ _
      (RoundTrips-unsigned_var_int64 p.actor_runtime_id h.actor_runtime_id_fits)
      (RoundTrips-bind _ _ _ _ (RoundTrips-vec3 p.motion h.motion_fits)
        (RoundTrips-last _ _ _ (RoundTrips-bool p.on_ground) refl))

-- `HurtArmorPacket`.
pub record HurtArmorPacket : Type 0 where
  pub cause : ℕ
  pub damage : ℕ
  pub armor_slots : ℕ

unfoldable pub write_hurt_armor_packet : HurtArmorPacket → Writer
write_hurt_armor_packet p = do
  write_enum uint8 int32 write_var_int p.cause
  write_var_int p.damage
  write_unsigned_var_int64 p.armor_slots

unfoldable pub read_hurt_armor_packet : Reader HurtArmorPacket
read_hurt_armor_packet = do
  cause ← read_enum uint8 int32 read_var_int
  damage ← read_var_int
  armor_slots ← read_unsigned_var_int64
  pure (record { cause = cause; damage = damage; armor_slots = armor_slots })

-- The values of the fields' types, with no text or array longer than its length prefix.
pub record FitsHurtArmorPacket (p : HurtArmorPacket) : Type 0 where
  pub cause_fits : IsBits 8 p.cause
  pub damage_fits : IsBits 32 p.damage
  pub armor_slots_fits : IsBits 64 p.armor_slots

pub RoundTrips-hurt_armor_packet :
    (p : HurtArmorPacket)
    → FitsHurtArmorPacket p
    → RoundTrips (write_hurt_armor_packet p) read_hurt_armor_packet p
unfolding write_hurt_armor_packet read_hurt_armor_packet
RoundTrips-hurt_armor_packet p h =
    RoundTrips-bind _ _ _ _
      (RoundTrips-enum uint8 int32 _ _ p.cause (CastsBack-uint8-int32 p.cause h.cause_fits)
        (RoundTrips-var_int _ (static_cast-uint8-int32-lt p.cause h.cause_fits)))
      (RoundTrips-bind _ _ _ _ (RoundTrips-var_int p.damage h.damage_fits) (
        RoundTrips-last _ _ _ (RoundTrips-unsigned_var_int64 p.armor_slots h.armor_slots_fits)
          refl))

-- `UpdatePlayerGameTypePacket`.
pub record UpdatePlayerGameTypePacket : Type 0 where
  pub game_type : ℕ
  pub player_unique_id : ℕ
  pub tick : ℕ

unfoldable pub write_update_player_game_type_packet : UpdatePlayerGameTypePacket → Writer
write_update_player_game_type_packet p = do
  write_enum int8 int32 write_var_int p.game_type
  write_var_int64 p.player_unique_id
  write_unsigned_var_int64 p.tick

unfoldable pub read_update_player_game_type_packet : Reader UpdatePlayerGameTypePacket
read_update_player_game_type_packet = do
  game_type ← read_enum int8 int32 read_var_int
  player_unique_id ← read_var_int64
  tick ← read_unsigned_var_int64
  pure (record { game_type = game_type; player_unique_id = player_unique_id; tick = tick })

-- The values of the fields' types, with no text or array longer than its length prefix.
pub record FitsUpdatePlayerGameTypePacket (p : UpdatePlayerGameTypePacket) : Type 0 where
  pub game_type_fits : IsBits 8 p.game_type
  pub player_unique_id_fits : IsBits 64 p.player_unique_id
  pub tick_fits : IsBits 64 p.tick

pub RoundTrips-update_player_game_type_packet :
    (p : UpdatePlayerGameTypePacket)
    → FitsUpdatePlayerGameTypePacket p
    → RoundTrips (write_update_player_game_type_packet p) read_update_player_game_type_packet p
unfolding write_update_player_game_type_packet read_update_player_game_type_packet
RoundTrips-update_player_game_type_packet p h =
    RoundTrips-bind _ _ _ _
      (RoundTrips-enum int8 int32 _ _ p.game_type
        (CastsBack-int8-int32 p.game_type h.game_type_fits)
        (RoundTrips-var_int _ (static_cast-int8-int32-lt p.game_type h.game_type_fits)))
      (RoundTrips-bind _ _ _ _ (RoundTrips-var_int64 p.player_unique_id h.player_unique_id_fits)
        (RoundTrips-last _ _ _ (RoundTrips-unsigned_var_int64 p.tick h.tick_fits) refl))

-- `ShowCreditsPacket`.
pub record ShowCreditsPacket : Type 0 where
  pub player_runtime_id : ℕ
  pub credits_state : ℕ

unfoldable pub write_show_credits_packet : ShowCreditsPacket → Writer
write_show_credits_packet p = do
  write_unsigned_var_int64 p.player_runtime_id
  write_enum uint8 int32 write_var_int p.credits_state

unfoldable pub read_show_credits_packet : Reader ShowCreditsPacket
read_show_credits_packet = do
  player_runtime_id ← read_unsigned_var_int64
  credits_state ← read_enum uint8 int32 read_var_int
  pure (record { player_runtime_id = player_runtime_id; credits_state = credits_state })

-- The values of the fields' types, with no text or array longer than its length prefix.
pub record FitsShowCreditsPacket (p : ShowCreditsPacket) : Type 0 where
  pub player_runtime_id_fits : IsBits 64 p.player_runtime_id
  pub credits_state_fits : IsBits 8 p.credits_state

pub RoundTrips-show_credits_packet :
    (p : ShowCreditsPacket)
    → FitsShowCreditsPacket p
    → RoundTrips (write_show_credits_packet p) read_show_credits_packet p
unfolding write_show_credits_packet read_show_credits_packet
RoundTrips-show_credits_packet p h =
    RoundTrips-bind _ _ _ _
      (RoundTrips-unsigned_var_int64 p.player_runtime_id h.player_runtime_id_fits)
      (RoundTrips-last _ _ _
        (RoundTrips-enum uint8 int32 _ _ p.credits_state
          (CastsBack-uint8-int32 p.credits_state h.credits_state_fits)
          (RoundTrips-var_int _ (static_cast-uint8-int32-lt p.credits_state h.credits_state_fits)))
        refl)

-- `SetLastHurtByPacket`.
pub record SetLastHurtByPacket : Type 0 where
  pub last_hurt_by : ℕ

unfoldable pub write_set_last_hurt_by_packet : SetLastHurtByPacket → Writer
write_set_last_hurt_by_packet p = write_var_int p.last_hurt_by

unfoldable pub read_set_last_hurt_by_packet : Reader SetLastHurtByPacket
read_set_last_hurt_by_packet = do
  last_hurt_by ← read_var_int
  pure (record { last_hurt_by = last_hurt_by })

-- The values of the fields' types, with no text or array longer than its length prefix.
pub record FitsSetLastHurtByPacket (p : SetLastHurtByPacket) : Type 0 where
  pub last_hurt_by_fits : IsBits 32 p.last_hurt_by

pub RoundTrips-set_last_hurt_by_packet :
    (p : SetLastHurtByPacket)
    → FitsSetLastHurtByPacket p
    → RoundTrips (write_set_last_hurt_by_packet p) read_set_last_hurt_by_packet p
unfolding write_set_last_hurt_by_packet read_set_last_hurt_by_packet
RoundTrips-set_last_hurt_by_packet p h =
    RoundTrips-last _ _ _ (RoundTrips-var_int p.last_hurt_by h.last_hurt_by_fits) refl

-- `ActorPickRequestPacket`.
pub record ActorPickRequestPacket : Type 0 where
  pub actor_id : ℕ
  pub max_slots : ℕ
  pub with_data : Bool

unfoldable pub write_actor_pick_request_packet : ActorPickRequestPacket → Writer
write_actor_pick_request_packet p = do
  write_signed_int64 p.actor_id
  write_byte p.max_slots
  write_bool p.with_data

unfoldable pub read_actor_pick_request_packet : Reader ActorPickRequestPacket
read_actor_pick_request_packet = do
  actor_id ← read_signed_int64
  max_slots ← read_byte
  with_data ← read_bool
  pure (record { actor_id = actor_id; max_slots = max_slots; with_data = with_data })

-- The values of the fields' types, with no text or array longer than its length prefix.
pub record FitsActorPickRequestPacket (p : ActorPickRequestPacket) : Type 0 where
  pub actor_id_fits : IsBits 64 p.actor_id
  pub max_slots_fits : IsBits 8 p.max_slots

pub RoundTrips-actor_pick_request_packet :
    (p : ActorPickRequestPacket)
    → FitsActorPickRequestPacket p
    → RoundTrips (write_actor_pick_request_packet p) read_actor_pick_request_packet p
unfolding write_actor_pick_request_packet read_actor_pick_request_packet
RoundTrips-actor_pick_request_packet p h =
    RoundTrips-bind _ _ _ _ (RoundTrips-signed_int64 p.actor_id h.actor_id_fits) (
      RoundTrips-bind _ _ _ _ (RoundTrips-byte p.max_slots h.max_slots_fits)
        (RoundTrips-last _ _ _ (RoundTrips-bool p.with_data) refl))
