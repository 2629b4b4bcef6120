-- ===== src/Packet/Actor.antt =====
-- src/sculk/protocol/codec/packet: the packets on actors. A float is its bit pattern.
use beprotocol.Common.{ℕ, refl, Option}
use beprotocol.Stream.{Reader, Writer, pure, ◌>>=◌, ◌>>◌}
use beprotocol.Stream.RoundTrip.{RoundTrips, RoundTrips-bind, RoundTrips-last}
use beprotocol.Stream.Fixed.{write_byte, read_byte}
use beprotocol.Stream.Fixed.RoundTrip.{RoundTrips-byte}
use beprotocol.Stream.VarInt.{
  write_unsigned_var_int64, read_unsigned_var_int64, write_var_int, read_var_int, write_var_int64,
  read_var_int64,
}
use beprotocol.Stream.VarInt.RoundTrip.{
  RoundTrips-unsigned_var_int64, RoundTrips-var_int, RoundTrips-var_int64,
}
use beprotocol.Stream.Containers.{uint8, write_enum, read_enum, write_optional, read_optional}
use beprotocol.Stream.Containers.RoundTrip.{RoundTrips-same_enum, OptionAll, RoundTrips-optional}
use beprotocol.Packet.Fits.{IsBits}
use beprotocol.Packet.Types.{Vec3, write_vec3, read_vec3, FitsVec3, RoundTrips-vec3}

-- `RespawnPacket`.
pub record RespawnPacket : Type 0 where
  pub position : Vec3
  pub state : ℕ
  pub actor_runtime_id : ℕ

unfoldable pub write_respawn_packet : RespawnPacket → Writer
write_respawn_packet p = do
  write_vec3 p.position
  write_enum uint8 uint8 write_byte p.state
  write_unsigned_var_int64 p.actor_runtime_id

unfoldable pub read_respawn_packet : Reader RespawnPacket
read_respawn_packet = do
  position ← read_vec3
  state ← read_enum uint8 uint8 read_byte
  actor_runtime_id ← read_unsigned_var_int64
  pure (record { position = position; state = state; actor_runtime_id = actor_runtime_id })

-- The values of the fields' types, with no text or array longer than its length prefix.
pub record FitsRespawnPacket (p : RespawnPacket) : Type 0 where
  pub position_fits : FitsVec3 p.position
  pub state_fits : IsBits 8 p.state
  pub actor_runtime_id_fits : IsBits 64 p.actor_runtime_id

pub RoundTrips-respawn_packet :
    (p : RespawnPacket)
    → FitsRespawnPacket p
    → RoundTrips (write_respawn_packet p) read_respawn_packet p
unfolding write_respawn_packet read_respawn_packet
RoundTrips-respawn_packet p h =
    RoundTrips-bind _ _ _ _ (RoundTrips-vec3 p.position h.position_fits) (
      RoundTrips-bind _ _ _ _
        (RoundTrips-same_enum uint8 _ _ p.state h.state_fits (RoundTrips-byte p.state h.state_fits))
        (RoundTrips-last _ _ _
          (RoundTrips-unsigned_var_int64 p.actor_runtime_id h.actor_runtime_id_fits) refl))

-- `InteractPacket`.
pub record InteractPacket : Type 0 where
  pub action : ℕ
  pub actor_runtime_id : ℕ
  pub position : Option Vec3

unfoldable pub write_interact_packet : InteractPacket → Writer
write_interact_packet p = do
  write_enum uint8 uint8 write_byte p.action
  write_unsigned_var_int64 p.actor_runtime_id
  write_optional write_vec3 p.position

unfoldable pub read_interact_packet : Reader InteractPacket
read_interact_packet = do
  action ← read_enum uint8 uint8 read_byte
  actor_runtime_id ← read_unsigned_var_int64
  position ← read_optional read_vec3
  pure (record { action = action; actor_runtime_id = actor_runtime_id; position = position })

-- The values of the fields' types, with no text or array longer than its length prefix.
pub record FitsInteractPacket (p : InteractPacket) : Type 0 where
  pub action_fits : IsBits 8 p.action
  pub actor_runtime_id_fits : IsBits 64 p.actor_runtime_id
  pub position_fits : OptionAll FitsVec3 p.position

pub RoundTrips-interact_packet :
    (p : InteractPacket)
    → FitsInteractPacket p
    → RoundTrips (write_interact_packet p) read_interact_packet p
unfolding write_interact_packet read_interact_packet
RoundTrips-interact_packet p h =
    RoundTrips-bind _ _ _ _
      (RoundTrips-same_enum uint8 _ _ p.action h.action_fits
        (RoundTrips-byte p.action h.action_fits))
      (RoundTrips-bind _ _ _ _
        (RoundTrips-unsigned_var_int64 p.actor_runtime_id h.actor_runtime_id_fits)
        (RoundTrips-last _ _ _
          (RoundTrips-optional FitsVec3 _ _ RoundTrips-vec3 p.position h.position_fits) refl))

-- `ActorEventPacket`.
pub record ActorEventPacket : Type 0 where
  pub runtime_id : ℕ
  pub event_id : ℕ
  pub payload : ℕ
  pub fire_at_position : Option Vec3

unfoldable pub write_actor_event_packet : ActorEventPacket → Writer
write_actor_event_packet p = do
  write_unsigned_var_int64 p.runtime_id
  write_enum uint8 uint8 write_byte p.event_id
  write_var_int p.payload
  write_optional write_vec3 p.fire_at_position

unfoldable pub read_actor_event_packet : Reader ActorEventPacket
read_actor_event_packet = do
  runtime_id ← read_unsigned_var_int64
  event_id ← read_enum uint8 uint8 read_byte
  payload ← read_var_int
  fire_at_position ← read_optional read_vec3
  pure (record {
    runtime_id = runtime_id;
    event_id = event_id;
    payload = payload;
    fire_at_position = fire_at_position;
  })

-- The values of the fields' types, with no text or array longer than its length prefix.
pub record FitsActorEventPacket (p : ActorEventPacket) : Type 0 where
  pub runtime_id_fits : IsBits 64 p.runtime_id
  pub event_id_fits : IsBits 8 p.event_id
  pub payload_fits : IsBits 32 p.payload
  pub fire_at_position_fits : OptionAll FitsVec3 p.fire_at_position

pub RoundTrips-actor_event_packet :
    (p : ActorEventPacket)
    → FitsActorEventPacket p
    → RoundTrips (write_actor_event_packet p) read_actor_event_packet p
unfolding write_actor_event_packet read_actor_event_packet
RoundTrips-actor_event_packet p h =
    RoundTrips-bind _ _ _ _ (RoundTrips-unsigned_var_int64 p.runtime_id h.runtime_id_fits) (
      RoundTrips-bind _ _ _ _
        (RoundTrips-same_enum uint8 _ _ p.event_id h.event_id_fits
          (RoundTrips-byte p.event_id h.event_id_fits))
        (RoundTrips-bind _ _ _ _ (RoundTrips-var_int p.payload h.payload_fits) (
          RoundTrips-last _ _ _
            (RoundTrips-optional FitsVec3 _ _ RoundTrips-vec3 p.fire_at_position
              h.fire_at_position_fits)
            refl)))

-- `SetActorMotionPacket`.
pub record SetActorMotionPacket : Type 0 where
  pub actor_runtime_id : ℕ
  pub motion : Vec3
  pub tick : ℕ

unfoldable pub write_set_actor_motion_packet : SetActorMotionPacket → Writer
write_set_actor_motion_packet p = do
  write_unsigned_var_int64 p.actor_runtime_id
  write_vec3 p.motion
  write_unsigned_var_int64 p.tick

unfoldable pub read_set_actor_motion_packet : Reader SetActorMotionPacket
read_set_actor_motion_packet = do
  actor_runtime_id ← read_unsigned_var_int64
  motion ← read_vec3
  tick ← read_unsigned_var_int64
  pure (record { actor_runtime_id = actor_runtime_id; motion = motion; tick = tick })

-- The values of the fields' types, with no text or array longer than its length prefix.
pub record FitsSetActorMotionPacket (p : SetActorMotionPacket) : Type 0 where
  pub actor_runtime_id_fits : IsBits 64 p.actor_runtime_id
  pub motion_fits : FitsVec3 p.motion
  pub tick_fits : IsBits 64 p.tick

pub RoundTrips-set_actor_motion_packet :
    (p : SetActorMotionPacket)
    → FitsSetActorMotionPacket p
    → RoundTrips (write_set_actor_motion_packet p) read_set_actor_motion_packet p
unfolding write_set_actor_motion_packet read_set_actor_motion_packet
RoundTrips-set_actor_motion_packet p h =
    RoundTrips-bind _ _ _ _
      (RoundTrips-unsigned_var_int64 p.actor_runtime_id h.actor_runtime_id_fits)
      (RoundTrips-bind _ _ _ _ (RoundTrips-vec3 p.motion h.motion_fits)
        (RoundTrips-last _ _ _ (RoundTrips-unsigned_var_int64 p.tick h.tick_fits) refl))

-- `MoveActorAbsolutePacket`.
pub record MoveActorAbsolutePacket : Type 0 where
  pub actor_runtime_id : ℕ
  pub flags : ℕ
  pub position : Vec3
  pub rotation_x : ℕ
  pub rotation_y : ℕ
  pub rotation_y_head : ℕ

unfoldable pub write_move_actor_absolute_packet : MoveActorAbsolutePacket → Writer
write_move_actor_absolute_packet p = do
  write_unsigned_var_int64 p.actor_runtime_id
  write_enum uint8 uint8 write_byte p.flags
  write_vec3 p.position
  write_byte p.rotation_x
  write_byte p.rotation_y
  write_byte p.rotation_y_head

unfoldable pub read_move_actor_absolute_packet : Reader MoveActorAbsolutePacket
read_move_actor_absolute_packet = do
  actor_runtime_id ← read_unsigned_var_int64
  flags ← read_enum uint8 uint8 read_byte
  position ← read_vec3
  rotation_x ← read_byte
  rotation_y ← read_byte
  rotation_y_head ← read_byte
  pure (record {
    actor_runtime_id = actor_runtime_id;
    flags = flags;
    position = position;
    rotation_x = rotation_x;
    rotation_y = rotation_y;
    rotation_y_head = rotation_y_head;
  })

-- The values of the fields' types, with no text or array longer than its length prefix.
pub record FitsMoveActorAbsolutePacket (p : MoveActorAbsolutePacket) : Type 0 where
  pub actor_runtime_id_fits : IsBits 64 p.actor_runtime_id
  pub flags_fits : IsBits 8 p.flags
  pub position_fits : FitsVec3 p.position
  pub rotation_x_fits : IsBits 8 p.rotation_x
  pub rotation_y_fits : IsBits 8 p.rotation_y
  pub rotation_y_head_fits : IsBits 8 p.rotation_y_head

pub RoundTrips-move_actor_absolute_packet :
    (p : MoveActorAbsolutePacket)
    → FitsMoveActorAbsolutePacket p
    → RoundTrips (write_move_actor_absolute_packet p) read_move_actor_absolute_packet p
unfolding write_move_actor_absolute_packet read_move_actor_absolute_packet
RoundTrips-move_actor_absolute_packet p h =
    RoundTrips-bind _ _ _ _
      (RoundTrips-unsigned_var_int64 p.actor_runtime_id h.actor_runtime_id_fits)
      (RoundTrips-bind _ _ _ _
        (RoundTrips-same_enum uint8 _ _ p.flags h.flags_fits (RoundTrips-byte p.flags h.flags_fits))
        (RoundTrips-bind _ _ _ _ (RoundTrips-vec3 p.position h.position_fits) (
          RoundTrips-bind _ _ _ _ (RoundTrips-byte p.rotation_x h.rotation_x_fits) (
            RoundTrips-bind _ _ _ _ (RoundTrips-byte p.rotation_y h.rotation_y_fits) (
              RoundTrips-last _ _ _ (RoundTrips-byte p.rotation_y_head h.rotation_y_head_fits)
                refl)))))

-- `TakeItemActorPacket`.
pub record TakeItemActorPacket : Type 0 where
  pub item_runtime_id : ℕ
  pub actor_runtime_id : ℕ

unfoldable pub write_take_item_actor_packet : TakeItemActorPacket → Writer
write_take_item_actor_packet p = do
  write_unsigned_var_int64 p.item_runtime_id
  write_unsigned_var_int64 p.actor_runtime_id

unfoldable pub read_take_item_actor_packet : Reader TakeItemActorPacket
read_take_item_actor_packet = do
  item_runtime_id ← read_unsigned_var_int64
  actor_runtime_id ← read_unsigned_var_int64
  pure (record { item_runtime_id = item_runtime_id; actor_runtime_id = actor_runtime_id })

-- The values of the fields' types, with no text or array longer than its length prefix.
pub record FitsTakeItemActorPacket (p : TakeItemActorPacket) : Type 0 where
  pub item_runtime_id_fits : IsBits 64 p.item_runtime_id
  pub actor_runtime_id_fits : IsBits 64 p.actor_runtime_id

pub RoundTrips-take_item_actor_packet :
    (p : TakeItemActorPacket)
    → FitsTakeItemActorPacket p
    → RoundTrips (write_take_item_actor_packet p) read_take_item_actor_packet p
unfolding write_take_item_actor_packet read_take_item_actor_packet
RoundTrips-take_item_actor_packet p h =
    RoundTrips-bind _ _ _ _ (RoundTrips-unsigned_var_int64 p.item_runtime_id h.item_runtime_id_fits)
      (RoundTrips-last _ _ _
        (RoundTrips-unsigned_var_int64 p.actor_runtime_id h.actor_runtime_id_fits) refl)

-- `RemoveActorPacket`.
pub record RemoveActorPacket : Type 0 where
  pub actor_unique_id : ℕ

unfoldable pub write_remove_actor_packet : RemoveActorPacket → Writer
write_remove_actor_packet p = write_var_int64 p.actor_unique_id

unfoldable pub read_remove_actor_packet : Reader RemoveActorPacket
read_remove_actor_packet = do
  actor_unique_id ← read_var_int64
  pure (record { actor_unique_id = actor_unique_id })

-- The values of the fields' types, with no text or array longer than its length prefix.
pub record FitsRemoveActorPacket (p : RemoveActorPacket) : Type 0 where
  pub actor_unique_id_fits : IsBits 64 p.actor_unique_id

pub RoundTrips-remove_actor_packet :
    (p : RemoveActorPacket)
    → FitsRemoveActorPacket p
    → RoundTrips (write_remove_actor_packet p) read_remove_actor_packet p
unfolding write_remove_actor_packet read_remove_actor_packet
RoundTrips-remove_actor_packet p h =
    RoundTrips-last _ _ _ (RoundTrips-var_int64 p.actor_unique_id h.actor_unique_id_fits) refl
