-- ===== src/Packet/World.antt =====
-- src/sculk/protocol/codec/packet: the packets on the state of a level. A float is its bit pattern.
use beprotocol.Common.{ℕ, refl, Bool, Option}
use beprotocol.Stream.{Reader, Writer, pure, ◌>>=◌, ◌>>◌}
use beprotocol.Stream.RoundTrip.{RoundTrips, RoundTrips-bind, RoundTrips-last}
use beprotocol.Stream.Fixed.{
  write_unsigned_int, read_unsigned_int, write_byte, read_byte, write_bool, read_bool,
}
use beprotocol.Stream.Fixed.RoundTrip.{RoundTrips-unsigned_int, RoundTrips-byte, RoundTrips-bool}
use beprotocol.Stream.VarInt.{
  write_unsigned_var_int, read_unsigned_var_int, write_var_int, read_var_int,
}
use beprotocol.Stream.VarInt.RoundTrip.{RoundTrips-unsigned_var_int, RoundTrips-var_int}
use beprotocol.Stream.Containers.{
  uint8, int32, write_enum, read_enum, write_optional, read_optional,
}
use beprotocol.Stream.Containers.RoundTrip.{
  RoundTrips-enum, OptionAll, RoundTrips-optional, CastsBack-uint8-int32,
  static_cast-uint8-int32-lt,
}
use beprotocol.Packet.Fits.{IsBits}
use beprotocol.Packet.Types.{
  Vec3, write_vec3, read_vec3, FitsVec3, RoundTrips-vec3, BlockPos, write_block_pos, read_block_pos,
  FitsBlockPos, RoundTrips-block_pos,
}

-- `SetTimePacket`.
pub record SetTimePacket : Type 0 where
  pub time : ℕ

unfoldable pub write_set_time_packet : SetTimePacket → Writer
write_set_time_packet p = write_var_int p.time

unfoldable pub read_set_time_packet : Reader SetTimePacket
read_set_time_packet = do time ← read_var_int; pure (record { time = time })

-- The values of the fields' types, with no text or array longer than its length prefix.
pub record FitsSetTimePacket (p : SetTimePacket) : Type 0 where
  pub time_fits : IsBits 32 p.time

pub RoundTrips-set_time_packet :
    (p : SetTimePacket)
    → FitsSetTimePacket p
    → RoundTrips (write_set_time_packet p) read_set_time_packet p
unfolding write_set_time_packet read_set_time_packet
RoundTrips-set_time_packet p h = RoundTrips-last _ _ _ (RoundTrips-var_int p.time h.time_fits) refl

-- `ChunkRadiusUpdatedPacket`.
pub record ChunkRadiusUpdatedPacket : Type 0 where
  pub chunk_radius : ℕ

unfoldable pub write_chunk_radius_updated_packet : ChunkRadiusUpdatedPacket → Writer
write_chunk_radius_updated_packet p = write_var_int p.chunk_radius

unfoldable pub read_chunk_radius_updated_packet : Reader ChunkRadiusUpdatedPacket
read_chunk_radius_updated_packet = do
  chunk_radius ← read_var_int
  pure (record { chunk_radius = chunk_radius })

-- The values of the fields' types, with no text or array longer than its length prefix.
pub record FitsChunkRadiusUpdatedPacket (p : ChunkRadiusUpdatedPacket) : Type 0 where
  pub chunk_radius_fits : IsBits 32 p.chunk_radius

pub RoundTrips-chunk_radius_updated_packet :
    (p : ChunkRadiusUpdatedPacket)
    → FitsChunkRadiusUpdatedPacket p
    → RoundTrips (write_chunk_radius_updated_packet p) read_chunk_radius_updated_packet p
unfolding write_chunk_radius_updated_packet read_chunk_radius_updated_packet
RoundTrips-chunk_radius_updated_packet p h =
    RoundTrips-last _ _ _ (RoundTrips-var_int p.chunk_radius h.chunk_radius_fits) refl

-- `RequestChunkRadiusPacket`.
pub record RequestChunkRadiusPacket : Type 0 where
  pub chunk_radius : ℕ
  pub max_chunk_radius : ℕ

unfoldable pub write_request_chunk_radius_packet : RequestChunkRadiusPacket → Writer
write_request_chunk_radius_packet p = do write_var_int p.chunk_radius; write_byte p.max_chunk_radius

unfoldable pub read_request_chunk_radius_packet : Reader RequestChunkRadiusPacket
read_request_chunk_radius_packet = do
  chunk_radius ← read_var_int
  max_chunk_radius ← read_byte
  pure (record { chunk_radius = chunk_radius; max_chunk_radius = max_chunk_radius })

-- The values of the fields' types, with no text or array longer than its length prefix.
pub record FitsRequestChunkRadiusPacket (p : RequestChunkRadiusPacket) : Type 0 where
  pub chunk_radius_fits : IsBits 32 p.chunk_radius
  pub max_chunk_radius_fits : IsBits 8 p.max_chunk_radius

pub RoundTrips-request_chunk_radius_packet :
    (p : RequestChunkRadiusPacket)
    → FitsRequestChunkRadiusPacket p
    → RoundTrips (write_request_chunk_radius_packet p) read_request_chunk_radius_packet p
unfolding write_request_chunk_radius_packet read_request_chunk_radius_packet
RoundTrips-request_chunk_radius_packet p h =
    RoundTrips-bind _ _ _ _ (RoundTrips-var_int p.chunk_radius h.chunk_radius_fits)
      (RoundTrips-last _ _ _ (RoundTrips-byte p.max_chunk_radius h.max_chunk_radius_fits) refl)

-- `BlockEventPacket`.
pub record BlockEventPacket : Type 0 where
  pub block_position : BlockPos
  pub event_type : ℕ
  pub event_value : ℕ

unfoldable pub write_block_event_packet : BlockEventPacket → Writer
write_block_event_packet p = do
  write_block_pos p.block_position
  write_enum uint8 int32 write_var_int p.event_type
  write_var_int p.event_value

unfoldable pub read_block_event_packet : Reader BlockEventPacket
read_block_event_packet = do
  block_position ← read_block_pos
  event_type ← read_enum uint8 int32 read_var_int
  event_value ← read_var_int
  pure (record {
    block_position = block_position;
    event_type = event_type;
    event_value = event_value;
  })

-- The values of the fields' types, with no text or array longer than its length prefix.
pub record FitsBlockEventPacket (p : BlockEventPacket) : Type 0 where
  pub block_position_fits : FitsBlockPos p.block_position
  pub event_type_fits : IsBits 8 p.event_type
  pub event_value_fits : IsBits 32 p.event_value

pub RoundTrips-block_event_packet :
    (p : BlockEventPacket)
    → FitsBlockEventPacket p
    → RoundTrips (write_block_event_packet p) read_block_event_packet p
unfolding write_block_event_packet read_block_event_packet
RoundTrips-block_event_packet p h =
    RoundTrips-bind _ _ _ _ (RoundTrips-block_pos p.block_position h.block_position_fits) (
      RoundTrips-bind _ _ _ _
        (RoundTrips-enum uint8 int32 _ _ p.event_type
          (CastsBack-uint8-int32 p.event_type h.event_type_fits)
          (RoundTrips-var_int _ (static_cast-uint8-int32-lt p.event_type h.event_type_fits)))
        (RoundTrips-last _ _ _ (RoundTrips-var_int p.event_value h.event_value_fits) refl))

-- `UpdateBlockPacket`.
pub record UpdateBlockPacket : Type 0 where
  pub block_position : BlockPos
  pub runtime_id : ℕ
  pub flag : ℕ
  pub layer : ℕ

unfoldable pub write_update_block_packet : UpdateBlockPacket → Writer
write_update_block_packet p = do
  write_block_pos p.block_position
  write_unsigned_var_int p.runtime_id
  write_unsigned_var_int p.flag
  write_unsigned_var_int p.layer

unfoldable pub read_update_block_packet : Reader UpdateBlockPacket
read_update_block_packet = do
  block_position ← read_block_pos
  runtime_id ← read_unsigned_var_int
  flag ← read_unsigned_var_int
  layer ← read_unsigned_var_int
  pure (record {
    block_position = block_position;
    runtime_id = runtime_id;
    flag = flag;
    layer = layer;
  })

-- The values of the fields' types, with no text or array longer than its length prefix.
pub record FitsUpdateBlockPacket (p : UpdateBlockPacket) : Type 0 where
  pub block_position_fits : FitsBlockPos p.block_position
  pub runtime_id_fits : IsBits 32 p.runtime_id
  pub flag_fits : IsBits 32 p.flag
  pub layer_fits : IsBits 32 p.layer

pub RoundTrips-update_block_packet :
    (p : UpdateBlockPacket)
    → FitsUpdateBlockPacket p
    → RoundTrips (write_update_block_packet p) read_update_block_packet p
unfolding write_update_block_packet read_update_block_packet
RoundTrips-update_block_packet p h =
    RoundTrips-bind _ _ _ _ (RoundTrips-block_pos p.block_position h.block_position_fits) (
      RoundTrips-bind _ _ _ _ (RoundTrips-unsigned_var_int p.runtime_id h.runtime_id_fits) (
        RoundTrips-bind _ _ _ _ (RoundTrips-unsigned_var_int p.flag h.flag_fits)
          (RoundTrips-last _ _ _ (RoundTrips-unsigned_var_int p.layer h.layer_fits) refl)))

-- `ChangeDimensionPacket`.
pub record ChangeDimensionPacket : Type 0 where
  pub dimension_type : ℕ
  pub position : Vec3
  pub respawn : Bool
  pub loading_screen_id : Option ℕ

unfoldable pub write_change_dimension_packet : ChangeDimensionPacket → Writer
write_change_dimension_packet p = do
  write_var_int p.dimension_type
  write_vec3 p.position
  write_bool p.respawn
  write_optional write_unsigned_int p.loading_screen_id

unfoldable pub read_change_dimension_packet : Reader ChangeDimensionPacket
read_change_dimension_packet = do
  dimension_type ← read_var_int
  position ← read_vec3
  respawn ← read_bool
  loading_screen_id ← read_optional read_unsigned_int
  pure (record {
    dimension_type = dimension_type;
    position = position;
    respawn = respawn;
    loading_screen_id = loading_screen_id;
  })

-- The values of the fields' types, with no text or array longer than its length prefix.
pub record FitsChangeDimensionPacket (p : ChangeDimensionPacket) : Type 0 where
  pub dimension_type_fits : IsBits 32 p.dimension_type
  pub position_fits : FitsVec3 p.position
  pub loading_screen_id_fits : OptionAll (IsBits 32) p.loading_screen_id

pub RoundTrips-change_dimension_packet :
    (p : ChangeDimensionPacket)
    → FitsChangeDimensionPacket p
    → RoundTrips (write_change_dimension_packet p) read_change_dimension_packet p
unfolding write_change_dimension_packet read_change_dimension_packet
RoundTrips-change_dimension_packet p h =
    RoundTrips-bind _ _ _ _ (RoundTrips-var_int p.dimension_type h.dimension_type_fits) (
      RoundTrips-bind _ _ _ _ (RoundTrips-vec3 p.position h.position_fits) (
        RoundTrips-bind _ _ _ _ (RoundTrips-bool p.respawn) (
          RoundTrips-last _ _ _
            (RoundTrips-optional (IsBits 32) _ _ RoundTrips-unsigned_int p.loading_screen_id
              h.loading_screen_id_fits)
            refl)))

-- `LevelEventPacket`.
pub record LevelEventPacket : Type 0 where
  pub event_type : ℕ
  pub position : Vec3
  pub event_data : ℕ

unfoldable pub write_level_event_packet : LevelEventPacket → Writer
write_level_event_packet p = do
  write_var_int p.event_type
  write_vec3 p.position
  write_var_int p.event_data

unfoldable pub read_level_event_packet : Reader LevelEventPacket
read_level_event_packet = do
  event_type ← read_var_int
  position ← read_vec3
  event_data ← read_var_int
  pure (record { event_type = event_type; position = position; event_data = event_data })

-- The values of the fields' types, with no text or array longer than its length prefix.
pub record FitsLevelEventPacket (p : LevelEventPacket) : Type 0 where
  pub event_type_fits : IsBits 32 p.event_type
  pub position_fits : FitsVec3 p.position
  pub event_data_fits : IsBits 32 p.event_data

pub RoundTrips-level_event_packet :
    (p : LevelEventPacket)
    → FitsLevelEventPacket p
    → RoundTrips (write_level_event_packet p) read_level_event_packet p
unfolding write_level_event_packet read_level_event_packet
RoundTrips-level_event_packet p h =
    RoundTrips-bind _ _ _ _ (RoundTrips-var_int p.event_type h.event_type_fits) (
      RoundTrips-bind _ _ _ _ (RoundTrips-vec3 p.position h.position_fits)
        (RoundTrips-last _ _ _ (RoundTrips-var_int p.event_data h.event_data_fits) refl))
