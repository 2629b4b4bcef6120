-- ===== src/Packet/Blocks.antt =====
-- src/sculk/protocol/codec/packet: the packets on blocks and places in a level. A float is its bit pattern.
use beprotocol.Common.{ℕ, ◌<◌, ◌^◌, refl, List, length, All, Bool}
use beprotocol.Stream.{Reader, Writer, pure, ◌>>=◌, ◌>>◌}
use beprotocol.Stream.RoundTrip.{RoundTrips, RoundTrips-bind, RoundTrips-last}
use beprotocol.Stream.Fixed.{
  write_unsigned_int, read_unsigned_int, write_byte, read_byte, write_bool, read_bool,
}
use beprotocol.Stream.Fixed.RoundTrip.{RoundTrips-byte, RoundTrips-bool}
use beprotocol.Stream.VarInt.{
  write_unsigned_var_int, read_unsigned_var_int, write_var_int, read_var_int,
}
use beprotocol.Stream.VarInt.RoundTrip.{RoundTrips-unsigned_var_int, RoundTrips-var_int}
use beprotocol.Stream.Containers.{
  int8, int32, uint32, write_enum, read_enum, write_array, read_array,
}
use beprotocol.Stream.Containers.RoundTrip.{
  RoundTrips-enum, RoundTrips-int_array, CastsBack-int8-int32, static_cast-int8-int32-lt,
}
use beprotocol.Packet.Fits.{IsBits}
use beprotocol.Packet.Types.{
  BlockPos, write_block_pos, read_block_pos, FitsBlockPos, RoundTrips-block_pos, ChunkPos,
  write_chunk_pos, read_chunk_pos, FitsChunkPos, RoundTrips-chunk_pos,
}

-- `SetSpawnPositionPacket`.
pub record SetSpawnPositionPacket : Type 0 where
  pub spawn_position_type : ℕ
  pub block_position : BlockPos
  pub dimension_type : ℕ
  pub spawn_block_pos : BlockPos

unfoldable pub write_set_spawn_position_packet : SetSpawnPositionPacket → Writer
write_set_spawn_position_packet p = do
  write_enum int8 int32 write_var_int p.spawn_position_type
  write_block_pos p.block_position
  write_var_int p.dimension_type
  write_block_pos p.spawn_block_pos

unfoldable pub read_set_spawn_position_packet : Reader SetSpawnPositionPacket
read_set_spawn_position_packet = do
  spawn_position_type ← read_enum int8 int32 read_var_int
  block_position ← read_block_pos
  dimension_type ← read_var_int
  spawn_block_pos ← read_block_pos
  pure (record {
    spawn_position_type = spawn_position_type;
    block_position = block_position;
    dimension_type = dimension_type;
    spawn_block_pos = spawn_block_pos;
  })

-- The values of the fields' types, with no text or array longer than its length prefix.
pub record FitsSetSpawnPositionPacket (p : SetSpawnPositionPacket) : Type 0 where
  pub spawn_position_type_fits : IsBits 8 p.spawn_position_type
  pub block_position_fits : FitsBlockPos p.block_position
  pub dimension_type_fits : IsBits 32 p.dimension_type
  pub spawn_block_pos_fits : FitsBlockPos p.spawn_block_pos

pub RoundTrips-set_spawn_position_packet :
    (p : SetSpawnPositionPacket)
    → FitsSetSpawnPositionPacket p
    → RoundTrips (write_set_spawn_position_packet p) read_set_spawn_position_packet p
unfolding write_set_spawn_position_packet read_set_spawn_position_packet
RoundTrips-set_spawn_position_packet p h =
    RoundTrips-bind _ _ _ _
      (RoundTrips-enum int8 int32 _ _ p.spawn_position_type
        (CastsBack-int8-int32 p.spawn_position_type h.spawn_position_type_fits)
        (RoundTrips-var_int _
          (static_cast-int8-int32-lt p.spawn_position_type h.spawn_position_type_fits)))
      (RoundTrips-bind _ _ _ _ (RoundTrips-block_pos p.block_position h.block_position_fits) (
        RoundTrips-bind _ _ _ _ (RoundTrips-var_int p.dimension_type h.dimension_type_fits) (
          RoundTrips-last _ _ _ (RoundTrips-block_pos p.spawn_block_pos h.spawn_block_pos_fits)
            refl)))

-- `NetworkChunkPublisherUpdatePacket`.
pub record NetworkChunkPublisherUpdatePacket : Type 0 where
  pub new_position_for_view : BlockPos
  pub new_radius_for_view : ℕ
  pub server_built_chunks_list : List ChunkPos

unfoldable pub write_network_chunk_publisher_update_packet :
    NetworkChunkPublisherUpdatePacket → Writer
write_network_chunk_publisher_update_packet p = do
  write_block_pos p.new_position_for_view
  write_unsigned_var_int p.new_radius_for_view
  write_array uint32 write_unsigned_int write_chunk_pos p.server_built_chunks_list

unfoldable pub read_network_chunk_publisher_update_packet : Reader NetworkChunkPublisherUpdatePacket
read_network_chunk_publisher_update_packet = do
  new_position_for_view ← read_block_pos
  new_radius_for_view ← read_unsigned_var_int
  server_built_chunks_list ← read_array uint32 read_unsigned_int read_chunk_pos
  pure (record {
    new_position_for_view = new_position_for_view;
    new_radius_for_view = new_radius_for_view;
    server_built_chunks_list = server_built_chunks_list;
  })

-- The values of the fields' types, with no text or array longer than its length prefix.
pub record FitsNetworkChunkPublisherUpdatePacket (p : NetworkChunkPublisherUpdatePacket)
    : Type 0 where
  pub new_position_for_view_fits : FitsBlockPos p.new_position_for_view
  pub new_radius_for_view_fits : IsBits 32 p.new_radius_for_view
  pub server_built_chunks_list_fits :
      (length p.server_built_chunks_list < 2 ^ 32) × All FitsChunkPos p.server_built_chunks_list

pub RoundTrips-network_chunk_publisher_update_packet :
    (p : NetworkChunkPublisherUpdatePacket)
    → FitsNetworkChunkPublisherUpdatePacket p
    → RoundTrips
        (write_network_chunk_publisher_update_packet p)
        read_network_chunk_publisher_update_packet
        p
unfolding write_network_chunk_publisher_update_packet read_network_chunk_publisher_update_packet
RoundTrips-network_chunk_publisher_update_packet p h =
    RoundTrips-bind _ _ _ _
      (RoundTrips-block_pos p.new_position_for_view h.new_position_for_view_fits)
      (RoundTrips-bind _ _ _ _
        (RoundTrips-unsigned_var_int p.new_radius_for_view h.new_radius_for_view_fits)
        (RoundTrips-last _ _ _
          (RoundTrips-int_array FitsChunkPos _ _ RoundTrips-chunk_pos p.server_built_chunks_list
            h.server_built_chunks_list_fits)
          refl))

-- `BlockPickRequestPacket`.
pub record BlockPickRequestPacket : Type 0 where
  pub position : BlockPos
  pub with_data : Bool
  pub max_slots : ℕ

unfoldable pub write_block_pick_request_packet : BlockPickRequestPacket → Writer
write_block_pick_request_packet p = do
  write_block_pos p.position
  write_bool p.with_data
  write_byte p.max_slots

unfoldable pub read_block_pick_request_packet : Reader BlockPickRequestPacket
read_block_pick_request_packet = do
  position ← read_block_pos
  with_data ← read_bool
  max_slots ← read_byte
  pure (record { position = position; with_data = with_data; max_slots = max_slots })

-- The values of the fields' types, with no text or array longer than its length prefix.
pub record FitsBlockPickRequestPacket (p : BlockPickRequestPacket) : Type 0 where
  pub position_fits : FitsBlockPos p.position
  pub max_slots_fits : IsBits 8 p.max_slots

pub RoundTrips-block_pick_request_packet :
    (p : BlockPickRequestPacket)
    → FitsBlockPickRequestPacket p
    → RoundTrips (write_block_pick_request_packet p) read_block_pick_request_packet p
unfolding write_block_pick_request_packet read_block_pick_request_packet
RoundTrips-block_pick_request_packet p h =
    RoundTrips-bind _ _ _ _ (RoundTrips-block_pos p.position h.position_fits) (
      RoundTrips-bind _ _ _ _ (RoundTrips-bool p.with_data)
        (RoundTrips-last _ _ _ (RoundTrips-byte p.max_slots h.max_slots_fits) refl))

-- `LecternUpdatePacket`.
pub record LecternUpdatePacket : Type 0 where
  pub new_page_to_show : ℕ
  pub total_pages : ℕ
  pub position : BlockPos

unfoldable pub write_lectern_update_packet : LecternUpdatePacket → Writer
write_lectern_update_packet p = do
  write_byte p.new_page_to_show
  write_byte p.total_pages
  write_block_pos p.position

unfoldable pub read_lectern_update_packet : Reader LecternUpdatePacket
read_lectern_update_packet = do
  new_page_to_show ← read_byte
  total_pages ← read_byte
  position ← read_block_pos
  pure (record {
    new_page_to_show = new_page_to_show;
    total_pages = total_pages;
    position = position;
  })

-- The values of the fields' types, with no text or array longer than its length prefix.
pub record FitsLecternUpdatePacket (p : LecternUpdatePacket) : Type 0 where
  pub new_page_to_show_fits : IsBits 8 p.new_page_to_show
  pub total_pages_fits : IsBits 8 p.total_pages
  pub position_fits : FitsBlockPos p.position

pub RoundTrips-lectern_update_packet :
    (p : LecternUpdatePacket)
    → FitsLecternUpdatePacket p
    → RoundTrips (write_lectern_update_packet p) read_lectern_update_packet p
unfolding write_lectern_update_packet read_lectern_update_packet
RoundTrips-lectern_update_packet p h =
    RoundTrips-bind _ _ _ _ (RoundTrips-byte p.new_page_to_show h.new_page_to_show_fits) (
      RoundTrips-bind _ _ _ _ (RoundTrips-byte p.total_pages h.total_pages_fits)
        (RoundTrips-last _ _ _ (RoundTrips-block_pos p.position h.position_fits) refl))

-- `AnvilDamagePacket`.
pub record AnvilDamagePacket : Type 0 where
  pub damage_amount : ℕ
  pub position : BlockPos

unfoldable pub write_anvil_damage_packet : AnvilDamagePacket → Writer
write_anvil_damage_packet p = do write_byte p.damage_amount; write_block_pos p.position

unfoldable pub read_anvil_damage_packet : Reader AnvilDamagePacket
read_anvil_damage_packet = do
  damage_amount ← read_byte
  position ← read_block_pos
  pure (record { damage_amount = damage_amount; position = position })

-- The values of the fields' types, with no text or array longer than its length prefix.
pub record FitsAnvilDamagePacket (p : AnvilDamagePacket) : Type 0 where
  pub damage_amount_fits : IsBits 8 p.damage_amount
  pub position_fits : FitsBlockPos p.position

pub RoundTrips-anvil_damage_packet :
    (p : AnvilDamagePacket)
    → FitsAnvilDamagePacket p
    → RoundTrips (write_anvil_damage_packet p) read_anvil_damage_packet p
unfolding write_anvil_damage_packet read_anvil_damage_packet
RoundTrips-anvil_damage_packet p h =
    RoundTrips-bind _ _ _ _ (RoundTrips-byte p.damage_amount h.damage_amount_fits)
      (RoundTrips-last _ _ _ (RoundTrips-block_pos p.position h.position_fits) refl)

-- `OpenSignPacket`.
pub record OpenSignPacket : Type 0 where
  pub position : BlockPos
  pub is_front_side : Bool

unfoldable pub write_open_sign_packet : OpenSignPacket → Writer
write_open_sign_packet p = do write_block_pos p.position; write_bool p.is_front_side

unfoldable pub read_open_sign_packet : Reader OpenSignPacket
read_open_sign_packet = do
  position ← read_block_pos
  is_front_side ← read_bool
  pure (record { position = position; is_front_side = is_front_side })

-- The values of the fields' types, with no text or array longer than its length prefix.
pub record FitsOpenSignPacket (p : OpenSignPacket) : Type 0 where
  pub position_fits : FitsBlockPos p.position

pub RoundTrips-open_sign_packet :
    (p : OpenSignPacket)
    → FitsOpenSignPacket p
    → RoundTrips (write_open_sign_packet p) read_open_sign_packet p
unfolding write_open_sign_packet read_open_sign_packet
RoundTrips-open_sign_packet p h =
    RoundTrips-bind _ _ _ _ (RoundTrips-block_pos p.position h.position_fits)
      (RoundTrips-last _ _ _ (RoundTrips-bool p.is_front_side) refl)

-- `SetDifficultyPacket`.
pub record SetDifficultyPacket : Type 0 where
  pub difficulty : ℕ

unfoldable pub write_set_difficulty_packet : SetDifficultyPacket → Writer
write_set_difficulty_packet p = write_unsigned_var_int p.difficulty

unfoldable pub read_set_difficulty_packet : Reader SetDifficultyPacket
read_set_difficulty_packet = do
  difficulty ← read_unsigned_var_int
  pure (record { difficulty = difficulty })

-- The values of the fields' types, with no text or array longer than its length prefix.
pub record FitsSetDifficultyPacket (p : SetDifficultyPacket) : Type 0 where
  pub difficulty_fits : IsBits 32 p.difficulty

pub RoundTrips-set_difficulty_packet :
    (p : SetDifficultyPacket)
    → FitsSetDifficultyPacket p
    → RoundTrips (write_set_difficulty_packet p) read_set_difficulty_packet p
unfolding write_set_difficulty_packet read_set_difficulty_packet
RoundTrips-set_difficulty_packet p h =
    RoundTrips-last _ _ _ (RoundTrips-unsigned_var_int p.difficulty h.difficulty_fits) refl
