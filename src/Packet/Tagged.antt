-- ===== src/Packet/Tagged.antt =====
-- src/sculk/protocol/codec/packet: packets that carry a named binary tag.
use beprotocol.Common.{
  ℕ, ◌≡◌, ◌≤◌, refl, sym, subst, List, length, ltb, false, if◌then◌else◌, arith,
}
use beprotocol.Stream.{Reader, Writer, pure, fail, ◌>>=◌, ◌>>◌}
use beprotocol.Stream.RoundTrip.{RoundTrips, RoundTrips-bind, RoundTrips-last}
use beprotocol.Stream.VarInt.{
  write_unsigned_var_int, read_unsigned_var_int, write_var_int, read_var_int,
}
use beprotocol.Stream.VarInt.RoundTrip.{RoundTrips-unsigned_var_int, RoundTrips-var_int}
use beprotocol.Stream.Text.{write_string, read_string, RoundTrips-string}
use beprotocol.Packet.Fits.{IsBits, FitsText}
use beprotocol.Packet.Types.{
  BlockPos, write_block_pos, read_block_pos, FitsBlockPos, RoundTrips-block_pos,
}
use beprotocol.Packet.Nbt.{
  Entries, serialize_entries, deserialize_compound, write_compound, read_compound,
}
use beprotocol.Packet.Nbt.Fits.{FitsEntries}
use beprotocol.Packet.Nbt.ReadBack.{RoundTrips-entries, RoundTrips-compound}

-- `BlockActorDataPacket`.
pub record BlockActorDataPacket : Type 0 where
  pub block_position : BlockPos
  pub actor_data_tags : Entries

unfoldable pub write_block_actor_data_packet : BlockActorDataPacket → Writer
write_block_actor_data_packet p = do
  write_block_pos p.block_position
  write_compound p.actor_data_tags

unfoldable pub read_block_actor_data_packet : Reader BlockActorDataPacket
read_block_actor_data_packet = do
  block_position ← read_block_pos
  actor_data_tags ← read_compound
  pure (record { block_position = block_position; actor_data_tags = actor_data_tags })

pub record FitsBlockActorDataPacket (p : BlockActorDataPacket) : Type 0 where
  pub block_position_fits : FitsBlockPos p.block_position
  pub actor_data_tags_fits : FitsEntries p.actor_data_tags

pub RoundTrips-block_actor_data_packet :
    (p : BlockActorDataPacket)
    → FitsBlockActorDataPacket p
    → RoundTrips (write_block_actor_data_packet p) read_block_actor_data_packet p
unfolding write_block_actor_data_packet read_block_actor_data_packet
RoundTrips-block_actor_data_packet p h =
    RoundTrips-bind _ _ _ _ (RoundTrips-block_pos p.block_position h.block_position_fits)
      (RoundTrips-last _ _ _ (RoundTrips-compound p.actor_data_tags h.actor_data_tags_fits) refl)

-- `LevelEventGenericPacket`, whose compound has no root.
pub record LevelEventGenericPacket : Type 0 where
  pub event_id : ℕ
  pub data_tag : Entries

unfoldable pub write_level_event_generic_packet : LevelEventGenericPacket → Writer
write_level_event_generic_packet p = do write_var_int p.event_id; serialize_entries p.data_tag

unfoldable pub read_level_event_generic_packet : Reader LevelEventGenericPacket
read_level_event_generic_packet = do
  event_id ← read_var_int
  data_tag ← deserialize_compound
  pure (record { event_id = event_id; data_tag = data_tag })

pub record FitsLevelEventGenericPacket (p : LevelEventGenericPacket) : Type 0 where
  pub event_id_fits : IsBits 32 p.event_id
  pub data_tag_fits : FitsEntries p.data_tag

pub RoundTrips-level_event_generic_packet :
    (p : LevelEventGenericPacket)
    → FitsLevelEventGenericPacket p
    → RoundTrips (write_level_event_generic_packet p) read_level_event_generic_packet p
unfolding write_level_event_generic_packet read_level_event_generic_packet
RoundTrips-level_event_generic_packet p h =
    RoundTrips-bind _ _ _ _ (RoundTrips-var_int p.event_id h.event_id_fits)
      (RoundTrips-last _ _ _ (RoundTrips-entries p.data_tag h.data_tag_fits) refl)

-- `AddVolumeEntityPacket`.
pub record AddVolumeEntityPacket : Type 0 where
  pub entity_net_id : ℕ
  pub components : Entries
  pub json_identifier : List ℕ
  pub instance_name : List ℕ
  pub min_bounds : BlockPos
  pub max_bounds : BlockPos
  pub dimension_type : ℕ
  pub engine_version : List ℕ

-- The maximum is written twice, and the minimum never.
unfoldable pub write_add_volume_entity_packet : AddVolumeEntityPacket → Writer
write_add_volume_entity_packet p = do
  write_unsigned_var_int p.entity_net_id
  write_compound p.components
  write_string p.json_identifier
  write_string p.instance_name
  write_block_pos p.max_bounds
  write_block_pos p.max_bounds
  write_var_int p.dimension_type
  write_string p.engine_version

-- `BlockPos{}`.
abbrev pub origin : BlockPos
origin = record { x = 0; y = 0; z = 0 }

-- The second position read replaces the first one.
unfoldable pub read_rest_of_volume : ℕ → Entries → List ℕ → List ℕ → Reader AddVolumeEntityPacket
read_rest_of_volume entity_net_id components json_identifier instance_name = do
  _ ← read_block_pos
  max_bounds ← read_block_pos
  dimension_type ← read_var_int
  engine_version ← read_string
  pure (record {
    entity_net_id = entity_net_id;
    components = components;
    json_identifier = json_identifier;
    instance_name = instance_name;
    min_bounds = origin;
    max_bounds = max_bounds;
    dimension_type = dimension_type;
    engine_version = engine_version;
  })

-- `_SCULK_CHECK_MIN` of a string's size.
unfoldable pub read_nonempty : Reader (List ℕ)
read_nonempty = do
  text ← read_string
  if ltb (length text) 1 then fail "out of bounds: too small" else pure text

unfoldable pub read_add_volume_entity_packet : Reader AddVolumeEntityPacket
read_add_volume_entity_packet = do
  entity_net_id ← read_unsigned_var_int
  components ← read_compound
  json_identifier ← read_nonempty
  instance_name ← read_nonempty
  read_rest_of_volume entity_net_id components json_identifier instance_name

pub record FitsVolume (p : AddVolumeEntityPacket) : Type 0 where
  pub entity_net_id_fits : IsBits 32 p.entity_net_id
  pub components_fits : FitsEntries p.components
  pub json_identifier_fits : FitsText p.json_identifier
  pub json_identifier_nonempty : 1 ≤ length p.json_identifier
  pub instance_name_fits : FitsText p.instance_name
  pub instance_name_nonempty : 1 ≤ length p.instance_name
  pub max_bounds_fits : FitsBlockPos p.max_bounds
  pub dimension_type_fits : IsBits 32 p.dimension_type
  pub engine_version_fits : FitsText p.engine_version

RoundTrips-nonempty :
    (text : List ℕ)
    → FitsText text
    → 1 ≤ length text
    → RoundTrips (write_string text) read_nonempty text
unfolding read_nonempty
RoundTrips-nonempty text h long =
    RoundTrips-last _ _ _ (RoundTrips-string text h) (rw some_bytes refl)
  where
    some_bytes : ltb (length text) 1 ≡ false
    some_bytes = ground arith

pub RoundTrips-volume :
    (p : AddVolumeEntityPacket)
    → FitsVolume p
    → RoundTrips
        (write_add_volume_entity_packet p)
        read_add_volume_entity_packet
        (record p { min_bounds = origin })
unfolding write_add_volume_entity_packet read_add_volume_entity_packet read_rest_of_volume
RoundTrips-volume p h =
    RoundTrips-bind _ _ _ _ (RoundTrips-unsigned_var_int p.entity_net_id h.entity_net_id_fits) (
      RoundTrips-bind _ _ _ _ (RoundTrips-compound p.components h.components_fits) (
        RoundTrips-bind _ _ _ _
          (RoundTrips-nonempty p.json_identifier h.json_identifier_fits h.json_identifier_nonempty)
          (RoundTrips-bind _ _ _ _
            (RoundTrips-nonempty p.instance_name h.instance_name_fits h.instance_name_nonempty)
            (RoundTrips-bind _ _ _ _ (RoundTrips-block_pos p.max_bounds h.max_bounds_fits) (
              RoundTrips-bind _ _ _ _ (RoundTrips-block_pos p.max_bounds h.max_bounds_fits) (
                RoundTrips-bind _ _ _ _ (RoundTrips-var_int p.dimension_type h.dimension_type_fits)
                  (RoundTrips-last _ _ _ (RoundTrips-string p.engine_version h.engine_version_fits)
                    refl)))))))

-- Only a minimum that is the default one comes back.
pub record FitsAddVolumeEntityPacket (p : AddVolumeEntityPacket) : Type 0 where
  pub volume_fits : FitsVolume p
  pub min_bounds_fits : p.min_bounds ≡ origin

pub RoundTrips-add_volume_entity_packet :
    (p : AddVolumeEntityPacket)
    → FitsAddVolumeEntityPacket p
    → RoundTrips (write_add_volume_entity_packet p) read_add_volume_entity_packet p
RoundTrips-add_volume_entity_packet p h =
    subst
      (λ (low : BlockPos).
        RoundTrips (write_add_volume_entity_packet p) read_add_volume_entity_packet
          (record p { min_bounds = low }))
      (sym h.min_bounds_fits) (RoundTrips-volume p h.volume_fits)
