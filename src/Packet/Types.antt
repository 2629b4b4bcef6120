-- ===== src/Packet/Types.antt =====
-- src/sculk/protocol/codec: the values that several packets hold (include/sculk/protocol/codec/math, level, actor).
-- A float is its bit pattern.
use beprotocol.Common.{ℕ, refl, List, Bool}
use beprotocol.Stream.{Reader, Writer, pure, ◌>>=◌, ◌>>◌}
use beprotocol.Stream.RoundTrip.{RoundTrips, RoundTrips-bind, RoundTrips-last}
use beprotocol.Stream.Fixed.{
  write_bool, read_bool, write_float, read_float, write_unsigned_int64, read_unsigned_int64,
}
use beprotocol.Stream.Fixed.RoundTrip.{RoundTrips-bool, RoundTrips-float, RoundTrips-unsigned_int64}
use beprotocol.Stream.VarInt.{write_var_int, read_var_int}
use beprotocol.Stream.VarInt.RoundTrip.{RoundTrips-var_int}
use beprotocol.Stream.Text.{write_string, read_string, RoundTrips-string}
use beprotocol.Packet.Fits.{FitsText, IsBits}

-- `Vec2`.
pub record Vec2 : Type 0 where
  pub x : ℕ
  pub y : ℕ

unfoldable pub write_vec2 : Vec2 → Writer
write_vec2 p = do write_float p.x; write_float p.y

unfoldable pub read_vec2 : Reader Vec2
read_vec2 = do x ← read_float; y ← read_float; pure (record { x = x; y = y })

-- The values of the fields' types, with no text or array longer than its length prefix.
pub record FitsVec2 (p : Vec2) : Type 0 where
  pub x_fits : IsBits 32 p.x
  pub y_fits : IsBits 32 p.y

pub RoundTrips-vec2 : (p : Vec2) → FitsVec2 p → RoundTrips (write_vec2 p) read_vec2 p
unfolding write_vec2 read_vec2
RoundTrips-vec2 p h =
    RoundTrips-bind _ _ _ _ (RoundTrips-float p.x h.x_fits)
      (RoundTrips-last _ _ _ (RoundTrips-float p.y h.y_fits) refl)

-- `Vec3`.
pub record Vec3 : Type 0 where
  pub x : ℕ
  pub y : ℕ
  pub z : ℕ

unfoldable pub write_vec3 : Vec3 → Writer
write_vec3 p = do write_float p.x; write_float p.y; write_float p.z

unfoldable pub read_vec3 : Reader Vec3
read_vec3 = do x ← read_float; y ← read_float; z ← read_float; pure (record { x = x; y = y; z = z })

-- The values of the fields' types, with no text or array longer than its length prefix.
pub record FitsVec3 (p : Vec3) : Type 0 where
  pub x_fits : IsBits 32 p.x
  pub y_fits : IsBits 32 p.y
  pub z_fits : IsBits 32 p.z

pub RoundTrips-vec3 : (p : Vec3) → FitsVec3 p → RoundTrips (write_vec3 p) read_vec3 p
unfolding write_vec3 read_vec3
RoundTrips-vec3 p h = RoundTrips-bind _ _ _ _ (RoundTrips-float p.x h.x_fits) (
    RoundTrips-bind _ _ _ _ (RoundTrips-float p.y h.y_fits)
      (RoundTrips-last _ _ _ (RoundTrips-float p.z h.z_fits) refl))

-- `FloatRange`.
pub record FloatRange : Type 0 where
  pub min : ℕ
  pub max : ℕ

unfoldable pub write_float_range : FloatRange → Writer
write_float_range p = do write_float p.min; write_float p.max

unfoldable pub read_float_range : Reader FloatRange
read_float_range = do min ← read_float; max ← read_float; pure (record { min = min; max = max })

-- The values of the fields' types, with no text or array longer than its length prefix.
pub record FitsFloatRange (p : FloatRange) : Type 0 where
  pub min_fits : IsBits 32 p.min
  pub max_fits : IsBits 32 p.max

pub RoundTrips-float_range :
    (p : FloatRange) → FitsFloatRange p → RoundTrips (write_float_range p) read_float_range p
unfolding write_float_range read_float_range
RoundTrips-float_range p h =
    RoundTrips-bind _ _ _ _ (RoundTrips-float p.min h.min_fits)
      (RoundTrips-last _ _ _ (RoundTrips-float p.max h.max_fits) refl)

-- `BlockPos`.
pub record BlockPos : Type 0 where
  pub x : ℕ
  pub y : ℕ
  pub z : ℕ

unfoldable pub write_block_pos : BlockPos → Writer
write_block_pos p = do write_var_int p.x; write_var_int p.y; write_var_int p.z

unfoldable pub read_block_pos : Reader BlockPos
read_block_pos = do
  x ← read_var_int
  y ← read_var_int
  z ← read_var_int
  pure (record { x = x; y = y; z = z })

-- The values of the fields' types, with no text or array longer than its length prefix.
pub record FitsBlockPos (p : BlockPos) : Type 0 where
  pub x_fits : IsBits 32 p.x
  pub y_fits : IsBits 32 p.y
  pub z_fits : IsBits 32 p.z

pub RoundTrips-block_pos :
    (p : BlockPos) → FitsBlockPos p → RoundTrips (write_block_pos p) read_block_pos p
unfolding write_block_pos read_block_pos
RoundTrips-block_pos p h = RoundTrips-bind _ _ _ _ (RoundTrips-var_int p.x h.x_fits) (
    RoundTrips-bind _ _ _ _ (RoundTrips-var_int p.y h.y_fits)
      (RoundTrips-last _ _ _ (RoundTrips-var_int p.z h.z_fits) refl))

-- `ChunkPos`.
pub record ChunkPos : Type 0 where
  pub x : ℕ
  pub z : ℕ

unfoldable pub write_chunk_pos : ChunkPos → Writer
write_chunk_pos p = do write_var_int p.x; write_var_int p.z

unfoldable pub read_chunk_pos : Reader ChunkPos
read_chunk_pos = do x ← read_var_int; z ← read_var_int; pure (record { x = x; z = z })

-- The values of the fields' types, with no text or array longer than its length prefix.
pub record FitsChunkPos (p : ChunkPos) : Type 0 where
  pub x_fits : IsBits 32 p.x
  pub z_fits : IsBits 32 p.z

pub RoundTrips-chunk_pos :
    (p : ChunkPos) → FitsChunkPos p → RoundTrips (write_chunk_pos p) read_chunk_pos p
unfolding write_chunk_pos read_chunk_pos
RoundTrips-chunk_pos p h =
    RoundTrips-bind _ _ _ _ (RoundTrips-var_int p.x h.x_fits)
      (RoundTrips-last _ _ _ (RoundTrips-var_int p.z h.z_fits) refl)

-- `Uuid`.
pub record Uuid : Type 0 where
  pub most_significant_bits : ℕ
  pub least_significant_bits : ℕ

unfoldable pub write_uuid : Uuid → Writer
write_uuid p = do
  write_unsigned_int64 p.most_significant_bits
  write_unsigned_int64 p.least_significant_bits

unfoldable pub read_uuid : Reader Uuid
read_uuid = do
  most_significant_bits ← read_unsigned_int64
  least_significant_bits ← read_unsigned_int64
  pure (record {
    most_significant_bits = most_significant_bits;
    least_significant_bits = least_significant_bits;
  })

-- The values of the fields' types, with no text or array longer than its length prefix.
pub record FitsUuid (p : Uuid) : Type 0 where
  pub most_significant_bits_fits : IsBits 64 p.most_significant_bits
  pub least_significant_bits_fits : IsBits 64 p.least_significant_bits

pub RoundTrips-uuid : (p : Uuid) → FitsUuid p → RoundTrips (write_uuid p) read_uuid p
unfolding write_uuid read_uuid
RoundTrips-uuid p h =
    RoundTrips-bind _ _ _ _
      (RoundTrips-unsigned_int64 p.most_significant_bits h.most_significant_bits_fits)
      (RoundTrips-last _ _ _
        (RoundTrips-unsigned_int64 p.least_significant_bits h.least_significant_bits_fits) refl)

-- `PackInfoData`.
pub record PackInfoData : Type 0 where
  pub pack_id : Uuid
  pub pack_version : List ℕ
  pub pack_size : ℕ
  pub content_key : List ℕ
  pub subpack_name : List ℕ
  pub content_identity : List ℕ
  pub has_scripts : Bool
  pub is_addon_pack : Bool
  pub is_ray_tracing_capable : Bool
  pub cdn_url : List ℕ

unfoldable pub write_pack_info_data : PackInfoData → Writer
write_pack_info_data p = do
  write_uuid p.pack_id
  write_string p.pack_version
  write_unsigned_int64 p.pack_size
  write_string p.content_key
  write_string p.subpack_name
  write_string p.content_identity
  write_bool p.has_scripts
  write_bool p.is_addon_pack
  write_bool p.is_ray_tracing_capable
  write_string p.cdn_url

unfoldable pub read_pack_info_data : Reader PackInfoData
read_pack_info_data = do
  pack_id ← read_uuid
  pack_version ← read_string
  pack_size ← read_unsigned_int64
  content_key ← read_string
  subpack_name ← read_string
  content_identity ← read_string
  has_scripts ← read_bool
  is_addon_pack ← read_bool
  is_ray_tracing_capable ← read_bool
  cdn_url ← read_string
  pure (record {
    pack_id = pack_id;
    pack_version = pack_version;
    pack_size = pack_size;
    content_key = content_key;
    subpack_name = subpack_name;
    content_identity = content_identity;
    has_scripts = has_scripts;
    is_addon_pack = is_addon_pack;
    is_ray_tracing_capable = is_ray_tracing_capable;
    cdn_url = cdn_url;
  })

-- The values of the fields' types, with no text or array longer than its length prefix.
pub record FitsPackInfoData (p : PackInfoData) : Type 0 where
  pub pack_id_fits : FitsUuid p.pack_id
  pub pack_version_fits : FitsText p.pack_version
  pub pack_size_fits : IsBits 64 p.pack_size
  pub content_key_fits : FitsText p.content_key
  pub subpack_name_fits : FitsText p.subpack_name
  pub content_identity_fits : FitsText p.content_identity
  pub cdn_url_fits : FitsText p.cdn_url

pub RoundTrips-pack_info_data :
    (p : PackInfoData)
    → FitsPackInfoData p
    → RoundTrips (write_pack_info_data p) read_pack_info_data p
unfolding write_pack_info_data read_pack_info_data
RoundTrips-pack_info_data p h = RoundTrips-bind _ _ _ _ (RoundTrips-uuid p.pack_id h.pack_id_fits) (
    RoundTrips-bind _ _ _ _ (RoundTrips-string p.pack_version h.pack_version_fits) (
      RoundTrips-bind _ _ _ _ (RoundTrips-unsigned_int64 p.pack_size h.pack_size_fits) (
        RoundTrips-bind _ _ _ _ (RoundTrips-string p.content_key h.content_key_fits) (
          RoundTrips-bind _ _ _ _ (RoundTrips-string p.subpack_name h.subpack_name_fits) (
            RoundTrips-bind _ _ _ _ (RoundTrips-string p.content_identity h.content_identity_fits) (
              RoundTrips-bind _ _ _ _ (RoundTrips-bool p.has_scripts) (
                RoundTrips-bind _ _ _ _ (RoundTrips-bool p.is_addon_pack) (
                  RoundTrips-bind _ _ _ _ (RoundTrips-bool p.is_ray_tracing_capable) (
                    RoundTrips-last _ _ _ (RoundTrips-string p.cdn_url h.cdn_url_fits) refl)))))))))
