-- ===== src/Packet/Effects.antt =====
-- src/sculk/protocol/codec/packet: the packets on sounds, particles and the camera. A float is its bit pattern.
use beprotocol.Common.{ℕ, ◌<◌, ◌^◌, refl, List, length, All, Bool, Option}
use beprotocol.Stream.{Reader, Writer, pure, ◌>>=◌, ◌>>◌}
use beprotocol.Stream.RoundTrip.{RoundTrips, RoundTrips-bind, RoundTrips-last}
use beprotocol.Stream.Fixed.{
  write_byte, read_byte, write_bool, read_bool, write_unsigned_short, read_unsigned_short,
  write_float, read_float, write_unsigned_int64, read_unsigned_int64,
}
use beprotocol.Stream.Fixed.RoundTrip.{
  RoundTrips-byte, RoundTrips-bool, RoundTrips-unsigned_short, RoundTrips-float,
  RoundTrips-unsigned_int64,
}
use beprotocol.Stream.VarInt.{
  write_unsigned_var_int, read_unsigned_var_int, write_var_int64, read_var_int64,
}
use beprotocol.Stream.VarInt.RoundTrip.{RoundTrips-var_int64}
use beprotocol.Stream.Text.{write_string, read_string, RoundTrips-string}
use beprotocol.Stream.Containers.{
  uint8, uint16, uint32, write_enum, read_enum, write_array, read_array, write_optional,
  read_optional,
}
use beprotocol.Stream.Containers.RoundTrip.{
  RoundTrips-enum, RoundTrips-same_enum, OptionAll, RoundTrips-var_int_array, RoundTrips-optional,
  CastsBack-uint8-uint16, static_cast-uint8-uint16-lt,
}
use beprotocol.Packet.Fits.{FitsText, IsBits}
use beprotocol.Packet.Types.{
  Vec3, write_vec3, read_vec3, FitsVec3, RoundTrips-vec3, BlockPos, write_block_pos, read_block_pos,
  FitsBlockPos, RoundTrips-block_pos,
}

-- `PlaySoundPacket`.
pub record PlaySoundPacket : Type 0 where
  pub name : List ℕ
  pub position : BlockPos
  pub volume : ℕ
  pub pitch : ℕ
  pub server_sound_handle : Option ℕ

unfoldable pub write_play_sound_packet : PlaySoundPacket → Writer
write_play_sound_packet p = do
  write_string p.name
  write_block_pos p.position
  write_float p.volume
  write_float p.pitch
  write_optional write_unsigned_int64 p.server_sound_handle

unfoldable pub read_play_sound_packet : Reader PlaySoundPacket
read_play_sound_packet = do
  name ← read_string
  position ← read_block_pos
  volume ← read_float
  pitch ← read_float
  server_sound_handle ← read_optional read_unsigned_int64
  pure (record {
    name = name;
    position = position;
    volume = volume;
    pitch = pitch;
    server_sound_handle = server_sound_handle;
  })

-- The values of the fields' types, with no text or array longer than its length prefix.
pub record FitsPlaySoundPacket (p : PlaySoundPacket) : Type 0 where
  pub name_fits : FitsText p.name
  pub position_fits : FitsBlockPos p.position
  pub volume_fits : IsBits 32 p.volume
  pub pitch_fits : IsBits 32 p.pitch
  pub server_sound_handle_fits : OptionAll (IsBits 64) p.server_sound_handle

pub RoundTrips-play_sound_packet :
    (p : PlaySoundPacket)
    → FitsPlaySoundPacket p
    → RoundTrips (write_play_sound_packet p) read_play_sound_packet p
unfolding write_play_sound_packet read_play_sound_packet
RoundTrips-play_sound_packet p h = RoundTrips-bind _ _ _ _ (RoundTrips-string p.name h.name_fits) (
    RoundTrips-bind _ _ _ _ (RoundTrips-block_pos p.position h.position_fits) (
      RoundTrips-bind _ _ _ _ (RoundTrips-float p.volume h.volume_fits) (
        RoundTrips-bind _ _ _ _ (RoundTrips-float p.pitch h.pitch_fits) (
          RoundTrips-last _ _ _
            (RoundTrips-optional (IsBits 64) _ _ RoundTrips-unsigned_int64 p.server_sound_handle
              h.server_sound_handle_fits)
            refl))))

-- `StopSoundPacket`.
pub record StopSoundPacket : Type 0 where
  pub sound_name : List ℕ
  pub stop_all_sounds : Bool
  pub stop_legacy_music : Bool

unfoldable pub write_stop_sound_packet : StopSoundPacket → Writer
write_stop_sound_packet p = do
  write_string p.sound_name
  write_bool p.stop_all_sounds
  write_bool p.stop_legacy_music

unfoldable pub read_stop_sound_packet : Reader StopSoundPacket
read_stop_sound_packet = do
  sound_name ← read_string
  stop_all_sounds ← read_bool
  stop_legacy_music ← read_bool
  pure (record {
    sound_name = sound_name;
    stop_all_sounds = stop_all_sounds;
    stop_legacy_music = stop_legacy_music;
  })

-- The values of the fields' types, with no text or array longer than its length prefix.
pub record FitsStopSoundPacket (p : StopSoundPacket) : Type 0 where
  pub sound_name_fits : FitsText p.sound_name

pub RoundTrips-stop_sound_packet :
    (p : StopSoundPacket)
    → FitsStopSoundPacket p
    → RoundTrips (write_stop_sound_packet p) read_stop_sound_packet p
unfolding write_stop_sound_packet read_stop_sound_packet
RoundTrips-stop_sound_packet p h =
    RoundTrips-bind _ _ _ _ (RoundTrips-string p.sound_name h.sound_name_fits) (
      RoundTrips-bind _ _ _ _ (RoundTrips-bool p.stop_all_sounds)
        (RoundTrips-last _ _ _ (RoundTrips-bool p.stop_legacy_music) refl))

-- `SpawnParticleEffectPacket`.
pub record SpawnParticleEffectPacket : Type 0 where
  pub dimension_id : ℕ
  pub actor_unique_id : ℕ
  pub position : Vec3
  pub effect_name : List ℕ
  pub molang_variable_map : Option (List ℕ)

unfoldable pub write_spawn_particle_effect_packet : SpawnParticleEffectPacket → Writer
write_spawn_particle_effect_packet p = do
  write_byte p.dimension_id
  write_var_int64 p.actor_unique_id
  write_vec3 p.position
  write_string p.effect_name
  write_optional write_string p.molang_variable_map

unfoldable pub read_spawn_particle_effect_packet : Reader SpawnParticleEffectPacket
read_spawn_particle_effect_packet = do
  dimension_id ← read_byte
  actor_unique_id ← read_var_int64
  position ← read_vec3
  effect_name ← read_string
  molang_variable_map ← read_optional read_string
  pure (record {
    dimension_id = dimension_id;
    actor_unique_id = actor_unique_id;
    position = position;
    effect_name = effect_name;
    molang_variable_map = molang_variable_map;
  })

-- The values of the fields' types, with no text or array longer than its length prefix.
pub record FitsSpawnParticleEffectPacket (p : SpawnParticleEffectPacket) : Type 0 where
  pub dimension_id_fits : IsBits 8 p.dimension_id
  pub actor_unique_id_fits : IsBits 64 p.actor_unique_id
  pub position_fits : FitsVec3 p.position
  pub effect_name_fits : FitsText p.effect_name
  pub molang_variable_map_fits : OptionAll FitsText p.molang_variable_map

pub RoundTrips-spawn_particle_effect_packet :
    (p : SpawnParticleEffectPacket)
    → FitsSpawnParticleEffectPacket p
    → RoundTrips (write_spawn_particle_effect_packet p) read_spawn_particle_effect_packet p
unfolding write_spawn_particle_effect_packet read_spawn_particle_effect_packet
RoundTrips-spawn_particle_effect_packet p h =
    RoundTrips-bind _ _ _ _ (RoundTrips-byte p.dimension_id h.dimension_id_fits) (
      RoundTrips-bind _ _ _ _ (RoundTrips-var_int64 p.actor_unique_id h.actor_unique_id_fits) (
        RoundTrips-bind _ _ _ _ (RoundTrips-vec3 p.position h.position_fits) (
          RoundTrips-bind _ _ _ _ (RoundTrips-string p.effect_name h.effect_name_fits) (
            RoundTrips-last _ _ _
              (RoundTrips-optional FitsText _ _ RoundTrips-string p.molang_variable_map
                h.molang_variable_map_fits)
              refl))))

-- `CameraShakePacket`.
pub record CameraShakePacket : Type 0 where
  pub intensity : ℕ
  pub seconds : ℕ
  pub kind : ℕ
  pub action : ℕ

unfoldable pub write_camera_shake_packet : CameraShakePacket → Writer
write_camera_shake_packet p = do
  write_float p.intensity
  write_float p.seconds
  write_enum uint8 uint8 write_byte p.kind
  write_enum uint8 uint8 write_byte p.action

unfoldable pub read_camera_shake_packet : Reader CameraShakePacket
read_camera_shake_packet = do
  intensity ← read_float
  seconds ← read_float
  kind ← read_enum uint8 uint8 read_byte
  action ← read_enum uint8 uint8 read_byte
  pure (record { intensity = intensity; seconds = seconds; kind = kind; action = action })

-- The values of the fields' types, with no text or array longer than its length prefix.
pub record FitsCameraShakePacket (p : CameraShakePacket) : Type 0 where
  pub intensity_fits : IsBits 32 p.intensity
  pub seconds_fits : IsBits 32 p.seconds
  pub kind_fits : IsBits 8 p.kind
  pub action_fits : IsBits 8 p.action

pub RoundTrips-camera_shake_packet :
    (p : CameraShakePacket)
    → FitsCameraShakePacket p
    → RoundTrips (write_camera_shake_packet p) read_camera_shake_packet p
unfolding write_camera_shake_packet read_camera_shake_packet
RoundTrips-camera_shake_packet p h =
    RoundTrips-bind _ _ _ _ (RoundTrips-float p.intensity h.intensity_fits) (
      RoundTrips-bind _ _ _ _ (RoundTrips-float p.seconds h.seconds_fits) (
        RoundTrips-bind _ _ _ _
          (RoundTrips-same_enum uint8 _ _ p.kind h.kind_fits (RoundTrips-byte p.kind h.kind_fits))
          (RoundTrips-last _ _ _
            (RoundTrips-same_enum uint8 _ _ p.action h.action_fits
              (RoundTrips-byte p.action h.action_fits))
            refl)))

-- `PlayerFogPacket`.
pub record PlayerFogPacket : Type 0 where
  pub fog_stack : List (List ℕ)

unfoldable pub write_player_fog_packet : PlayerFogPacket → Writer
write_player_fog_packet p = write_array uint32 write_unsigned_var_int write_string p.fog_stack

unfoldable pub read_player_fog_packet : Reader PlayerFogPacket
read_player_fog_packet = do
  fog_stack ← read_array uint32 read_unsigned_var_int read_string
  pure (record { fog_stack = fog_stack })

-- The values of the fields' types, with no text or array longer than its length prefix.
pub record FitsPlayerFogPacket (p : PlayerFogPacket) : Type 0 where
  pub fog_stack_fits : (length p.fog_stack < 2 ^ 32) × All FitsText p.fog_stack

pub RoundTrips-player_fog_packet :
    (p : PlayerFogPacket)
    → FitsPlayerFogPacket p
    → RoundTrips (write_player_fog_packet p) read_player_fog_packet p
unfolding write_player_fog_packet read_player_fog_packet
RoundTrips-player_fog_packet p h =
    RoundTrips-last _ _ _
      (RoundTrips-var_int_array FitsText _ _ RoundTrips-string p.fog_stack h.fog_stack_fits) refl

-- `SimpleEventPacket`.
pub record SimpleEventPacket : Type 0 where
  pub kind : ℕ

unfoldable pub write_simple_event_packet : SimpleEventPacket → Writer
write_simple_event_packet p = write_enum uint8 uint16 write_unsigned_short p.kind

unfoldable pub read_simple_event_packet : Reader SimpleEventPacket
read_simple_event_packet = do
  kind ← read_enum uint8 uint16 read_unsigned_short
  pure (record { kind = kind })

-- The values of the fields' types, with no text or array longer than its length prefix.
pub record FitsSimpleEventPacket (p : SimpleEventPacket) : Type 0 where
  pub kind_fits : IsBits 8 p.kind

pub RoundTrips-simple_event_packet :
    (p : SimpleEventPacket)
    → FitsSimpleEventPacket p
    → RoundTrips (write_simple_event_packet p) read_simple_event_packet p
unfolding write_simple_event_packet read_simple_event_packet
RoundTrips-simple_event_packet p h =
    RoundTrips-last _ _ _
      (RoundTrips-enum uint8 uint16 _ _ p.kind (CastsBack-uint8-uint16 p.kind h.kind_fits)
        (RoundTrips-unsigned_short _ (static_cast-uint8-uint16-lt p.kind h.kind_fits)))
      refl
