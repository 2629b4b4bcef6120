-- ===== src/Packet/Login.antt =====
-- src/sculk/protocol/codec/packet: the packets that set a connection up. A float is its bit pattern.
use beprotocol.Common.{ℕ, refl, List, Bool}
use beprotocol.Stream.{Reader, Writer, pure, ◌>>=◌, ◌>>◌}
use beprotocol.Stream.RoundTrip.{RoundTrips, RoundTrips-bind, RoundTrips-last, RoundTrips-pure}
use beprotocol.Stream.Fixed.{
  write_byte, read_byte, write_signed_big_endian_int, read_signed_big_endian_int, write_bool,
  read_bool, write_unsigned_short, read_unsigned_short, write_float, read_float, write_signed_short,
  read_signed_short,
}
use beprotocol.Stream.Fixed.RoundTrip.{
  RoundTrips-byte, RoundTrips-signed_big_endian_int, RoundTrips-bool, RoundTrips-unsigned_short,
  RoundTrips-float, RoundTrips-signed_short,
}
use beprotocol.Stream.Text.{write_string, read_string, RoundTrips-string}
use beprotocol.Stream.Containers.{int8, uint8, int16, int32, write_enum, read_enum}
use beprotocol.Stream.Containers.RoundTrip.{
  RoundTrips-enum, CastsBack-int8-int16, CastsBack-uint8-int32, static_cast-int8-int16-lt,
  static_cast-uint8-int32-lt,
}
use beprotocol.Packet.Fits.{FitsText, IsBits}

-- `PlayStatusPacket`.
pub record PlayStatusPacket : Type 0 where
  pub status : ℕ

unfoldable pub write_play_status_packet : PlayStatusPacket → Writer
write_play_status_packet p = write_enum uint8 int32 write_signed_big_endian_int p.status

unfoldable pub read_play_status_packet : Reader PlayStatusPacket
read_play_status_packet = do
  status ← read_enum uint8 int32 read_signed_big_endian_int
  pure (record { status = status })

-- The values of the fields' types, with no text or array longer than its length prefix.
pub record FitsPlayStatusPacket (p : PlayStatusPacket) : Type 0 where
  pub status_fits : IsBits 8 p.status

pub RoundTrips-play_status_packet :
    (p : PlayStatusPacket)
    → FitsPlayStatusPacket p
    → RoundTrips (write_play_status_packet p) read_play_status_packet p
unfolding write_play_status_packet read_play_status_packet
RoundTrips-play_status_packet p h =
    RoundTrips-last _ _ _
      (RoundTrips-enum uint8 int32 _ _ p.status (CastsBack-uint8-int32 p.status h.status_fits)
        (RoundTrips-signed_big_endian_int _ (static_cast-uint8-int32-lt p.status h.status_fits)))
      refl

-- `RequestNetworkSettingsPacket`.
pub record RequestNetworkSettingsPacket : Type 0 where
  pub client_network_version : ℕ

unfoldable pub write_request_network_settings_packet : RequestNetworkSettingsPacket → Writer
write_request_network_settings_packet p = write_signed_big_endian_int p.client_network_version

unfoldable pub read_request_network_settings_packet : Reader RequestNetworkSettingsPacket
read_request_network_settings_packet = do
  client_network_version ← read_signed_big_endian_int
  pure (record { client_network_version = client_network_version })

-- The values of the fields' types, with no text or array longer than its length prefix.
pub record FitsRequestNetworkSettingsPacket (p : RequestNetworkSettingsPacket) : Type 0 where
  pub client_network_version_fits : IsBits 32 p.client_network_version

pub RoundTrips-request_network_settings_packet :
    (p : RequestNetworkSettingsPacket)
    → FitsRequestNetworkSettingsPacket p
    → RoundTrips (write_request_network_settings_packet p) read_request_network_settings_packet p
unfolding write_request_network_settings_packet read_request_network_settings_packet
RoundTrips-request_network_settings_packet p h =
    RoundTrips-last _ _ _
      (RoundTrips-signed_big_endian_int p.client_network_version h.client_network_version_fits) refl

-- `LoginPacket`.
pub record LoginPacket : Type 0 where
  pub network_version : ℕ
  pub raw_connection_request : List ℕ

unfoldable pub write_login_packet : LoginPacket → Writer
write_login_packet p = do
  write_signed_big_endian_int p.network_version
  write_string p.raw_connection_request

unfoldable pub read_login_packet : Reader LoginPacket
read_login_packet = do
  network_version ← read_signed_big_endian_int
  raw_connection_request ← read_string
  pure (record {
    network_version = network_version;
    raw_connection_request = raw_connection_request;
  })

-- The values of the fields' types, with no text or array longer than its length prefix.
pub record FitsLoginPacket (p : LoginPacket) : Type 0 where
  pub network_version_fits : IsBits 32 p.network_version
  pub raw_connection_request_fits : FitsText p.raw_connection_request

pub RoundTrips-login_packet :
    (p : LoginPacket) → FitsLoginPacket p → RoundTrips (write_login_packet p) read_login_packet p
unfolding write_login_packet read_login_packet
RoundTrips-login_packet p h =
    RoundTrips-bind _ _ _ _
      (RoundTrips-signed_big_endian_int p.network_version h.network_version_fits)
      (RoundTrips-last _ _ _
        (RoundTrips-string p.raw_connection_request h.raw_connection_request_fits) refl)

-- `ServerToClientHandshakePacket`.
pub record ServerToClientHandshakePacket : Type 0 where
  pub handshake_web_token : List ℕ

unfoldable pub write_server_to_client_handshake_packet : ServerToClientHandshakePacket → Writer
write_server_to_client_handshake_packet p = write_string p.handshake_web_token

unfoldable pub read_server_to_client_handshake_packet : Reader ServerToClientHandshakePacket
read_server_to_client_handshake_packet = do
  handshake_web_token ← read_string
  pure (record { handshake_web_token = handshake_web_token })

-- The values of the fields' types, with no text or array longer than its length prefix.
pub record FitsServerToClientHandshakePacket (p : ServerToClientHandshakePacket) : Type 0 where
  pub handshake_web_token_fits : FitsText p.handshake_web_token

pub RoundTrips-server_to_client_handshake_packet :
    (p : ServerToClientHandshakePacket)
    → FitsServerToClientHandshakePacket p
    → RoundTrips
        (write_server_to_client_handshake_packet p)
        read_server_to_client_handshake_packet
        p
unfolding write_server_to_client_handshake_packet read_server_to_client_handshake_packet
RoundTrips-server_to_client_handshake_packet p h =
    RoundTrips-last _ _ _ (RoundTrips-string p.handshake_web_token h.handshake_web_token_fits) refl

-- `ClientToServerHandshakePacket`.
pub record ClientToServerHandshakePacket : Type 0 where
  pub nothing : Unit {0}

unfoldable pub write_client_to_server_handshake_packet : ClientToServerHandshakePacket → Writer
write_client_to_server_handshake_packet p buffer = buffer

unfoldable pub read_client_to_server_handshake_packet : Reader ClientToServerHandshakePacket
read_client_to_server_handshake_packet = pure (record { nothing = tt })

abbrev pub FitsClientToServerHandshakePacket : ClientToServerHandshakePacket → Type 0
FitsClientToServerHandshakePacket p = Unit

pub RoundTrips-client_to_server_handshake_packet :
    (p : ClientToServerHandshakePacket)
    → FitsClientToServerHandshakePacket p
    → RoundTrips
        (write_client_to_server_handshake_packet p)
        read_client_to_server_handshake_packet
        p
unfolding write_client_to_server_handshake_packet read_client_to_server_handshake_packet
RoundTrips-client_to_server_handshake_packet p h = RoundTrips-pure p

-- `NetworkSettingsPacket`.
pub record NetworkSettingsPacket : Type 0 where
  pub compression_threshold : ℕ
  pub compression_algorithm : ℕ
  pub client_throttle_enabled : Bool
  pub client_throttle_threshold : ℕ
  pub client_throttle_scalar : ℕ

unfoldable pub write_network_settings_packet : NetworkSettingsPacket → Writer
write_network_settings_packet p = do
  write_unsigned_short p.compression_threshold
  write_enum int8 int16 write_signed_short p.compression_algorithm
  write_bool p.client_throttle_enabled
  write_byte p.client_throttle_threshold
  write_float p.client_throttle_scalar

unfoldable pub read_network_settings_packet : Reader NetworkSettingsPacket
read_network_settings_packet = do
  compression_threshold ← read_unsigned_short
  compression_algorithm ← read_enum int8 int16 read_signed_short
  client_throttle_enabled ← read_bool
  client_throttle_threshold ← read_byte
  client_throttle_scalar ← read_float
  pure (record {
    compression_threshold = compression_threshold;
    compression_algorithm = compression_algorithm;
    client_throttle_enabled = client_throttle_enabled;
    client_throttle_threshold = client_throttle_threshold;
    client_throttle_scalar = client_throttle_scalar;
  })

-- The values of the fields' types, with no text or array longer than its length prefix.
pub record FitsNetworkSettingsPacket (p : NetworkSettingsPacket) : Type 0 where
  pub compression_threshold_fits : IsBits 16 p.compression_threshold
  pub compression_algorithm_fits : IsBits 8 p.compression_algorithm
  pub client_throttle_threshold_fits : IsBits 8 p.client_throttle_threshold
  pub client_throttle_scalar_fits : IsBits 32 p.client_throttle_scalar

pub RoundTrips-network_settings_packet :
    (p : NetworkSettingsPacket)
    → FitsNetworkSettingsPacket p
    → RoundTrips (write_network_settings_packet p) read_network_settings_packet p
unfolding write_network_settings_packet read_network_settings_packet
RoundTrips-network_settings_packet p h =
    RoundTrips-bind _ _ _ _
      (RoundTrips-unsigned_short p.compression_threshold h.compression_threshold_fits)
      (RoundTrips-bind _ _ _ _
        (RoundTrips-enum int8 int16 _ _ p.compression_algorithm
          (CastsBack-int8-int16 p.compression_algorithm h.compression_algorithm_fits)
          (RoundTrips-signed_short _
            (static_cast-int8-int16-lt p.compression_algorithm h.compression_algorithm_fits)))
        (RoundTrips-bind _ _ _ _ (RoundTrips-bool p.client_throttle_enabled) (
          RoundTrips-bind _ _ _ _
            (RoundTrips-byte p.client_throttle_threshold h.client_throttle_threshold_fits)
            (RoundTrips-last _ _ _
              (RoundTrips-float p.client_throttle_scalar h.client_throttle_scalar_fits) refl))))

-- `ClientCacheStatusPacket`.
pub record ClientCacheStatusPacket : Type 0 where
  pub is_cache_support : Bool

unfoldable pub write_client_cache_status_packet : ClientCacheStatusPacket → Writer
write_client_cache_status_packet p = write_bool p.is_cache_support

unfoldable pub read_client_cache_status_packet : Reader ClientCacheStatusPacket
read_client_cache_status_packet = do
  is_cache_support ← read_bool
  pure (record { is_cache_support = is_cache_support })

abbrev pub FitsClientCacheStatusPacket : ClientCacheStatusPacket → Type 0
FitsClientCacheStatusPacket p = Unit

pub RoundTrips-client_cache_status_packet :
    (p : ClientCacheStatusPacket)
    → FitsClientCacheStatusPacket p
    → RoundTrips (write_client_cache_status_packet p) read_client_cache_status_packet p
unfolding write_client_cache_status_packet read_client_cache_status_packet
RoundTrips-client_cache_status_packet p h =
    RoundTrips-last _ _ _ (RoundTrips-bool p.is_cache_support) refl
