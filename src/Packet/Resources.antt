-- ===== src/Packet/Resources.antt =====
-- src/sculk/protocol/codec/packet: the packets on resource packs and client settings. A float is its bit pattern.
use beprotocol.Common.{ℕ, ◌<◌, ◌^◌, refl, List, length, All, Bool}
use beprotocol.Stream.{Reader, Writer, pure, ◌>>=◌, ◌>>◌}
use beprotocol.Stream.RoundTrip.{RoundTrips, RoundTrips-bind, RoundTrips-last}
use beprotocol.Stream.Fixed.{
  write_byte, read_byte, write_bool, read_bool, write_unsigned_short, read_unsigned_short,
  write_unsigned_int64, read_unsigned_int64,
}
use beprotocol.Stream.Fixed.RoundTrip.{RoundTrips-byte, RoundTrips-bool, RoundTrips-unsigned_int64}
use beprotocol.Stream.VarInt.{write_unsigned_var_int, read_unsigned_var_int}
use beprotocol.Stream.Text.{write_string, read_string, RoundTrips-string}
use beprotocol.Stream.Containers.{uint16, uint32, write_array, read_array}
use beprotocol.Stream.Containers.RoundTrip.{RoundTrips-var_int_array, RoundTrips-short_array}
use beprotocol.Packet.Fits.{FitsText, IsBits}
use beprotocol.Packet.Types.{
  Uuid, write_uuid, read_uuid, FitsUuid, RoundTrips-uuid, PackInfoData, write_pack_info_data,
  read_pack_info_data, FitsPackInfoData, RoundTrips-pack_info_data,
}

-- `ResourcePacksInfoPacket`.
pub record ResourcePacksInfoPacket : Type 0 where
  pub resource_pack_required : Bool
  pub has_addon_packs : Bool
  pub has_scripts : Bool
  pub is_vibrant_visuals_force_disabled : Bool
  pub world_template_id : Uuid
  pub world_template_version : List ℕ
  pub resource_packs : List PackInfoData

unfoldable pub write_resource_packs_info_packet : ResourcePacksInfoPacket → Writer
write_resource_packs_info_packet p = do
  write_bool p.resource_pack_required
  write_bool p.has_addon_packs
  write_bool p.has_scripts
  write_bool p.is_vibrant_visuals_force_disabled
  write_uuid p.world_template_id
  write_string p.world_template_version
  write_array uint16 write_unsigned_short write_pack_info_data p.resource_packs

unfoldable pub read_resource_packs_info_packet : Reader ResourcePacksInfoPacket
read_resource_packs_info_packet = do
  resource_pack_required ← read_bool
  has_addon_packs ← read_bool
  has_scripts ← read_bool
  is_vibrant_visuals_force_disabled ← read_bool
  world_template_id ← read_uuid
  world_template_version ← read_string
  resource_packs ← read_array uint16 read_unsigned_short read_pack_info_data
  pure (record {
    resource_pack_required = resource_pack_required;
    has_addon_packs = has_addon_packs;
    has_scripts = has_scripts;
    is_vibrant_visuals_force_disabled = is_vibrant_visuals_force_disabled;
    world_template_id = world_template_id;
    world_template_version = world_template_version;
    resource_packs = resource_packs;
  })

-- The values of the fields' types, with no text or array longer than its length prefix.
pub record FitsResourcePacksInfoPacket (p : ResourcePacksInfoPacket) : Type 0 where
  pub world_template_id_fits : FitsUuid p.world_template_id
  pub world_template_version_fits : FitsText p.world_template_version
  pub resource_packs_fits :
      (length p.resource_packs < 2 ^ 16) × All FitsPackInfoData p.resource_packs

pub RoundTrips-resource_packs_info_packet :
    (p : ResourcePacksInfoPacket)
    → FitsResourcePacksInfoPacket p
    → RoundTrips (write_resource_packs_info_packet p) read_resource_packs_info_packet p
unfolding write_resource_packs_info_packet read_resource_packs_info_packet
RoundTrips-resource_packs_info_packet p h =
    RoundTrips-bind _ _ _ _ (RoundTrips-bool p.resource_pack_required) (
      RoundTrips-bind _ _ _ _ (RoundTrips-bool p.has_addon_packs) (
        RoundTrips-bind _ _ _ _ (RoundTrips-bool p.has_scripts) (
          RoundTrips-bind _ _ _ _ (RoundTrips-bool p.is_vibrant_visuals_force_disabled) (
            RoundTrips-bind _ _ _ _ (RoundTrips-uuid p.world_template_id h.world_template_id_fits) (
              RoundTrips-bind _ _ _ _
                (RoundTrips-string p.world_template_version h.world_template_version_fits)
                (RoundTrips-last _ _ _
                  (RoundTrips-short_array FitsPackInfoData _ _ RoundTrips-pack_info_data
                    p.resource_packs h.resource_packs_fits)
                  refl))))))

-- `ResourcePackClientResponsePacket`.
pub record ResourcePackClientResponsePacket : Type 0 where
  pub response : ℕ
  pub pack_ids : List (List ℕ)

unfoldable pub write_resource_pack_client_response_packet :
    ResourcePackClientResponsePacket → Writer
write_resource_pack_client_response_packet p = do
  write_byte p.response
  write_array uint16 write_unsigned_short write_string p.pack_ids

unfoldable pub read_resource_pack_client_response_packet : Reader ResourcePackClientResponsePacket
read_resource_pack_client_response_packet = do
  response ← read_byte
  pack_ids ← read_array uint16 read_unsigned_short read_string
  pure (record { response = response; pack_ids = pack_ids })

-- The values of the fields' types, with no text or array longer than its length prefix.
pub record FitsResourcePackClientResponsePacket (p : ResourcePackClientResponsePacket)
    : Type 0 where
  pub response_fits : IsBits 8 p.response
  pub pack_ids_fits : (length p.pack_ids < 2 ^ 16) × All FitsText p.pack_ids

pub RoundTrips-resource_pack_client_response_packet :
    (p : ResourcePackClientResponsePacket)
    → FitsResourcePackClientResponsePacket p
    → RoundTrips
        (write_resource_pack_client_response_packet p)
        read_resource_pack_client_response_packet
        p
unfolding write_resource_pack_client_response_packet read_resource_pack_client_response_packet
RoundTrips-resource_pack_client_response_packet p h =
    RoundTrips-bind _ _ _ _ (RoundTrips-byte p.response h.response_fits) (
      RoundTrips-last _ _ _
        (RoundTrips-short_array FitsText _ _ RoundTrips-string p.pack_ids h.pack_ids_fits) refl)

-- `ClientCacheBlobStatusPacket`.
pub record ClientCacheBlobStatusPacket : Type 0 where
  pub missing_ids : List ℕ
  pub found_ids : List ℕ

unfoldable pub write_client_cache_blob_status_packet : ClientCacheBlobStatusPacket → Writer
write_client_cache_blob_status_packet p = do
  write_array uint32 write_unsigned_var_int write_unsigned_int64 p.missing_ids
  write_array uint32 write_unsigned_var_int write_unsigned_int64 p.found_ids

unfoldable pub read_client_cache_blob_status_packet : Reader ClientCacheBlobStatusPacket
read_client_cache_blob_status_packet = do
  missing_ids ← read_array uint32 read_unsigned_var_int read_unsigned_int64
  found_ids ← read_array uint32 read_unsigned_var_int read_unsigned_int64
  pure (record { missing_ids = missing_ids; found_ids = found_ids })

-- The values of the fields' types, with no text or array longer than its length prefix.
pub record FitsClientCacheBlobStatusPacket (p : ClientCacheBlobStatusPacket) : Type 0 where
  pub missing_ids_fits : (length p.missing_ids < 2 ^ 32) × All (IsBits 64) p.missing_ids
  pub found_ids_fits : (length p.found_ids < 2 ^ 32) × All (IsBits 64) p.found_ids

pub RoundTrips-client_cache_blob_status_packet :
    (p : ClientCacheBlobStatusPacket)
    → FitsClientCacheBlobStatusPacket p
    → RoundTrips (write_client_cache_blob_status_packet p) read_client_cache_blob_status_packet p
unfolding write_client_cache_blob_status_packet read_client_cache_blob_status_packet
RoundTrips-client_cache_blob_status_packet p h =
    RoundTrips-bind _ _ _ _
      (RoundTrips-var_int_array (IsBits 64) _ _ RoundTrips-unsigned_int64 p.missing_ids
        h.missing_ids_fits)
      (RoundTrips-last _ _ _
        (RoundTrips-var_int_array (IsBits 64) _ _ RoundTrips-unsigned_int64 p.found_ids
          h.found_ids_fits)
        refl)

-- `EduUriResourcePacket`.
pub record EduUriResourcePacket : Type 0 where
  pub button_name : List ℕ
  pub link_uri : List ℕ

unfoldable pub write_edu_uri_resource_packet : EduUriResourcePacket → Writer
write_edu_uri_resource_packet p = do write_string p.button_name; write_string p.link_uri

unfoldable pub read_edu_uri_resource_packet : Reader EduUriResourcePacket
read_edu_uri_resource_packet = do
  button_name ← read_string
  link_uri ← read_string
  pure (record { button_name = button_name; link_uri = link_uri })

-- The values of the fields' types, with no text or array longer than its length prefix.
pub record FitsEduUriResourcePacket (p : EduUriResourcePacket) : Type 0 where
  pub button_name_fits : FitsText p.button_name
  pub link_uri_fits : FitsText p.link_uri

pub RoundTrips-edu_uri_resource_packet :
    (p : EduUriResourcePacket)
    → FitsEduUriResourcePacket p
    → RoundTrips (write_edu_uri_resource_packet p) read_edu_uri_resource_packet p
unfolding write_edu_uri_resource_packet read_edu_uri_resource_packet
RoundTrips-edu_uri_resource_packet p h =
    RoundTrips-bind _ _ _ _ (RoundTrips-string p.button_name h.button_name_fits)
      (RoundTrips-last _ _ _ (RoundTrips-string p.link_uri h.link_uri_fits) refl)

-- `AutomationClientConnectPacket`.
pub record AutomationClientConnectPacket : Type 0 where
  pub web_socket_url : List ℕ

unfoldable pub write_automation_client_connect_packet : AutomationClientConnectPacket → Writer
write_automation_client_connect_packet p = write_string p.web_socket_url

unfoldable pub read_automation_client_connect_packet : Reader AutomationClientConnectPacket
read_automation_client_connect_packet = do
  web_socket_url ← read_string
  pure (record { web_socket_url = web_socket_url })

-- The values of the fields' types, with no text or array longer than its length prefix.
pub record FitsAutomationClientConnectPacket (p : AutomationClientConnectPacket) : Type 0 where
  pub web_socket_url_fits : FitsText p.web_socket_url

pub RoundTrips-automation_client_connect_packet :
    (p : AutomationClientConnectPacket)
    → FitsAutomationClientConnectPacket p
    → RoundTrips (write_automation_client_connect_packet p) read_automation_client_connect_packet p
unfolding write_automation_client_connect_packet read_automation_client_connect_packet
RoundTrips-automation_client_connect_packet p h =
    RoundTrips-last _ _ _ (RoundTrips-string p.web_socket_url h.web_socket_url_fits) refl

-- `NetworkStackLatencyPacket`.
pub record NetworkStackLatencyPacket : Type 0 where
  pub creation_time : ℕ
  pub is_from_server : Bool

unfoldable pub write_network_stack_latency_packet : NetworkStackLatencyPacket → Writer
write_network_stack_latency_packet p = do
  write_unsigned_int64 p.creation_time
  write_bool p.is_from_server

unfoldable pub read_network_stack_latency_packet : Reader NetworkStackLatencyPacket
read_network_stack_latency_packet = do
  creation_time ← read_unsigned_int64
  is_from_server ← read_bool
  pure (record { creation_time = creation_time; is_from_server = is_from_server })

-- The values of the fields' types, with no text or array longer than its length prefix.
pub record FitsNetworkStackLatencyPacket (p : NetworkStackLatencyPacket) : Type 0 where
  pub creation_time_fits : IsBits 64 p.creation_time

pub RoundTrips-network_stack_latency_packet :
    (p : NetworkStackLatencyPacket)
    → FitsNetworkStackLatencyPacket p
    → RoundTrips (write_network_stack_latency_packet p) read_network_stack_latency_packet p
unfolding write_network_stack_latency_packet read_network_stack_latency_packet
RoundTrips-network_stack_latency_packet p h =
    RoundTrips-bind _ _ _ _ (RoundTrips-unsigned_int64 p.creation_time h.creation_time_fits)
      (RoundTrips-last _ _ _ (RoundTrips-bool p.is_from_server) refl)
