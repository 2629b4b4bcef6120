-- ===== src/Packet/Registry/Setup.antt =====
-- The classes that the switch of src/sculk/protocol/codec/MinecraftPackets.cpp constructs, with the ids of
-- MinecraftPacketIds.hpp: login, resources, choices, status.
use beprotocol.Common.{List, [], ◌∷◌}
use beprotocol.Packet.Login.{
  PlayStatusPacket, write_play_status_packet, read_play_status_packet, FitsPlayStatusPacket,
  RoundTrips-play_status_packet, RequestNetworkSettingsPacket,
  write_request_network_settings_packet, read_request_network_settings_packet,
  FitsRequestNetworkSettingsPacket, RoundTrips-request_network_settings_packet, LoginPacket,
  write_login_packet, read_login_packet, FitsLoginPacket, RoundTrips-login_packet,
  ServerToClientHandshakePacket, write_server_to_client_handshake_packet,
  read_server_to_client_handshake_packet, FitsServerToClientHandshakePacket,
  RoundTrips-server_to_client_handshake_packet, ClientToServerHandshakePacket,
  write_client_to_server_handshake_packet, read_client_to_server_handshake_packet,
  FitsClientToServerHandshakePacket, RoundTrips-client_to_server_handshake_packet,
  NetworkSettingsPacket, write_network_settings_packet, read_network_settings_packet,
  FitsNetworkSettingsPacket, RoundTrips-network_settings_packet, ClientCacheStatusPacket,
  write_client_cache_status_packet, read_client_cache_status_packet, FitsClientCacheStatusPacket,
  RoundTrips-client_cache_status_packet,
}
use beprotocol.Packet.Resources.{
  ResourcePacksInfoPacket, write_resource_packs_info_packet, read_resource_packs_info_packet,
  FitsResourcePacksInfoPacket, RoundTrips-resource_packs_info_packet,
  ResourcePackClientResponsePacket, write_resource_pack_client_response_packet,
  read_resource_pack_client_response_packet, FitsResourcePackClientResponsePacket,
  RoundTrips-resource_pack_client_response_packet, ClientCacheBlobStatusPacket,
  write_client_cache_blob_status_packet, read_client_cache_blob_status_packet,
  FitsClientCacheBlobStatusPacket, RoundTrips-client_cache_blob_status_packet, EduUriResourcePacket,
  write_edu_uri_resource_packet, read_edu_uri_resource_packet, FitsEduUriResourcePacket,
  RoundTrips-edu_uri_resource_packet, AutomationClientConnectPacket,
  write_automation_client_connect_packet, read_automation_client_connect_packet,
  FitsAutomationClientConnectPacket, RoundTrips-automation_client_connect_packet,
  NetworkStackLatencyPacket, write_network_stack_latency_packet, read_network_stack_latency_packet,
  FitsNetworkStackLatencyPacket, RoundTrips-network_stack_latency_packet,
}
use beprotocol.Packet.Status.{
  TransferPacket, write_transfer_packet, read_transfer_packet, FitsTransferPacket,
  RoundTrips-transfer_packet, PacketViolationWarningPacket, write_packet_violation_warning_packet,
  read_packet_violation_warning_packet, FitsPacketViolationWarningPacket,
  RoundTrips-packet_violation_warning_packet, DebugInfoPacket, write_debug_info_packet,
  read_debug_info_packet, FitsDebugInfoPacket, RoundTrips-debug_info_packet,
  CompletedUsingItemPacket, write_completed_using_item_packet, read_completed_using_item_packet,
  FitsCompletedUsingItemPacket, RoundTrips-completed_using_item_packet, LessonProgressPacket,
  write_lesson_progress_packet, read_lesson_progress_packet, FitsLessonProgressPacket,
  RoundTrips-lesson_progress_packet, ChangeMobPropertyPacket, write_change_mob_property_packet,
  read_change_mob_property_packet, FitsChangeMobPropertyPacket,
  RoundTrips-change_mob_property_packet, UnlockedRecipesPacket, write_unlocked_recipes_packet,
  read_unlocked_recipes_packet, FitsUnlockedRecipesPacket, RoundTrips-unlocked_recipes_packet,
}
use beprotocol.Packet.Choices.{
  write_disconnect_packet, read_disconnect_packet, DisconnectPacket, FitsDisconnectPacket,
  RoundTrips-disconnect_packet, write_text_packet, read_text_packet, TextPacket, FitsTextPacket,
  RoundTrips-text_packet,
}
use beprotocol.Packet.Dispatch.{PacketClass}

abbrev pub play_status_class : PacketClass
play_status_class = record {
  State = PlayStatusPacket;
  id = 2;
  write = write_play_status_packet;
  read = read_play_status_packet;
  Fits = FitsPlayStatusPacket;
  codec = RoundTrips-play_status_packet;
}

abbrev pub request_network_settings_class : PacketClass
request_network_settings_class = record {
  State = RequestNetworkSettingsPacket;
  id = 193;
  write = write_request_network_settings_packet;
  read = read_request_network_settings_packet;
  Fits = FitsRequestNetworkSettingsPacket;
  codec = RoundTrips-request_network_settings_packet;
}

abbrev pub login_class : PacketClass
login_class = record {
  State = LoginPacket;
  id = 1;
  write = write_login_packet;
  read = read_login_packet;
  Fits = FitsLoginPacket;
  codec = RoundTrips-login_packet;
}

abbrev pub server_to_client_handshake_class : PacketClass
server_to_client_handshake_class = record {
  State = ServerToClientHandshakePacket;
  id = 3;
  write = write_server_to_client_handshake_packet;
  read = read_server_to_client_handshake_packet;
  Fits = FitsServerToClientHandshakePacket;
  codec = RoundTrips-server_to_client_handshake_packet;
}

abbrev pub client_to_server_handshake_class : PacketClass
client_to_server_handshake_class = record {
  State = ClientToServerHandshakePacket;
  id = 4;
  write = write_client_to_server_handshake_packet;
  read = read_client_to_server_handshake_packet;
  Fits = FitsClientToServerHandshakePacket;
  codec = RoundTrips-client_to_server_handshake_packet;
}

abbrev pub network_settings_class : PacketClass
network_settings_class = record {
  State = NetworkSettingsPacket;
  id = 143;
  write = write_network_settings_packet;
  read = read_network_settings_packet;
  Fits = FitsNetworkSettingsPacket;
  codec = RoundTrips-network_settings_packet;
}

abbrev pub client_cache_status_class : PacketClass
client_cache_status_class = record {
  State = ClientCacheStatusPacket;
  id = 129;
  write = write_client_cache_status_packet;
  read = read_client_cache_status_packet;
  Fits = FitsClientCacheStatusPacket;
  codec = RoundTrips-client_cache_status_packet;
}

abbrev pub resource_packs_info_class : PacketClass
resource_packs_info_class = record {
  State = ResourcePacksInfoPacket;
  id = 6;
  write = write_resource_packs_info_packet;
  read = read_resource_packs_info_packet;
  Fits = FitsResourcePacksInfoPacket;
  codec = RoundTrips-resource_packs_info_packet;
}

abbrev pub resource_pack_client_response_class : PacketClass
resource_pack_client_response_class = record {
  State = ResourcePackClientResponsePacket;
  id = 8;
  write = write_resource_pack_client_response_packet;
  read = read_resource_pack_client_response_packet;
  Fits = FitsResourcePackClientResponsePacket;
  codec = RoundTrips-resource_pack_client_response_packet;
}

abbrev pub client_cache_blob_status_class : PacketClass
client_cache_blob_status_class = record {
  State = ClientCacheBlobStatusPacket;
  id = 135;
  write = write_client_cache_blob_status_packet;
  read = read_client_cache_blob_status_packet;
  Fits = FitsClientCacheBlobStatusPacket;
  codec = RoundTrips-client_cache_blob_status_packet;
}

abbrev pub edu_uri_resource_class : PacketClass
edu_uri_resource_class = record {
  State = EduUriResourcePacket;
  id = 170;
  write = write_edu_uri_resource_packet;
  read = read_edu_uri_resource_packet;
  Fits = FitsEduUriResourcePacket;
  codec = RoundTrips-edu_uri_resource_packet;
}

abbrev pub automation_client_connect_class : PacketClass
automation_client_connect_class = record {
  State = AutomationClientConnectPacket;
  id = 95;
  write = write_automation_client_connect_packet;
  read = read_automation_client_connect_packet;
  Fits = FitsAutomationClientConnectPacket;
  codec = RoundTrips-automation_client_connect_packet;
}

abbrev pub network_stack_latency_class : PacketClass
network_stack_latency_class = record {
  State = NetworkStackLatencyPacket;
  id = 115;
  write = write_network_stack_latency_packet;
  read = read_network_stack_latency_packet;
  Fits = FitsNetworkStackLatencyPacket;
  codec = RoundTrips-network_stack_latency_packet;
}

abbrev pub transfer_class : PacketClass
transfer_class = record {
  State = TransferPacket;
  id = 85;
  write = write_transfer_packet;
  read = read_transfer_packet;
  Fits = FitsTransferPacket;
  codec = RoundTrips-transfer_packet;
}

abbrev pub packet_violation_warning_class : PacketClass
packet_violation_warning_class = record {
  State = PacketViolationWarningPacket;
  id = 156;
  write = write_packet_violation_warning_packet;
  read = read_packet_violation_warning_packet;
  Fits = FitsPacketViolationWarningPacket;
  codec = RoundTrips-packet_violation_warning_packet;
}

abbrev pub debug_info_class : PacketClass
debug_info_class = record {
  State = DebugInfoPacket;
  id = 155;
  write = write_debug_info_packet;
  read = read_debug_info_packet;
  Fits = FitsDebugInfoPacket;
  codec = RoundTrips-debug_info_packet;
}

abbrev pub completed_using_item_class : PacketClass
completed_using_item_class = record {
  State = CompletedUsingItemPacket;
  id = 142;
  write = write_completed_using_item_packet;
  read = read_completed_using_item_packet;
  Fits = FitsCompletedUsingItemPacket;
  codec = RoundTrips-completed_using_item_packet;
}

abbrev pub lesson_progress_class : PacketClass
lesson_progress_class = record {
  State = LessonProgressPacket;
  id = 183;
  write = write_lesson_progress_packet;
  read = read_lesson_progress_packet;
  Fits = FitsLessonProgressPacket;
  codec = RoundTrips-lesson_progress_packet;
}

abbrev pub change_mob_property_class : PacketClass
change_mob_property_class = record {
  State = ChangeMobPropertyPacket;
  id = 182;
  write = write_change_mob_property_packet;
  read = read_change_mob_property_packet;
  Fits = FitsChangeMobPropertyPacket;
  codec = RoundTrips-change_mob_property_packet;
}

abbrev pub unlocked_recipes_class : PacketClass
unlocked_recipes_class = record {
  State = UnlockedRecipesPacket;
  id = 199;
  write = write_unlocked_recipes_packet;
  read = read_unlocked_recipes_packet;
  Fits = FitsUnlockedRecipesPacket;
  codec = RoundTrips-unlocked_recipes_packet;
}

abbrev pub disconnect_class : PacketClass
disconnect_class = record {
  State = DisconnectPacket;
  id = 5;
  write = write_disconnect_packet;
  read = read_disconnect_packet;
  Fits = FitsDisconnectPacket;
  codec = RoundTrips-disconnect_packet;
}

abbrev pub text_class : PacketClass
text_class = record {
  State = TextPacket;
  id = 9;
  write = write_text_packet;
  read = read_text_packet;
  Fits = FitsTextPacket;
  codec = RoundTrips-text_packet;
}

abbrev pub setup_classes : List PacketClass
setup_classes =
    play_status_class
    ∷ (request_network_settings_class
        ∷ (login_class
            ∷ (server_to_client_handshake_class
                ∷ (client_to_server_handshake_class
                    ∷ (network_settings_class
                        ∷ (client_cache_status_class
                            ∷ (resource_packs_info_class
                                ∷ (resource_pack_client_response_class
                                    ∷ (client_cache_blob_status_class
                                        ∷ (edu_uri_resource_class
                                            ∷ (automation_client_connect_class
                                                ∷ (network_stack_latency_class
                                                    ∷ (transfer_class
                                                        ∷ (packet_violation_warning_class
                                                            ∷ (debug_info_class
                                                            ∷ (completed_using_item_class
                                                            ∷ (lesson_progress_class
                                                            ∷ (change_mob_property_class
                                                            ∷ (unlocked_recipes_class
                                                            ∷ (disconnect_class
                                                            ∷ (text_class
                                                            ∷ ([]))))))))))))))))))))))
