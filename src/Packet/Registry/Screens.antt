-- ===== src/Packet/Registry/Screens.antt =====
-- The classes that the switch of src/sculk/protocol/codec/MinecraftPackets.cpp constructs, with the ids of
-- MinecraftPacketIds.hpp: windows, messages.
use beprotocol.Common.{List, [], ◌∷◌}
use beprotocol.Packet.Windows.{
  ContainerOpenPacket, write_container_open_packet, read_container_open_packet,
  FitsContainerOpenPacket, RoundTrips-container_open_packet, ContainerClosePacket,
  write_container_close_packet, read_container_close_packet, FitsContainerClosePacket,
  RoundTrips-container_close_packet, ContainerSetDataPacket, write_container_set_data_packet,
  read_container_set_data_packet, FitsContainerSetDataPacket, RoundTrips-container_set_data_packet,
  ModalFormRequestPacket, write_modal_form_request_packet, read_modal_form_request_packet,
  FitsModalFormRequestPacket, RoundTrips-modal_form_request_packet, ServerSettingsResponsePacket,
  write_server_settings_response_packet, read_server_settings_response_packet,
  FitsServerSettingsResponsePacket, RoundTrips-server_settings_response_packet, PlayerHotbarPacket,
  write_player_hotbar_packet, read_player_hotbar_packet, FitsPlayerHotbarPacket,
  RoundTrips-player_hotbar_packet, GuiDataPickItemPacket, write_gui_data_pick_item_packet,
  read_gui_data_pick_item_packet, FitsGuiDataPickItemPacket, RoundTrips-gui_data_pick_item_packet,
}
use beprotocol.Packet.Messages.{
  SetTitlePacket, write_set_title_packet, read_set_title_packet, FitsSetTitlePacket,
  RoundTrips-set_title_packet, ToastRequestPacket, write_toast_request_packet,
  read_toast_request_packet, FitsToastRequestPacket, RoundTrips-toast_request_packet,
  DeathInfoPacket, write_death_info_packet, read_death_info_packet, FitsDeathInfoPacket,
  RoundTrips-death_info_packet, ScriptMessagePacket, write_script_message_packet,
  read_script_message_packet, FitsScriptMessagePacket, RoundTrips-script_message_packet,
  RemoveObjectivePacket, write_remove_objective_packet, read_remove_objective_packet,
  FitsRemoveObjectivePacket, RoundTrips-remove_objective_packet, SetDisplayObjectivePacket,
  write_set_display_objective_packet, read_set_display_objective_packet,
  FitsSetDisplayObjectivePacket, RoundTrips-set_display_objective_packet, SettingsCommandPacket,
  write_settings_command_packet, read_settings_command_packet, FitsSettingsCommandPacket,
  RoundTrips-settings_command_packet,
}
use beprotocol.Packet.Dispatch.{PacketClass}

abbrev pub container_open_class : PacketClass
container_open_class = record {
  State = ContainerOpenPacket;
  id = 46;
  write = write_container_open_packet;
  read = read_container_open_packet;
  Fits = FitsContainerOpenPacket;
  codec = RoundTrips-container_open_packet;
}

abbrev pub container_close_class : PacketClass
container_close_class = record {
  State = ContainerClosePacket;
  id = 47;
  write = write_container_close_packet;
  read = read_container_close_packet;
  Fits = FitsContainerClosePacket;
  codec = RoundTrips-container_close_packet;
}

abbrev pub container_set_data_class : PacketClass
container_set_data_class = record {
  State = ContainerSetDataPacket;
  id = 51;
  write = write_container_set_data_packet;
  read = read_container_set_data_packet;
  Fits = FitsContainerSetDataPacket;
  codec = RoundTrips-container_set_data_packet;
}

abbrev pub modal_form_request_class : PacketClass
modal_form_request_class = record {
  State = ModalFormRequestPacket;
  id = 100;
  write = write_modal_form_request_packet;
  read = read_modal_form_request_packet;
  Fits = FitsModalFormRequestPacket;
  codec = RoundTrips-modal_form_request_packet;
}

abbrev pub server_settings_response_class : PacketClass
server_settings_response_class = record {
  State = ServerSettingsResponsePacket;
  id = 103;
  write = write_server_settings_response_packet;
  read = read_server_settings_response_packet;
  Fits = FitsServerSettingsResponsePacket;
  codec = RoundTrips-server_settings_response_packet;
}

abbrev pub player_hotbar_class : PacketClass
player_hotbar_class = record {
  State = PlayerHotbarPacket;
  id = 48;
  write = write_player_hotbar_packet;
  read = read_player_hotbar_packet;
  Fits = FitsPlayerHotbarPacket;
  codec = RoundTrips-player_hotbar_packet;
}

abbrev pub gui_data_pick_item_class : PacketClass
gui_data_pick_item_class = record {
  State = GuiDataPickItemPacket;
  id = 54;
  write = write_gui_data_pick_item_packet;
  read = read_gui_data_pick_item_packet;
  Fits = FitsGuiDataPickItemPacket;
  codec = RoundTrips-gui_data_pick_item_packet;
}

abbrev pub set_title_class : PacketClass
set_title_class = record {
  State = SetTitlePacket;
  id = 88;
  write = write_set_title_packet;
  read = read_set_title_packet;
  Fits = FitsSetTitlePacket;
  codec = RoundTrips-set_title_packet;
}

abbrev pub toast_request_class : PacketClass
toast_request_class = record {
  State = ToastRequestPacket;
  id = 186;
  write = write_toast_request_packet;
  read = read_toast_request_packet;
  Fits = FitsToastRequestPacket;
  codec = RoundTrips-toast_request_packet;
}

abbrev pub death_info_class : PacketClass
death_info_class = record {
  State = DeathInfoPacket;
  id = 189;
  write = write_death_info_packet;
  read = read_death_info_packet;
  Fits = FitsDeathInfoPacket;
  codec = RoundTrips-death_info_packet;
}

abbrev pub script_message_class : PacketClass
script_message_class = record {
  State = ScriptMessagePacket;
  id = 177;
  write = write_script_message_packet;
  read = read_script_message_packet;
  Fits = FitsScriptMessagePacket;
  codec = RoundTrips-script_message_packet;
}

abbrev pub remove_objective_class : PacketClass
remove_objective_class = record {
  State = RemoveObjectivePacket;
  id = 106;
  write = write_remove_objective_packet;
  read = read_remove_objective_packet;
  Fits = FitsRemoveObjectivePacket;
  codec = RoundTrips-remove_objective_packet;
}

abbrev pub set_display_objective_class : PacketClass
set_display_objective_class = record {
  State = SetDisplayObjectivePacket;
  id = 107;
  write = write_set_display_objective_packet;
  read = read_set_display_objective_packet;
  Fits = FitsSetDisplayObjectivePacket;
  codec = RoundTrips-set_display_objective_packet;
}

abbrev pub settings_command_class : PacketClass
settings_command_class = record {
  State = SettingsCommandPacket;
  id = 140;
  write = write_settings_command_packet;
  read = read_settings_command_packet;
  Fits = FitsSettingsCommandPacket;
  codec = RoundTrips-settings_command_packet;
}

abbrev pub screens_classes : List PacketClass
screens_classes =
    container_open_class
    ∷ (container_close_class
        ∷ (container_set_data_class
            ∷ (modal_form_request_class
                ∷ (server_settings_response_class
                    ∷ (player_hotbar_class
                        ∷ (gui_data_pick_item_class
                            ∷ (set_title_class
                                ∷ (toast_request_class
                                    ∷ (death_info_class
                                        ∷ (script_message_class
                                            ∷ (remove_objective_class
                                                ∷ (set_display_objective_class
                                                    ∷ (settings_command_class ∷ ([]))))))))))))))
