-- ===== src/Packet/Windows.antt =====
-- src/sculk/protocol/codec/packet: the packets on containers and forms. A float is its bit pattern.
use beprotocol.Common.{ℕ, refl, List, Bool}
use beprotocol.Stream.{Reader, Writer, pure, ◌>>=◌, ◌>>◌}
use beprotocol.Stream.RoundTrip.{RoundTrips, RoundTrips-bind, RoundTrips-last}
use beprotocol.Stream.Fixed.{
  write_byte, read_byte, write_bool, read_bool, write_signed_int, read_signed_int,
}
use beprotocol.Stream.Fixed.RoundTrip.{RoundTrips-byte, RoundTrips-bool, RoundTrips-signed_int}
use beprotocol.Stream.VarInt.{
  write_unsigned_var_int, read_unsigned_var_int, write_var_int, read_var_int, write_var_int64,
  read_var_int64,
}
use beprotocol.Stream.VarInt.RoundTrip.{
  RoundTrips-unsigned_var_int, RoundTrips-var_int, RoundTrips-var_int64,
}
use beprotocol.Stream.Text.{write_string, read_string, RoundTrips-string}
use beprotocol.Stream.Containers.{uint8, write_enum, read_enum}
use beprotocol.Stream.Containers.RoundTrip.{RoundTrips-same_enum}
use beprotocol.Packet.Fits.{FitsText, IsBits}
use beprotocol.Packet.Types.{
  BlockPos, write_block_pos, read_block_pos, FitsBlockPos, RoundTrips-block_pos,
}

-- `ContainerOpenPacket`.
pub record ContainerOpenPacket : Type 0 where
  pub container_id : ℕ
  pub container_type : ℕ
  pub position : BlockPos
  pub target_actor_id : ℕ

unfoldable pub write_container_open_packet : ContainerOpenPacket → Writer
write_container_open_packet p = do
  write_enum uint8 uint8 write_byte p.container_id
  write_enum uint8 uint8 write_byte p.container_type
  write_block_pos p.position
  write_var_int64 p.target_actor_id

unfoldable pub read_container_open_packet : Reader ContainerOpenPacket
read_container_open_packet = do
  container_id ← read_enum uint8 uint8 read_byte
  container_type ← read_enum uint8 uint8 read_byte
  position ← read_block_pos
  target_actor_id ← read_var_int64
  pure (record {
    container_id = container_id;
    container_type = container_type;
    position = position;
    target_actor_id = target_actor_id;
  })

-- The values of the fields' types, with no text or array longer than its length prefix.
pub record FitsContainerOpenPacket (p : ContainerOpenPacket) : Type 0 where
  pub container_id_fits : IsBits 8 p.container_id
  pub container_type_fits : IsBits 8 p.container_type
  pub position_fits : FitsBlockPos p.position
  pub target_actor_id_fits : IsBits 64 p.target_actor_id

pub RoundTrips-container_open_packet :
    (p : ContainerOpenPacket)
    → FitsContainerOpenPacket p
    → RoundTrips (write_container_open_packet p) read_container_open_packet p
unfolding write_container_open_packet read_container_open_packet
RoundTrips-container_open_packet p h =
    RoundTrips-bind _ _ _ _
      (RoundTrips-same_enum uint8 _ _ p.container_id h.container_id_fits
        (RoundTrips-byte p.container_id h.container_id_fits))
      (RoundTrips-bind _ _ _ _
        (RoundTrips-same_enum uint8 _ _ p.container_type h.container_type_fits
          (RoundTrips-byte p.container_type h.container_type_fits))
        (RoundTrips-bind _ _ _ _ (RoundTrips-block_pos p.position h.position_fits) (
          RoundTrips-last _ _ _ (RoundTrips-var_int64 p.target_actor_id h.target_actor_id_fits)
            refl)))

-- `ContainerClosePacket`.
pub record ContainerClosePacket : Type 0 where
  pub container_id : ℕ
  pub container_type : ℕ
  pub server_initiated_close : Bool

unfoldable pub write_container_close_packet : ContainerClosePacket → Writer
write_container_close_packet p = do
  write_enum uint8 uint8 write_byte p.container_id
  write_enum uint8 uint8 write_byte p.container_type
  write_bool p.server_initiated_close

unfoldable pub read_container_close_packet : Reader ContainerClosePacket
read_container_close_packet = do
  container_id ← read_enum uint8 uint8 read_byte
  container_type ← read_enum uint8 uint8 read_byte
  server_initiated_close ← read_bool
  pure (record {
    container_id = container_id;
    container_type = container_type;
    server_initiated_close = server_initiated_close;
  })

-- The values of the fields' types, with no text or array longer than its length prefix.
pub record FitsContainerClosePacket (p : ContainerClosePacket) : Type 0 where
  pub container_id_fits : IsBits 8 p.container_id
  pub container_type_fits : IsBits 8 p.container_type

pub RoundTrips-container_close_packet :
    (p : ContainerClosePacket)
    → FitsContainerClosePacket p
    → RoundTrips (write_container_close_packet p) read_container_close_packet p
unfolding write_container_close_packet read_container_close_packet
RoundTrips-container_close_packet p h =
    RoundTrips-bind _ _ _ _
      (RoundTrips-same_enum uint8 _ _ p.container_id h.container_id_fits
        (RoundTrips-byte p.container_id h.container_id_fits))
      (RoundTrips-bind _ _ _ _
        (RoundTrips-same_enum uint8 _ _ p.container_type h.container_type_fits
          (RoundTrips-byte p.container_type h.container_type_fits))
        (RoundTrips-last _ _ _ (RoundTrips-bool p.server_initiated_close) refl))

-- `ContainerSetDataPacket`.
pub record ContainerSetDataPacket : Type 0 where
  pub container_id : ℕ
  pub id : ℕ
  pub value : ℕ

unfoldable pub write_container_set_data_packet : ContainerSetDataPacket → Writer
write_container_set_data_packet p = do
  write_enum uint8 uint8 write_byte p.container_id
  write_var_int p.id
  write_var_int p.value

unfoldable pub read_container_set_data_packet : Reader ContainerSetDataPacket
read_container_set_data_packet = do
  container_id ← read_enum uint8 uint8 read_byte
  id ← read_var_int
  value ← read_var_int
  pure (record { container_id = container_id; id = id; value = value })

-- The values of the fields' types, with no text or array longer than its length prefix.
pub record FitsContainerSetDataPacket (p : ContainerSetDataPacket) : Type 0 where
  pub container_id_fits : IsBits 8 p.container_id
  pub id_fits : IsBits 32 p.id
  pub value_fits : IsBits 32 p.value

pub RoundTrips-container_set_data_packet :
    (p : ContainerSetDataPacket)
    → FitsContainerSetDataPacket p
    → RoundTrips (write_container_set_data_packet p) read_container_set_data_packet p
unfolding write_container_set_data_packet read_container_set_data_packet
RoundTrips-container_set_data_packet p h =
    RoundTrips-bind _ _ _ _
      (RoundTrips-same_enum uint8 _ _ p.container_id h.container_id_fits
        (RoundTrips-byte p.container_id h.container_id_fits))
      (RoundTrips-bind _ _ _ _ (RoundTrips-var_int p.id h.id_fits)
        (RoundTrips-last _ _ _ (RoundTrips-var_int p.value h.value_fits) refl))

-- `ModalFormRequestPacket`.
pub record ModalFormRequestPacket : Type 0 where
  pub form_id : ℕ
  pub form_json : List ℕ

unfoldable pub write_modal_form_request_packet : ModalFormRequestPacket → Writer
write_modal_form_request_packet p = do write_unsigned_var_int p.form_id; write_string p.form_json

unfoldable pub read_modal_form_request_packet : Reader ModalFormRequestPacket
read_modal_form_request_packet = do
  form_id ← read_unsigned_var_int
  form_json ← read_string
  pure (record { form_id = form_id; form_json = form_json })

-- The values of the fields' types, with no text or array longer than its length prefix.
pub record FitsModalFormRequestPacket (p : ModalFormRequestPacket) : Type 0 where
  pub form_id_fits : IsBits 32 p.form_id
  pub form_json_fits : FitsText p.form_json

pub RoundTrips-modal_form_request_packet :
    (p : ModalFormRequestPacket)
    → FitsModalFormRequestPacket p
    → RoundTrips (write_modal_form_request_packet p) read_modal_form_request_packet p
unfolding write_modal_form_request_packet read_modal_form_request_packet
RoundTrips-modal_form_request_packet p h =
    RoundTrips-bind _ _ _ _ (RoundTrips-unsigned_var_int p.form_id h.form_id_fits)
      (RoundTrips-last _ _ _ (RoundTrips-string p.form_json h.form_json_fits) refl)

-- `ServerSettingsResponsePacket`.
pub record ServerSettingsResponsePacket : Type 0 where
  pub form_id : ℕ
  pub form_json : List ℕ

unfoldable pub write_server_settings_response_packet : ServerSettingsResponsePacket → Writer
write_server_settings_response_packet p = do
  write_unsigned_var_int p.form_id
  write_string p.form_json

unfoldable pub read_server_settings_response_packet : Reader ServerSettingsResponsePacket
read_server_settings_response_packet = do
  form_id ← read_unsigned_var_int
  form_json ← read_string
  pure (record { form_id = form_id; form_json = form_json })

-- The values of the fields' types, with no text or array longer than its length prefix.
pub record FitsServerSettingsResponsePacket (p : ServerSettingsResponsePacket) : Type 0 where
  pub form_id_fits : IsBits 32 p.form_id
  pub form_json_fits : FitsText p.form_json

pub RoundTrips-server_settings_response_packet :
    (p : ServerSettingsResponsePacket)
    → FitsServerSettingsResponsePacket p
    → RoundTrips (write_server_settings_response_packet p) read_server_settings_response_packet p
unfolding write_server_settings_response_packet read_server_settings_response_packet
RoundTrips-server_settings_response_packet p h =
    RoundTrips-bind _ _ _ _ (RoundTrips-unsigned_var_int p.form_id h.form_id_fits)
      (RoundTrips-last _ _ _ (RoundTrips-string p.form_json h.form_json_fits) refl)

-- `PlayerHotbarPacket`.
pub record PlayerHotbarPacket : Type 0 where
  pub selected_slot : ℕ
  pub container_id : ℕ
  pub should_select_slot : Bool

unfoldable pub write_player_hotbar_packet : PlayerHotbarPacket → Writer
write_player_hotbar_packet p = do
  write_unsigned_var_int p.selected_slot
  write_enum uint8 uint8 write_byte p.container_id
  write_bool p.should_select_slot

unfoldable pub read_player_hotbar_packet : Reader PlayerHotbarPacket
read_player_hotbar_packet = do
  selected_slot ← read_unsigned_var_int
  container_id ← read_enum uint8 uint8 read_byte
  should_select_slot ← read_bool
  pure (record {
    selected_slot = selected_slot;
    container_id = container_id;
    should_select_slot = should_select_slot;
  })

-- The values of the fields' types, with no text or array longer than its length prefix.
pub record FitsPlayerHotbarPacket (p : PlayerHotbarPacket) : Type 0 where
  pub selected_slot_fits : IsBits 32 p.selected_slot
  pub container_id_fits : IsBits 8 p.container_id

pub RoundTrips-player_hotbar_packet :
    (p : PlayerHotbarPacket)
    → FitsPlayerHotbarPacket p
    → RoundTrips (write_player_hotbar_packet p) read_player_hotbar_packet p
unfolding write_player_hotbar_packet read_player_hotbar_packet
RoundTrips-player_hotbar_packet p h =
    RoundTrips-bind _ _ _ _ (RoundTrips-unsigned_var_int p.selected_slot h.selected_slot_fits) (
      RoundTrips-bind _ _ _ _
        (RoundTrips-same_enum uint8 _ _ p.container_id h.container_id_fits
          (RoundTrips-byte p.container_id h.container_id_fits))
        (RoundTrips-last _ _ _ (RoundTrips-bool p.should_select_slot) refl))

-- `GuiDataPickItemPacket`.
pub record GuiDataPickItemPacket : Type 0 where
  pub item_name : List ℕ
  pub item_effect_name : List ℕ
  pub slot : ℕ

unfoldable pub write_gui_data_pick_item_packet : GuiDataPickItemPacket → Writer
write_gui_data_pick_item_packet p = do
  write_string p.item_name
  write_string p.item_effect_name
  write_signed_int p.slot

unfoldable pub read_gui_data_pick_item_packet : Reader GuiDataPickItemPacket
read_gui_data_pick_item_packet = do
  item_name ← read_string
  item_effect_name ← read_string
  slot ← read_signed_int
  pure (record { item_name = item_name; item_effect_name = item_effect_name; slot = slot })

-- The values of the fields' types, with no text or array longer than its length prefix.
pub record FitsGuiDataPickItemPacket (p : GuiDataPickItemPacket) : Type 0 where
  pub item_name_fits : FitsText p.item_name
  pub item_effect_name_fits : FitsText p.item_effect_name
  pub slot_fits : IsBits 32 p.slot

pub RoundTrips-gui_data_pick_item_packet :
    (p : GuiDataPickItemPacket)
    → FitsGuiDataPickItemPacket p
    → RoundTrips (write_gui_data_pick_item_packet p) read_gui_data_pick_item_packet p
unfolding write_gui_data_pick_item_packet read_gui_data_pick_item_packet
RoundTrips-gui_data_pick_item_packet p h =
    RoundTrips-bind _ _ _ _ (RoundTrips-string p.item_name h.item_name_fits) (
      RoundTrips-bind _ _ _ _ (RoundTrips-string p.item_effect_name h.item_effect_name_fits)
        (RoundTrips-last _ _ _ (RoundTrips-signed_int p.slot h.slot_fits) refl))
