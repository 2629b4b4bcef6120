-- ===== src/Packet/Messages.antt =====
-- src/sculk/protocol/codec/packet: the packets that show text. A float is its bit pattern.
use beprotocol.Common.{ℕ, ◌<◌, ◌^◌, refl, List, length, All, Bool}
use beprotocol.Stream.{Reader, Writer, pure, ◌>>=◌, ◌>>◌}
use beprotocol.Stream.RoundTrip.{RoundTrips, RoundTrips-bind, RoundTrips-last}
use beprotocol.Stream.Fixed.{write_bool, read_bool}
use beprotocol.Stream.Fixed.RoundTrip.{RoundTrips-bool}
use beprotocol.Stream.VarInt.{
  write_unsigned_var_int, read_unsigned_var_int, write_var_int, read_var_int,
}
use beprotocol.Stream.VarInt.RoundTrip.{RoundTrips-var_int}
use beprotocol.Stream.Text.{write_string, read_string, RoundTrips-string}
use beprotocol.Stream.Containers.{
  int8, uint8, int32, uint32, write_enum, read_enum, write_array, read_array,
}
use beprotocol.Stream.Containers.RoundTrip.{
  RoundTrips-enum, RoundTrips-var_int_array, CastsBack-int8-int32, CastsBack-uint8-int32,
  static_cast-int8-int32-lt, static_cast-uint8-int32-lt,
}
use beprotocol.Packet.Fits.{FitsText, IsBits}

-- `SetTitlePacket`.
pub record SetTitlePacket : Type 0 where
  pub title_type : ℕ
  pub title_text : List ℕ
  pub fade_in_time : ℕ
  pub stay_time : ℕ
  pub fade_out_time : ℕ
  pub xuid : List ℕ
  pub platform_id : List ℕ
  pub filtered_message : List ℕ

unfoldable pub write_set_title_packet : SetTitlePacket → Writer
write_set_title_packet p = do
  write_enum int8 int32 write_var_int p.title_type
  write_string p.title_text
  write_var_int p.fade_in_time
  write_var_int p.stay_time
  write_var_int p.fade_out_time
  write_string p.xuid
  write_string p.platform_id
  write_string p.filtered_message

unfoldable pub read_set_title_packet : Reader SetTitlePacket
read_set_title_packet = do
  title_type ← read_enum int8 int32 read_var_int
  title_text ← read_string
  fade_in_time ← read_var_int
  stay_time ← read_var_int
  fade_out_time ← read_var_int
  xuid ← read_string
  platform_id ← read_string
  filtered_message ← read_string
  pure (record {
    title_type = title_type;
    title_text = title_text;
    fade_in_time = fade_in_time;
    stay_time = stay_time;
    fade_out_time = fade_out_time;
    xuid = xuid;
    platform_id = platform_id;
    filtered_message = filtered_message;
  })

-- The values of the fields' types, with no text or array longer than its length prefix.
pub record FitsSetTitlePacket (p : SetTitlePacket) : Type 0 where
  pub title_type_fits : IsBits 8 p.title_type
  pub title_text_fits : FitsText p.title_text
  pub fade_in_time_fits : IsBits 32 p.fade_in_time
  pub stay_time_fits : IsBits 32 p.stay_time
  pub fade_out_time_fits : IsBits 32 p.fade_out_time
  pub xuid_fits : FitsText p.xuid
  pub platform_id_fits : FitsText p.platform_id
  pub filtered_message_fits : FitsText p.filtered_message

pub RoundTrips-set_title_packet :
    (p : SetTitlePacket)
    → FitsSetTitlePacket p
    → RoundTrips (write_set_title_packet p) read_set_title_packet p
unfolding write_set_title_packet read_set_title_packet
RoundTrips-set_title_packet p h =
    RoundTrips-bind _ _ _ _
      (RoundTrips-enum int8 int32 _ _ p.title_type
        (CastsBack-int8-int32 p.title_type h.title_type_fits)
        (RoundTrips-var_int _ (static_cast-int8-int32-lt p.title_type h.title_type_fits)))
      (RoundTrips-bind _ _ _ _ (RoundTrips-string p.title_text h.title_text_fits) (
        RoundTrips-bind _ _ _ _ (RoundTrips-var_int p.fade_in_time h.fade_in_time_fits) (
          RoundTrips-bind _ _ _ _ (RoundTrips-var_int p.stay_time h.stay_time_fits) (
            RoundTrips-bind _ _ _ _ (RoundTrips-var_int p.fade_out_time h.fade_out_time_fits) (
              RoundTrips-bind _ _ _ _ (RoundTrips-string p.xuid h.xuid_fits) (
                RoundTrips-bind _ _ _ _ (RoundTrips-string p.platform_id h.platform_id_fits) (
                  RoundTrips-last _ _ _
                    (RoundTrips-string p.filtered_message h.filtered_message_fits) refl)))))))

-- `ToastRequestPacket`.
pub record ToastRequestPacket : Type 0 where
  pub title : List ℕ
  pub content : List ℕ

unfoldable pub write_toast_request_packet : ToastRequestPacket → Writer
write_toast_request_packet p = do write_string p.title; write_string p.content

unfoldable pub read_toast_request_packet : Reader ToastRequestPacket
read_toast_request_packet = do
  title ← read_string
  content ← read_string
  pure (record { title = title; content = content })

-- The values of the fields' types, with no text or array longer than its length prefix.
pub record FitsToastRequestPacket (p : ToastRequestPacket) : Type 0 where
  pub title_fits : FitsText p.title
  pub content_fits : FitsText p.content

pub RoundTrips-toast_request_packet :
    (p : ToastRequestPacket)
    → FitsToastRequestPacket p
    → RoundTrips (write_toast_request_packet p) read_toast_request_packet p
unfolding write_toast_request_packet read_toast_request_packet
RoundTrips-toast_request_packet p h =
    RoundTrips-bind _ _ _ _ (RoundTrips-string p.title h.title_fits)
      (RoundTrips-last _ _ _ (RoundTrips-string p.content h.content_fits) refl)

-- `DeathInfoPacket`.
pub record DeathInfoPacket : Type 0 where
  pub death_cause_attack_name : List ℕ
  pub death_cause_message_list : List (List ℕ)

unfoldable pub write_death_info_packet : DeathInfoPacket → Writer
write_death_info_packet p = do
  write_string p.death_cause_attack_name
  write_array uint32 write_unsigned_var_int write_string p.death_cause_message_list

unfoldable pub read_death_info_packet : Reader DeathInfoPacket
read_death_info_packet = do
  death_cause_attack_name ← read_string
  death_cause_message_list ← read_array uint32 read_unsigned_var_int read_string
  pure (record {
    death_cause_attack_name = death_cause_attack_name;
    death_cause_message_list = death_cause_message_list;
  })

-- The values of the fields' types, with no text or array longer than its length prefix.
pub record FitsDeathInfoPacket (p : DeathInfoPacket) : Type 0 where
  pub death_cause_attack_name_fits : FitsText p.death_cause_attack_name
  pub death_cause_message_list_fits :
      (length p.death_cause_message_list < 2 ^ 32) × All FitsText p.death_cause_message_list

pub RoundTrips-death_info_packet :
    (p : DeathInfoPacket)
    → FitsDeathInfoPacket p
    → RoundTrips (write_death_info_packet p) read_death_info_packet p
unfolding write_death_info_packet read_death_info_packet
RoundTrips-death_info_packet p h =
    RoundTrips-bind _ _ _ _
      (RoundTrips-string p.death_cause_attack_name h.death_cause_attack_name_fits)
      (RoundTrips-last _ _ _
        (RoundTrips-var_int_array FitsText _ _ RoundTrips-string p.death_cause_message_list
          h.death_cause_message_list_fits)
        refl)

-- `ScriptMessagePacket`.
pub record ScriptMessagePacket : Type 0 where
  pub message_id : List ℕ
  pub message_value : List ℕ

unfoldable pub write_script_message_packet : ScriptMessagePacket → Writer
write_script_message_packet p = do write_string p.message_id; write_string p.message_value

unfoldable pub read_script_message_packet : Reader ScriptMessagePacket
read_script_message_packet = do
  message_id ← read_string
  message_value ← read_string
  pure (record { message_id = message_id; message_value = message_value })

-- The values of the fields' types, with no text or array longer than its length prefix.
pub record FitsScriptMessagePacket (p : ScriptMessagePacket) : Type 0 where
  pub message_id_fits : FitsText p.message_id
  pub message_value_fits : FitsText p.message_value

pub RoundTrips-script_message_packet :
    (p : ScriptMessagePacket)
    → FitsScriptMessagePacket p
    → RoundTrips (write_script_message_packet p) read_script_message_packet p
unfolding write_script_message_packet read_script_message_packet
RoundTrips-script_message_packet p h =
    RoundTrips-bind _ _ _ _ (RoundTrips-string p.message_id h.message_id_fits)
      (RoundTrips-last _ _ _ (RoundTrips-string p.message_value h.message_value_fits) refl)

-- `RemoveObjectivePacket`.
pub record RemoveObjectivePacket : Type 0 where
  pub objective_name : List ℕ

unfoldable pub write_remove_objective_packet : RemoveObjectivePacket → Writer
write_remove_objective_packet p = write_string p.objective_name

unfoldable pub read_remove_objective_packet : Reader RemoveObjectivePacket
read_remove_objective_packet = do
  objective_name ← read_string
  pure (record { objective_name = objective_name })

-- The values of the fields' types, with no text or array longer than its length prefix.
pub record FitsRemoveObjectivePacket (p : RemoveObjectivePacket) : Type 0 where
  pub objective_name_fits : FitsText p.objective_name

pub RoundTrips-remove_objective_packet :
    (p : RemoveObjectivePacket)
    → FitsRemoveObjectivePacket p
    → RoundTrips (write_remove_objective_packet p) read_remove_objective_packet p
unfolding write_remove_objective_packet read_remove_objective_packet
RoundTrips-remove_objective_packet p h =
    RoundTrips-last _ _ _ (RoundTrips-string p.objective_name h.objective_name_fits) refl

-- `SetDisplayObjectivePacket`.
pub record SetDisplayObjectivePacket : Type 0 where
  pub display_slot_name : List ℕ
  pub objective_name : List ℕ
  pub objective_display_name : List ℕ
  pub criteria_name : List ℕ
  pub sort_order : ℕ

unfoldable pub write_set_display_objective_packet : SetDisplayObjectivePacket → Writer
write_set_display_objective_packet p = do
  write_string p.display_slot_name
  write_string p.objective_name
  write_string p.objective_display_name
  write_string p.criteria_name
  write_enum uint8 int32 write_var_int p.sort_order

unfoldable pub read_set_display_objective_packet : Reader SetDisplayObjectivePacket
read_set_display_objective_packet = do
  display_slot_name ← read_string
  objective_name ← read_string
  objective_display_name ← read_string
  criteria_name ← read_string
  sort_order ← read_enum uint8 int32 read_var_int
  pure (record {
    display_slot_name = display_slot_name;
    objective_name = objective_name;
    objective_display_name = objective_display_name;
    criteria_name = criteria_name;
    sort_order = sort_order;
  })

-- The values of the fields' types, with no text or array longer than its length prefix.
pub record FitsSetDisplayObjectivePacket (p : SetDisplayObjectivePacket) : Type 0 where
  pub display_slot_name_fits : FitsText p.display_slot_name
  pub objective_name_fits : FitsText p.objective_name
  pub objective_display_name_fits : FitsText p.objective_display_name
  pub criteria_name_fits : FitsText p.criteria_name
  pub sort_order_fits : IsBits 8 p.sort_order

pub RoundTrips-set_display_objective_packet :
    (p : SetDisplayObjectivePacket)
    → FitsSetDisplayObjectivePacket p
    → RoundTrips (write_set_display_objective_packet p) read_set_display_objective_packet p
unfolding write_set_display_objective_packet read_set_display_objective_packet
RoundTrips-set_display_objective_packet p h =
    RoundTrips-bind _ _ _ _ (RoundTrips-string p.display_slot_name h.display_slot_name_fits) (
      RoundTrips-bind _ _ _ _ (RoundTrips-string p.objective_name h.objective_name_fits) (
        RoundTrips-bind _ _ _ _
          (RoundTrips-string p.objective_display_name h.objective_display_name_fits)
          (RoundTrips-bind _ _ _ _ (RoundTrips-string p.criteria_name h.criteria_name_fits) (
            RoundTrips-last _ _ _
              (RoundTrips-enum uint8 int32 _ _ p.sort_order
                (CastsBack-uint8-int32 p.sort_order h.sort_order_fits)
                (RoundTrips-var_int _ (static_cast-uint8-int32-lt p.sort_order h.sort_order_fits)))
              refl))))

-- `SettingsCommandPacket`.
pub record SettingsCommandPacket : Type 0 where
  pub command : List ℕ
  pub suppress_output : Bool

unfoldable pub write_settings_command_packet : SettingsCommandPacket → Writer
write_settings_command_packet p = do write_string p.command; write_bool p.suppress_output

unfoldable pub read_settings_command_packet : Reader SettingsCommandPacket
read_settings_command_packet = do
  command ← read_string
  suppress_output ← read_bool
  pure (record { command = command; suppress_output = suppress_output })

-- The values of the fields' types, with no text or array longer than its length prefix.
pub record FitsSettingsCommandPacket (p : SettingsCommandPacket) : Type 0 where
  pub command_fits : FitsText p.command

pub RoundTrips-settings_command_packet :
    (p : SettingsCommandPacket)
    → FitsSettingsCommandPacket p
    → RoundTrips (write_settings_command_packet p) read_settings_command_packet p
unfolding write_settings_command_packet read_settings_command_packet
RoundTrips-settings_command_packet p h =
    RoundTrips-bind _ _ _ _ (RoundTrips-string p.command h.command_fits)
      (RoundTrips-last _ _ _ (RoundTrips-bool p.suppress_output) refl)
