-- ===== src/Packet/Status.antt =====
-- src/sculk/protocol/codec/packet: the packets that report on the session. A float is its bit pattern.
use beprotocol.Common.{ℕ, ◌<◌, ◌^◌, refl, List, length, All, Bool}
use beprotocol.Stream.{Reader, Writer, pure, ◌>>=◌, ◌>>◌}
use beprotocol.Stream.RoundTrip.{RoundTrips, RoundTrips-bind, RoundTrips-last}
use beprotocol.Stream.Fixed.{
  write_unsigned_int, read_unsigned_int, write_bool, read_bool, write_unsigned_short,
  read_unsigned_short, write_float, read_float, write_signed_int, read_signed_int,
  write_signed_short, read_signed_short,
}
use beprotocol.Stream.Fixed.RoundTrip.{
  RoundTrips-unsigned_int, RoundTrips-bool, RoundTrips-unsigned_short, RoundTrips-float,
  RoundTrips-signed_int, RoundTrips-signed_short,
}
use beprotocol.Stream.VarInt.{
  write_unsigned_var_int, read_unsigned_var_int, write_var_int, read_var_int, write_var_int64,
  read_var_int64,
}
use beprotocol.Stream.VarInt.RoundTrip.{RoundTrips-var_int, RoundTrips-var_int64}
use beprotocol.Stream.Text.{write_string, read_string, RoundTrips-string}
use beprotocol.Stream.Containers.{
  int8, uint8, uint16, int32, uint32, write_enum, read_enum, write_array, read_array,
}
use beprotocol.Stream.Containers.RoundTrip.{
  RoundTrips-enum, RoundTrips-var_int_array, CastsBack-int8-int32, CastsBack-uint8-int32,
  CastsBack-uint8-uint32, CastsBack-uint16-int32, static_cast-int8-int32-lt,
  static_cast-uint8-int32-lt, static_cast-uint8-uint32-lt, static_cast-uint16-int32-lt,
}
use beprotocol.Packet.Fits.{FitsText, IsBits}

-- `TransferPacket`.
pub record TransferPacket : Type 0 where
  pub server_address : List ℕ
  pub server_port : ℕ
  pub reload_world : Bool

unfoldable pub write_transfer_packet : TransferPacket → Writer
write_transfer_packet p = do
  write_string p.server_address
  write_unsigned_short p.server_port
  write_bool p.reload_world

unfoldable pub read_transfer_packet : Reader TransferPacket
read_transfer_packet = do
  server_address ← read_string
  server_port ← read_unsigned_short
  reload_world ← read_bool
  pure (record {
    server_address = server_address;
    server_port = server_port;
    reload_world = reload_world;
  })

-- The values of the fields' types, with no text or array longer than its length prefix.
pub record FitsTransferPacket (p : TransferPacket) : Type 0 where
  pub server_address_fits : FitsText p.server_address
  pub server_port_fits : IsBits 16 p.server_port

pub RoundTrips-transfer_packet :
    (p : TransferPacket)
    → FitsTransferPacket p
    → RoundTrips (write_transfer_packet p) read_transfer_packet p
unfolding write_transfer_packet read_transfer_packet
RoundTrips-transfer_packet p h =
    RoundTrips-bind _ _ _ _ (RoundTrips-string p.server_address h.server_address_fits) (
      RoundTrips-bind _ _ _ _ (RoundTrips-unsigned_short p.server_port h.server_port_fits)
        (RoundTrips-last _ _ _ (RoundTrips-bool p.reload_world) refl))

-- `PacketViolationWarningPacket`.
pub record PacketViolationWarningPacket : Type 0 where
  pub kind : ℕ
  pub severity : ℕ
  pub packet_id : ℕ
  pub context : List ℕ

unfoldable pub write_packet_violation_warning_packet : PacketViolationWarningPacket → Writer
write_packet_violation_warning_packet p = do
  write_enum int8 int32 write_var_int p.kind
  write_enum int8 int32 write_var_int p.severity
  write_enum uint16 int32 write_var_int p.packet_id
  write_string p.context

unfoldable pub read_packet_violation_warning_packet : Reader PacketViolationWarningPacket
read_packet_violation_warning_packet = do
  kind ← read_enum int8 int32 read_var_int
  severity ← read_enum int8 int32 read_var_int
  packet_id ← read_enum uint16 int32 read_var_int
  context ← read_string
  pure (record { kind = kind; severity = severity; packet_id = packet_id; context = context })

-- The values of the fields' types, with no text or array longer than its length prefix.
pub record FitsPacketViolationWarningPacket (p : PacketViolationWarningPacket) : Type 0 where
  pub kind_fits : IsBits 8 p.kind
  pub severity_fits : IsBits 8 p.severity
  pub packet_id_fits : IsBits 16 p.packet_id
  pub context_fits : FitsText p.context

pub RoundTrips-packet_violation_warning_packet :
    (p : PacketViolationWarningPacket)
    → FitsPacketViolationWarningPacket p
    → RoundTrips (write_packet_violation_warning_packet p) read_packet_violation_warning_packet p
unfolding write_packet_violation_warning_packet read_packet_violation_warning_packet
RoundTrips-packet_violation_warning_packet p h =
    RoundTrips-bind _ _ _ _
      (RoundTrips-enum int8 int32 _ _ p.kind (CastsBack-int8-int32 p.kind h.kind_fits)
        (RoundTrips-var_int _ (static_cast-int8-int32-lt p.kind h.kind_fits)))
      (RoundTrips-bind _ _ _ _
        (RoundTrips-enum int8 int32 _ _ p.severity (CastsBack-int8-int32 p.severity h.severity_fits)
          (RoundTrips-var_int _ (static_cast-int8-int32-lt p.severity h.severity_fits)))
        (RoundTrips-bind _ _ _ _
          (RoundTrips-enum uint16 int32 _ _ p.packet_id
            (CastsBack-uint16-int32 p.packet_id h.packet_id_fits)
            (RoundTrips-var_int _ (static_cast-uint16-int32-lt p.packet_id h.packet_id_fits)))
          (RoundTrips-last _ _ _ (RoundTrips-string p.context h.context_fits) refl)))

-- `DebugInfoPacket`.
pub record DebugInfoPacket : Type 0 where
  pub actor_unique_id : ℕ
  pub payload : List ℕ

unfoldable pub write_debug_info_packet : DebugInfoPacket → Writer
write_debug_info_packet p = do write_var_int64 p.actor_unique_id; write_string p.payload

unfoldable pub read_debug_info_packet : Reader DebugInfoPacket
read_debug_info_packet = do
  actor_unique_id ← read_var_int64
  payload ← read_string
  pure (record { actor_unique_id = actor_unique_id; payload = payload })

-- The values of the fields' types, with no text or array longer than its length prefix.
pub record FitsDebugInfoPacket (p : DebugInfoPacket) : Type 0 where
  pub actor_unique_id_fits : IsBits 64 p.actor_unique_id
  pub payload_fits : FitsText p.payload

pub RoundTrips-debug_info_packet :
    (p : DebugInfoPacket)
    → FitsDebugInfoPacket p
    → RoundTrips (write_debug_info_packet p) read_debug_info_packet p
unfolding write_debug_info_packet read_debug_info_packet
RoundTrips-debug_info_packet p h =
    RoundTrips-bind _ _ _ _ (RoundTrips-var_int64 p.actor_unique_id h.actor_unique_id_fits)
      (RoundTrips-last _ _ _ (RoundTrips-string p.payload h.payload_fits) refl)

-- `CompletedUsingItemPacket`.
pub record CompletedUsingItemPacket : Type 0 where
  pub item_id : ℕ
  pub use_method : ℕ

unfoldable pub write_completed_using_item_packet : CompletedUsingItemPacket → Writer
write_completed_using_item_packet p = do write_signed_short p.item_id; write_signed_int p.use_method

unfoldable pub read_completed_using_item_packet : Reader CompletedUsingItemPacket
read_completed_using_item_packet = do
  item_id ← read_signed_short
  use_method ← read_signed_int
  pure (record { item_id = item_id; use_method = use_method })

-- The values of the fields' types, with no text or array longer than its length prefix.
pub record FitsCompletedUsingItemPacket (p : CompletedUsingItemPacket) : Type 0 where
  pub item_id_fits : IsBits 16 p.item_id
  pub use_method_fits : IsBits 32 p.use_method

pub RoundTrips-completed_using_item_packet :
    (p : CompletedUsingItemPacket)
    → FitsCompletedUsingItemPacket p
    → RoundTrips (write_completed_using_item_packet p) read_completed_using_item_packet p
unfolding write_completed_using_item_packet read_completed_using_item_packet
RoundTrips-completed_using_item_packet p h =
    RoundTrips-bind _ _ _ _ (RoundTrips-signed_short p.item_id h.item_id_fits)
      (RoundTrips-last _ _ _ (RoundTrips-signed_int p.use_method h.use_method_fits) refl)

-- `LessonProgressPacket`.
pub record LessonProgressPacket : Type 0 where
  pub action : ℕ
  pub score : ℕ
  pub activity_id : List ℕ

unfoldable pub write_lesson_progress_packet : LessonProgressPacket → Writer
write_lesson_progress_packet p = do
  write_enum uint8 int32 write_var_int p.action
  write_var_int p.score
  write_string p.activity_id

unfoldable pub read_lesson_progress_packet : Reader LessonProgressPacket
read_lesson_progress_packet = do
  action ← read_enum uint8 int32 read_var_int
  score ← read_var_int
  activity_id ← read_string
  pure (record { action = action; score = score; activity_id = activity_id })

-- The values of the fields' types, with no text or array longer than its length prefix.
pub record FitsLessonProgressPacket (p : LessonProgressPacket) : Type 0 where
  pub action_fits : IsBits 8 p.action
  pub score_fits : IsBits 32 p.score
  pub activity_id_fits : FitsText p.activity_id

pub RoundTrips-lesson_progress_packet :
    (p : LessonProgressPacket)
    → FitsLessonProgressPacket p
    → RoundTrips (write_lesson_progress_packet p) read_lesson_progress_packet p
unfolding write_lesson_progress_packet read_lesson_progress_packet
RoundTrips-lesson_progress_packet p h =
    RoundTrips-bind _ _ _ _
      (RoundTrips-enum uint8 int32 _ _ p.action (CastsBack-uint8-int32 p.action h.action_fits)
        (RoundTrips-var_int _ (static_cast-uint8-int32-lt p.action h.action_fits)))
      (RoundTrips-bind _ _ _ _ (RoundTrips-var_int p.score h.score_fits)
        (RoundTrips-last _ _ _ (RoundTrips-string p.activity_id h.activity_id_fits) refl))

-- `ChangeMobPropertyPacket`.
pub record ChangeMobPropertyPacket : Type 0 where
  pub actor_unique_id : ℕ
  pub property_name : List ℕ
  pub bool_vaue : Bool
  pub string_value : List ℕ
  pub int_value : ℕ
  pub float_value : ℕ

unfoldable pub write_change_mob_property_packet : ChangeMobPropertyPacket → Writer
write_change_mob_property_packet p = do
  write_var_int64 p.actor_unique_id
  write_string p.property_name
  write_bool p.bool_vaue
  write_string p.string_value
  write_var_int p.int_value
  write_float p.float_value

unfoldable pub read_change_mob_property_packet : Reader ChangeMobPropertyPacket
read_change_mob_property_packet = do
  actor_unique_id ← read_var_int64
  property_name ← read_string
  bool_vaue ← read_bool
  string_value ← read_string
  int_value ← read_var_int
  float_value ← read_float
  pure (record {
    actor_unique_id = actor_unique_id;
    property_name = property_name;
    bool_vaue = bool_vaue;
    string_value = string_value;
    int_value = int_value;
    float_value = float_value;
  })

-- The values of the fields' types, with no text or array longer than its length prefix.
pub record FitsChangeMobPropertyPacket (p : ChangeMobPropertyPacket) : Type 0 where
  pub actor_unique_id_fits : IsBits 64 p.actor_unique_id
  pub property_name_fits : FitsText p.property_name
  pub string_value_fits : FitsText p.string_value
  pub int_value_fits : IsBits 32 p.int_value
  pub float_value_fits : IsBits 32 p.float_value

pub RoundTrips-change_mob_property_packet :
    (p : ChangeMobPropertyPacket)
    → FitsChangeMobPropertyPacket p
    → RoundTrips (write_change_mob_property_packet p) read_change_mob_property_packet p
unfolding write_change_mob_property_packet read_change_mob_property_packet
RoundTrips-change_mob_property_packet p h =
    RoundTrips-bind _ _ _ _ (RoundTrips-var_int64 p.actor_unique_id h.actor_unique_id_fits) (
      RoundTrips-bind _ _ _ _ (RoundTrips-string p.property_name h.property_name_fits) (
        RoundTrips-bind _ _ _ _ (RoundTrips-bool p.bool_vaue) (
          RoundTrips-bind _ _ _ _ (RoundTrips-string p.string_value h.string_value_fits) (
            RoundTrips-bind _ _ _ _ (RoundTrips-var_int p.int_value h.int_value_fits)
              (RoundTrips-last _ _ _ (RoundTrips-float p.float_value h.float_value_fits) refl)))))

-- `UnlockedRecipesPacket`.
pub record UnlockedRecipesPacket : Type 0 where
  pub packet_type : ℕ
  pub unlocked_recipes_list : List (List ℕ)

unfoldable pub write_unlocked_recipes_packet : UnlockedRecipesPacket → Writer
write_unlocked_recipes_packet p = do
  write_enum uint8 uint32 write_unsigned_int p.packet_type
  write_array uint32 write_unsigned_var_int write_string p.unlocked_recipes_list

unfoldable pub read_unlocked_recipes_packet : Reader UnlockedRecipesPacket
read_unlocked_recipes_packet = do
  packet_type ← read_enum uint8 uint32 read_unsigned_int
  unlocked_recipes_list ← read_array uint32 read_unsigned_var_int read_string
  pure (record { packet_type = packet_type; unlocked_recipes_list = unlocked_recipes_list })

-- The values of the fields' types, with no text or array longer than its length prefix.
pub record FitsUnlockedRecipesPacket (p : UnlockedRecipesPacket) : Type 0 where
  pub packet_type_fits : IsBits 8 p.packet_type
  pub unlocked_recipes_list_fits :
      (length p.unlocked_recipes_list < 2 ^ 32) × All FitsText p.unlocked_recipes_list

pub RoundTrips-unlocked_recipes_packet :
    (p : UnlockedRecipesPacket)
    → FitsUnlockedRecipesPacket p
    → RoundTrips (write_unlocked_recipes_packet p) read_unlocked_recipes_packet p
unfolding write_unlocked_recipes_packet read_unlocked_recipes_packet
RoundTrips-unlocked_recipes_packet p h =
    RoundTrips-bind _ _ _ _
      (RoundTrips-enum uint8 uint32 _ _ p.packet_type
        (CastsBack-uint8-uint32 p.packet_type h.packet_type_fits)
        (RoundTrips-unsigned_int _ (static_cast-uint8-uint32-lt p.packet_type h.packet_type_fits)))
      (RoundTrips-last _ _ _
        (RoundTrips-var_int_array FitsText _ _ RoundTrips-string p.unlocked_recipes_list
          h.unlocked_recipes_list_fits)
        refl)
