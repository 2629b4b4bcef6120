-- ===== src/Packet/Rules.antt =====
-- src/sculk/protocol/codec: game rules.
use beprotocol.Common.{ℕ, ◌<◌, ◌^◌, refl, List, length, All, Bool, [], ◌∷◌, arith}
use beprotocol.Stream.{Reader, Writer, pure, ◌>>=◌, ◌>>◌}
use beprotocol.Stream.RoundTrip.{RoundTrips, RoundTrips-bind, RoundTrips-last, RoundTrips-pure}
use beprotocol.Stream.Fixed.{
  write_bool, read_bool, write_float, read_float, write_signed_int, read_signed_int,
}
use beprotocol.Stream.Fixed.RoundTrip.{RoundTrips-bool, RoundTrips-float, RoundTrips-signed_int}
use beprotocol.Stream.VarInt.{write_unsigned_var_int, read_unsigned_var_int}
use beprotocol.Stream.VarInt.RoundTrip.{RoundTrips-unsigned_var_int}
use beprotocol.Stream.Text.{write_string, read_string, RoundTrips-string}
use beprotocol.Stream.Containers.{
  uint32, write_array, read_array, write_variant, read_variant, emplace_variant,
}
use beprotocol.Stream.Containers.RoundTrip.{RoundTrips-var_int_array, RoundTrips-variant}
use beprotocol.Packet.Fits.{FitsText, IsBits}

-- `std::variant<std::monostate, bool, int, float>` of a game rule.
pub data GameRule : Type 0 where
  no_rule : GameRule
  bool_rule : Bool → GameRule
  int_rule : ℕ → GameRule
  float_rule : ℕ → GameRule

pub record GameRuleData : Type 0 where
  pub name : List ℕ
  pub can_be_modified_by_player : Bool
  pub payload : GameRule

unfoldable pub game_rule_index : GameRule → ℕ
game_rule_index no_rule = 0
game_rule_index (bool_rule value) = 1
game_rule_index (int_rule value) = 2
game_rule_index (float_rule value) = 3

-- `GameRuleData::write` and `writeLevelSettings` differ in the codec of an `int`.
unfoldable pub visit_game_rule : (ℕ → Writer) → GameRule → Writer
visit_game_rule write_int no_rule = λ buffer. buffer
visit_game_rule write_int (bool_rule value) = write_bool value
visit_game_rule write_int (int_rule value) = write_int value
visit_game_rule write_int (float_rule value) = write_float value

unfoldable pub write_rule_data : (ℕ → Writer) → GameRuleData → Writer
write_rule_data write_int p = do
  write_string p.name
  write_bool p.can_be_modified_by_player
  write_variant uint32 write_unsigned_var_int (game_rule_index p.payload)
      (visit_game_rule write_int p.payload)

unfoldable pub read_rule_data : Reader ℕ → Reader GameRuleData
read_rule_data read_int = do
  name ← read_string
  can_be_modified_by_player ← read_bool
  payload ← read_variant uint32 read_unsigned_var_int (
      pure no_rule
      ∷ ((read_bool >>= λ value. pure (bool_rule value))
          ∷ ((read_int >>= λ value. pure (int_rule value))
              ∷ ((read_float >>= λ value. pure (float_rule value)) ∷ []))))
  pure (record {
    name = name;
    can_be_modified_by_player = can_be_modified_by_player;
    payload = payload;
  })

unfoldable pub write_game_rule_data : GameRuleData → Writer
write_game_rule_data = write_rule_data write_signed_int

unfoldable pub read_game_rule_data : Reader GameRuleData
read_game_rule_data = read_rule_data read_signed_int

unfoldable pub write_level_settings : GameRuleData → Writer
write_level_settings = write_rule_data write_unsigned_var_int

unfoldable pub read_level_settings : Reader GameRuleData
read_level_settings = read_rule_data read_unsigned_var_int

abbrev pub FitsGameRule : GameRule → Type 0
FitsGameRule no_rule = Unit
FitsGameRule (bool_rule value) = Unit
FitsGameRule (int_rule value) = IsBits 32 value
FitsGameRule (float_rule value) = IsBits 32 value

pub record FitsGameRuleData (p : GameRuleData) : Type 0 where
  pub name_fits : FitsText p.name
  pub payload_fits : FitsGameRule p.payload

module _ (write_int : ℕ → Writer) (read_int : Reader ℕ)
    (int_codec : (v : ℕ) → IsBits 32 v → RoundTrips (write_int v) read_int v) where
  RoundTrips-game_rule :
      (r : GameRule)
      → FitsGameRule r
      → RoundTrips
          (write_variant uint32 write_unsigned_var_int
            (game_rule_index r)
            (visit_game_rule write_int r))
          (read_variant uint32 read_unsigned_var_int (
            pure no_rule
            ∷ ((read_bool >>= λ value. pure (bool_rule value))
                ∷ ((read_int >>= λ value. pure (int_rule value))
                    ∷ ((read_float >>= λ value. pure (float_rule value)) ∷ [])))))
          r
  unfolding game_rule_index visit_game_rule emplace_variant
  RoundTrips-game_rule no_rule h =
      RoundTrips-variant _ 0 _ _ (omega arith) (RoundTrips-pure no_rule)
  RoundTrips-game_rule (bool_rule value) h =
      RoundTrips-variant _ 1 _ _ (omega arith) (RoundTrips-last _ _ _ (RoundTrips-bool value) refl)
  RoundTrips-game_rule (int_rule value) h =
      RoundTrips-variant _ 2 _ _ (omega arith) (RoundTrips-last _ _ _ (int_codec value h) refl)
  RoundTrips-game_rule (float_rule value) h =
      RoundTrips-variant _ 3 _ _ (omega arith)
        (RoundTrips-last _ _ _ (RoundTrips-float value h) refl)

  RoundTrips-rule_data :
      (p : GameRuleData)
      → FitsGameRuleData p
      → RoundTrips (write_rule_data write_int p) (read_rule_data read_int) p
  unfolding write_rule_data read_rule_data
  RoundTrips-rule_data p h = RoundTrips-bind _ _ _ _ (RoundTrips-string p.name h.name_fits) (
      RoundTrips-bind _ _ _ _ (RoundTrips-bool p.can_be_modified_by_player)
        (RoundTrips-last _ _ _ (RoundTrips-game_rule p.payload h.payload_fits) refl))

pub RoundTrips-game_rule_data :
    (p : GameRuleData)
    → FitsGameRuleData p
    → RoundTrips (write_game_rule_data p) read_game_rule_data p
unfolding write_game_rule_data read_game_rule_data
RoundTrips-game_rule_data p h = RoundTrips-rule_data _ _ RoundTrips-signed_int p h

pub RoundTrips-level_settings :
    (p : GameRuleData)
    → FitsGameRuleData p
    → RoundTrips (write_level_settings p) read_level_settings p
unfolding write_level_settings read_level_settings
RoundTrips-level_settings p h = RoundTrips-rule_data _ _ RoundTrips-unsigned_var_int p h

pub record GameRulesChangedPacket : Type 0 where
  pub game_rules : List GameRuleData

unfoldable pub write_game_rules_changed_packet : GameRulesChangedPacket → Writer
write_game_rules_changed_packet p =
    write_array uint32 write_unsigned_var_int write_game_rule_data p.game_rules

unfoldable pub read_game_rules_changed_packet : Reader GameRulesChangedPacket
read_game_rules_changed_packet = do
  game_rules ← read_array uint32 read_unsigned_var_int read_game_rule_data
  pure (record { game_rules = game_rules })

pub record FitsGameRulesChangedPacket (p : GameRulesChangedPacket) : Type 0 where
  pub game_rules_fit : (length p.game_rules < 2 ^ 32) × All FitsGameRuleData p.game_rules

pub RoundTrips-game_rules_changed_packet :
    (p : GameRulesChangedPacket)
    → FitsGameRulesChangedPacket p
    → RoundTrips (write_game_rules_changed_packet p) read_game_rules_changed_packet p
unfolding write_game_rules_changed_packet read_game_rules_changed_packet
RoundTrips-game_rules_changed_packet p h =
    RoundTrips-last _ _ _
      (RoundTrips-var_int_array FitsGameRuleData _ _ RoundTrips-game_rule_data p.game_rules
        h.game_rules_fit)
      refl
