-- ===== src/Tests/Packets.antt =====
-- The theorems on packets at concrete inputs.
use beprotocol.Common.{
  [], ◌∷◌, arith, ◌++◌, ◌≡◌, ◌-◌, ◌^◌, refl, lt_wf, dec_lt, true, false, some, inl,
}
use beprotocol.Stream.{ReadOnlyBinaryStream, pure, ◌>>=◌, Outcome, ◌>>◌}
use beprotocol.Stream.RoundTrip.{ReadsBack}
use beprotocol.Stream.Fixed.{
  write_signed_char, write_bool, write_byte, write_word, write_bytes, write_signed_short,
  write_unsigned_int64, write_signed_int, write_signed_big_endian_int,
}
use beprotocol.Stream.Endian.{to_memory, to_little_endian, le_bytes, le_value, swap_endian}
use beprotocol.Stream.VarInt.{write_groups, write_unsigned_var_int, zigzag, write_var_int}
use beprotocol.Stream.Text.{write_string}
use beprotocol.Stream.Containers.{
  static_cast, write_enum, write_elements, write_array, write_optional, write_variant,
}
use beprotocol.Packet.Login.{write_login_packet}
use beprotocol.Packet.Types.{write_chunk_pos}
use beprotocol.Packet.Choices.{
  TextPacket, TextBody, text_body_index, visit_text_body, write_text_packet, read_text_packet,
}
use beprotocol.Packet.Chunk.{
  LevelChunkPacket, write_sub_chunks, write_cache_blobs, write_level_chunk_packet,
  read_level_chunk_packet,
}
use beprotocol.Packet.Rules.{
  GameRule, GameRulesChangedPacket, game_rule_index, visit_game_rule, write_rule_data,
  write_game_rule_data, write_game_rules_changed_packet, read_game_rules_changed_packet,
}
use beprotocol.Packet.Dispatch.{
  IPacket, PacketHeader, header_bits, write_packet_header, read_packet_header, write_header,
  write_with_header, read_and_create_packet_from_buffer,
}
use beprotocol.Packet.Dispatch.RoundTrip.{FitsPacket, read-write_with_header-extra}
use beprotocol.Packet.Nbt.{
  deserialize_compound, read_entries_tag, entries_of, Tag, Tags, Entries, get_type, serialize_tag,
  write_value_array, write_compound, read_compound, string_less,
}
use beprotocol.Packet.Nbt.Fuel.{deserialize_compound-fuel, read_compound-Moves}
use beprotocol.Stream.Safety.{Moves}
use beprotocol.Packet.Nbt.Fits.{FitsTag, FitsEntries}
use beprotocol.Packet.Nbt.ReadBack.{read_compound-write_compound}
use beprotocol.Packet.Tagged.{AddVolumeEntityPacket}
use beprotocol.Packet.Registry.{modelled_registry}
use beprotocol.Packet.Registry.Setup.{login_class}
use beprotocol.Packet.ReadBack.{
  read_and_create-write_with_header, read_packet_header-write_packet_header,
  read_text_packet-write_text_packet, read_level_chunk_packet-write_level_chunk_packet,
  read_game_rules_changed_packet-write_game_rules_changed_packet,
}
use mathlib.Core.List.{Memᴰ}

abbrev login : IPacket
login = record {
  packet_class = login_class;
  sender_sub_client_id = 1;
  target_sub_client_id = 2;
  state = record { network_version = 860; raw_connection_request = 123 ∷ (125 ∷ []) };
}

abbrev login_fits : FitsPacket login
login_fits = record {
  header_fits = record {
    id_fits = omega arith;
    sender_fits = omega arith;
    target_fits = omega arith;
  };
  state_fits = record {
    network_version_fits = omega arith;
    raw_connection_request_fits = omega arith;
  };
}

read_and_create-write_with_header_example :
    read_and_create_packet_from_buffer modelled_registry (write_with_header login [])
    ≡ Outcome.ok login
unfolding write_with_header write_header write_login_packet write_signed_big_endian_int swap_endian
    le_value write_string header_bits ◌>>◌ write_unsigned_var_int write_groups write_byte lt_wf
    dec_lt write_word write_bytes to_memory to_little_endian le_bytes
read_and_create-write_with_header_example =
    read_and_create-write_with_header login (Memᴰ.tail (Memᴰ.tail (Memᴰ.head refl))) login_fits
      (omega arith)

read-write_with_header-extra_example :
    read_and_create_packet_from_buffer
      (λ _. some login_class)
      (write_with_header login [] ++ (5 ∷ []))
    ≡ Outcome.err "Extra data left in buffer after reading packet"
unfolding write_with_header write_header write_login_packet write_signed_big_endian_int swap_endian
    le_value write_string header_bits ◌>>◌ write_unsigned_var_int write_groups write_byte lt_wf
    dec_lt write_word write_bytes to_memory to_little_endian le_bytes
read-write_with_header-extra_example =
    read-write_with_header-extra (λ _. some login_class) login refl login_fits 5 [] (omega arith)

abbrev text_header : PacketHeader
text_header = record { packet_id = 9; sender_sub_client_id = 3; target_sub_client_id = 0 }

read_packet_header-write_packet_header_example :
    ReadsBack (write_packet_header text_header) read_packet_header text_header (7 ∷ []) (9 ∷ [])
unfolding write_packet_header header_bits ◌>>◌ write_unsigned_var_int write_groups write_byte lt_wf
    dec_lt write_word write_bytes to_memory to_little_endian le_bytes
read_packet_header-write_packet_header_example =
    read_packet_header-write_packet_header text_header
      (record { id_fits = omega arith; sender_fits = omega arith; target_fits = omega arith })
      (7 ∷ []) (9 ∷ []) (omega arith)

abbrev text : TextPacket
text = record {
  localize = true;
  kind = 2;
  body = TextBody.message_and_params (37 ∷ []) ((65 ∷ []) ∷ ((66 ∷ []) ∷ []));
  xuid = [];
  platform_id = [];
  filtered_message = [];
}

read_text_packet-write_text_packet_example :
    ReadsBack (write_text_packet text) read_text_packet text (7 ∷ []) (9 ∷ [])
unfolding write_text_packet write_variant text_body_index visit_text_body write_array write_elements
    write_enum static_cast write_bool write_string ◌>>◌ write_unsigned_var_int write_groups
    write_byte lt_wf dec_lt write_word write_bytes to_memory to_little_endian le_bytes
read_text_packet-write_text_packet_example =
    read_text_packet-write_text_packet text
      (record {
        kind_fits = omega arith;
        body_fits = (omega arith, (omega arith, (omega arith, (omega arith, tt))));
        xuid_fits = omega arith;
        platform_id_fits = omega arith;
        filtered_message_fits = omega arith;
      })
      (7 ∷ []) (9 ∷ []) (omega arith)

abbrev chunk : LevelChunkPacket
chunk = record {
  position = record { x = 4; z = 2 ^ 32 - 1 };
  dimension_id = 0;
  is_chunk_in_tick_range = false;
  serialized_chunk = 8 ∷ [];
  sub_chunks_count = 0;
  client_needs_to_request_subchunks = true;
  client_request_sub_chunk_limit = 16;
  cache_blobs = some (77 ∷ []);
}

read_level_chunk_packet-write_level_chunk_packet_example :
    ReadsBack (write_level_chunk_packet chunk) read_level_chunk_packet chunk (7 ∷ []) (9 ∷ [])
unfolding write_level_chunk_packet write_chunk_pos write_var_int zigzag write_sub_chunks
    write_signed_short write_optional write_cache_blobs write_array write_elements static_cast
    write_unsigned_int64 write_bool write_string ◌>>◌ write_unsigned_var_int write_groups write_byte
    lt_wf dec_lt write_word write_bytes to_memory to_little_endian le_bytes
read_level_chunk_packet-write_level_chunk_packet_example =
    read_level_chunk_packet-write_level_chunk_packet chunk
      (record {
        position_fits = record { x_fits = omega arith; z_fits = omega arith };
        dimension_id_fits = omega arith;
        not_in_tick_range = refl;
        serialized_chunk_fits = omega arith;
        sub_chunks_fit = (refl, inl (omega arith));
        cache_blobs_fit = (omega arith, (omega arith, tt));
      })
      (7 ∷ []) (9 ∷ []) (omega arith)

abbrev rules : GameRulesChangedPacket
rules = record {
  game_rules =
      record { name = 97 ∷ []; can_be_modified_by_player = true; payload = GameRule.int_rule 3 }
      ∷ (record { name = 98 ∷ []; can_be_modified_by_player = false; payload = GameRule.no_rule }
          ∷ []);
}

read_game_rules_changed_packet-write_game_rules_changed_packet_example :
    ReadsBack
      (write_game_rules_changed_packet rules)
      read_game_rules_changed_packet
      rules
      (7 ∷ [])
      (9 ∷ [])
unfolding write_game_rules_changed_packet write_array write_elements static_cast
    write_game_rule_data write_rule_data write_variant game_rule_index visit_game_rule
    write_signed_int write_bool write_string ◌>>◌ write_unsigned_var_int write_groups write_byte
    lt_wf dec_lt write_word write_bytes to_memory to_little_endian le_bytes
read_game_rules_changed_packet-write_game_rules_changed_packet_example =
    read_game_rules_changed_packet-write_game_rules_changed_packet rules
      (record {
        game_rules_fit = (
          omega arith,
          (
            record { name_fits = omega arith; payload_fits = omega arith },
            (record { name_fits = omega arith; payload_fits = tt }, tt),
          ),
        );
      })
      (7 ∷ []) (9 ∷ []) (omega arith)

-- A number, a list of two bytes, and a compound with a text in it.
abbrev tags : Entries
tags = Entries.more_entries (97 ∷ []) (Tag.int_tag 5) (
    Entries.more_entries (98 ∷ [])
      (Tag.list_tag 1
        (Tags.more_tags (Tag.byte_tag 1) (Tags.more_tags (Tag.byte_tag 255) Tags.no_tags)))
      (Entries.more_entries (98 ∷ (97 ∷ []))
        (Tag.compound_tag (Entries.more_entries [] (Tag.string_tag (104 ∷ [])) Entries.no_entries))
        Entries.no_entries))

tags-FitsEntries : FitsEntries tags
unfolding FitsTag get_type string_less
tags-FitsEntries = (
  omega arith,
  omega arith,
  omega arith,
  (refl, (refl, tt)),
  (
    omega arith,
    omega arith,
    (omega arith, omega arith, (refl, omega arith, (refl, omega arith, tt))),
    (refl, tt),
    (omega arith, omega arith, (omega arith, omega arith, omega arith, tt, tt), tt, tt),
  ),
)

read_compound-write_compound_example :
    ReadsBack (write_compound tags) read_compound tags (7 ∷ []) (9 ∷ [])
unfolding write_compound serialize_tag get_type write_value_array write_enum static_cast
    write_signed_char write_var_int zigzag write_string ◌>>◌ write_unsigned_var_int write_groups
    write_byte lt_wf dec_lt write_word write_bytes to_memory to_little_endian le_bytes
read_compound-write_compound_example =
    read_compound-write_compound tags tags-FitsEntries (7 ∷ []) (9 ∷ []) (omega arith)

abbrev volume : AddVolumeEntityPacket
volume = record {
  entity_net_id = 3;
  components = Entries.more_entries (97 ∷ []) (Tag.int_tag 5) Entries.no_entries;
  json_identifier = 97 ∷ [];
  instance_name = 98 ∷ [];
  min_bounds = record { x = 1; y = 2; z = 3 };
  max_bounds = record { x = 4; y = 5; z = 6 };
  dimension_type = 0;
  engine_version = [];
}

-- A list of three elements of which no byte has come.
abbrev cut_off : ReadOnlyBinaryStream
cut_off = record {
  has_overflowed = false;
  buffer_view = 10 ∷ (0 ∷ (9 ∷ (1 ∷ (97 ∷ (1 ∷ (6 ∷ []))))));
  read_pointer = 0;
}

deserialize_compound-fuel_example :
    deserialize_compound (record cut_off { read_pointer = 2 })
    ≡ (read_entries_tag (some "") 18 [] >>= λ es. pure (entries_of es))
        (record cut_off { read_pointer = 2 })
deserialize_compound-fuel_example =
    deserialize_compound-fuel (some "") 10 (record cut_off { read_pointer = 2 })
      (omega arith, omega arith)

read_compound-Moves_example : Moves cut_off (read_compound cut_off).1
read_compound-Moves_example = read_compound-Moves cut_off (omega arith, omega arith)
