-- ===== src/Tests/Servers.antt =====
-- The theorems on a server at concrete inputs.
use beprotocol.Common.{
  List, [], ◌∷◌, arith, ◌≡◌, ◌≤◌, ◌<◌, ◌*◌, ◌+◌, ◌%◌, ◌⊎◌, refl, lt_wf, dec_lt, true, false, none,
  some,
}
use beprotocol.Connection.Schedule.{
  Command, later, push, find_token, erase_token, create_schedule, apply_command, is_token,
  is_current, take_top, take_due, Event, happen, run, flush_interval, next_scheduled_flush_due,
}
use beprotocol.Connection.Schedule.Agenda.{pending_with, pending, agenda, pending-run}
use beprotocol.Connection.Schedule.Earliest.{Finds, take_due-earliest, next_scheduled_flush_due_lem}
use beprotocol.Connection.Ingress.{
  Limits, renew_window, admit, CallbackSet, Holder, Effect, Context, process_session_packet,
}
use beprotocol.Connection.Ingress.Delivery.{IsSendable, process_session_packet-serialize}
use beprotocol.Connection.Ingress.Refusal.{refusal, process_session_packet-refused}
use beprotocol.Connection.Envelope.{
  Session, compress_as, compress_batch, encrypt_batch, serialize_batched_packets,
}
use beprotocol.Connection.Batch.{write_framed, write_batch}
use beprotocol.Packet.Dispatch.{IPacket, header_bits, write_header, write_with_header}
use beprotocol.Packet.World.{write_set_time_packet}
use beprotocol.Packet.Registry.{find_class, modelled_registry}
use beprotocol.Packet.Registry.Level.{set_time_class}
use beprotocol.Stream.{◌>>◌}
use beprotocol.Stream.Fixed.{write_signed_char, write_byte, write_word, write_bytes}
use beprotocol.Stream.Endian.{to_memory, to_little_endian, le_bytes}
use beprotocol.Stream.VarInt.{write_groups, write_unsigned_var_int, zigzag, write_var_int}
use beprotocol.Stream.Containers.{static_cast, write_enum}
use beprotocol.Tests.Sessions.{toy_libraries, toy_zlib_laws, toy_snappy_laws, toy_mode}
use mathlib.Core.Bool.{false≢true}
use beprotocol.Connection.Ingress.Limit.{taken_since, IsClock, taken_since-limit}

-- Two clients, one of which is put off.
abbrev put_off : List Event
put_off =
    Event.drain (Command.plan 1 20)
    ∷ (Event.drain (Command.plan 2 30)
        ∷ (Event.drain (Command.plan 1 40) ∷ (Event.tick 25 ∷ (Event.tick 35 ∷ []))))

pending-run_example :
    pending (run put_off create_schedule) 1 ≡ agenda put_off create_schedule (λ _. none) 1
pending-run_example = pending-run put_off 1 (omega arith)

take_due-earliest_example : let s = run put_off create_schedule in Finds 45 40 s (take_due 45 s)
take_due-earliest_example = take_due-earliest put_off (omega arith) 45 1 40 (
    unfold pending run happen apply_command create_schedule push later find_token erase_token
      take_due take_top is_current is_token pending_with in
    refl)

next_scheduled_flush_due_lem_example :
    let next = next_scheduled_flush_due 5 70000000 in
    (70000000 < next)
    × (next % flush_interval ≡ 5 % flush_interval)
    × ((next ≡ 5 + flush_interval) ⊎ (next ≤ 70000000 + flush_interval))
next_scheduled_flush_due_lem_example = next_scheduled_flush_due_lem 5 70000000

taken_since-limit_example :
    taken_since
      (record { max_packet_bytes = 100; max_packets_per_second = 1 })
      5
      (record { start = 0; packets = 0 })
      (1 ∷ (5 ∷ (1000000002 ∷ [])))
    ≤ 2 * 1
taken_since-limit_example =
    taken_since-limit (record { max_packet_bytes = 100; max_packets_per_second = 1 }) 5 1
      (record { start = 0; packets = 0 }) (1 ∷ (5 ∷ (1000000002 ∷ []))) (omega arith) (omega arith)
      (unfold IsClock in (omega arith, (omega arith, (omega arith, tt))))

abbrev plain : Session toy_libraries
plain = record { compression_type = some 1; compression_threshold = 256; encryption = none }

abbrev server_context : Context modelled_registry toy_libraries 21 22
server_context = record {
  session = plain;
  window = record { start = 0; packets = 0 };
  holder = Holder.itself;
}

-- A server that wants packets and has no other callback.
abbrev wants_packets : CallbackSet
wants_packets = record {
  on_disconnected = false;
  on_packet_receive = true;
  on_packet_parse_failed = false;
  on_raw_packet_receive = none;
  on_raw_ingress_limit_exceeded = none;
}

abbrev some_limits : Limits
some_limits = record { max_packet_bytes = 100; max_packets_per_second = 1 }

abbrev noon : IPacket
noon = record {
  packet_class = set_time_class;
  sender_sub_client_id = 0;
  target_sub_client_id = 0;
  state = record { time = 5 };
}

noon-IsSendable : IsSendable modelled_registry noon
unfolding modelled_registry find_class write_with_header write_header header_bits
    write_set_time_packet write_var_int zigzag ◌>>◌ write_unsigned_var_int write_groups write_byte
    lt_wf dec_lt write_word write_bytes to_memory to_little_endian le_bytes
noon-IsSendable = record {
  registered = refl;
  packet_fits = record {
    header_fits = record {
      id_fits = omega arith;
      sender_fits = omega arith;
      target_fits = omega arith;
    };
    state_fits = record { time_fits = omega arith };
  };
  short = omega arith;
}

process_session_packet-serialize_example :
    (process_session_packet modelled_registry toy_libraries 21 22 some_limits wants_packets 7 0xfe
      (255 ∷ (2 ∷ (10 ∷ (10 ∷ []))))
      server_context).0
    ≡ Effect.received noon ∷ []
unfolding admit renew_window serialize_batched_packets encrypt_batch compress_batch compress_as
    write_enum static_cast write_signed_char write_batch write_framed write_with_header write_header
    header_bits write_set_time_packet write_var_int zigzag ◌>>◌ write_unsigned_var_int write_groups
    write_byte lt_wf dec_lt write_word write_bytes to_memory to_little_endian le_bytes
process_session_packet-serialize_example =
    process_session_packet-serialize modelled_registry toy_libraries toy_zlib_laws toy_snappy_laws
      toy_mode 21 22 refl refl some_limits wants_packets 7 plain server_context (noon ∷ [])
      (255 ∷ (2 ∷ (10 ∷ (10 ∷ [])))) refl refl refl (omega arith) (omega arith) refl tt
      (noon-IsSendable, tt) (omega arith) (λ type e h. absurd (false≢true h)) (omega arith) tt refl

process_session_packet-refused_example :
    let r =
      process_session_packet modelled_registry toy_libraries 21 22 some_limits wants_packets 7 0xfe
        (1 ∷ [])
        (record server_context { window = record { start = 6; packets = 1 } }) in
    (r.0 ≡ refusal none 2 r.1.window.packets Holder.itself)
    × (r.1.session ≡ plain)
    × (r.1.window.packets ≤ 1)
unfolding admit renew_window
process_session_packet-refused_example =
    process_session_packet-refused modelled_registry toy_libraries 21 22 some_limits wants_packets 7
      0xfe (1 ∷ []) (record server_context { window = record { start = 6; packets = 1 } }) refl
