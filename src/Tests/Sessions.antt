-- ===== src/Tests/Sessions.antt =====
-- The theorems on sessions at concrete inputs.
use beprotocol.Common.{
  ℕ, List, [], ◌∷◌, arith, ◌++◌, length, ◌≡◌, refl, ap, sym, suc, lt_wf, dec_lt, true, false, ◌≤◌,
  ◌+◌, Option, none, some, inl, inr, if◌then◌else◌, ltb, lt→ltb, take, drop, subst, ◌⊎◌,
}
use beprotocol.Stream.{Outcome, ◌>>◌}
use beprotocol.Stream.Fixed.{write_byte, write_word, write_bytes}
use beprotocol.Stream.Endian.{to_memory, to_little_endian, le_bytes}
use beprotocol.Stream.VarInt.{write_groups, write_unsigned_var_int}
use beprotocol.Connection.Batch.{write_framed, write_batch, parse_batch, parse_batch-write_batch}
use beprotocol.Connection.Batch.Total.{parse_batch-returns}
use beprotocol.Connection.Crypto.{OpenSsl, is_key_size, create_manager, zeros}
use beprotocol.Connection.Crypto.InStep.{CtrMode, Synced}
use beprotocol.Connection.Crypto.Exchange.{conversation, conversation-create_manager}
use beprotocol.Connection.Compression.{
  SnappyLibrary, SnappyLaws, snappy_compress, snappy_decompress, snappy_decompress-snappy_compress,
}
use beprotocol.Connection.Zlib.{Status, ZlibLibrary, inflate_rounds, zlib_compress, zlib_decompress}
use beprotocol.Connection.Zlib.Fuel.{inflate_rounds-fuel}
use beprotocol.Connection.Zlib.RoundTrip.{Gives, ZlibLaws, zlib_decompress-zlib_compress}
use beprotocol.Connection.Envelope.{Libraries, Session}
use beprotocol.Connection.Outbound.{
  flush_if_due, Run, after_send, after_drain, Step, Steps, InOrder, InOrder-Steps,
}
use beprotocol.Connection.Strand.{
  Move, create_strand, enabled, begin_enqueue, exchange, try_dequeue, check_size, act, step, play,
}
use beprotocol.Connection.Strand.Exclusion.{owners, running-alone, pending_tasks-counts}
use beprotocol.Connection.Strand.Progress.{
  measure, IsQuiet, IsInternalRun, IsExact, IsExactRun, quiet-tasks,
}
use mathlib.Core.Bool.{false≢true}
use mathlib.Core.List.{map}

abbrev batched : List (List ℕ)
batched = (1 ∷ (2 ∷ [])) ∷ ((3 ∷ []) ∷ [])

parse_batch-write_batch_example : parse_batch (write_batch batched []) ≡ Outcome.ok batched
unfolding write_batch write_framed ◌>>◌ write_unsigned_var_int write_groups write_byte lt_wf dec_lt
    write_word write_bytes to_memory to_little_endian le_bytes
parse_batch-write_batch_example =
    parse_batch-write_batch batched (omega arith, (omega arith, tt)) (omega arith)

parse_batch-returns_example : ¬ (parse_batch (255 ∷ (1 ∷ [])) ≡ Outcome.fault)
parse_batch-returns_example = parse_batch-returns (255 ∷ (1 ∷ [])) (omega arith)

-- A cipher in counter mode whose key stream is zero: a context is the number of updates.
abbrev pub toy_ssl : OpenSsl
toy_ssl = record {
  Context = ℕ;
  cipher_new = some 0;
  cipher_init = λ c key block encrypt. (true, c);
  cipher_update = λ c bytes n. (some bytes, suc c);
  sha256 = λ bytes. some (length bytes ∷ bytes);
}

abbrev pub toy_mode : CtrMode toy_ssl
toy_mode = record {
  InStep = λ c d. c ≡ d;
  fresh = 0;
  is_fresh = refl;
  starts = λ key block h. (refl, refl, refl);
  updates = λ c d clear h some_byte small. (clear, refl, refl, refl, ap suc h);
}

-- A compression that puts the length before the bytes.
abbrev toy_uncompress : List ℕ → Option (List ℕ)
toy_uncompress [] = none
toy_uncompress (n ∷ rest) = some rest

abbrev toy_length : List ℕ → Option ℕ
toy_length [] = none
toy_length (n ∷ rest) = some n

abbrev pub toy_snappy : SnappyLibrary
toy_snappy = record {
  raw_compress = λ bytes. length bytes ∷ bytes;
  uncompressed_length = toy_length;
  raw_uncompress = λ bytes size. toy_uncompress bytes;
}

abbrev pub toy_snappy_laws : SnappyLaws toy_snappy
toy_snappy_laws = record {
  nonempty = λ input. omega arith;
  carries_length = λ input small. refl;
  undoes = λ input small. refl;
}

-- A zlib that leaves bytes as they are: a stream is what it has still to put out.
abbrev toy_status : ℕ → List ℕ → Status
toy_status n rest = if ltb (length rest) n then Status.stream_end else Status.ok

abbrev toy_puts_out : List ℕ → ℕ → Status × (List ℕ × List ℕ)
toy_puts_out rest n = (toy_status n rest, (take n rest, drop n rest))

abbrev pub toy_zlib : ZlibLibrary
toy_zlib = record {
  Stream = List ℕ;
  deflate_init2 = some [];
  inflate_init2 = some [];
  with_input = λ strm input. input;
  deflate = toy_puts_out;
  inflate = toy_puts_out;
}

not_below : (a b : ℕ) → b ≤ a → ltb a b ≡ false
not_below a b h = ground arith

pub toy_puts_out-Gives :
    (s rest : List ℕ) (n : ℕ) → s ≡ rest → Gives (λ (a b : List ℕ). a ≡ b) n rest (toy_puts_out s n)
toy_puts_out-Gives s rest n h = record {
  chunk = ap (take n) h;
  left = ap (drop n) h;
  status =
      subst
        (λ (t : List ℕ).
          (toy_status n t ≡ Status.stream_end) ⊎ ((toy_status n t ≡ Status.ok) × (n ≤ length rest)))
        (sym h)
        (elim (dec_lt (length rest) n) [
          | yes part ↦ inl (rw (lt→ltb _ _ part) refl)
          | no full ↦ inr (rw (not_below (length rest) n (omega arith)) refl, omega arith)
        ]);
}

abbrev pub toy_zlib_laws : ZlibLaws toy_zlib
toy_zlib_laws = record {
  deflated = λ input. input;
  bound = λ input. omega arith;
  Deflating = λ a b. a ≡ b;
  Inflating = λ a b. a ≡ b;
  deflate_stream = [];
  deflate_starts = refl;
  deflates = λ input small. refl;
  deflate_gives = λ s rest n some_room h. toy_puts_out-Gives s rest n h;
  inflate_stream = [];
  inflate_starts = refl;
  inflates = λ input small. refl;
  inflate_gives = λ s rest n some_room h. toy_puts_out-Gives s rest n h;
}

inflate_rounds-fuel_example :
    inflate_rounds toy_zlib (Status.data_error, []) 2000 (1 ∷ (2 ∷ [])) []
    ≡ inflate_rounds toy_zlib (Status.other, []) 1026 (1 ∷ (2 ∷ [])) []
inflate_rounds-fuel_example =
    inflate_rounds-fuel toy_zlib (Status.data_error, []) 2000 (1 ∷ (2 ∷ [])) (omega arith)

zlib_decompress-zlib_compress_example :
    zlib_decompress toy_zlib (zlib_compress toy_zlib (1 ∷ (2 ∷ []))) ≡ Outcome.ok (1 ∷ (2 ∷ []))
zlib_decompress-zlib_compress_example =
    zlib_decompress-zlib_compress toy_zlib toy_zlib_laws (1 ∷ (2 ∷ [])) (omega arith)

abbrev pub toy_libraries : Libraries
toy_libraries = record { ssl = toy_ssl; zlib = toy_zlib; snappy = toy_snappy }

abbrev toy_session : Session toy_libraries
toy_session = record {
  compression_type = some 1;
  compression_threshold = 2;
  encryption = some (create_manager toy_ssl (zeros 16));
}

abbrev toy_synced :
    Synced toy_mode (create_manager toy_ssl (zeros 16)) (create_manager toy_ssl (zeros 16))
toy_synced =
    unfold create_manager is_key_size in
    record {
      same_key = refl;
      same_block = refl;
      key_size = refl;
      same_counter = refl;
      contexts = tt;
    }

conversation-create_manager_example :
    conversation toy_ssl
      (create_manager toy_ssl (zeros 16))
      (create_manager toy_ssl (zeros 16))
      batched
    ≡ map Outcome.ok batched
conversation-create_manager_example =
    conversation-create_manager toy_ssl toy_mode (zeros 16) batched (unfold is_key_size in refl)
      (omega arith, (omega arith, tt))

snappy_decompress-snappy_compress_example :
    snappy_decompress toy_snappy (snappy_compress toy_snappy (1 ∷ (2 ∷ [])))
    ≡ Outcome.ok (1 ∷ (2 ∷ []))
snappy_decompress-snappy_compress_example =
    snappy_decompress-snappy_compress toy_snappy toy_snappy_laws (1 ∷ (2 ∷ [])) (omega arith)
      (omega arith)

abbrev idle : Run
idle = record {
  queue = record { connected = true; has_peer = true; next_flush_at = 20; outbound_packets = [] };
  accepted = [];
  drained = [];
  handed_on = [];
}

-- A packet, a flush that is due, and a packet while the flush is under way.
abbrev one_sent : Run
one_sent = after_send (1 ∷ []) idle

abbrev flushing : Run
flushing = after_drain (flush_if_due 25 one_sent.queue) one_sent

abbrev busy : Run
busy = after_send (2 ∷ []) flushing

InOrder-Steps_example :
    InOrder (record busy { drained = []; handed_on = busy.handed_on ++ busy.drained })
InOrder-Steps_example =
    InOrder-Steps idle (record busy { drained = []; handed_on = busy.handed_on ++ busy.drained })
      (Steps.next (Step.sends (1 ∷ []) idle) (
        Steps.next (Step.flushes_if_due 25 one_sent refl) (
          Steps.next (Step.sends (2 ∷ []) flushing)
            (Steps.next (Step.hands_on busy) (Steps.done _)))))
      (record { in_order = refl })

-- Two threads bring a task each to a strand for two; one of them is run while the other waits.
abbrev two_callers : List Move
two_callers =
    Move.enqueue
    ∷ (Move.enqueue
        ∷ (Move.push
            ∷ (Move.push
                ∷ (Move.schedule
                    ∷ (Move.schedule ∷ (Move.submit ∷ (Move.start ∷ (Move.dequeue ∷ []))))))))

-- It is finished, the other is run, and the strand comes to rest.
abbrev to_rest : List Move
to_rest =
    Move.finish
    ∷ (Move.dequeue ∷ (Move.finish ∷ (Move.dequeue ∷ (Move.store ∷ (Move.check 0 ∷ [])))))

running-alone_example : owners (play true (create_strand 2 false) two_callers) ≤ 1
running-alone_example = running-alone 2 false two_callers

pending_tasks-counts_example :
    let r = play true (create_strand 2 false) two_callers in
    (r.strand.pending_tasks ≡ r.strand.tasks + r.running + r.admitted + r.rejecting)
    × (r.strand.tasks + r.running + r.admitted ≤ 2)
pending_tasks-counts_example = pending_tasks-counts true 2 two_callers

at_rest-IsQuiet : IsQuiet true (play true (play true (create_strand 2 false) two_callers) to_rest)
unfolding play step enabled act create_strand begin_enqueue exchange try_dequeue check_size
at_rest-IsQuiet Move.enqueue i = absurd (false≢true i)
at_rest-IsQuiet Move.reject i = refl
at_rest-IsQuiet Move.lose i = refl
at_rest-IsQuiet Move.push i = refl
at_rest-IsQuiet Move.schedule i = refl
at_rest-IsQuiet Move.submit i = refl
at_rest-IsQuiet Move.refuse i = refl
at_rest-IsQuiet Move.release i = refl
at_rest-IsQuiet Move.start i = refl
at_rest-IsQuiet Move.dequeue i = refl
at_rest-IsQuiet Move.finish i = refl
at_rest-IsQuiet Move.store i = refl
at_rest-IsQuiet (Move.check size) i = refl
at_rest-IsQuiet Move.retry i = refl

to_rest-IsInternalRun : IsInternalRun true (play true (create_strand 2 false) two_callers) to_rest
unfolding play step enabled act create_strand begin_enqueue exchange try_dequeue check_size
    IsInternalRun
to_rest-IsInternalRun =
    (refl, refl, (refl, refl, (refl, refl, (refl, refl, (refl, refl, (refl, refl, tt))))))

two_callers-IsExactRun : IsExactRun true (create_strand 2 false) two_callers
unfolding play step enabled act create_strand begin_enqueue exchange try_dequeue check_size IsExact
    IsExactRun
two_callers-IsExactRun = (tt, (tt, (tt, (tt, (tt, (tt, (tt, (tt, (tt, tt)))))))))

to_rest-IsExactRun : IsExactRun true (play true (create_strand 2 false) two_callers) to_rest
unfolding play step enabled act create_strand begin_enqueue exchange try_dequeue check_size IsExact
    IsExactRun
to_rest-IsExactRun = (tt, (tt, (tt, (tt, (tt, (refl, tt))))))

quiet-tasks_example :
    (length to_rest ≤ measure (play true (create_strand 2 false) two_callers))
    × ((play true (play true (create_strand 2 false) two_callers) to_rest).strand.tasks ≡ 0)
quiet-tasks_example =
    quiet-tasks true 2 false two_callers to_rest two_callers-IsExactRun to_rest-IsExactRun
      to_rest-IsInternalRun at_rest-IsQuiet
