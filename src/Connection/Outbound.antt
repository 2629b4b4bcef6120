-- ===== src/Connection/Outbound.antt =====
-- The queue of packets that go out of a session: `sendPacket`, `flush`, `flushIfDue` and `disconnect` of
-- src/sculk/protocol/connection/Session.cpp. Each function here is what happens under `mOutboundMutex`; a flush
-- takes the queue under the mutex and hands its packets to `sendBatchedBufferImmediately` after it.
use beprotocol.Common.{
  ℕ, ◌+◌, ◌≡◌, refl, sym, ap, ◌∙◌, List, [], ◌∷◌, ◌++◌, append-nil, append_assoc, Bool, true, false,
  ◌||◌, not, ltb, if◌then◌else◌,
}

-- The members of `Session` on this path; a time is in milliseconds, `has_peer` is whether `mPeer` is set.
pub record OutboundQueue : Type 0 where
  pub connected : Bool
  pub has_peer : Bool
  pub next_flush_at : ℕ
  pub outbound_packets : List (List ℕ)

abbrev pub is_empty : List (List ℕ) → Bool
is_empty [] = true
is_empty (_ ∷ _) = false

unfoldable pub send_packet : List ℕ → OutboundQueue → Bool × OutboundQueue
send_packet packet q =
    if q.connected
    then (true, record q { outbound_packets = q.outbound_packets ++ (packet ∷ []) })
    else (false, q)

-- The packets that are drained, if any.
unfoldable pub take_outbound : OutboundQueue → List (List ℕ) × OutboundQueue
take_outbound q =
    if not q.connected || (not q.has_peer || is_empty q.outbound_packets)
    then ([], q)
    else (q.outbound_packets, record q { outbound_packets = [] })

unfoldable pub flush : ℕ → OutboundQueue → List (List ℕ) × OutboundQueue
flush now q = take_outbound (record q { next_flush_at = now + 20 })

unfoldable pub flush_if_due : ℕ → OutboundQueue → List (List ℕ) × OutboundQueue
flush_if_due now q = if ltb now q.next_flush_at then ([], q) else flush now q

unfoldable pub disconnect : OutboundQueue → OutboundQueue
disconnect q = record q { connected = false; outbound_packets = [] }

-- The queue among its threads: the packets that `sendPacket` took, those that a flush has drained and not
-- yet handed on, and those that were handed on, in the order in which this happened.
pub record Run : Type 0 where
  pub queue : OutboundQueue
  pub accepted : List (List ℕ)
  pub drained : List (List ℕ)
  pub handed_on : List (List ℕ)

abbrev accept : Bool → List ℕ → List (List ℕ) → List (List ℕ)
accept true packet packets = packets ++ (packet ∷ [])
accept false packet packets = packets

abbrev pub after_send : List ℕ → Run → Run
after_send packet r =
    let sent = send_packet packet r.queue in
    record r { queue = sent.1; accepted = accept sent.0 packet r.accepted }

abbrev pub after_drain : List (List ℕ) × OutboundQueue → Run → Run
after_drain taken r = record r { queue = taken.1; drained = taken.0 }

-- Any thread sends at any time. A flush is two steps, and no other begins before it has handed on what it drained.
pub data Step : Run → Run → Type 0 where
  sends : (packet : List ℕ) (r : Run) → Step r (after_send packet r)
  flushes : (now : ℕ) (r : Run) → r.drained ≡ [] → Step r (after_drain (flush now r.queue) r)
  flushes_if_due :
      (now : ℕ) (r : Run) → r.drained ≡ [] → Step r (after_drain (flush_if_due now r.queue) r)
  hands_on : (r : Run) → Step r (record r { drained = []; handed_on = r.handed_on ++ r.drained })

pub data Steps : Run → Run → Type 0 where
  done : (r : Run) → Steps r r
  next : {r s t : Run} → Step r s → Steps s t → Steps r t

-- Nothing is lost, doubled or out of order.
pub record InOrder (r : Run) : Type 0 where
  pub in_order : r.accepted ≡ r.handed_on ++ (r.drained ++ r.queue.outbound_packets)

InOrder-send :
    (packet : List ℕ) (r : Run) (c : Bool)
    → r.queue.connected ≡ c
    → InOrder r
    → InOrder (after_send packet r)
unfolding send_packet
InOrder-send packet r true e h = record {
  in_order = rw e (
      ap (λ (ps : List (List ℕ)). ps ++ (packet ∷ [])) h.in_order
      ∙ append_assoc r.handed_on _ (packet ∷ [])
      ∙ ap (λ (ps : List (List ℕ)). r.handed_on ++ ps)
          (append_assoc r.drained r.queue.outbound_packets (packet ∷ [])));
}
InOrder-send packet r false e h = record { in_order = rw e h.in_order }

-- What is taken and what stays are the packets of `packets`.
abbrev Parts : List (List ℕ) → List (List ℕ) × OutboundQueue → Type 0
Parts packets taken = taken.0 ++ taken.1.outbound_packets ≡ packets

Parts-if :
    (packets : List (List ℕ)) (c : Bool) (x y : List (List ℕ) × OutboundQueue)
    → Parts packets x
    → Parts packets y
    → Parts packets (if c then x else y)
Parts-if packets true x y hx hy = hx
Parts-if packets false x y hx hy = hy

take_outbound-Parts : (q : OutboundQueue) → Parts q.outbound_packets (take_outbound q)
unfolding take_outbound
take_outbound-Parts q =
    Parts-if q.outbound_packets (not q.connected || (not q.has_peer || is_empty q.outbound_packets))
      ([], q) (q.outbound_packets, record q { outbound_packets = [] }) refl
      (append-nil q.outbound_packets)

flush-Parts : (now : ℕ) (q : OutboundQueue) → Parts q.outbound_packets (flush now q)
unfolding flush
flush-Parts now q = take_outbound-Parts (record q { next_flush_at = now + 20 })

flush_if_due-Parts : (now : ℕ) (q : OutboundQueue) → Parts q.outbound_packets (flush_if_due now q)
unfolding flush_if_due
flush_if_due-Parts now q =
    Parts-if q.outbound_packets (ltb now q.next_flush_at) ([], q) (flush now q) refl
      (flush-Parts now q)

InOrder-drain :
    (r : Run) (taken : List (List ℕ) × OutboundQueue)
    → r.drained ≡ []
    → Parts r.queue.outbound_packets taken
    → InOrder r
    → InOrder (after_drain taken r)
InOrder-drain r taken e moved h = record {
  in_order =
      h.in_order
      ∙ ap (λ (ps : List (List ℕ)). r.handed_on ++ (ps ++ r.queue.outbound_packets)) e
      ∙ ap (λ (ps : List (List ℕ)). r.handed_on ++ ps) (sym moved);
}

InOrder-Step : (r s : Run) → Step r s → InOrder r → InOrder s
InOrder-Step r _ (Step.sends packet _) h = InOrder-send packet r r.queue.connected refl h
InOrder-Step r _ (Step.flushes now _ e) h =
    InOrder-drain r (flush now r.queue) e (flush-Parts now r.queue) h
InOrder-Step r _ (Step.flushes_if_due now _ e) h =
    InOrder-drain r (flush_if_due now r.queue) e (flush_if_due-Parts now r.queue) h
InOrder-Step r _ (Step.hands_on _) h = record {
  in_order = h.in_order ∙ sym (append_assoc r.handed_on r.drained r.queue.outbound_packets);
}

-- From a run in order, such as one with no packets yet, whatever threads send and however the flushes fall in
-- between, as long as one flush begins after the other has handed its packets on and nobody disconnects: the packets
-- that `sendPacket` took are those handed on, those in a flush and those in the queue, in this order, with none lost
-- and none doubled.
pub InOrder-Steps : (r s : Run) → Steps r s → InOrder r → InOrder s
InOrder-Steps r _ (Steps.done _) h = h
InOrder-Steps r t (Steps.next {s = s} step steps) h =
    InOrder-Steps s t steps (InOrder-Step r s step h)
