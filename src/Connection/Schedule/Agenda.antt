-- ===== src/Connection/Schedule/Agenda.antt =====
-- What a schedule stands for: the time, if any, at which each client is to be flushed.
use beprotocol.Common.{
  ℕ, ◌+◌, ◌^◌, ◌≤◌, ◌<◌, ◌≡◌, refl, sym, ap, ◌∙◌, List, [], ◌∷◌, All, Bool, true, false, Option,
  none, some, ◌&&◌, length, ltb, ◌==◌, if◌then◌else◌, arith,
}
use mathlib.Core.Bool.{false≢true}
use beprotocol.Connection.Schedule.{
  Entry, Command, Schedule, push, find_token, erase_token, create_schedule, apply_command, is_token,
  is_current, Turn, take_top, take_due, Event, happen, run,
}
use beprotocol.Connection.Schedule.Ordered.{
  Ordered, Inv, happen-Inv, happen-next_token, create_schedule-Inv,
}

-- The first entry of the client whose token is the current one.
unfoldable pub pending_with : Option ℕ → List Entry → ℕ → Option ℕ
pending_with token [] guid = none
pending_with token (e ∷ es) guid =
    let rest = pending_with token es guid in
    if e.guid == guid && is_token e.token token then some e.due else rest

-- When the client is to be flushed.
unfoldable pub pending : Schedule → ℕ → Option ℕ
pending s guid = pending_with (find_token guid s.tokens) s.heap guid

-- A command makes a new time for its client, or takes the time away.
unfoldable pub note : Command → (ℕ → Option ℕ) → ℕ → Option ℕ
note (Command.plan k due) agenda guid = if guid == k then some due else agenda guid
note (Command.cancel k) agenda guid = if guid == k then none else agenda guid

-- A client that is flushed has no time any more.
unfoldable pub handed : Turn → (ℕ → Option ℕ) → ℕ → Option ℕ
handed Turn.idle agenda guid = agenda guid
handed Turn.stale agenda guid = agenda guid
handed (Turn.ready e) agenda guid = if guid == e.guid then none else agenda guid

-- The times after one event.
unfoldable pub follow : Event → Schedule → (ℕ → Option ℕ) → ℕ → Option ℕ
follow (Event.drain c) s times = note c times
follow (Event.tick now) s times = handed (take_due now s).0 times
follow Event.clear s times = λ _. none

-- The times after some events, by these rules alone; the schedule only says which client a round has found.
unfoldable pub agenda : List Event → Schedule → (ℕ → Option ℕ) → ℕ → Option ℕ
agenda [] s times = times
agenda (e ∷ es) s times = agenda es (happen e s) (follow e s times)

pending_with-push_other :
    (token : Option ℕ) (e : Entry) (es : List Entry) (guid : ℕ)
    → (e.guid == guid) ≡ false
    → pending_with token (push e es) guid ≡ pending_with token es guid
unfolding pending_with push
pending_with-push_other token e [] guid ne = ground arith
pending_with-push_other token e (x ∷ xs) guid ne =
    ground (arith, pending_with-push_other token e xs guid ne)

pending_with-push :
    (t : ℕ) (e : Entry) (es : List Entry) (guid : ℕ)
    → e.guid ≡ guid
    → e.token ≡ t
    → pending_with (some t) es guid ≡ none
    → pending_with (some t) (push e es) guid ≡ some e.due
unfolding pending_with push is_token
pending_with-push t e [] guid hg ht h = ground arith
pending_with-push t e (x ∷ xs) guid hg ht h = ground (arith, pending_with-push t e xs guid hg ht)

pending_with-other :
    (t : ℕ) (es : List Entry) (guid : ℕ)
    → All (λ (x : Entry). (x.token == t) ≡ false) es
    → pending_with (some t) es guid ≡ none
unfolding pending_with is_token
pending_with-other t [] guid h = refl
pending_with-other t (x ∷ xs) guid (hx, h) = ground (arith, pending_with-other t xs guid h)

pending_with-fresh :
    (t : ℕ) (es : List Entry) (guid : ℕ)
    → All (λ (x : Entry). x.token < t) es
    → pending_with (some t) es guid ≡ none
unfolding pending_with is_token
pending_with-fresh t [] guid h = refl
pending_with-fresh t (x ∷ xs) guid (hx, h) = ground (arith, pending_with-fresh t xs guid h)

pending_with-none : (es : List Entry) (guid : ℕ) → pending_with none es guid ≡ none
unfolding pending_with is_token
pending_with-none [] guid = refl
pending_with-none (x ∷ xs) guid = ground (arith, pending_with-none xs guid)

find_token-erase_token :
    (guid k : ℕ) (tokens : List (ℕ × ℕ))
    → find_token guid (erase_token k tokens) ≡ (if guid == k then none else find_token guid tokens)
unfolding find_token erase_token
find_token-erase_token guid k [] = ground arith
find_token-erase_token guid k ((j, t) ∷ tokens) =
    ground (arith, find_token-erase_token guid k tokens)

apply_command-pending :
    (c : Command) (s : Schedule)
    → Inv s
    → (guid : ℕ) → note c (pending s) guid ≡ pending (apply_command c s) guid
unfolding note pending apply_command find_token
apply_command-pending (Command.plan k due) s h guid = ground (
  arith,
  find_token-erase_token guid k s.tokens,
  pending_with-push_other (find_token guid s.tokens) e s.heap guid,
  pending_with-push s.next_token e s.heap guid,
  pending_with-fresh s.next_token s.heap guid h.fresh,
)
  where
    e : Entry
    e = record { due = due; guid = k; token = s.next_token }
apply_command-pending (Command.cancel k) s h guid =
    ground (arith, find_token-erase_token guid k s.tokens, pending_with-none s.heap guid)

pub popped-stale :
    (tokens : List (ℕ × ℕ)) (e : Entry) (rest : List Entry) (guid : ℕ)
    → is_current tokens e ≡ false
    → pending_with (find_token guid tokens) (e ∷ rest) guid
      ≡ pending_with (find_token guid tokens) rest guid
unfolding pending_with is_current
popped-stale tokens e rest guid h = ground arith

is_token-some : (t : ℕ) (o : Option ℕ) → is_token t o ≡ true → o ≡ some t
unfolding is_token
is_token-some t none h = absurd (false≢true h)
is_token-some t (some u) h = ground arith

popped-ready :
    (tokens : List (ℕ × ℕ)) (e : Entry) (rest : List Entry) (guid : ℕ)
    → is_current tokens e ≡ true
    → All (λ (x : Entry). (x.token == e.token) ≡ false) rest
    → (if guid == e.guid then none else pending_with (find_token guid tokens) (e ∷ rest) guid)
      ≡ pending_with (find_token guid tokens) rest guid
unfolding pending_with is_current
popped-ready tokens e rest guid h other = ground (
  arith,
  is_token-some e.token (find_token e.guid tokens) h,
  pending_with-other e.token rest guid other,
)

take_top-pending :
    (now : ℕ) (s : Schedule) (es : List Entry)
    → s.heap ≡ es
    → Ordered es
    → (guid : ℕ)
    → handed (take_top now s es).0 (pending s) guid ≡ pending (take_top now s es).1 guid
unfolding take_top handed pending
take_top-pending now s [] same h guid = refl
take_top-pending now s (e ∷ rest) same (_, other, h) guid =
    go (ltb now e.due) (is_current s.tokens e) refl
  where
    go :
        (c d : Bool)
        → is_current s.tokens e ≡ d
        → let r : Turn × Schedule =
            if c
            then (Turn.idle, s)
            else (if d then Turn.ready e else Turn.stale, record s { heap = rest }) in
          handed r.0 (pending s) guid ≡ pending r.1 guid
    go true d q = refl
    go false true q = rw same (popped-ready s.tokens e rest guid q other)
    go false false q = rw same (popped-stale s.tokens e rest guid q)

take_due-pending :
    (now : ℕ) (s : Schedule)
    → Inv s
    → (guid : ℕ) → handed (take_due now s).0 (pending s) guid ≡ pending (take_due now s).1 guid
unfolding take_due
take_due-pending now s h = take_top-pending now s s.heap refl h.ordered

pending-created : (guid : ℕ) → none ≡ pending create_schedule guid
unfolding pending create_schedule pending_with
pending-created guid = refl

happen-pending :
    (e : Event) (s : Schedule)
    → Inv s
    → (guid : ℕ) → follow e s (pending s) guid ≡ pending (happen e s) guid
unfolding follow happen
happen-pending (Event.drain c) s h = apply_command-pending c s h
happen-pending (Event.tick now) s h = take_due-pending now s h
happen-pending Event.clear s h = pending-created

-- The events keep the schedule and the times together.
agenda-pending :
    (es : List Event) (s : Schedule) (times : ℕ → Option ℕ)
    → Inv s
    → 1 ≤ s.next_token
    → s.next_token + length es < 2 ^ 64
    → times ≡ pending s
    → (guid : ℕ) → pending (run es s) guid ≡ agenda es s times guid
unfolding run agenda
agenda-pending [] s times h low room e guid = ap (λ (f : ℕ → Option ℕ). f guid) (sym e)
agenda-pending (x ∷ es) s times h low room e guid =
    agenda-pending es (happen x s) (follow x s times) (happen-Inv x s (omega arith) h) counted.0
      (omega (arith, counted.1)) (ap (follow x s) e ∙ (λ i g. happen-pending x s h g i)) guid
  where
    counted : (1 ≤ (happen x s).next_token) × ((happen x s).next_token ≤ s.next_token + 1)
    counted = happen-next_token x s (omega arith) low

-- After any events, fewer than `2 ^ 64 - 1` of them, on a new schedule: the schedule has for each client the time
-- that the commands and the rounds give it one after the other, where a new time replaces the old one, a cancelled
-- one is gone, and a round takes the time of the client that it finds, and of no other.
pub pending-run :
    (es : List Event) (guid : ℕ)
    → length es + 1 < 2 ^ 64
    → pending (run es create_schedule) guid ≡ agenda es create_schedule (λ _. none) guid
pending-run es guid room =
    agenda-pending es create_schedule (λ _. none) create_schedule-Inv
      (unfold create_schedule in omega arith) (unfold create_schedule in omega arith)
      (λ i g. pending-created g i) guid
