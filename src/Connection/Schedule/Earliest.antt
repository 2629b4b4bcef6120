-- ===== src/Connection/Schedule/Earliest.antt =====
-- Which client a round finds, and when its next time is.
use beprotocol.Common.{
  ℕ, ◌+◌, ◌^◌, ◌%◌, ◌≤◌, ◌<◌, ◌≡◌, refl, sym, ◌∙◌, subst, List, [], ◌∷◌, All, Bool, true, false,
  Option, none, some, ap, ◌⊎◌, length, ltb, if◌then◌else◌, arith,
}
use beprotocol.Connection.Schedule.{
  Entry, Schedule, find_token, is_current, create_schedule, Turn, take_top, take_due, Event, run,
  flush_interval, next_scheduled_flush_due,
}
use beprotocol.Connection.Schedule.Ordered.{Ordered, run-Inv, create_schedule-Inv}
use beprotocol.Connection.Schedule.Agenda.{pending_with, pending, popped-stale}

pending_with-due :
    (token : Option ℕ) (es : List Entry) (guid low due : ℕ)
    → All (λ (x : Entry). low ≤ x.due) es
    → pending_with token es guid ≡ some due
    → low ≤ due
unfolding pending_with
pending_with-due token [] guid low due h p = ground arith
pending_with-due token (x ∷ xs) guid low due (hx, h) p =
    ground (arith, pending_with-due token xs guid low due h)

-- What a round may find at `now`, where some client is to be flushed at `due`: nothing is due yet, and `due` is to
-- come; or an entry that is out of date, which leaves the heap while all clients keep their times; or a client that
-- is to be flushed at a time that has come and is not after `due`.
unfoldable pub Finds : ℕ → ℕ → Schedule → Turn × Schedule → Type 0
Finds now due s (Turn.idle, after) = (now < due) × (after ≡ s)
Finds now due s (Turn.stale, after) =
    (length after.heap + 1 ≡ length s.heap) × ((guid : ℕ) → pending after guid ≡ pending s guid)
Finds now due s (Turn.ready e, after) =
    (e.due ≤ now)
    × (e.due ≤ due)
    × (pending s e.guid ≡ some e.due)
    × (length after.heap + 1 ≡ length s.heap)

pending_with-head :
    (tokens : List (ℕ × ℕ)) (e : Entry) (rest : List Entry)
    → is_current tokens e ≡ true
    → pending_with (find_token e.guid tokens) (e ∷ rest) e.guid ≡ some e.due
unfolding pending_with is_current
pending_with-head tokens e rest h = ground arith

take_top-Finds :
    (now : ℕ) (s : Schedule) (es : List Entry) (guid due : ℕ)
    → s.heap ≡ es
    → Ordered es
    → pending s guid ≡ some due
    → Finds now due s (take_top now s es)
unfolding take_top pending
take_top-Finds now s [] guid due same h p =
    absurd (unfold pending_with in ground (arith, nothing, p))
  where
    nothing : pending_with (find_token guid s.tokens) s.heap guid ≡ none
    nothing =
        unfold pending_with in
        ap (λ (es : List Entry). pending_with (find_token guid s.tokens) es guid) same
take_top-Finds now s (e ∷ rest) guid due same (dues, _, h) p =
    go (ltb now e.due) (is_current s.tokens e) refl refl
  where
    first : e.due ≤ due
    first =
        pending_with-due (find_token guid s.tokens) (e ∷ rest) guid e.due due (omega arith, dues)
          (subst (λ (es : List Entry). pending_with (find_token guid s.tokens) es guid ≡ some due)
            same p)

    popped : Schedule
    popped = record s { heap = rest }

    shorter : length rest + 1 ≡ length s.heap
    shorter = omega (arith, ap length same)

    go :
        (c d : Bool)
        → ltb now e.due ≡ c
        → is_current s.tokens e ≡ d
        → Finds now due s
            (if c then (Turn.idle, s) else (if d then Turn.ready e else Turn.stale, popped))
    go true d q u = unfold Finds in (ground (arith, first), refl)
    go false true q u =
        unfold Finds pending in
        (
          ground arith,
          first,
          ap (λ (es : List Entry). pending_with (find_token e.guid s.tokens) es e.guid) same
              ∙ pending_with-head s.tokens e rest u,
          shorter,
        )
    go false false q u =
        unfold Finds pending in
        (
          shorter,
          λ k. sym (
              ap (λ (es : List Entry). pending_with (find_token k s.tokens) es k) same
              ∙ popped-stale s.tokens e rest k u),
        )

-- After any events, fewer than `2 ^ 64 - 1` of them, on a new schedule, and with some client to be flushed at `due`,
-- one round of `flushTickOnce` at `now`, behind the commands that it drains: it finds no entry that is due, changes
-- nothing, and `due` is still to come; or it takes one entry that is out of date from the heap, and every client
-- keeps the time at which it is to be flushed; or it takes the entry of a client that is to be flushed at a time
-- that has come and is not after `due`.
pub take_due-earliest :
    (es : List Event)
    → length es + 1 < 2 ^ 64
    → (now guid due : ℕ) → pending (run es create_schedule) guid ≡ some due
    → let s = run es create_schedule in Finds now due s (take_due now s)
unfolding take_due
take_due-earliest es room now guid due p =
    take_top-Finds now s s.heap guid due refl
      (run-Inv es create_schedule (unfold create_schedule in omega arith)
        (unfold create_schedule in omega arith) create_schedule-Inv).ordered
      p
  where
    s : Schedule
    s = run es create_schedule

-- The next time of a flush that was due at `previous` is to come, by whole intervals from it, and no more than one
-- interval ahead where more than one interval has passed.
pub next_scheduled_flush_due_lem :
    (previous now : ℕ)
    → let next = next_scheduled_flush_due previous now in
      (now < next)
      × (next % flush_interval ≡ previous % flush_interval)
      × ((next ≡ previous + flush_interval) ⊎ (next ≤ now + flush_interval))
unfolding next_scheduled_flush_due
next_scheduled_flush_due_lem previous now = ground arith
