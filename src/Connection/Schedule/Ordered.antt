-- ===== src/Connection/Schedule/Ordered.antt =====
-- The order of the heap of a schedule, and its tokens.
use beprotocol.Common.{
  ℕ, ◌+◌, ◌^◌, ◌%◌, ◌≤◌, ◌<◌, ◌≡◌, refl, List, [], ◌∷◌, All, Bool, true, false, length, ltb, ◌==◌,
  if◌then◌else◌, arith,
}
use beprotocol.Connection.Schedule.{
  Entry, Command, Schedule, later, push, create_schedule, apply_command, take_top, take_due, Turn,
  Event, happen, run,
}

abbrev pub Ordered : List Entry → Type 0
Ordered [] = Unit
Ordered (e ∷ es) =
    All (λ (x : Entry). e.due ≤ x.due) es
    × All (λ (x : Entry). (x.token == e.token) ≡ false) es
    × Ordered es

pub record Inv (s : Schedule) : Type 0 where
  pub ordered : Ordered s.heap
  pub fresh : All (λ (e : Entry). e.token < s.next_token) s.heap

All-push {ℓ} :
    (P : Entry → Type ℓ) (e : Entry) (es : List Entry) → P e → All P es → All P (push e es)
unfolding push
All-push P e [] he h = (he, tt)
All-push P e (x ∷ xs) he (hx, h) = go (later e x) (All-push P e xs he h)
  where
    go : (c : Bool) → All P (push e xs) → All P (if c then x ∷ push e xs else e ∷ (x ∷ xs))
    go true rest = (hx, rest)
    go false rest = (he, (hx, h))

All-map {ℓ κ} :
    {P : Entry → Type ℓ} {Q : Entry → Type κ} (es : List Entry)
    → ((x : Entry) → P x → Q x)
    → All P es
    → All Q es
All-map [] f h = tt
All-map (x ∷ xs) f (hx, h) = (f x hx, All-map xs f h)

-- Which of two entries comes first.
later-due : (e x : Entry) → later e x ≡ true → x.due ≤ e.due
unfolding later
later-due e x h = ground arith

not_later-due : (e x : Entry) → later e x ≡ false → e.due ≤ x.due
unfolding later
not_later-due e x h = ground arith

push-Ordered :
    (e : Entry) (es : List Entry)
    → All (λ (x : Entry). (x.token == e.token) ≡ false) es
    → Ordered es
    → Ordered (push e es)
unfolding push
push-Ordered e [] other h = (tt, tt, tt)
push-Ordered e (x ∷ xs) (ne, other) (dues, tokens, h) =
    go (later e x) (later-due e x) (not_later-due e x) (push-Ordered e xs other h)
  where
    go :
        (c : Bool)
        → (c ≡ true → x.due ≤ e.due)
        → (c ≡ false → e.due ≤ x.due)
        → Ordered (push e xs)
        → Ordered (if c then x ∷ push e xs else e ∷ (x ∷ xs))
    go true after before rest = (
      All-push (λ (y : Entry). x.due ≤ y.due) e xs (after refl) dues,
      All-push (λ (y : Entry). (y.token == x.token) ≡ false) e xs (ground arith) tokens,
      rest,
    )
    go false after before rest = (
      (
        before refl,
        All-map xs (λ (y : Entry) (hy : x.due ≤ y.due). omega (arith, before refl)) dues,
      ),
      (ne, other),
      (dues, tokens, h),
    )

apply_command-Inv :
    (c : Command) (s : Schedule) → s.next_token + 1 < 2 ^ 64 → Inv s → Inv (apply_command c s)
unfolding apply_command
apply_command-Inv (Command.plan guid due) s room h = record {
  ordered =
      push-Ordered _ s.heap
        (All-map s.heap (λ (x : Entry) (hx : x.token < s.next_token). ground arith) h.fresh)
        h.ordered;
  fresh =
      All-push (λ (x : Entry). x.token < (s.next_token + 1) % 2 ^ 64) _ s.heap (omega arith)
        (All-map s.heap (λ (x : Entry) (hx : x.token < s.next_token). omega arith) h.fresh);
}
apply_command-Inv (Command.cancel guid) s room h = record { ordered = h.ordered; fresh = h.fresh }

take_top-Inv :
    (now : ℕ) (s : Schedule) (es : List Entry)
    → Inv s
    → Ordered es
    → All (λ (e : Entry). e.token < s.next_token) es
    → Inv (take_top now s es).1
unfolding take_top
take_top-Inv now s [] h ordered fresh = h
take_top-Inv now s (e ∷ rest) h (_, _, ordered) (_, fresh) = go (ltb now e.due) _
  where
    popped : Schedule
    popped = record s { heap = rest }

    go :
        (c : Bool) (t : Turn)
        → let r : Turn × Schedule = if c then (Turn.idle, s) else (t, popped) in Inv r.1
    go true t = h
    go false t = record { ordered = ordered; fresh = fresh }

take_due-Inv : (now : ℕ) (s : Schedule) → Inv s → Inv (take_due now s).1
unfolding take_due
take_due-Inv now s h = take_top-Inv now s s.heap h h.ordered h.fresh

pub create_schedule-Inv : Inv create_schedule
unfolding create_schedule
create_schedule-Inv = record { ordered = tt; fresh = tt }

take_top-next_token :
    (now : ℕ) (s : Schedule) (es : List Entry) → (take_top now s es).1.next_token ≡ s.next_token
unfolding take_top
take_top-next_token now s [] = refl
take_top-next_token now s (e ∷ rest) = ground arith

pub happen-next_token :
    (e : Event) (s : Schedule)
    → s.next_token + 1 < 2 ^ 64
    → 1 ≤ s.next_token
    → (1 ≤ (happen e s).next_token) × ((happen e s).next_token ≤ s.next_token + 1)
unfolding happen apply_command take_due create_schedule
happen-next_token (Event.drain (Command.plan guid due)) s room low = (omega arith, omega arith)
happen-next_token (Event.drain (Command.cancel guid)) s room low = (low, omega arith)
happen-next_token (Event.tick now) s room low = (
  omega (arith, take_top-next_token now s s.heap),
  omega (arith, take_top-next_token now s s.heap),
)
happen-next_token Event.clear s room low = (omega arith, omega arith)

pub happen-Inv : (e : Event) (s : Schedule) → s.next_token + 1 < 2 ^ 64 → Inv s → Inv (happen e s)
unfolding happen
happen-Inv (Event.drain c) s room h = apply_command-Inv c s room h
happen-Inv (Event.tick now) s room h = take_due-Inv now s h
happen-Inv Event.clear s room h = create_schedule-Inv

pub run-Inv :
    (es : List Event) (s : Schedule)
    → 1 ≤ s.next_token
    → s.next_token + length es < 2 ^ 64
    → Inv s
    → Inv (run es s)
unfolding run
run-Inv [] s low room h = h
run-Inv (e ∷ es) s low room h =
    run-Inv es (happen e s) next.0 (omega (arith, next.1)) (happen-Inv e s (omega arith) h)
  where
    next : (1 ≤ (happen e s).next_token) × ((happen e s).next_token ≤ s.next_token + 1)
    next = happen-next_token e s (omega arith) low
