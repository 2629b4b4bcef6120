-- ===== src/Connection/Schedule.antt =====
-- When the sessions of a server are flushed: `FlushDueEntryCompare`, `applyFlushScheduleCommandUnlocked`,
-- `drainFlushScheduleCommandsUnlocked`, `clearFlushSchedule`, `nextScheduledFlushDue` and the middle of
-- `flushTickOnce` in src/sculk/protocol/connection/ServerNetworkSystem.cpp and its header. A client's GUID and a
-- time point, in nanoseconds, are numbers. The commands that the third-party queue hands out, in any order, are
-- arguments.
pub mod Ordered
pub mod Agenda
pub mod Earliest
use beprotocol.Common.{
  ℕ, ◌+◌, ◌-◌, ◌*◌, ◌/◌, ◌^◌, ◌%◌, List, [], ◌∷◌, Bool, true, false, Option, none, some, ◌&&◌, ltb,
  leb, ◌==◌, if◌then◌else◌,
}

pub record Entry : Type 0 where
  pub due : ℕ
  pub guid : ℕ
  pub token : ℕ

pub data Command : Type 0 where
  plan : ℕ → ℕ → Command
  cancel : ℕ → Command

-- `mFlushDueHeap`, in the order in which it is popped, `mFlushDueTokens` and `mNextFlushToken`.
pub record Schedule : Type 0 where
  pub heap : List Entry
  pub tokens : List (ℕ × ℕ)
  pub next_token : ℕ

-- `FlushDueEntryCompare`: is `lhs` popped after `rhs`?
unfoldable pub later : Entry → Entry → Bool
later lhs rhs = if lhs.due == rhs.due then ltb rhs.token lhs.token else ltb rhs.due lhs.due

-- `push` of a priority queue.
unfoldable pub push : Entry → List Entry → List Entry
push e [] = e ∷ []
push e (x ∷ xs) = let rest = push e xs in if later e x then x ∷ rest else e ∷ (x ∷ xs)

-- `find` in a map.
unfoldable pub find_token : ℕ → List (ℕ × ℕ) → Option ℕ
find_token guid [] = none
find_token guid ((k, t) ∷ rest) =
    let found = find_token guid rest in if guid == k then some t else found

unfoldable pub erase_token : ℕ → List (ℕ × ℕ) → List (ℕ × ℕ)
erase_token guid [] = []
erase_token guid ((k, t) ∷ rest) =
    let kept = erase_token guid rest in if guid == k then kept else (k, t) ∷ kept

unfoldable pub create_schedule : Schedule
create_schedule = record { heap = []; tokens = []; next_token = 1 }

-- `applyFlushScheduleCommandUnlocked`.
unfoldable pub apply_command : Command → Schedule → Schedule
apply_command (Command.plan guid due) s = record {
  heap = push (record { due = due; guid = guid; token = s.next_token }) s.heap;
  tokens = (guid, s.next_token) ∷ erase_token guid s.tokens;
  next_token = (s.next_token + 1) % 2 ^ 64;
}
apply_command (Command.cancel guid) s = record s { tokens = erase_token guid s.tokens }

unfoldable pub is_token : ℕ → Option ℕ → Bool
is_token token none = false
is_token token (some t) = t == token

-- `it == end() || it->second != entry.mToken`.
unfoldable pub is_current : List (ℕ × ℕ) → Entry → Bool
is_current tokens e = is_token e.token (find_token e.guid tokens)

-- What a round of `flushTickOnce` finds: no entry that is due, one that is out of date, or one to flush.
pub data Turn : Type 0 where
  idle : Turn
  stale : Turn
  ready : Entry → Turn

unfoldable pub take_top : ℕ → Schedule → List Entry → Turn × Schedule
take_top now s [] = (Turn.idle, s)
take_top now s (e ∷ rest) =
    if ltb now e.due
    then (Turn.idle, s)
    else (if is_current s.tokens e then Turn.ready e else Turn.stale, record s { heap = rest })

-- The block of `flushTickOnce` that holds the mutex.
unfoldable pub take_due : ℕ → Schedule → Turn × Schedule
take_due now s = take_top now s s.heap

-- What happens to a schedule: a command is drained, a round takes place, or it is cleared.
pub data Event : Type 0 where
  drain : Command → Event
  tick : ℕ → Event
  clear : Event

unfoldable pub happen : Event → Schedule → Schedule
happen (Event.drain c) s = apply_command c s
happen (Event.tick now) s = (take_due now s).1
happen Event.clear s = create_schedule

unfoldable pub run : List Event → Schedule → Schedule
run [] s = s
run (e ∷ es) s = run es (happen e s)

-- 20 milliseconds.
abbrev pub flush_interval : ℕ
flush_interval = 20000000

unfoldable pub next_scheduled_flush_due : ℕ → ℕ → ℕ
next_scheduled_flush_due previous_due now =
    let next_due = previous_due + flush_interval in
    if ltb now next_due
    then next_due
    else next_due + flush_interval * ((now - next_due) / flush_interval + 1)
