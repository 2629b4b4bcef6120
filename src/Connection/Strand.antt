-- ===== src/Connection/Strand.antt =====
-- `TaskStrand` of include/sculk/protocol/connection/thread/TaskStrand.hpp: tasks that a thread pool runs one at a
-- time. Threads interleave at the atomic operations, which are taken to be sequentially consistent; of the
-- third-party queue only the number of its tasks is kept, since it promises no order. Its `size_approx` is an
-- estimate, whose answer is part of the move that asks for it.
pub mod Exclusion
pub mod Progress
use beprotocol.Common.{
  ℕ, ◌+◌, ◌-◌, ◌^◌, ◌%◌, List, [], ◌∷◌, Bool, true, false, ◌&&◌, ◌||◌, not, ltb, leb, ◌==◌,
  if◌then◌else◌,
}

-- `TaskStrand::State`; `has_policy` is whether a backpressure policy is set.
pub record Strand : Type 0 where
  pub tasks : ℕ
  pub max_pending_tasks : ℕ
  pub pending_tasks : ℕ
  pub drain_scheduled : Bool
  pub has_policy : Bool

-- The strand and how many threads stand at each point of the code: after the test in `enqueue`, with the task
-- taken or refused; before the exchange in `scheduleDrain`; before `submit`; in the pool's queue; after a
-- `submit` that failed; in `drain` before `try_dequeue`, in a task, before the store, before `size_approx`, and
-- before the second exchange. `finished` counts the tasks that have run.
pub record Run : Type 0 where
  pub strand : Strand
  pub admitted : ℕ
  pub rejecting : ℕ
  pub scheduling : ℕ
  pub submitting : ℕ
  pub submitted : ℕ
  pub refused : ℕ
  pub draining : ℕ
  pub running : ℕ
  pub storing : ℕ
  pub checking : ℕ
  pub retrying : ℕ
  pub finished : ℕ

unfoldable pub create_strand : ℕ → Bool → Run
create_strand max_pending_tasks has_policy = record {
  strand = record {
    tasks = 0;
    max_pending_tasks = max_pending_tasks;
    pending_tasks = 0;
    drain_scheduled = false;
    has_policy = has_policy;
  };
  admitted = 0;
  rejecting = 0;
  scheduling = 0;
  submitting = 0;
  submitted = 0;
  refused = 0;
  draining = 0;
  running = 0;
  storing = 0;
  checking = 0;
  retrying = 0;
  finished = 0;
}

-- `enqueue` begins, gives its task up, or puts it into the queue, which can fail; the others are named for the
-- points. `check` has the answer of `size_approx`.
pub data Move : Type 0 where
  enqueue reject lose push schedule submit refuse release start dequeue finish store retry : Move
  check : ℕ → Move

-- The arithmetic of `std::atomic_uint32_t`.
abbrev pub fetch_add_one : ℕ → ℕ
fetch_add_one n = (n + 1) % 2 ^ 32

abbrev pub fetch_sub_one : ℕ → ℕ
fetch_sub_one n = (n + (2 ^ 32 - 1)) % 2 ^ 32

-- `pending > maxPending`, where a policy only waits.
abbrev pub over_limit : Strand → Bool
over_limit s = ltb s.max_pending_tasks (fetch_add_one s.pending_tasks) && not s.has_policy

-- Is a thread there that can make the move? A pool that accepts refuses nothing. There are fewer than `2 ^ 32`
-- tasks and callers at a time.
unfoldable pub enabled : Bool → Run → Move → Bool
enabled accepts r Move.enqueue =
    ltb (r.strand.tasks + r.running + r.admitted + r.rejecting + 1) (2 ^ 32)
enabled accepts r Move.reject = ltb 0 r.rejecting
enabled accepts r Move.lose = ltb 0 r.admitted
enabled accepts r Move.push = ltb 0 r.admitted
enabled accepts r Move.schedule = ltb 0 r.scheduling
enabled accepts r Move.submit = ltb 0 r.submitting
enabled accepts r Move.refuse = not accepts && ltb 0 r.submitting
enabled accepts r Move.release = ltb 0 r.refused
enabled accepts r Move.start = ltb 0 r.submitted
enabled accepts r Move.dequeue = ltb 0 r.draining
enabled accepts r Move.finish = ltb 0 r.running
enabled accepts r Move.store = ltb 0 r.storing
enabled accepts r (Move.check size) = ltb 0 r.checking
enabled accepts r Move.retry = ltb 0 r.retrying

-- `mPendingTasks.fetch_add(1)` and the test.
unfoldable pub begin_enqueue : Run → Run
begin_enqueue r =
    let s = record r.strand { pending_tasks = fetch_add_one r.strand.pending_tasks } in
    if over_limit r.strand
    then record r { strand = s; rejecting = r.rejecting + 1 }
    else record r { strand = s; admitted = r.admitted + 1 }

-- `mDrainScheduled.exchange(true)` in `scheduleDrain`.
unfoldable pub exchange : Run → Run
exchange r =
    if r.strand.drain_scheduled then record r { scheduling = r.scheduling - 1 } else record r {
      strand = record r.strand { drain_scheduled = true };
      scheduling = r.scheduling - 1;
      submitting = r.submitting + 1;
    }

-- `try_dequeue`, which starts a task if there is one.
unfoldable pub try_dequeue : Run → Run
try_dequeue r =
    if r.strand.tasks == 0
    then record r { draining = r.draining - 1; storing = r.storing + 1 }
    else record r {
      strand = record r.strand { tasks = r.strand.tasks - 1 };
      draining = r.draining - 1;
      running = r.running + 1;
    }

-- `if (size_approx() == 0) break`.
unfoldable pub check_size : ℕ → Run → Run
check_size size r =
    if size == 0
    then record r { checking = r.checking - 1 }
    else record r { checking = r.checking - 1; retrying = r.retrying + 1 }

-- `if (mDrainScheduled.exchange(true)) break`.
unfoldable pub exchange_again : Run → Run
exchange_again r =
    if r.strand.drain_scheduled then record r { retrying = r.retrying - 1 } else record r {
      strand = record r.strand { drain_scheduled = true };
      retrying = r.retrying - 1;
      draining = r.draining + 1;
    }

unfoldable pub act : Run → Move → Run
act r Move.enqueue = begin_enqueue r
act r Move.reject = record r {
  strand = record r.strand { pending_tasks = fetch_sub_one r.strand.pending_tasks };
  rejecting = r.rejecting - 1;
}
act r Move.lose = record r { admitted = r.admitted - 1; rejecting = r.rejecting + 1 }
act r Move.push = record r {
  strand = record r.strand { tasks = r.strand.tasks + 1 };
  admitted = r.admitted - 1;
  scheduling = r.scheduling + 1;
}
act r Move.schedule = exchange r
act r Move.submit = record r { submitting = r.submitting - 1; submitted = r.submitted + 1 }
act r Move.refuse = record r { submitting = r.submitting - 1; refused = r.refused + 1 }
act r Move.release = record r {
  strand = record r.strand { drain_scheduled = false };
  refused = r.refused - 1;
  draining = r.draining + 1;
}
act r Move.start = record r { submitted = r.submitted - 1; draining = r.draining + 1 }
act r Move.dequeue = try_dequeue r
act r Move.finish = record r {
  strand = record r.strand { pending_tasks = fetch_sub_one r.strand.pending_tasks };
  running = r.running - 1;
  draining = r.draining + 1;
  finished = r.finished + 1;
}
act r Move.store = record r {
  strand = record r.strand { drain_scheduled = false };
  storing = r.storing - 1;
  checking = r.checking + 1;
}
act r (Move.check size) = check_size size r
act r Move.retry = exchange_again r

-- A move of no thread changes nothing.
unfoldable pub step : Bool → Run → Move → Run
step accepts r m = if enabled accepts r m then act r m else r

unfoldable pub play : Bool → Run → List Move → Run
play accepts r [] = r
play accepts r (m ∷ ms) = play accepts (step accepts r m) ms
