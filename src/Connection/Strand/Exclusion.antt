-- ===== src/Connection/Strand/Exclusion.antt =====
-- What holds of a strand between two atomic operations of any threads.
use beprotocol.Common.{
  ℕ, ◌+◌, ◌^◌, ◌≤◌, ◌<◌, ◌≡◌, refl, subst, List, [], ◌∷◌, Bool, true, false, if◌then◌else◌, arith,
}
use beprotocol.Connection.Strand.{
  Run, Move, create_strand, enabled, begin_enqueue, exchange, try_dequeue, check_size,
  exchange_again, act, step, play,
}

-- The threads between an exchange that found the flag down and the next store that puts it down.
abbrev pub owners : Run → ℕ
owners r = r.submitting + r.submitted + r.refused + r.draining + r.running + r.storing

pub record Inv (accepts : Bool) (r : Run) : Type 0 where
  pub claimed : r.strand.drain_scheduled ≡ true → 1 ≤ owners r
  pub alone : accepts ≡ true → owners r ≤ 1
  pub free : accepts ≡ true → r.strand.drain_scheduled ≡ false → owners r ≡ 0
  pub none_refused : accepts ≡ true → r.refused ≡ 0
  pub counted : r.strand.pending_tasks ≡ r.strand.tasks + r.running + r.admitted + r.rejecting
  pub fits : r.strand.pending_tasks < 2 ^ 32
  pub limited :
      r.strand.has_policy ≡ false
      → r.strand.tasks + r.running + r.admitted ≤ r.strand.max_pending_tasks

pub create_strand-Inv :
    (accepts : Bool) (n : ℕ) (policy : Bool) → Inv accepts (create_strand n policy)
unfolding create_strand
create_strand-Inv accepts n policy = ground arith

act-Inv :
    (accepts : Bool) (r : Run) (m : Move)
    → enabled accepts r m ≡ true
    → Inv accepts r
    → Inv accepts (act r m)
unfolding enabled act begin_enqueue exchange try_dequeue check_size exchange_again
act-Inv accepts r Move.enqueue e h = ground arith
act-Inv accepts r Move.reject e h = ground arith
act-Inv accepts r Move.lose e h = ground arith
act-Inv accepts r Move.push e h = ground arith
act-Inv accepts r Move.schedule e h = ground arith
act-Inv accepts r Move.submit e h = ground arith
act-Inv accepts r Move.refuse e h = ground arith
act-Inv accepts r Move.release e h = ground arith
act-Inv accepts r Move.start e h = ground arith
act-Inv accepts r Move.dequeue e h = ground arith
act-Inv accepts r Move.finish e h = ground arith
act-Inv accepts r Move.store e h = ground arith
act-Inv accepts r (Move.check size) e h = ground arith
act-Inv accepts r Move.retry e h = ground arith

pub step-Inv :
    (accepts : Bool) (r : Run) (m : Move) → Inv accepts r → Inv accepts (step accepts r m)
unfolding step
step-Inv accepts r m h = go (enabled accepts r m) (act-Inv accepts r m)
  where
    go :
        (c : Bool)
        → (c ≡ true → Inv accepts r → Inv accepts (act r m))
        → Inv accepts (if c then act r m else r)
    go true kept = kept refl h
    go false kept = h

pub play-Inv :
    (accepts : Bool) (r : Run) (ms : List Move) → Inv accepts r → Inv accepts (play accepts r ms)
unfolding play
play-Inv accepts r [] h = h
play-Inv accepts r (m ∷ ms) h = play-Inv accepts (step accepts r m) ms (step-Inv accepts r m h)

pub created-Inv :
    (accepts : Bool) (n : ℕ) (policy : Bool) (ms : List Move)
    → Inv accepts (play accepts (create_strand n policy) ms)
created-Inv accepts n policy ms = play-Inv accepts _ ms (create_strand-Inv accepts n policy)

-- Whatever moves the threads make on a new strand whose pool takes every submission, and whatever `size_approx`
-- answers: at most one thread is in a task, or on its way to the next one, at a time.
pub running-alone :
    (n : ℕ) (policy : Bool) (ms : List Move) → owners (play true (create_strand n policy) ms) ≤ 1
running-alone n policy ms = (created-Inv true n policy ms).alone refl

-- No move changes the limit or the policy.
act-settings :
    (r : Run) (m : Move)
    → ((act r m).strand.max_pending_tasks ≡ r.strand.max_pending_tasks)
      × ((act r m).strand.has_policy ≡ r.strand.has_policy)
unfolding act begin_enqueue exchange try_dequeue check_size exchange_again
act-settings r m = ground arith

play-settings :
    (accepts : Bool) (r : Run) (ms : List Move)
    → ((play accepts r ms).strand.max_pending_tasks ≡ r.strand.max_pending_tasks)
      × ((play accepts r ms).strand.has_policy ≡ r.strand.has_policy)
unfolding play step
play-settings accepts r [] = (refl, refl)
play-settings accepts r (m ∷ ms) =
    ground (arith, act-settings r m, play-settings accepts (step accepts r m) ms)

-- Whatever moves the threads make on a new strand for `n` tasks without a backpressure policy, whether the pool
-- takes every submission or not, and whatever `size_approx` answers: the counter of pending tasks is the number of
-- tasks in the queue, in a thread or at the entrance, and no more than `n` tasks are in the queue, in a thread or
-- admitted.
pub pending_tasks-counts :
    (accepts : Bool) (n : ℕ) (ms : List Move)
    → let r = play accepts (create_strand n false) ms in
      (r.strand.pending_tasks ≡ r.strand.tasks + r.running + r.admitted + r.rejecting)
      × (r.strand.tasks + r.running + r.admitted ≤ n)
unfolding create_strand
pending_tasks-counts accepts n ms =
    let h = created-Inv accepts n false ms in
    let settings = play-settings accepts (create_strand n false) ms in
    (
      h.counted,
      subst (λ (m : ℕ). r.strand.tasks + r.running + r.admitted ≤ m) settings.0
          (h.limited settings.1),
    )
  where
    r : Run
    r = play accepts (create_strand n false) ms
