-- ===== src/Connection/Strand/Progress.antt =====
-- How the moves of a strand's threads come to an end.
use beprotocol.Common.{
  ℕ, ◌+◌, ◌*◌, ◌≤◌, ◌<◌, ◌≡◌, refl, subst, List, [], ◌∷◌, length, Bool, true, false, ◌==◌,
  if◌then◌else◌, arith,
}
use mathlib.Core.Bool.{false≢true}
use beprotocol.Connection.Strand.{
  Run, Move, create_strand, enabled, begin_enqueue, exchange, try_dequeue, check_size,
  exchange_again, act, step, play,
}
use beprotocol.Connection.Strand.Exclusion.{owners, Inv, create_strand-Inv, step-Inv, created-Inv}

-- The moves that are not part of a call of `enqueue` before its task is in the queue.
abbrev pub is_internal : Move → Bool
is_internal Move.enqueue = false
is_internal Move.reject = false
is_internal Move.lose = false
is_internal Move.push = false
is_internal _ = true

-- How many internal moves can still come, at most. A thread that has found the queue empty goes round once more if
-- a task has come since.
unfoldable pub measure : Run → ℕ
measure r =
    (if r.strand.tasks == 0 then 2 * r.storing + r.checking else 6 * r.storing + 5 * r.checking)
    + 2 * r.strand.tasks
    + 8 * r.scheduling
    + 7 * r.submitting
    + 4 * r.submitted
    + 6 * r.refused
    + 3 * r.draining
    + 4 * r.running
    + 4 * r.retrying

-- An answer of `size_approx` that tells whether the queue is empty; a move that does not ask has none.
unfoldable pub IsExact : Run → Move → Type 0
IsExact r (Move.check size) = (size == 0) ≡ (r.strand.tasks == 0)
IsExact r _ = Unit

act-measure :
    (accepts : Bool) (r : Run) (m : Move)
    → is_internal m ≡ true
    → enabled accepts r m ≡ true
    → IsExact r m
    → measure (act r m) < measure r
unfolding IsExact enabled act exchange try_dequeue check_size exchange_again measure
act-measure accepts r Move.enqueue i e exact = absurd (false≢true i)
act-measure accepts r Move.reject i e exact = absurd (false≢true i)
act-measure accepts r Move.lose i e exact = absurd (false≢true i)
act-measure accepts r Move.push i e exact = absurd (false≢true i)
act-measure accepts r Move.schedule i e exact = ground arith
act-measure accepts r Move.submit i e exact = ground arith
act-measure accepts r Move.refuse i e exact = ground arith
act-measure accepts r Move.release i e exact = ground arith
act-measure accepts r Move.start i e exact = ground arith
act-measure accepts r Move.dequeue i e exact = ground arith
act-measure accepts r Move.finish i e exact = ground arith
act-measure accepts r Move.store i e exact = ground arith
act-measure accepts r (Move.check size) i e exact = ground (arith, exact)
act-measure accepts r Move.retry i e exact = ground arith

-- No thread can make an internal move.
abbrev pub IsQuiet : Bool → Run → Type 0
IsQuiet accepts r = (m : Move) → is_internal m ≡ true → enabled accepts r m ≡ false

-- Some thread will still look at a queue that is not empty.
unfoldable Attended : Run → Type 0
Attended r = 1 ≤ r.strand.tasks → 1 ≤ r.scheduling + owners r + r.checking + r.retrying

act-Attended :
    (accepts : Bool) (r : Run) (m : Move)
    → enabled accepts r m ≡ true
    → IsExact r m
    → Inv accepts r
    → Attended r
    → Attended (act r m)
unfolding Attended IsExact enabled act begin_enqueue exchange try_dequeue check_size exchange_again
act-Attended accepts r Move.enqueue e exact h a = ground arith
act-Attended accepts r Move.reject e exact h a = ground arith
act-Attended accepts r Move.lose e exact h a = ground arith
act-Attended accepts r Move.push e exact h a = ground arith
act-Attended accepts r Move.schedule e exact h a = ground arith
act-Attended accepts r Move.submit e exact h a = ground arith
act-Attended accepts r Move.refuse e exact h a = ground arith
act-Attended accepts r Move.release e exact h a = ground arith
act-Attended accepts r Move.start e exact h a = ground arith
act-Attended accepts r Move.dequeue e exact h a = ground arith
act-Attended accepts r Move.finish e exact h a = ground arith
act-Attended accepts r Move.store e exact h a = ground arith
act-Attended accepts r Move.retry e exact h a = ground arith
act-Attended accepts r (Move.check size) e exact h a = ground (arith, exact)

-- Every answer of `size_approx` tells whether the queue is empty at that moment.
unfoldable pub IsExactRun : Bool → Run → List Move → Type 0
IsExactRun accepts r [] = Unit
IsExactRun accepts r (m ∷ ms) = IsExact r m × IsExactRun accepts (step accepts r m) ms

step-Attended :
    (accepts : Bool) (r : Run) (m : Move)
    → IsExact r m
    → Inv accepts r
    → Attended r
    → Attended (step accepts r m)
unfolding step
step-Attended accepts r m exact h a = go (enabled accepts r m) (act-Attended accepts r m)
  where
    go :
        (c : Bool)
        → (c ≡ true → IsExact r m → Inv accepts r → Attended r → Attended (act r m))
        → Attended (if c then act r m else r)
    go true kept = kept refl exact h a
    go false kept = a

play-Attended :
    (accepts : Bool) (r : Run) (ms : List Move)
    → IsExactRun accepts r ms
    → Inv accepts r
    → Attended r
    → Attended (play accepts r ms)
unfolding play IsExactRun
play-Attended accepts r [] exact h a = a
play-Attended accepts r (m ∷ ms) (e, exact) h a =
    play-Attended accepts (step accepts r m) ms exact (step-Inv accepts r m h)
      (step-Attended accepts r m e h a)

create_strand-Attended : (n : ℕ) (policy : Bool) → Attended (create_strand n policy)
unfolding Attended create_strand
create_strand-Attended n policy = omega arith

quiet-empty : (accepts : Bool) (r : Run) → Attended r → IsQuiet accepts r → r.strand.tasks ≡ 0
unfolding enabled Attended
quiet-empty accepts r h quiet = ground (
  arith,
  quiet Move.schedule refl,
  quiet Move.submit refl,
  quiet Move.release refl,
  quiet Move.start refl,
  quiet Move.dequeue refl,
  quiet Move.finish refl,
  quiet Move.store refl,
  quiet (Move.check 0) refl,
  quiet Move.retry refl,
)

-- Every move of the list is internal and is one that a thread can make when its turn comes.
unfoldable pub IsInternalRun : Bool → Run → List Move → Type 0
IsInternalRun accepts r [] = Unit
IsInternalRun accepts r (m ∷ ms) =
    (is_internal m ≡ true) × (enabled accepts r m ≡ true) × IsInternalRun accepts (act r m) ms

play-measure :
    (accepts : Bool) (r : Run) (ms : List Move)
    → IsInternalRun accepts r ms
    → IsExactRun accepts r ms
    → length ms + measure (play accepts r ms) ≤ measure r
unfolding play step IsInternalRun IsExactRun
play-measure accepts r [] h exact = omega arith
play-measure accepts r (m ∷ ms) (i, e, h) (x, exact) =
    let same : step accepts r m ≡ act r m = unfold step in rw e refl in
    rw e (
      omega (
        arith,
        act-measure accepts r m i e x,
        play-measure accepts (act r m) ms h
            (subst (λ (q : Run). IsExactRun accepts q ms) same exact),
      ))

-- Let the atomic operations be sequentially consistent, and let every answer of `size_approx` tell whether the queue
-- is empty at that moment, which the code does not force. Let threads have made any moves on a new strand, whether
-- the pool takes every submission or not, and let the moves `ms` that follow be moves of the strand's threads only,
-- until no thread can move. Then there are no more of them than `measure` says of the state before them, and the
-- queue is empty: no task is lost.
pub quiet-tasks :
    (accepts : Bool) (n : ℕ) (policy : Bool) (before ms : List Move)
    → IsExactRun accepts (create_strand n policy) before
    → IsExactRun accepts (play accepts (create_strand n policy) before) ms
    → IsInternalRun accepts (play accepts (create_strand n policy) before) ms
    → IsQuiet accepts (play accepts (play accepts (create_strand n policy) before) ms)
    → (length ms ≤ measure (play accepts (create_strand n policy) before))
      × ((play accepts (play accepts (create_strand n policy) before) ms).strand.tasks ≡ 0)
quiet-tasks accepts n policy before ms exact_before exact internal quiet = (
  omega (arith, play-measure accepts r ms internal exact),
  quiet-empty accepts (play accepts r ms)
      (play-Attended accepts r ms exact (created-Inv accepts n policy before) (
        play-Attended accepts (create_strand n policy) before exact_before
          (create_strand-Inv accepts n policy) (create_strand-Attended n policy)))
      quiet,
)
  where
    r : Run
    r = play accepts (create_strand n policy) before
