-- ===== src/Connection/Ingress/Limit.antt =====
-- How many messages of a client get past the limit.
use beprotocol.Common.{
  ℕ, ◌+◌, ◌*◌, ◌≤◌, ◌≡◌, refl, List, [], ◌∷◌, ◌&&◌, ltb, leb, if◌then◌else◌, arith,
}
use beprotocol.Connection.Ingress.{Limits, Window, raw_ingress_window, renew_window, admit}

-- Of messages that come at these times, the ones that are taken at `t` or in the second after it.
unfoldable pub taken_since : Limits → ℕ → Window → List ℕ → ℕ
taken_since limits t w [] = 0
taken_since limits t w (now ∷ times) =
    let rest = taken_since limits t (admit limits now w).1 times in
    if (admit limits now w).0 && leb t now && ltb now (t + raw_ingress_window)
    then 1 + rest
    else rest

-- The times of a clock that does not go back, from `now` on.
unfoldable pub IsClock : ℕ → List ℕ → Type 0
IsClock now [] = Unit
IsClock now (next ∷ times) = (now ≤ next) × IsClock next times

-- From a second after `t` on, nothing counts.
taken_since-past :
    (limits : Limits) (t now : ℕ) (w : Window) (times : List ℕ)
    → t + raw_ingress_window ≤ now
    → IsClock now times
    → taken_since limits t w times ≡ 0
unfolding taken_since IsClock
taken_since-past limits t now w [] past h = refl
taken_since-past limits t now w (next ∷ times) past (e, h) =
    ground (arith, taken_since-past limits t next (admit limits next w).1 times)

-- A window that starts no earlier than `t`.
taken_since-late :
    (limits : Limits) (t now : ℕ) (w : Window) (times : List ℕ)
    → t ≤ w.start
    → 1 ≤ w.start
    → w.packets ≤ limits.max_packets_per_second
    → IsClock now times
    → taken_since limits t w times + w.packets ≤ limits.max_packets_per_second
unfolding taken_since IsClock admit renew_window
taken_since-late limits t now w [] a b c h = omega arith
taken_since-late limits t now w (next ∷ times) a b c (e, h) = ground (
  arith,
  taken_since-late limits t next (admit limits next w).1 times,
  taken_since-past limits t next (admit limits next w).1 times,
)

-- Any window, when `t` has come.
taken_since-come :
    (limits : Limits) (t now : ℕ) (w : Window) (times : List ℕ)
    → 1 ≤ t
    → t ≤ now
    → w.packets ≤ limits.max_packets_per_second
    → IsClock now times
    → taken_since limits t w times + w.packets ≤ 2 * limits.max_packets_per_second
unfolding taken_since IsClock admit renew_window
taken_since-come limits t now w [] a b c h = omega arith
taken_since-come limits t now w (next ∷ times) a b c (e, h) = ground (
  arith,
  taken_since-come limits t next (admit limits next w).1 times,
  taken_since-late limits t next (admit limits next w).1 times,
)

-- Whatever the window of a client is, with no more messages in it than the limit, and whenever its messages come, by
-- a clock that does not go back: of the messages that come in the second from `t` on, where `t` is not the clock's
-- zero, no more than twice the limit are taken.
pub taken_since-limit :
    (limits : Limits) (t now : ℕ) (w : Window) (times : List ℕ)
    → 1 ≤ t
    → w.packets ≤ limits.max_packets_per_second
    → IsClock now times
    → taken_since limits t w times ≤ 2 * limits.max_packets_per_second
unfolding taken_since IsClock admit renew_window
taken_since-limit limits t now w [] a c h = omega arith
taken_since-limit limits t now w (next ∷ times) a c (e, h) = ground (
  arith,
  taken_since-limit limits t next (admit limits next w).1 times,
  taken_since-come limits t next w (next ∷ times),
)
