-- ===== src/Sync/Pending.antt =====
-- The threads on their way: those that will look at the resource again, or wake a waiter.
use toyix.Sync.{Place, outside, asleep}
use toyix.Prelude.{ℕ, ◌+◌, ◌<◌, ◌≡◌, Bool, true, false, if◌then◌else◌, update, count, count-update}

abbrev pub is_pending : Place → Bool
is_pending outside = false
is_pending asleep = false
is_pending _ = true

-- Of the threads below `n`.
abbrev pub pending : ℕ → (ℕ → Place) → ℕ
pending n at = count n (λ t. is_pending (at t))

abbrev pub weight : Place → ℕ
weight place = if is_pending place then 1 else 0

-- A thread's move adds the weight of its new place and takes that of its old one.
pub pending-update :
    (n t : ℕ) (at : ℕ → Place) (place : Place)
    → t < n
    → pending n (update at t place) + weight (at t) ≡ pending n at + weight place
pending-update n t at place lt = count-update n t is_pending at place lt
