-- ===== src/Sync/Untouched.antt =====
-- The steps inside a call do not touch the resource, but for the attempt.
use toyix.WaitQueue.{Queue}
use toyix.Sync.{Resource, World, wait_round, take_waiter, wake}
use toyix.Prelude.{ℕ, ◌≡◌, refl, Option, none, some, arith}

module _ {S : Type 0} where
  pub wait_round-resource :
      (r : Resource S) (self : ℕ) (w : World S) → (wait_round r self w).resource ≡ w.resource
  unfolding wait_round
  wait_round-resource r self w = ground arith

  pub take_waiter-resource :
      (self : ℕ) (w : World S) (popped : Option ℕ × Queue)
      → (take_waiter self w popped).resource ≡ w.resource
  unfolding take_waiter
  take_waiter-resource self w (none, rest) = refl
  take_waiter-resource self w (some t, rest) = refl

  pub wake-resource : (self thread : ℕ) (w : World S) → (wake self thread w).resource ≡ w.resource
  unfolding wake
  wake-resource self thread w = ground arith
