-- ===== src/Sync/Wakeup.antt =====
-- No wake-up is lost: the steps keep as many threads on their way as can have the resource.
use toyix.WaitQueue.{pop}
use toyix.WaitQueue.Order.{pop-Popped}
use toyix.Sync.{
  Place, outside, queueing, asleep, retrying, releasing, waking, Call, lock, try_lock, unlock,
  resume, Did, Resource, World, move, attempt, enter, give_back, start_call, step_from, step,
  run_steps, follow, fresh, released,
}
use toyix.Sync.Pending.{pending}
use toyix.Sync.Valid.{Lawful, Valid}
use toyix.Prelude.{
  ℕ, ◌≤◌, ◌<◌, ◌≡◌, ◌≢◌, refl, none, Result, ok, panic, endless, ◌>>=◌, ◌>>◌, List, [], ◌∷◌, arith,
}
use toyix.Sync.Steps.{
  Good, attempt-Good, try_once-Good, wait_round-Good, give_back-Good, take_waiter-Good, wake-Good,
}

module _ {S : Type 0} (r : Resource S) (laws : Lawful r) (n : ℕ) where
  -- What a step leaves, unless it panics.
  abbrev pub After : Result (Did × World S) → Type 0
  After (ok (did, w)) = Good r laws n w
  After panic = Unit
  After endless = Unit

  enter-After :
      (w : World S) (self : ℕ) (admitted : Result (Unit {0}))
      → Good r laws n (attempt r self w).1
      → After (admitted >> ok (attempt r self w))
  enter-After w self (ok _) good = good
  enter-After w self panic good = tt
  enter-After w self endless good = tt

  give_back-After :
      (w : World S) (self : ℕ) (threads : List ℕ) (out : Result S)
      → self < n
      → Valid r laws n w threads
      → w.at self ≡ outside
      → r.release self w.resource ≡ out
      → After (out >>= (λ s. ok (released, record (move w self releasing) { resource = s })))
  give_back-After w self threads (ok s) below v here e =
      give_back-Good r laws n w self threads s below v here e
  give_back-After w self threads panic below v here e = tt
  give_back-After w self threads endless below v here e = tt

  start_call-After :
      (self : ℕ) (call : Call) (w : World S) (threads : List ℕ)
      → self < n
      → Valid r laws n w threads
      → w.at self ≡ outside
      → After (start_call r self call w)
  unfolding start_call enter give_back
  start_call-After self lock w threads below v here =
      enter-After w self (r.admit self w.resource)
        (attempt-Good r laws n w self threads below v (λ e. ground arith))
  start_call-After self try_lock w threads below v here = try_once-Good r laws n w self threads v
  start_call-After self unlock w threads below v here =
      give_back-After w self threads (r.release self w.resource) below v here refl
  start_call-After self resume w threads below v here = (threads, v)

  step-After :
      (self : ℕ) (call : Call) (w : World S) (threads : List ℕ) (place : Place)
      → self < n
      → Valid r laws n w threads
      → w.at self ≡ place
      → After (step_from r self call w place)
  unfolding step_from
  step-After self call w threads outside below v here =
      start_call-After self call w threads below v here
  step-After self call w threads queueing below v here =
      wait_round-Good r laws n w self threads below v here
  step-After self call w threads asleep below v here = (threads, v)
  step-After self call w threads retrying below v here =
      attempt-Good r laws n w self threads below v (λ e. ground arith)
  step-After self call w threads releasing below v here =
      take_waiter-Good r laws n w self threads (pop w.waiters) below v here
        (pop-Popped w.waiters threads v.orderly.chain)
  step-After self call w threads (waking t) below v here =
      wake-Good r laws n w self t threads below v here

  -- The steps are those of the `n` threads.
  abbrev pub AllBelow : List (ℕ × Call) → Type 0
  AllBelow [] = Unit
  AllBelow ((self, call) ∷ rest) = (self < n) × AllBelow rest

  follow-Good :
      (self : ℕ) (call : Call) (w : World S) (rest : World S → List (ℕ × Did) × World S)
      (out : Result (Did × World S))
      → Good r laws n w
      → After out
      → ((w' : World S) → Good r laws n w' → Good r laws n (rest w').1)
      → Good r laws n (follow self call w rest out).1
  follow-Good self call w rest (ok (did, w')) good after go = go w' after
  follow-Good self call w rest panic good after go = good
  follow-Good self call w rest endless good after go = good

  run_steps-Good :
      (steps : List (ℕ × Call)) (w : World S)
      → AllBelow steps
      → Good r laws n w
      → Good r laws n (run_steps r steps w).1
  run_steps-Good [] w below good = good
  run_steps-Good ((self, call) ∷ rest) w (lower, below) (threads, v) =
      follow-Good self call w (run_steps r rest) (step r self call w) (threads, v)
        (step-After self call w threads (w.at self) lower v refl)
        (λ w' good. run_steps-Good rest w' below good)

  fresh-Good : (s : S) → Good r laws n (fresh s)
  fresh-Good s = (
    [],
    record {
      orderly = record {
        chain = (refl, refl);
        blocked = tt;
        woken = λ u t e. absurd (ground arith);
        own = λ u v t e e'. absurd (ground arith);
      };
      enough = λ some_wait. absurd (some_wait refl);
    },
  )

  head-Good :
      (w : World S)
      → Good r laws n w
      → w.waiters.head ≢ none
      → laws.units w.resource ≤ pending n w.at
  head-Good w ([], v) waits = absurd (waits v.orderly.chain.0)
  head-Good w (t ∷ rest, v) waits = v.enough (λ e. ground arith)

  -- No wake-up is lost: after any steps of the threads from the start, while a thread waits in the
  -- queue, there are as many threads as can have the resource that are about to look at it again or to
  -- wake a waiter.
  pub run_steps-pending :
      (steps : List (ℕ × Call)) (s : S)
      → AllBelow steps
      → (run_steps r steps (fresh s)).1.waiters.head ≢ none
      → laws.units (run_steps r steps (fresh s)).1.resource
        ≤ pending n (run_steps r steps (fresh s)).1.at
  run_steps-pending steps s below waits =
      head-Good (run_steps r steps (fresh s)).1
        (run_steps-Good steps (fresh s) below (fresh-Good s)) waits
