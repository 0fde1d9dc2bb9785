-- ===== src/Sync/Counting.antt =====
-- The semaphore counts: what its waits take and its signals give is what its count says.
use toyix.WaitQueue.{pop}
use toyix.Sync.{
  Place, outside, queueing, asleep, retrying, releasing, waking, Call, lock, try_lock, unlock,
  resume, Did, nothing, acquired, refused, released, halted, World, attempt, enter, try_once,
  give_back, start_call, step_from, step, run_steps, follow,
}
use toyix.Sync.Semaphore.{Semaphore, semaphore}
use toyix.Sync.Untouched.{wait_round-resource, take_waiter-resource, wake-resource}
use toyix.Prelude.{
  ℕ, suc, ◌+◌, ◌^◌, ◌<◌, ◌≡◌, refl, Result, ok, panic, endless, inl, inr, Bool-cases, List, [], ◌∷◌,
  length, arith,
}

abbrev pub takes : Did → ℕ
takes acquired = 1
takes _ = 0

abbrev pub gives : Did → ℕ
gives released = 1
gives _ = 0

-- How many calls took the resource, and how many gave it back.
abbrev pub taken : List (ℕ × Did) → ℕ
taken [] = 0
taken ((self, did) ∷ rest) = takes did + taken rest

abbrev pub given : List (ℕ × Did) → ℕ
given [] = 0
given ((self, did) ∷ rest) = gives did + given rest

abbrev pub Counted : Semaphore → Result (Did × World Semaphore) → Type 0
Counted before (ok (halted call, w)) = ⊥
Counted before (ok (did, w)) = w.resource.count + takes did ≡ before.count + gives did
Counted before panic = ⊥
Counted before endless = ⊥

attempt-Counted :
    (self : ℕ) (w : World Semaphore)
    → w.resource.count < 2 ^ 31
    → Counted w.resource (ok (attempt semaphore self w))
unfolding attempt
attempt-Counted self w small = elim (Bool-cases (semaphore.available w.resource)) [
  | inl e ↦ rw e (ground arith)
  | inr e ↦ rw e (ground arith)
]

start_call-Counted :
    (self : ℕ) (call : Call) (w : World Semaphore)
    → w.resource.count + 1 < 2 ^ 31
    → Counted w.resource (start_call semaphore self call w)
unfolding start_call enter give_back try_once
start_call-Counted self lock w small = attempt-Counted self w (omega arith)
start_call-Counted self try_lock w small = elim (Bool-cases (semaphore.available w.resource)) [
  | inl e ↦ rw e (ground arith)
  | inr e ↦ rw e (ground arith)
]
start_call-Counted self unlock w small = ground arith
start_call-Counted self resume w small = refl

step-Counted :
    (self : ℕ) (call : Call) (w : World Semaphore) (place : Place)
    → w.resource.count + 1 < 2 ^ 31
    → Counted w.resource (step_from semaphore self call w place)
unfolding step_from
step-Counted self call w outside small = start_call-Counted self call w small
step-Counted self call w queueing small = rw (wait_round-resource semaphore self w) refl
step-Counted self call w asleep small = refl
step-Counted self call w retrying small = attempt-Counted self w (omega arith)
step-Counted self call w releasing small = rw (take_waiter-resource self w (pop w.waiters)) refl
step-Counted self call w (waking t) small = rw (wake-resource self t w) refl

-- Every step has an entry, and none of them is a panic.
abbrev pub Going : List (ℕ × Call) → List (ℕ × Did) → Type 0
Going [] [] = Unit
Going [] (entry ∷ log) = ⊥
Going (step ∷ steps) [] = ⊥
Going (step ∷ steps) ((self, halted call) ∷ log) = ⊥
Going (step ∷ steps) (entry ∷ log) = Going steps log

-- What is known of the rest of a run.
abbrev pub Balanced : List (ℕ × Call) → World Semaphore → List (ℕ × Did) × World Semaphore → Type 0
Balanced steps w out =
    (out.1.resource.count + taken out.0 ≡ w.resource.count + given out.0) × Going steps out.0

follow-Balanced :
    (self : ℕ) (call : Call) (steps : List (ℕ × Call)) (w : World Semaphore)
    (rest : World Semaphore → List (ℕ × Did) × World Semaphore)
    (out : Result (Did × World Semaphore))
    → w.resource.count + suc (length steps) < 2 ^ 31
    → Counted w.resource out
    → ((w' : World Semaphore)
        → w'.resource.count + length steps < 2 ^ 31
        → Balanced steps w' (rest w'))
    → Balanced ((self, call) ∷ steps) w (follow self call w rest out)
follow-Balanced self call steps w rest (ok (nothing, w')) small e go =
    let (sum, all) = go w' (omega arith) in (omega arith, all)
follow-Balanced self call steps w rest (ok (acquired, w')) small e go =
    let (sum, all) = go w' (omega arith) in (omega arith, all)
follow-Balanced self call steps w rest (ok (refused, w')) small e go =
    let (sum, all) = go w' (omega arith) in (omega arith, all)
follow-Balanced self call steps w rest (ok (released, w')) small e go =
    let (sum, all) = go w' (omega arith) in (omega arith, all)
follow-Balanced self call steps w rest (ok (halted _, w')) small e go = absurd e
follow-Balanced self call steps w rest panic small e go = absurd e
follow-Balanced self call steps w rest endless small e go = absurd e

-- A semaphore whose count cannot reach 2 ^ 31 within the steps never halts the machine, and after the
-- steps its count is what it was, more by the signals and less by the waits that have got through.
pub run_steps-Balanced :
    (steps : List (ℕ × Call)) (w : World Semaphore)
    → w.resource.count + length steps < 2 ^ 31
    → Balanced steps w (run_steps semaphore steps w)
run_steps-Balanced [] w small = (refl, tt)
run_steps-Balanced ((self, call) ∷ rest) w small =
    follow-Balanced self call rest w (run_steps semaphore rest) (step semaphore self call w) small
      (step-Counted self call w (w.at self) (omega arith)) (run_steps-Balanced rest)
