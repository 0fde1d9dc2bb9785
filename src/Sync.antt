-- ===== src/Sync.antt =====
-- kernel/sync.c and the waiting of kernel/wait_queue.c: the mutex and the semaphore, for threads whose
-- steps are interleaved. What runs with interrupts disabled is one step; a thread's place says which
-- step is its next. The mutex and the semaphore are two resources of the same waiting loop.
pub mod Mutex
pub mod Semaphore
pub mod Untouched
pub mod Pending
pub mod Valid
pub mod Waiting
pub mod Steps
pub mod Wakeup
pub mod Laws
mod Tests
pub mod Exclusion
pub mod Counting
use toyix.WaitQueue.{Queue, push, pop}
use toyix.Prelude.{
  ℕ, ◌+◌, ◌-◌, ◌%◌, ◌^◌, Bool, true, false, not, ◌&&◌, ltb, ◌==◌, if◌then◌else◌, Option, none, some,
  update, Result, ok, panic, endless, ◌>>=◌, ◌>>◌, require, List, [], ◌∷◌,
}

-- Where a thread is: outside the calls, before a round of the loop of wait_queue_wait, blocked in its
-- queue, back from wait_queue_wait, before wait_queue_wake_one, or before its thread_wake.
pub data Place : Type 0 where
  outside queueing asleep retrying releasing : Place
  waking : (thread : ℕ) → Place

-- What a thread outside the calls may call, and `resume` for a thread inside a call.
pub data Call : Type 0 where
  lock try_lock unlock resume : Call

-- What a step shows to the thread's program: a call has returned with the resource or without it, the
-- resource has been given back, or the machine has halted in a panic.
pub data Did : Type 0 where
  nothing acquired refused released : Did
  halted : Call → Did

-- What a mutex and a semaphore do with their own fields: the condition that waiters wait for, the test
-- before the first attempt, the assignments that take the resource, and those that give it back.
pub record Resource (S : Type 0) : Type 0 where
  pub available : S → Bool
  pub admit : ℕ → S → Result (Unit {0})
  pub acquire : ℕ → S → S
  pub release : ℕ → S → Result S

pub record World (S : Type 0) : Type 0 where
  pub resource : S
  pub waiters : Queue
  pub at : ℕ → Place

abbrev pub is_asleep : Place → Bool
is_asleep asleep = true
is_asleep _ = false

module _ {S : Type 0} where
  abbrev pub move : World S → ℕ → Place → World S
  move w self place = record w { at = update w.at self place }

  -- A round of the loop of mutex_lock and semaphore_wait, and what follows the loop.
  pub attempt : Resource S → (self : ℕ) → World S → Did × World S
  attempt r self w =
      if r.available w.resource
      then (acquired, record (move w self outside) { resource = r.acquire self w.resource })
      else (nothing, move w self queueing)

  -- The call, up to the end of its first round.
  pub enter : Resource S → (self : ℕ) → World S → Result (Did × World S)
  enter r self w = do r.admit self w.resource; ok (attempt r self w)

  pub try_once : Resource S → (self : ℕ) → World S → Did × World S
  try_once r self w =
      if r.available w.resource
      then (acquired, record w { resource = r.acquire self w.resource })
      else (refused, w)

  -- The part before wait_queue_wake_one.
  pub give_back : Resource S → (self : ℕ) → World S → Result (Did × World S)
  give_back r self w = do
    resource ← r.release self w.resource
    ok (released, record (move w self releasing) { resource = resource })

  -- A round of the loop of wait_queue_wait; the thread blocks at its end.
  pub wait_round : Resource S → (self : ℕ) → World S → World S
  wait_round r self w =
      if r.available w.resource
      then move w self retrying
      else record (move w self asleep) { waiters = push w.waiters self }

  -- wait_queue_wake_one up to its irq_restore.
  pub take_waiter : (self : ℕ) → World S → Option ℕ × Queue → World S
  take_waiter self w (none, rest) = record (move w self outside) { waiters = rest }
  take_waiter self w (some thread, rest) = record (move w self (waking thread)) { waiters = rest }

  -- thread_wake at the end of wait_queue_wake_one. A thread that is not blocked is left alone.
  pub wake : (self thread : ℕ) → World S → World S
  wake self thread w =
      let back = move w self outside in
      if is_asleep (back.at thread) then move back thread queueing else back

  pub start_call : Resource S → (self : ℕ) → Call → World S → Result (Did × World S)
  start_call r self lock w = enter r self w
  start_call r self try_lock w = ok (try_once r self w)
  start_call r self unlock w = give_back r self w
  start_call r self resume w = ok (nothing, w)

  -- A blocked thread does not run.
  pub step_from : Resource S → (self : ℕ) → Call → World S → Place → Result (Did × World S)
  step_from r self call w outside = start_call r self call w
  step_from r self call w queueing = ok (nothing, wait_round r self w)
  step_from r self call w asleep = ok (nothing, w)
  step_from r self call w retrying = ok (attempt r self w)
  step_from r self call w releasing = ok (nothing, take_waiter self w (pop w.waiters))
  step_from r self call w (waking thread) = ok (nothing, wake self thread w)

  abbrev pub step : Resource S → (self : ℕ) → Call → World S → Result (Did × World S)
  step r self call w = step_from r self call w (w.at self)

  abbrev pub follow :
      (self : ℕ)
      → Call
      → World S
      → (World S → List (ℕ × Did) × World S)
      → Result (Did × World S)
      → List (ℕ × Did) × World S
  follow self call w rest (ok (did, w')) = ((self, did) ∷ (rest w').0, (rest w').1)
  follow self call w rest panic = ((self, halted call) ∷ [], w)
  follow self call w rest endless = ((self, halted call) ∷ [], w)

  -- The threads' steps, in the order of the list: what they show, and the last state. A panic halts the
  -- machine.
  abbrev pub run_steps : Resource S → List (ℕ × Call) → World S → List (ℕ × Did) × World S
  run_steps r [] w = ([], w)
  run_steps r ((self, call) ∷ rest) w = follow self call w (run_steps r rest) (step r self call w)

  -- What wait_queue_init leaves, with every thread outside the calls.
  abbrev pub fresh : S → World S
  fresh s = record {
    resource = s;
    waiters = record {
      links = λ thread. record { next = none; prev = none };
      head = none;
      tail = none;
    };
    at = λ thread. outside;
  }
