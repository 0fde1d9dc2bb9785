-- ===== src/Sync/Tests.antt =====
-- Runs of a mutex and a semaphore among three threads, and instances of their theorems.
use toyix.WaitQueue.{push, link_last, pop, pop_head, unlink_first}
use toyix.Sync.{
  Call, lock, try_lock, unlock, resume, nothing, acquired, refused, released, halted, World,
  attempt, enter, try_once, give_back, wait_round, take_waiter, wake, start_call, step_from,
  run_steps, fresh,
}
use toyix.Sync.Mutex.{mutex_init, mutex, mutex_lock, mutex_try_lock, mutex_unlock}
use toyix.Sync.Semaphore.{
  Semaphore, semaphore_init, semaphore, semaphore_wait, semaphore_try_wait, semaphore_signal,
}
use toyix.Sync.Pending.{pending}
use toyix.Sync.Laws.{mutex_laws, mutex_units}
use toyix.Sync.Wakeup.{run_steps-pending}
use toyix.Sync.Exclusion.{Alternating, run_steps-Alternating}
use toyix.Sync.Counting.{Balanced, run_steps-Balanced}
use toyix.Prelude.{ℕ, ◌≡◌, ◌≢◌, ◌≤◌, refl, List, [], ◌∷◌, none, ok, panic, ◌>>=◌, arith}

-- Thread 1 locks, thread 2 waits for it, thread 1 unlocks and wakes thread 2, which gets the mutex.
abbrev handover : List (ℕ × Call)
handover =
    (1, lock)
    ∷ (2, lock)
    ∷ (2, resume)
    ∷ (0, try_lock)
    ∷ (1, unlock)
    ∷ (1, resume)
    ∷ (1, resume)
    ∷ (2, resume)
    ∷ (2, resume)
    ∷ (2, lock)
    ∷ []

handover_run :
    (run_steps mutex handover (fresh mutex_init)).0
    ≡ (1, acquired)
      ∷ (2, nothing)
      ∷ (2, nothing)
      ∷ (0, refused)
      ∷ (1, released)
      ∷ (1, nothing)
      ∷ (1, nothing)
      ∷ (2, nothing)
      ∷ (2, acquired)
      ∷ (2, halted lock)
      ∷ []
unfolding attempt enter try_once give_back wait_round take_waiter wake start_call step_from push
    link_last pop pop_head unlink_first
handover_run = refl

semaphore_init_run : semaphore_init 2 ≡ ok (record { count = 2 })
semaphore_init_run = refl

run_steps-Alternating_example : Alternating none (run_steps mutex handover (fresh mutex_init)).0
run_steps-Alternating_example = run_steps-Alternating handover none (fresh mutex_init) (refl, refl)

-- The mutex is unlocked, and thread 2 still waits for thread 1 to wake it.
abbrev unlocking : List (ℕ × Call)
unlocking = (1, lock) ∷ (2, lock) ∷ (2, resume) ∷ (1, unlock) ∷ []

unlocking_waits : (run_steps mutex unlocking (fresh mutex_init)).1.waiters.head ≢ none
unfolding attempt enter give_back wait_round start_call step_from push link_last
unlocking_waits = λ e. ground arith

run_steps-pending_example :
    mutex_units (run_steps mutex unlocking (fresh mutex_init)).1.resource
    ≤ pending 3 (run_steps mutex unlocking (fresh mutex_init)).1.at
run_steps-pending_example =
    run_steps-pending mutex mutex_laws 3 unlocking mutex_init
      (omega arith, (omega arith, (omega arith, (omega arith, tt)))) unlocking_waits

abbrev two_units : World Semaphore
two_units = fresh (record { count = 2 })

abbrev signals : List (ℕ × Call)
signals =
    (0, lock)
    ∷ (1, lock)
    ∷ (2, lock)
    ∷ (2, resume)
    ∷ (0, unlock)
    ∷ (0, resume)
    ∷ (0, resume)
    ∷ (2, resume)
    ∷ (2, resume)
    ∷ []

run_steps-Balanced_example : Balanced signals two_units (run_steps semaphore signals two_units)
run_steps-Balanced_example = run_steps-Balanced signals two_units (omega arith)

lock_run :
    mutex_lock 1 (fresh mutex_init)
    ≡ ok (acquired, (run_steps mutex ((1, lock) ∷ []) (fresh mutex_init)).1)
unfolding enter attempt step_from start_call
lock_run = refl

try_lock_run : (mutex_try_lock 2 (fresh mutex_init)).0 ≡ acquired
unfolding try_once
try_lock_run = refl

unlock_run : mutex_unlock 2 (fresh mutex_init) ≡ panic
unfolding give_back
unlock_run = refl

wait_run : semaphore_try_wait 0 two_units ≡ (acquired, fresh (record { count = 1 }))
unfolding try_once
wait_run = refl

-- The wait and the signal of one thread cancel out.
signal_run :
    semaphore_wait 0 two_units >>= (λ out. semaphore_signal 0 out.1) >>= (λ out. ok out.1.resource)
    ≡ ok (record { count = 2 })
unfolding enter attempt give_back
signal_run = refl
