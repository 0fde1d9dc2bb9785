-- ===== src/Thread/Waiters.antt =====
-- kernel/wait_queue.c over the scheduler: the queue of blocked threads uses the links of the threads, as
-- the queues of the scheduler do. `ends` are the fields of the wait queue, which is never null.
pub mod Broadcast
mod Tests
use toyix.WaitQueue.{Queue, push, pop}
use toyix.Thread.{Scheduler, Ends, queue, ends_of, thread_block_current, thread_wake}
use toyix.Prelude.{ℕ, zero, suc, ◌+◌, ◌%◌, ◌^◌, Option, none, some, Result, ok, endless, ◌>>=◌}

-- What wait_queue_init leaves.
abbrev pub no_waiters : Ends
no_waiters = record { head = none; tail = none }

-- A round of the loop of wait_queue_wait whose condition does not hold, up to its thread_yield.
pub wait_once : Ends → Scheduler → Result (Ends × Scheduler)
wait_once ends s =
    let q = push (queue s ends) s.current in
    thread_block_current (record s { links = q.links }) >>= (λ s'. ok (ends_of q, s'))

-- A round of wait_queue_wake_all, for the thread that was taken.
pub wake_next :
    (Ends → Scheduler → Result (Ends × Scheduler))
    → Option ℕ × Queue
    → Scheduler
    → Result (Ends × Scheduler)
wake_next rest (none, q) s = ok (ends_of q, s)
wake_next rest (some thread, q) s =
    thread_wake (some thread) (record s { links = q.links }) >>= rest (ends_of q)

pub wait_queue_wake_all : (rounds : ℕ) → Ends → Scheduler → Result (Ends × Scheduler)
wait_queue_wake_all zero ends s = endless
wait_queue_wake_all (suc rounds) ends s =
    wake_next (wait_queue_wake_all rounds) (pop (queue s ends)) s

-- The loop of wait_queue_count_locked.
pub count_locked : (rounds : ℕ) → (thread : Option ℕ) → (count : ℕ) → Scheduler → Result ℕ
count_locked zero thread count s = endless
count_locked (suc rounds) none count s = ok count
count_locked (suc rounds) (some thread) count s =
    count_locked rounds (s.links thread).next ((count + 1) % 2 ^ 32) s

pub wait_queue_count : (rounds : ℕ) → Ends → Scheduler → Result ℕ
wait_queue_count rounds ends s = count_locked rounds ends.head 0 s
