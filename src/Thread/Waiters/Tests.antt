-- ===== src/Thread/Waiters/Tests.antt =====
-- Three threads that wait for one event.
use toyix.WaitQueue.{push, pop, pop_head, link_last, unlink_first, set_links}
use toyix.Thread.{
  new, running, blocked, Scheduler, Ends, thread_magic, thread_block_current, thread_wake,
  ready_push, enqueue_ready,
}
use toyix.Thread.Valid.{Valid}
use toyix.Thread.Waiters.{no_waiters, wait_once, wake_next, wait_queue_wake_all}
use toyix.Thread.Waiters.Broadcast.{Waiting, wake_all-Valid}
use toyix.Prelude.{
  ◌+◌, ◌≡◌, inl, refl, true, false, ◌==◌, if◌then◌else◌, [], ◌∷◌, none, some, ok, ◌>>=◌, arith,
}

-- Thread 0 runs, 1 is the idle thread, and 2 and 3 are blocked in the queue.
abbrev waiting : Scheduler
waiting = record {
  magic = λ t. thread_magic;
  state = λ t. if t == 0 then running else if t == 1 then new else blocked;
  esp = λ t. 1000 + t;
  stack_base = λ t. 0;
  stack_size = λ t. 0;
  process = λ t. none;
  wake_tick = λ t. 0;
  links = λ t.
      if t == 2
      then record { next = some 3; prev = none }
      else if t == 3
      then record { next = none; prev = some 2 }
      else record { next = none; prev = none };
  bootstrap = 9;
  idle = 1;
  current = 0;
  ready_queue = record { head = none; tail = none };
  sleep_queue = record { head = none; tail = none };
  zombie_queue = record { head = none; tail = none };
  initialized = true;
  preemption = true;
  ticks_per_slice = 1;
  slice_ticks = 0;
  reschedule = false;
  ticks = 5;
  zombie_created = 0;
  zombie_reaped = 0;
}

abbrev ends_at : Ends
ends_at = record { head = some 2; tail = some 3 }

abbrev waiting-Waiting : Waiting waiting ends_at (2 ∷ 3 ∷ []) [] [] []
waiting-Waiting = record {
  valid = record {
    ready_chain = (refl, refl);
    sleep_chain = (refl, refl);
    zombie_chain = (refl, refl);
    ready_in = tt;
    sleep_in = tt;
    zombie_in = tt;
    current_magic = refl;
    idle_magic = refl;
    idle_state = inl refl;
  };
  holds = (refl, refl, (omega arith, tt), (refl, refl, tt, (refl, refl)));
  blocked_in = ((refl, refl, omega arith), ((refl, refl, omega arith), tt));
}

-- Thread 0 joins the others, and one call wakes all three.
wake_run :
    (do
      waited ← wait_once ends_at waiting
      woken ← wait_queue_wake_all 4 waited.0 waited.1
      ok woken.1.ready_queue)
    ≡ ok (record { head = some 2; tail = some 0 })
unfolding wait_once wake_next wait_queue_wake_all push pop pop_head link_last unlink_first set_links
    thread_block_current thread_wake ready_push enqueue_ready
wake_run = refl

wake_all-Valid_example :
    (s' : Scheduler) × (wait_queue_wake_all 3 ends_at waiting ≡ ok (no_waiters, s'))
    × Valid s' (2 ∷ 3 ∷ []) [] []
wake_all-Valid_example =
    wake_all-Valid 3 waiting ends_at (2 ∷ 3 ∷ []) [] [] [] (omega arith) waiting-Waiting
