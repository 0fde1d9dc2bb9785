-- ===== src/Thread/Create/Tests.antt =====
-- The start of the scheduler and a first thread.
use toyix.WaitQueue.{push, link_last, set_links}
use toyix.Thread.{new, running, Scheduler, ready_push, enqueue_ready, thread_magic}
use toyix.Thread.Valid.{Valid}
use toyix.Thread.Create.{
  push_words, thread_make_initial_stack, thread_create_internal, thread_create,
  thread_create_suspended, start_state, threading_init,
}
use toyix.Thread.Create.Start.{NewThread, thread_create-NewThread, threading_init-NewThread}
use toyix.Thread.{ready}
use toyix.Prelude.{
  ℕ, ◌≡◌, inl, refl, true, false, ◌==◌, if◌then◌else◌, [], ◌∷◌, none, some, ok, panic, ◌>>=◌, arith,
}

-- Thread 7 runs before the start.
abbrev before : Scheduler
before = record {
  magic = λ t. 0;
  state = λ t. new;
  esp = λ t. 0;
  stack_base = λ t. 0;
  stack_size = λ t. 0;
  process = λ t. none;
  wake_tick = λ t. 0;
  links = λ t. record { next = none; prev = none };
  bootstrap = 7;
  idle = 0;
  current = 0;
  ready_queue = record { head = none; tail = none };
  sleep_queue = record { head = none; tail = none };
  zombie_queue = record { head = none; tail = none };
  initialized = false;
  preemption = false;
  ticks_per_slice = 0;
  slice_ticks = 0;
  reschedule = false;
  ticks = 0;
  zombie_created = 0;
  zombie_reaped = 0;
}

-- The idle thread is 8, with its stack at 0xd1001008, and thread 9 is created then.
start_run :
    (do
      started ← threading_init 0x100 0x1234 8 0xd1001008 (λ a. 0) before
      made ← thread_create (some 0x200) 0x1234 9 0xd1006000 started.0 started.1
      ok made.1.ready_queue)
    ≡ ok (record { head = some 9; tail = some 9 })
unfolding threading_init thread_create thread_create_internal thread_make_initial_stack push_words
    ready_push enqueue_ready push link_last set_links
start_run = refl

esp_run :
    (do started ← threading_init 0x100 0x1234 8 0xd1001008 (λ a. 0) before; ok (started.1.esp 8))
    ≡ ok 0xd1004fc8
unfolding threading_init thread_create_internal thread_make_initial_stack push_words
esp_run = refl

null_run : thread_create_suspended none 0x1234 8 0xd1001000 (λ a. 0) before ≡ panic
unfolding thread_create_suspended thread_create_internal
null_run = refl

-- The idle thread is 1, and thread 7 runs.
abbrev running_alone : Scheduler
running_alone = record before {
  magic = λ t. thread_magic;
  state = λ t. if t == 7 then running else new;
  idle = 1;
  current = 7;
  initialized = true;
}

abbrev running_alone-Valid : Valid running_alone [] [] []
running_alone-Valid = record {
  ready_chain = (refl, refl);
  sleep_chain = (refl, refl);
  zombie_chain = (refl, refl);
  ready_in = tt;
  sleep_in = tt;
  zombie_in = tt;
  current_magic = refl;
  idle_magic = refl;
  idle_state = inl refl;
}

thread_create-NewThread_example :
    (out : (ℕ → ℕ) × Scheduler) × (thread_create
        (some 0x200)
        0x1234
        9
        0xd1006000
        (λ a. 0)
        running_alone
      ≡ ok out)
    × NewThread running_alone (9 ∷ []) [] [] ready 0x1234 9 0xd1006000 (λ a. 0) out
thread_create-NewThread_example =
    thread_create-NewThread 0x1234 9 0xd1006000 (λ a. 0) (omega arith) (omega arith) 0x200
      running_alone-Valid (omega arith) (tt, tt, tt)

threading_init-NewThread_example :
    (out : (ℕ → ℕ) × Scheduler) × (threading_init 0x100 0x1234 8 0xd1001008 (λ a. 0) before
      ≡ ok out)
    × NewThread (start_state before) [] [] [] new 0x1234 8 0xd1001008 (λ a. 0) out
    × (out.1.current ≡ 7)
    × (out.1.state 7 ≡ running)
    × (out.1.idle ≡ 8)
    × (out.1.initialized ≡ true)
threading_init-NewThread_example =
    threading_init-NewThread 0x1234 8 0xd1001008 (λ a. 0) (omega arith) (omega arith) before 0x100
      (omega arith)
