-- ===== src/Thread/Create.antt =====
-- kernel/thread.c: creating threads, and the start of the scheduler. The objects and the kernel stacks come
-- from the heap, whose calls panic rather than fail: they are arguments, and never null. `words` are the
-- words of memory by address; `bootstrap_at` is the address of thread_bootstrap. The id, the name, the
-- entry and its argument, which the scheduler does not read, are left out.
pub mod Frame
pub mod Start
mod Tests
use toyix.WaitQueue.{set_links}
use toyix.Thread.{State, new, running, Scheduler, Ends, thread_magic, validate_thread, ready_push}
use toyix.Prelude.{
  ℕ, zero, suc, ◌+◌, ◌-◌, ◌%◌, ◌^◌, Bool, true, false, if◌then◌else◌, Option, none, some, update,
  Result, ok, panic, ◌>>=◌, ◌>>◌, require, List, [], ◌∷◌,
}

-- THREAD_STACK_SIZE
abbrev pub thread_stack_size : ℕ
thread_stack_size = 16384

-- The words of the first frame, in the order in which they are pushed: the flags, the code selector and
-- the address to go to, the error code and the vector, eight registers, and the data selector.
abbrev pub initial_words : (bootstrap_at : ℕ) → List ℕ
initial_words bootstrap_at =
    0x202 ∷ 0x8 ∷ bootstrap_at ∷ 0 ∷ 48 ∷ 0 ∷ 0 ∷ 0 ∷ 0 ∷ 0 ∷ 0 ∷ 0 ∷ 0 ∷ 0x10 ∷ []

-- `*(--sp) = word` for each word.
pub push_words : List ℕ → (sp : ℕ) → (ℕ → ℕ) → ℕ × (ℕ → ℕ)
push_words [] sp words = (sp, words)
push_words (word ∷ rest) sp words =
    push_words rest ((sp + 2 ^ 32 - 4) % 2 ^ 32) (update words ((sp + 2 ^ 32 - 4) % 2 ^ 32) word)

abbrev pub aligned_top : (stack_base stack_size : ℕ) → ℕ
aligned_top stack_base stack_size =
    (stack_base + stack_size) % 2 ^ 32 - (stack_base + stack_size) % 2 ^ 32 % 16

pub thread_make_initial_stack :
    (bootstrap_at thread : ℕ) → (ℕ → ℕ) → Scheduler → Result ((ℕ → ℕ) × Scheduler)
thread_make_initial_stack bootstrap_at thread words s = do
  validate_thread thread s
  let out =
      push_words (initial_words bootstrap_at)
        (aligned_top (s.stack_base thread) (s.stack_size thread)) words
  ok (out.1, record s { esp = update s.esp thread out.0 })

-- The assignments to the new object.
abbrev pub new_thread : (thread stack : ℕ) → Scheduler → Scheduler
new_thread thread stack s = record s {
  magic = update s.magic thread thread_magic;
  state = update s.state thread new;
  stack_base = update s.stack_base thread stack;
  stack_size = update s.stack_size thread thread_stack_size;
  process = update s.process thread none;
  wake_tick = update s.wake_tick thread 0;
  links = set_links s.links thread (record { next = none; prev = none });
}

pub thread_create_internal :
    (entry : Option ℕ)
    → (enqueue : Bool) → (bootstrap_at thread stack : ℕ) → (ℕ → ℕ)
    → Scheduler
    → Result ((ℕ → ℕ) × Scheduler)
thread_create_internal none enqueue bootstrap_at thread stack words s = panic
thread_create_internal (some entry) enqueue bootstrap_at thread stack words s = do
  made ← thread_make_initial_stack bootstrap_at thread words (new_thread thread stack s)
  pushed ← if enqueue then ready_push thread made.1 else ok made.1
  ok (made.0, pushed)

pub thread_create :
    (entry : Option ℕ)
    → (bootstrap_at thread stack : ℕ) → (ℕ → ℕ)
    → Scheduler
    → Result ((ℕ → ℕ) × Scheduler)
thread_create entry bootstrap_at thread stack words s =
    thread_create_internal entry true bootstrap_at thread stack words s

pub thread_create_suspended :
    (entry : Option ℕ)
    → (bootstrap_at thread stack : ℕ) → (ℕ → ℕ)
    → Scheduler
    → Result ((ℕ → ℕ) × Scheduler)
thread_create_suspended entry bootstrap_at thread stack words s =
    thread_create_internal entry false bootstrap_at thread stack words s

abbrev pub no_threads : Ends
no_threads = record { head = none; tail = none }

-- The assignments of threading_init before it creates the idle thread.
abbrev pub start_state : Scheduler → Scheduler
start_state s = record s {
  ready_queue = no_threads;
  sleep_queue = no_threads;
  zombie_queue = no_threads;
  zombie_created = 0;
  zombie_reaped = 0;
  initialized = false;
  preemption = false;
  ticks_per_slice = 1;
  slice_ticks = 0;
  reschedule = false;
  ticks = 0;
  magic = update s.magic s.bootstrap thread_magic;
  state = update s.state s.bootstrap running;
  esp = update s.esp s.bootstrap 0;
  stack_base = update s.stack_base s.bootstrap 0;
  stack_size = update s.stack_size s.bootstrap 0;
  process = update s.process s.bootstrap none;
  wake_tick = update s.wake_tick s.bootstrap 0;
  links = set_links s.links s.bootstrap (record { next = none; prev = none });
  current = s.bootstrap;
}

pub threading_init :
    (idle_entry bootstrap_at thread stack : ℕ) → (ℕ → ℕ) → Scheduler → Result ((ℕ → ℕ) × Scheduler)
threading_init idle_entry bootstrap_at thread stack words s = do
  made ←
      thread_create_internal (some idle_entry) false bootstrap_at thread stack words (start_state s)
  ok (made.0, record made.1 { idle = thread; initialized = true })

pub thread_set_process : (thread : ℕ) → (process : Option ℕ) → Scheduler → Result Scheduler
thread_set_process thread process s = do
  validate_thread thread s
  ok (record s { process = update s.process thread process })

pub thread_get_process : (thread : ℕ) → Scheduler → Result (Option ℕ)
thread_get_process thread s = do validate_thread thread s; ok (s.process thread)
