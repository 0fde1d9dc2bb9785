-- ===== src/Thread.antt =====
-- kernel/thread.c: the scheduler. Threads are numbered, and a null pointer is `none`; the fields of the
-- threads are functions of the number. Every operation runs with interrupts disabled and is one step.
-- The queues are those of kernel/wait_queue.c: thread.c has a copy of its push and pop.
pub mod Valid
pub mod Ready
pub mod Schedule
pub mod Insert
pub mod Sleep
pub mod Tick
pub mod Alarm
pub mod Wake
pub mod Nap
pub mod Life
pub mod Waiters
pub mod Create
pub mod Fair
pub mod Events
mod Tests
use toyix.WaitQueue.{Links, Queue, set_links, push, pop}
use toyix.Prelude.{
  ℕ, zero, suc, ◌+◌, ◌-◌, ◌%◌, ◌^◌, Bool, true, false, not, ◌&&◌, ltb, leb, ◌==◌, if◌then◌else◌,
  Option, none, some, update, Result, ok, panic, endless, ◌>>=◌, ◌>>◌, require, List, [], ◌∷◌,
  bit_and,
}

-- thread_state_t
pub data State : Type 0 where
  new ready running blocked sleeping zombie : State

abbrev pub thread_magic : ℕ
thread_magic = 0x54485244

-- The ends of a queue.
pub record Ends : Type 0 where
  pub head : Option ℕ
  pub tail : Option ℕ

-- The fields of the threads and the static variables.
pub record Scheduler : Type 0 where
  pub magic : ℕ → ℕ
  pub state : ℕ → State
  pub esp : ℕ → ℕ
  pub stack_base : ℕ → ℕ
  pub stack_size : ℕ → ℕ
  pub process : ℕ → Option ℕ
  pub wake_tick : ℕ → ℕ
  pub links : ℕ → Links
  pub bootstrap : ℕ
  pub idle : ℕ
  pub current : ℕ
  pub ready_queue : Ends
  pub sleep_queue : Ends
  pub zombie_queue : Ends
  pub initialized : Bool
  pub preemption : Bool
  pub ticks_per_slice : ℕ
  pub slice_ticks : ℕ
  pub reschedule : Bool
  pub ticks : ℕ
  pub zombie_created : ℕ
  pub zombie_reaped : ℕ

abbrev pub is_running : State → Bool
is_running running = true
is_running _ = false

abbrev pub is_blocked : State → Bool
is_blocked blocked = true
is_blocked _ = false

abbrev pub is_new : State → Bool
is_new new = true
is_new _ = false

-- A thread number is never null.
abbrev pub validate_thread : ℕ → Scheduler → Result (Unit {0})
validate_thread thread s = require (s.magic thread == thread_magic)

-- The queue with these ends.
abbrev pub queue : Scheduler → Ends → Queue
queue s ends = record { links = s.links; head = ends.head; tail = ends.tail }

abbrev pub ends_of : Queue → Ends
ends_of q = record { head = q.head; tail = q.tail }

-- The assignments of ready_push, and those of zombie_push.
pub enqueue_ready : ℕ → Scheduler → Scheduler
enqueue_ready thread s =
    let q = push (queue s s.ready_queue) thread in
    record s { state = update s.state thread ready; links = q.links; ready_queue = ends_of q }

pub ready_push : ℕ → Scheduler → Result Scheduler
ready_push thread s =
    if thread == s.idle then ok s else do validate_thread thread s; ok (enqueue_ready thread s)

pub ready_pop : Scheduler → Option ℕ × Scheduler
ready_pop s =
    let (thread, q) = pop (queue s s.ready_queue) in
    (thread, record s { links = q.links; ready_queue = ends_of q })

pub enqueue_zombie : ℕ → Scheduler → Scheduler
enqueue_zombie thread s =
    let q = push (queue s s.zombie_queue) thread in
    record s { links = q.links; zombie_queue = ends_of q }

pub zombie_push : ℕ → Scheduler → Result Scheduler
zombie_push thread s =
    if thread == s.idle
    then ok s
    else if thread == s.bootstrap
    then ok s
    else do validate_thread thread s; ok (enqueue_zombie thread s)

pub zombie_pop : Scheduler → Option ℕ × Scheduler
zombie_pop s =
    let (thread, q) = pop (queue s s.zombie_queue) in
    (thread, record s { links = q.links; zombie_queue = ends_of q })

pub sleep_pop_front : Scheduler → Option ℕ × Scheduler
sleep_pop_front s =
    let (thread, q) = pop (queue s s.sleep_queue) in
    (thread, record s { links = q.links; sleep_queue = ends_of q })

-- `(int32_t)(now - target) >= 0`
abbrev pub tick_reached : ℕ → ℕ → Bool
tick_reached now target = ltb ((now + 2 ^ 32 - target) % 2 ^ 32) (2 ^ 31)

-- The search of sleep_insert: the first sleeper whose tick is not before `wake`, from `current` on.
pub find_later : (rounds : ℕ) → Scheduler → (wake : ℕ) → (current : Option ℕ) → Result (Option ℕ)
find_later zero s wake current = endless
find_later (suc rounds) s wake none = ok none
find_later (suc rounds) s wake (some thread) = elim (tick_reached (s.wake_tick thread) wake) [
  | true ↦ ok (some thread)
  | false ↦ find_later rounds s wake (s.links thread).next
]

-- `thread` in front of the first sleeper.
pub link_before_head : (ℕ → Links) → Ends → (first thread : ℕ) → (ℕ → Links) × Ends
link_before_head links ends first thread =
    let own = set_links links thread (record { next = some first; prev = none }) in
    (
      set_links own first (record { next = (own first).next; prev = some thread }),
      record { head = some thread; tail = ends.tail },
    )

-- `thread` between `previous` and `current`.
pub link_between : (ℕ → Links) → (previous current thread : ℕ) → ℕ → Links
link_between links previous current thread =
    let after =
      set_links links previous (record { next = some thread; prev = (links previous).prev }) in
    let own = set_links after thread (record { next = some current; prev = some previous }) in
    set_links own current (record { next = (own current).next; prev = some thread })

-- `thread` behind the last sleeper. In a queue that is not empty there is one: a null pointer there is
-- a panic.
pub place_last : Scheduler → (thread : ℕ) → (tail : Option ℕ) → Result ((ℕ → Links) × Ends)
place_last s thread none = panic
place_last s thread (some last) =
    let q = push (queue s s.sleep_queue) thread in ok (q.links, ends_of q)

-- `thread` before a sleeper that is not the first, and so has one before it.
pub place_between :
    Scheduler → (current thread : ℕ) → (previous : Option ℕ) → Result ((ℕ → Links) × Ends)
place_between s current thread none = panic
place_between s current thread (some previous) =
    ok (link_between s.links previous current thread, s.sleep_queue)

-- What sleep_insert does where the search has stopped.
pub place : Scheduler → (first thread : ℕ) → (current : Option ℕ) → Result ((ℕ → Links) × Ends)
place s first thread none = place_last s thread s.sleep_queue.tail
place s first thread (some current) =
    if current == first
    then ok (link_before_head s.links s.sleep_queue first thread)
    else place_between s current thread (s.links current).prev

-- The links of a thread that goes to sleep are cleared first.
abbrev pub clear_links : ℕ → Scheduler → Scheduler
clear_links thread s = record s {
  state = update s.state thread sleeping;
  links = set_links s.links thread (record { next = none; prev = none });
}

pub insert_from : (rounds : ℕ) → (thread : ℕ) → Scheduler → (head : Option ℕ) → Result Scheduler
insert_from rounds thread s none =
    ok (record s { sleep_queue = record { head = some thread; tail = some thread } })
insert_from rounds thread s (some first) = do
  current ← find_later rounds s (s.wake_tick thread) (some first)
  placed ← place s first thread current
  ok (record s { links = placed.0; sleep_queue = placed.1 })

pub sleep_insert : (rounds : ℕ) → (thread : ℕ) → Scheduler → Result Scheduler
sleep_insert rounds thread s = do
  validate_thread thread s
  let cleared = clear_links thread s
  insert_from rounds thread cleared cleared.sleep_queue.head

-- One round of the loop of wake_due_sleepers, for a first sleeper whose tick has come.
pub wake_first : Scheduler → Option ℕ × Scheduler → Result Scheduler
wake_first s (none, popped) = panic
wake_first s (some thread, popped) = do
  validate_thread thread popped
  pushed ← ready_push thread popped
  ok (record pushed { reschedule = true })

pub is_due : Scheduler → (head : Option ℕ) → Bool
is_due s none = false
is_due s (some thread) = tick_reached s.ticks (s.wake_tick thread)

pub wake_due_sleepers : (rounds : ℕ) → Scheduler → Result Scheduler
wake_due_sleepers zero s = endless
wake_due_sleepers (suc rounds) s = elim (is_due s s.sleep_queue.head) [
  | false ↦ ok s
  | true ↦ wake_first s (sleep_pop_front s) >>= wake_due_sleepers rounds
]

pub thread_start : ℕ → Scheduler → Result Scheduler
thread_start thread s = do
  validate_thread thread s
  require (is_new (s.state thread))
  ready_push thread s

pub thread_block_current : Scheduler → Result Scheduler
thread_block_current s = do
  validate_thread s.current s
  require (not (s.current == s.idle))
  require (is_running (s.state s.current))
  ok (record s { state = update s.state s.current blocked; reschedule = true })

pub thread_wake : Option ℕ → Scheduler → Result Scheduler
thread_wake none s = ok s
thread_wake (some thread) s = do
  validate_thread thread s
  if is_blocked (s.state thread)
      then ready_push thread s >>= (λ pushed. ok (record pushed { reschedule = true }))
      else ok s

-- The part of thread_sleep_ticks before it yields, for a number of ticks other than 0 and interrupts
-- enabled.
pub thread_sleep_ticks : (rounds ticks : ℕ) → Scheduler → Result Scheduler
thread_sleep_ticks rounds ticks s = do
  validate_thread s.current s
  let asleep = record s { wake_tick = update s.wake_tick s.current ((s.ticks + ticks) % 2 ^ 32) }
  if s.current == s.idle
      then ok s
      else sleep_insert rounds s.current asleep
        >>= (λ inserted. ok (record inserted { reschedule = true }))

-- The part of thread_exit before it yields.
pub thread_exit : Scheduler → Result Scheduler
thread_exit s = do
  validate_thread s.current s
  pushed ← zombie_push s.current (record s { state = update s.state s.current zombie })
  ok (record pushed { zombie_created = (pushed.zombie_created + 1) % 2 ^ 32; reschedule = true })

pub thread_kernel_stack_top : ℕ → Scheduler → ℕ
thread_kernel_stack_top thread s =
    if s.stack_base thread == 0 then 0 else (s.stack_base thread + s.stack_size thread) % 2 ^ 32

-- What the interrupt returns with: the stack pointer to resume, 0 for no switch, and of a switch the
-- thread whose address space is entered and the top of its kernel stack, if there is one.
pub data Resume : Type 0 where
  stay : Resume
  switch : (esp thread stack_top : ℕ) → Resume

-- From `thread_t *next_thread` on, once it is known.
pub switch_to : ℕ → Scheduler → Result (Resume × Scheduler)
switch_to next s = do
  validate_thread next s
  ok (
    switch (s.esp next) next (thread_kernel_stack_top next s),
    record s {
      state = update s.state next running;
      current = next;
      slice_ticks = 0;
      reschedule = false;
    },
  )

-- `ready_pop`, and the idle thread where it gives none.
pub pop_and_switch : Option ℕ × Scheduler → Result (Resume × Scheduler)
pop_and_switch (none, popped) = switch_to popped.idle popped
pop_and_switch (some next, popped) = switch_to next popped

-- By the head of the ready queue, for a state in which the old thread's frame has been kept.
pub choose : (head : Option ℕ) → Scheduler → Result (Resume × Scheduler)
choose none s =
    if s.current == s.idle
    then ok (stay, record s { slice_ticks = 0; reschedule = false })
    else if is_running (s.state s.current)
    then ok (stay, record s { slice_ticks = 0; reschedule = false })
    else switch_to s.idle s
choose (some first) s = do
  queued ←
      if not (s.current == s.idle) && is_running (s.state s.current)
      then ready_push s.current s
      else ok s
  pop_and_switch (ready_pop queued)

-- thread_schedule_from_interrupt, for the frame at the address `frame`
pub schedule : (frame : ℕ) → Scheduler → Result (Resume × Scheduler)
schedule frame s = if not s.initialized then ok (stay, s) else do
  validate_thread s.current s
  choose s.ready_queue.head (record s { esp = update s.esp s.current frame })

-- The end of thread_on_timer_tick, once the sleepers are awake.
pub count_slice : Scheduler → (head : Option ℕ) → Scheduler
count_slice s none = if not s.preemption then s else record s { slice_ticks = 0 }
count_slice s (some first) = if not s.preemption then s else record s {
  slice_ticks = (s.slice_ticks + 1) % 2 ^ 32;
  reschedule = if leb s.ticks_per_slice ((s.slice_ticks + 1) % 2 ^ 32) then true else s.reschedule;
}

pub timer_tick : (rounds : ℕ) → Scheduler → Result Scheduler
timer_tick rounds s = if not s.initialized then ok s else do
  woken ← wake_due_sleepers rounds (record s { ticks = (s.ticks + 1) % 2 ^ 32 })
  ok (count_slice woken woken.ready_queue.head)

pub preemption_init : ℕ → Scheduler → Scheduler
preemption_init requested s = record s {
  ticks_per_slice = if requested == 0 then 1 else requested;
  slice_ticks = 0;
  reschedule = false;
  preemption = true;
}

-- One round of thread_reap_zombies, and what comes after it.
pub reap_first :
    (Scheduler → Result (List ℕ × Scheduler)) → Option ℕ × Scheduler → Result (List ℕ × Scheduler)
reap_first rest (none, popped) = ok ([], popped)
reap_first rest (some thread, popped) = do
  validate_thread thread popped
  reaped ← rest (record popped {
    magic = update popped.magic thread 0;
    zombie_reaped = (popped.zombie_reaped + 1) % 2 ^ 32;
  })
  ok (thread ∷ reaped.0, reaped.1)

-- The loop of thread_reap_zombies: the threads whose stack and object are freed, in order. Freeing them
-- is left to the heap.
pub reap_zombies : (rounds : ℕ) → Scheduler → Result (List ℕ × Scheduler)
reap_zombies zero s = endless
reap_zombies (suc rounds) s = reap_first (reap_zombies rounds) (zombie_pop s)
