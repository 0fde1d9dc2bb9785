-- ===== src/Process.antt =====
-- kernel/process.c: the process table. Processes are numbered, and a null pointer is `none`; their fields
-- are functions of the number. The table is linked through the fields `next` and `prev`. Every operation
-- runs with interrupts disabled where it reads or writes the table, and is one step.
pub mod Descriptors
pub mod Ending
pub mod Arguments
pub mod Chain
pub mod Valid
pub mod Search
mod Tests
use toyix.WaitQueue.{Links, Queue, set_links, push}
use toyix.Prelude.{
  ℕ, zero, suc, ◌+◌, ◌-◌, ◌%◌, ◌^◌, Bool, true, false, not, ◌&&◌, ◌||◌, ltb, leb, ◌==◌,
  if◌then◌else◌, Option, none, some, update, Result, ok, panic, endless, ◌>>=◌, ◌>>◌, require, List,
  [], ◌∷◌,
}

-- process_state_t
pub data State : Type 0 where
  new running zombie destroyed : State

abbrev pub process_magic : ℕ
process_magic = 0x50524f43

abbrev pub first_file_fd : ℕ
first_file_fd = 3

abbrev pub max_fds : ℕ
max_fds = 16

-- PROCESS_KILLED_EXIT_CODE
abbrev pub killed_exit_code : ℕ
killed_exit_code = 128

-- process_t, less its links. An entry of `fds` that is not used is `none`.
pub record Process : Type 0 where
  pub magic : ℕ
  pub pid : ℕ
  pub parent_pid : ℕ
  pub state : State
  pub exit_code : ℕ
  pub exited : Bool
  pub kill_requested : Bool
  pub fds : ℕ → Option ℕ

-- The static variables, the processes and their links.
pub record Table : Type 0 where
  pub processes : ℕ → Process
  pub links : ℕ → Links
  pub head : Option ℕ
  pub tail : Option ℕ
  pub count : ℕ
  pub next_pid : ℕ
  pub last_exit_code : ℕ
  pub last_exit_seen : Bool

pub process_init_system : Table → Table
process_init_system t = record t {
  next_pid = 1;
  last_exit_code = 0xffffffff;
  last_exit_seen = false;
  head = none;
  tail = none;
  count = 0;
}

abbrev pub put : ℕ → Process → Table → Table
put p process t = record t { processes = update t.processes p process }

abbrev pub is_destroyed : State → Bool
is_destroyed destroyed = true
is_destroyed _ = false

abbrev pub is_zombie : State → Bool
is_zombie zombie = true
is_zombie _ = false

abbrev pub validate_process : ℕ → Table → Result (Unit {0})
validate_process p t = require ((t.processes p).magic == process_magic)

pub validate_live_process : ℕ → Table → Result (Unit {0})
validate_live_process p t = do
  validate_process p t
  require (not (is_destroyed (t.processes p).state))

-- The queue of kernel/wait_queue.c is linked in the same way.
abbrev pub table_queue : Table → Queue
table_queue t = record { links = t.links; head = t.head; tail = t.tail }

pub process_table_insert : ℕ → Table → Result Table
process_table_insert p t = do
  validate_process p t
  let q = push (table_queue t) p
  ok (record t { links = q.links; head = q.head; tail = q.tail; count = (t.count + 1) % 2 ^ 32 })

-- `prev->next = next`, where there is a process before.
abbrev pub link_next : (ℕ → Links) → (prev next : Option ℕ) → ℕ → Links
link_next links none next = links
link_next links (some prev) next = update links prev (record (links prev) { next = next })

-- `next->prev = prev`, where there is a process behind.
abbrev pub link_prev : (ℕ → Links) → (next prev : Option ℕ) → ℕ → Links
link_prev links none prev = links
link_prev links (some next) prev = update links next (record (links next) { prev = prev })

-- An end of the table: the new one where there is no neighbour on that side.
abbrev pub or_else : (neighbour end old : Option ℕ) → Option ℕ
or_else none end old = end
or_else (some x) end old = old

pub process_table_remove : ℕ → Table → Result Table
process_table_remove p t = do
  validate_process p t
  let before = link_next t.links (t.links p).prev (t.links p).next
  let behind = link_prev before (before p).next (before p).prev
  ok (record t {
    links = update behind p (record { next = none; prev = none });
    head = or_else (t.links p).prev (t.links p).next t.head;
    tail = or_else (before p).next (before p).prev t.tail;
    count = t.count - 1;
  })

-- The object `p` is fresh memory; its address space is created elsewhere.
pub process_create_empty : ℕ → Table → Result Table
process_create_empty p t =
    let process : Process = record {
      magic = process_magic;
      pid = t.next_pid;
      parent_pid = 0;
      state = new;
      exit_code = 0xffffffff;
      exited = false;
      kill_requested = false;
      fds = λ fd. none;
    } in
    process_table_insert p (record (put p process t) {
      next_pid = (t.next_pid + 1) % 2 ^ 32;
      links = set_links t.links p (record { next = none; prev = none });
    })

pub process_set_parent : (p parent : ℕ) → Table → Result Table
process_set_parent p parent t = do
  validate_live_process p t
  ok (put p (record (t.processes p) { parent_pid = parent }) t)

pub process_parent_pid : ℕ → Table → Result ℕ
process_parent_pid p t = do validate_live_process p t; ok (t.processes p).parent_pid

pub process_is_child_of : (p parent : ℕ) → Table → Result Bool
process_is_child_of p parent t = do
  validate_live_process p t
  ok ((t.processes p).parent_pid == parent)

-- Whether a process can still be asked to end.
abbrev pub can_be_killed : Process → Bool
can_be_killed process =
    not process.exited && not (is_zombie process.state) && not (is_destroyed process.state)

abbrev pub request_kill : ℕ → Table → Table
request_kill p t =
    put p
      (record (t.processes p) {
        kill_requested =
            if can_be_killed (t.processes p) then true else (t.processes p).kill_requested;
      })
      t

pub process_request_kill : ℕ → Table → Result Table
process_request_kill p t = do validate_live_process p t; ok (request_kill p t)

pub process_kill_requested : ℕ → Table → Result Bool
process_kill_requested p t = do validate_live_process p t; ok (t.processes p).kill_requested

-- The first process with the test, from `current` on.
pub find_from : (rounds : ℕ) → (Process → Bool) → (current : Option ℕ) → Table → Result (Option ℕ)
find_from zero test current t = endless
find_from (suc rounds) test none t = ok none
find_from (suc rounds) test (some p) t = elim (test (t.processes p)) [
  | true ↦ ok (some p)
  | false ↦ find_from rounds test (t.links p).next t
]

pub process_find : (rounds pid : ℕ) → Table → Result (Option ℕ)
process_find rounds pid t = find_from rounds (λ process. process.pid == pid) t.head t

-- What process_request_kill_child does with the child that it has found; `true` is its result 0.
pub kill_found : Option ℕ → Table → Bool × Table
kill_found none t = (false, t)
kill_found (some p) t =
    if can_be_killed (t.processes p)
    then (true, put p (record (t.processes p) { kill_requested = true }) t)
    else (false, t)

pub process_request_kill_child : (rounds parent_pid child_pid : ℕ) → Table → Result (Bool × Table)
process_request_kill_child rounds parent_pid child_pid t = do
  found ←
      find_from rounds (λ process. process.pid == child_pid && process.parent_pid == parent_pid)
        t.head t
  ok (kill_found found t)
