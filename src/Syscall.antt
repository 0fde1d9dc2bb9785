-- ===== src/Syscall.antt =====
-- kernel/syscall.c: the system calls on processes and their open files, and what they take from the
-- memory of the process. `current` is the process that calls, if there is one; `flags` and `mem` are the
-- page flags and the bytes of its address space. A result is the new eax. Waiting for a process is a
-- call in two parts, before and after other processes run.
pub mod Path
pub mod Wait
pub mod Kill
pub mod Calls
pub mod Files
pub mod Report
mod Tests
use toyix.Bytes.{word_bytes}
use toyix.Process.{
  State, new, running, zombie, destroyed, Process, Table, killed_exit_code, first_file_fd,
  process_find, process_is_child_of, process_parent_pid, process_kill_requested,
  process_request_kill_child,
}
use toyix.Process.Descriptors.{process_fd_close}
use toyix.Process.Ending.{is_current, process_exit_current, process_destroy}
use toyix.Usercopy.{copy_from_user, copy_to_user, Length, fault, too_long, of, user_string_length}
use toyix.Prelude.{
  ℕ, ◌+◌, ◌*◌, ◌/◌, ◌%◌, ◌^◌, Bool, true, false, not, ◌||◌, ltb, leb, ◌==◌, if◌then◌else◌, Option,
  none, some, Result, ok, ◌>>=◌, List, [], ◌∷◌, ◌++◌,
}

-- The result -1.
abbrev pub failed : ℕ
failed = 0xffffffff

-- Copying the string, once its length is known.
pub copy_measured :
    (rounds : ℕ) → (flags mem : ℕ → ℕ) → (user_str size : ℕ) → Length → Result (Option (List ℕ))
copy_measured rounds flags mem user_str size fault = ok none
copy_measured rounds flags mem user_str size too_long = ok none
copy_measured rounds flags mem user_str size (of length) =
    if ltb size (length + 1) then ok none else copy_from_user rounds flags mem user_str (length + 1)

-- The bytes that are copied, with the null; or `none` for -1. A kernel buffer has a size that is not 0.
pub syscall_copy_user_string :
    (rounds : ℕ) → (flags mem : ℕ → ℕ) → (user_str size : ℕ) → Result (Option (List ℕ))
syscall_copy_user_string rounds flags mem user_str size =
    if user_str == 0 || size == 0
    then ok none
    else user_string_length rounds flags mem user_str size
      >>= copy_measured rounds flags mem user_str size

abbrev pub capped : ℕ → ℕ
capped length = if ltb 256 length then 256 else length

abbrev pub written : (length : ℕ) → Option (List ℕ) → ℕ × List ℕ
written length none = (failed, [])
written length (some buffer) = (length, buffer)

-- What is written to the console comes with the result.
pub syscall_write :
    (rounds : ℕ) → (flags mem : ℕ → ℕ) → (fd user_buf length : ℕ) → Result (ℕ × List ℕ)
syscall_write rounds flags mem fd user_buf length =
    if not (fd == 1 || fd == 2)
    then ok (failed, [])
    else if capped length == 0
    then ok (0, [])
    else (do
      buffer ← copy_from_user rounds flags mem user_buf (capped length)
      ok (written (capped length) buffer))

pub syscall_getpid : (current : Option ℕ) → Table → ℕ
syscall_getpid none t = 0
syscall_getpid (some c) t = (t.processes c).pid

pub syscall_getppid : (current : Option ℕ) → Table → Result ℕ
syscall_getppid none t = ok 0
syscall_getppid (some c) t = process_parent_pid c t

abbrev pub closed : Option ℕ → ℕ
closed none = failed
closed (some file) = 0

pub syscall_close : (current : Option ℕ) → (fd : ℕ) → Table → Result (ℕ × Table)
syscall_close none fd t = ok (failed, t)
syscall_close (some c) fd t =
    if ltb fd first_file_fd
    then ok (failed, t)
    else (do out ← process_fd_close c fd t; ok (closed out.0, out.1))

pub syscall_kill :
    (rounds : ℕ) → (current : Option ℕ) → (target_pid : ℕ) → Table → Result (ℕ × Table)
syscall_kill rounds none target_pid t = ok (failed, t)
syscall_kill rounds (some c) target_pid t =
    if target_pid == 0 || target_pid == (t.processes c).pid then ok (failed, t) else (do
      out ← process_request_kill_child rounds (t.processes c).pid target_pid t
      ok (if out.0 then 0 else failed, out.1))

-- Whether the process that was found is one that `c` may ask about.
pub check_child : (c : ℕ) → Option ℕ → Table → Result (Option ℕ)
check_child c none t = ok none
check_child c (some p) t = if p == c then ok none else (do
  child ← process_is_child_of p (t.processes c).pid t
  ok (if child then some p else none))

-- The first part of syscall_waitpid and of syscall_procinfo: the process to wait for or to report.
pub find_child : (rounds pid : ℕ) → (current : Option ℕ) → Table → Result (Option ℕ)
find_child rounds pid none t = ok none
find_child rounds pid (some c) t = do found ← process_find rounds pid t; check_child c found t

-- The status is copied, unless the process passes no place for it.
pub copy_status :
    (rounds : ℕ) → (flags mem : ℕ → ℕ) → (user_status status : ℕ) → Result (Option (ℕ → ℕ))
copy_status rounds flags mem user_status status =
    if user_status == 0
    then ok (some mem)
    else copy_to_user rounds flags mem user_status (word_bytes status)

-- The call's result, the memory, the files that were closed and the table.
pub record Outcome : Type 0 where
  pub eax : ℕ
  pub mem : ℕ → ℕ
  pub files : List ℕ
  pub table : Table

pub reap : (rounds p : ℕ) → (mem : ℕ → ℕ) → Option (ℕ → ℕ) → Table → Result Outcome
reap rounds p mem none t = ok (record { eax = failed; mem = mem; files = []; table = t })
reap rounds p mem (some mem') t = do
  out ← process_destroy rounds p t
  ok (record { eax = 0; mem = mem'; files = out.0; table = out.1 })

-- The last part of syscall_waitpid, when process_wait has returned for process `p`.
pub waitpid_done : (rounds : ℕ) → (flags mem : ℕ → ℕ) → (p user_status : ℕ) → Table → Result Outcome
waitpid_done rounds flags mem p user_status t = do
  copied ← copy_status rounds flags mem user_status (t.processes p).exit_code
  reap rounds p mem copied t

-- Whether the process ends here, and the table.
pub syscall_finish_or_kill : (current : Option ℕ) → Table → Result (Bool × Table)
syscall_finish_or_kill none t = ok (false, t)
syscall_finish_or_kill (some c) t = do
  kill ← process_kill_requested c t
  ok (if kill then (true, process_exit_current (some c) killed_exit_code t) else (false, t))

-- The values of process_state_t.
abbrev pub state_number : State → ℕ
state_number new = 0
state_number running = 1
state_number zombie = 2
state_number destroyed = 3

abbrev pub flag : Bool → ℕ
flag b = if b then 1 else 0

-- The bytes of a syscall_procinfo_t.
abbrev pub info_bytes : Process → List ℕ
info_bytes process =
    word_bytes process.pid
    ++ word_bytes process.parent_pid
    ++ word_bytes (state_number process.state)
    ++ word_bytes process.exit_code
    ++ word_bytes (flag process.exited)
    ++ word_bytes (flag process.kill_requested)

-- The result and the memory, where the copy was asked for.
abbrev pub answered : (mem : ℕ → ℕ) → Option (ℕ → ℕ) → ℕ × (ℕ → ℕ)
answered mem none = (failed, mem)
answered mem (some mem') = (0, mem')

pub report :
    (rounds : ℕ) → (flags mem : ℕ → ℕ) → (user_info : ℕ) → Option ℕ → Table → Result (ℕ × (ℕ → ℕ))
report rounds flags mem user_info none t = ok (failed, mem)
report rounds flags mem user_info (some p) t = do
  copied ← copy_to_user rounds flags mem user_info (info_bytes (t.processes p))
  ok (answered mem copied)

pub syscall_procinfo :
    (rounds : ℕ)
    → (flags mem : ℕ → ℕ) → (current : Option ℕ) → (pid user_info : ℕ) → Table
    → Result (ℕ × (ℕ → ℕ))
syscall_procinfo rounds flags mem none pid user_info t = ok (failed, mem)
syscall_procinfo rounds flags mem (some c) pid user_info t =
    if user_info == 0 || pid == 0
    then ok (failed, mem)
    else (do child ← find_child rounds pid (some c) t; report rounds flags mem user_info child t)
