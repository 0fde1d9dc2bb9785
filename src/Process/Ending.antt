-- ===== src/Process/Ending.antt =====
-- kernel/process.c: how a process ends, is waited for and is destroyed.
pub mod Orphans
pub mod Removal
pub mod Destroy
pub mod Exit
use toyix.Process.{
  State, zombie, destroyed, is_zombie, Process, Table, put, validate_process, validate_live_process,
  process_table_remove,
}
use toyix.Process.Descriptors.{process_close_all_files}
use toyix.Prelude.{
  ℕ, zero, suc, ◌-◌, Bool, true, false, not, ◌||◌, ◌==◌, if◌then◌else◌, Option, none, some, update,
  Result, ok, endless, ◌>>=◌, ◌>>◌, require, List,
}

-- A kernel thread has no process.
pub process_exit_current : (current : Option ℕ) → (exit_code : ℕ) → Table → Table
process_exit_current none exit_code t = record t {
  last_exit_code = exit_code;
  last_exit_seen = true;
}
process_exit_current (some p) exit_code t =
    let ended = record (t.processes p) {
      exit_code = exit_code;
      exited = true;
      state = zombie;
      kill_requested = false;
    } in
    record (put p ended t) { last_exit_code = exit_code; last_exit_seen = true }

abbrev pub is_current : (current : Option ℕ) → ℕ → Bool
is_current none p = false
is_current (some c) p = c == p

-- A look of process_wait at the process: its exit code once it has exited. Between two looks the thread
-- sleeps for one tick and reaps zombies.
pub process_wait_look : (current : Option ℕ) → (p : ℕ) → Table → Result (Option ℕ)
process_wait_look current p t = do
  validate_live_process p t
  require (not (is_current current p))
  ok (if (t.processes p).exited then some (t.processes p).exit_code else none)

-- The children of the process that is destroyed have no parent any more.
pub orphan_from : (rounds pid : ℕ) → (current : Option ℕ) → Table → Result Table
orphan_from zero pid current t = endless
orphan_from (suc rounds) pid none t = ok t
orphan_from (suc rounds) pid (some p) t = orphan_from rounds pid (t.links p).next (
    if (t.processes p).parent_pid == pid
    then put p (record (t.processes p) { parent_pid = 0 }) t
    else t)

-- The files that are closed come with the table. Destroying the address space and freeing the object
-- are left to their components.
pub process_destroy : (rounds p : ℕ) → Table → Result (List ℕ × Table)
process_destroy rounds p t = do
  validate_live_process p t
  require ((t.processes p).exited || is_zombie (t.processes p).state)
  orphaned ← orphan_from rounds (t.processes p).pid t.head t
  removed ← process_table_remove p orphaned
  out ← process_close_all_files p removed
  ok (
    out.0,
    put p (record (out.1.processes p) { state = destroyed; kill_requested = false; magic = 0 })
        out.1,
  )
