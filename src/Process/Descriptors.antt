-- ===== src/Process/Descriptors.antt =====
-- kernel/process.c: the open files of a process.
pub mod Files
use toyix.Process.{Process, Table, put, validate_live_process, first_file_fd, max_fds}
use toyix.Prelude.{
  ℕ, zero, suc, ◌+◌, ◌-◌, Bool, true, false, ◌||◌, ltb, leb, ◌==◌, if◌then◌else◌, Option, none,
  some, update, Result, ok, ◌>>=◌, ◌>>◌, List, [], ◌∷◌,
}

abbrev pub set_fd : (p fd : ℕ) → Option ℕ → Table → Table
set_fd p fd file t = put p (record (t.processes p) { fds = update (t.processes p).fds fd file }) t

-- `fd` if nothing is open there.
abbrev pub this_or : (file : Option ℕ) → (fd : ℕ) → (later : Option ℕ) → Option ℕ
this_or none fd later = some fd
this_or (some file) fd later = later

-- The first descriptor, of `left` from `fd` on, that is not used.
pub free_fd : (left fd : ℕ) → (ℕ → Option ℕ) → Option ℕ
free_fd zero fd fds = none
free_fd (suc left) fd fds = this_or (fds fd) fd (free_fd left (fd + 1) fds)

pub install_at : (p file : ℕ) → Option ℕ → Table → Option ℕ × Table
install_at p file none t = (none, t)
install_at p file (some fd) t = (some fd, set_fd p fd (some file) t)

-- The new descriptor; `none` is the result -1.
pub process_fd_install : (p : ℕ) → (file : Option ℕ) → Table → Result (Option ℕ × Table)
process_fd_install p none t = do validate_live_process p t; ok (none, t)
process_fd_install p (some file) t = do
  validate_live_process p t
  ok (install_at p file (free_fd (max_fds - first_file_fd) first_file_fd (t.processes p).fds) t)

abbrev pub outside_fds : ℕ → Bool
outside_fds fd = ltb fd first_file_fd || leb max_fds fd

pub process_fd_get : (p fd : ℕ) → Table → Result (Option ℕ)
process_fd_get p fd t = do
  validate_live_process p t
  ok (if outside_fds fd then none else (t.processes p).fds fd)

-- The file that is then closed; with `none` the result is -1.
pub process_fd_close : (p fd : ℕ) → Table → Result (Option ℕ × Table)
process_fd_close p fd t = do
  validate_live_process p t
  ok (if outside_fds fd then (none, t) else ((t.processes p).fds fd, set_fd p fd none t))

abbrev pub with_file : Option ℕ → List ℕ → List ℕ
with_file none files = files
with_file (some file) files = file ∷ files

-- The files of `left` descriptors from `fd` on.
pub open_files : (left fd : ℕ) → (ℕ → Option ℕ) → List ℕ
open_files zero fd fds = []
open_files (suc left) fd fds = with_file (fds fd) (open_files left (fd + 1) fds)

abbrev pub cleared : (ℕ → Option ℕ) → ℕ → Option ℕ
cleared fds fd = if outside_fds fd then fds fd else none

-- The files are closed in this order.
pub process_close_all_files : ℕ → Table → Result (List ℕ × Table)
process_close_all_files p t = do
  validate_live_process p t
  ok (
    open_files (max_fds - first_file_fd) first_file_fd (t.processes p).fds,
    put p (record (t.processes p) { fds = cleared (t.processes p).fds }) t,
  )
