-- ===== src/Process/Ending/Exit.antt =====
-- How the end of a process shows to the others.
use toyix.Process.{
  zombie, Process, Table, put, process_magic, validate_live_process, process_set_parent,
  process_parent_pid, process_is_child_of, can_be_killed, request_kill, process_request_kill,
  process_kill_requested,
}
use toyix.Process.Chain.{Member}
use toyix.Process.Valid.{Valid, Live, put-Valid, AllLive-Live, validate_live_process_lem}
use toyix.Process.Ending.{process_exit_current, is_current, process_wait_look}
use toyix.Prelude.{
  ℕ, ◌≡◌, ◌≢◌, refl, sym, ap, ◌∙◌, true, false, ◌==◌, if◌then◌else◌, Option, some, Result, ok,
  panic, List, update, update_self, update_other, arith,
}

-- A process that has ended with `code`.
abbrev pub ended : Process → (code : ℕ) → Process
ended process code = record process {
  exit_code = code;
  exited = true;
  state = zombie;
  kill_requested = false;
}

-- What the other processes see of process `p` that has ended with `code`.
abbrev pub Exited : (t t' : Table) → (ids : List ℕ) → (p code : ℕ) → (waiting : Option ℕ) → Type 0
Exited t t' ids p code waiting =
    Valid t' ids
    × (t'.last_exit_code ≡ code)
    × (t'.last_exit_seen ≡ true)
    × (process_wait_look waiting p t' ≡ ok (some code))
    × (process_wait_look (some p) p t' ≡ panic)
    × ((t'' : Table) × (process_request_kill p t' ≡ ok t'')
        × (process_kill_requested p t'' ≡ ok false))
    × ((q : ℕ) → q ≢ p → t'.processes q ≡ t.processes q)

seen :
    (t : Table) (p code : ℕ) (waiting : Option ℕ) (process : Process)
    → t.processes p ≡ ended process code
    → process.magic ≡ process_magic
    → is_current waiting p ≡ false
    → (process_wait_look waiting p t ≡ ok (some code)) × (process_wait_look (some p) p t ≡ panic)
unfolding process_wait_look validate_live_process
seen t p code waiting process own magic other =
    let self : (p == p) ≡ true = ground arith in rw (own, magic, self) (rw other refl, refl)

unkilled :
    (t : Table) (p code : ℕ) (process : Process)
    → t.processes p ≡ ended process code
    → process.magic ≡ process_magic
    → (t'' : Table) × (process_request_kill p t ≡ ok t'')
      × (process_kill_requested p t'' ≡ ok false)
unfolding process_request_kill process_kill_requested validate_live_process
unkilled t p code process own magic =
    let own' : (request_kill p t).processes p ≡ ended process code =
      update_self t.processes p (record (t.processes p) {
        kill_requested =
            if can_be_killed (t.processes p) then true else (t.processes p).kill_requested;
      })
      ∙ ap {A = Process}
          (λ q. record q { kill_requested = if can_be_killed q then true else q.kill_requested })
          own in
    (request_kill p t, rw (own, magic) refl, rw (own', magic) refl)

-- Process `p` of the table ends with `code`. The table is still valid, with the code as its last; a process
-- that waits for `p` gets the code, `p` itself must not wait for itself, a request to end it has no effect,
-- and the other processes are as before.
pub process_exit_current-Exited :
    (t : Table) (ids : List ℕ) (p code : ℕ) (waiting : Option ℕ)
    → Valid t ids
    → Member p ids
    → is_current waiting p ≡ false
    → Exited t (process_exit_current (some p) code t) ids p code waiting
unfolding process_exit_current
process_exit_current-Exited t ids p code waiting v m other =
    let (magic, state, below) = AllLive-Live t.processes t.next_pid p ids m v.live in
    let t' : Table = process_exit_current (some p) code t in
    let own : t'.processes p ≡ ended (t.processes p) code =
      update_self t.processes p (ended (t.processes p) code) in
    let v' : Valid (put p (ended (t.processes p) code) t) ids =
      put-Valid t ids p (ended (t.processes p) code) refl (sym state) refl v in
    let (answer, self) = seen t' p code waiting (t.processes p) own magic other in
    (
      record { chain = v'.chain; live = v'.live; counted = v'.counted },
      refl,
      refl,
      answer,
      self,
      unkilled t' p code (t.processes p) own magic,
      λ q apart. update_other t.processes p q (ended (t.processes p) code) (λ e. apart (sym e)),
    )

pub kill_requested_lem :
    (t : Table) (p : ℕ)
    → Live (t.processes p) t.next_pid
    → process_kill_requested p t ≡ ok (t.processes p).kill_requested
unfolding process_kill_requested
kill_requested_lem t p live = rw (validate_live_process_lem t p live) refl

pub parent_pid_lem :
    (t : Table) (p : ℕ)
    → Live (t.processes p) t.next_pid
    → process_parent_pid p t ≡ ok (t.processes p).parent_pid
unfolding process_parent_pid
parent_pid_lem t p live = rw (validate_live_process_lem t p live) refl

pub is_child_of_lem :
    (t : Table) (p parent : ℕ)
    → Live (t.processes p) t.next_pid
    → process_is_child_of p parent t ≡ ok ((t.processes p).parent_pid == parent)
unfolding process_is_child_of
is_child_of_lem t p parent live = rw (validate_live_process_lem t p live) refl

-- What a new parent is seen by.
abbrev pub Adopted : (t : Table) → (ids : List ℕ) → (p parent : ℕ) → Result Table → Type 0
Adopted t ids p parent out =
    (t' : Table) × (out ≡ ok t')
    × Valid t' ids
    × (process_parent_pid p t' ≡ ok parent)
    × ((other : ℕ) → process_is_child_of p other t' ≡ ok (parent == other))

adopted :
    (t : Table) (p parent : ℕ)
    → Live (t.processes p) t.next_pid
    → (t.processes p).parent_pid ≡ parent
    → (process_parent_pid p t ≡ ok parent)
      × ((other : ℕ) → process_is_child_of p other t ≡ ok (parent == other))
unfolding process_parent_pid process_is_child_of
adopted t p parent live same =
    let valid = validate_live_process_lem t p live in rw (valid, same) (refl, λ other. refl)

process_set_parent-Adopted :
    (t : Table) (ids : List ℕ) (p parent : ℕ)
    → Valid t ids
    → Member p ids
    → Adopted t ids p parent (process_set_parent p parent t)
unfolding process_set_parent
process_set_parent-Adopted t ids p parent v m =
    let valid =
      validate_live_process_lem t p (AllLive-Live t.processes t.next_pid p ids m v.live) in
    let child : Process = record (t.processes p) { parent_pid = parent } in
    let v' = put-Valid t ids p child refl refl refl v in
    let same = ap {A = Process} (λ q. q.parent_pid) (update_self t.processes p child) in
    let proved =
      adopted (put p child t) p parent
        (AllLive-Live (update t.processes p child) t.next_pid p ids m v'.live) same in
    (put p child t, rw valid refl, v', proved.0, proved.1)
