-- ===== src/Syscall/Kill.antt =====
-- A process that a parent asks to end does so when syscall_finish_or_kill next runs for it.
use native.Mathlib.Decide.{ℕ_discrete}
use toyix.Process.{zombie, destroyed, Process, Table, killed_exit_code, can_be_killed, put}
use toyix.Process.Chain.{Member}
use toyix.Process.Valid.{Valid, AllLive-Live}
use toyix.Process.Search.{KilledChild, process_request_kill_child-KilledChild}
use toyix.Process.Ending.{process_exit_current}
use toyix.Process.Ending.Exit.{Exited, process_exit_current-Exited, kill_requested_lem}
use toyix.Syscall.{syscall_kill, syscall_finish_or_kill, failed}
use toyix.Prelude.{
  ℕ, ◌<◌, ◌≡◌, ◌≢◌, ◌⊎◌, inl, inr, refl, sym, ap, ◌∙◌, Bool, true, false, ◌==◌, if◌then◌else◌, some,
  ok, List, length, arith, update_self,
}

abbrev pub Alive : Process → Type 0
Alive process = (process.exited ≡ false) × (process.state ≢ zombie) × (process.state ≢ destroyed)

abbrev pub Ended : Process → Type 0
Ended process = (process.exited ≡ true) ⊎ (process.state ≡ zombie) ⊎ (process.state ≡ destroyed)

can-Alive : (process : Process) → can_be_killed process ≡ true → Alive process
can-Alive process can = ground arith

cannot-Ended : (process : Process) → can_be_killed process ≡ false → Ended process
cannot-Ended process cannot = ground arith

-- The child is marked in `t'`: syscall_finish_or_kill ends it with the code 128, and tells the caller `c`.
abbrev pub Doomed : (t : Table) → (ids : List ℕ) → (c target : ℕ) → (t' : Table) → Type 0
Doomed t ids c target t' =
    (p : ℕ) × Member p ids
    × ((t.processes p).pid ≡ target)
    × ((t.processes p).parent_pid ≡ (t.processes c).pid)
    × Alive (t.processes p)
    × (t' ≡ put p (record (t.processes p) { kill_requested = true }) t)
    × (t'' : Table) × (syscall_finish_or_kill (some p) t' ≡ ok (true, t''))
    × Exited t' t'' ids p 128 (some c)

-- What syscall_kill answers process `c`, and the table that it leaves.
abbrev pub KillAnswer : (t : Table) → (ids : List ℕ) → (c target : ℕ) → ℕ × Table → Type 0
KillAnswer t ids c target out =
    ((out.0 ≡ 0) × (target ≢ 0) × (target ≢ (t.processes c).pid) × Doomed t ids c target out.1)
    ⊎ ((out.0 ≡ failed)
        × (out.1 ≡ t)
        × ((target ≡ 0)
            ⊎ (target ≡ (t.processes c).pid)
            ⊎ ((q : ℕ)
                → Member q ids
                → (t.processes q).pid ≡ target
                → (t.processes q).parent_pid ≡ (t.processes c).pid
                → Ended (t.processes q))))

killed-Doomed :
    (t t' : Table) (ids : List ℕ) (c target p : ℕ)
    → Valid t' ids
    → Member p ids
    → c ≢ p
    → (t.processes p).pid ≡ target
    → (t.processes p).parent_pid ≡ (t.processes c).pid
    → can_be_killed (t.processes p) ≡ true
    → t' ≡ put p (record (t.processes p) { kill_requested = true }) t
    → (t'.processes p).kill_requested ≡ true
    → Doomed t ids c target t'
unfolding syscall_finish_or_kill
killed-Doomed t t' ids c target p v m apart same parent can marked requested =
    let live = AllLive-Live t'.processes t'.next_pid p ids m v.live in
    (
      p,
      m,
      same,
      parent,
      can-Alive (t.processes p) can,
      marked,
      process_exit_current (some p) killed_exit_code t',
      rw (kill_requested_lem t' p live, requested) refl,
      process_exit_current-Exited t' ids p 128 (some c) v m (ground (arith, apart)),
    )

answer :
    (t : Table) (ids : List ℕ) (c target : ℕ) (out : Bool × Table)
    → target ≢ 0
    → target ≢ (t.processes c).pid
    → Valid out.1 ids
    → KilledChild t ids (t.processes c).pid target out
    → KillAnswer t ids c target (if out.0 then 0 else failed, out.1)
answer t ids c target (false, t') some_pid apart v (same, others) =
    inr (refl, same, inr (inr (λ q m e e'. cannot-Ended (t.processes q) (others q m e e'))))
answer t ids c target (true, t') some_pid apart v (p, m, same, parent, can, marked) =
    let other : c ≢ p = λ e. apart (sym same ∙ ap (λ q. (t.processes q).pid) (sym e)) in
    let requested : (t'.processes p).kill_requested ≡ true =
      ap (λ (x : Table). (x.processes p).kill_requested) marked
      ∙ ap {A = Process} (λ q. q.kill_requested)
          (update_self t.processes p (record (t.processes p) { kill_requested = true })) in
    inl (
      refl,
      some_pid,
      apart,
      killed-Doomed t t' ids c target p v m other same parent can marked requested,
    )

-- In a valid table, with more rounds than processes, syscall_kill of process `c` keeps the table valid. It
-- succeeds exactly for a target that is not 0 or the caller, but a child of the caller that has not ended.
-- That child, and nothing else, is then marked, so that syscall_finish_or_kill, run for it on the new table, ends it with the
-- code 128, kept for the caller to ask for. Otherwise it fails and changes nothing.
pub syscall_kill-KillAnswer :
    (rounds c target : ℕ) (t : Table) (ids : List ℕ)
    → length ids < rounds
    → Valid t ids
    → (out : ℕ × Table) × (syscall_kill rounds (some c) target t ≡ ok out)
      × Valid out.1 ids
      × KillAnswer t ids c target out
unfolding syscall_kill
syscall_kill-KillAnswer rounds c target t ids few v = elim (ℕ_discrete target 0) [
  | yes e ↦ ((failed, t), rw e refl, v, inr (refl, refl, inl e))
  | no ne ↦ elim (ℕ_discrete target (t.processes c).pid) [
    | yes e ↦
        let e' : (target == (t.processes c).pid) ≡ true = ground (arith, e) in
        let ne' : (target == 0) ≡ false = ground (arith, ne) in
        ((failed, t), rw (ne', e') refl, v, inr (refl, refl, inr (inl e)))
    | no apart ↦
        let apart' : (target == (t.processes c).pid) ≡ false = ground (arith, apart) in
        let ne' : (target == 0) ≡ false = ground (arith, ne) in
        let (out, done, v', killed) =
          process_request_kill_child-KilledChild rounds (t.processes c).pid target t ids few v in
        (
          (if out.0 then 0 else failed, out.1),
          rw (ne', apart', done) refl,
          v',
          answer t ids c target out ne apart v' killed,
        )
  ]
]
