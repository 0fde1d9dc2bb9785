-- ===== src/Syscall/Wait.antt =====
-- A process finds its own children, and waiting for one that has ended reaps it.
use native.Mathlib.Decide.{ℕ_discrete}
use toyix.Process.{Table, is_zombie}
use toyix.Process.Chain.{Member}
use toyix.Process.Valid.{Valid, AllLive-Live}
use toyix.Process.Search.{Found, process_find-Found}
use toyix.Process.Descriptors.{open_files}
use toyix.Process.Ending.{process_destroy}
use toyix.Process.Ending.Destroy.{Destroyed, process_destroy-Destroyed}
use toyix.Process.Ending.Exit.{is_child_of_lem}
use toyix.Usercopy.Range.{Checked}
use toyix.Usercopy.Copy.{Copied, copy_to_user-Copied}
use toyix.Bytes.{word_bytes}
use toyix.Syscall.{check_child, find_child, copy_status, Outcome, reap, waitpid_done, failed}
use toyix.Prelude.{
  ℕ, zero, suc, ◌^◌, ◌<◌, ◌≡◌, ◌≢◌, ◌⊎◌, inl, inr, refl, sym, ap, subst, ◌∙◌, true, false, ◌||◌,
  ◌==◌, if◌then◌else◌, Bool-cases, Option, none, some, ok, panic, List, [], length, arith,
}

-- What a process `c` that asks about `pid` finds.
abbrev pub ChildFound : Table → List ℕ → (pid c : ℕ) → Option ℕ → Type 0
ChildFound t ids pid c none =
    (q : ℕ)
    → Member q ids
    → (t.processes q).pid ≡ pid
    → q ≢ c
    → (t.processes q).parent_pid ≢ (t.processes c).pid
ChildFound t ids pid c (some p) =
    Member p ids
    × ((t.processes p).pid ≡ pid)
    × (p ≢ c)
    × ((t.processes p).parent_pid ≡ (t.processes c).pid)

check_child-ChildFound :
    (t : Table) (ids : List ℕ) (pid c : ℕ) (found : Option ℕ)
    → Valid t ids
    → Found t ids pid found
    → (o : Option ℕ) × (check_child c found t ≡ ok o) × ChildFound t ids pid c o
unfolding check_child
check_child-ChildFound t ids pid c none v absent =
    (none, refl, λ q m e apart. absurd (absent q m e))
check_child-ChildFound t ids pid c (some p) v (m, same, only) = elim (ℕ_discrete p c) [
  | yes e ↦
      let e' : (p == c) ≡ true = ground (arith, e) in
      (none, rw e' refl, λ q n e'' apart. absurd (apart (only q n e'' ∙ e)))
  | no apart ↦
      let apart' : (p == c) ≡ false = ground (arith, apart) in
      let asked =
        is_child_of_lem t p (t.processes c).pid
          (AllLive-Live t.processes t.next_pid p ids m v.live) in
      elim (ℕ_discrete (t.processes p).parent_pid (t.processes c).pid) [
        | yes child ↦
            let child' : ((t.processes p).parent_pid == (t.processes c).pid) ≡ true =
              ground (arith, child) in
            (some p, rw (apart', asked, child') refl, (m, same, apart, child))
        | no stranger ↦
            let stranger' : ((t.processes p).parent_pid == (t.processes c).pid) ≡ false =
              ground (arith, stranger) in
            (
              none,
              rw (apart', asked, stranger') refl,
              λ q n e apart''.
                  subst (λ x. (t.processes x).parent_pid ≢ (t.processes c).pid) (sym (only q n e))
                    stranger,
            )
      ]
]

-- In a valid table, with more rounds than processes, syscall_waitpid and syscall_procinfo of a process find
-- the process with the pid if it is another one and a child of the caller, and otherwise none.
pub find_child-ChildFound :
    (rounds pid c : ℕ) (t : Table) (ids : List ℕ)
    → length ids < rounds
    → Valid t ids
    → (o : Option ℕ) × (find_child rounds pid (some c) t ≡ ok o) × ChildFound t ids pid c o
unfolding find_child
find_child-ChildFound rounds pid c t ids few v =
    let (found, searched, known) = process_find-Found rounds pid t ids few v in
    let (o, checked, answer) = check_child-ChildFound t ids pid c found v known in
    (o, rw searched checked, answer)

-- What syscall_waitpid leaves of an ended child: nothing has changed where the status cannot be written;
-- elsewhere the child is destroyed, and its exit code is in the memory if the caller wants it.
abbrev pub Reaped :
    (t : Table) → (ids : List ℕ) → (flags mem : ℕ → ℕ) → (p user_status : ℕ) → Outcome → Type 0
Reaped t ids flags mem p user_status o =
    ((user_status ≢ 0)
      × Checked flags user_status 4 false
      × (o ≡ record { eax = failed; mem = mem; files = []; table = t }))
    ⊎ ((o.eax ≡ 0)
        × Destroyed t ids p (ok (o.files, o.table))
        × (if user_status == 0
            then (o.mem ≡ mem)
            else Copied flags mem user_status (word_bytes (t.processes p).exit_code) (some o.mem)))

ended-Destroyed :
    (rounds : ℕ) (t : Table) (ids : List ℕ) (p : ℕ)
    → length ids < rounds
    → Valid t ids
    → Member p ids
    → (t.processes p).exited ≡ true
    → Destroyed t ids p (process_destroy rounds p t)
ended-Destroyed rounds t ids p few v m exited =
    let e : ((t.processes p).exited || is_zombie (t.processes p).state) ≡ true = rw exited refl in
    subst
      (λ b.
        if b
        then Destroyed t ids p (process_destroy rounds p t)
        else (process_destroy rounds p t ≡ panic))
      e (process_destroy-Destroyed rounds t ids p few v m)

copy_status-cases :
    (rounds : ℕ) (flags mem : ℕ → ℕ) (user_status status : ℕ)
    → user_status < 2 ^ 32
    → 2 < rounds
    → (o : Option (ℕ → ℕ)) × (copy_status rounds flags mem user_status status ≡ ok o)
      × (if user_status == 0
          then (o ≡ some mem)
          else Copied flags mem user_status (word_bytes status) o)
unfolding copy_status
copy_status-cases rounds flags mem user_status status small few =
    elim (Bool-cases (user_status == 0)) [
      | inl e ↦ rw e (some mem, refl, refl)
      | inr e ↦ rw e (
          copy_to_user-Copied rounds flags mem user_status (word_bytes status) small (omega arith)
            (omega (arith, few)))
    ]

status_missing :
    (user_status : ℕ) (flags mem : ℕ → ℕ) (status : ℕ)
    → (if user_status == 0
        then (◌≡◌ {A = Option (ℕ → ℕ)} none (some mem))
        else Copied flags mem user_status (word_bytes status) none)
    → (user_status ≢ 0) × Checked flags user_status 4 false
status_missing zero flags mem status missing =
    absurd (subst (λ (o : Option (ℕ → ℕ)). elim o [ none ↦ Unit | some m ↦ ⊥ ]) missing tt)
status_missing (suc a) flags mem status other =
    let given : (suc a == 0) ≡ false = ground arith in
    (
      omega arith,
      subst
          (λ b.
            if b
            then (◌≡◌ {A = Option (ℕ → ℕ)} none (some mem))
            else Copied flags mem (suc a) (word_bytes status) none)
          given other,
    )

status_present :
    (user_status : ℕ) (flags mem mem' : ℕ → ℕ) (status : ℕ)
    → (if user_status == 0
        then (some mem' ≡ some mem)
        else Copied flags mem user_status (word_bytes status) (some mem'))
    → (if user_status == 0
        then (mem' ≡ mem)
        else Copied flags mem user_status (word_bytes status) (some mem'))
status_present zero flags mem mem' status same =
    ap (λ (o : Option (ℕ → ℕ)). elim o [ none ↦ mem | some m ↦ m ]) same
status_present (suc a) flags mem mem' status copied =
    let given : (suc a == 0) ≡ false = ground arith in
    rw given (
      subst
        (λ b.
          if b
          then (some mem' ≡ some mem)
          else Copied flags mem (suc a) (word_bytes status) (some mem'))
        given copied)

reap-Reaped :
    (rounds : ℕ) (t : Table) (ids : List ℕ) (flags mem : ℕ → ℕ) (p user_status : ℕ)
    (copied : Option (ℕ → ℕ))
    → Destroyed t ids p (process_destroy rounds p t)
    → (if user_status == 0
        then (copied ≡ some mem)
        else Copied flags mem user_status (word_bytes (t.processes p).exit_code) copied)
    → (o : Outcome) × (reap rounds p mem copied t ≡ ok o) × Reaped t ids flags mem p user_status o
unfolding reap
reap-Reaped rounds t ids flags mem p user_status none destroyed status =
    let (given, other) = status_missing user_status flags mem (t.processes p).exit_code status in
    (record { eax = failed; mem = mem; files = []; table = t }, refl, inl (given, other, refl))
reap-Reaped rounds t ids flags mem p user_status (some mem') (t', same, valid, others) status = (
  record { eax = 0; mem = mem'; files = open_files 13 3 (t.processes p).fds; table = t' },
  rw same refl,
  inr (
    refl,
    (t', refl, valid, others),
    status_present user_status flags mem mem' (t.processes p).exit_code status,
  ),
)

-- Process `p` of a valid table has exited. With more rounds than processes, and at least three, the end of
-- syscall_waitpid either fails because the status cannot be written, and changes nothing, or destroys
-- the process and leaves its exit code in the memory, if a place for it is given.
pub waitpid_done-Reaped :
    (rounds : ℕ) (t : Table) (ids : List ℕ) (flags mem : ℕ → ℕ) (p user_status : ℕ)
    → length ids < rounds
    → 2 < rounds
    → user_status < 2 ^ 32
    → Valid t ids
    → Member p ids
    → (t.processes p).exited ≡ true
    → (o : Outcome) × (waitpid_done rounds flags mem p user_status t ≡ ok o)
      × Reaped t ids flags mem p user_status o
unfolding waitpid_done
waitpid_done-Reaped rounds t ids flags mem p user_status few enough small v m exited =
    let (copied, done, status) =
      copy_status-cases rounds flags mem user_status (t.processes p).exit_code small enough in
    let (o, reaped, answer) =
      reap-Reaped rounds t ids flags mem p user_status copied
        (ended-Destroyed rounds t ids p few v m exited) status in
    (o, rw done reaped, answer)
