-- ===== src/Syscall/Report.antt =====
-- A process is told about its children, and about no others.
use toyix.Process.{Table}
use toyix.Process.Valid.{Valid}
use toyix.Usercopy.Range.{Checked}
use toyix.Usercopy.Copy.{Copied, copy_to_user-Copied}
use toyix.Syscall.Wait.{ChildFound, find_child-ChildFound}
use toyix.Syscall.{failed, info_bytes, answered, report, syscall_procinfo}
use toyix.Prelude.{
  ℕ, ◌^◌, ◌<◌, ◌≡◌, ◌≢◌, ◌⊎◌, inl, inr, refl, false, ◌==◌, Bool-cases, Option, none, some, ok, List,
  length, arith,
}

-- The result, and the memory with the report on the child, or as it was.
abbrev pub Reported :
    (t : Table)
    → (ids : List ℕ) → (flags mem : ℕ → ℕ) → (c pid user_info : ℕ) → ℕ × (ℕ → ℕ)
    → Type 0
Reported t ids flags mem c pid user_info out =
    ((out.0 ≡ 0)
      × (user_info ≢ 0)
      × (pid ≢ 0)
      × (p : ℕ) × ChildFound t ids pid c (some p)
      × Copied flags mem user_info (info_bytes (t.processes p)) (some out.1))
    ⊎ ((out ≡ (failed, mem))
        × ((user_info ≡ 0)
            ⊎ (pid ≡ 0)
            ⊎ ChildFound t ids pid c none
            ⊎ Checked flags user_info 24 false))

answered-Reported :
    (t : Table) (ids : List ℕ) (flags mem : ℕ → ℕ) (c pid user_info p : ℕ) (o : Option (ℕ → ℕ))
    → user_info ≢ 0
    → pid ≢ 0
    → ChildFound t ids pid c (some p)
    → Copied flags mem user_info (info_bytes (t.processes p)) o
    → Reported t ids flags mem c pid user_info (answered mem o)
answered-Reported t ids flags mem c pid user_info p none place number child other =
    inr (refl, inr (inr (inr other)))
answered-Reported t ids flags mem c pid user_info p (some mem') place number child copied =
    inl (refl, place, number, p, child, copied)

report-Reported :
    (rounds : ℕ) (t : Table) (ids : List ℕ) (flags mem : ℕ → ℕ) (c pid user_info : ℕ) (o : Option ℕ)
    → 2 < rounds
    → user_info < 2 ^ 32
    → user_info ≢ 0
    → pid ≢ 0
    → ChildFound t ids pid c o
    → (out : ℕ × (ℕ → ℕ)) × (report rounds flags mem user_info o t ≡ ok out)
      × Reported t ids flags mem c pid user_info out
unfolding report
report-Reported rounds t ids flags mem c pid user_info none enough small place number others =
    ((failed, mem), refl, inr (refl, inr (inr (inl others))))
report-Reported rounds t ids flags mem c pid user_info (some p) enough small place number child =
    let (o, done, copied) =
      copy_to_user-Copied rounds flags mem user_info (info_bytes (t.processes p)) small
        (omega arith) (omega (arith, enough)) in
    (
      answered mem o,
      rw done refl,
      answered-Reported t ids flags mem c pid user_info p o place number child copied,
    )

-- In a valid table, with more rounds than processes and at least three, syscall_procinfo of process `c`
-- ends. It succeeds with the report in the caller's memory for a place and a pid that are not 0, where the
-- pid is that of another process, a child of the caller, and the caller can write the 24 bytes. Otherwise
-- it fails and writes nothing.
pub syscall_procinfo-Reported :
    (rounds : ℕ) (t : Table) (ids : List ℕ) (flags mem : ℕ → ℕ) (c pid user_info : ℕ)
    → length ids < rounds
    → 2 < rounds
    → user_info < 2 ^ 32
    → Valid t ids
    → (out : ℕ × (ℕ → ℕ)) × (syscall_procinfo rounds flags mem (some c) pid user_info t ≡ ok out)
      × Reported t ids flags mem c pid user_info out
unfolding syscall_procinfo
syscall_procinfo-Reported rounds t ids flags mem c pid user_info few enough small v =
    elim (Bool-cases (user_info == 0)) [
      | inl e ↦ ((failed, mem), rw e refl, inr (refl, inl (ground arith)))
      | inr e ↦ elim (Bool-cases (pid == 0)) [
        | inl e' ↦ ((failed, mem), rw (e, e') refl, inr (refl, inr (inl (ground (arith, e')))))
        | inr e' ↦
            let (o, found, child) = find_child-ChildFound rounds pid c t ids few v in
            let (out, done, reported) =
              report-Reported rounds t ids flags mem c pid user_info o enough small
                (ground (arith, e)) (ground (arith, e')) child in
            (out, rw (e, e', found) done, reported)
      ]
    ]
