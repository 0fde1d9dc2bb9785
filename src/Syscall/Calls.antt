-- ===== src/Syscall/Calls.antt =====
-- Writing to the console, closing a file, and asking for the parent.
use toyix.Process.{Table}
use toyix.Process.Valid.{Live}
use toyix.Process.Descriptors.Files.{Installed}
use toyix.Process.Ending.Exit.{parent_pid_lem}
use toyix.Usercopy.{read_bytes}
use toyix.Usercopy.Range.{Checked}
use toyix.Usercopy.Copy.{copy_from_user-Checked}
use toyix.Syscall.{failed, capped, written, syscall_write, syscall_close, syscall_getppid}
use toyix.Prelude.{
  ℕ, ◌^◌, ◌<◌, ◌≤◌, ◌≡◌, ◌≢◌, ◌⊎◌, inl, inr, refl, Bool, true, false, ◌||◌, ltb, ge→ltb, ◌==◌,
  if◌then◌else◌, Bool-cases, none, some, ok, List, [], arith,
}

-- The result and the bytes that reach the console: those in memory, at most 256, or none.
abbrev pub WriteAnswer : (flags mem : ℕ → ℕ) → (fd user_buf length : ℕ) → ℕ × List ℕ → Type 0
WriteAnswer flags mem fd user_buf length out =
    (((fd ≡ 1) ⊎ (fd ≡ 2))
      × Checked flags user_buf (capped length) true
      × (out ≡ (capped length, read_bytes (capped length) mem user_buf)))
    ⊎ (((fd ≢ 1) × (fd ≢ 2) ⊎ Checked flags user_buf (capped length) false) × (out ≡ (failed, [])))

capped_le : (length : ℕ) → capped length ≤ 256
capped_le length = ground arith

written-WriteAnswer :
    (flags mem : ℕ → ℕ) (fd user_buf length : ℕ) (b : Bool)
    → (fd ≡ 1) ⊎ (fd ≡ 2)
    → Checked flags user_buf (capped length) b
    → WriteAnswer flags mem fd user_buf length (
        written
          (capped length)
          (if b then some (read_bytes (capped length) mem user_buf) else none))
written-WriteAnswer flags mem fd user_buf length true console checked = inl (console, checked, refl)
written-WriteAnswer flags mem fd user_buf length false console checked = inr (inr checked, refl)

-- For descriptors 1 and 2, syscall_write sends the first bytes of the buffer, at most 256, to the console
-- and answers their number, if the process can read them all. Otherwise it fails, and sends nothing.
syscall_write-WriteAnswer :
    (rounds : ℕ) (flags mem : ℕ → ℕ) (fd user_buf length : ℕ)
    → user_buf < 2 ^ 32
    → 3 < rounds
    → (out : ℕ × List ℕ) × (syscall_write rounds flags mem fd user_buf length ≡ ok out)
      × WriteAnswer flags mem fd user_buf length out
unfolding syscall_write
syscall_write-WriteAnswer rounds flags mem fd user_buf length small few =
    elim (Bool-cases (fd == 1 || fd == 2)) [
      | inr e ↦ ((failed, []), rw e refl, inr (inl (ground arith, ground arith), refl))
      | inl e ↦
          let console : (fd ≡ 1) ⊎ (fd ≡ 2) = ground arith in
          elim (Bool-cases (capped length == 0)) [
            | inl z ↦
                let none_left : capped length ≡ 0 = ground (arith, z) in
                (
                  (0, []),
                  rw (e, z) refl,
                  inl (
                    console,
                    (inl none_left, λ a from to. absurd (omega (arith, from, to, none_left))),
                    rw none_left refl,
                  ),
                )
            | inr z ↦
                let (b, done, checked) =
                  copy_from_user-Checked rounds flags mem user_buf (capped length) small
                    (omega (arith, capped_le length)) (omega (arith, capped_le length, few)) in
                (
                  written (capped length)
                      (if b then some (read_bytes (capped length) mem user_buf) else none),
                  rw (e, z, done) refl,
                  written-WriteAnswer flags mem fd user_buf length b console checked,
                )
          ]
    ]

-- A file that process_fd_install has given a descriptor can be closed with it.
syscall_close_lem :
    (t t' : Table) (c file fd : ℕ)
    → Installed t c file (some fd, t')
    → (t'' : Table) × (syscall_close (some c) fd t' ≡ ok (0, t''))
      × ((i : ℕ) → (t''.processes c).fds i ≡ (t.processes c).fds i)
unfolding syscall_close
syscall_close_lem t t' c file fd ((low, _, _, _), _, _, t'', done, same) =
    let file_fd : ltb fd 3 ≡ false = ge→ltb fd 3 low in (t'', rw (file_fd, done) refl, same)

syscall_getppid_lem :
    (t : Table) (c : ℕ)
    → Live (t.processes c) t.next_pid
    → syscall_getppid (some c) t ≡ ok (t.processes c).parent_pid
unfolding syscall_getppid
syscall_getppid_lem t c live = parent_pid_lem t c live
