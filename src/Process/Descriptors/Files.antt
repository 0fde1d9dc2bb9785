-- ===== src/Process/Descriptors/Files.antt =====
-- Opening, using and closing a file through its descriptor.
use native.Mathlib.Decide.{ℕ_discrete}
use toyix.Process.{Process, Table, put}
use toyix.Process.Valid.{Live, validate_live_process_lem}
use toyix.Process.Descriptors.{
  set_fd, free_fd, install_at, process_fd_install, outside_fds, process_fd_get, process_fd_close,
  open_files, cleared, process_close_all_files,
}
use toyix.Prelude.{
  ℕ, zero, suc, ◌+◌, ◌<◌, ◌≤◌, ◌≡◌, ◌≢◌, inl, inr, refl, sym, ap, ◌∙◌, subst, false, if◌then◌else◌,
  Option, none, some, Option-cases, update, update_self, update_other, ok, arith,
}

-- The first of the `left` descriptors from `fd` on that is not used, or that all are.
abbrev pub Lowest : (left fd : ℕ) → (ℕ → Option ℕ) → Option ℕ → Type 0
Lowest left fd fds none = (i : ℕ) → fd ≤ i → i < fd + left → fds i ≢ none
Lowest left fd fds (some free) =
    (fd ≤ free)
    × (free < fd + left)
    × (fds free ≡ none)
    × ((i : ℕ) → fd ≤ i → i < free → fds i ≢ none)

Lowest-behind :
    (left fd : ℕ) (fds : ℕ → Option ℕ) (out : Option ℕ)
    → fds fd ≢ none
    → Lowest left (fd + 1) fds out
    → Lowest (suc left) fd fds out
Lowest-behind left fd fds none used lowest = λ i low high. elim (ℕ_discrete fd i) [
  | yes e ↦ rw (← e) used
  | no ne ↦ lowest i (omega arith) (omega arith)
]
Lowest-behind left fd fds (some free) used (low, high, empty, others) = (
  omega arith,
  omega arith,
  empty,
  λ i above below. elim (ℕ_discrete fd i) [
    | yes e ↦ rw (← e) used
    | no ne ↦ others i (omega arith) below
  ],
)

free_fd-Lowest : (left fd : ℕ) (fds : ℕ → Option ℕ) → Lowest left fd fds (free_fd left fd fds)
unfolding free_fd
free_fd-Lowest zero fd fds = λ i low high. absurd (omega arith)
free_fd-Lowest (suc left) fd fds = elim (Option-cases (fds fd)) [
  | inl e ↦ rw e (omega arith, omega arith, e, λ i low high. absurd (omega arith))
  | inr (file, e) ↦ rw e (
      Lowest-behind left fd fds (free_fd left (fd + 1) fds) (λ e'. ground arith)
        (free_fd-Lowest left (fd + 1) fds))
]

-- What opening a file gives: the lowest free descriptor, through which the file is found and then closed,
-- while the other descriptors give what they gave; or nothing, where all are used.
abbrev pub Installed : Table → (p file : ℕ) → Option ℕ × Table → Type 0
Installed t p file (none, t') = (t' ≡ t) × Lowest 13 3 (t.processes p).fds none
Installed t p file (some fd, t') =
    Lowest 13 3 (t.processes p).fds (some fd)
    × (process_fd_get p fd t' ≡ ok (some file))
    × ((other : ℕ) → other ≢ fd → process_fd_get p other t' ≡ process_fd_get p other t)
    × (t'' : Table) × (process_fd_close p fd t' ≡ ok (some file, t''))
    × ((i : ℕ) → (t''.processes p).fds i ≡ (t.processes p).fds i)

-- A descriptor that is set.
module _ (t : Table) (p fd : ℕ) (value : Option ℕ) (live : Live (t.processes p) t.next_pid) where
  set_fd-own :
      (set_fd p fd value t).processes p
      ≡ record (t.processes p) { fds = update (t.processes p).fds fd value }
  set_fd-own = update_self t.processes p _

  set_fd-Live : Live ((set_fd p fd value t).processes p) t.next_pid
  set_fd-Live = subst (λ q. Live q t.next_pid) (sym set_fd-own) live

  get-set_fd :
      (i : ℕ)
      → process_fd_get p i (set_fd p fd value t)
        ≡ ok (if outside_fds i then none else update (t.processes p).fds fd value i)
  unfolding process_fd_get
  get-set_fd i =
      rw (validate_live_process_lem (set_fd p fd value t) p set_fd-Live)
        (ap (λ (q : Process). ok (if outside_fds i then none else q.fds i)) set_fd-own)

get_lem :
    (t : Table) (p i : ℕ)
    → Live (t.processes p) t.next_pid
    → process_fd_get p i t ≡ ok (if outside_fds i then none else (t.processes p).fds i)
unfolding process_fd_get
get_lem t p i live = rw (validate_live_process_lem t p live) refl

twice :
    (fds : ℕ → Option ℕ) (fd file i : ℕ)
    → fds fd ≡ none
    → update (update fds fd (some file)) fd none i ≡ fds i
twice fds fd file i empty = elim (ℕ_discrete fd i) [
  | yes e ↦
      subst (λ j. update (update fds fd (some file)) fd none j ≡ fds j) e
        (update_self (update fds fd (some file)) fd none ∙ sym empty)
  | no ne ↦
      update_other (update fds fd (some file)) fd i none ne ∙ update_other fds fd i (some file) ne
]

inside_fds : (fd : ℕ) → 3 ≤ fd → fd < 16 → outside_fds fd ≡ false
inside_fds fd low high = ground arith

module _ (t : Table) (p : ℕ) (live : Live (t.processes p) t.next_pid) where
  install_at-Installed :
      (file : ℕ) (found : Option ℕ)
      → Lowest 13 3 (t.processes p).fds found
      → Installed t p file (install_at p file found t)
  unfolding install_at process_fd_get process_fd_close
  install_at-Installed file none lowest = (refl, lowest)
  install_at-Installed file (some fd) (low, high, empty, others) =
      let t' = set_fd p fd (some file) t in
      let fds = (t.processes p).fds in
      let inside = inside_fds fd low high in
      let live' = set_fd-Live t p fd (some file) live in
      let there : ((t'.processes p).fds fd) ≡ some file =
        ap {A = Process} (λ q. q.fds fd) (set_fd-own t p fd (some file) live)
        ∙ update_self fds fd (some file) in
      (
        (low, high, empty, others),
        get-set_fd t p fd (some file) live fd
            ∙ ap ok (
                ap (λ b. if b then none else update fds fd (some file) fd) inside
                ∙ update_self fds fd (some file)),
        λ other ne.
            get-set_fd t p fd (some file) live other
            ∙ ap (λ f. ok (if outside_fds other then none else f))
                (update_other fds fd other (some file) (λ e. ne (sym e)))
            ∙ sym (get_lem t p other live),
        set_fd p fd none t',
        rw (validate_live_process_lem t' p live', inside)
            (ap (λ f. ok (f, set_fd p fd none t')) there),
        λ i.
            ap {A = Process} (λ q. q.fds i) (set_fd-own t' p fd none live')
            ∙ ap {A = Process} (λ q. update q.fds fd none i) (set_fd-own t p fd (some file) live)
            ∙ twice fds fd file i empty,
      )

  -- A file gets the lowest descriptor from 3 to 15 that is not used, or none if all are used, and then
  -- nothing changes. process_fd_get finds it there, and the others as before; process_fd_close gives it
  -- back, and leaves the descriptors as they were before.
  pub process_fd_install-Installed :
      (file : ℕ)
      → (out : Option ℕ × Table) × (process_fd_install p (some file) t ≡ ok out)
        × Installed t p file out
  unfolding process_fd_install
  process_fd_install-Installed file =
      let found = free_fd 13 3 (t.processes p).fds in
      (
        install_at p file found t,
        rw (validate_live_process_lem t p live) refl,
        install_at-Installed file found (free_fd-Lowest 13 3 (t.processes p).fds),
      )

pub close_all_lem :
    (t : Table) (p : ℕ)
    → Live (t.processes p) t.next_pid
    → process_close_all_files p t
      ≡ ok (
        open_files 13 3 (t.processes p).fds,
        put p (record (t.processes p) { fds = cleared (t.processes p).fds }) t,
      )
unfolding process_close_all_files
close_all_lem t p live = rw (validate_live_process_lem t p live) refl
