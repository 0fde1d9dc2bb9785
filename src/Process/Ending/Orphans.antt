-- ===== src/Process/Ending/Orphans.antt =====
-- The children of a process that is destroyed lose their parent.
use native.Mathlib.Decide.{ℕ_discrete}
use mathlib.Core.Path.{fun_ext}
use toyix.WaitQueue.{Links}
use toyix.WaitQueue.Order.{Absent, Chain}
use toyix.Process.{Process, Table, put}
use toyix.Process.Chain.{Member, Member-Absent}
use toyix.Process.Valid.{Alike}
use toyix.Process.Ending.{orphan_from}
use toyix.Prelude.{
  ℕ, zero, suc, ◌<◌, ◌≡◌, ◌≢◌, inl, inr, refl, sym, ap, ◌∙◌, subst, ◌==◌, if◌then◌else◌, Bool-cases,
  Option, some, update, update_self, update_other, ok, List, [], ◌∷◌, length, arith,
}

-- A process that is not a child of `pid` any more.
abbrev pub unparented : (pid : ℕ) → Process → Process
unparented pid process = record process {
  parent_pid = if process.parent_pid == pid then 0 else process.parent_pid;
}

-- The processes after the loop.
abbrev pub orphaned : (pid : ℕ) → List ℕ → (ℕ → Process) → ℕ → Process
orphaned pid [] processes = processes
orphaned pid (p ∷ rest) processes =
    orphaned pid rest (update processes p (unparented pid (processes p)))

-- A write of what is there already.
update-same : (f : ℕ → Process) (p : ℕ) (q : Process) → q ≡ f p → update f p q ≡ f
update-same f p q e = fun_ext λ j. elim (ℕ_discrete p j) [
  | yes same ↦ subst (λ i. update f p q i ≡ f i) same (update_self f p q ∙ e)
  | no ne ↦ update_other f p j q ne
]

-- One round of the loop.
one-orphan :
    (pid p : ℕ) (t : Table)
    → (if (t.processes p).parent_pid == pid
        then put p (record (t.processes p) { parent_pid = 0 }) t
        else t)
      ≡ put p (unparented pid (t.processes p)) t
one-orphan pid p t = elim (Bool-cases ((t.processes p).parent_pid == pid)) [
  | inl e ↦ rw e refl
  | inr e ↦ rw e (
      ap (λ processes. record t { processes = processes })
        (sym (update-same t.processes p (t.processes p) refl)))
]

pub orphan_from-orphaned :
    (rounds pid : ℕ) (t : Table) (before : Option ℕ) (ids : List ℕ) (head : Option ℕ)
    → length ids < rounds
    → Chain t.links before ids head t.tail
    → orphan_from rounds pid head t ≡ ok (record t { processes = orphaned pid ids t.processes })
unfolding orphan_from
orphan_from-orphaned zero pid t before ids head few chain = absurd (omega arith)
orphan_from-orphaned (suc rounds) pid t before [] head few (h, _) = rw h refl
orphan_from-orphaned (suc rounds) pid t before (p ∷ rest) head few (h, _, _, chain) =
    rw (h, one-orphan pid p t)
      (orphan_from-orphaned rounds pid (put p (unparented pid (t.processes p)) t) (some p) rest
        (t.links p).next (omega arith) chain)

-- Outside the list nothing changes.
orphaned-outside :
    (pid : ℕ) (ids : List ℕ) (processes : ℕ → Process) (q : ℕ)
    → Absent q ids
    → orphaned pid ids processes q ≡ processes q
orphaned-outside pid [] processes q absent = refl
orphaned-outside pid (p ∷ rest) processes q (differ, absent) =
    orphaned-outside pid rest (update processes p (unparented pid (processes p))) q absent
    ∙ update_other processes p q (unparented pid (processes p)) differ

-- In the list every child of `pid` has lost its parent.
pub orphaned-inside :
    (pid : ℕ) (links : ℕ → Links) (before : Option ℕ) (ids : List ℕ) (head tail : Option ℕ)
    (processes : ℕ → Process) (q : ℕ)
    → Chain links before ids head tail
    → Member q ids
    → orphaned pid ids processes q ≡ unparented pid (processes q)
orphaned-inside pid links before [] head tail processes q chain m = absurd m
orphaned-inside pid links before (p ∷ rest) head tail processes q (_, _, alone, chain) (inl e) =
    subst (λ x. orphaned pid (p ∷ rest) processes x ≡ unparented pid (processes x)) e
      (orphaned-outside pid rest (update processes p (unparented pid (processes p))) p alone
        ∙ update_self processes p (unparented pid (processes p)))
orphaned-inside pid links before (p ∷ rest) head tail processes q (_, _, alone, chain) (inr m) =
    let differ : p ≢ q = λ e. Member-Absent q p rest m alone (sym e) in
    let changed = update processes p (unparented pid (processes p)) in
    orphaned-inside pid links (some p) rest (links p).next tail changed q chain m
    ∙ ap (unparented pid) (update_other processes p q (unparented pid (processes p)) differ)

-- The loop leaves what the invariant speaks of.
pub Alike-orphaned :
    (pid : ℕ) (links : ℕ → Links) (before : Option ℕ) (ids : List ℕ) (head tail : Option ℕ)
    (processes : ℕ → Process) (others : List ℕ)
    → Chain links before ids head tail
    → ((q : ℕ) → Member q others → Member q ids)
    → Alike processes (orphaned pid ids processes) others
Alike-orphaned pid links before ids head tail processes [] chain inside = tt
Alike-orphaned pid links before ids head tail processes (q ∷ others) chain inside =
    let here =
      orphaned-inside pid links before ids head tail processes q chain (inside q (inl refl)) in
    (
      rw here (refl, refl, refl),
      Alike-orphaned pid links before ids head tail processes others chain
          (λ x m. inside x (inr m)),
    )
