-- ===== src/Process/Ending/Removal.antt =====
-- The list of processes without one of them.
use toyix.WaitQueue.{Links}
use toyix.WaitQueue.Order.{Absent, Chain}
use toyix.Process.{Process, or_else}
use toyix.Process.Chain.{Member, without, is_first, Member-Absent}
use toyix.Process.Valid.{PidAbsent, AllLive, Alike}
use toyix.Prelude.{
  ℕ, suc, ◌≡◌, ◌≢◌, inl, inr, refl, sym, ap, subst, true, false, ◌==◌, if◌then◌else◌, Bool-cases,
  Option, none, some, update, update_other, List, [], ◌∷◌, length, arith,
}

-- No process is its own neighbour, and only the first has none before it.
pub prev_self :
    (links : ℕ → Links) (before : Option ℕ) (ids : List ℕ) (head tail : Option ℕ) (p : ℕ)
    → Chain links before ids head tail
    → Member p ids
    → before ≢ some p
    → (links p).prev ≢ some p
prev_self links before [] head tail p chain m differ = absurd m
prev_self links before (x ∷ ids) head tail p (_, prev, _, _) (inl e) differ =
    subst (λ y. (links y).prev ≢ some p) e (rw prev differ)
prev_self links before (x ∷ ids) head tail p (_, _, alone, chain) (inr m) differ =
    prev_self links (some x) ids (links x).next tail p chain m
      (λ e. Member-Absent p x ids m alone (ground arith))

or_else-prev :
    (links : ℕ → Links) (x : ℕ) (ids : List ℕ) (head tail : Option ℕ) (p : ℕ) (end old : Option ℕ)
    → Chain links (some x) ids head tail
    → Member p ids
    → or_else (links p).prev end old ≡ old
or_else-prev links x [] head tail p end old chain m = absurd m
or_else-prev links x (y ∷ ids) head tail p end old (_, prev, _, _) (inl e) =
    subst (λ z. or_else (links z).prev end old ≡ old) e (rw prev refl)
or_else-prev links x (y ∷ ids) head tail p end old (_, _, _, chain) (inr m) =
    or_else-prev links y ids (links y).next tail p end old chain m

pub head-is_first :
    (links : ℕ → Links) (ids : List ℕ) (head tail : Option ℕ) (p : ℕ)
    → Chain links none ids head tail
    → Member p ids
    → or_else (links p).prev (links p).next head ≡ (if is_first p ids then (links p).next else head)
head-is_first links [] head tail p chain m = absurd m
head-is_first links (x ∷ ids) head tail p (_, prev, _, _) (inl e) =
    let at : (x == p) ≡ true = ground arith in
    let prev' : (links p).prev ≡ none = subst (λ y. (links y).prev ≡ none) e prev in
    rw (at, prev') refl
head-is_first links (x ∷ ids) head tail p (_, _, alone, chain) (inr m) =
    let differ = Member-Absent p x ids m alone in
    let at : (x == p) ≡ false = ground arith in
    rw at (or_else-prev links x ids (links x).next tail p (links p).next head chain m)

rest-Member : (p x : ℕ) (ids : List ℕ) → Member p (x ∷ ids) → (x == p) ≡ false → Member p ids
rest-Member p x ids (inl same) e = absurd (ground arith)
rest-Member p x ids (inr m) e = m

pub length-without :
    (p : ℕ) (ids : List ℕ) → Member p ids → length ids ≡ suc (length (without p ids))
length-without p [] m = absurd m
length-without p (x ∷ ids) m = elim (Bool-cases (x == p)) [
  | inl e ↦ rw e refl
  | inr e ↦ rw e (ap suc (length-without p ids (rest-Member p x ids m e)))
]

PidAbsent-without :
    (processes : ℕ → Process) (pid p : ℕ) (ids : List ℕ)
    → PidAbsent processes pid ids
    → PidAbsent processes pid (without p ids)
PidAbsent-without processes pid p [] absent = tt
PidAbsent-without processes pid p (x ∷ ids) (differ, absent) = elim (Bool-cases (x == p)) [
  | inl e ↦ rw e absent
  | inr e ↦ rw e (differ, PidAbsent-without processes pid p ids absent)
]

pub AllLive-without :
    (processes : ℕ → Process) (next_pid p : ℕ) (ids : List ℕ)
    → AllLive processes next_pid ids
    → AllLive processes next_pid (without p ids)
AllLive-without processes next_pid p [] live = tt
AllLive-without processes next_pid p (x ∷ ids) (here, absent, live) = elim (Bool-cases (x == p)) [
  | inl e ↦ rw e live
  | inr e ↦ rw e (
    here,
    PidAbsent-without processes (processes x).pid p ids absent,
    AllLive-without processes next_pid p ids live,
  )
]

pub Member-without : (p q : ℕ) (ids : List ℕ) → Member q (without p ids) → Member q ids
Member-without p q [] m = m
Member-without p q (x ∷ ids) m = elim (Bool-cases (x == p)) [
  | inl e ↦ inr (rw e at m)
  | inr e ↦
      let m' : Member q (x ∷ without p ids) = rw e at m in
      elim m' [ inl same ↦ inl same | inr later ↦ inr (Member-without p q ids later) ]
]

-- `p` stood in the table once.
pub Absent-self :
    (links : ℕ → Links) (before : Option ℕ) (ids : List ℕ) (head tail : Option ℕ) (p : ℕ)
    → Chain links before ids head tail
    → Absent p (without p ids)
Absent-self links before [] head tail p chain = tt
Absent-self links before (x ∷ ids) head tail p (_, _, alone, chain) = elim (Bool-cases (x == p)) [
  | inl e ↦ let same : x ≡ p = ground arith in rw e (subst (λ y. Absent y ids) same alone)
  | inr e ↦
      rw e ((λ same. ground arith), Absent-self links (some x) ids (links x).next tail p chain)
]

pub Alike-outside :
    (f : ℕ → Process) (p : ℕ) (process : Process) (ids : List ℕ)
    → Absent p ids
    → Alike f (update f p process) ids
Alike-outside f p process [] absent = tt
Alike-outside f p process (q ∷ ids) (differ, absent) = (
  rw (update_other f p q process (λ e. differ (sym e))) (refl, refl, refl),
  Alike-outside f p process ids absent,
)
