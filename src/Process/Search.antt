-- ===== src/Process/Search.antt =====
-- Searching the table: process_find and process_request_kill_child.
use toyix.WaitQueue.Order.{Chain}
use toyix.Process.{
  Process, Table, put, find_from, process_find, can_be_killed, kill_found,
  process_request_kill_child,
}
use toyix.Process.Chain.{Member}
use toyix.Process.Valid.{PidAbsent, AllLive, Valid, put-Valid}
use toyix.Prelude.{
  ℕ, zero, suc, ◌<◌, ◌≡◌, ◌≢◌, inl, inr, refl, sym, ◌∙◌, Bool, true, false, ◌&&◌, ◌==◌,
  if◌then◌else◌, Bool-cases, Option, none, some, ok, List, [], ◌∷◌, length, arith,
}

-- The search of the list: a process with the test, or none has it.
abbrev pub Hit : (Process → Bool) → (ℕ → Process) → List ℕ → Option ℕ → Type 0
Hit test processes ids none = (q : ℕ) → Member q ids → test (processes q) ≡ false
Hit test processes ids (some p) = Member p ids × (test (processes p) ≡ true)

-- What the search finds.
abbrev pub first_with : (Process → Bool) → (ℕ → Process) → List ℕ → Option ℕ
first_with test processes [] = none
first_with test processes (p ∷ rest) =
    if test (processes p) then some p else first_with test processes rest

Hit-behind :
    (test : Process → Bool) (processes : ℕ → Process) (p : ℕ) (rest : List ℕ) (found : Option ℕ)
    → test (processes p) ≡ false
    → Hit test processes rest found
    → Hit test processes (p ∷ rest) found
Hit-behind test processes p rest none unfit hit =
    λ q m. elim m [ inl e ↦ rw (← e) unfit | inr m' ↦ hit q m' ]
Hit-behind test processes p rest (some q) unfit (m, e) = (inr m, e)

first_with-Hit :
    (test : Process → Bool) (processes : ℕ → Process) (ids : List ℕ)
    → Hit test processes ids (first_with test processes ids)
first_with-Hit test processes [] = λ q m. absurd m
first_with-Hit test processes (p ∷ rest) = elim (Bool-cases (test (processes p))) [
  | inl e ↦ rw e (inl refl, e)
  | inr e ↦ rw e (
      Hit-behind test processes p rest (first_with test processes rest) e
        (first_with-Hit test processes rest))
]

find_from-first_with :
    (rounds : ℕ) (test : Process → Bool) (t : Table) (before : Option ℕ) (ids : List ℕ)
    (head : Option ℕ)
    → length ids < rounds
    → Chain t.links before ids head t.tail
    → find_from rounds test head t ≡ ok (first_with test t.processes ids)
unfolding find_from
find_from-first_with zero test t before ids head few chain = absurd (omega arith)
find_from-first_with (suc rounds) test t before [] head few (h, _) = rw h refl
find_from-first_with (suc rounds) test t before (p ∷ rest) head few (h, _, _, chain) =
    elim (Bool-cases (test (t.processes p))) [
      | inl e ↦ rw (h, find_from, e) refl
      | inr e ↦
          rw (h, find_from, e)
            (find_from-first_with rounds test t (some p) rest (t.links p).next (omega arith) chain)
    ]

PidAbsent-Member :
    (processes : ℕ → Process) (pid q : ℕ) (ids : List ℕ)
    → PidAbsent processes pid ids
    → Member q ids
    → (processes q).pid ≢ pid
PidAbsent-Member processes pid q [] alone m = absurd m
PidAbsent-Member processes pid q (x ∷ ids) (differ, _) (inl e) = rw (← e) differ
PidAbsent-Member processes pid q (x ∷ ids) (_, alone) (inr m) =
    PidAbsent-Member processes pid q ids alone m

-- Of the processes of a table no two have the same pid.
pid_unique :
    (processes : ℕ → Process) (next_pid p q : ℕ) (ids : List ℕ)
    → AllLive processes next_pid ids
    → Member p ids
    → Member q ids
    → (processes p).pid ≡ (processes q).pid
    → p ≡ q
pid_unique processes next_pid p q [] live m n e = absurd m
pid_unique processes next_pid p q (x ∷ ids) live (inl a) (inl b) e = sym a ∙ b
pid_unique processes next_pid p q (x ∷ ids) (_, alone, _) (inl a) (inr n) e =
    absurd (PidAbsent-Member processes (processes x).pid q ids alone n (rw a (sym e)))
pid_unique processes next_pid p q (x ∷ ids) (_, alone, _) (inr m) (inl b) e =
    absurd (PidAbsent-Member processes (processes x).pid p ids alone m (rw b e))
pid_unique processes next_pid p q (x ∷ ids) (_, _, live) (inr m) (inr n) e =
    pid_unique processes next_pid p q ids live m n e

unequal : (a b : ℕ) → (a == b) ≡ false → a ≢ b
unequal a b e = ground arith

tested :
    (process : Process) (parent child : ℕ)
    → (process.pid == child && process.parent_pid == parent) ≡ true
    → (process.pid ≡ child) × (process.parent_pid ≡ parent)
tested process parent child e = (ground arith, ground arith)

untested :
    (process : Process) (parent child : ℕ)
    → (process.pid == child && process.parent_pid == parent) ≡ false
    → process.pid ≡ child
    → process.parent_pid ≢ parent
untested process parent child e same = ground arith

kill_found-Valid :
    (t : Table) (ids : List ℕ) (found : Option ℕ) → Valid t ids → Valid (kill_found found t).1 ids
unfolding kill_found
kill_found-Valid t ids none v = v
kill_found-Valid t ids (some p) v = elim (Bool-cases (can_be_killed (t.processes p))) [
  | inl e ↦ rw e (put-Valid t ids p _ refl refl refl v)
  | inr e ↦ rw e v
]

-- The process with the pid, or that there is none.
abbrev pub Found : Table → List ℕ → (pid : ℕ) → Option ℕ → Type 0
Found t ids pid none = (q : ℕ) → Member q ids → (t.processes q).pid ≢ pid
Found t ids pid (some p) =
    Member p ids
    × ((t.processes p).pid ≡ pid)
    × ((q : ℕ) → Member q ids → (t.processes q).pid ≡ pid → q ≡ p)

Hit-Found :
    (t : Table) (ids : List ℕ) (pid : ℕ) (found : Option ℕ)
    → Valid t ids
    → Hit (λ process. process.pid == pid) t.processes ids found
    → Found t ids pid found
Hit-Found t ids pid none v hit = λ q m e. unequal (t.processes q).pid pid (hit q m) e
Hit-Found t ids pid (some p) v (m, e) =
    let same : (t.processes p).pid ≡ pid = ground arith in
    (m, same, λ q n e'. pid_unique t.processes t.next_pid q p ids v.live n m (e' ∙ sym same))

-- In a table of these processes, more rounds than processes find the one with the pid, or that there is
-- none.
pub process_find-Found :
    (rounds pid : ℕ) (t : Table) (ids : List ℕ)
    → length ids < rounds
    → Valid t ids
    → (found : Option ℕ) × (process_find rounds pid t ≡ ok found) × Found t ids pid found
unfolding process_find
process_find-Found rounds pid t ids few v =
    let test : Process → Bool = λ process. process.pid == pid in
    let found = first_with test t.processes ids in
    (
      found,
      find_from-first_with rounds test t none ids t.head few v.chain,
      Hit-Found t ids pid found v (first_with-Hit test t.processes ids),
    )

-- What asking a child to end does: it marks the child, or there is no such child that can be ended, and
-- nothing changes.
abbrev pub KilledChild : Table → List ℕ → (parent child : ℕ) → Bool × Table → Type 0
KilledChild t ids parent child (true, t') =
    (p : ℕ) × Member p ids
    × ((t.processes p).pid ≡ child)
    × ((t.processes p).parent_pid ≡ parent)
    × (can_be_killed (t.processes p) ≡ true)
    × (t' ≡ put p (record (t.processes p) { kill_requested = true }) t)
KilledChild t ids parent child (false, t') =
    (t' ≡ t)
    × ((q : ℕ)
        → Member q ids
        → (t.processes q).pid ≡ child
        → (t.processes q).parent_pid ≡ parent
        → can_be_killed (t.processes q) ≡ false)

abbrev child_test : (parent child : ℕ) → Process → Bool
child_test parent child process = process.pid == child && process.parent_pid == parent

kill_found-KilledChild :
    (t : Table) (ids : List ℕ) (parent child : ℕ) (found : Option ℕ)
    → Valid t ids
    → Hit (child_test parent child) t.processes ids found
    → KilledChild t ids parent child (kill_found found t)
unfolding kill_found
kill_found-KilledChild t ids parent child none v hit =
    (refl, λ q m e e'. let off = hit q m in absurd (untested (t.processes q) parent child off e e'))
kill_found-KilledChild t ids parent child (some p) v (m, e) =
    let (same, same') = tested (t.processes p) parent child e in
    elim (Bool-cases (can_be_killed (t.processes p))) [
      | inl can ↦ rw can (p, m, same, same', can, refl)
      | inr cannot ↦ rw cannot (
        refl,
        λ q n e' e''.
            let one = pid_unique t.processes t.next_pid p q ids v.live m n (same ∙ sym e') in
            rw (← one) cannot,
      )
    ]

-- In a table of these processes, with more rounds than processes, asking child `child` of `parent` to end
-- keeps the table valid. It succeeds if the process with that pid is a child of `parent` and has not
-- ended, and then marks just that process. Otherwise nothing changes.
pub process_request_kill_child-KilledChild :
    (rounds parent child : ℕ) (t : Table) (ids : List ℕ)
    → length ids < rounds
    → Valid t ids
    → (out : Bool × Table) × (process_request_kill_child rounds parent child t ≡ ok out)
      × Valid out.1 ids
      × KilledChild t ids parent child out
unfolding process_request_kill_child
process_request_kill_child-KilledChild rounds parent child t ids few v =
    let found = first_with (child_test parent child) t.processes ids in
    let done =
      find_from-first_with rounds (child_test parent child) t none ids t.head few v.chain in
    (
      kill_found found t,
      rw done refl,
      kill_found-Valid t ids found v,
      kill_found-KilledChild t ids parent child found v
          (first_with-Hit (child_test parent child) t.processes ids),
    )
