-- ===== src/Sync/Valid.antt =====
-- What the waking of threads rests on: the queue holds blocked threads, each waker has its own, and
-- while a thread waits, as many threads are on their way as can have the resource.
use toyix.WaitQueue.Order.{Absent, Holds}
use toyix.WaitQueue.{Queue}
use toyix.Sync.{Place, asleep, waking, Resource, World}
use native.Mathlib.Decide.{ℕ_discrete}
use toyix.Sync.Pending.{pending}
use toyix.Prelude.{ℕ, ◌+◌, ◌≤◌, ◌<◌, ◌≡◌, ◌≢◌, true, ok, List, [], ◌∷◌, ◌++◌, update, arith}

-- What a resource promises: how many threads can have it at once, one fewer with each that takes it,
-- and at most one more with each that gives it back.
pub record Lawful {S : Type 0} (r : Resource S) : Type 0 where
  pub units : S → ℕ
  pub available_lem : (s : S) → r.available s ≡ true → 0 < units s
  pub unavailable_lem : (s : S) → r.available s ≢ true → units s ≡ 0
  pub acquire_lem : (self : ℕ) (s : S) → r.available s ≡ true → units (r.acquire self s) < units s
  pub release_lem : (self : ℕ) (s s' : S) → r.release self s ≡ ok s' → units s' ≤ units s + 1

-- Every thread of the list is one of the `n` and blocked.
abbrev pub Blocked : ℕ → (ℕ → Place) → List ℕ → Type 0
Blocked n at [] = Unit
Blocked n at (t ∷ rest) = ((at t ≡ asleep) × (t < n)) × Blocked n at rest

-- With these waiters, first to last, of `n` threads.
pub record Orderly (n : ℕ) (waiters : Queue) (at : ℕ → Place) (threads : List ℕ) : Type 0 where
  pub chain : Holds waiters threads
  pub blocked : Blocked n at threads
  pub woken : (u t : ℕ) → at u ≡ waking t → (at t ≡ asleep) × (t < n) × Absent t threads
  pub own : (u v t : ℕ) → at u ≡ waking t → at v ≡ waking t → u ≡ v

pub record Valid {S : Type 0} (r : Resource S) (laws : Lawful r) (n : ℕ) (w : World S)
    (threads : List ℕ) : Type 0 where
  pub orderly : Orderly n w.waiters w.at threads
  pub enough : threads ≢ [] → laws.units w.resource ≤ pending n w.at

pub Blocked-Absent :
    (n : ℕ) (at : ℕ → Place) (self : ℕ) (threads : List ℕ)
    → Blocked n at threads
    → at self ≢ asleep
    → Absent self threads
Blocked-Absent n at self [] all awake = tt
Blocked-Absent n at self (t ∷ rest) ((here, _), all) awake =
    ((λ e. awake (rw (← e) here)), Blocked-Absent n at self rest all awake)

pub Blocked-update :
    (n : ℕ) (at : ℕ → Place) (self : ℕ) (place : Place) (threads : List ℕ)
    → Absent self threads
    → Blocked n at threads
    → Blocked n (update at self place) threads
Blocked-update n at self place [] absent all = tt
Blocked-update n at self place (t ∷ rest) (differ, absent) ((here, below), all) =
    ((ground arith, below), Blocked-update n at self place rest absent all)

pub Blocked-append :
    (n : ℕ) (at : ℕ → Place) (self : ℕ) (threads : List ℕ)
    → Blocked n at threads
    → at self ≡ asleep
    → self < n
    → Blocked n at (threads ++ (self ∷ []))
Blocked-append n at self [] all here below = ((here, below), tt)
Blocked-append n at self (t ∷ rest) (first, all) here below =
    (first, Blocked-append n at self rest all here below)

-- Only the moved thread's place changes.
pub waking-update :
    (at : ℕ → Place) (self : ℕ) (place : Place)
    → ((t : ℕ) → place ≢ waking t)
    → (u t : ℕ) → update at self place u ≡ waking t
    → at u ≡ waking t
waking-update at self place plain u t e = elim (ℕ_discrete self u) [
  | yes same ↦ absurd (plain t (ground arith))
  | no ne ↦ ground arith
]

-- A thread that is not in the queue and that none wakes moves to a place where it neither is blocked nor
-- wakes another.
pub move-Orderly :
    {n : ℕ} {waiters : Queue} {at : ℕ → Place} {threads : List ℕ} (self : ℕ) (place : Place)
    → Orderly n waiters at threads
    → Absent self threads
    → ((u : ℕ) → at u ≢ waking self)
    → ((t : ℕ) → place ≢ waking t)
    → Orderly n waiters (update at self place) threads
move-Orderly {n} {waiters} {at} {threads} self place o absent unwoken plain =
    let other = waking-update at self place plain in
    record {
      chain = o.chain;
      blocked = Blocked-update n at self place threads absent o.blocked;
      woken = λ u t e.
          let (sleeps, below, gone) = o.woken u t (other u t e) in
          let differ : self ≢ t = λ same. unwoken u (rw same (other u t e)) in
          (ground arith, below, gone);
      own = λ u v t e e'. o.own u v t (other u t e) (other v t e');
    }
