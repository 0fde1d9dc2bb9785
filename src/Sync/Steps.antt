-- ===== src/Sync/Steps.antt =====
-- The steps of the waiting loop leave a state with enough threads on their way.
use toyix.WaitQueue.{Queue}
use toyix.WaitQueue.Order.{Popped}
use toyix.Sync.{
  Place, outside, queueing, asleep, retrying, releasing, waking, Resource, World, move, attempt,
  try_once, wait_round, take_waiter, is_asleep, wake,
}
use toyix.Sync.Pending.{pending, pending-update}
use toyix.Sync.Valid.{Lawful, Orderly, Valid, Blocked-Absent, move-Orderly, waking-update}
use toyix.Prelude.{
  ℕ, ◌≤◌, ◌<◌, ◌≡◌, ◌≢◌, refl, ap, true, Option, none, some, update, ok, inl, inr, Bool-cases, List,
  [], ◌∷◌, ◌++◌, arith,
}
use toyix.Sync.Waiting.{sleep-Orderly, take-Orderly}

-- The list of the waiters is found by each step.
abbrev pub Good : {S : Type 0} (r : Resource S) → Lawful r → ℕ → World S → Type 0
Good r laws n w = (threads : List ℕ) × Valid r laws n w threads

module _ {S : Type 0} (r : Resource S) (laws : Lawful r) (n : ℕ) where
  -- A thread that is not blocked moves, and the resource may change.
  move-Good :
      (w : World S) (self : ℕ) (place : Place) (s : S) (threads : List ℕ)
      → Valid r laws n w threads
      → w.at self ≢ asleep
      → ((t : ℕ) → place ≢ waking t)
      → (threads ≢ [] → laws.units s ≤ pending n (update w.at self place))
      → Good r laws n (record (move w self place) { resource = s })
  move-Good w self place s threads v awake plain enough = (
    threads,
    record {
      orderly =
          move-Orderly self place v.orderly
            (Blocked-Absent n w.at self threads v.orderly.blocked awake)
            (λ u e. awake (v.orderly.woken u self e).0) plain;
      enough = enough;
    },
  )

  pub attempt-Good :
      (w : World S) (self : ℕ) (threads : List ℕ)
      → self < n
      → Valid r laws n w threads
      → w.at self ≢ asleep
      → Good r laws n (attempt r self w).1
  unfolding attempt
  attempt-Good w self threads below v awake = elim (Bool-cases (r.available w.resource)) [
    | inl e ↦
        let count = pending-update n self w.at outside below in
        let less = laws.acquire_lem self w.resource e in
        let enough : threads ≢ []
            → laws.units (r.acquire self w.resource) ≤ pending n (update w.at self outside) =
          λ some_wait. ground (arith, v.enough some_wait, count, less) in
        rw e (
          move-Good w self outside (r.acquire self w.resource) threads v awake
            (λ t e'. ground arith) enough)
    | inr e ↦
        let gone = laws.unavailable_lem w.resource (λ e'. ground arith) in
        rw e (
          move-Good w self queueing w.resource threads v awake (λ t e'. ground arith)
            (λ some_wait. omega (arith, gone)))
  ]

  pub try_once-Good :
      (w : World S) (self : ℕ) (threads : List ℕ)
      → Valid r laws n w threads
      → Good r laws n (try_once r self w).1
  unfolding try_once
  try_once-Good w self threads v = elim (Bool-cases (r.available w.resource)) [
    | inl e ↦
        let less = laws.acquire_lem self w.resource e in
        rw e (
          threads,
          record {
            orderly = v.orderly;
            enough = λ some_wait. omega (arith, v.enough some_wait, less);
          },
        )
    | inr e ↦ rw e (threads, v)
  ]

  pub wait_round-Good :
      (w : World S) (self : ℕ) (threads : List ℕ)
      → self < n
      → Valid r laws n w threads
      → w.at self ≡ queueing
      → Good r laws n (wait_round r self w)
  unfolding wait_round
  wait_round-Good w self threads below v here = elim (Bool-cases (r.available w.resource)) [
    | inl e ↦
        let count = pending-update n self w.at retrying below in
        let awake : w.at self ≢ asleep = λ e'. ground arith in
        let enough : threads ≢ [] → laws.units w.resource ≤ pending n (update w.at self retrying) =
          λ some_wait. ground (arith, v.enough some_wait, rw here at count) in
        rw e (move-Good w self retrying w.resource threads v awake (λ t e'. ground arith) enough)
    | inr e ↦
        let gone = laws.unavailable_lem w.resource (λ e'. ground arith) in
        rw e (
          threads ++ (self ∷ []),
          record {
            orderly = sleep-Orderly self threads below here v.orderly;
            enough = λ some_wait. omega (arith, gone);
          },
        )
  ]

  pub give_back-Good :
      (w : World S) (self : ℕ) (threads : List ℕ) (s : S)
      → self < n
      → Valid r laws n w threads
      → w.at self ≡ outside
      → r.release self w.resource ≡ ok s
      → Good r laws n (record (move w self releasing) { resource = s })
  give_back-Good w self threads s below v here done =
      let count = pending-update n self w.at releasing below in
      let more = laws.release_lem self w.resource s done in
      let enough : threads ≢ [] → laws.units s ≤ pending n (update w.at self releasing) =
        λ some_wait. ground (arith, v.enough some_wait, more, rw here at count) in
      move-Good w self releasing s threads v (λ e. ground arith) (λ t e. ground arith) enough

  pub take_waiter-Good :
      (w : World S) (self : ℕ) (threads : List ℕ) (popped : Option ℕ × Queue)
      → self < n
      → Valid r laws n w threads
      → w.at self ≡ releasing
      → Popped w.waiters threads popped
      → Good r laws n (take_waiter self w popped)
  unfolding take_waiter
  take_waiter-Good w self [] (none, q) below v here e =
      let enough : [] ≢ [] → laws.units w.resource ≤ pending n (update w.at self outside) =
        λ some_wait. absurd (some_wait refl) in
      let same : q ≡ w.waiters = ap (λ p. p.1) e in
      rw same (
        move-Good w self outside w.resource [] v (λ e'. ground arith) (λ t e'. ground arith) enough)
  take_waiter-Good w self [] (some t, q) below v here e = absurd (ground arith)
  take_waiter-Good w self (t ∷ rest) (none, q) below v here (e, holds) = absurd (ground arith)
  take_waiter-Good w self (t ∷ rest) (some x, q) below v here (e, holds) =
      let same : x ≡ t = ground arith in
      let count = pending-update n self w.at (waking t) below in
      let enough : rest ≢ [] → laws.units w.resource ≤ pending n (update w.at self (waking t)) =
        λ some_wait. ground (arith, v.enough (λ e'. ground arith), rw here at count) in
      rw same (
        rest,
        record { orderly = take-Orderly self t rest q here holds v.orderly; enough = enough },
      )

  pub wake-Good :
      (w : World S) (self thread : ℕ) (threads : List ℕ)
      → self < n
      → Valid r laws n w threads
      → w.at self ≡ waking thread
      → Good r laws n (wake self thread w)
  unfolding wake
  wake-Good w self thread threads below v here =
      let (sleeps, lower, absent) = v.orderly.woken self thread here in
      let o = v.orderly in
      let awake : w.at self ≢ asleep = λ e. ground arith in
      let first = update w.at self outside in
      let differ : self ≢ thread = λ same. awake (rw same sleeps) in
      let still : first thread ≡ asleep = ground arith in
      let moved : Orderly n w.waiters first threads =
        move-Orderly self outside o (Blocked-Absent n w.at self threads o.blocked awake)
          (λ u e. awake (o.woken u self e).0) (λ t e. ground arith) in
      let unwoken : (u : ℕ) → first u ≢ waking thread = λ u e.
        let same =
          o.own u self thread (waking-update w.at self outside (λ t e'. ground arith) u thread e)
            here in
        let left : first u ≡ outside = ground arith in ground arith in
      let count = pending-update n self w.at outside below in
      let count' = pending-update n thread first queueing lower in
      let enough : threads ≢ [] → laws.units w.resource ≤ pending n (update first thread queueing) =
        λ some_wait. ground (arith, v.enough some_wait, rw here at count, rw still at count') in
      let asleep_lem : is_asleep (first thread) ≡ true = ground arith in
      rw asleep_lem (
        threads,
        record {
          orderly = move-Orderly thread queueing moved absent unwoken (λ t e. ground arith);
          enough = enough;
        },
      )
