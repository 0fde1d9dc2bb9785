-- ===== src/Sync/Waiting.antt =====
-- The queue of waiters, when a thread goes to sleep in it and when the first is taken from it.
use native.Mathlib.Decide.{ℕ_discrete}
use toyix.WaitQueue.{Queue, push}
use toyix.WaitQueue.Order.{Absent, Absent-append, Holds, push-Holds}
use toyix.Sync.{Place, queueing, asleep, releasing, waking}
use toyix.Sync.Valid.{
  Orderly, Blocked-Absent, Blocked-update, Blocked-append, move-Orderly, waking-update,
}
use toyix.Prelude.{ℕ, ◌<◌, ◌≡◌, ◌≢◌, sym, ◌⊎◌, ◌∙◌, update, inl, inr, List, [], ◌∷◌, ◌++◌, arith}

module _ {n : ℕ} {waiters : Queue} {at : ℕ → Place} where
  -- A thread that is about to wait blocks behind the others.
  pub sleep-Orderly :
      (self : ℕ) (threads : List ℕ)
      → self < n
      → at self ≡ queueing
      → Orderly n waiters at threads
      → Orderly n (push waiters self) (update at self asleep) (threads ++ (self ∷ []))
  sleep-Orderly self threads below here o =
      let awake : at self ≢ asleep = λ e. ground arith in
      let absent : Absent self threads = Blocked-Absent n at self threads o.blocked awake in
      let plain : (t : ℕ) → asleep ≢ waking t = λ t e. ground arith in
      let moved : Orderly n waiters (update at self asleep) threads =
        move-Orderly self asleep o absent (λ u e. awake (o.woken u self e).0) plain in
      record {
        chain = push-Holds waiters self threads absent o.chain;
        blocked =
            Blocked-append n (update at self asleep) self threads moved.blocked (ground arith)
              below;
        woken = λ u t e.
            let (sleeps, lower, gone) = moved.woken u t e in
            let (still, _, _) = o.woken u t (waking-update at self asleep plain u t e) in
            let differ : self ≢ t = λ same. awake (rw same still) in
            (sleeps, lower, Absent-append t self threads gone differ);
        own = moved.own;
      }

  -- The thread that has taken the first waiter is the one to wake it.
  pub take-Orderly :
      (self t : ℕ) (rest : List ℕ) (q : Queue)
      → at self ≡ releasing
      → Holds q rest
      → Orderly n waiters at (t ∷ rest)
      → Orderly n q (update at self (waking t)) rest
  take-Orderly self t rest q here holds o =
      let awake : at self ≢ asleep = λ e. ground arith in
      let ((sleeps, lower), blocked) = o.blocked in
      let (_, _, alone, _) = o.chain in
      let (_, absent) = Blocked-Absent n at self (t ∷ rest) o.blocked awake in
      let differ : self ≢ t = λ same. awake (rw same sleeps) in
      let still : (x : ℕ) → at x ≡ asleep → update at self (waking t) x ≡ asleep = λ x e.
        elim (ℕ_discrete self x) [ yes same ↦ absurd (awake (rw same e)) | no ne ↦ ground arith ] in
      let cases : (u x : ℕ)
          → update at self (waking t) u ≡ waking x
          → ((self ≡ u) × (t ≡ x)) ⊎ ((self ≢ u) × (at u ≡ waking x)) =
        λ u x e. elim (ℕ_discrete self u) [
          | yes same ↦ inl (same, ground arith)
          | no ne ↦ inr (ne, ground arith)
        ] in
      record {
        chain = holds;
        blocked = Blocked-update n at self (waking t) rest absent blocked;
        woken = λ u x e. elim (cases u x e) [
          | inl (_, same) ↦ rw (← same) (still t sleeps, lower, alone)
          | inr (_, old) ↦
              let (sound, low, (_, gone)) = o.woken u x old in (still x sound, low, gone)
        ];
        own = λ u v x e e'. elim (cases u x e) [
          | inl (a, b) ↦ elim (cases v x e') [
            | inl (c, d) ↦ sym a ∙ c
            | inr (_, old) ↦ absurd ((o.woken v x old).2.0 b)
          ]
          | inr (_, one) ↦ elim (cases v x e') [
            | inl (_, d) ↦ absurd ((o.woken u x one).2.0 d)
            | inr (_, other) ↦ o.own u v x one other
          ]
        ];
      }
