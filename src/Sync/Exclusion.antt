-- ===== src/Sync/Exclusion.antt =====
-- Mutual exclusion: what the steps of a mutex show is what a single lock allows.
use toyix.Sync.{
  Place, outside, queueing, asleep, retrying, releasing, waking, Call, lock, try_lock, unlock,
  resume, Did, nothing, acquired, refused, released, halted, World, attempt, enter, try_once,
  give_back, start_call, step_from, step, run_steps, follow,
}
use toyix.WaitQueue.{pop}
use toyix.Sync.Mutex.{Mutex, mutex_admit, mutex}
use toyix.Sync.Untouched.{wait_round-resource, take_waiter-resource, wake-resource}
use toyix.Prelude.{
  ℕ, ◌≡◌, ◌≢◌, refl, true, false, ◌==◌, Option, none, some, Result, ok, panic, endless, inl, inr,
  Bool-cases, List, [], ◌∷◌, arith,
}

-- What a lock held by `holder` allows, and the threads that hold it next.
abbrev pub Alternating : (holder : Option ℕ) → List (ℕ × Did) → Type 0
Alternating holder [] = Unit
Alternating holder ((t, nothing) ∷ rest) = Alternating holder rest
Alternating holder ((t, acquired) ∷ rest) = (holder ≡ none) × Alternating (some t) rest
Alternating holder ((t, refused) ∷ rest) = (holder ≢ none) × Alternating holder rest
Alternating holder ((t, released) ∷ rest) = (holder ≡ some t) × Alternating none rest
Alternating holder ((t, halted lock) ∷ rest) = (holder ≡ some t) × (rest ≡ [])
Alternating holder ((t, halted unlock) ∷ rest) = (holder ≢ some t) × (rest ≡ [])
Alternating holder ((t, halted _) ∷ rest) = ⊥

-- The fields of the mutex say who holds it.
abbrev pub Held : Mutex → (holder : Option ℕ) → Type 0
Held m none = (m.locked ≡ false) × (m.owner ≡ none)
Held m (some t) = (m.locked ≡ true) × (m.owner ≡ some t)

-- What one step shows, and the holder it leaves.
abbrev pub Shown : (holder : Option ℕ) → (self : ℕ) → Call → Result (Did × World Mutex) → Type 0
Shown holder self call (ok (nothing, w)) = Held w.resource holder
Shown holder self call (ok (acquired, w)) = (holder ≡ none) × Held w.resource (some self)
Shown holder self call (ok (refused, w)) = (holder ≢ none) × Held w.resource holder
Shown holder self call (ok (released, w)) = (holder ≡ some self) × Held w.resource none
Shown holder self call (ok (halted _, w)) = ⊥
Shown holder self lock panic = holder ≡ some self
Shown holder self unlock panic = holder ≢ some self
Shown holder self _ panic = ⊥
Shown holder self call endless = ⊥

attempt-Shown :
    (holder : Option ℕ) (self : ℕ) (call : Call) (w : World Mutex)
    → Held w.resource holder
    → Shown holder self call (ok (attempt mutex self w))
unfolding attempt
attempt-Shown none self call w (l, o) = rw l (refl, (refl, refl))
attempt-Shown (some t) self call w (l, o) = rw l (refl, o)

enter-Shown :
    (holder : Option ℕ) (self : ℕ) (w : World Mutex)
    → Held w.resource holder
    → Shown holder self lock (enter mutex self w)
unfolding enter
enter-Shown none self w (l, o) =
    let admitted : mutex_admit self w.resource ≡ ok tt = rw l refl in
    rw admitted (attempt-Shown none self lock w (l, o))
enter-Shown (some t) self w (l, o) = elim (Bool-cases (t == self)) [
  | inl e ↦ rw (l, o, e) (ground arith)
  | inr e ↦
      let admitted : mutex_admit self w.resource ≡ ok tt = rw (l, o, e) refl in
      rw admitted (attempt-Shown (some t) self lock w (l, o))
]

try_once-Shown :
    (holder : Option ℕ) (self : ℕ) (w : World Mutex)
    → Held w.resource holder
    → Shown holder self try_lock (ok (try_once mutex self w))
unfolding try_once
try_once-Shown none self w (l, o) = rw l (refl, (refl, refl))
try_once-Shown (some t) self w (l, o) = rw l ((λ e. cc), (refl, o))

give_back-Shown :
    (holder : Option ℕ) (self : ℕ) (w : World Mutex)
    → Held w.resource holder
    → Shown holder self unlock (give_back mutex self w)
unfolding give_back
give_back-Shown none self w (l, o) = rw l (λ e. cc)
give_back-Shown (some t) self w (l, o) = elim (Bool-cases (t == self)) [
  | inl e ↦ rw (l, o, e) (ground arith, (refl, refl))
  | inr e ↦ rw (l, o, e) (ground arith)
]

start_call-Shown :
    (holder : Option ℕ) (self : ℕ) (call : Call) (w : World Mutex)
    → Held w.resource holder
    → Shown holder self call (start_call mutex self call w)
unfolding start_call
start_call-Shown holder self lock w held = enter-Shown holder self w held
start_call-Shown holder self try_lock w held = try_once-Shown holder self w held
start_call-Shown holder self unlock w held = give_back-Shown holder self w held
start_call-Shown holder self resume w held = held

step-Shown :
    (holder : Option ℕ) (self : ℕ) (call : Call) (w : World Mutex) (place : Place)
    → Held w.resource holder
    → Shown holder self call (step_from mutex self call w place)
unfolding step_from
step-Shown holder self call w outside held = start_call-Shown holder self call w held
step-Shown holder self call w queueing held = rw (wait_round-resource mutex self w) held
step-Shown holder self call w asleep held = held
step-Shown holder self call w retrying held = attempt-Shown holder self call w held
step-Shown holder self call w releasing held = rw (take_waiter-resource self w (pop w.waiters)) held
step-Shown holder self call w (waking thread) held = rw (wake-resource self thread w) held

follow-Alternating :
    (holder : Option ℕ) (self : ℕ) (call : Call) (w : World Mutex)
    (rest : World Mutex → List (ℕ × Did) × World Mutex) (out : Result (Did × World Mutex))
    → Shown holder self call out
    → ((next : Option ℕ) (w' : World Mutex) → Held w'.resource next → Alternating next (rest w').0)
    → Alternating holder (follow self call w rest out).0
follow-Alternating holder self call w rest (ok (nothing, w')) held go = go holder w' held
follow-Alternating holder self call w rest (ok (acquired, w')) (e, held) go =
    (e, go (some self) w' held)
follow-Alternating holder self call w rest (ok (refused, w')) (e, held) go = (e, go holder w' held)
follow-Alternating holder self call w rest (ok (released, w')) (e, held) go = (e, go none w' held)
follow-Alternating holder self call w rest (ok (halted _, w')) held go = absurd held
follow-Alternating holder self lock w rest panic e go = (e, refl)
follow-Alternating holder self unlock w rest panic e go = (e, refl)
follow-Alternating holder self try_lock w rest panic e go = absurd e
follow-Alternating holder self resume w rest panic e go = absurd e
follow-Alternating holder self call w rest endless e go = absurd e

-- For threads that use a mutex in any order of steps, from a mutex held by `holder` or by none: a
-- thread gets the mutex only while none holds it, mutex_try_lock fails only while one holds it, only the
-- holder gives it back, and the machine halts only where the holder locks it again or a thread that is
-- not the holder unlocks it.
pub run_steps-Alternating :
    (steps : List (ℕ × Call)) (holder : Option ℕ) (w : World Mutex)
    → Held w.resource holder
    → Alternating holder (run_steps mutex steps w).0
run_steps-Alternating [] holder w held = tt
run_steps-Alternating ((self, call) ∷ rest) holder w held =
    follow-Alternating holder self call w (run_steps mutex rest) (step mutex self call w)
      (step-Shown holder self call w (w.at self) held) (run_steps-Alternating rest)
