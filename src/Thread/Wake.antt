-- ===== src/Thread/Wake.antt =====
-- A thread that sleeps for a number of ticks is ready again after exactly so many timer ticks.
use toyix.Thread.{State, ready, sleeping, Scheduler, timer_tick, count_slice}
use toyix.Thread.Valid.{AllIn, Valid, other-Valid}
use toyix.Thread.Tick.{not_due, wake_due_sleepers-Valid}
use toyix.Thread.Alarm.{distance, Window, ringing, quiet, after_tick, due-ringing, tick_nearer}
use toyix.Prelude.{
  ℕ, zero, suc, ◌-◌, ◌^◌, ◌<◌, ◌≤◌, ◌≡◌, ◌≢◌, ◌⊎◌, inl, inr, refl, subst, ◌∙◌, ◌==◌, if◌then◌else◌,
  List, [], ◌∷◌, ◌++◌, length, Option, none, some, Result, ok, ◌>>=◌, Bool, true, false, not,
  Bool-cases, arith,
}

-- A running scheduler whose sleepers' ticks lie within 2^31 of the present one, and enough rounds for
-- the loops over the sleepers.
pub record Ticking (rounds : ℕ) (s : Scheduler) (readies sleepers zombies : List ℕ) : Type 0 where
  pub valid : Valid s readies sleepers zombies
  pub window : Window s.ticks s.wake_tick 1 sleepers
  pub started : s.initialized ≡ true
  pub small : s.ticks < 2 ^ 32
  pub few : length sleepers < rounds

if-Valid :
    (test : Bool) {s t : Scheduler} {readies sleepers zombies : List ℕ}
    → Valid s readies sleepers zombies
    → Valid t readies sleepers zombies
    → Valid (if test then s else t) readies sleepers zombies
if-Valid true v w = v
if-Valid false v w = w

count_slice-Valid :
    {s : Scheduler} {readies sleepers zombies : List ℕ} (head : Option ℕ)
    → Valid s readies sleepers zombies
    → Valid (count_slice s head) readies sleepers zombies
unfolding count_slice
count_slice-Valid {s} none v =
    if-Valid (not s.preemption) v
      (other-Valid v s.esp s.wake_tick s.ticks 0 s.zombie_created s.reschedule)
count_slice-Valid {s} (some first) v =
    if-Valid (not s.preemption) v (other-Valid v s.esp s.wake_tick s.ticks _ s.zombie_created _)

-- The slice is all that changes.
count_slice_same :
    (s : Scheduler) (head : Option ℕ)
    → ((count_slice s head).ticks ≡ s.ticks)
      × ((count_slice s head).wake_tick ≡ s.wake_tick)
      × ((count_slice s head).initialized ≡ s.initialized)
      × ((count_slice s head).state ≡ s.state)
unfolding count_slice
count_slice_same s none = ground arith
count_slice_same s (some first) = ground arith

length-quiet : (now : ℕ) (wake : ℕ → ℕ) (ids : List ℕ) → length (quiet now wake ids) ≤ length ids
length-quiet now wake [] = omega arith
length-quiet now wake (t ∷ rest) = ground (arith, length-quiet now wake rest)

-- A timer tick moves the sleepers whose tick it is behind the ready threads, and no other.
pub timer_tick-Ticking :
    {rounds : ℕ} {s : Scheduler} {readies sleepers zombies : List ℕ}
    → Ticking rounds s readies sleepers zombies
    → let now : ℕ = after_tick s.ticks in
      (s' : Scheduler) × (timer_tick rounds s ≡ ok s')
      × (s'.ticks ≡ now)
      × (s'.wake_tick ≡ s.wake_tick)
      × Ticking rounds s'
          (readies ++ ringing now s.wake_tick sleepers)
          (quiet now s.wake_tick sleepers)
          zombies
unfolding timer_tick
timer_tick-Ticking {rounds} {s} {readies} {sleepers} {zombies} k =
    let now : ℕ = after_tick s.ticks in
    let advanced = record s { ticks = now } in
    let v = other-Valid k.valid s.esp s.wake_tick now s.slice_ticks s.zombie_created s.reschedule in
    let (s1, woken, v1, kept) =
      wake_due_sleepers-Valid rounds advanced readies sleepers zombies k.few v in
    let (a, b, window) =
      due-ringing s.ticks s.wake_tick 1 sleepers k.small (omega arith) k.window in
    let (t1, w1, i1, _) = count_slice_same s1 s1.ready_queue.head in
    let v2 = subst (λ l. Valid s1 (readies ++ l) (not_due now s.wake_tick sleepers) zombies) a v1 in
    let v3 = subst (λ l. Valid s1 (readies ++ ringing now s.wake_tick sleepers) l zombies) b v2 in
    let ticks : (count_slice s1 s1.ready_queue.head).ticks ≡ now = t1 ∙ kept.ticks in
    let wake : (count_slice s1 s1.ready_queue.head).wake_tick ≡ s.wake_tick = w1 ∙ kept.wake_tick in
    (
      count_slice s1 s1.ready_queue.head,
      ground (arith, k.started, woken),
      ticks,
      wake,
      record {
        valid = count_slice-Valid s1.ready_queue.head v3;
        window = rw (ticks, wake) window;
        started = i1 ∙ kept.initialized ∙ k.started;
        small = rw ticks (omega arith);
        few = omega (arith, k.few, length-quiet now s.wake_tick sleepers);
      },
    )

abbrev pub Listed : ℕ → List ℕ → Type 0
Listed x [] = ⊥
Listed x (t ∷ rest) = (t ≡ x) ⊎ Listed x rest

module _ (state : ℕ → State) (magic : ℕ → ℕ) (idle : ℕ) (st : State) where
  AllIn-Listed :
      (x : ℕ) (ids : List ℕ) → AllIn state magic idle st ids → Listed x ids → state x ≡ st
  AllIn-Listed x [] all listed = absurd listed
  AllIn-Listed x (t ∷ rest) ((here, _, _), all) (inl e) = rw (← e) here
  AllIn-Listed x (t ∷ rest) (_, all) (inr later) = AllIn-Listed x rest all later

Listed-append : (x : ℕ) (a b : List ℕ) → Listed x b → Listed x (a ++ b)
Listed-append x [] b listed = listed
Listed-append x (t ∷ a) b listed = inr (Listed-append x a b listed)

Listed-ringing :
    (now : ℕ) (wake : ℕ → ℕ) (x : ℕ) (ids : List ℕ)
    → Listed x ids
    → wake x ≡ now
    → Listed x (ringing now wake ids)
Listed-ringing now wake x [] listed e = listed
Listed-ringing now wake x (t ∷ rest) (inl same) e =
    let here : (wake t == now) ≡ true = rw same (ground arith) in rw here (inl same)
Listed-ringing now wake x (t ∷ rest) (inr later) e = elim (Bool-cases (wake t == now)) [
  | inl here ↦ rw here (inr (Listed-ringing now wake x rest later e))
  | inr other ↦ rw other (Listed-ringing now wake x rest later e)
]

Listed-quiet :
    (now : ℕ) (wake : ℕ → ℕ) (x : ℕ) (ids : List ℕ)
    → Listed x ids
    → wake x ≢ now
    → Listed x (quiet now wake ids)
Listed-quiet now wake x [] listed ne = listed
Listed-quiet now wake x (t ∷ rest) (inl same) ne =
    let here : (wake t == now) ≡ false = rw same (ground arith) in rw here (inl same)
Listed-quiet now wake x (t ∷ rest) (inr later) ne = elim (Bool-cases (wake t == now)) [
  | inl here ↦ rw here (Listed-quiet now wake x rest later ne)
  | inr other ↦ rw other (inr (Listed-quiet now wake x rest later ne))
]

Window-Listed :
    (now : ℕ) (wake : ℕ → ℕ) (x low : ℕ) (ids : List ℕ)
    → Window now wake low ids
    → Listed x ids
    → (wake x < 2 ^ 32) × (low ≤ distance now (wake x)) × (distance now (wake x) < 2 ^ 31)
Window-Listed now wake x low [] window listed = absurd listed
Window-Listed now wake x low (t ∷ rest) (h, lo, hi, window) (inl e) = rw (← e) (h, lo, hi)
Window-Listed now wake x low (t ∷ rest) (h, lo, hi, window) (inr later) =
    let (a, b, c) = Window-Listed now wake x (distance now (wake t)) rest window later in
    (a, omega arith, c)

-- `n` timer ticks.
pub run_ticks : (rounds n : ℕ) → Scheduler → Result Scheduler
run_ticks rounds zero s = ok s
run_ticks rounds (suc n) s = timer_tick rounds s >>= run_ticks rounds n

-- A sleeper whose tick is `n` ticks away is asleep after fewer than `n` timer ticks, and ready after
-- `n` of them, whatever else happens in the queues at these ticks.
pub run_ticks-state :
    (n k : ℕ) {rounds : ℕ} {s : Scheduler} {readies sleepers zombies : List ℕ} (x : ℕ)
    → Ticking rounds s readies sleepers zombies
    → Listed x sleepers
    → distance s.ticks (s.wake_tick x) ≡ n
    → k ≤ n
    → (s' : Scheduler) × (run_ticks rounds k s ≡ ok s')
      × (s'.state x ≡ (if k == n then ready else sleeping))
unfolding run_ticks
run_ticks-state n zero {rounds} {s} {readies} {sleepers} {zombies} x t listed e le =
    let (_, near, _) = Window-Listed s.ticks s.wake_tick x 1 sleepers t.window listed in
    let more : (0 == n) ≡ false = ground arith in
    (
      s,
      refl,
      rw more (AllIn-Listed s.state s.magic s.idle sleeping x sleepers t.valid.sleep_in listed),
    )
run_ticks-state n (suc k) {rounds} {s} {readies} {sleepers} {zombies} x t listed e le =
    let (s1, p, now, wake, t1) = timer_tick-Ticking t in
    let (hw, lo, hi) = Window-Listed s.ticks s.wake_tick x 1 sleepers t.window listed in
    let (nearer, _, far) = tick_nearer s.ticks (s.wake_tick x) t.small hw lo hi in
    elim far [
      | inl here ↦
          let last : k ≡ 0 = ground arith in
          let one : n ≡ 1 = ground arith in
          let listed1 =
            Listed-append x readies (ringing (after_tick s.ticks) s.wake_tick sleepers)
              (Listed-ringing (after_tick s.ticks) s.wake_tick x sleepers listed here) in
          let st = AllIn-Listed s1.state s1.magic s1.idle ready x _ t1.valid.ready_in listed1 in
          (s1, rw (last, p) refl, rw (last, one) st)
      | inr two ↦
          let other : s.wake_tick x ≢ after_tick s.ticks = ground arith in
          let listed1 = Listed-quiet (after_tick s.ticks) s.wake_tick x sleepers listed other in
          let away : distance s1.ticks (s1.wake_tick x) ≡ n - 1 = rw (now, wake) (omega arith) in
          let (s2, q, st) = run_ticks-state (n - 1) k x t1 listed1 away (omega arith) in
          let same : (suc k == n) ≡ (k == n - 1) = ground arith in (s2, rw p q, rw same st)
    ]
