-- ===== src/Thread/Events.antt =====
-- All that happens to the scheduler, as events, and the invariant kept by each of them.
use toyix.Thread.{
  new, ready, running, zombie, is_running, is_blocked, Scheduler, thread_magic, Resume, schedule,
  timer_tick, thread_start, thread_block_current, thread_wake, thread_sleep_ticks, thread_exit,
  reap_zombies, enqueue_ready,
}
use toyix.Thread.Valid.{Valid, other-Valid, Kept}
use toyix.Thread.Schedule.{Decided, requeued, framed, schedule-Decided}
use toyix.Thread.Life.{start-Valid, block-Valid, wake-Valid, exit-Valid, reap_zombies-Valid}
use toyix.Thread.Wake.{Ticking, timer_tick-Ticking}
use toyix.Thread.Nap.{thread_sleep_ticks-Ticking}
use toyix.Prelude.{
  ℕ, ◌+◌, ◌<◌, ◌^◌, ◌≡◌, ◌≢◌, inl, inr, refl, ◌∙◌, ◌==◌, if◌then◌else◌, List, [], ◌∷◌, ◌++◌, length,
  some, update, Result, ok, ◌>>=◌, Bool-cases,
}

pub data Event : Type 0 where
  tick : Event
  interrupt : (frame : ℕ) → Event
  start : (thread : ℕ) → Event
  block : Event
  wake : (thread : ℕ) → Event
  sleep : (ticks : ℕ) → Event
  exit : Event
  reap : Event

pub perform : (rounds : ℕ) → Event → Scheduler → Result Scheduler
perform rounds tick s = timer_tick rounds s
perform rounds (interrupt frame) s = schedule frame s >>= (λ out. ok out.1)
perform rounds (start thread) s = thread_start thread s
perform rounds block s = thread_block_current s
perform rounds (wake thread) s = thread_wake (some thread) s
perform rounds (sleep ticks) s = thread_sleep_ticks rounds ticks s
perform rounds exit s = thread_exit s
perform rounds reap s = reap_zombies rounds s >>= (λ out. ok out.1)

-- When the kernel may make the event happen.
abbrev pub Allowed : Event → Scheduler → Type 0
Allowed tick s = Unit
Allowed (interrupt frame) s = Unit
Allowed (start thread) s =
    (s.magic thread ≡ thread_magic) × (s.state thread ≡ new) × (thread ≢ s.idle)
Allowed block s = (s.state s.current ≡ running) × (s.current ≢ s.idle)
Allowed (wake thread) s = s.magic thread ≡ thread_magic
Allowed (sleep ticks) s = (s.state s.current ≡ running) × (s.current ≢ s.idle) × (0 < ticks)
Allowed exit s = (s.state s.current ≡ running) × (s.current ≢ s.idle) × (s.current ≢ s.bootstrap)
Allowed reap s = s.state s.current ≢ zombie

-- A thread does not ask to sleep for 2^31 ticks or more. The code does not check this.
abbrev pub InWindow : Event → Type 0
InWindow (sleep ticks) = ticks < 2 ^ 31
InWindow tick = Unit
InWindow (interrupt frame) = Unit
InWindow (start thread) = Unit
InWindow block = Unit
InWindow (wake thread) = Unit
InWindow exit = Unit
InWindow reap = Unit

-- Some queues make the state that of a running scheduler.
pub record Sound (rounds : ℕ) (s : Scheduler) : Type 0 where
  pub readies : List ℕ
  pub sleepers : List ℕ
  pub zombies : List ℕ
  pub holds : Ticking rounds s readies sleepers zombies

-- A state after an operation that left the sleepers and the time alone.
Kept-Sound :
    {rounds : ℕ} {s : Scheduler} (s' : Scheduler) {readies sleepers zombies : List ℕ}
    (readies' zombies' : List ℕ)
    → Ticking rounds s readies sleepers zombies
    → Kept s s'
    → Valid s' readies' sleepers zombies'
    → Sound rounds s'
Kept-Sound {rounds} {s} s' {readies} {sleepers} readies' zombies' t k v = record {
  readies = readies';
  sleepers = sleepers;
  zombies = zombies';
  holds = record {
    valid = v;
    window = rw (k.ticks, k.wake_tick) t.window;
    started = k.initialized ∙ t.started;
    small = rw k.ticks t.small;
    few = t.few;
  };
}

Decided-Sound :
    {rounds : ℕ} (s : Scheduler) (readies sleepers zombies : List ℕ) (out : Resume × Scheduler)
    → Ticking rounds s readies sleepers zombies
    → Decided s readies sleepers zombies out
    → Sound rounds out.1
Decided-Sound s [] sleepers zombies out t d = elim (Bool-cases (s.current == s.idle)) [
  | inl e ↦ let (_, _, k, v) = rw e at d in Kept-Sound out.1 [] zombies t k v
  | inr e ↦ elim (Bool-cases (is_running (s.state s.current))) [
    | inl r ↦ let (_, _, k, v) = rw (e, r) at d in Kept-Sound out.1 [] zombies t k v
    | inr r ↦ let (_, _, _, k, v) = rw (e, r) at d in Kept-Sound out.1 [] zombies t k v
  ]
]
Decided-Sound s (x ∷ readies) sleepers zombies out t (_, _, _, k, v) =
    Kept-Sound out.1 (requeued s readies) zombies t k v

enqueue_ready-Kept : (thread : ℕ) (s : Scheduler) → Kept s (enqueue_ready thread s)
unfolding enqueue_ready
enqueue_ready-Kept thread s = record { ticks = refl; wake_tick = refl; initialized = refl }

woken-Sound :
    {rounds : ℕ} {s : Scheduler} (thread : ℕ) {readies sleepers zombies : List ℕ}
    → Ticking rounds s readies sleepers zombies
    → (s' : Scheduler)
    → (if is_blocked (s.state thread)
        then (s'.state thread ≡ ready)
          × Kept s s'
          × Valid s' (readies ++ (thread ∷ [])) sleepers zombies
        else (s' ≡ s))
    → Sound rounds s'
woken-Sound {s} thread {readies} {sleepers} {zombies} t s' q =
    elim (Bool-cases (is_blocked (s.state thread))) [
      | inl e ↦ let (_, k, v) = rw e at q in Kept-Sound s' (readies ++ (thread ∷ [])) zombies t k v
      | inr e ↦
          let same : s' ≡ s = rw e at q in
          rw same (record { readies = readies; sleepers = sleepers; zombies = zombies; holds = t })
    ]

-- In a running scheduler every event that may happen does happen without a panic, within the rounds
-- given, and leaves a running scheduler: each of the three queues is a doubly linked list of different
-- threads in its state, and the sleepers stand in the order of their ticks. A call to sleep has to be for
-- fewer than 2^31 ticks, which the code does not check, and for more than 0, which it does.
pub perform-Sound :
    {rounds : ℕ} {s : Scheduler} (e : Event) {readies sleepers zombies : List ℕ}
    → Ticking rounds s readies sleepers zombies
    → length sleepers + 1 < rounds
    → length zombies < rounds
    → Allowed e s
    → InWindow e
    → (s' : Scheduler) × (perform rounds e s ≡ ok s') × Sound rounds s'
unfolding perform
perform-Sound tick t room space allowed near =
    let (s', p, _, _, t') = timer_tick-Ticking t in
    (s', p, record { readies = _; sleepers = _; zombies = _; holds = t' })
perform-Sound {s} (interrupt frame) {readies} {sleepers} {zombies} t room space allowed near =
    let (out, p, d, _) = schedule-Decided frame readies t.started t.valid in
    let framed_t : Ticking _ (framed frame s) readies sleepers zombies = record {
      valid =
          other-Valid t.valid (update s.esp s.current frame) s.wake_tick s.ticks s.slice_ticks
            s.zombie_created s.reschedule;
      window = t.window;
      started = t.started;
      small = t.small;
      few = t.few;
    } in
    (out.1, rw p refl, Decided-Sound (framed frame s) readies sleepers zombies out framed_t d)
perform-Sound {s} (start thread) {readies} {sleepers} {zombies} t room space (m, e, ne) near =
    let (p, v) = start-Valid t.valid thread m e ne in
    (
      enqueue_ready thread s,
      p,
      Kept-Sound (enqueue_ready thread s) (readies ++ (thread ∷ [])) zombies t
          (enqueue_ready-Kept thread s) v,
    )
perform-Sound {s} block {readies} {sleepers} {zombies} t room space (e, ne) near =
    let (p, v) = block-Valid t.valid e ne in
    (
      _,
      p,
      Kept-Sound _ readies zombies t (record { ticks = refl; wake_tick = refl; initialized = refl })
          v,
    )
perform-Sound {s} (wake thread) {readies} {sleepers} {zombies} t room space m near =
    let (s', p, q) = wake-Valid t.valid thread m in (s', p, woken-Sound thread t s' q)
perform-Sound (sleep ticks) t room space (e, ne, low) high =
    let (s', out, p, t', _, _) = thread_sleep_ticks-Ticking t room e ne low high in
    (s', p, record { readies = _; sleepers = out; zombies = _; holds = t' })
perform-Sound {s} exit {readies} {sleepers} {zombies} t room space (e, ni, nb) near =
    let (s', p, _, k, v) = exit-Valid t.valid e ni nb in
    (s', p, Kept-Sound s' readies (zombies ++ (s.current ∷ [])) t k v)
perform-Sound {rounds} {s} reap {readies} {sleepers} {zombies} t room space alive near =
    let (s', p, k, v) = reap_zombies-Valid rounds s readies sleepers zombies space t.valid alive in
    (s', rw p refl, Kept-Sound s' readies [] t k v)
