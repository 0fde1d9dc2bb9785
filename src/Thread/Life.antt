-- ===== src/Thread/Life.antt =====
-- The life of a thread: started, blocked, woken, asleep, ended and reaped. Every operation keeps the
-- queues valid.
use toyix.WaitQueue.Order.{Absent, push-Holds, pop-Popped}
use toyix.WaitQueue.Frame.{Chain-Same, push-Same, pop-Same}
use toyix.Thread.{
  State, new, ready, running, blocked, sleeping, zombie, is_blocked, Scheduler, queue, thread_magic,
  ends_of, enqueue_ready, enqueue_zombie, zombie_push, zombie_pop, thread_start,
  thread_block_current, thread_wake, thread_exit, reap_first, reap_zombies,
}
use toyix.Thread.Valid.{
  AllIn, Valid, AllIn-Absent, AllIn-Apart, AllIn-update, AllIn-append, Outside, active-Outside,
  other-Valid, Kept, Kept-refl, Kept-trans,
}
use toyix.Thread.Ready.{enqueue_ready-Valid, ready_push_lem}
use toyix.Prelude.{
  ℕ, zero, suc, ◌+◌, ◌%◌, ◌^◌, ◌<◌, ◌≡◌, ◌≢◌, inl, inr, refl, ap, ◌∙◌, ◌==◌, if◌then◌else◌, List,
  [], ◌∷◌, ◌++◌, length, Option, none, some, update, Result, ok, ◌>>=◌, true, Bool-cases, arith,
}

module _ {s : Scheduler} {readies sleepers zombies : List ℕ}
    (v : Valid s readies sleepers zombies) where
  -- The state of a thread outside the queues, other than the idle thread, may change.
  state-Valid :
      (t : ℕ) (st : State)
      → t ≢ s.idle
      → Outside t readies sleepers zombies
      → Valid (record s { state = update s.state t st }) readies sleepers zombies
  state-Valid t st ne (a, b, c) = record {
    ready_chain = v.ready_chain;
    sleep_chain = v.sleep_chain;
    zombie_chain = v.zombie_chain;
    ready_in = AllIn-update s.state s.magic s.idle ready st t readies a v.ready_in;
    sleep_in = AllIn-update s.state s.magic s.idle sleeping st t sleepers b v.sleep_in;
    zombie_in = AllIn-update s.state s.magic s.idle zombie st t zombies c v.zombie_in;
    current_magic = v.current_magic;
    idle_magic = v.idle_magic;
    idle_state = ground (arith, v.idle_state);
  }

  running-Outside : (t : ℕ) → s.state t ≡ running → Outside t readies sleepers zombies
  running-Outside t e = active-Outside v t (rw e (λ e. cc)) (rw e (λ e. cc)) (rw e (λ e. cc))

  blocked-Outside : (t : ℕ) → s.state t ≡ blocked → Outside t readies sleepers zombies
  blocked-Outside t e = active-Outside v t (rw e (λ e. cc)) (rw e (λ e. cc)) (rw e (λ e. cc))

  new-Outside : (t : ℕ) → s.state t ≡ new → Outside t readies sleepers zombies
  new-Outside t e = active-Outside v t (rw e (λ e. cc)) (rw e (λ e. cc)) (rw e (λ e. cc))

  pub start-Valid :
      (t : ℕ)
      → s.magic t ≡ thread_magic
      → s.state t ≡ new
      → t ≢ s.idle
      → (thread_start t s ≡ ok (enqueue_ready t s))
        × Valid (enqueue_ready t s) (readies ++ (t ∷ [])) sleepers zombies
  unfolding thread_start
  start-Valid t m e ne =
      (ground (arith, ready_push_lem v t m ne), enqueue_ready-Valid v t m ne (new-Outside t e))

  -- Blocking, and the wake-up that undoes it: in between the thread stands in none of the queues.
  pub block-Valid :
      s.state s.current ≡ running
      → s.current ≢ s.idle
      → let s' = record s { state = update s.state s.current blocked; reschedule = true } in
        (thread_block_current s ≡ ok s') × Valid s' readies sleepers zombies
  unfolding thread_block_current
  block-Valid e ne =
      let v1 = state-Valid s.current blocked ne (running-Outside s.current e) in
      (
        ground (arith, v.current_magic),
        other-Valid v1 s.esp s.wake_tick s.ticks s.slice_ticks s.zombie_created true,
      )

  -- Only a blocked thread is made ready by a wake-up.
  pub wake-Valid :
      (t : ℕ)
      → s.magic t ≡ thread_magic
      → (s' : Scheduler) × (thread_wake (some t) s ≡ ok s')
        × (if is_blocked (s.state t)
            then (s'.state t ≡ ready) × Kept s s' × Valid s' (readies ++ (t ∷ [])) sleepers zombies
            else (s' ≡ s))
  unfolding thread_wake enqueue_ready
  wake-Valid t m = elim (Bool-cases (is_blocked (s.state t))) [
    | inl e ↦
        let stopped : s.state t ≡ blocked = ground arith in
        let ne : t ≢ s.idle = ground (arith, v.idle_state) in
        let v1 = enqueue_ready-Valid v t m ne (blocked-Outside t stopped) in
        (
          record (enqueue_ready t s) { reschedule = true },
          ground (arith, ready_push_lem v t m ne),
          rw e (
            ground arith,
            record { ticks = refl; wake_tick = refl; initialized = refl },
            other-Valid v1 s.esp s.wake_tick s.ticks s.slice_ticks s.zombie_created true,
          ),
        )
    | inr e ↦ (s, ground arith, rw e refl)
  ]

  enqueue_zombie-Valid :
      (t : ℕ)
      → s.magic t ≡ thread_magic
      → t ≢ s.idle
      → s.state t ≡ zombie
      → Outside t readies sleepers zombies
      → Valid (enqueue_zombie t s) readies sleepers (zombies ++ (t ∷ []))
  unfolding enqueue_zombie
  enqueue_zombie-Valid t m ne e (a, b, c) = record {
    ready_chain =
        Chain-Same s.links _ none readies s.ready_queue.head s.ready_queue.tail
          (push-Same (queue s s.zombie_queue) t zombies readies v.zombie_chain c a (
            AllIn-Apart s.state s.magic s.idle ready zombie readies zombies v.ready_in v.zombie_in
              (λ e. cc)))
          v.ready_chain;
    sleep_chain =
        Chain-Same s.links _ none sleepers s.sleep_queue.head s.sleep_queue.tail
          (push-Same (queue s s.zombie_queue) t zombies sleepers v.zombie_chain c b (
            AllIn-Apart s.state s.magic s.idle sleeping zombie sleepers zombies v.sleep_in
              v.zombie_in (λ e. cc)))
          v.sleep_chain;
    zombie_chain = push-Holds (queue s s.zombie_queue) t zombies c v.zombie_chain;
    ready_in = v.ready_in;
    sleep_in = v.sleep_in;
    zombie_in = AllIn-append s.state s.magic s.idle zombie t zombies v.zombie_in e m ne;
    current_magic = v.current_magic;
    idle_magic = v.idle_magic;
    idle_state = v.idle_state;
  }

-- thread_exit puts the running thread behind the zombies.
pub exit-Valid :
    {s : Scheduler} {readies sleepers zombies : List ℕ}
    → Valid s readies sleepers zombies
    → s.state s.current ≡ running
    → s.current ≢ s.idle
    → s.current ≢ s.bootstrap
    → (s' : Scheduler) × (thread_exit s ≡ ok s')
      × (s'.state s.current ≡ zombie)
      × Kept s s'
      × Valid s' readies sleepers (zombies ++ (s.current ∷ []))
unfolding thread_exit zombie_push enqueue_zombie
exit-Valid {s} {readies} {sleepers} {zombies} v e ne nb =
    let t : ℕ = s.current in
    let outside = running-Outside v t e in
    let ended = record s { state = update s.state t zombie } in
    let own : ended.state t ≡ zombie = ground arith in
    let v1 =
      enqueue_zombie-Valid (state-Valid v t zombie ne outside) t v.current_magic ne own outside in
    (
      record (enqueue_zombie t ended) {
        zombie_created = (s.zombie_created + 1) % 2 ^ 32;
        reschedule = true;
      },
      ground (arith, v.current_magic),
      own,
      record { ticks = refl; wake_tick = refl; initialized = refl },
      other-Valid v1 s.esp s.wake_tick s.ticks s.slice_ticks ((s.zombie_created + 1) % 2 ^ 32) true,
    )

-- zombie_pop takes the first zombie.
zombie_pop-Valid :
    {s : Scheduler} (t : ℕ) {readies sleepers zombies : List ℕ}
    → Valid s readies sleepers (t ∷ zombies)
    → ((zombie_pop s).0 ≡ some t) × Valid (zombie_pop s).1 readies sleepers zombies
unfolding zombie_pop
zombie_pop-Valid {s} t {readies} {sleepers} {zombies} v =
    let (first, rest) = pop-Popped (queue s s.zombie_queue) (t ∷ zombies) v.zombie_chain in
    (
      first,
      record {
        ready_chain =
            Chain-Same s.links _ none readies s.ready_queue.head s.ready_queue.tail
              (pop-Same (queue s s.zombie_queue) (t ∷ zombies) readies v.zombie_chain (
                AllIn-Apart s.state s.magic s.idle ready zombie readies (t ∷ zombies) v.ready_in
                  v.zombie_in (λ e. cc)))
              v.ready_chain;
        sleep_chain =
            Chain-Same s.links _ none sleepers s.sleep_queue.head s.sleep_queue.tail
              (pop-Same (queue s s.zombie_queue) (t ∷ zombies) sleepers v.zombie_chain (
                AllIn-Apart s.state s.magic s.idle sleeping zombie sleepers (t ∷ zombies) v.sleep_in
                  v.zombie_in (λ e. cc)))
              v.sleep_chain;
        zombie_chain = rest;
        ready_in = v.ready_in;
        sleep_in = v.sleep_in;
        zombie_in = v.zombie_in.1;
        current_magic = v.current_magic;
        idle_magic = v.idle_magic;
        idle_state = v.idle_state;
      },
    )

AllIn-magic :
    (state : ℕ → State) (magic : ℕ → ℕ) (idle : ℕ) (st : State) (x m : ℕ) (ids : List ℕ)
    → Absent x ids
    → AllIn state magic idle st ids
    → AllIn state (update magic x m) idle st ids
AllIn-magic state magic idle st x m [] absent all = tt
AllIn-magic state magic idle st x m (t ∷ rest) (differ, absent) ((e, here, ne), all) =
    ((e, ground arith, ne), AllIn-magic state magic idle st x m rest absent all)

-- A reaped thread is none any more; the current one is not reaped.
reaped-Valid :
    {s : Scheduler} {readies sleepers zombies : List ℕ} (t count : ℕ)
    → Valid s readies sleepers zombies
    → Outside t readies sleepers zombies
    → t ≢ s.current
    → t ≢ s.idle
    → Valid
        (record s { magic = update s.magic t 0; zombie_reaped = count })
        readies
        sleepers
        zombies
reaped-Valid {s} {readies} {sleepers} {zombies} t count v (a, b, c) nc ni = record {
  ready_chain = v.ready_chain;
  sleep_chain = v.sleep_chain;
  zombie_chain = v.zombie_chain;
  ready_in = AllIn-magic s.state s.magic s.idle ready t 0 readies a v.ready_in;
  sleep_in = AllIn-magic s.state s.magic s.idle sleeping t 0 sleepers b v.sleep_in;
  zombie_in = AllIn-magic s.state s.magic s.idle zombie t 0 zombies c v.zombie_in;
  current_magic = ground (arith, v.current_magic);
  idle_magic = ground (arith, v.idle_magic);
  idle_state = v.idle_state;
}

zombie_pop-empty :
    {s : Scheduler} {readies sleepers : List ℕ}
    → Valid s readies sleepers []
    → zombie_pop s ≡ (none, s)
unfolding zombie_pop
zombie_pop-empty {s} v =
    ap (λ out. (out.0, record s { links = out.1.links; zombie_queue = ends_of out.1 }))
      (pop-Popped (queue s s.zombie_queue) [] v.zombie_chain)

reap_first_lem :
    (rest : Scheduler → Result (List ℕ × Scheduler)) (t : ℕ) (out : Option ℕ × Scheduler)
    → out.0 ≡ some t
    → out.1.magic t ≡ thread_magic
    → reap_first rest out ≡ (
        rest (record out.1 {
          magic = update out.1.magic t 0;
          zombie_reaped = (out.1.zombie_reaped + 1) % 2 ^ 32;
        })
        >>= (λ reaped. ok (t ∷ reaped.0, reaped.1)))
unfolding reap_first
reap_first_lem rest t (none, popped) e m = absurd (ground arith)
reap_first_lem rest t (some u, popped) e m =
    let same : u ≡ t = ground arith in rw same (rw (ap (λ k. k == thread_magic) m) refl)

-- While the current thread is not a zombie, thread_reap_zombies with enough rounds takes every zombie,
-- the oldest first, and leaves the other queues alone.
pub reap_zombies-Valid :
    (rounds : ℕ) (s : Scheduler) (readies sleepers zombies : List ℕ)
    → length zombies < rounds
    → Valid s readies sleepers zombies
    → s.state s.current ≢ zombie
    → (s' : Scheduler) × (reap_zombies rounds s ≡ ok (zombies, s'))
      × Kept s s'
      × Valid s' readies sleepers []
unfolding reap_zombies zombie_pop reap_first
reap_zombies-Valid zero s readies sleepers zombies lt v alive = absurd (omega arith)
reap_zombies-Valid (suc rounds) s readies sleepers [] lt v alive =
    (s, ap (reap_first (reap_zombies rounds)) (zombie_pop-empty v), Kept-refl s, v)
reap_zombies-Valid (suc rounds) s readies sleepers (t ∷ zombies) lt v alive =
    let (first, v1) = zombie_pop-Valid t v in
    let ended : s.state t ≡ zombie = v.zombie_in.0.0 in
    let outside : Outside t readies sleepers zombies = (
      AllIn-Absent s.state s.magic s.idle ready t readies v.ready_in (rw ended (λ e. cc)),
      AllIn-Absent s.state s.magic s.idle sleeping t sleepers v.sleep_in (rw ended (λ e. cc)),
      v.zombie_chain.2,
    ) in
    let other : t ≢ s.current = λ e. alive (rw (← e) ended) in
    let m : s.magic t ≡ thread_magic = v.zombie_in.0.1 in
    let reaped = record (zombie_pop s).1 {
      magic = update s.magic t 0;
      zombie_reaped = (s.zombie_reaped + 1) % 2 ^ 32;
    } in
    let kept : Kept s reaped = record { ticks = refl; wake_tick = refl; initialized = refl } in
    let v2 = reaped-Valid t ((s.zombie_reaped + 1) % 2 ^ 32) v1 outside other v.zombie_in.0.2 in
    let (s', p, k, v3) =
      reap_zombies-Valid rounds reaped readies sleepers zombies (omega arith) v2 alive in
    (
      s',
      reap_first_lem (reap_zombies rounds) t (zombie_pop s) first m ∙ rw p refl,
      Kept-trans kept k,
      v3,
    )
