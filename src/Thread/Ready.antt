-- ===== src/Thread/Ready.antt =====
-- The pushes and pops of the scheduler's queues.
use toyix.WaitQueue.Order.{push-Holds, pop-Popped}
use toyix.WaitQueue.Frame.{Chain-Same, push-Same, pop-Same}
use toyix.Thread.{
  ready, sleeping, zombie, Scheduler, queue, thread_magic, enqueue_ready, ready_push, ready_pop,
  sleep_pop_front,
}
use toyix.Thread.Valid.{
  Valid, AllIn-Absent, AllIn-Apart, AllIn-update, AllIn-append, Outside, sleepers-Apart,
  zombies-Apart,
}
use toyix.Prelude.{ℕ, ◌≡◌, ◌≢◌, List, [], ◌∷◌, ◌++◌, none, some, update, ok, arith}

module _ {s : Scheduler} {readies sleepers zombies : List ℕ}
    (v : Valid s readies sleepers zombies) where
  -- A thread outside the queues is put behind the last of the ready queue.
  pub enqueue_ready-Valid :
      (t : ℕ)
      → s.magic t ≡ thread_magic
      → t ≢ s.idle
      → Outside t readies sleepers zombies
      → Valid (enqueue_ready t s) (readies ++ (t ∷ [])) sleepers zombies
  unfolding enqueue_ready
  enqueue_ready-Valid t m ne (a, b, c) = record {
    ready_chain = push-Holds (queue s s.ready_queue) t readies a v.ready_chain;
    sleep_chain =
        Chain-Same s.links _ none sleepers s.sleep_queue.head s.sleep_queue.tail
          (push-Same (queue s s.ready_queue) t readies sleepers v.ready_chain a b
            (sleepers-Apart v))
          v.sleep_chain;
    zombie_chain =
        Chain-Same s.links _ none zombies s.zombie_queue.head s.zombie_queue.tail
          (push-Same (queue s s.ready_queue) t readies zombies v.ready_chain a c (zombies-Apart v))
          v.zombie_chain;
    ready_in =
        AllIn-append (update s.state t ready) s.magic s.idle ready t readies
          (AllIn-update s.state s.magic s.idle ready ready t readies a v.ready_in) (ground arith) m
          ne;
    sleep_in = AllIn-update s.state s.magic s.idle sleeping ready t sleepers b v.sleep_in;
    zombie_in = AllIn-update s.state s.magic s.idle zombie ready t zombies c v.zombie_in;
    current_magic = v.current_magic;
    idle_magic = v.idle_magic;
    idle_state = ground (arith, v.idle_state);
  }

  pub ready_push_lem :
      (t : ℕ) → s.magic t ≡ thread_magic → t ≢ s.idle → ready_push t s ≡ ok (enqueue_ready t s)
  unfolding ready_push
  ready_push_lem t m ne = ground arith

-- ready_pop takes the first thread of the ready queue.
pub ready_pop-Valid :
    {s : Scheduler} (t : ℕ) {readies sleepers zombies : List ℕ}
    → Valid s (t ∷ readies) sleepers zombies
    → ((ready_pop s).0 ≡ some t) × Valid (ready_pop s).1 readies sleepers zombies
unfolding ready_pop
ready_pop-Valid {s} t {readies} {sleepers} {zombies} v =
    let (first, rest) = pop-Popped (queue s s.ready_queue) (t ∷ readies) v.ready_chain in
    (
      first,
      record {
        ready_chain = rest;
        sleep_chain =
            Chain-Same s.links _ none sleepers s.sleep_queue.head s.sleep_queue.tail
              (pop-Same (queue s s.ready_queue) (t ∷ readies) sleepers v.ready_chain
                (sleepers-Apart v))
              v.sleep_chain;
        zombie_chain =
            Chain-Same s.links _ none zombies s.zombie_queue.head s.zombie_queue.tail
              (pop-Same (queue s s.ready_queue) (t ∷ readies) zombies v.ready_chain
                (zombies-Apart v))
              v.zombie_chain;
        ready_in = v.ready_in.1;
        sleep_in = v.sleep_in;
        zombie_in = v.zombie_in;
        current_magic = v.current_magic;
        idle_magic = v.idle_magic;
        idle_state = v.idle_state;
      },
    )

-- sleep_pop_front takes the first sleeper, which then stands in none of the queues.
pub sleep_pop_front-Valid :
    {s : Scheduler} (t : ℕ) {readies sleepers zombies : List ℕ}
    → Valid s readies (t ∷ sleepers) zombies
    → ((sleep_pop_front s).0 ≡ some t)
      × Valid (sleep_pop_front s).1 readies sleepers zombies
      × Outside t readies sleepers zombies
unfolding sleep_pop_front
sleep_pop_front-Valid {s} t {readies} {sleepers} {zombies} v =
    let (first, rest) = pop-Popped (queue s s.sleep_queue) (t ∷ sleepers) v.sleep_chain in
    let asleep : s.state t ≡ sleeping = v.sleep_in.0.0 in
    let readies-Apart =
      AllIn-Apart s.state s.magic s.idle ready sleeping readies (t ∷ sleepers) v.ready_in v.sleep_in
        (λ e. cc) in
    let zombies-Apart =
      AllIn-Apart s.state s.magic s.idle zombie sleeping zombies (t ∷ sleepers) v.zombie_in
        v.sleep_in (λ e. cc) in
    (
      first,
      record {
        ready_chain =
            Chain-Same s.links _ none readies s.ready_queue.head s.ready_queue.tail
              (pop-Same (queue s s.sleep_queue) (t ∷ sleepers) readies v.sleep_chain readies-Apart)
              v.ready_chain;
        sleep_chain = rest;
        zombie_chain =
            Chain-Same s.links _ none zombies s.zombie_queue.head s.zombie_queue.tail
              (pop-Same (queue s s.sleep_queue) (t ∷ sleepers) zombies v.sleep_chain zombies-Apart)
              v.zombie_chain;
        ready_in = v.ready_in;
        sleep_in = v.sleep_in.1;
        zombie_in = v.zombie_in;
        current_magic = v.current_magic;
        idle_magic = v.idle_magic;
        idle_state = v.idle_state;
      },
      (
        AllIn-Absent s.state s.magic s.idle ready t readies v.ready_in (rw asleep (λ e. cc)),
        v.sleep_chain.2,
        AllIn-Absent s.state s.magic s.idle zombie t zombies v.zombie_in (rw asleep (λ e. cc)),
      ),
    )
