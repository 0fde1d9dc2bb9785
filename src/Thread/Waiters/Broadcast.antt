-- ===== src/Thread/Waiters/Broadcast.antt =====
-- Waiting in a queue, counting the waiters, and waking them all.
use toyix.WaitQueue.Order.{Chain, Holds, push-Holds, pop-Popped}
use toyix.WaitQueue.Frame.{Apart, Same, Chain-Same, push-Same, pop-Same}
use toyix.WaitQueue.{Links, Queue, push, pop}
use toyix.Thread.{
  ready, running, blocked, sleeping, zombie, Scheduler, Ends, queue, ends_of, enqueue_ready,
  thread_wake,
}
use toyix.Thread.Valid.{
  AllIn, AllIn-Absent, AllIn-Apart, AllIn-update, AllIn-append, Valid, active-Outside, other-Valid,
}
use toyix.Thread.Ready.{enqueue_ready-Valid, ready_push_lem}
use toyix.Thread.Life.{block-Valid}
use toyix.Thread.Waiters.{
  no_waiters, wait_once, wake_next, wait_queue_wake_all, count_locked, wait_queue_count,
}
use toyix.Prelude.{
  append_nil, append_cons, ℕ, zero, suc, ◌+◌, ◌%◌, ◌^◌, ◌<◌, ◌≡◌, ◌≢◌, refl, sym, ap, ◌∙◌, subst,
  true, List, [], ◌∷◌, ◌++◌, length, Option, none, some, update, update_self, Result, ok, arith,
}

-- These threads wait in the queue, in this order: they are blocked, and the scheduler's queues hold others.
pub record Waiting (s : Scheduler) (ends : Ends) (waiters readies sleepers zombies : List ℕ)
    : Type 0 where
  pub valid : Valid s readies sleepers zombies
  pub holds : Holds (queue s ends) waiters
  pub blocked_in : AllIn s.state s.magic s.idle blocked waiters

-- Links of other threads may change.
links-Valid :
    {s : Scheduler} {readies sleepers zombies : List ℕ} (links : ℕ → Links)
    → Valid s readies sleepers zombies
    → Same s.links links readies
    → Same s.links links sleepers
    → Same s.links links zombies
    → Valid (record s { links = links }) readies sleepers zombies
links-Valid {s} {readies} {sleepers} {zombies} links v a b c = record {
  ready_chain =
      Chain-Same s.links links none readies s.ready_queue.head s.ready_queue.tail a v.ready_chain;
  sleep_chain =
      Chain-Same s.links links none sleepers s.sleep_queue.head s.sleep_queue.tail b v.sleep_chain;
  zombie_chain =
      Chain-Same s.links links none zombies s.zombie_queue.head s.zombie_queue.tail c
        v.zombie_chain;
  ready_in = v.ready_in;
  sleep_in = v.sleep_in;
  zombie_in = v.zombie_in;
  current_magic = v.current_magic;
  idle_magic = v.idle_magic;
  idle_state = v.idle_state;
}

module _ {s : Scheduler} {ends : Ends} {waiters readies sleepers zombies : List ℕ}
    (w : Waiting s ends waiters readies sleepers zombies) where
  -- The scheduler's queues hold none of the waiters.
  ready-Apart : Apart readies waiters
  ready-Apart =
      AllIn-Apart s.state s.magic s.idle ready blocked readies waiters w.valid.ready_in w.blocked_in
        (λ e. cc)

  sleep-Apart : Apart sleepers waiters
  sleep-Apart =
      AllIn-Apart s.state s.magic s.idle sleeping blocked sleepers waiters w.valid.sleep_in
        w.blocked_in (λ e. cc)

  zombie-Apart : Apart zombies waiters
  zombie-Apart =
      AllIn-Apart s.state s.magic s.idle zombie blocked zombies waiters w.valid.zombie_in
        w.blocked_in (λ e. cc)

  -- A running thread other than the idle thread waits: it is the last in the queue, and blocked, and its
  -- turn is over. The threads that are ready, asleep or ended stay as they are.
  wait_once-Waiting :
      s.state s.current ≡ running
      → s.current ≢ s.idle
      → (ends' : Ends) × (s' : Scheduler) × (wait_once ends s ≡ ok (ends', s'))
        × Waiting s' ends' (waiters ++ (s.current ∷ [])) readies sleepers zombies
        × (s'.reschedule ≡ true)
  unfolding wait_once
  wait_once-Waiting runs ne =
      let c = s.current in
      let q = push (queue s ends) c in
      let absent =
        AllIn-Absent s.state s.magic s.idle blocked c waiters w.blocked_in (rw runs (λ e. cc)) in
      let (a, b, d) =
        active-Outside w.valid c (rw runs (λ e. cc)) (rw runs (λ e. cc)) (rw runs (λ e. cc)) in
      let v1 =
        links-Valid q.links w.valid
          (push-Same (queue s ends) c waiters readies w.holds absent a ready-Apart)
          (push-Same (queue s ends) c waiters sleepers w.holds absent b sleep-Apart)
          (push-Same (queue s ends) c waiters zombies w.holds absent d zombie-Apart) in
      let (done, v2) = block-Valid v1 runs ne in
      (
        ends_of q,
        record s { links = q.links; state = update s.state c blocked; reschedule = true },
        rw done refl,
        record {
          valid = v2;
          holds = push-Holds (queue s ends) c waiters absent w.holds;
          blocked_in =
              AllIn-append (update s.state c blocked) s.magic s.idle blocked c waiters
                (AllIn-update s.state s.magic s.idle blocked blocked c waiters absent w.blocked_in)
                (update_self s.state c blocked) w.valid.current_magic ne;
        },
        refl,
      )

-- The first waiter is taken, and put behind the threads that are ready.
wake_first :
    {s : Scheduler} {ends : Ends} {readies sleepers zombies : List ℕ} (t : ℕ) (rest : List ℕ)
    → Waiting s ends (t ∷ rest) readies sleepers zombies
    → let q = (pop (queue s ends)).1 in
      ((pop (queue s ends)).0 ≡ some t)
      × (s' : Scheduler) × (thread_wake (some t) (record s { links = q.links }) ≡ ok s')
      × Waiting s' (ends_of q) rest (readies ++ (t ∷ [])) sleepers zombies
unfolding thread_wake enqueue_ready
wake_first {s} {ends} {readies} {sleepers} {zombies} t rest w =
    let q = (pop (queue s ends)).1 in
    let s1 = record s { links = q.links } in
    let (first, left) = pop-Popped (queue s ends) (t ∷ rest) w.holds in
    let ((stopped, m, ne), others) = w.blocked_in in
    let v1 =
      links-Valid q.links w.valid
        (pop-Same (queue s ends) (t ∷ rest) readies w.holds (ready-Apart w))
        (pop-Same (queue s ends) (t ∷ rest) sleepers w.holds (sleep-Apart w))
        (pop-Same (queue s ends) (t ∷ rest) zombies w.holds (zombie-Apart w)) in
    let (a, b, d) =
      active-Outside v1 t (rw stopped (λ e. cc)) (rw stopped (λ e. cc)) (rw stopped (λ e. cc)) in
    let v2 = enqueue_ready-Valid v1 t m ne (a, b, d) in
    (
      first,
      record (enqueue_ready t s1) { reschedule = true },
      ground (arith, m, stopped, ready_push_lem v1 t m ne),
      record {
        valid = other-Valid v2 s.esp s.wake_tick s.ticks s.slice_ticks s.zombie_created true;
        holds =
            Chain-Same q.links (enqueue_ready t s1).links none rest q.head q.tail
              (push-Same (queue s1 s1.ready_queue) t readies rest v1.ready_chain a w.holds.2 (
                AllIn-Apart s.state s.magic s.idle blocked ready rest readies others v1.ready_in
                  (λ e. cc)))
              left;
        blocked_in = AllIn-update s.state s.magic s.idle blocked ready t rest w.holds.2 others;
      },
    )

wake_next_lem :
    (rest : Ends → Scheduler → Result (Ends × Scheduler)) (t : ℕ) (out : Option ℕ × Queue)
    (s s' : Scheduler)
    → out.0 ≡ some t
    → thread_wake (some t) (record s { links = out.1.links }) ≡ ok s'
    → wake_next rest out s ≡ rest (ends_of out.1) s'
unfolding wake_next
wake_next_lem rest t (none, q) s s' e woken = absurd (ground arith)
wake_next_lem rest t (some u, q) s s' e woken =
    let same : u ≡ t = ground arith in rw same (rw woken refl)

-- With more rounds than threads wait, wait_queue_wake_all ends with an empty queue, and puts the waiters
-- behind the threads that are ready, in the order in which they wait. The sleeping and ended threads
-- stay as they are.
pub wake_all-Valid :
    (rounds : ℕ) (s : Scheduler) (ends : Ends) (waiters readies sleepers zombies : List ℕ)
    → length waiters < rounds
    → Waiting s ends waiters readies sleepers zombies
    → (s' : Scheduler) × (wait_queue_wake_all rounds ends s ≡ ok (no_waiters, s'))
      × Valid s' (readies ++ waiters) sleepers zombies
unfolding wait_queue_wake_all wake_next
wake_all-Valid zero s ends waiters readies sleepers zombies few w = absurd (omega arith)
wake_all-Valid (suc rounds) s ends [] readies sleepers zombies few w =
    let empty : ends ≡ no_waiters = λ i. record { head = w.holds.0 i; tail = w.holds.1 i } in
    (
      s,
      ap (λ out. wake_next (wait_queue_wake_all rounds) out s)
            (pop-Popped (queue s ends) [] w.holds)
          ∙ ap (λ e. ok (e, s)) empty,
      subst (λ r. Valid s r sleepers zombies) (sym (append_nil readies)) w.valid,
    )
wake_all-Valid (suc rounds) s ends (t ∷ waiters) readies sleepers zombies few w =
    let (first, s1, woken, w1) = wake_first t waiters w in
    let (s', done, v) =
      wake_all-Valid rounds s1 (ends_of (pop (queue s ends)).1) waiters (readies ++ (t ∷ []))
        sleepers zombies (omega arith) w1 in
    (
      s',
      wake_next_lem (wait_queue_wake_all rounds) t (pop (queue s ends)) s s1 first woken ∙ done,
      subst (λ r. Valid s' r sleepers zombies) (append_cons readies t waiters) v,
    )

count_locked_lem :
    (rounds : ℕ) (s : Scheduler) (before : Option ℕ) (waiters : List ℕ) (head tail : Option ℕ)
    (count : ℕ)
    → length waiters < rounds
    → count + length waiters < 2 ^ 32
    → Chain s.links before waiters head tail
    → count_locked rounds head count s ≡ ok (count + length waiters)
unfolding count_locked
count_locked_lem zero s before waiters head tail count few small chain = absurd (omega arith)
count_locked_lem (suc rounds) s before [] head tail count few small (h, _) =
    rw h (ap ok (omega arith))
count_locked_lem (suc rounds) s before (t ∷ waiters) head tail count few small (h, _, _, chain) =
    let wrap : (count + 1) % 2 ^ 32 ≡ count + 1 = omega arith in
    let sum : count + 1 + length waiters ≡ count + suc (length waiters) = omega arith in
    rw (h, wrap)
      (count_locked_lem rounds s (some t) waiters (s.links t).next tail (count + 1) (omega arith)
          (omega arith) chain
        ∙ ap ok sum)

-- wait_queue_count, with more rounds than threads wait, gives their number.
wait_queue_count_lem :
    (rounds : ℕ) (s : Scheduler) (ends : Ends) (waiters readies sleepers zombies : List ℕ)
    → length waiters < rounds
    → length waiters < 2 ^ 32
    → Waiting s ends waiters readies sleepers zombies
    → wait_queue_count rounds ends s ≡ ok (length waiters)
unfolding wait_queue_count
wait_queue_count_lem rounds s ends waiters readies sleepers zombies few small w =
    let all : 0 + length waiters ≡ length waiters = omega arith in
    count_locked_lem rounds s none waiters ends.head ends.tail 0 few (omega (arith, small)) w.holds
    ∙ ap ok all
