-- ===== src/Thread/Schedule.antt =====
-- Which thread the scheduler runs next, and what becomes of the queues.
use toyix.Thread.{
  State, ready, running, sleeping, zombie, is_running, Scheduler, thread_magic, enqueue_ready,
  ready_pop, Resume, stay, switch, switch_to, pop_and_switch, choose, schedule,
  thread_kernel_stack_top,
}
use toyix.Thread.Valid.{
  Valid, AllIn-Absent, AllIn-idle, AllIn-update, Outside, active-Outside, other-Valid, Kept,
}
use toyix.Thread.Ready.{enqueue_ready-Valid, ready_push_lem, ready_pop-Valid}
use toyix.Prelude.{
  ℕ, ◌≡◌, ◌≢◌, inl, inr, refl, ap, ◌∙◌, ◌==◌, if◌then◌else◌, List, [], ◌∷◌, ◌++◌, Option, none,
  some, update, ok, Bool, true, false, not, ◌&&◌, Bool-cases, arith,
}

-- The running thread gives way to others unless it is the idle thread or has left the state RUNNING.
abbrev pub requeues : Scheduler → Bool
requeues s = not (s.current == s.idle) && is_running (s.state s.current)

abbrev pub requeued : Scheduler → List ℕ → List ℕ
requeued s readies = if requeues s then readies ++ (s.current ∷ []) else readies

-- The switch to the thread `next`, with the queues left behind.
abbrev pub Runs :
    Scheduler → (next : ℕ) → (readies sleepers zombies : List ℕ) → Resume × Scheduler → Type 0
Runs s next readies sleepers zombies out =
    (out.0 ≡ switch (s.esp next) next (thread_kernel_stack_top next s))
    × (out.1.current ≡ next)
    × (out.1.state next ≡ running)
    × Kept s out.1
    × Valid out.1 readies sleepers zombies

-- What the scheduler decides: the first ready thread runs, and the old one goes behind the others; with
-- no ready thread a running one, or the idle one, goes on, and else the idle thread runs.
abbrev pub Decided : Scheduler → (readies sleepers zombies : List ℕ) → Resume × Scheduler → Type 0
Decided s [] sleepers zombies out =
    if s.current == s.idle
    then (out.0 ≡ stay)
      × (out.1.current ≡ s.current)
      × Kept s out.1
      × Valid out.1 [] sleepers zombies
    else if is_running (s.state s.current)
    then (out.0 ≡ stay)
      × (out.1.current ≡ s.current)
      × Kept s out.1
      × Valid out.1 [] sleepers zombies
    else Runs s s.idle [] sleepers zombies out
Decided s (t ∷ readies) sleepers zombies out = Runs s t (requeued s readies) sleepers zombies out

running-is_running : (st : State) → is_running st ≡ true → st ≡ running
running-is_running st e = ground arith

abbrev switched : ℕ → Scheduler → Scheduler
switched next s = record s {
  state = update s.state next running;
  current = next;
  slice_ticks = 0;
  reschedule = false;
}

module _ {s : Scheduler} {readies sleepers zombies : List ℕ}
    (v : Valid s readies sleepers zombies) where
  switched-Valid :
      (next : ℕ)
      → s.magic next ≡ thread_magic
      → Outside next readies sleepers zombies
      → Valid (switched next s) readies sleepers zombies
  switched-Valid next m (a, b, c) = record {
    ready_chain = v.ready_chain;
    sleep_chain = v.sleep_chain;
    zombie_chain = v.zombie_chain;
    ready_in = AllIn-update s.state s.magic s.idle ready running next readies a v.ready_in;
    sleep_in = AllIn-update s.state s.magic s.idle sleeping running next sleepers b v.sleep_in;
    zombie_in = AllIn-update s.state s.magic s.idle zombie running next zombies c v.zombie_in;
    current_magic = m;
    idle_magic = v.idle_magic;
    idle_state = ground (arith, v.idle_state);
  }

  switch_to_lem :
      (next : ℕ)
      → s.magic next ≡ thread_magic
      → switch_to next s
        ≡ ok (switch (s.esp next) next (thread_kernel_stack_top next s), switched next s)
  unfolding switch_to
  switch_to_lem next m = ground arith

pop_and_switch_lem :
    (next : ℕ) (popped : Option ℕ × Scheduler)
    → popped.0 ≡ some next
    → pop_and_switch popped ≡ switch_to next popped.1
unfolding pop_and_switch
pop_and_switch_lem next (none, s) e = absurd (ground arith)
pop_and_switch_lem next (some t, s) e = ground arith

-- The rest of the decision, once the ready queue is not empty.
pop_and_switch-Runs :
    {s : Scheduler} (next : ℕ) {rest sleepers zombies : List ℕ}
    → Valid s (next ∷ rest) sleepers zombies
    → (out : Resume × Scheduler) × (pop_and_switch (ready_pop s) ≡ ok out)
      × Runs s next rest sleepers zombies out
      × (out.1.esp ≡ s.esp)
unfolding ready_pop thread_kernel_stack_top
pop_and_switch-Runs {s} next {rest} {sleepers} {zombies} v =
    let (first, popped) = ready_pop-Valid next v in
    let outside : Outside next rest sleepers zombies = (
      v.ready_chain.2,
      AllIn-Absent s.state s.magic s.idle sleeping next sleepers v.sleep_in
          (rw (v.ready_in.0.0) (λ e. cc)),
      AllIn-Absent s.state s.magic s.idle zombie next zombies v.zombie_in
          (rw (v.ready_in.0.0) (λ e. cc)),
    ) in
    (
      (switch (s.esp next) next (thread_kernel_stack_top next s), switched next (ready_pop s).1),
      pop_and_switch_lem next (ready_pop s) first ∙ switch_to_lem popped next v.ready_in.0.1,
      (
        refl,
        refl,
        ground arith,
        record { ticks = refl; wake_tick = refl; initialized = refl },
        switched-Valid popped next v.ready_in.0.1 outside,
      ),
      refl,
    )

abbrev pub framed : ℕ → Scheduler → Scheduler
framed frame s = record s { esp = update s.esp s.current frame }

module _ {s : Scheduler} {readies sleepers zombies : List ℕ}
    (v : Valid s readies sleepers zombies) where
  framed-Valid : (frame : ℕ) → Valid (framed frame s) readies sleepers zombies
  framed-Valid frame =
      other-Valid v (update s.esp s.current frame) s.wake_tick s.ticks s.slice_ticks
        s.zombie_created s.reschedule

  rested-Valid : Valid (record s { slice_ticks = 0; reschedule = false }) readies sleepers zombies
  rested-Valid = other-Valid v s.esp s.wake_tick s.ticks 0 s.zombie_created false

  idle-Outside : Outside s.idle readies sleepers zombies
  idle-Outside = (
    AllIn-idle s.state s.magic s.idle ready readies v.ready_in,
    AllIn-idle s.state s.magic s.idle sleeping sleepers v.sleep_in,
    AllIn-idle s.state s.magic s.idle zombie zombies v.zombie_in,
  )

-- With an empty ready queue.
choose-none :
    {s : Scheduler} {sleepers zombies : List ℕ}
    → Valid s [] sleepers zombies
    → (out : Resume × Scheduler) × (choose none s ≡ ok out)
      × Decided s [] sleepers zombies out
      × (out.1.esp ≡ s.esp)
unfolding choose
choose-none {s} v =
    let rested = record s { slice_ticks = 0; reschedule = false } in
    elim (Bool-cases (s.current == s.idle)) [
      | inl e ↦ (
        (stay, rested),
        rw e refl,
        rw e (
          refl,
          refl,
          record { ticks = refl; wake_tick = refl; initialized = refl },
          rested-Valid v,
        ),
        refl,
      )
      | inr e ↦ elim (Bool-cases (is_running (s.state s.current))) [
        | inl r ↦ (
          (stay, rested),
          rw (e, r) refl,
          rw (e, r)
              (
                refl,
                refl,
                record { ticks = refl; wake_tick = refl; initialized = refl },
                rested-Valid v,
              ),
          refl,
        )
        | inr r ↦ (
          (switch (s.esp s.idle) s.idle (thread_kernel_stack_top s.idle s), switched s.idle s),
          rw (e, r) (switch_to_lem v s.idle v.idle_magic),
          rw (e, r)
              (
                refl,
                refl,
                ground arith,
                record { ticks = refl; wake_tick = refl; initialized = refl },
                switched-Valid v s.idle v.idle_magic (idle-Outside v),
              ),
          refl,
        )
      ]
    ]

-- With the first ready thread `t`.
choose-some :
    {s : Scheduler} (t : ℕ) {readies sleepers zombies : List ℕ}
    → Valid s (t ∷ readies) sleepers zombies
    → (out : Resume × Scheduler) × (choose (some t) s ≡ ok out)
      × Decided s (t ∷ readies) sleepers zombies out
      × (out.1.esp ≡ s.esp)
unfolding choose enqueue_ready thread_kernel_stack_top
choose-some {s} t {readies} v = elim (Bool-cases (requeues s)) [
  | inl e ↦
      let active : s.state s.current ≡ running =
        running-is_running (s.state s.current) (ground arith) in
      let own : s.current ≢ s.idle = ground arith in
      let outside =
        active-Outside v s.current (rw active (λ e. cc)) (rw active (λ e. cc))
          (rw active (λ e. cc)) in
      let (out, p, (resume, current, st, k, v1), frames) =
        pop_and_switch-Runs t (enqueue_ready-Valid v s.current v.current_magic own outside) in
      let kept : Kept s out.1 = record {
        ticks = k.ticks;
        wake_tick = k.wake_tick;
        initialized = k.initialized;
      } in
      (
        out,
        rw (e, ready_push_lem v s.current v.current_magic own) p,
        (resume, current, st, kept, rw e v1),
        frames,
      )
  | inr e ↦ rw e (pop_and_switch-Runs t v)
]

choose-Decided :
    {s : Scheduler} (readies : List ℕ) {sleepers zombies : List ℕ}
    → Valid s readies sleepers zombies
    → (out : Resume × Scheduler) × (choose s.ready_queue.head s ≡ ok out)
      × Decided s readies sleepers zombies out
      × (out.1.esp ≡ s.esp)
choose-Decided {s} [] v =
    let (out, chosen, decided, frames) = choose-none v in
    (out, ap (λ head. choose head s) v.ready_chain.0 ∙ chosen, decided, frames)
choose-Decided {s} (t ∷ readies) v =
    let (out, chosen, decided, frames) = choose-some t v in
    (out, ap (λ head. choose head s) v.ready_chain.0 ∙ chosen, decided, frames)

-- In a running system whose queues are valid, the scheduler interrupt keeps the frame of the old thread
-- and never panics. It runs the first ready thread and puts the old one behind the others, unless that
-- is the idle thread or no longer RUNNING; with no ready thread it stays with a running or idle thread,
-- and else runs the idle thread. The queues stay valid.
pub schedule-Decided :
    {s : Scheduler} (frame : ℕ) (readies : List ℕ) {sleepers zombies : List ℕ}
    → s.initialized ≡ true
    → Valid s readies sleepers zombies
    → (out : Resume × Scheduler) × (schedule frame s ≡ ok out)
      × Decided (framed frame s) readies sleepers zombies out
      × (out.1.esp ≡ update s.esp s.current frame)
unfolding schedule
schedule-Decided {s} frame readies started v =
    let (out, chosen, decided, frames) = choose-Decided readies (framed-Valid v frame) in
    (out, ground arith, decided, frames)
