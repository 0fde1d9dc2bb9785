-- ===== src/Thread/Create/Start.antt =====
-- A new thread has its first frame, and the scheduler starts in a valid state.
use toyix.WaitQueue.Order.{Chain-set_links}
use toyix.WaitQueue.{Links}
use toyix.Thread.{
  State, new, ready, running, sleeping, zombie, Scheduler, thread_magic, enqueue_ready,
}
use toyix.Thread.Valid.{AllIn, AllIn-update, Valid, Outside, other-Valid}
use toyix.Thread.Ready.{enqueue_ready-Valid, ready_push_lem}
use toyix.Thread.Create.{
  thread_stack_size, initial_words, push_words, aligned_top, thread_make_initial_stack, new_thread,
  thread_create_internal, thread_create, thread_create_suspended, start_state, threading_init,
  thread_set_process, thread_get_process,
}
use toyix.Thread.Create.Frame.{PushedWords, push_words-PushedWords}
use toyix.Prelude.{
  ℕ, ◌+◌, ◌-◌, ◌%◌, ◌^◌, ◌<◌, ◌≤◌, ◌≡◌, ◌≢◌, inl, refl, sym, subst, ◌∙◌, List, [], ◌∷◌, ◌++◌, true,
  Option, none, some, update, update_self, update_other, ok, arith,
}

AllIn-new :
    (state : ℕ → State) (magic : ℕ → ℕ) (idle : ℕ) (st : State) (t : ℕ) (ids : List ℕ)
    → AllIn state magic idle st ids
    → AllIn state (update magic t thread_magic) idle st ids
AllIn-new state magic idle st t [] all = tt
AllIn-new state magic idle st t (u ∷ ids) ((here, m, ne), all) =
    ((here, ground (arith, m), ne), AllIn-new state magic idle st t ids all)

-- An object outside the queues may become a new thread.
new_thread-Valid :
    {s : Scheduler} {readies sleepers zombies : List ℕ} (t stack : ℕ)
    → Valid s readies sleepers zombies
    → t ≢ s.idle
    → Outside t readies sleepers zombies
    → Valid (new_thread t stack s) readies sleepers zombies
new_thread-Valid {s} {readies} {sleepers} {zombies} t stack v ne (a, b, c) =
    let fresh : Links = record { next = none; prev = none } in
    record {
      ready_chain =
          Chain-set_links s.links none readies s.ready_queue.head s.ready_queue.tail t fresh a
            v.ready_chain;
      sleep_chain =
          Chain-set_links s.links none sleepers s.sleep_queue.head s.sleep_queue.tail t fresh b
            v.sleep_chain;
      zombie_chain =
          Chain-set_links s.links none zombies s.zombie_queue.head s.zombie_queue.tail t fresh c
            v.zombie_chain;
      ready_in =
          AllIn-new (update s.state t new) s.magic s.idle ready t readies
            (AllIn-update s.state s.magic s.idle ready new t readies a v.ready_in);
      sleep_in =
          AllIn-new (update s.state t new) s.magic s.idle sleeping t sleepers
            (AllIn-update s.state s.magic s.idle sleeping new t sleepers b v.sleep_in);
      zombie_in =
          AllIn-new (update s.state t new) s.magic s.idle zombie t zombies
            (AllIn-update s.state s.magic s.idle zombie new t zombies c v.zombie_in);
      current_magic = ground (arith, v.current_magic);
      idle_magic = ground (arith, v.idle_magic);
      idle_state = ground (arith, v.idle_state);
    }

-- What is seen of a new thread `t` with its stack at `stack`: its queue, its first frame in its stack,
-- from the stack pointer up, and that the stack pointers and words of others are as before.
abbrev pub NewThread :
    (s : Scheduler)
    → (readies sleepers zombies : List ℕ) → (st : State) → (bootstrap_at t stack : ℕ) → (ℕ → ℕ)
    → (ℕ → ℕ) × Scheduler
    → Type 0
NewThread s readies sleepers zombies st bootstrap_at t stack words (words', s') =
    Valid s' readies sleepers zombies
    × (s'.state t ≡ st)
    × (stack ≤ s'.esp t)
    × (s'.esp t + 56 ≤ stack + thread_stack_size)
    × ((s'.esp t + 56) % 16 ≡ 0)
    × PushedWords (initial_words bootstrap_at) (s'.esp t + 56) words words'
    × ((u : ℕ) → u ≢ t → s'.esp u ≡ s.esp u)

module _ (bootstrap_at t stack : ℕ) (words : ℕ → ℕ) (some_stack : 0 < stack)
    (room : stack + thread_stack_size < 2 ^ 32) where
  -- The stack pointer of the first frame.
  frame_at : ℕ
  frame_at = stack + thread_stack_size - (stack + thread_stack_size) % 16 - 56

  frame_lem :
      let out =
        push_words (initial_words bootstrap_at) (aligned_top stack thread_stack_size) words in
      (out.0 ≡ frame_at) × PushedWords (initial_words bootstrap_at) (frame_at + 56) words out.1
  unfolding frame_at
  frame_lem =
      let top : aligned_top stack thread_stack_size ≡ frame_at + 56 = omega arith in
      let (end, pushed) =
        push_words-PushedWords (initial_words bootstrap_at) (frame_at + 56) words (omega arith)
          (omega arith) in
      subst
        (λ a.
          ((push_words (initial_words bootstrap_at) a words).0 ≡ frame_at)
          × PushedWords (initial_words bootstrap_at) (frame_at + 56) words
              (push_words (initial_words bootstrap_at) a words).1)
        (sym top) (end ∙ omega arith, pushed)

  made :
      (s : Scheduler)
      → let s1 = new_thread t stack s in
        thread_make_initial_stack bootstrap_at t words s1
        ≡ ok (
          (push_words (initial_words bootstrap_at) (aligned_top stack thread_stack_size) words).1,
          record s1 { esp = update s.esp t frame_at },
        )
  unfolding thread_make_initial_stack
  made s =
      rw
        (
          update_self s.magic t thread_magic,
          update_self s.stack_base t stack,
          update_self s.stack_size t thread_stack_size,
          frame_lem.0,
        )
        refl

  framed :
      (e : ℕ)
      → e ≡ frame_at
      → (stack ≤ e)
        × (e + 56 ≤ stack + thread_stack_size)
        × ((e + 56) % 16 ≡ 0)
        × PushedWords
            (initial_words bootstrap_at)
            (e + 56)
            words
            (push_words (initial_words bootstrap_at) (aligned_top stack thread_stack_size) words).1
  unfolding frame_at
  framed e same = (
    omega (arith, same),
    omega (arith, same),
    omega (arith, same),
    subst
        (λ x.
          PushedWords (initial_words bootstrap_at) (x + 56) words
            (push_words (initial_words bootstrap_at) (aligned_top stack thread_stack_size) words).1)
        (sym same) frame_lem.1,
  )

  -- An object outside the queues and other than the idle thread, with a stack that does not wrap, becomes
  -- a thread that is ready: the last of the ready queue, with a stack pointer inside its stack to the
  -- words of its first frame, from which it starts at `bootstrap_at`. No other word and no other
  -- thread's stack pointer changes.
  pub thread_create-NewThread :
      {s : Scheduler} {readies sleepers zombies : List ℕ} (entry : ℕ)
      → Valid s readies sleepers zombies
      → t ≢ s.idle
      → Outside t readies sleepers zombies
      → (out : (ℕ → ℕ) × Scheduler) × (thread_create (some entry) bootstrap_at t stack words s
          ≡ ok out)
        × NewThread s (readies ++ (t ∷ [])) sleepers zombies ready bootstrap_at t stack words out
  unfolding thread_create thread_create_internal enqueue_ready
  thread_create-NewThread {s} {readies} {sleepers} {zombies} entry v ne outside =
      let s1 = new_thread t stack s in
      let v1 = new_thread-Valid t stack v ne outside in
      let esp = update s.esp t frame_at in
      let v2 =
        other-Valid v1 esp s1.wake_tick s.ticks s.slice_ticks s.zombie_created s.reschedule in
      let m : s1.magic t ≡ thread_magic = update_self s.magic t thread_magic in
      let own : esp t ≡ frame_at = update_self s.esp t frame_at in
      let s2 = record s1 { esp = esp } in
      let place = framed (esp t) own in
      (
        (
          (push_words (initial_words bootstrap_at) (aligned_top stack thread_stack_size) words).1,
          enqueue_ready t s2,
        ),
        rw (made s, ready_push_lem v2 t m ne) refl,
        (
          enqueue_ready-Valid v2 t m ne outside,
          update_self s1.state t ready,
          place.0,
          place.1,
          place.2,
          place.3,
          λ u apart. update_other s.esp t u frame_at (λ e. apart (sym e)),
        ),
      )

  -- The same for a suspended thread, which stands in no queue.
  thread_create_suspended-NewThread :
      {s : Scheduler} {readies sleepers zombies : List ℕ} (entry : ℕ)
      → Valid s readies sleepers zombies
      → t ≢ s.idle
      → Outside t readies sleepers zombies
      → (out : (ℕ → ℕ) × Scheduler) × (thread_create_suspended
            (some entry)
            bootstrap_at
            t
            stack
            words
            s
          ≡ ok out)
        × NewThread s readies sleepers zombies new bootstrap_at t stack words out
  unfolding thread_create_suspended thread_create_internal
  thread_create_suspended-NewThread {s} {readies} {sleepers} {zombies} entry v ne outside =
      let s1 = new_thread t stack s in
      let v1 = new_thread-Valid t stack v ne outside in
      let esp = update s.esp t frame_at in
      let place = framed (esp t) (update_self s.esp t frame_at) in
      (
        (
          (push_words (initial_words bootstrap_at) (aligned_top stack thread_stack_size) words).1,
          record s1 { esp = esp },
        ),
        rw (made s) refl,
        (
          other-Valid v1 esp s1.wake_tick s.ticks s.slice_ticks s.zombie_created s.reschedule,
          update_self s.state t new,
          place.0,
          place.1,
          place.2,
          place.3,
          λ u apart. update_other s.esp t u frame_at (λ e. apart (sym e)),
        ),
      )

  -- After the start, for an idle thread other than the thread that runs: the queues are empty, the thread
  -- that runs goes on, and the idle thread is new with its first frame.
  pub threading_init-NewThread :
      (s : Scheduler) (idle_entry : ℕ)
      → t ≢ s.bootstrap
      → (out : (ℕ → ℕ) × Scheduler) × (threading_init idle_entry bootstrap_at t stack words s
          ≡ ok out)
        × NewThread (start_state s) [] [] [] new bootstrap_at t stack words out
        × (out.1.current ≡ s.bootstrap)
        × (out.1.state s.bootstrap ≡ running)
        × (out.1.idle ≡ t)
        × (out.1.initialized ≡ true)
  unfolding threading_init thread_create_internal
  threading_init-NewThread s idle_entry apart =
      let start = start_state s in
      let s1 = new_thread t stack start in
      let esp = update start.esp t frame_at in
      let place = framed (esp t) (update_self start.esp t frame_at) in
      (
        (
          (push_words (initial_words bootstrap_at) (aligned_top stack thread_stack_size) words).1,
          record s1 { esp = esp; idle = t; initialized = true },
        ),
        rw (made start) refl,
        (
          record {
            ready_chain = (refl, refl);
            sleep_chain = (refl, refl);
            zombie_chain = (refl, refl);
            ready_in = tt;
            sleep_in = tt;
            zombie_in = tt;
            current_magic =
                update_other start.magic t s.bootstrap thread_magic apart
                ∙ update_self s.magic s.bootstrap thread_magic;
            idle_magic = update_self start.magic t thread_magic;
            idle_state = inl (update_self start.state t new);
          },
          update_self start.state t new,
          place.0,
          place.1,
          place.2,
          place.3,
          λ u differ. update_other start.esp t u frame_at (λ e. differ (sym e)),
        ),
        refl,
        update_other start.state t s.bootstrap new apart ∙ update_self s.state s.bootstrap running,
        refl,
        refl,
      )

-- The process of a thread is the last one that was set.
get_process-set_process :
    {s : Scheduler} {readies sleepers zombies : List ℕ} (t : ℕ) (process : Option ℕ)
    → Valid s readies sleepers zombies
    → s.magic t ≡ thread_magic
    → (s' : Scheduler) × (thread_set_process t process s ≡ ok s')
      × (thread_get_process t s' ≡ ok process)
      × Valid s' readies sleepers zombies
unfolding thread_set_process thread_get_process
get_process-set_process {s} t process v m =
    let own : update s.process t process t ≡ process = update_self s.process t process in
    (
      record s { process = update s.process t process },
      rw m refl,
      rw (m, own) refl,
      record {
        ready_chain = v.ready_chain;
        sleep_chain = v.sleep_chain;
        zombie_chain = v.zombie_chain;
        ready_in = v.ready_in;
        sleep_in = v.sleep_in;
        zombie_in = v.zombie_in;
        current_magic = v.current_magic;
        idle_magic = v.idle_magic;
        idle_state = v.idle_state;
      },
    )
