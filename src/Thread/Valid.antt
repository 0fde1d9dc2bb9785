-- ===== src/Thread/Valid.antt =====
-- The invariant of the scheduler: the three queues hold the threads of three states, and every thread
-- that they hold can be run.
use toyix.WaitQueue.Order.{Absent, Holds}
use toyix.WaitQueue.Frame.{Apart}
use toyix.Thread.{State, new, ready, running, sleeping, zombie, Scheduler, queue, thread_magic}
use toyix.Prelude.{ℕ, Bool, ◌≡◌, ◌≢◌, ◌⊎◌, refl, ◌∙◌, List, [], ◌∷◌, ◌++◌, update, arith}

-- Every thread of the list is in the state, is a thread, and is not the idle thread.
abbrev pub AllIn : (ℕ → State) → (ℕ → ℕ) → (idle : ℕ) → State → List ℕ → Type 0
AllIn state magic idle st [] = Unit
AllIn state magic idle st (t ∷ rest) =
    ((state t ≡ st) × (magic t ≡ thread_magic) × (t ≢ idle)) × AllIn state magic idle st rest

-- The queues hold these threads, in this order.
pub record Valid (s : Scheduler) (readies sleepers zombies : List ℕ) : Type 0 where
  pub ready_chain : Holds (queue s s.ready_queue) readies
  pub sleep_chain : Holds (queue s s.sleep_queue) sleepers
  pub zombie_chain : Holds (queue s s.zombie_queue) zombies
  pub ready_in : AllIn s.state s.magic s.idle ready readies
  pub sleep_in : AllIn s.state s.magic s.idle sleeping sleepers
  pub zombie_in : AllIn s.state s.magic s.idle zombie zombies
  pub current_magic : s.magic s.current ≡ thread_magic
  pub idle_magic : s.magic s.idle ≡ thread_magic
  pub idle_state : (s.state s.idle ≡ new) ⊎ (s.state s.idle ≡ running)

module _ (state : ℕ → State) (magic : ℕ → ℕ) (idle : ℕ) where
  pub AllIn-Absent :
      (st : State) (x : ℕ) (ids : List ℕ)
      → AllIn state magic idle st ids
      → state x ≢ st
      → Absent x ids
  AllIn-Absent st x [] all differ = tt
  AllIn-Absent st x (t ∷ rest) ((here, _, _), all) differ =
      ((λ e. differ (rw (← e) here)), AllIn-Absent st x rest all differ)

  pub AllIn-idle : (st : State) (ids : List ℕ) → AllIn state magic idle st ids → Absent idle ids
  AllIn-idle st [] all = tt
  AllIn-idle st (t ∷ rest) ((_, _, ne), all) = (ne, AllIn-idle st rest all)

  pub AllIn-Apart :
      (a b : State) (xs ys : List ℕ)
      → AllIn state magic idle a xs
      → AllIn state magic idle b ys
      → a ≢ b
      → Apart xs ys
  AllIn-Apart a b [] ys left right differ = tt
  AllIn-Apart a b (x ∷ xs) ys ((here, _, _), left) right differ =
      (AllIn-Absent b x ys right (rw here differ), AllIn-Apart a b xs ys left right differ)

  pub AllIn-update :
      (st other : State) (x : ℕ) (ids : List ℕ)
      → Absent x ids
      → AllIn state magic idle st ids
      → AllIn (update state x other) magic idle st ids
  AllIn-update st other x [] absent all = tt
  AllIn-update st other x (t ∷ rest) (differ, absent) ((here, m, ne), all) =
      ((ground arith, m, ne), AllIn-update st other x rest absent all)

  pub AllIn-append :
      (st : State) (x : ℕ) (ids : List ℕ)
      → AllIn state magic idle st ids
      → state x ≡ st
      → magic x ≡ thread_magic
      → x ≢ idle
      → AllIn state magic idle st (ids ++ (x ∷ []))
  AllIn-append st x [] all e m ne = ((e, m, ne), tt)
  AllIn-append st x (t ∷ rest) (here, all) e m ne = (here, AllIn-append st x rest all e m ne)

-- A thread that stands in none of the queues.
abbrev pub Outside : ℕ → (readies sleepers zombies : List ℕ) → Type 0
Outside t readies sleepers zombies = Absent t readies × Absent t sleepers × Absent t zombies

module _ {s : Scheduler} {readies sleepers zombies : List ℕ}
    (v : Valid s readies sleepers zombies) where
  -- A thread that is neither ready nor asleep nor a zombie.
  pub active-Outside :
      (t : ℕ)
      → s.state t ≢ ready
      → s.state t ≢ sleeping
      → s.state t ≢ zombie
      → Outside t readies sleepers zombies
  active-Outside t a b c = (
    AllIn-Absent s.state s.magic s.idle ready t readies v.ready_in a,
    AllIn-Absent s.state s.magic s.idle sleeping t sleepers v.sleep_in b,
    AllIn-Absent s.state s.magic s.idle zombie t zombies v.zombie_in c,
  )

  -- The queues have no thread in common.
  pub sleepers-Apart : Apart sleepers readies
  sleepers-Apart =
      AllIn-Apart s.state s.magic s.idle sleeping ready sleepers readies v.sleep_in v.ready_in
        (λ e. cc)

  pub zombies-Apart : Apart zombies readies
  zombies-Apart =
      AllIn-Apart s.state s.magic s.idle zombie ready zombies readies v.zombie_in v.ready_in
        (λ e. cc)

  -- The fields that Valid does not speak of may change.
  pub other-Valid :
      (esp wake : ℕ → ℕ) (ticks slice created : ℕ) (resched : Bool)
      → Valid
          (record s {
            esp = esp;
            wake_tick = wake;
            ticks = ticks;
            slice_ticks = slice;
            zombie_created = created;
            reschedule = resched;
          })
          readies
          sleepers
          zombies
  other-Valid esp wake ticks slice created resched = record {
    ready_chain = v.ready_chain;
    sleep_chain = v.sleep_chain;
    zombie_chain = v.zombie_chain;
    ready_in = v.ready_in;
    sleep_in = v.sleep_in;
    zombie_in = v.zombie_in;
    current_magic = v.current_magic;
    idle_magic = v.idle_magic;
    idle_state = v.idle_state;
  }

-- The time and the wake-up ticks, which most operations leave alone.
pub record Kept (s s' : Scheduler) : Type 0 where
  pub ticks : s'.ticks ≡ s.ticks
  pub wake_tick : s'.wake_tick ≡ s.wake_tick
  pub initialized : s'.initialized ≡ s.initialized

pub Kept-refl : (s : Scheduler) → Kept s s
Kept-refl s = record { ticks = refl; wake_tick = refl; initialized = refl }

pub Kept-trans : {s t u : Scheduler} → Kept s t → Kept t u → Kept s u
Kept-trans a b = record {
  ticks = b.ticks ∙ a.ticks;
  wake_tick = b.wake_tick ∙ a.wake_tick;
  initialized = b.initialized ∙ a.initialized;
}
