-- ===== src/Thread/Tests.antt =====
-- A small scheduler, its runs, and instances of the theorems.
use toyix.WaitQueue.{set_links, push, pop, link_last, unlink_first, pop_head}
use toyix.Thread.{
  new, ready, running, blocked, sleeping, zombie, Scheduler, thread_magic, Resume, switch, schedule,
  choose, ready_push, enqueue_ready, ready_pop, pop_and_switch, switch_to, thread_kernel_stack_top,
  thread_sleep_ticks,
}
use toyix.Thread.Valid.{Valid}
use toyix.Thread.Schedule.{Decided, framed, schedule-Decided}
use toyix.Thread.Wake.{Ticking, run_ticks}
use toyix.Thread.Nap.{sleep_ticks-state}
use toyix.Thread.Fair.{run_schedules, run_schedules-current}
use toyix.Thread.Events.{Sound, perform, sleep, perform-Sound}
use toyix.Prelude.{
  ◌+◌, ◌≡◌, inl, refl, true, false, ◌==◌, if◌then◌else◌, [], ◌∷◌, none, some, ok, update, ◌>>=◌,
  arith,
}

-- Thread 0 runs, 1 is the idle thread, 2 and 3 are ready, 4 sleeps until tick 7, 5 is a zombie, and 6 is
-- blocked.
abbrev demo : Scheduler
demo = record {
  magic = λ t. thread_magic;
  state = λ t.
      if t == 0
      then running
      else if t == 1
      then new
      else if t == 4
      then sleeping
      else if t == 5
      then zombie
      else if t == 6
      then blocked
      else ready;
  esp = λ t. 1000 + t;
  stack_base = λ t. 0;
  stack_size = λ t. 0;
  process = λ t. none;
  wake_tick = λ t. 7;
  links = λ t.
      if t == 2
      then record { next = some 3; prev = none }
      else if t == 3
      then record { next = none; prev = some 2 }
      else record { next = none; prev = none };
  bootstrap = 0;
  idle = 1;
  current = 0;
  ready_queue = record { head = some 2; tail = some 3 };
  sleep_queue = record { head = some 4; tail = some 4 };
  zombie_queue = record { head = some 5; tail = some 5 };
  initialized = true;
  preemption = true;
  ticks_per_slice = 1;
  slice_ticks = 0;
  reschedule = false;
  ticks = 5;
  zombie_created = 1;
  zombie_reaped = 0;
}

abbrev demo-Valid : Valid demo (2 ∷ 3 ∷ []) (4 ∷ []) (5 ∷ [])
demo-Valid = record {
  ready_chain = (refl, refl, (omega arith, tt), (refl, refl, tt, (refl, refl)));
  sleep_chain = (refl, refl, tt, (refl, refl));
  zombie_chain = (refl, refl, tt, (refl, refl));
  ready_in = ((refl, refl, omega arith), ((refl, refl, omega arith), tt));
  sleep_in = ((refl, refl, omega arith), tt);
  zombie_in = ((refl, refl, omega arith), tt);
  current_magic = refl;
  idle_magic = refl;
  idle_state = inl refl;
}

abbrev demo-Ticking : Ticking 8 demo (2 ∷ 3 ∷ []) (4 ∷ []) (5 ∷ [])
demo-Ticking = record {
  valid = demo-Valid;
  window = (omega arith, omega arith, omega arith, tt);
  started = refl;
  small = omega arith;
  few = omega arith;
}

schedule_run : (schedule 99 demo >>= (λ out. ok out.0)) ≡ ok (switch 1002 2 0)
unfolding schedule choose ready_push enqueue_ready ready_pop pop_and_switch switch_to
    thread_kernel_stack_top push pop link_last unlink_first pop_head set_links
schedule_run = refl

schedule-Decided_example :
    (out : Resume × Scheduler) × (schedule 99 demo ≡ ok out)
    × Decided (framed 99 demo) (2 ∷ 3 ∷ []) (4 ∷ []) (5 ∷ []) out
    × (out.1.esp ≡ update demo.esp demo.current 99)
schedule-Decided_example = schedule-Decided 99 (2 ∷ 3 ∷ []) refl demo-Valid

run_schedules-current_example :
    (s' : Scheduler) × (run_schedules (90 ∷ 91 ∷ []) demo ≡ ok s') × (s'.current ≡ 3)
run_schedules-current_example =
    run_schedules-current (2 ∷ []) (90 ∷ 91 ∷ []) 3 [] demo (4 ∷ []) (5 ∷ []) refl demo-Valid
      (omega arith)

sleep_ticks-state_example :
    (s' : Scheduler) × ((thread_sleep_ticks 8 3 demo >>= run_ticks 8 3) ≡ ok s')
    × (s'.state 0 ≡ ready)
sleep_ticks-state_example =
    sleep_ticks-state 3 demo-Ticking (omega arith) refl (omega arith) (omega arith) (omega arith)
      (omega arith)

perform-Sound_example : (s' : Scheduler) × (perform 8 (sleep 3) demo ≡ ok s') × Sound 8 s'
perform-Sound_example =
    perform-Sound (sleep 3) demo-Ticking (omega arith) (omega arith)
      (refl, omega arith, omega arith) (omega arith)
