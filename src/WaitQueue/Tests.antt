-- ===== src/WaitQueue/Tests.antt =====
-- Runs of the queue of threads.
use toyix.WaitQueue.{Queue, push, link_last, pop, pop_head, unlink_first}
use toyix.Prelude.{◌≡◌, refl, ◌==◌, if◌then◌else◌, none, some}

-- Thread 3 in front of thread 5.
abbrev waiting : Queue
waiting = record {
  links = λ t.
      if t == 3
      then record { next = some 5; prev = none }
      else record { next = none; prev = some 3 };
  head = some 3;
  tail = some 5;
}

turn_run : (pop (push waiting 7)).0 ≡ some 3
unfolding pop push pop_head link_last unlink_first
turn_run = refl
