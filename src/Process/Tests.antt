-- ===== src/Process/Tests.antt =====
-- A table of three processes, and instances of the theorems.
use toyix.WaitQueue.{push, link_last, set_links}
use toyix.Process.{
  running, zombie, Table, process_magic, process_init_system, process_create_empty,
  process_table_insert, find_from, process_find,
}
use toyix.Process.Valid.{Valid, Created, process_create_empty-Created}
use toyix.Process.Descriptors.{process_fd_install}
use toyix.Process.Descriptors.Files.{Installed, process_fd_install-Installed}
use toyix.Process.Ending.{process_destroy}
use toyix.Process.Ending.Destroy.{Destroyed, process_destroy-Destroyed}
use toyix.Prelude.{
  ℕ, ◌≡◌, inl, inr, refl, true, false, ◌==◌, if◌then◌else◌, [], ◌∷◌, Option, none, some, ok, ◌>>=◌,
  arith,
}

-- Process 10 has pid 1. Its child 20 has ended, with file 77 still open, and 30 is a child of 20.
abbrev demo : Table
demo = record {
  processes = λ p. record {
    magic = process_magic;
    pid = if p == 10 then 1 else if p == 20 then 2 else 3;
    parent_pid = if p == 10 then 0 else if p == 20 then 1 else 2;
    state = if p == 20 then zombie else running;
    exit_code = if p == 20 then 7 else 0xffffffff;
    exited = p == 20;
    kill_requested = false;
    fds = λ fd. if (if p == 20 then fd == 3 else false) then some 77 else none;
  };
  links = λ p.
      if p == 10
      then record { next = some 20; prev = none }
      else if p == 20
      then record { next = some 30; prev = some 10 }
      else record { next = none; prev = some 20 };
  head = some 10;
  tail = some 30;
  count = 3;
  next_pid = 4;
  last_exit_code = 7;
  last_exit_seen = true;
}

abbrev demo-Valid : Valid demo (10 ∷ 20 ∷ 30 ∷ [])
demo-Valid = record {
  chain = (
    refl,
    refl,
    (omega arith, (omega arith, tt)),
    (refl, refl, (omega arith, tt), (refl, refl, tt, (refl, refl))),
  );
  live = (
    (refl, refl, omega arith),
    (omega arith, (omega arith, tt)),
    ((refl, refl, omega arith), (omega arith, tt), ((refl, refl, omega arith), tt, tt)),
  );
  counted = refl;
}

-- The first two processes after the start.
start_run :
    (do
      one ← process_create_empty 10 (process_init_system demo)
      two ← process_create_empty 20 one
      process_find 5 2 two)
    ≡ ok (some 20)
unfolding process_init_system process_create_empty process_table_insert process_find find_from push
    link_last set_links
start_run = refl

process_create_empty-Created_example :
    Created demo (10 ∷ 20 ∷ 30 ∷ []) 40 (process_create_empty 40 demo)
process_create_empty-Created_example =
    process_create_empty-Created demo (10 ∷ 20 ∷ 30 ∷ []) 40 demo-Valid
      (omega arith, (omega arith, (omega arith, tt))) (omega arith) (omega arith)

process_fd_install-Installed_example :
    (out : Option ℕ × Table) × (process_fd_install 20 (some 55) demo ≡ ok out)
    × Installed demo 20 55 out
process_fd_install-Installed_example =
    process_fd_install-Installed demo 20 (refl, refl, omega arith) 55

process_destroy-Destroyed_example :
    Destroyed demo (10 ∷ 20 ∷ 30 ∷ []) 20 (process_destroy 4 20 demo)
process_destroy-Destroyed_example =
    process_destroy-Destroyed 4 demo (10 ∷ 20 ∷ 30 ∷ []) 20 (omega arith) demo-Valid
      (inr (inl refl))
