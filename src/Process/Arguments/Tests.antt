-- ===== src/Process/Arguments/Tests.antt =====
-- The stack of a program with the arguments "ab" and "c".
use toyix.Prelude.Int.{pos, negsuc}
use toyix.Process.{running, Table, process_magic}
use toyix.Process.Arguments.{
  User, arg_length, place_measured, push_placed, push_arg, push_args, put_table, finish_stack,
  setup_list, setup, process_setup_arguments,
}
use toyix.Process.Arguments.Layout.{Arranged, process_setup_arguments-Arranged}
use toyix.Usercopy.{read_bytes}
use toyix.Prelude.{ℕ, ◌≡◌, refl, Bool, true, false, List, [], ◌∷◌, Option, none, some, ok, arith}

abbrev one_process : Table
one_process = record {
  processes = λ p. record {
    magic = process_magic;
    pid = 1;
    parent_pid = 0;
    state = running;
    exit_code = 0xffffffff;
    exited = false;
    kill_requested = false;
    fds = λ fd. none;
  };
  links = λ p. record { next = none; prev = none };
  head = some 10;
  tail = some 10;
  count = 1;
  next_pid = 2;
  last_exit_code = 0xffffffff;
  last_exit_seen = false;
}

abbrev fresh : User
fresh = record { stack_base = 0x2000; stack_top = 0x3000; initial_esp = 0x3000; mem = λ a. 0 }

abbrev two_args : List (Option (List ℕ))
two_args = some (97 ∷ 98 ∷ []) ∷ some (99 ∷ []) ∷ []

stack_run :
    let out = setup (pos 2) (some two_args) fresh in
    (out.0 ≡ true)
    × (out.1.initial_esp ≡ 0x2fe4)
    × (read_bytes 4 out.1.mem 0x2fe4 ≡ 2 ∷ 0 ∷ 0 ∷ 0 ∷ [])
    × (read_bytes 4 out.1.mem 0x2fe8 ≡ 0xfb ∷ 0x2f ∷ 0 ∷ 0 ∷ [])
    × (read_bytes 3 out.1.mem 0x2ffb ≡ 97 ∷ 98 ∷ 0 ∷ [])
unfolding arg_length place_measured push_placed push_arg push_args put_table finish_stack setup_list
    setup
stack_run = (refl, refl, refl, refl, refl)

null_run : setup (pos 1) (some (none ∷ [])) fresh ≡ (false, fresh)
unfolding push_arg push_args finish_stack setup_list setup
null_run = refl

negative_run : setup (negsuc 0) none fresh ≡ (false, fresh)
unfolding setup
negative_run = refl

process_setup_arguments-Arranged_example :
    (out : Bool × User) × (process_setup_arguments 10 (pos 2) (some two_args) one_process fresh
      ≡ ok out)
    × Arranged fresh two_args out
process_setup_arguments-Arranged_example =
    process_setup_arguments-Arranged fresh (omega arith) (omega arith) (omega arith) (omega arith)
      one_process 10 two_args (refl, refl, omega arith)
