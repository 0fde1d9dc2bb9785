-- ===== src/Syscall/Tests.antt =====
-- A parent with two children, runs of the calls, and instances of the theorems.
use toyix.Process.{running, zombie, Table, process_magic}
use toyix.Process.Valid.{Valid}
use toyix.Syscall.{
  syscall_copy_user_string, syscall_getpid, syscall_kill, Outcome, waitpid_done, syscall_procinfo,
}
use toyix.Syscall.Path.{StringCopied, copy_user_string-StringCopied}
use toyix.Syscall.Files.{syscall_stat}
use toyix.Syscall.Files.Stat.{StatAnswer, syscall_stat-StatAnswer}
use toyix.Vfs as Vfs
use toyix.Syscall.Report.{Reported, syscall_procinfo-Reported}
use toyix.Syscall.Wait.{Reaped, waitpid_done-Reaped}
use toyix.Syscall.Kill.{KillAnswer, syscall_kill-KillAnswer}
use toyix.Prelude.{
  ℕ, ◌≡◌, inl, inr, refl, true, false, ◌==◌, ◌&&◌, leb, ltb, if◌then◌else◌, [], ◌∷◌, List, Option,
  none, some, ok, arith,
}

-- Process 10 has pid 1. Its children are 20, which has ended with code 7, and 30, which runs.
abbrev family : Table
family = record {
  processes = λ p. record {
    magic = process_magic;
    pid = if p == 10 then 1 else if p == 20 then 2 else 3;
    parent_pid = if p == 10 then 0 else 1;
    state = if p == 20 then zombie else running;
    exit_code = if p == 20 then 7 else 0xffffffff;
    exited = p == 20;
    kill_requested = false;
    fds = λ fd. none;
  };
  links = λ p.
      if p == 10
      then record { next = some 20; prev = none }
      else if p == 20
      then record { next = some 30; prev = some 10 }
      else record { next = none; prev = some 20 };
  head = some 10;
  tail = some 30;
  count = 3;
  next_pid = 4;
  last_exit_code = 7;
  last_exit_seen = true;
}

abbrev family-Valid : Valid family (10 ∷ 20 ∷ 30 ∷ [])
family-Valid = record {
  chain = (
    refl,
    refl,
    (omega arith, (omega arith, tt)),
    (refl, refl, (omega arith, tt), (refl, refl, tt, (refl, refl))),
  );
  live = (
    (refl, refl, omega arith),
    (omega arith, (omega arith, tt)),
    ((refl, refl, omega arith), (omega arith, tt), ((refl, refl, omega arith), tt, tt)),
  );
  counted = refl;
}

-- The two pages of the process.
abbrev flags_at : ℕ → ℕ
flags_at page = if leb 0x40000000 page && ltb page 0x40002000 then 7 else 1

-- "ab", over the end of the first page.
abbrev memory : ℕ → ℕ
memory a = if a == 0x40000ffe then 97 else if a == 0x40000fff then 98 else 0

getpid_run : (syscall_getpid none family ≡ 0) × (syscall_getpid (some 30) family ≡ 3)
unfolding syscall_getpid
getpid_run = (refl, refl)

copy_user_string-StringCopied_example :
    (o : Option (List ℕ)) × (syscall_copy_user_string 4 flags_at memory 0x40000ffe 64 ≡ ok o)
    × StringCopied flags_at memory 0x40000ffe 64 o
copy_user_string-StringCopied_example =
    copy_user_string-StringCopied 4 flags_at memory 0x40000ffe 64 (omega arith) (omega arith)
      (omega arith) (omega arith) (omega arith)

waitpid_done-Reaped_example :
    (o : Outcome) × (waitpid_done 4 flags_at memory 20 0x40000100 family ≡ ok o)
    × Reaped family (10 ∷ 20 ∷ 30 ∷ []) flags_at memory 20 0x40000100 o
waitpid_done-Reaped_example =
    waitpid_done-Reaped 4 family (10 ∷ 20 ∷ 30 ∷ []) flags_at memory 20 0x40000100 (omega arith)
      (omega arith) (omega arith) family-Valid (inr (inl refl)) refl

syscall_kill-KillAnswer_example :
    (out : ℕ × Table) × (syscall_kill 4 (some 10) 3 family ≡ ok out)
    × Valid out.1 (10 ∷ 20 ∷ 30 ∷ [])
    × KillAnswer family (10 ∷ 20 ∷ 30 ∷ []) 10 3 out
syscall_kill-KillAnswer_example =
    syscall_kill-KillAnswer 4 10 3 family (10 ∷ 20 ∷ 30 ∷ []) (omega arith) family-Valid

syscall_procinfo-Reported_example :
    (out : ℕ × (ℕ → ℕ)) × (syscall_procinfo 4 flags_at memory (some 10) 2 0x40000100 family
      ≡ ok out)
    × Reported family (10 ∷ 20 ∷ 30 ∷ []) flags_at memory 10 2 0x40000100 out
syscall_procinfo-Reported_example =
    syscall_procinfo-Reported 4 family (10 ∷ 20 ∷ 30 ∷ []) flags_at memory 10 2 0x40000100
      (omega arith) (omega arith) (omega arith) family-Valid

-- A directory of the one file "ab".
abbrev one_file : List Vfs.Node
one_file = record { path = 97 ∷ 98 ∷ []; kind = 1; data_at = 0x1000; size = 5 } ∷ []

syscall_stat-StatAnswer_example :
    (out : ℕ × (ℕ → ℕ)) × (syscall_stat 4 flags_at memory one_file (some 10) 0x40000ffe 0x40000100
      ≡ ok out)
    × StatAnswer flags_at memory one_file 0x40000ffe 0x40000100 out
syscall_stat-StatAnswer_example =
    syscall_stat-StatAnswer 4 flags_at memory one_file 10 0x40000ffe 0x40000100 (omega arith)
      (omega arith) (omega arith) ((omega arith, (omega arith, tt)), tt)
