-- ===== src/Process/Valid.antt =====
-- The invariant of the process table: a doubly linked list of live processes with different pids.
use native.Mathlib.Decide.{ℕ_discrete}
use toyix.WaitQueue.Order.{Absent, Holds, Chain-set_links, push-Holds}
use toyix.WaitQueue.{set_links, push}
use toyix.Process.{
  new, is_destroyed, Process, Table, process_magic, put, table_queue, validate_live_process,
  process_table_insert, process_create_empty,
}
use toyix.Process.Chain.{Member, unlinked}
use toyix.Prelude.{
  ℕ, ◌+◌, ◌%◌, ◌^◌, ◌<◌, ◌≡◌, ◌≢◌, inl, inr, refl, sym, ap, ◌∙◌, subst, false, none, Result, ok,
  List, [], ◌∷◌, ◌++◌, length, length-append, update, update_self, update_other, arith,
}

-- No process of the list has the pid.
abbrev pub PidAbsent : (ℕ → Process) → (pid : ℕ) → List ℕ → Type 0
PidAbsent processes pid [] = Unit
PidAbsent processes pid (p ∷ rest) = ((processes p).pid ≢ pid) × PidAbsent processes pid rest

-- A process in the table.
abbrev pub Live : Process → (next_pid : ℕ) → Type 0
Live process next_pid =
    (process.magic ≡ process_magic)
    × (is_destroyed process.state ≡ false)
    × (process.pid < next_pid)

abbrev pub AllLive : (ℕ → Process) → (next_pid : ℕ) → List ℕ → Type 0
AllLive processes next_pid [] = Unit
AllLive processes next_pid (p ∷ rest) =
    Live (processes p) next_pid
    × PidAbsent processes (processes p).pid rest
    × AllLive processes next_pid rest

-- The table lists these processes, in this order.
pub record Valid (t : Table) (ids : List ℕ) : Type 0 where
  pub chain : Holds (table_queue t) ids
  pub live : AllLive t.processes t.next_pid ids
  pub counted : t.count ≡ length ids

-- What the invariant says of a process does not change.
abbrev pub Alike : (f g : ℕ → Process) → List ℕ → Type 0
Alike f g [] = Unit
Alike f g (p ∷ rest) =
    (((g p).magic ≡ (f p).magic)
      × (is_destroyed (g p).state ≡ is_destroyed (f p).state)
      × ((g p).pid ≡ (f p).pid))
    × Alike f g rest

PidAbsent-Alike :
    (f g : ℕ → Process) (pid : ℕ) (ids : List ℕ)
    → Alike f g ids
    → PidAbsent f pid ids
    → PidAbsent g pid ids
PidAbsent-Alike f g pid [] alike absent = tt
PidAbsent-Alike f g pid (p ∷ rest) ((_, _, same), alike) (differ, absent) =
    ((λ e. differ (sym same ∙ e)), PidAbsent-Alike f g pid rest alike absent)

pub AllLive-Alike :
    (f g : ℕ → Process) (next_pid : ℕ) (ids : List ℕ)
    → Alike f g ids
    → AllLive f next_pid ids
    → AllLive g next_pid ids
AllLive-Alike f g next_pid [] alike live = tt
AllLive-Alike f g next_pid (p ∷ rest) ((m, s, same), alike) ((magic, state, below), absent, live) =
    (
      (m ∙ magic, s ∙ state, omega (arith, same)),
      subst (λ pid. PidAbsent g pid rest) (sym same)
          (PidAbsent-Alike f g (f p).pid rest alike absent),
      AllLive-Alike f g next_pid rest alike live,
    )

put-alike :
    (f : ℕ → Process) (p : ℕ) (process : Process) (q : ℕ)
    → process.magic ≡ (f p).magic
    → is_destroyed process.state ≡ is_destroyed (f p).state
    → process.pid ≡ (f p).pid
    → ((update f p process q).magic ≡ (f q).magic)
      × (is_destroyed (update f p process q).state ≡ is_destroyed (f q).state)
      × ((update f p process q).pid ≡ (f q).pid)
put-alike f p process q m s same = elim (ℕ_discrete p q) [
  | yes e ↦
      let here : update f p process q ≡ process = rw e (update_self f q process) in
      rw here (rw (← e) (m, s, same))
  | no e ↦ rw (update_other f p q process e) (refl, refl, refl)
]

Alike-put :
    (f : ℕ → Process) (p : ℕ) (process : Process) (ids : List ℕ)
    → process.magic ≡ (f p).magic
    → is_destroyed process.state ≡ is_destroyed (f p).state
    → process.pid ≡ (f p).pid
    → Alike f (update f p process) ids
Alike-put f p process [] m s same = tt
Alike-put f p process (q ∷ rest) m s same =
    (put-alike f p process q m s same, Alike-put f p process rest m s same)

-- A change of other fields of one process.
pub put-Valid :
    (t : Table) (ids : List ℕ) (p : ℕ) (process : Process)
    → process.magic ≡ (t.processes p).magic
    → is_destroyed process.state ≡ is_destroyed (t.processes p).state
    → process.pid ≡ (t.processes p).pid
    → Valid t ids
    → Valid (put p process t) ids
put-Valid t ids p process m s same v = record {
  chain = v.chain;
  live =
      AllLive-Alike t.processes (update t.processes p process) t.next_pid ids
        (Alike-put t.processes p process ids m s same) v.live;
  counted = v.counted;
}

pub AllLive-Live :
    (processes : ℕ → Process) (next_pid : ℕ) (p : ℕ) (ids : List ℕ)
    → Member p ids
    → AllLive processes next_pid ids
    → Live (processes p) next_pid
AllLive-Live processes next_pid p [] m live = absurd m
AllLive-Live processes next_pid p (q ∷ ids) (inl e) (here, _, _) = rw (← e) here
AllLive-Live processes next_pid p (q ∷ ids) (inr m) (_, _, live) =
    AllLive-Live processes next_pid p ids m live

pub validate_live_process_lem :
    (t : Table) (p : ℕ) → Live (t.processes p) t.next_pid → validate_live_process p t ≡ ok tt
unfolding validate_live_process
validate_live_process_lem t p (magic, state, _) = rw (magic, state) refl

PidAbsent-append :
    (f : ℕ → Process) (p : ℕ) (process : Process) (pid : ℕ) (ids : List ℕ)
    → Absent p ids
    → process.pid ≢ pid
    → PidAbsent f pid ids
    → PidAbsent (update f p process) pid (ids ++ (p ∷ []))
PidAbsent-append f p process pid [] absent apart alone =
    (subst (λ q. q.pid ≢ pid) (sym (update_self f p process)) apart, tt)
PidAbsent-append f p process pid (q ∷ ids) (differ, absent) apart (here, alone) = (
  subst (λ x. x.pid ≢ pid) (sym (update_other f p q process (λ e. differ (sym e)))) here,
  PidAbsent-append f p process pid ids absent apart alone,
)

-- A new process behind the others.
AllLive-append :
    (f : ℕ → Process) (next_pid : ℕ) (p : ℕ) (process : Process) (ids : List ℕ)
    → Absent p ids
    → Live process (next_pid + 1)
    → process.pid ≡ next_pid
    → AllLive f next_pid ids
    → AllLive (update f p process) (next_pid + 1) (ids ++ (p ∷ []))
AllLive-append f next_pid p process [] absent fresh same live =
    (subst (λ q. Live q (next_pid + 1)) (sym (update_self f p process)) fresh, tt, tt)
AllLive-append f next_pid p process (q ∷ ids) (differ, absent) fresh same
      ((magic, state, below), alone, live) =
    let kept : update f p process q ≡ f q = update_other f p q process (λ e. differ (sym e)) in
    let apart : process.pid ≢ (f q).pid = λ e. omega (arith, e, same, below) in
    (
      subst (λ x. Live x (next_pid + 1)) (sym kept) (magic, state, omega arith),
      subst (λ x. PidAbsent (update f p process) x.pid (ids ++ (p ∷ []))) (sym kept)
          (PidAbsent-append f p process (f q).pid ids absent apart alone),
      AllLive-append f next_pid p process ids absent fresh same live,
    )

-- What process_create_empty makes of an object that is not in the table: the last process of the table,
-- with the next pid, in the state PROCESS_NEW, without a parent and without files.
abbrev pub Created : (t : Table) → (ids : List ℕ) → (p : ℕ) → Result Table → Type 0
Created t ids p out =
    (t' : Table) × (out ≡ ok t')
    × Valid t' (ids ++ (p ∷ []))
    × (t'.processes p ≡ record {
      magic = process_magic;
      pid = t.next_pid;
      parent_pid = 0;
      state = new;
      exit_code = 0xffffffff;
      exited = false;
      kill_requested = false;
      fds = λ fd. none;
    })
    × (t'.next_pid ≡ t.next_pid + 1)

-- An object outside a valid table becomes its last process: live, with the next pid, without a parent, a
-- request to end or files. The table stays valid, so no other process has that pid. Neither the next pid
-- nor the number of processes may wrap.
pub process_create_empty-Created :
    (t : Table) (ids : List ℕ) (p : ℕ)
    → Valid t ids
    → Absent p ids
    → t.next_pid + 1 < 2 ^ 32
    → length ids + 1 < 2 ^ 32
    → Created t ids p (process_create_empty p t)
unfolding process_create_empty process_table_insert
process_create_empty-Created t ids p v absent more few =
    let process : Process = record {
      magic = process_magic;
      pid = t.next_pid;
      parent_pid = 0;
      state = new;
      exit_code = 0xffffffff;
      exited = false;
      kill_requested = false;
      fds = λ fd. none;
    } in
    let links = set_links t.links p unlinked in
    let chain : Holds (record { links = links; head = t.head; tail = t.tail }) ids =
      Chain-set_links t.links none ids t.head t.tail p unlinked absent v.chain in
    let own : update t.processes p process p ≡ process = update_self t.processes p process in
    let magic : (update t.processes p process p).magic ≡ process_magic =
      ap {A = Process} (λ q. q.magic) own in
    let q = push (record { links = links; head = t.head; tail = t.tail }) p in
    let wrap : (t.next_pid + 1) % 2 ^ 32 ≡ t.next_pid + 1 = omega arith in
    let counted : (t.count + 1) % 2 ^ 32 ≡ length (ids ++ (p ∷ [])) =
      omega (arith, v.counted, length-append {0} ids (p ∷ [])) in
    (
      record t {
        processes = update t.processes p process;
        links = q.links;
        head = q.head;
        tail = q.tail;
        count = (t.count + 1) % 2 ^ 32;
        next_pid = (t.next_pid + 1) % 2 ^ 32;
      },
      rw magic refl,
      record {
        chain =
            push-Holds (record { links = links; head = t.head; tail = t.tail }) p ids absent chain;
        live =
            subst (λ n. AllLive (update t.processes p process) n (ids ++ (p ∷ []))) (sym wrap)
              (AllLive-append t.processes t.next_pid p process ids absent (refl, refl, omega arith)
                refl v.live);
        counted = counted;
      },
      own,
      wrap,
    )
