-- ===== src/Process/Ending/Destroy.antt =====
-- process_destroy takes an ended process out of the table.
use toyix.WaitQueue.Order.{Chain, Holds}
use toyix.Process.{
  destroyed, is_zombie, process_magic, Process, Table, put, link_next, or_else,
  process_table_remove,
}
use toyix.Process.Chain.{Member, without, spliced, link_next-other, Member-Absent, Chain-spliced}
use toyix.Process.Valid.{
  Live, AllLive, Valid, AllLive-Alike, AllLive-Live, validate_live_process_lem,
}
use toyix.Process.Descriptors.{open_files, cleared, process_close_all_files}
use toyix.Process.Descriptors.Files.{close_all_lem}
use toyix.Process.Ending.{process_destroy}
use toyix.Process.Ending.Orphans.{
  unparented, orphaned, orphan_from-orphaned, orphaned-inside, Alike-orphaned,
}
use toyix.Process.Ending.Removal.{
  prev_self, head-is_first, length-without, AllLive-without, Member-without, Absent-self,
  Alike-outside,
}
use toyix.Prelude.{
  ℕ, ◌-◌, ◌<◌, ◌≡◌, ◌≢◌, inl, inr, refl, sym, ap, ◌∙◌, subst, true, false, ◌||◌, ◌==◌,
  if◌then◌else◌, Bool-cases, none, update, update_other, Result, ok, panic, ◌>>=◌, List, length,
  arith,
}

-- The table after process_table_remove.
process_table_remove-spliced :
    (t : Table) (ids : List ℕ) (p : ℕ)
    → Holds (record { links = t.links; head = t.head; tail = t.tail }) ids
    → Member p ids
    → (t.processes p).magic ≡ process_magic
    → t.count ≡ length ids
    → (t' : Table) × (process_table_remove p t ≡ ok t')
      × (t'.processes ≡ t.processes)
      × (t'.next_pid ≡ t.next_pid)
      × Holds (record { links = t'.links; head = t'.head; tail = t'.tail }) (without p ids)
      × (t'.count ≡ length (without p ids))
unfolding process_table_remove
process_table_remove-spliced t ids p chain m magic counted =
    let prev = (t.links p).prev in
    let next = (t.links p).next in
    let same : link_next t.links prev next p ≡ t.links p =
      link_next-other t.links prev next p
        (prev_self t.links none ids t.head t.tail p chain m (λ e. ground arith)) in
    let magic' : ((t.processes p).magic == process_magic) ≡ true = rw magic refl in
    (
      record t {
        links = spliced t.links p;
        head = or_else prev next t.head;
        tail = or_else next prev t.tail;
        count = t.count - 1;
      },
      rw (magic', same) refl,
      refl,
      refl,
      subst (λ h. Chain (spliced t.links p) none (without p ids) h (or_else next prev t.tail))
          (sym (head-is_first t.links ids t.head t.tail p chain m))
          (Chain-spliced t.links none ids t.head t.tail p chain m tt),
      omega (arith, counted, length-without p ids m),
    )

-- What process_destroy leaves of a process that has ended: its files, in the order in which they are
-- closed, and the table without it, in which its children have lost their parent and nothing else has
-- changed.
abbrev pub Destroyed : Table → List ℕ → (p : ℕ) → Result (List ℕ × Table) → Type 0
Destroyed t ids p out =
    (t' : Table) × (out ≡ ok (open_files 13 3 (t.processes p).fds, t'))
    × Valid t' (without p ids)
    × ((q : ℕ)
        → Member q (without p ids)
        → t'.processes q ≡ unparented (t.processes p).pid (t.processes q))

-- Closing the files of the removed process and marking it as destroyed.
close-Destroyed :
    (t t' : Table) (ids : List ℕ) (p : ℕ)
    → Valid t ids
    → Member p ids
    → t'.processes ≡ orphaned (t.processes p).pid ids t.processes
    → t'.next_pid ≡ t.next_pid
    → Holds (record { links = t'.links; head = t'.head; tail = t'.tail }) (without p ids)
    → t'.count ≡ length (without p ids)
    → Destroyed t ids p (
        process_close_all_files p t' >>= (λ out. ok (
          out.0,
          put p
              (record (out.1.processes p) { state = destroyed; kill_requested = false; magic = 0 })
              out.1,
        )))
close-Destroyed t t' ids p v m processes next chain counted =
    let pid = (t.processes p).pid in
    let inside = orphaned-inside pid t.links none ids t.head t.tail t.processes p v.chain m in
    let own : t'.processes p ≡ unparented pid (t.processes p) =
      ap (λ (f : ℕ → Process). f p) processes ∙ inside in
    let live = AllLive-Live t.processes t.next_pid p ids m v.live in
    let live' : Live (t'.processes p) t'.next_pid =
      subst (λ n. Live (t'.processes p) n) (sym next)
        (subst (λ q. Live q t.next_pid) (sym own) live) in
    let files : (t'.processes p).fds ≡ (t.processes p).fds = ap {A = Process} (λ q. q.fds) own in
    let closed : Process = record (t'.processes p) { fds = cleared (t'.processes p).fds } in
    let first = update t'.processes p closed in
    let ended : Process = record (first p) {
      state = destroyed;
      kill_requested = false;
      magic = 0;
    } in
    let final = update first p ended in
    let outside = Absent-self t.links none ids t.head t.tail p v.chain in
    let rest = without p ids in
    let alike =
      Alike-orphaned pid t.links none ids t.head t.tail t.processes rest v.chain
        (λ q n. Member-without p q ids n) in
    let live_rest : AllLive t'.processes t.next_pid rest =
      subst (λ f. AllLive f t.next_pid rest) (sym processes)
        (AllLive-Alike t.processes (orphaned pid ids t.processes) t.next_pid rest alike
          (AllLive-without t.processes t.next_pid p ids v.live)) in
    let live_first =
      AllLive-Alike t'.processes first t.next_pid rest
        (Alike-outside t'.processes p closed rest outside) live_rest in
    let live_final =
      AllLive-Alike first final t.next_pid rest (Alike-outside first p ended rest outside)
        live_first in
    (
      record t' { processes = final },
      rw (close_all_lem t' p live')
          (ap (λ f. ok (open_files 13 3 f, record t' { processes = final })) files),
      record {
        chain = chain;
        live = subst (λ n. AllLive final n rest) (sym next) live_final;
        counted = counted;
      },
      λ q n.
          let differ : p ≢ q = λ e. Member-Absent q p rest n outside (sym e) in
          update_other first p q ended differ
          ∙ update_other t'.processes p q closed differ
          ∙ ap (λ (f : ℕ → Process). f q) processes
          ∙ orphaned-inside pid t.links none ids t.head t.tail t.processes q v.chain
              (Member-without p q ids n),
    )

-- A process of the table that has not ended cannot be destroyed: that is a panic. One that has is taken
-- out of the table, its files are closed, and its children have no parent any more.
pub process_destroy-Destroyed :
    (rounds : ℕ) (t : Table) (ids : List ℕ) (p : ℕ)
    → length ids < rounds
    → Valid t ids
    → Member p ids
    → (if (t.processes p).exited || is_zombie (t.processes p).state
        then Destroyed t ids p (process_destroy rounds p t)
        else (process_destroy rounds p t ≡ panic))
unfolding process_destroy
process_destroy-Destroyed rounds t ids p few v m =
    let live = AllLive-Live t.processes t.next_pid p ids m v.live in
    let valid = validate_live_process_lem t p live in
    let pid = (t.processes p).pid in
    let t1 : Table = record t { processes = orphaned pid ids t.processes } in
    let looped = orphan_from-orphaned rounds pid t none ids t.head few v.chain in
    let own = orphaned-inside pid t.links none ids t.head t.tail t.processes p v.chain m in
    let magic : (t1.processes p).magic ≡ process_magic =
      ap {A = Process} (λ q. q.magic) own ∙ live.0 in
    let (t2, removed, processes, next, chain, counted) =
      process_table_remove-spliced t1 ids p v.chain m magic v.counted in
    elim (Bool-cases ((t.processes p).exited || is_zombie (t.processes p).state)) [
      | inl e ↦
          rw (valid, e, looped, removed)
            (close-Destroyed t t2 ids p v m processes next chain counted)
      | inr e ↦ rw (valid, e) refl
    ]
