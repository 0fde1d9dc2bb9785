-- ===== src/Thread/Sleep.antt =====
-- A thread that goes to sleep is put among the sleepers by its tick (sleep_insert).
use toyix.WaitQueue.{Links, set_links, push}
use toyix.WaitQueue.Order.{Absent, Chain, Chain-set_links, Chain-tail, push-Holds}
use toyix.WaitQueue.Frame.{Same, Chain-Same, push-Same}
use toyix.Thread.{
  State, ready, sleeping, zombie, Scheduler, Ends, queue, ends_of, thread_magic, tick_reached,
  find_later, place, place_last, place_between, link_between, link_before_head, clear_links,
  insert_from, sleep_insert,
}
use toyix.Thread.Valid.{AllIn, Valid, AllIn-Absent, AllIn-Apart, AllIn-update, Outside}
use toyix.Thread.Insert.{
  last_of, link_between-Chain, link_between-Same, link_before_head-Chain, link_before_head-Same,
}
use toyix.Prelude.{
  ℕ, zero, suc, ◌<◌, ◌≡◌, ◌≢◌, inl, inr, refl, sym, ap, subst, ◌∙◌, ◌==◌, if◌then◌else◌, List, [],
  ◌∷◌, ◌++◌, length, Option, none, some, ok, false, Bool-cases, Option-cases, arith,
}

-- The thread before the first sleeper whose tick is not before its own.
abbrev pub insert_sleeper : (ℕ → ℕ) → ℕ → List ℕ → List ℕ
insert_sleeper wake x [] = x ∷ []
insert_sleeper wake x (t ∷ rest) =
    if tick_reached (wake t) (wake x) then x ∷ t ∷ rest else t ∷ insert_sleeper wake x rest

-- That sleeper.
abbrev first_later : (ℕ → ℕ) → (tick : ℕ) → List ℕ → Option ℕ
first_later wake tick [] = none
first_later wake tick (t ∷ rest) =
    if tick_reached (wake t) tick then some t else first_later wake tick rest

find_later_lem :
    (rounds : ℕ) (s : Scheduler) (tick : ℕ) (before head tail : Option ℕ) (ids : List ℕ)
    → length ids < rounds
    → Chain s.links before ids head tail
    → find_later rounds s tick head ≡ ok (first_later s.wake_tick tick ids)
unfolding find_later
find_later_lem zero s tick before head tail ids lt chain = absurd (omega arith)
find_later_lem (suc rounds) s tick before head tail [] lt (h, _) = rw h refl
find_later_lem (suc rounds) s tick before head tail (t ∷ rest) lt (h, _, _, chain) =
    rw h (elim (Bool-cases (tick_reached (s.wake_tick t) tick)) [
      | inl e ↦ rw (e, find_later) refl
      | inr e ↦
          rw (e, find_later)
            (find_later_lem rounds s tick (some t) (s.links t).next tail rest (omega arith) chain)
    ])

-- Where the search stops.
data Spot (wake : ℕ → ℕ) (x : ℕ) (ids : List ℕ) : Type 0 where
  behind :
      first_later wake (wake x) ids ≡ none
      → insert_sleeper wake x ids ≡ ids ++ (x ∷ [])
      → Spot wake x ids
  between :
      (pre : List ℕ) (y : ℕ) (post : List ℕ)
      → ids ≡ pre ++ (y ∷ post)
      → first_later wake (wake x) ids ≡ some y
      → insert_sleeper wake x ids ≡ pre ++ (x ∷ y ∷ post)
      → Spot wake x ids

Spot-cons :
    (wake : ℕ → ℕ) (x t : ℕ) (rest : List ℕ)
    → tick_reached (wake t) (wake x) ≡ false
    → Spot wake x rest
    → Spot wake x (t ∷ rest)
Spot-cons wake x t rest e (behind a b) = behind (rw e a) (rw e (ap (λ l. t ∷ l) b))
Spot-cons wake x t rest e (between pre y post d a b) =
    between (t ∷ pre) y post (ap (λ l. t ∷ l) d) (rw e a) (rw e (ap (λ l. t ∷ l) b))

spot : (wake : ℕ → ℕ) (x : ℕ) (ids : List ℕ) → Spot wake x ids
spot wake x [] = behind refl refl
spot wake x (t ∷ rest) = elim (Bool-cases (tick_reached (wake t) (wake x))) [
  | inl e ↦ between [] t rest refl (rw e refl) (rw e refl)
  | inr e ↦ Spot-cons wake x t rest e (spot wake x rest)
]

AllIn-last_of :
    (state : ℕ → State) (magic : ℕ → ℕ) (idle : ℕ) (st : State) (t : ℕ) (us rest : List ℕ)
    → AllIn state magic idle st (t ∷ us ++ rest)
    → state (last_of t us) ≡ st
AllIn-last_of state magic idle st t [] rest ((e, _, _), _) = e
AllIn-last_of state magic idle st t (u ∷ us) rest (_, all) =
    AllIn-last_of state magic idle st u us rest all

AllIn-drop :
    (state : ℕ → State) (magic : ℕ → ℕ) (idle : ℕ) (st : State) (us rest : List ℕ)
    → AllIn state magic idle st (us ++ rest)
    → AllIn state magic idle st rest
AllIn-drop state magic idle st [] rest all = all
AllIn-drop state magic idle st (u ∷ us) rest (_, all) = AllIn-drop state magic idle st us rest all

Absent-append_head :
    (t : ℕ) (us : List ℕ) (y : ℕ) (post : List ℕ) → Absent t (us ++ (y ∷ post)) → y ≢ t
Absent-append_head t [] y post (ne, _) = ne
Absent-append_head t (u ∷ us) y post (_, absent) = Absent-append_head t us y post absent

-- The links and ends that the insertion leaves: the sleepers with the thread among them, and the other
-- queues as they were.
record Placed (s : Scheduler) (readies sleepers zombies : List ℕ) (out : (ℕ → Links) × Ends)
    : Type 0 where
  chain : Chain out.0 none sleepers out.1.head out.1.tail
  readies_same : Same s.links out.0 readies
  zombies_same : Same s.links out.0 zombies

module _ {s : Scheduler} {readies zombies : List ℕ} where
  place-behind :
      (start first : ℕ) (rest : List ℕ) (x : ℕ)
      → Valid s readies (first ∷ rest) zombies
      → Outside x readies (first ∷ rest) zombies
      → (out : (ℕ → Links) × Ends) × (place s start x none ≡ ok out)
        × Placed s readies (first ∷ rest ++ (x ∷ [])) zombies out
  unfolding place place_last
  place-behind start first rest x v (a, b, c) = elim (Option-cases s.sleep_queue.tail) [
    | inl e ↦
        absurd
          (Chain-tail s.links none first rest s.sleep_queue.head s.sleep_queue.tail v.sleep_chain e)
    | inr (last, e) ↦
        let q = push (queue s s.sleep_queue) x in
        (
          (q.links, ends_of q),
          ap (place_last s x) e,
          record {
            chain = push-Holds (queue s s.sleep_queue) x (first ∷ rest) b v.sleep_chain;
            readies_same =
                push-Same (queue s s.sleep_queue) x (first ∷ rest) readies v.sleep_chain b a (
                  AllIn-Apart s.state s.magic s.idle ready sleeping readies (first ∷ rest)
                    v.ready_in v.sleep_in (λ e. cc));
            zombies_same =
                push-Same (queue s s.sleep_queue) x (first ∷ rest) zombies v.sleep_chain b c (
                  AllIn-Apart s.state s.magic s.idle zombie sleeping zombies (first ∷ rest)
                    v.zombie_in v.sleep_in (λ e. cc));
          },
        )
  ]

  place-first :
      (y : ℕ) (post : List ℕ) (x : ℕ)
      → Valid s readies (y ∷ post) zombies
      → Outside x readies (y ∷ post) zombies
      → (out : (ℕ → Links) × Ends) × (place s y x (some y) ≡ ok out)
        × Placed s readies (x ∷ y ∷ post) zombies out
  unfolding place
  place-first y post x v (a, b, c) =
      let asleep : s.state y ≡ sleeping = v.sleep_in.0.0 in
      (
        link_before_head s.links s.sleep_queue y x,
        ground arith,
        record {
          chain = link_before_head-Chain s.links s.sleep_queue y post x b v.sleep_chain;
          readies_same =
              link_before_head-Same s.links s.sleep_queue y x readies
                (AllIn-Absent s.state s.magic s.idle ready y readies v.ready_in
                  (rw asleep (λ e. cc)))
                a;
          zombies_same =
              link_before_head-Same s.links s.sleep_queue y x zombies
                (AllIn-Absent s.state s.magic s.idle zombie y zombies v.zombie_in
                  (rw asleep (λ e. cc)))
                c;
        },
      )

  place-middle :
      (t : ℕ) (us : List ℕ) (y : ℕ) (post : List ℕ) (x : ℕ)
      → Valid s readies (t ∷ us ++ (y ∷ post)) zombies
      → Outside x readies (t ∷ us ++ (y ∷ post)) zombies
      → (out : (ℕ → Links) × Ends) × (place s t x (some y) ≡ ok out)
        × Placed s readies (t ∷ us ++ (x ∷ y ∷ post)) zombies out
  unfolding place place_between
  place-middle t us y post x v (a, b, c) =
      let (before, chain) =
        link_between-Chain s.links none t us y post s.sleep_queue.head s.sleep_queue.tail x b
          v.sleep_chain in
      let asleep : s.state y ≡ sleeping =
        (AllIn-drop s.state s.magic s.idle sleeping (t ∷ us) (y ∷ post) v.sleep_in).0.0 in
      let last_asleep : s.state (last_of t us) ≡ sleeping =
        AllIn-last_of s.state s.magic s.idle sleeping t us (y ∷ post) v.sleep_in in
      let others : y ≢ t = Absent-append_head t us y post v.sleep_chain.2 in
      let not_first : (y == t) ≡ false = ground arith in
      (
        (link_between s.links (last_of t us) y x, s.sleep_queue),
        rw not_first (ap (place_between s y x) before),
        record {
          chain = chain;
          readies_same =
              link_between-Same s.links (last_of t us) y x readies
                (AllIn-Absent s.state s.magic s.idle ready (last_of t us) readies v.ready_in
                  (rw last_asleep (λ e. cc)))
                (AllIn-Absent s.state s.magic s.idle ready y readies v.ready_in
                  (rw asleep (λ e. cc)))
                a;
          zombies_same =
              link_between-Same s.links (last_of t us) y x zombies
                (AllIn-Absent s.state s.magic s.idle zombie (last_of t us) zombies v.zombie_in
                  (rw last_asleep (λ e. cc)))
                (AllIn-Absent s.state s.magic s.idle zombie y zombies v.zombie_in
                  (rw asleep (λ e. cc)))
                c;
        },
      )

  place-Placed :
      (first x : ℕ) (ids : List ℕ)
      → Valid s readies ids zombies
      → Outside x readies ids zombies
      → s.sleep_queue.head ≡ some first
      → Spot s.wake_tick x ids
      → (out : (ℕ → Links) × Ends) × (place s first x (first_later s.wake_tick (s.wake_tick x) ids)
          ≡ ok out)
        × Placed s readies (insert_sleeper s.wake_tick x ids) zombies out
  place-Placed first x [] v outside h (behind e f) = absurd (ground (arith, v.sleep_chain.0))
  place-Placed first x (t ∷ rest) v outside h (behind e f) =
      let (out, p, d) = place-behind first t rest x v outside in
      (out, ap (place s first x) e ∙ p, subst (λ ids. Placed s readies ids zombies out) (sym f) d)
  place-Placed first x ids v outside h (between [] y post d e f) =
      let v' = subst (λ ids. Valid s readies ids zombies) d v in
      let same : first ≡ y = ground (arith, v'.sleep_chain.0) in
      let (out, p, placed) =
        place-first y post x v' (subst (λ ids. Outside x readies ids zombies) d outside) in
      (
        out,
        ap (place s first x) e ∙ ap (λ start. place s start x (some y)) same ∙ p,
        subst (λ ids. Placed s readies ids zombies out) (sym f) placed,
      )
  place-Placed first x ids v outside h (between (t ∷ us) y post d e f) =
      let v' = subst (λ ids. Valid s readies ids zombies) d v in
      let same : first ≡ t = ground (arith, v'.sleep_chain.0) in
      let (out, p, placed) =
        place-middle t us y post x v' (subst (λ ids. Outside x readies ids zombies) d outside) in
      (
        out,
        ap (place s first x) e ∙ ap (λ start. place s start x (some y)) same ∙ p,
        subst (λ ids. Placed s readies ids zombies out) (sym f) placed,
      )

  -- The thread marked as asleep, which stands in no queue yet.
  clear_links-Valid :
      (x : ℕ) (sleepers : List ℕ)
      → x ≢ s.idle
      → Valid s readies sleepers zombies
      → Outside x readies sleepers zombies
      → Valid (clear_links x s) readies sleepers zombies
  clear_links-Valid x sleepers ne v (a, b, c) =
      let cleared : Links = record { next = none; prev = none } in
      record {
        ready_chain =
            Chain-set_links s.links none readies s.ready_queue.head s.ready_queue.tail x cleared a
              v.ready_chain;
        sleep_chain =
            Chain-set_links s.links none sleepers s.sleep_queue.head s.sleep_queue.tail x cleared b
              v.sleep_chain;
        zombie_chain =
            Chain-set_links s.links none zombies s.zombie_queue.head s.zombie_queue.tail x cleared c
              v.zombie_chain;
        ready_in = AllIn-update s.state s.magic s.idle ready sleeping x readies a v.ready_in;
        sleep_in = AllIn-update s.state s.magic s.idle sleeping sleeping x sleepers b v.sleep_in;
        zombie_in = AllIn-update s.state s.magic s.idle zombie sleeping x zombies c v.zombie_in;
        current_magic = v.current_magic;
        idle_magic = v.idle_magic;
        idle_state = ground (arith, v.idle_state);
      }

AllIn-insert_sleeper :
    (state : ℕ → State) (magic : ℕ → ℕ) (idle : ℕ) (wake : ℕ → ℕ) (x : ℕ) (ids : List ℕ)
    → AllIn state magic idle sleeping ids
    → state x ≡ sleeping
    → magic x ≡ thread_magic
    → x ≢ idle
    → AllIn state magic idle sleeping (insert_sleeper wake x ids)
AllIn-insert_sleeper state magic idle wake x [] all e m ne = ((e, m, ne), tt)
AllIn-insert_sleeper state magic idle wake x (t ∷ rest) (here, all) e m ne =
    elim (Bool-cases (tick_reached (wake t) (wake x))) [
      | inl due ↦ rw due ((e, m, ne), (here, all))
      | inr not_due ↦
          rw not_due (here, AllIn-insert_sleeper state magic idle wake x rest all e m ne)
    ]

Same-refl : (links : ℕ → Links) (ids : List ℕ) → Same links links ids
Same-refl links [] = tt
Same-refl links (t ∷ rest) = (refl, Same-refl links rest)

Placed-Valid :
    {s : Scheduler} {readies sleepers zombies : List ℕ} (x : ℕ) (out : (ℕ → Links) × Ends)
    → Valid s readies sleepers zombies
    → s.state x ≡ sleeping
    → s.magic x ≡ thread_magic
    → x ≢ s.idle
    → Placed s readies (insert_sleeper s.wake_tick x sleepers) zombies out
    → Valid
        (record s { links = out.0; sleep_queue = out.1 })
        readies
        (insert_sleeper s.wake_tick x sleepers)
        zombies
Placed-Valid {s} {readies} {sleepers} {zombies} x out v e m ne placed = record {
  ready_chain =
      Chain-Same s.links out.0 none readies s.ready_queue.head s.ready_queue.tail
        placed.readies_same v.ready_chain;
  sleep_chain = placed.chain;
  zombie_chain =
      Chain-Same s.links out.0 none zombies s.zombie_queue.head s.zombie_queue.tail
        placed.zombies_same v.zombie_chain;
  ready_in = v.ready_in;
  sleep_in = AllIn-insert_sleeper s.state s.magic s.idle s.wake_tick x sleepers v.sleep_in e m ne;
  zombie_in = v.zombie_in;
  current_magic = v.current_magic;
  idle_magic = v.idle_magic;
  idle_state = v.idle_state;
}

insert_from-Valid :
    {s : Scheduler} {readies zombies : List ℕ} (rounds x : ℕ) (sleepers : List ℕ)
    → length sleepers < rounds
    → Valid s readies sleepers zombies
    → Outside x readies sleepers zombies
    → s.state x ≡ sleeping
    → s.magic x ≡ thread_magic
    → x ≢ s.idle
    → s.links x ≡ record { next = none; prev = none }
    → (out : (ℕ → Links) × Ends) × (insert_from rounds x s s.sleep_queue.head
        ≡ ok (record s { links = out.0; sleep_queue = out.1 }))
      × Valid
          (record s { links = out.0; sleep_queue = out.1 })
          readies
          (insert_sleeper s.wake_tick x sleepers)
          zombies
unfolding insert_from
insert_from-Valid {s} {readies} {zombies} rounds x [] lt v outside e m ne bare =
    let out : (ℕ → Links) × Ends = (s.links, record { head = some x; tail = some x }) in
    let placed : Placed s readies (x ∷ []) zombies out = record {
      chain = (refl, ap (λ l. l.prev) bare, tt, (ap (λ l. l.next) bare, refl));
      readies_same = Same-refl s.links readies;
      zombies_same = Same-refl s.links zombies;
    } in
    (out, ap (insert_from rounds x s) v.sleep_chain.0, Placed-Valid x out v e m ne placed)
insert_from-Valid {s} rounds x (t ∷ rest) lt v outside e m ne bare =
    let (out, p, placed) =
      place-Placed t x (t ∷ rest) v outside v.sleep_chain.0 (spot s.wake_tick x (t ∷ rest)) in
    let (_, before, alone, chain) = v.sleep_chain in
    let found =
      find_later_lem rounds s (s.wake_tick x) none (some t) s.sleep_queue.tail (t ∷ rest) lt
        (refl, before, alone, chain) in
    (
      out,
      ap (insert_from rounds x s) v.sleep_chain.0 ∙ ground (arith, found, p),
      Placed-Valid x out v e m ne placed,
    )

-- With more rounds than there are sleepers, a thread outside the queues is put before the first sleeper
-- whose tick is not before its own; nothing but its state, the links and the queue of sleepers changes.
pub sleep_insert-Valid :
    {s : Scheduler} {readies sleepers zombies : List ℕ} (rounds x : ℕ)
    → length sleepers < rounds
    → Valid s readies sleepers zombies
    → Outside x readies sleepers zombies
    → s.magic x ≡ thread_magic
    → x ≢ s.idle
    → (out : (ℕ → Links) × Ends) × (sleep_insert rounds x s
        ≡ ok (record (clear_links x s) { links = out.0; sleep_queue = out.1 }))
      × Valid
          (record (clear_links x s) { links = out.0; sleep_queue = out.1 })
          readies
          (insert_sleeper s.wake_tick x sleepers)
          zombies
unfolding sleep_insert set_links
sleep_insert-Valid {s} {readies} {sleepers} {zombies} rounds x lt v outside m ne =
    let (out, p, valid) =
      insert_from-Valid rounds x sleepers lt (clear_links-Valid x sleepers ne v outside) outside
        (ground arith) m ne (ground arith) in
    (out, ground (arith, p), valid)
