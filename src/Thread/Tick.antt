-- ===== src/Thread/Tick.antt =====
-- The timer tick: which sleepers wake_due_sleepers makes ready.
use toyix.Thread.{
  Scheduler, thread_magic, tick_reached, enqueue_ready, ready_push, sleep_pop_front, wake_first,
  is_due, wake_due_sleepers,
}
use toyix.Thread.Valid.{Valid, other-Valid, Kept, Kept-refl, Kept-trans}
use toyix.Thread.Ready.{enqueue_ready-Valid, sleep_pop_front-Valid}
use toyix.Prelude.{
  append_cons, ℕ, zero, suc, ◌<◌, ◌≡◌, ◌≢◌, inl, inr, refl, sym, ap, subst, ◌∙◌, if◌then◌else◌,
  List, [], ◌∷◌, ◌++◌, length, Option, none, some, ok, true, Bool-cases, arith,
}

-- The sleepers at the front whose tick has come, and those behind them.
abbrev pub due : (now : ℕ) → (ℕ → ℕ) → List ℕ → List ℕ
due now wake [] = []
due now wake (t ∷ rest) = if tick_reached now (wake t) then t ∷ due now wake rest else []

abbrev pub not_due : (now : ℕ) → (ℕ → ℕ) → List ℕ → List ℕ
not_due now wake [] = []
not_due now wake (t ∷ rest) = if tick_reached now (wake t) then not_due now wake rest else t ∷ rest

append-nil : (a : List ℕ) → a ++ [] ≡ a
append-nil [] = refl
append-nil (x ∷ a) = ap (λ l. x ∷ l) (append-nil a)

wake_first_lem :
    (s : Scheduler) (t : ℕ) (out : Option ℕ × Scheduler)
    → out.0 ≡ some t
    → out.1.magic t ≡ thread_magic
    → t ≢ out.1.idle
    → wake_first s out ≡ ok (record (enqueue_ready t out.1) { reschedule = true })
unfolding wake_first ready_push
wake_first_lem s t (none, popped) e m ne = absurd (ground arith)
wake_first_lem s t (some u, popped) e m ne =
    let same : u ≡ t = ground arith in rw same (ground arith)

-- One round: the first sleeper becomes ready.
wake_first-Valid :
    {s : Scheduler} (t : ℕ) {readies sleepers zombies : List ℕ}
    → Valid s readies (t ∷ sleepers) zombies
    → (s' : Scheduler) × (wake_first s (sleep_pop_front s) ≡ ok s')
      × Valid s' (readies ++ (t ∷ [])) sleepers zombies
      × Kept s s'
unfolding sleep_pop_front enqueue_ready
wake_first-Valid {s} t {readies} {sleepers} {zombies} v =
    let (first, popped, outside) = sleep_pop_front-Valid t v in
    let m : s.magic t ≡ thread_magic = v.sleep_in.0.1 in
    let ne : t ≢ s.idle = v.sleep_in.0.2 in
    (
      record (enqueue_ready t (sleep_pop_front s).1) { reschedule = true },
      wake_first_lem s t (sleep_pop_front s) first m ne,
      other-Valid (enqueue_ready-Valid popped t m ne outside) s.esp s.wake_tick s.ticks
          s.slice_ticks s.zombie_created true,
      record { ticks = refl; wake_tick = refl; initialized = refl },
    )

-- The loop makes the sleepers at the front ready whose tick has come, in their order.
pub wake_due_sleepers-Valid :
    (rounds : ℕ) (s : Scheduler) (readies sleepers zombies : List ℕ)
    → length sleepers < rounds
    → Valid s readies sleepers zombies
    → (s' : Scheduler) × (wake_due_sleepers rounds s ≡ ok s')
      × Valid s'
          (readies ++ due s.ticks s.wake_tick sleepers)
          (not_due s.ticks s.wake_tick sleepers)
          zombies
      × Kept s s'
unfolding wake_due_sleepers is_due
wake_due_sleepers-Valid zero s readies sleepers zombies lt v = absurd (omega arith)
wake_due_sleepers-Valid (suc rounds) s readies [] zombies lt v = (
  s,
  ground (arith, ap (is_due s) v.sleep_chain.0),
  subst (λ l. Valid s l [] zombies) (sym (append-nil readies)) v,
  Kept-refl s,
)
wake_due_sleepers-Valid (suc rounds) s readies (t ∷ rest) zombies lt v =
    let first_due : is_due s s.sleep_queue.head ≡ tick_reached s.ticks (s.wake_tick t) =
      ap (is_due s) v.sleep_chain.0 in
    elim (Bool-cases (tick_reached s.ticks (s.wake_tick t))) [
      | inl e ↦
          let (s1, p, v1, k1) = wake_first-Valid t v in
          let (s2, q, v2, k2) =
            wake_due_sleepers-Valid rounds s1 (readies ++ (t ∷ [])) rest zombies (omega arith) v1 in
          let now : s1.ticks ≡ s.ticks = k1.ticks in
          let v3 =
            subst
              (λ now.
                Valid s2 ((readies ++ (t ∷ [])) ++ due now s1.wake_tick rest)
                  (not_due now s1.wake_tick rest) zombies)
              k1.ticks v2 in
          let v4 =
            subst
              (λ wake.
                Valid s2 ((readies ++ (t ∷ [])) ++ due s.ticks wake rest)
                  (not_due s.ticks wake rest) zombies)
              k1.wake_tick v3 in
          let v5 =
            subst (λ l. Valid s2 l (not_due s.ticks s.wake_tick rest) zombies)
              (append_cons readies t (due s.ticks s.wake_tick rest)) v4 in
          (
            s2,
            rw (first_due ∙ e, wake_due_sleepers) (ground (arith, p, q)),
            rw e v5,
            Kept-trans k1 k2,
          )
      | inr e ↦ (
        s,
        rw (first_due ∙ e, wake_due_sleepers) refl,
        rw e (subst (λ l. Valid s l (t ∷ rest) zombies) (sym (append-nil readies)) v),
        Kept-refl s,
      )
    ]
