-- ===== src/Thread/Nap.antt =====
-- thread_sleep_ticks: the running thread goes to sleep, and wakes after the ticks it asked for.
use toyix.Thread.{
  ready, running, sleeping, Scheduler, thread_sleep_ticks, clear_links, tick_reached,
}
use toyix.Thread.Valid.{active-Outside, other-Valid}
use toyix.Thread.Sleep.{insert_sleeper, sleep_insert-Valid}
use toyix.Thread.Alarm.{distance, insert_sleeper-Window, Window-update}
use toyix.Thread.Wake.{Ticking, Listed, run_ticks, run_ticks-state}
use toyix.Prelude.{
  ℕ, ◌+◌, ◌%◌, ◌^◌, ◌<◌, ◌≤◌, ◌≡◌, ◌≢◌, inl, inr, refl, ◌==◌, if◌then◌else◌, List, [], ◌∷◌, length,
  update, ok, ◌>>=◌, true, Bool-cases, arith,
}

length-insert_sleeper :
    (wake : ℕ → ℕ) (x : ℕ) (ids : List ℕ) → length (insert_sleeper wake x ids) ≡ length ids + 1
length-insert_sleeper wake x [] = omega arith
length-insert_sleeper wake x (t ∷ rest) = ground (arith, length-insert_sleeper wake x rest)

Listed-insert_sleeper : (wake : ℕ → ℕ) (x : ℕ) (ids : List ℕ) → Listed x (insert_sleeper wake x ids)
Listed-insert_sleeper wake x [] = inl refl
Listed-insert_sleeper wake x (t ∷ rest) = elim (Bool-cases (tick_reached (wake t) (wake x))) [
  | inl e ↦ rw e (inl refl)
  | inr e ↦ rw e (inr (Listed-insert_sleeper wake x rest))
]

-- The running thread, unless it is the idle thread, is put among the sleepers with its tick as far away
-- as it asked for, which is less than 2^31 ticks.
pub thread_sleep_ticks-Ticking :
    {rounds n : ℕ} {s : Scheduler} {readies sleepers zombies : List ℕ}
    → Ticking rounds s readies sleepers zombies
    → length sleepers + 1 < rounds
    → s.state s.current ≡ running
    → s.current ≢ s.idle
    → 0 < n
    → n < 2 ^ 31
    → (s' : Scheduler) × (out : List ℕ) × (thread_sleep_ticks rounds n s ≡ ok s')
      × Ticking rounds s' readies out zombies
      × Listed s.current out
      × (distance s'.ticks (s'.wake_tick s.current) ≡ n)
unfolding thread_sleep_ticks
thread_sleep_ticks-Ticking {rounds} {n} {s} {readies} {sleepers} {zombies} t room active ne low
      high =
    let x : ℕ = s.current in
    let w : ℕ = (s.ticks + n) % 2 ^ 32 in
    let wake = update s.wake_tick x w in
    let v = other-Valid t.valid s.esp wake s.ticks s.slice_ticks s.zombie_created s.reschedule in
    let outside =
      active-Outside t.valid x (rw active (λ e. cc)) (rw active (λ e. cc)) (rw active (λ e. cc)) in
    let (out, p, v1) = sleep_insert-Valid rounds x t.few v outside t.valid.current_magic ne in
    let own : wake x ≡ w = ground arith in
    let away : distance s.ticks w ≡ n = ground (arith, t.small) in
    (
      record (clear_links x (record s { wake_tick = wake })) {
        links = out.0;
        sleep_queue = out.1;
        reschedule = true;
      },
      insert_sleeper wake x sleepers,
      ground (arith, t.valid.current_magic, p),
      record {
        valid = other-Valid v1 s.esp wake s.ticks s.slice_ticks s.zombie_created true;
        window =
            insert_sleeper-Window s.ticks wake x 1 sleepers t.small (rw own (omega arith))
              (rw (own, away) low) (rw (own, away) high)
              (Window-update s.ticks s.wake_tick x w 1 sleepers (outside.1) t.window);
        started = t.started;
        small = t.small;
        few = omega (arith, room, length-insert_sleeper wake x sleepers);
      },
      Listed-insert_sleeper wake x sleepers,
      rw own away,
    )

-- A thread that sleeps for `n` ticks, at least 1 and less than 2^31, is asleep after fewer than `n`
-- timer ticks, and ready after `n`.
pub sleep_ticks-state :
    {rounds n : ℕ} {s : Scheduler} {readies sleepers zombies : List ℕ} (k : ℕ)
    → Ticking rounds s readies sleepers zombies
    → length sleepers + 1 < rounds
    → s.state s.current ≡ running
    → s.current ≢ s.idle
    → 0 < n
    → n < 2 ^ 31
    → k ≤ n
    → (s' : Scheduler) × ((thread_sleep_ticks rounds n s >>= run_ticks rounds k) ≡ ok s')
      × (s'.state s.current ≡ (if k == n then ready else sleeping))
sleep_ticks-state {rounds} {n} {s} k t room active ne low high le =
    let (s1, out, p, t1, listed, away) = thread_sleep_ticks-Ticking t room active ne low high in
    let (s2, q, st) = run_ticks-state n k s.current t1 listed away le in
    (s2, ground (arith, p, q), st)
