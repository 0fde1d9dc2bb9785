-- ===== src/Thread/Fair.antt =====
-- The ready queue is served in turn.
use toyix.Thread.{Scheduler, schedule}
use toyix.Thread.Valid.{Valid}
use toyix.Thread.Schedule.{requeues, requeued, framed, schedule-Decided}
use toyix.Prelude.{
  ℕ, inl, inr, ◌+◌, ◌≡◌, refl, ap, subst, ◌∙◌, List, [], ◌∷◌, ◌++◌, length, Result, ok, ◌>>=◌, true,
  Bool-cases, arith,
}

-- Scheduler interrupts, one for each frame.
pub run_schedules : List ℕ → Scheduler → Result Scheduler
run_schedules [] s = ok s
run_schedules (frame ∷ frames) s = schedule frame s >>= (λ out. run_schedules frames out.1)

append_tail :
    (pre : List ℕ) (x : ℕ) (post rest : List ℕ)
    → (pre ++ (x ∷ post)) ++ rest ≡ pre ++ (x ∷ (post ++ rest))
append_tail [] x post rest = refl
append_tail (t ∷ pre) x post rest = ap (λ l. t ∷ l) (append_tail pre x post rest)

-- The threads before `x` are not more than before, whatever is put behind the queue.
requeued-append :
    (s : Scheduler) (pre : List ℕ) (x : ℕ) (post : List ℕ)
    → (post' : List ℕ) × (requeued s (pre ++ (x ∷ post)) ≡ pre ++ (x ∷ post'))
requeued-append s pre x post = elim (Bool-cases (requeues s)) [
  | inl e ↦ (post ++ (s.current ∷ []), rw e (append_tail pre x post (s.current ∷ [])))
  | inr e ↦ (post, rw e refl)
]

-- A ready thread runs after as many scheduler interrupts as there are threads before it, and one more.
pub run_schedules-current :
    (pre frames : List ℕ) (x : ℕ) (post : List ℕ) (s : Scheduler) (sleepers zombies : List ℕ)
    → s.initialized ≡ true
    → Valid s (pre ++ (x ∷ post)) sleepers zombies
    → length frames ≡ length pre + 1
    → (s' : Scheduler) × (run_schedules frames s ≡ ok s') × (s'.current ≡ x)
unfolding run_schedules
run_schedules-current pre [] x post s sleepers zombies started v e = absurd (omega arith)
run_schedules-current [] (frame ∷ []) x post s sleepers zombies started v e =
    let (out, p, (_, current, _, _, _), _) = schedule-Decided frame (x ∷ post) started v in
    (out.1, rw p refl, current)
run_schedules-current [] (frame ∷ f ∷ frames) x post s sleepers zombies started v e =
    absurd (omega arith)
run_schedules-current (t ∷ pre) (frame ∷ frames) x post s sleepers zombies started v e =
    let (out, p, (_, _, _, same, v1), _) =
      schedule-Decided frame (t ∷ pre ++ (x ∷ post)) started v in
    let (post', q) = requeued-append (framed frame s) pre x post in
    let (s', r, current) =
      run_schedules-current pre frames x post' out.1 sleepers zombies (same.initialized ∙ started)
        (subst (λ l. Valid out.1 l sleepers zombies) q v1) (omega arith) in
    (s', rw p r, current)
