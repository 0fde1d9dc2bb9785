-- ===== src/Thread/Alarm.antt =====
-- Sleepers wake exactly at their tick. A tick is a 32-bit number that wraps, so the order of the sleepers
-- is by the distance of their ticks from the present one.
use toyix.WaitQueue.Order.{Absent}
use toyix.Thread.{tick_reached}
use toyix.Thread.Sleep.{insert_sleeper}
use toyix.Thread.Tick.{due, not_due}
use toyix.Prelude.{
  ℕ, ◌+◌, ◌-◌, ◌%◌, ◌^◌, ◌<◌, ◌≤◌, ◌≡◌, ◌⊎◌, inl, inr, refl, sym, ap, subst, ◌∙◌, ◌==◌,
  if◌then◌else◌, leb, List, [], ◌∷◌, update, false, Bool-cases, arith,
}

-- How many ticks from `now` the tick `target` is.
abbrev pub distance : (now target : ℕ) → ℕ
distance now target = (target + 2 ^ 32 - now) % 2 ^ 32

-- The sleepers' ticks are at least `low` and less than 2^31 ticks away, the nearer first.
abbrev pub Window : (now : ℕ) → (ℕ → ℕ) → (low : ℕ) → List ℕ → Type 0
Window now wake low [] = Unit
Window now wake low (t ∷ rest) =
    (wake t < 2 ^ 32)
    × (low ≤ distance now (wake t))
    × (distance now (wake t) < 2 ^ 31)
    × Window now wake (distance now (wake t)) rest

-- The sleepers whose tick is `now`, and the others.
abbrev pub ringing : (now : ℕ) → (ℕ → ℕ) → List ℕ → List ℕ
ringing now wake [] = []
ringing now wake (t ∷ rest) =
    if wake t == now then t ∷ ringing now wake rest else ringing now wake rest

abbrev pub quiet : (now : ℕ) → (ℕ → ℕ) → List ℕ → List ℕ
quiet now wake [] = []
quiet now wake (t ∷ rest) = if wake t == now then quiet now wake rest else t ∷ quiet now wake rest

abbrev pub after_tick : ℕ → ℕ
after_tick now = (now + 1) % 2 ^ 32

-- One tick brings a target nearer by one, and it is reached exactly when it is the present tick.
pub tick_nearer :
    (now w : ℕ)
    → now < 2 ^ 32
    → w < 2 ^ 32
    → 1 ≤ distance now w
    → distance now w < 2 ^ 31
    → (distance (after_tick now) w + 1 ≡ distance now w)
      × (tick_reached (after_tick now) w ≡ (w == after_tick now))
      × ((w ≡ after_tick now) ⊎ (2 ≤ distance now w))
tick_nearer now w hn hw low high = ground arith

far_ringing :
    (now : ℕ) (wake : ℕ → ℕ) (low : ℕ) (ids : List ℕ)
    → now < 2 ^ 32
    → 2 ≤ low
    → Window now wake low ids
    → (ringing (after_tick now) wake ids ≡ [])
      × (quiet (after_tick now) wake ids ≡ ids)
      × Window (after_tick now) wake (low - 1) ids
far_ringing now wake low [] hn two window = (refl, refl, tt)
far_ringing now wake low (t ∷ rest) hn two (hw, lo, hi, window) =
    let (nearer, _, _) = tick_nearer now (wake t) hn hw (omega arith) hi in
    let (a, b, c) = far_ringing now wake (distance now (wake t)) rest hn (omega arith) window in
    let other : (wake t == after_tick now) ≡ false = ground arith in
    (
      rw other a,
      rw other (ap (λ l. t ∷ l) b),
      (
        hw,
        omega arith,
        omega arith,
        subst (λ d. Window (after_tick now) wake d rest) (omega arith) c,
      ),
    )

pub due-ringing :
    (now : ℕ) (wake : ℕ → ℕ) (low : ℕ) (ids : List ℕ)
    → now < 2 ^ 32
    → 1 ≤ low
    → Window now wake low ids
    → (due (after_tick now) wake ids ≡ ringing (after_tick now) wake ids)
      × (not_due (after_tick now) wake ids ≡ quiet (after_tick now) wake ids)
      × Window (after_tick now) wake 1 (quiet (after_tick now) wake ids)
due-ringing now wake low [] hn one window = (refl, refl, tt)
due-ringing now wake low (t ∷ rest) hn one (hw, lo, hi, window) =
    let (nearer, reached, _) = tick_nearer now (wake t) hn hw (omega arith) hi in
    elim (Bool-cases (wake t == after_tick now)) [
      | inl e ↦
          let (a, b, c) =
            due-ringing now wake (distance now (wake t)) rest hn (omega arith) window in
          rw (reached ∙ e, e) (ap (λ l. t ∷ l) a, b, c)
      | inr e ↦
          let far : 2 ≤ distance now (wake t) = ground arith in
          let (a, b, c) = far_ringing now wake (distance now (wake t)) rest hn far window in
          rw (reached ∙ e, e)
            (
              sym a,
              ap (λ l. t ∷ l) (sym b),
              (
                hw,
                omega arith,
                omega arith,
                rw b (subst (λ d. Window (after_tick now) wake d rest) (omega arith) c),
              ),
            )
    ]

-- The order in which sleep_insert compares ticks is that of the distances.
reached-distance :
    (now w v : ℕ)
    → now < 2 ^ 32
    → w < 2 ^ 32
    → v < 2 ^ 32
    → distance now w < 2 ^ 31
    → distance now v < 2 ^ 31
    → tick_reached w v ≡ leb (distance now v) (distance now w)
reached-distance now w v hn hw hv dw dv = ground arith

pub insert_sleeper-Window :
    (now : ℕ) (wake : ℕ → ℕ) (x low : ℕ) (ids : List ℕ)
    → now < 2 ^ 32
    → wake x < 2 ^ 32
    → low ≤ distance now (wake x)
    → distance now (wake x) < 2 ^ 31
    → Window now wake low ids
    → Window now wake low (insert_sleeper wake x ids)
insert_sleeper-Window now wake x low [] hn hx lo hi window = (hx, lo, hi, tt)
insert_sleeper-Window now wake x low (t ∷ rest) hn hx lo hi (ht, tlo, thi, window) =
    let order = reached-distance now (wake t) (wake x) hn ht hx thi hi in
    elim (Bool-cases (tick_reached (wake t) (wake x))) [
      | inl e ↦ rw e (hx, lo, hi, (ht, ground arith, thi, window))
      | inr e ↦ rw e (
        ht,
        tlo,
        thi,
        insert_sleeper-Window now wake x (distance now (wake t)) rest hn hx (ground arith) hi
            window,
      )
    ]

pub Window-update :
    (now : ℕ) (wake : ℕ → ℕ) (x w low : ℕ) (ids : List ℕ)
    → Absent x ids
    → Window now wake low ids
    → Window now (update wake x w) low ids
Window-update now wake x w low [] absent window = tt
Window-update now wake x w low (t ∷ rest) (ne, absent) (ht, lo, hi, window) =
    let same : update wake x w t ≡ wake t = ground arith in
    rw same (ht, lo, hi, Window-update now wake x w (distance now (wake t)) rest absent window)
