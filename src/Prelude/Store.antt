-- ===== src/Prelude/Store.antt =====
-- Arrays and memories as functions of an index, with the write of one cell, and the count of the
-- indices below a bound that pass a test.
use Prim.Native.Nat.{ℕ, zero, suc, ◌+◌, ◌≤◌, ◌<◌}
use mathlib.Core.Path.{◌≡◌, refl, sym, ap}
use mathlib.Core.Logic.{◌≢◌}
use mathlib.Core.Bool.{Bool, true, false}
use native.Mathlib.Decide.{ℕ_discrete}
use native.Mathlib.Omega.{arith}
use toyix.Prelude.Tests.{◌==◌, if◌then◌else◌}

abbrev pub update {ℓ} : {A : Type ℓ} → (ℕ → A) → ℕ → A → ℕ → A
update f i v j = if i == j then v else f j

unfoldable pub count : ℕ → (ℕ → Bool) → ℕ
count zero p = 0
count (suc n) p = count n p + (if p n then 1 else 0)

count-congr : (n : ℕ) (p q : ℕ → Bool) → ((i : ℕ) → i < n → p i ≡ q i) → count n p ≡ count n q
unfolding count
count-congr zero p q h = refl
count-congr (suc n) p q h =
    ground (arith, count-congr n p q (λ i lt. h i (omega arith)), h n (omega arith))

-- Two tests that differ at one index below the bound, where the first passes.
pub count-drop :
    (n f : ℕ) (p q : ℕ → Bool)
    → f < n
    → p f ≡ true
    → q f ≡ false
    → ((i : ℕ) → i < n → i ≢ f → p i ≡ q i)
    → count n p ≡ count n q + 1
unfolding count
count-drop zero f p q lt hp hq h = absurd (omega arith)
count-drop (suc n) f p q lt hp hq h = elim (ℕ_discrete f n) [
  | yes e ↦
      rw (← e, hp, hq)
        (ground (arith, count-congr f p q (λ i lt'. h i (omega arith) (omega arith))))
  | no ne ↦ ground (
    arith,
    h n (omega arith) (λ e. ne (sym e)),
    count-drop n f p q (omega arith) hp hq (λ i lt' ne'. h i (omega arith) ne'),
  )
]

pub count-pos : (n f : ℕ) (p : ℕ → Bool) → f < n → p f ≡ true → 0 < count n p
unfolding count
count-pos zero f p lt h = absurd (omega arith)
count-pos (suc n) f p lt h = elim (ℕ_discrete f n) [
  | yes e ↦ rw (← e, h) (omega arith)
  | no ne ↦ omega (arith, count-pos n f p (omega arith) h)
]

pub count-le : (n : ℕ) (p : ℕ → Bool) → count n p ≤ n
unfolding count
count-le zero p = omega arith
count-le (suc n) p = ground (arith, count-le n p)

pub count-none : (n : ℕ) (p : ℕ → Bool) → ((i : ℕ) → i < n → p i ≡ false) → count n p ≡ 0
unfolding count
count-none zero p h = refl
count-none (suc n) p h =
    ground (arith, h n (omega arith), count-none n p (λ i lt. h i (omega arith)))

-- A write at an index below the bound adds what its new value counts and takes what the old one did.
pub count-update {ℓ} :
    {A : Type ℓ} (n i : ℕ) (p : A → Bool) (f : ℕ → A) (v : A)
    → i < n
    → count n (λ j. p (update f i v j)) + (if p (f i) then 1 else 0)
      ≡ count n (λ j. p (f j)) + (if p v then 1 else 0)
unfolding count
count-update zero i p f v lt = absurd (omega arith)
count-update (suc n) i p f v lt = elim (ℕ_discrete i n) [
  | yes e ↦
      let same : count n (λ j. p (update f i v j)) ≡ count n (λ j. p (f j)) =
        count-congr n _ _ (λ j below. ap p (ground arith)) in
      let new : update f i v n ≡ v = ground arith in rw (same, new, e) (omega arith)
  | no ne ↦
      let old : update f i v n ≡ f n = ground arith in
      rw old (omega (arith, count-update n i p f v (omega arith)))
]

pub update_self {ℓ} : {A : Type ℓ} (f : ℕ → A) (i : ℕ) (v : A) → update f i v i ≡ v
update_self f i v = ground arith

pub update_other {ℓ} : {A : Type ℓ} (f : ℕ → A) (i j : ℕ) (v : A) → i ≢ j → update f i v j ≡ f j
update_other f i j v differ = ground arith
