-- ===== src/Bits/Byte.antt =====
-- One bit of a byte: testing, setting and clearing it, checked for every byte and every place.
use native.Mathlib.Decide.{ℕ_discrete}
use toyix.Prelude.{
  ℕ, zero, suc, ◌-◌, ◌%◌, ◌^◌, ◌<◌, bit_and, bit_or, ◌≡◌, refl, Bool, true, not, ◌&&◌, ◌||◌, arith,
  ◌==◌,
}

-- `byte & (1u << k)` is not 0.
abbrev pub test_bit : ℕ → ℕ → Bool
test_bit byte k = not (bit_and byte (2 ^ k) == 0)

-- `(uint8_t)(byte | (1u << k))`
abbrev pub set_bit : ℕ → ℕ → ℕ
set_bit byte k = bit_or byte (2 ^ k) % 256

-- `(uint8_t)(byte & ~(1u << k))`
abbrev pub clear_bit : ℕ → ℕ → ℕ
clear_bit byte k = bit_and byte (2 ^ 32 - 1 - 2 ^ k) % 256

-- `p` passes at every number below the bound.
unfoldable pub passes : (ℕ → Bool) → ℕ → Bool
passes p zero = true
passes p (suc bound) = passes p bound && p bound

pub passes→test :
    (p : ℕ → Bool) (bound : ℕ) → passes p bound ≡ true → (k : ℕ) → k < bound → p k ≡ true
unfolding passes
passes→test p zero h k lt = absurd (omega arith)
passes→test p (suc bound) h k lt = elim (ℕ_discrete k bound) [
  | yes last ↦ rw last (ground arith)
  | no other ↦ passes→test p bound (ground arith) k (omega arith)
]

same : Bool → Bool → Bool
same x y = (x && y) || (not x && not y)

same_sound : (x y : Bool) → same x y ≡ true → x ≡ y
unfolding same
same_sound x y h = ground arith

-- A check of every byte and of every two places in it.
every : (ℕ → ℕ → ℕ → Bool) → Bool
every p = passes (λ b. passes (λ k. passes (p b k) 8) 8) 256

every_sound :
    (p : ℕ → ℕ → ℕ → Bool) → every p ≡ true → (b k j : ℕ) → b < 256 → k < 8 → j < 8 → p b k j ≡ true
unfolding every
every_sound p h b k j hb hk hj =
    passes→test (p b k) 8 (passes→test _ 8 (passes→test _ 256 h b hb) k hk) j hj

set_table : every (λ b k j. same (test_bit (set_bit b k) j) (k == j || test_bit b j)) ≡ true
unfolding every passes same
set_table = refl

clear_table :
    every (λ b k j. same (test_bit (clear_bit b k) j) (not (k == j) && test_bit b j)) ≡ true
unfolding every passes same
clear_table = refl

pub test-set :
    (b k j : ℕ) → b < 256 → k < 8 → j < 8 → test_bit (set_bit b k) j ≡ (k == j || test_bit b j)
test-set b k j hb hk hj = same_sound _ _ (every_sound _ set_table b k j hb hk hj)

pub test-clear :
    (b k j : ℕ)
    → b < 256
    → k < 8
    → j < 8
    → test_bit (clear_bit b k) j ≡ (not (k == j) && test_bit b j)
test-clear b k j hb hk hj = same_sound _ _ (every_sound _ clear_table b k j hb hk hj)

pub test-ones : (k : ℕ) → k < 8 → test_bit 255 k ≡ true
unfolding passes
test-ones k h = passes→test (test_bit 255) 8 refl k h
