-- ===== src/Bits/Step.antt =====
-- One binary digit of `&` and `|`: the equations from which the other laws follow.
use Prim.Native.Nat.{digits, bit_and-bitwise, bit_or-bitwise}
use toyix.Prelude.{
  ℕ, zero, suc, ◌+◌, ◌*◌, ◌/◌, ◌%◌, ◌≤◌, min, max, bit_and, bit_or, ◌≡◌, refl, ap, arith,
}

module _ (rest : ℕ → ℕ) (op : ℕ → ℕ → ℕ) where
  -- Any two counts of digits that cover the first number give the same digits.
  covered : (x y : ℕ) (k j : ℕ) → x ≤ k → x ≤ j → digits rest op k x y ≡ digits rest op j x y
  covered zero y zero zero hk hj = refl
  covered zero y zero (suc j) hk hj = refl
  covered zero y (suc k) zero hk hj = refl
  covered zero y (suc k) (suc j) hk hj = refl
  covered (suc x) y zero j hk hj = absurd (omega arith)
  covered (suc x) y (suc k) zero hk hj = absurd (omega arith)
  covered (suc x) y (suc k) (suc j) hk hj =
      ap (λ t. t * 2 + op (suc x % 2) (y % 2))
        (covered (suc x / 2) (y / 2) k j (omega arith) (omega arith))

pub bit_and_step : (x y : ℕ) → bit_and x y ≡ bit_and (x / 2) (y / 2) * 2 + min (x % 2) (y % 2)
bit_and_step zero y = omega (arith, bit_and-bitwise 0 y, bit_and-bitwise 0 (y / 2))
bit_and_step (suc x) y = omega (
  arith,
  bit_and-bitwise (suc x) y,
  bit_and-bitwise (suc x / 2) (y / 2),
  covered (λ _. 0) min (suc x / 2) (y / 2) x (suc x / 2) (omega arith) (omega arith),
)

pub bit_or_step : (x y : ℕ) → bit_or x y ≡ bit_or (x / 2) (y / 2) * 2 + max (x % 2) (y % 2)
bit_or_step zero y = omega (arith, bit_or-bitwise 0 y, bit_or-bitwise 0 (y / 2))
bit_or_step (suc x) y = omega (
  arith,
  bit_or-bitwise (suc x) y,
  bit_or-bitwise (suc x / 2) (y / 2),
  covered (λ b. b) max (suc x / 2) (y / 2) x (suc x / 2) (omega arith) (omega arith),
)
