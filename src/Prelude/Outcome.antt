-- ===== src/Prelude/Outcome.antt =====
-- Code that can end in `kernel_panic`, which prints its message and halts the machine, or whose loop
-- is still running when the fuel of the model is used up (`endless`).
use mathlib.Core.Bool.{Bool, true, false}

pub data Result (A : Type 0) : Type 0 where
  ok : A → Result A
  panic : Result A
  endless : Result A

infixl 5 ◌>>=◌ ◌>>◌
abbrev pub ◌>>=◌ : {A B : Type 0} → Result A → (A → Result B) → Result B
r >>= next = elim r [ ok value ↦ next value | panic ↦ panic | endless ↦ endless ]

abbrev pub ◌>>◌ : {B : Type 0} → Result (Unit {0}) → Result B → Result B
r >> next = elim r [ ok _ ↦ next | panic ↦ panic | endless ↦ endless ]

-- `if (!test) kernel_panic(...)`.
abbrev pub require : Bool → Result (Unit {0})
require true = ok tt
require false = panic
