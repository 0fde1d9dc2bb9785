-- ===== src/Pmm/Bitmap.antt =====
-- One frame of the bitmap: what setting and clearing its bit does to every frame.
use toyix.Prelude.{ℕ, ◌/◌, ◌%◌, ◌<◌, ◌≡◌, not, ◌&&◌, ◌||◌, arith, ◌==◌}
use toyix.Bits.Byte.{test-set, test-clear}
use toyix.Pmm.{bitmap_test, bitmap_set, bitmap_clear}

-- Every byte of the array is one.
abbrev pub AreBytes : (ℕ → ℕ) → Type 0
AreBytes bitmap = (i : ℕ) → bitmap i < 256

pub set-AreBytes : (b : ℕ → ℕ) (f : ℕ) → AreBytes b → AreBytes (bitmap_set b f)
unfolding bitmap_set
set-AreBytes b f h i = ground (arith, h i)

pub clear-AreBytes : (b : ℕ → ℕ) (f : ℕ) → AreBytes b → AreBytes (bitmap_clear b f)
unfolding bitmap_clear
clear-AreBytes b f h i = ground (arith, h i)

pub bitmap_test-set :
    (b : ℕ → ℕ) (f g : ℕ)
    → AreBytes b
    → bitmap_test (bitmap_set b f) g ≡ (f == g || bitmap_test b g)
unfolding bitmap_test bitmap_set
bitmap_test-set b f g h = ground (arith, test-set (b (f / 8)) (f % 8) (g % 8) (h (f / 8)))

pub bitmap_test-clear :
    (b : ℕ → ℕ) (f g : ℕ)
    → AreBytes b
    → bitmap_test (bitmap_clear b f) g ≡ (not (f == g) && bitmap_test b g)
unfolding bitmap_test bitmap_clear
bitmap_test-clear b f g h = ground (arith, test-clear (b (f / 8)) (f % 8) (g % 8) (h (f / 8)))
