-- ===== src/Bytes/Tests.antt =====
-- Runs of the memory functions, and their theorems at small objects.
use toyix.Prelude.{ℕ, ◌≡◌, refl}
use toyix.Bytes.{memmove, copy_up, copy_down}
use toyix.Bytes.Move.{memmove-inside}

-- Each address holds itself.
abbrev counting : ℕ → ℕ
counting a = a

overlap_run : memmove 12 10 4 counting 15 ≡ 13
unfolding memmove copy_down copy_up
overlap_run = refl

memmove-inside_example : memmove 12 10 4 counting 15 ≡ 13
memmove-inside_example = memmove-inside 12 10 4 counting 15
