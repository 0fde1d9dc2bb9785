-- ===== src/Bytes.antt =====
-- kernel/lib/mem.c, the memory functions: bytes of memory by address. The objects do not wrap round
-- the end of the address space, so an address is a plain number.
pub mod Move
mod Tests
use toyix.Prelude.{
  ℕ, zero, suc, ◌+◌, ◌/◌, ◌^◌, List, [], ◌∷◌, ◌||◌, ltb, ◌==◌, if◌then◌else◌, update, ◌%◌, Bool,
  true, false,
}
use toyix.Prelude.Int.{ℤ, pos, sub_ℕ}

-- The four bytes of a word in memory.
abbrev pub word_bytes : ℕ → List ℕ
word_bytes w = w % 256 ∷ w / 2 ^ 8 % 256 ∷ w / 2 ^ 16 % 256 ∷ w / 2 ^ 24 % 256 ∷ []

-- `for (i = 0; i < count; ++i) d[i] = value`, from round `i` on.
fill : (rounds i dest value : ℕ) → (ℕ → ℕ) → ℕ → ℕ
fill zero i dest value mem = mem
fill (suc rounds) i dest value mem =
    fill rounds (i + 1) dest value (update mem (dest + i) (value % 256))

pub memset : (dest value count : ℕ) → (ℕ → ℕ) → ℕ → ℕ
memset dest value count mem = fill count 0 dest value mem

-- `for (i = 0; i < count; ++i) d[i] = s[i]`, from round `i` on.
pub copy_up : (rounds i dest src : ℕ) → (ℕ → ℕ) → ℕ → ℕ
copy_up zero i dest src mem = mem
copy_up (suc rounds) i dest src mem =
    copy_up rounds (i + 1) dest src (update mem (dest + i) (mem (src + i)))

-- `for (i = count; i > 0; --i) d[i - 1] = s[i - 1]`
pub copy_down : (i dest src : ℕ) → (ℕ → ℕ) → ℕ → ℕ
copy_down zero dest src mem = mem
copy_down (suc i) dest src mem = copy_down i dest src (update mem (dest + i) (mem (src + i)))

pub memcpy : (dest src count : ℕ) → (ℕ → ℕ) → ℕ → ℕ
memcpy dest src count mem = copy_up count 0 dest src mem

pub memmove : (dest src count : ℕ) → (ℕ → ℕ) → ℕ → ℕ
memmove dest src count mem =
    if dest == src || count == 0
    then mem
    else if ltb dest src
    then copy_up count 0 dest src mem
    else copy_down count dest src mem

-- The comparison of `rounds` bytes from `i` on.
pub compare_from : (rounds i left right : ℕ) → (ℕ → ℕ) → ℤ
compare_from zero i left right mem = pos 0
compare_from (suc rounds) i left right mem = elim (mem (left + i) == mem (right + i)) [
  | true ↦ compare_from rounds (i + 1) left right mem
  | false ↦ sub_ℕ (mem (left + i)) (mem (right + i))
]

pub memcmp : (left right count : ℕ) → (ℕ → ℕ) → ℤ
memcmp left right count mem = compare_from count 0 left right mem
