-- ===== src/Bytes/Move.antt =====
-- What the memory functions leave at every address.
use toyix.Prelude.{
  ℕ, zero, suc, ◌+◌, ◌-◌, ◌%◌, ◌<◌, ◌≤◌, ◌≡◌, ◌↔◌, ◌⊎◌, refl, Bool, true, ◌&&◌, ltb, leb, ◌==◌,
  if◌then◌else◌, update, arith,
}
use toyix.Prelude.Int.{pos, sub_ℕ}
use toyix.Bytes.{fill, memset, copy_up, copy_down, memcpy, memmove, compare_from, memcmp}

-- The address lies in the `n` bytes from `at` on.
abbrev pub inside : ℕ → ℕ → ℕ → Bool
inside at n a = leb at a && ltb a (at + n)

fill-inside :
    (rounds i dest value : ℕ) (mem : ℕ → ℕ) (a : ℕ)
    → fill rounds i dest value mem a ≡ (if inside (dest + i) rounds a then value % 256 else mem a)
unfolding fill
fill-inside zero i dest value mem a = ground arith
fill-inside (suc rounds) i dest value mem a =
    ground (arith, fill-inside rounds (i + 1) dest value (update mem (dest + i) (value % 256)) a)

-- memset stores the value, as a byte, at the addresses of the object and at no other.
memset-inside :
    (dest value count : ℕ) (mem : ℕ → ℕ) (a : ℕ)
    → memset dest value count mem a ≡ (if inside dest count a then value % 256 else mem a)
unfolding memset
memset-inside dest value count mem a = ground (arith, fill-inside count 0 dest value mem a)

-- Copying upwards reads each byte before it is written, if the source starts no lower than the target
-- or ends below it.
copy_up-inside :
    (rounds i dest src : ℕ) (mem : ℕ → ℕ) (a : ℕ)
    → (dest ≤ src) ⊎ (src + i + rounds ≤ dest)
    → copy_up rounds i dest src mem a
      ≡ (if inside (dest + i) rounds a then mem (src + (a - dest)) else mem a)
unfolding copy_up
copy_up-inside zero i dest src mem a h = ground arith
copy_up-inside (suc rounds) i dest src mem a h =
    let rest =
      copy_up-inside rounds (i + 1) dest src (update mem (dest + i) (mem (src + i))) a
        (omega arith) in
    ground (arith, rest)

copy_down-inside :
    (i dest src : ℕ) (mem : ℕ → ℕ) (a : ℕ)
    → src ≤ dest
    → copy_down i dest src mem a ≡ (if inside dest i a then mem (src + (a - dest)) else mem a)
unfolding copy_down
copy_down-inside zero dest src mem a h = ground arith
copy_down-inside (suc i) dest src mem a h =
    ground (arith, copy_down-inside i dest src (update mem (dest + i) (mem (src + i))) a h)

-- However the two objects overlap, memmove leaves in the target the bytes that the source held before
-- the call, and changes no other address.
pub memmove-inside :
    (dest src count : ℕ) (mem : ℕ → ℕ) (a : ℕ)
    → memmove dest src count mem a ≡ (if inside dest count a then mem (src + (a - dest)) else mem a)
unfolding memmove
memmove-inside dest src count mem a =
    ground (arith, copy_up-inside count 0 dest src mem a, copy_down-inside count dest src mem a)

-- Two non-overlapping objects: memcpy leaves the source's bytes in the target, and changes no other
-- address.
pub memcpy-inside :
    (dest src count : ℕ) (mem : ℕ → ℕ) (a : ℕ)
    → (dest + count ≤ src) ⊎ (src + count ≤ dest)
    → memcpy dest src count mem a ≡ (if inside dest count a then mem (src + (a - dest)) else mem a)
unfolding memcpy
memcpy-inside dest src count mem a h =
    ground (arith, copy_up-inside count 0 dest src mem a (omega arith))

sub_ℕ-zero : (x y : ℕ) → sub_ℕ x y ≡ pos 0 → x ≡ y
sub_ℕ-zero x y h = ground arith

compare_from-same :
    (rounds i left right : ℕ) (mem : ℕ → ℕ)
    → ((k : ℕ) → k < rounds → mem (left + (i + k)) ≡ mem (right + (i + k)))
    → compare_from rounds i left right mem ≡ pos 0
unfolding compare_from
compare_from-same zero i left right mem h = refl
compare_from-same (suc rounds) i left right mem h =
    let first : (mem (left + i) == mem (right + i)) ≡ true = ground (arith, h 0 (omega arith)) in
    rw (first, compare_from)
      (compare_from-same rounds (i + 1) left right mem
        (λ k lt. ground (arith, h (k + 1) (omega arith))))

compare_from-first :
    (rounds i left right : ℕ) (mem : ℕ → ℕ)
    → compare_from (suc rounds) i left right mem ≡ pos 0
    → (mem (left + i) ≡ mem (right + i)) × (compare_from rounds (i + 1) left right mem ≡ pos 0)
unfolding compare_from
compare_from-first rounds i left right mem e =
    ground (arith, sub_ℕ-zero (mem (left + i)) (mem (right + i)))

compare_from-differ :
    (rounds i left right : ℕ) (mem : ℕ → ℕ)
    → compare_from rounds i left right mem ≡ pos 0
    → (k : ℕ) → k < rounds
    → mem (left + (i + k)) ≡ mem (right + (i + k))
compare_from-differ zero i left right mem e k lt = absurd (omega arith)
compare_from-differ (suc rounds) i left right mem e zero lt =
    ground (arith, compare_from-first rounds i left right mem e)
compare_from-differ (suc rounds) i left right mem e (suc k) lt =
    let (_, rest) = compare_from-first rounds i left right mem e in
    ground (arith, compare_from-differ rounds (i + 1) left right mem rest k (omega arith))

-- memcmp returns 0 exactly if the two objects hold the same bytes.
memcmp-zero_iff :
    (left right count : ℕ) (mem : ℕ → ℕ)
    → (memcmp left right count mem ≡ pos 0)
      ↔ ((k : ℕ) → k < count → mem (left + k) ≡ mem (right + k))
unfolding memcmp
memcmp-zero_iff left right count mem = (
  λ e k lt. ground (arith, compare_from-differ count 0 left right mem e k lt),
  λ h. compare_from-same count 0 left right mem (λ k lt. ground (arith, h k lt)),
)
