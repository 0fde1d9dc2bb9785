-- ===== src/Strings/Compare.antt =====
-- The comparisons of strings decide equality.
use toyix.Strings.{kstrcmp, compare_text, kstrncmp, compare_bounded}
use toyix.Prelude.{ℕ, zero, suc, ◌<◌, ◌≡◌, ◌↔◌, refl, List, [], ◌∷◌, some, take, arith}
use toyix.Prelude.Int.{pos}

-- The bytes of a string, which are not null.
abbrev pub IsText : List ℕ → Type 0
IsText [] = Unit
IsText (c ∷ rest) = (0 < c) × IsText rest

compare_text-same : (text : List ℕ) → compare_text text text ≡ pos 0
unfolding compare_text
compare_text-same [] = ground arith
compare_text-same (c ∷ rest) = ground (arith, compare_text-same rest)

compare_text-zero :
    (left right : List ℕ)
    → IsText left
    → IsText right
    → compare_text left right ≡ pos 0
    → left ≡ right
unfolding compare_text
compare_text-zero [] [] l r e = refl
compare_text-zero [] (b ∷ right) l (r, _) e = ground arith
compare_text-zero (a ∷ left) [] (l, _) r e = ground arith
compare_text-zero (a ∷ left) (b ∷ right) (_, l) (_, r) e =
    ground (arith, compare_text-zero left right l r)

-- kstrcmp returns 0 for two strings exactly if they are equal.
pub kstrcmp-zero_iff :
    (left right : List ℕ)
    → IsText left
    → IsText right
    → (kstrcmp (some left) (some right) ≡ pos 0) ↔ (left ≡ right)
unfolding kstrcmp
kstrcmp-zero_iff left right l r =
    (compare_text-zero left right l r, λ e. rw e (compare_text-same right))

compare_bounded-same :
    (n : ℕ) (left right : List ℕ)
    → take n left ≡ take n right
    → compare_bounded n left right ≡ pos 0
unfolding compare_bounded
compare_bounded-same zero left right e = refl
compare_bounded-same (suc n) [] [] e = ground arith
compare_bounded-same (suc n) [] (b ∷ right) e = ground arith
compare_bounded-same (suc n) (a ∷ left) [] e = ground arith
compare_bounded-same (suc n) (a ∷ left) (b ∷ right) e =
    ground (arith, compare_bounded-same n left right)

compare_bounded-zero :
    (n : ℕ) (left right : List ℕ)
    → IsText left
    → IsText right
    → compare_bounded n left right ≡ pos 0
    → take n left ≡ take n right
unfolding compare_bounded
compare_bounded-zero zero left right l r e = refl
compare_bounded-zero (suc n) [] [] l r e = refl
compare_bounded-zero (suc n) [] (b ∷ right) l (r, _) e = ground arith
compare_bounded-zero (suc n) (a ∷ left) [] (l, _) r e = ground arith
compare_bounded-zero (suc n) (a ∷ left) (b ∷ right) (p, l) (q, r) e =
    ground (arith, compare_bounded-zero n left right l r)

-- kstrncmp returns 0 for two strings exactly if their first `count` bytes are equal, where a string
-- that is shorter counts as a whole.
kstrncmp-zero_iff :
    (left right : List ℕ) (count : ℕ)
    → IsText left
    → IsText right
    → (kstrncmp (some left) (some right) count ≡ pos 0) ↔ (take count left ≡ take count right)
unfolding kstrncmp
kstrncmp-zero_iff left right zero l r = (λ _. refl, λ _. refl)
kstrncmp-zero_iff left right (suc n) l r = (
  λ e. compare_bounded-zero (suc n) left right l r (ground arith),
  λ e. ground (arith, compare_bounded-same (suc n) left right e),
)
