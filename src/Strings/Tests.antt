-- ===== src/Strings/Tests.antt =====
-- Runs of the string functions, and instances of their theorems.
use toyix.Strings.{
  kchar_is_space, kchar_is_digit, kchar_is_alpha, kstrcmp, compare_text, kstrlcpy, copy_bounded,
}
use toyix.Strings.Copy.{kstrlcpy-copied}
use toyix.Prelude.Int.{negsuc}
use toyix.Prelude.{ℕ, ◌≡◌, true, false, refl, List, [], ◌∷◌, some, arith}

abbrev cat : List ℕ
cat = b'c' ∷ b'a' ∷ b't' ∷ []

abbrev cap : List ℕ
cap = b'c' ∷ b'a' ∷ b'p' ∷ []

abbrev blank : ℕ → ℕ
blank a = 32

compare_run : kstrcmp (some cap) (some cat) ≡ negsuc 3
unfolding kstrcmp compare_text
compare_run = refl

cut_run : (kstrlcpy (some 10) (some cat) 3 blank).1 12 ≡ 0
unfolding kstrlcpy copy_bounded
cut_run = refl

kstrlcpy-copied_example :
    ((kstrlcpy (some 10) (some cat) 3 blank).0 ≡ 3)
    × ((kstrlcpy (some 10) (some cat) 3 blank).1 12 ≡ 0)
kstrlcpy-copied_example = kstrlcpy-copied 10 cat 3 blank 12 (omega arith)

kchar_run :
    (kchar_is_space 10 ≡ true)
    × (kchar_is_digit b'7' ≡ true)
    × (kchar_is_alpha b'q' ≡ true)
    × (kchar_is_alpha b'[' ≡ false)
unfolding kchar_is_space kchar_is_digit kchar_is_alpha
kchar_run = (refl, refl, refl, refl)
