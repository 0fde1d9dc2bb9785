-- ===== src/Strings.antt =====
-- kernel/lib/mem.c, the string functions. A string that is read is the list of its bytes before the
-- null, a null pointer is `none`; a string that is written is bytes of memory, as for the memory
-- functions. Source and target do not overlap.
pub mod Compare
pub mod Copy
mod Tests
use toyix.Prelude.{
  ℕ, zero, suc, ◌+◌, ◌≡◌, Bool, true, false, ◌&&◌, ◌||◌, ltb, leb, ◌==◌, if◌then◌else◌, List, [],
  ◌∷◌, Option, none, some, length, update,
}
use toyix.Prelude.Int.{ℤ, pos, negsuc, sub_ℕ}

pub kstrlen : Option (List ℕ) → ℕ
kstrlen none = 0
kstrlen (some text) = length text

-- The comparison loop and the difference after it, where one of the strings has ended.
unfoldable pub compare_text : List ℕ → List ℕ → ℤ
compare_text [] [] = sub_ℕ 0 0
compare_text [] (b ∷ right) = sub_ℕ 0 b
compare_text (a ∷ left) [] = sub_ℕ a 0
compare_text (a ∷ left) (b ∷ right) = if a == b then compare_text left right else sub_ℕ a b

unfoldable pub kstrcmp : Option (List ℕ) → Option (List ℕ) → ℤ
kstrcmp none none = pos 0
kstrcmp none (some right) = negsuc 0
kstrcmp (some left) none = pos 1
kstrcmp (some left) (some right) = compare_text left right

-- `text[i]` at the start of what is left of a string.
abbrev pub first_byte : List ℕ → ℕ
first_byte [] = 0
first_byte (c ∷ rest) = c

abbrev pub rest_of : List ℕ → List ℕ
rest_of [] = []
rest_of (c ∷ rest) = rest

-- At most `rounds` rounds of the loop of kstrncmp.
pub compare_bounded : (rounds : ℕ) → List ℕ → List ℕ → ℤ
compare_bounded zero left right = pos 0
compare_bounded (suc rounds) left right =
    let a : ℕ = first_byte left in
    let b : ℕ = first_byte right in
    let rest : ℤ = compare_bounded rounds (rest_of left) (rest_of right) in
    if a == b then if a == 0 then pos 0 else rest else sub_ℕ a b

pub kstrncmp : Option (List ℕ) → Option (List ℕ) → ℕ → ℤ
kstrncmp none none count = pos 0
kstrncmp none (some right) count = if count == 0 then pos 0 else negsuc 0
kstrncmp (some left) none count = if count == 0 then pos 0 else pos 1
kstrncmp (some left) (some right) count =
    if count == 0 then pos 0 else compare_bounded count left right

-- The copying loop of kstrcpy, with the null behind it.
pub copy_text : List ℕ → ℕ → (ℕ → ℕ) → ℕ → ℕ
copy_text [] dest mem = update mem dest 0
copy_text (c ∷ rest) dest mem = copy_text rest (dest + 1) (update mem dest c)

pub kstrcpy : Option ℕ → Option (List ℕ) → (ℕ → ℕ) → Option ℕ × (ℕ → ℕ)
kstrcpy none src mem = (none, mem)
kstrcpy (some dest) none mem = (some dest, update mem dest 0)
kstrcpy (some dest) (some src) mem = (some dest, copy_text src dest mem)

-- The copying loop of kstrlcpy, with the null behind it.
pub copy_bounded : List ℕ → (copy_len dest_size dest : ℕ) → (ℕ → ℕ) → ℕ → ℕ
copy_bounded [] copy_len dest_size dest mem = update mem (dest + copy_len) 0
copy_bounded (c ∷ rest) copy_len dest_size dest mem =
    if ltb (copy_len + 1) dest_size
    then copy_bounded rest (copy_len + 1) dest_size dest (update mem (dest + copy_len) c)
    else update mem (dest + copy_len) 0

pub kstrlcpy : Option ℕ → Option (List ℕ) → ℕ → (ℕ → ℕ) → ℕ × (ℕ → ℕ)
kstrlcpy none src dest_size mem = (kstrlen src, mem)
kstrlcpy (some dest) none dest_size mem =
    if dest_size == 0 then (0, mem) else (0, update mem dest 0)
kstrlcpy (some dest) (some src) dest_size mem =
    if dest_size == 0
    then (length src, mem)
    else (length src, copy_bounded src 0 dest_size dest mem)

-- A character is its byte; those from 128 on are in none of the classes.
pub kchar_is_space : ℕ → Bool
kchar_is_space ch = ch == 32 || (ch == 9 || (ch == 10 || (ch == 13 || (ch == 11 || ch == 12))))

pub kchar_is_digit : ℕ → Bool
kchar_is_digit ch = leb 48 ch && leb ch 57

pub kchar_is_alpha : ℕ → Bool
kchar_is_alpha ch = leb 97 ch && leb ch 122 || leb 65 ch && leb ch 90
