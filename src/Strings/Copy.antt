-- ===== src/Strings/Copy.antt =====
-- The copies of strings stay inside their target and end with a null.
use toyix.Strings.{kstrlcpy, copy_bounded, kstrcpy, copy_text}
use toyix.Prelude.{
  ℕ, zero, suc, ◌+◌, ◌-◌, ◌<◌, ◌≡◌, ◌∙◌, ◌⊎◌, inl, inr, ap, true, ltb, if◌then◌else◌, List, [], ◌∷◌,
  some, length, update, take, get_or, arith,
}

-- What a copy of a string leaves at an address: a byte of the string, the null behind it, or what was
-- there.
abbrev pub copied : List ℕ → ℕ → (ℕ → ℕ) → ℕ → ℕ
copied text dest mem a =
    if ltb a dest
    then mem a
    else if ltb (dest + length text) a
    then mem a
    else get_or text (a - dest) 0

get_or-tail :
    (c : ℕ) (rest : List ℕ) (i : ℕ) → 0 < i → get_or (c ∷ rest) i 0 ≡ get_or rest (i - 1) 0
get_or-tail c rest zero h = absurd (omega arith)
get_or-tail c rest (suc i) h = ap (λ j. get_or rest j 0) (omega arith)

copied-step :
    (c : ℕ) (rest : List ℕ) (dest : ℕ) (mem : ℕ → ℕ) (a : ℕ)
    → copied rest (dest + 1) (update mem dest c) a ≡ copied (c ∷ rest) dest mem a
copied-step c rest dest mem a =
    let split : (a < dest) ⊎ ((a ≡ dest) ⊎ (dest < a)) = ground arith in
    elim split [
      | inl below ↦ ground arith
      | inr (inl same) ↦ rw same (ground arith)
      | inr (inr above) ↦ ground (arith, get_or-tail c rest (a - dest) (omega arith))
    ]

copy_text-copied :
    (text : List ℕ) (dest : ℕ) (mem : ℕ → ℕ) (a : ℕ)
    → copy_text text dest mem a ≡ copied text dest mem a
unfolding copy_text
copy_text-copied [] dest mem a = ground arith
copy_text-copied (c ∷ rest) dest mem a =
    copy_text-copied rest (dest + 1) (update mem dest c) a ∙ copied-step c rest dest mem a

copy_bounded-copied :
    (text : List ℕ) (k room size dest : ℕ) (mem : ℕ → ℕ) (a : ℕ)
    → size ≡ k + 1 + room
    → copy_bounded text k size dest mem a ≡ copied (take room text) (dest + k) mem a
unfolding copy_bounded
copy_bounded-copied [] k zero size dest mem a h = ground arith
copy_bounded-copied [] k (suc room) size dest mem a h = ground arith
copy_bounded-copied (c ∷ rest) k zero size dest mem a h = ground arith
copy_bounded-copied (c ∷ rest) k (suc room) size dest mem a h =
    let later =
      copy_bounded-copied rest (k + 1) room size dest (update mem (dest + k) c) a (omega arith) in
    let place : dest + (k + 1) ≡ (dest + k) + 1 = omega arith in
    let fits : ltb (k + 1) size ≡ true = ground arith in
    rw fits (later ∙ rw place (copied-step c (take room rest) (dest + k) mem a))

-- kstrcpy leaves the whole string and a null at the target and changes no other byte.
kstrcpy-copied :
    (dest : ℕ) (text : List ℕ) (mem : ℕ → ℕ) (a : ℕ)
    → (kstrcpy (some dest) (some text) mem).1 a ≡ copied text dest mem a
unfolding kstrcpy
kstrcpy-copied dest text mem a = copy_text-copied text dest mem a

-- For a target with room, kstrlcpy returns the length of the source, leaves as much of it as fits and a
-- null, and changes no other byte.
pub kstrlcpy-copied :
    (dest : ℕ) (text : List ℕ) (size : ℕ) (mem : ℕ → ℕ) (a : ℕ)
    → 0 < size
    → ((kstrlcpy (some dest) (some text) size mem).0 ≡ length text)
      × ((kstrlcpy (some dest) (some text) size mem).1 a ≡ copied (take (size - 1) text) dest mem a)
unfolding kstrlcpy
kstrlcpy-copied dest text size mem a h =
    ground (arith, copy_bounded-copied text 0 (size - 1) size dest mem a (omega arith))
