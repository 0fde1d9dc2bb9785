-- ===== src/Heap/Alloc/Placed.antt =====
-- First fit, as a function of the list of blocks.
use toyix.Heap.{Heap, header}
use toyix.Heap.Layout.{Segment, Laid}
use toyix.Heap.Splice.{end_of}
use toyix.Heap.Find.{fits, first_fit}
use toyix.Heap.Cut.{handed}
use toyix.Heap.HandOut.{hand_out-Laid}
use toyix.Heap.Merge.{merge_next}
use toyix.Heap.Release.{absorbed}
use toyix.Heap.Alloc.{take_found}
use toyix.Heap.Alloc.Append.{fresh_segment}
use toyix.Prelude.{
  ℕ, ◌+◌, ◌≤◌, ◌≡◌, ◌≢◌, refl, sym, ap, subst, true, false, ◌&&◌, if◌then◌else◌, inl, inr,
  Bool-cases, Option, none, some, Result, ok, panic, List, [], ◌∷◌, ◌++◌, arith,
}

abbrev pub behind : Segment → Option (ℕ × List Segment) → Option (ℕ × List Segment)
behind seg none = none
behind seg (some (p, segs)) = some (p, seg ∷ segs)

-- The address that is handed out of the blocks from address `a` on, and the blocks afterwards.
abbrev pub placed : (wanted a : ℕ) → List Segment → Option (ℕ × List Segment)
placed wanted a [] = none
placed wanted a (seg ∷ rest) =
    if fits wanted seg
    then some (a + header, handed wanted seg rest)
    else behind seg (placed wanted (a + header + seg.size) rest)

-- Where it is found.
abbrev pub Where : (wanted a : ℕ) → List Segment → Option (ℕ × List Segment) → Type 0
Where wanted a segs none = first_fit wanted a segs ≡ none
Where wanted a segs (some (p, out)) =
    (front : List Segment) × (seg : Segment) × (rest : List Segment) × (segs
      ≡ front ++ (seg ∷ rest))
    × (wanted ≤ seg.size)
    × (first_fit wanted a segs ≡ some (end_of a front))
    × (p ≡ end_of a front + header)
    × (out ≡ front ++ handed wanted seg rest)

behind-Where :
    (wanted a : ℕ) (seg : Segment) (rest : List Segment) (found : Option (ℕ × List Segment))
    → fits wanted seg ≡ false
    → Where wanted (a + header + seg.size) rest found
    → Where wanted a (seg ∷ rest) (behind seg found)
behind-Where wanted a seg rest none unfit e = rw unfit e
behind-Where wanted a seg rest (some (p, out)) unfit
      (front, x, back, split, large, first, here, same) =
    (
      seg ∷ front,
      x,
      back,
      ap (λ l. seg ∷ l) split,
      large,
      rw unfit first,
      here,
      ap (λ l. seg ∷ l) same,
    )

fits-size : (wanted : ℕ) (seg : Segment) → fits wanted seg ≡ true → wanted ≤ seg.size
fits-size wanted seg e = ground arith

pub placed-Where : (wanted a : ℕ) (segs : List Segment) → Where wanted a segs (placed wanted a segs)
placed-Where wanted a [] = refl
placed-Where wanted a (seg ∷ rest) = elim (Bool-cases (fits wanted seg)) [
  | inl e ↦ rw e ([], seg, rest, refl, fits-size wanted seg e, rw e refl, refl, refl)
  | inr e ↦ rw e (
      behind-Where wanted a seg rest (placed wanted (a + header + seg.size) rest) e
        (placed-Where wanted (a + header + seg.size) rest))
]

-- What the code makes of the answer.
abbrev pub Taken : Option (ℕ × List Segment) → Result (Option ℕ × Heap) → Type 0
Taken none out = out ≡ panic
Taken (some (p, segs)) out = (h' : Heap) × (out ≡ ok (some p, h')) × Laid h' segs

Where-Taken :
    (wanted : ℕ) (h : Heap) (segs : List Segment) (found : Option (ℕ × List Segment))
    → Laid h segs
    → Where wanted h.virtual_base segs found
    → Taken found (take_found wanted (first_fit wanted h.virtual_base segs) h)
unfolding take_found
Where-Taken wanted h segs none laid e = rw e refl
Where-Taken wanted h segs (some (p, out)) laid (front, seg, rest, split, large, first, here, same) =
    let laid' : Laid h (front ++ (seg ∷ rest)) = subst (λ l. Laid h l) split laid in
    let (h', done, laid'') = hand_out-Laid h front seg rest wanted laid' large in
    (h', rw first (rw done (rw here refl)), subst (λ l. Laid h' l) (sym same) laid'')

pub take_found-Taken :
    (wanted : ℕ) (h : Heap) (segs : List Segment)
    → Laid h segs
    → Taken
        (placed wanted h.virtual_base segs)
        (take_found wanted (first_fit wanted h.virtual_base segs) h)
take_found-Taken wanted h segs laid =
    Where-Taken wanted h segs (placed wanted h.virtual_base segs) laid
      (placed-Where wanted h.virtual_base segs)

-- A last block that fits is found, if no other.
behind-some :
    (seg : Segment) (found : Option (ℕ × List Segment)) → found ≢ none → behind seg found ≢ none
behind-some seg none some_found = λ e. some_found refl
behind-some seg (some x) some_found = λ e. ground arith

placed-some :
    (wanted a : ℕ) (seg : Segment) (rest : List Segment)
    → (fits wanted seg ≡ false → placed wanted (a + header + seg.size) rest ≢ none)
    → placed wanted a (seg ∷ rest) ≢ none
placed-some wanted a seg rest later = elim (Bool-cases (fits wanted seg)) [
  | inl e ↦ rw e (λ e'. ground arith)
  | inr e ↦ rw e (behind-some seg (placed wanted (a + header + seg.size) rest) (later e))
]

placed-merge :
    (wanted a bytes : ℕ) (p : Segment)
    → wanted + header ≤ bytes
    → placed wanted a (merge_next p (fresh_segment bytes ∷ [])) ≢ none
placed-merge wanted a bytes p large = elim (Bool-cases (p.is_free && true)) [
  | inl e ↦ rw e (placed-some wanted a _ [] (λ unfit. absurd (ground arith)))
  | inr e ↦ rw e (
      placed-some wanted a p (fresh_segment bytes ∷ []) (λ unfit.
        placed-some wanted (a + header + p.size) (fresh_segment bytes) []
          (λ unfit'. absurd (ground arith))))
]

-- A heap that has grown by a large enough region has a block that fits.
pub placed-absorbed :
    (wanted a bytes : ℕ) (segs : List Segment)
    → wanted + header ≤ bytes
    → placed wanted a (absorbed segs (fresh_segment bytes) []) ≢ none
placed-absorbed wanted a bytes [] large =
    placed-some wanted a (fresh_segment bytes) [] (λ unfit. absurd (ground arith))
placed-absorbed wanted a bytes (p ∷ []) large = placed-merge wanted a bytes p large
placed-absorbed wanted a bytes (p ∷ q ∷ segs) large =
    placed-some wanted a p (absorbed (q ∷ segs) (fresh_segment bytes) [])
      (λ unfit. placed-absorbed wanted (a + header + p.size) bytes (q ∷ segs) large)
