-- ===== src/Heap/Find.antt =====
-- find_free_block finds the first block that is free and large enough.
use toyix.Heap.{Heap, header, find_free_block}
use toyix.Heap.Layout.{Segment, first_of, Tiled, Laid, validate_block_lem}
use toyix.Prelude.{
  ℕ, zero, suc, ◌+◌, ◌<◌, ◌≤◌, ◌≡◌, refl, Bool, false, ◌&&◌, leb, if◌then◌else◌, inl, inr,
  Bool-cases, Option, none, some, ok, List, [], ◌∷◌, length, ap, ◌∙◌, arith,
}

abbrev pub fits : (wanted : ℕ) → Segment → Bool
fits wanted seg = seg.is_free && leb wanted seg.size

-- The address of the first block that fits, from address `a` on.
abbrev pub first_fit : (wanted a : ℕ) → List Segment → Option ℕ
first_fit wanted a [] = none
first_fit wanted a (seg ∷ rest) =
    if fits wanted seg then some a else first_fit wanted (a + header + seg.size) rest

find_from :
    (rounds wanted : ℕ) (h : Heap) (before : Option ℕ) (a : ℕ) (segs : List Segment)
    → length segs < rounds
    → h.virtual_base ≤ a
    → Tiled h.blocks before a h.virtual_next segs
    → find_free_block rounds wanted (first_of a segs) h ≡ ok (first_fit wanted a segs)
unfolding find_free_block
find_from zero wanted h before a segs few low tiled = absurd (omega arith)
find_from (suc rounds) wanted h before a [] few low tiled = refl
find_from (suc rounds) wanted h before a (seg ∷ rest) few low (here, tiled) =
    let valid = validate_block_lem h before a seg rest low (here, tiled) in
    elim (Bool-cases (fits wanted seg)) [
      | inl e ↦ rw (valid, here, e) refl
      | inr e ↦
          let unfit : (h.blocks a).is_free && leb wanted (h.blocks a).size ≡ false = rw here e in
          let next = ap (λ b. b.next) here in
          rw (valid, unfit, next, e)
            (find_from rounds wanted h (some a) (a + header + seg.size) rest (omega arith)
              (omega arith) tiled)
    ]

-- In a heap of these blocks, more rounds than blocks find the first that is free and has at least
-- `wanted` bytes, or that there is none.
pub find_free_block-first_fit :
    (rounds wanted : ℕ) (h : Heap) (segs : List Segment)
    → length segs < rounds
    → Laid h segs
    → find_free_block rounds wanted h.head h ≡ ok (first_fit wanted h.virtual_base segs)
find_free_block-first_fit rounds wanted h segs few laid =
    ap (λ head. find_free_block rounds wanted head h) laid.first
    ∙ find_from rounds wanted h none h.virtual_base segs few (omega arith) laid.tiled
