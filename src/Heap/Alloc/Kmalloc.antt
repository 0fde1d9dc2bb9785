-- ===== src/Heap/Alloc/Kmalloc.antt =====
-- kmalloc takes the first block that fits, and grows the heap where there is none.
use toyix.Heap.{Heap}
use toyix.Heap.Layout.{Segment, Laid}
use toyix.Heap.Find.{first_fit, find_free_block-first_fit}
use toyix.Heap.Release.{absorbed}
use toyix.Heap.Alloc.{align_up_8, take_found, search_again, search, heap_grow, kmalloc}
use toyix.Heap.Alloc.Append.{fresh_segment}
use toyix.Heap.Alloc.Grow.{
  has_room, region_for, region_for-large, Grown, heap_grow-Grown, heap_grow-none,
}
use toyix.Heap.Alloc.Placed.{placed, Taken, take_found-Taken, placed-absorbed, Where, placed-Where}
use toyix.Prelude.{
  ℕ, ◌+◌, ◌-◌, ◌&&◌, ◌^◌, ◌<◌, ◌≤◌, ◌≡◌, ◌≢◌, refl, sym, ap, subst, Bool, true, false, ltb, ◌==◌,
  inl, inr, Bool-cases, Option, none, some, Result, ok, panic, ◌>>=◌, require, List, [], ◌∷◌,
  length, arith, ne→==,
}

-- The answer for `wanted` bytes: what is placed among the blocks; where nothing is, what is placed among
-- those of the heap that has grown; a panic where it cannot grow.
abbrev pub Allocated :
    (found grown : Option (ℕ × List Segment)) → (room : Bool) → Result (Option ℕ × Heap) → Type 0
Allocated (some x) grown room out = Taken (some x) out
Allocated none grown true out = (grown ≢ none) × Taken grown out
Allocated none grown false out = out ≡ panic

-- The new block is one more at most.
length-absorbed :
    (segs : List Segment) (seg : Segment) → length (absorbed segs seg []) ≤ length segs + 1
length-absorbed [] seg = omega arith
length-absorbed (p ∷ []) seg = elim (Bool-cases (p.is_free && seg.is_free)) [
  | inl e ↦ rw e (omega arith)
  | inr e ↦ rw e (omega arith)
]
length-absorbed (p ∷ q ∷ segs) seg = omega (arith, length-absorbed (q ∷ segs) seg)

-- The second search, in the heap that has grown.
again-Taken :
    (rounds wanted bytes : ℕ) (h : Heap) (segs : List Segment) (out : Result (Option ℕ × Heap))
    → length segs + 1 < rounds
    → Grown h segs bytes out
    → Taken
        (placed wanted h.virtual_base (absorbed segs (fresh_segment bytes) []))
        (out >>= search_again rounds wanted)
unfolding search_again
again-Taken rounds wanted bytes h segs out few (region, h', done, base, laid) =
    let grown = absorbed segs (fresh_segment bytes) [] in
    let many : length grown < rounds = omega (arith, length-absorbed segs (fresh_segment bytes)) in
    let found = find_free_block-first_fit rounds wanted h' grown many laid in
    rw done (
      rw found (
        subst
          (λ b.
            Taken (placed wanted b grown)
              (take_found wanted (first_fit wanted h'.virtual_base grown) h'))
          base (take_found-Taken wanted h' grown laid)))

search-Allocated :
    (rounds wanted : ℕ) (mapped room : Bool) (h : Heap) (segs : List Segment)
    (found : Option (ℕ × List Segment))
    → length segs + 1 < rounds
    → wanted < 2 ^ 31
    → h.virtual_limit < 2 ^ 32
    → Laid h segs
    → has_room mapped wanted h ≡ room
    → placed wanted h.virtual_base segs ≡ found
    → Where wanted h.virtual_base segs found
    → Allocated found
        (placed wanted h.virtual_base (absorbed segs (fresh_segment (region_for wanted)) []))
        room
        (search rounds wanted mapped (first_fit wanted h.virtual_base segs) h)
unfolding search search_again
search-Allocated rounds wanted mapped room h segs (some x) few small top laid r e
      (front, seg, rest, split, large, first, here, same) =
    let taken = take_found-Taken wanted h segs laid in rw first (rw (e, first) at taken)
search-Allocated rounds wanted mapped false h segs none few small top laid r e first =
    rw first (rw (heap_grow-none rounds mapped wanted h r) refl)
search-Allocated rounds wanted mapped true h segs none few small top laid r e first =
    let (large, whole) = region_for-large wanted small in
    rw first (
      placed-absorbed wanted h.virtual_base (region_for wanted) segs large,
      again-Taken rounds wanted (region_for wanted) h segs (heap_grow rounds mapped wanted h) few
          (heap_grow-Grown rounds mapped wanted h segs (omega arith) small top r laid),
    )

-- In an initialised heap with these blocks, kmalloc of 1 byte up to 2 ^ 31 - 8 takes the first free block
-- with that size, rounded up to a multiple of 8; where there is none, it takes the first in the heap with
-- a region added, in which there is one; and where no region can be added, it panics.
pub kmalloc-Allocated :
    (rounds size : ℕ) (mapped : Bool) (h : Heap) (segs : List Segment)
    → length segs + 1 < rounds
    → h.initialized ≡ true
    → 0 < size
    → size < 2 ^ 31 - 8
    → h.virtual_limit < 2 ^ 32
    → Laid h segs
    → Allocated
        (placed (align_up_8 size) h.virtual_base segs)
        (placed
          (align_up_8 size)
          h.virtual_base
          (absorbed segs (fresh_segment (region_for (align_up_8 size))) []))
        (has_room mapped (align_up_8 size) h)
        (kmalloc rounds mapped size h)
unfolding kmalloc
kmalloc-Allocated rounds size mapped h segs few started some_bytes small top laid =
    let wanted = align_up_8 size in
    let positive : (size == 0) ≡ false = ne→== size 0 (omega arith) in
    let below : ltb (0xffffffff - 7) size ≡ false = ground arith in
    let found = find_free_block-first_fit rounds wanted h segs (omega arith) laid in
    let live : require h.initialized ≡ ok tt = ap require started in
    let same : kmalloc rounds mapped size h
        ≡ search rounds wanted mapped (first_fit wanted h.virtual_base segs) h =
      rw (live, positive, below, found) refl in
    subst
      (λ out.
        Allocated (placed wanted h.virtual_base segs)
          (placed wanted h.virtual_base (absorbed segs (fresh_segment (region_for wanted)) []))
          (has_room mapped wanted h) out)
      (sym same)
      (search-Allocated rounds wanted mapped (has_room mapped wanted h) h segs
        (placed wanted h.virtual_base segs) few (omega arith) top laid refl refl
        (placed-Where wanted h.virtual_base segs))
