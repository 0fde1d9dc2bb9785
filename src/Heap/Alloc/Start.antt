-- ===== src/Heap/Alloc/Start.antt =====
-- heap_init: the heap is one free block.
use toyix.Heap.{Heap}
use toyix.Heap.Layout.{Laid}
use toyix.Heap.Alloc.{page_size, at_least_one, extend, heap_add_region, require_some, heap_init}
use toyix.Heap.Alloc.Append.{fresh_segment}
use toyix.Heap.Alloc.Grow.{Grown, extend-Grown}
use toyix.Prelude.{
  ℕ, ◌-◌, ◌*◌, ◌%◌, ◌^◌, ◌<◌, ◌≤◌, ◌≡◌, refl, ◌∙◌, true, false, not, ◌||◌, ltb, Option, none,
  Result, ok, ◌>>=◌, require, [], ◌∷◌, arith,
}

module _ (h : Heap) where
  abbrev emptied : Heap
  emptied = record h {
    head = none;
    virtual_base = 0xd1000000;
    virtual_next = 0xd1000000;
    virtual_limit = 0xd2000000;
    region_bytes = 0;
    mapped_pages = 0;
    active = 0;
    total = 0;
    initialized = true;
  }

  started :
      (bytes : ℕ) (out : Result (Option ℕ × Heap)) (init : Result Heap)
      → init ≡ (out >>= require_some)
      → Grown emptied [] bytes out
      → (h' : Heap) × (init ≡ ok h') × Laid h' (fresh_segment bytes ∷ [])
  unfolding require_some
  started bytes out init reduced (region, h', done, base, laid) = (h', reduced ∙ rw done refl, laid)

  -- A heap that is started with up to 4096 pages, and gets them, is one free block.
  heap_init-Laid :
      (rounds initial_pages : ℕ)
      → 0 < rounds
      → initial_pages ≤ 4096
      → h.initialized ≡ false
      → (h' : Heap) × (heap_init rounds true initial_pages h ≡ ok h')
        × Laid h' (fresh_segment (at_least_one initial_pages * page_size) ∷ [])
  unfolding heap_init heap_add_region
  heap_init-Laid rounds initial_pages few enough new =
      let pages = at_least_one initial_pages in
      let bytes = pages * page_size in
      let fresh : require (not h.initialized) ≡ ok tt = rw new refl in
      let same : at_least_one pages ≡ pages = ground arith in
      let range : (4096 ≤ bytes) × (bytes ≤ 0x1000000) = (ground arith, ground arith) in
      let wrap : bytes % 2 ^ 32 ≡ bytes = omega (arith, range.1) in
      let fits : (ltb 0xd2000000 0xd1000000 || ltb (0xd2000000 - 0xd1000000) bytes) ≡ false =
        ground (arith, range.1) in
      let empty : Laid emptied [] = record { tiled = refl; first = refl; below = omega arith } in
      let reduced : heap_init rounds true initial_pages h
          ≡ (extend rounds pages bytes emptied >>= require_some) =
        rw (fresh, same, wrap, fits) refl in
      started bytes (extend rounds pages bytes emptied) (heap_init rounds true initial_pages h)
        reduced
        (extend-Grown rounds pages bytes emptied [] few (omega (arith, range.0))
          (omega (arith, range.1)) empty)
