-- ===== src/Heap/Alloc/Grow.antt =====
-- heap_add_region: the heap has one more block at its end, merged with the last one where that is free.
use toyix.Heap.{Heap, Block, header, coalesce_around}
use toyix.Heap.Layout.{Segment, Tiled, Laid}
use toyix.Heap.Splice.{end_of, Tiled-same}
use toyix.Heap.Release.{absorbed, coalesce_around-Coalesced}
use toyix.Heap.Alloc.{
  page_size, region_block, extend, heap_add_region, heap_grow, pages_for, at_least_one,
}
use toyix.Heap.Alloc.Append.{Extended, fresh_segment, insert_block_sorted-Inserted}
use toyix.Prelude.{
  ℕ, ◌+◌, ◌-◌, ◌*◌, ◌/◌, ◌%◌, ◌^◌, ◌<◌, ◌≤◌, ◌≡◌, refl, subst, Bool, true, false, ◌||◌, ltb,
  if◌then◌else◌, inl, inr, Bool-cases, update, update_self, update_other, Option, none, some,
  Result, ok, List, [], ◌∷◌, length, arith,
}

end_of-Tiled :
    (blocks : ℕ → Block) (before : Option ℕ) (a stop : ℕ) (segs : List Segment)
    → Tiled blocks before a stop segs
    → end_of a segs ≡ stop
end_of-Tiled blocks before a stop [] e = e
end_of-Tiled blocks before a stop (seg ∷ rest) (_, tiled) =
    end_of-Tiled blocks (some a) (a + header + seg.size) stop rest tiled

some_pages : (n : ℕ) → at_least_one (at_least_one n) ≡ at_least_one n
some_pages n = ground arith

-- What heap_add_region answers for a region of `bytes` bytes.
abbrev pub Grown : Heap → List Segment → (bytes : ℕ) → Result (Option ℕ × Heap) → Type 0
Grown h segs bytes out =
    (region : ℕ) × (h' : Heap) × (out ≡ ok (some region, h'))
    × (h'.virtual_base ≡ h.virtual_base)
    × Laid h' (absorbed segs (fresh_segment bytes) [])

pub extend-Grown :
    (rounds pages bytes : ℕ) (h : Heap) (segs : List Segment)
    → length segs < rounds
    → header ≤ bytes
    → h.virtual_next + bytes < 2 ^ 32
    → Laid h segs
    → Grown h segs bytes (extend rounds pages bytes h)
unfolding extend
extend-Grown rounds pages bytes h segs few room below laid =
    let start = h.virtual_next in
    let wrap : (start + bytes) % 2 ^ 32 ≡ start + bytes = omega arith in
    let marked : Heap = record h {
      blocks = update h.blocks start (region_block bytes);
      virtual_next = (start + bytes) % 2 ^ 32;
      region_bytes = (h.region_bytes + bytes) % 2 ^ 32;
      mapped_pages = (h.mapped_pages + pages) % 2 ^ 32;
    } in
    let x : Extended marked segs start bytes = record {
      tiled =
          Tiled-same h.blocks marked.blocks none h.virtual_base start segs laid.tiled
            (λ b low high. update_other h.blocks start b (region_block bytes) (omega arith));
      first = laid.first;
      fresh = update_self h.blocks start (region_block bytes);
      room = room;
      top = wrap;
      below = omega (arith, wrap);
    } in
    let (blocks, head, done, laid') =
      insert_block_sorted-Inserted rounds marked segs start bytes few x in
    let inserted : Heap = record marked { blocks = blocks; head = head } in
    let (region, final, done', laid'') =
      coalesce_around-Coalesced inserted segs (fresh_segment bytes) [] laid' in
    let here : end_of h.virtual_base segs ≡ start =
      end_of-Tiled h.blocks none h.virtual_base start segs laid.tiled in
    let there : coalesce_around start inserted ≡ ok (region, record inserted { blocks = final }) =
      subst (λ a. coalesce_around a inserted ≡ ok (region, record inserted { blocks = final })) here
        done' in
    (region, record inserted { blocks = final }, rw (done, there) refl, refl, laid'')

-- Whether the heap can grow by a region for `wanted` bytes.
abbrev pub has_room : (mapped : Bool) → (wanted : ℕ) → Heap → Bool
has_room mapped wanted h =
    if ltb (0xffffffff - header) wanted
    then false
    else if ltb h.virtual_limit h.virtual_next
        || ltb (h.virtual_limit - h.virtual_next) ((pages_for wanted * page_size) % 2 ^ 32)
    then false
    else mapped

abbrev too_big : ℕ → Heap → Bool
too_big wanted h =
    ltb h.virtual_limit h.virtual_next
    || ltb (h.virtual_limit - h.virtual_next) ((pages_for wanted * page_size) % 2 ^ 32)

ge_sum : (low high n : ℕ) → (ltb high low || ltb (high - low) n) ≡ false → low + n ≤ high
ge_sum low high n e = ground arith

room_facts :
    (mapped : Bool) (wanted : ℕ) (h : Heap)
    → has_room mapped wanted h ≡ true
    → (too_big wanted h ≡ false)
      × (h.virtual_next + (pages_for wanted * page_size) % 2 ^ 32 ≤ h.virtual_limit)
      × (mapped ≡ true)
room_facts mapped wanted h room = elim (Bool-cases (ltb (0xffffffff - header) wanted)) [
  | inl e ↦ let absurd_lem : false ≡ true = rw e at room in absurd (ground arith)
  | inr e ↦ elim (Bool-cases (too_big wanted h)) [
    | inl f ↦ let absurd_lem : false ≡ true = rw (e, f) at room in absurd (ground arith)
    | inr f ↦ (f, ge_sum h.virtual_next h.virtual_limit _ f, rw (e, f) at room)
  ]
]

abbrev pub region_for : (wanted : ℕ) → ℕ
region_for wanted = pages_for wanted * page_size

pub region_for-large :
    (wanted : ℕ)
    → wanted < 2 ^ 31
    → (wanted + header ≤ region_for wanted) × (region_for wanted < 2 ^ 32)
region_for-large wanted small = (ground arith, ground arith)

pub heap_grow-Grown :
    (rounds : ℕ) (mapped : Bool) (wanted : ℕ) (h : Heap) (segs : List Segment)
    → length segs < rounds
    → wanted < 2 ^ 31
    → h.virtual_limit < 2 ^ 32
    → has_room mapped wanted h ≡ true
    → Laid h segs
    → Grown h segs (region_for wanted) (heap_grow rounds mapped wanted h)
unfolding heap_grow heap_add_region
heap_grow-Grown rounds mapped wanted h segs few small top room laid =
    let (large, whole) = region_for-large wanted small in
    let over : ltb (0xffffffff - header) wanted ≡ false = ground arith in
    let pages = some_pages (((wanted + header + page_size - 1) % 2 ^ 32) / page_size) in
    let wrap : (pages_for wanted * page_size) % 2 ^ 32 ≡ region_for wanted = omega (arith, whole) in
    let (fits, full, have) = room_facts mapped wanted h room in
    rw (over, pages, fits, have, wrap)
      (extend-Grown rounds (pages_for wanted) (region_for wanted) h segs few (omega (arith, large))
        (omega (arith, top, wrap, full)) laid)

pub heap_grow-none :
    (rounds : ℕ) (mapped : Bool) (wanted : ℕ) (h : Heap)
    → has_room mapped wanted h ≡ false
    → heap_grow rounds mapped wanted h ≡ ok (none, h)
unfolding heap_grow heap_add_region
heap_grow-none rounds mapped wanted h room = elim (Bool-cases (ltb (0xffffffff - header) wanted)) [
  | inl e ↦ rw e refl
  | inr e ↦
      let pages = some_pages (((wanted + header + page_size - 1) % 2 ^ 32) / page_size) in
      elim (Bool-cases (too_big wanted h)) [
        | inl f ↦ rw (e, pages, f) refl
        | inr f ↦ let absent : mapped ≡ false = rw (e, f) at room in rw (e, pages, f, absent) refl
      ]
]
