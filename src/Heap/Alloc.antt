-- ===== src/Heap/Alloc.antt =====
-- kernel/heap.c: the regions that the heap grows by, and kmalloc. Whether heap_map_virtual_region has
-- pages for a region is the argument `mapped`. The loops over the blocks run for `rounds` rounds.
pub mod Append
pub mod Grow
pub mod Placed
pub mod Kmalloc
pub mod Start
use toyix.Heap.{
  Heap, Block, heap_magic, header, write, validate_block, coalesce_around, find_free_block,
  hand_out,
}
use toyix.Prelude.{
  ℕ, zero, suc, ◌+◌, ◌-◌, ◌*◌, ◌/◌, ◌%◌, ◌^◌, Bool, true, false, not, ◌||◌, ltb, leb, ◌==◌,
  if◌then◌else◌, Option, none, some, Result, ok, panic, endless, ◌>>=◌, ◌>>◌, require,
}

abbrev pub page_size : ℕ
page_size = 4096

-- `block->next = next; block->prev = prev`, where one of them is kept by passing the old value.
abbrev pub link : (block : ℕ) → (next prev : Option ℕ) → Heap → Heap
link block next prev h = write h block (record (h.blocks block) { next = next; prev = prev })

-- The first block, from `current` on, that does not lie below `new`.
pub find_not_below : (rounds new : ℕ) → (current : Option ℕ) → Heap → Result (Option ℕ)
find_not_below zero new current h = endless
find_not_below (suc rounds) new none h = ok none
find_not_below (suc rounds) new (some current) h = elim (ltb current new) [
  | true ↦ find_not_below rounds new (h.blocks current).next h
  | false ↦ ok (some current)
]

-- The last block, from `tail` on.
pub find_tail : (rounds tail : ℕ) → (next : Option ℕ) → Heap → Result ℕ
find_tail zero tail next h = endless
find_tail (suc rounds) tail none h = ok tail
find_tail (suc rounds) tail (some next) h = find_tail rounds next (h.blocks next).next h

pub insert_last : (rounds new first : ℕ) → Heap → Result Heap
insert_last rounds new first h = do
  tail ← find_tail rounds first (h.blocks first).next h
  let behind = link tail (some new) (h.blocks tail).prev h
  ok (link new none (some tail) behind)

-- Before a block that is not the first, and so has one before it.
pub insert_between : (new current : ℕ) → (previous : Option ℕ) → Heap → Result Heap
insert_between new current none h = panic
insert_between new current (some previous) h =
    let after = link previous (some new) (h.blocks previous).prev h in
    let own = link new (some current) (some previous) after in
    ok (link current (own.blocks current).next (some new) own)

pub insert_at : (rounds new first : ℕ) → (current : Option ℕ) → Heap → Result Heap
insert_at rounds new first none h = insert_last rounds new first h
insert_at rounds new first (some current) h =
    if current == first
    then (let own = link new (some first) none h in
        let back = link first (own.blocks first).next (some new) own in
        ok (record back { head = some new }))
    else insert_between new current (h.blocks current).prev h

pub insert_from_head : (rounds new : ℕ) → (head : Option ℕ) → Heap → Result Heap
insert_from_head rounds new none h = ok (record (link new none none h) { head = some new })
insert_from_head rounds new (some first) h = do
  current ← find_not_below rounds new (some first) h
  insert_at rounds new first current h

pub insert_block_sorted : (rounds new : ℕ) → Heap → Result Heap
insert_block_sorted rounds new h = do validate_block new h; insert_from_head rounds new h.head h

-- The new region's only block, as it is before it is linked.
abbrev pub region_block : (region_bytes : ℕ) → Block
region_block region_bytes = record {
  magic = heap_magic;
  size = (region_bytes + 2 ^ 32 - header) % 2 ^ 32;
  is_free = true;
  next = none;
  prev = none;
}

abbrev pub at_least_one : ℕ → ℕ
at_least_one pages = if pages == 0 then 1 else pages

pub extend : (rounds pages region_bytes : ℕ) → Heap → Result (Option ℕ × Heap)
extend rounds pages region_bytes h = do
  let start = h.virtual_next
  let grown = record h {
    virtual_next = (start + region_bytes) % 2 ^ 32;
    region_bytes = (h.region_bytes + region_bytes) % 2 ^ 32;
    mapped_pages = (h.mapped_pages + pages) % 2 ^ 32;
  }
  inserted ← insert_block_sorted rounds start (write grown start (region_block region_bytes))
  out ← coalesce_around start inserted
  ok (some out.0, out.1)

pub heap_add_region :
    (rounds : ℕ) → (mapped : Bool) → (page_count : ℕ) → Heap → Result (Option ℕ × Heap)
heap_add_region rounds mapped page_count h =
    let pages = at_least_one page_count in
    let region_bytes = (pages * page_size) % 2 ^ 32 in
    if ltb h.virtual_limit h.virtual_next || ltb (h.virtual_limit - h.virtual_next) region_bytes
    then ok (none, h)
    else if not mapped
    then ok (none, h)
    else extend rounds pages region_bytes h

abbrev pub pages_for : (minimum_payload_bytes : ℕ) → ℕ
pages_for minimum_payload_bytes =
    at_least_one (((minimum_payload_bytes + header + page_size - 1) % 2 ^ 32) / page_size)

pub heap_grow :
    (rounds : ℕ) → (mapped : Bool) → (minimum_payload_bytes : ℕ) → Heap → Result (Option ℕ × Heap)
heap_grow rounds mapped minimum_payload_bytes h =
    if ltb (0xffffffff - header) minimum_payload_bytes
    then ok (none, h)
    else heap_add_region rounds mapped (pages_for minimum_payload_bytes) h

abbrev pub align_up_8 : ℕ → ℕ
align_up_8 value = (value + 7) - (value + 7) % 8

-- The block that is handed out, once it has been found.
pub take_found : (wanted : ℕ) → Option ℕ → Heap → Result (Option ℕ × Heap)
take_found wanted none h = panic
take_found wanted (some block) h = do out ← hand_out block wanted h; ok (some out.0, out.1)

-- The second search, in a heap that has grown.
pub search_again : (rounds wanted : ℕ) → Option ℕ × Heap → Result (Option ℕ × Heap)
search_again rounds wanted (none, h) = panic
search_again rounds wanted (some region, h) = do
  found ← find_free_block rounds wanted h.head h
  take_found wanted found h

pub search : (rounds wanted : ℕ) → (mapped : Bool) → Option ℕ → Heap → Result (Option ℕ × Heap)
search rounds wanted mapped none h = heap_grow rounds mapped wanted h >>= search_again rounds wanted
search rounds wanted mapped (some block) h = take_found wanted (some block) h

pub kmalloc : (rounds : ℕ) → (mapped : Bool) → (size : ℕ) → Heap → Result (Option ℕ × Heap)
kmalloc rounds mapped size h = do
  require h.initialized
  if size == 0
      then ok (none, h)
      else if ltb (0xffffffff - 7) size
      then panic
      else find_free_block rounds (align_up_8 size) h.head h
        >>= (λ found. search rounds (align_up_8 size) mapped found h)

pub require_some : Option ℕ × Heap → Result Heap
require_some (none, h) = panic
require_some (some block, h) = ok h

-- The constants are HEAP_VIRTUAL_BASE and HEAP_VIRTUAL_LIMIT.
pub heap_init : (rounds : ℕ) → (mapped : Bool) → (initial_pages : ℕ) → Heap → Result Heap
heap_init rounds mapped initial_pages h = do
  require (not h.initialized)
  out ← heap_add_region rounds mapped (at_least_one initial_pages) (record h {
    head = none;
    virtual_base = 0xd1000000;
    virtual_next = 0xd1000000;
    virtual_limit = 0xd2000000;
    region_bytes = 0;
    mapped_pages = 0;
    active = 0;
    total = 0;
    initialized = true;
  })
  require_some out
