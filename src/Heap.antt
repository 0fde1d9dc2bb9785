-- ===== src/Heap.antt =====
-- kernel/heap.c: the allocator of the kernel. The headers of the blocks are a store from addresses to
-- records, linked both ways; a null pointer is `none`. What callers write between the headers is not
-- modelled. The regions that the heap grows by are in Heap/Alloc.antt.
pub mod Layout
pub mod Alloc
pub mod Find
pub mod Splice
pub mod Cut
pub mod HandOut
pub mod Merge
pub mod Free
pub mod Release
pub mod Stats
mod Tests
use toyix.Prelude.{
  ℕ, zero, suc, ◌+◌, ◌-◌, ◌*◌, ◌/◌, ◌%◌, ◌^◌, Bool, true, false, not, ◌&&◌, ltb, leb, ◌==◌,
  if◌then◌else◌, Option, none, some, update, Result, ok, panic, endless, ◌>>=◌, ◌>>◌, require,
}

abbrev pub heap_magic : ℕ
heap_magic = 0x48454150

-- The size of a header: six words, already a multiple of 8.
abbrev pub header : ℕ
header = 24

abbrev pub min_split_payload : ℕ
min_split_payload = 16

-- heap_block_t
pub record Block : Type 0 where
  pub magic : ℕ
  pub size : ℕ
  pub is_free : Bool
  pub next : Option ℕ
  pub prev : Option ℕ

-- The static variables.
pub record Heap : Type 0 where
  pub blocks : ℕ → Block
  pub head : Option ℕ
  pub initialized : Bool
  pub virtual_base : ℕ
  pub virtual_next : ℕ
  pub virtual_limit : ℕ
  pub region_bytes : ℕ
  pub mapped_pages : ℕ
  pub active : ℕ
  pub total : ℕ

abbrev pub write : Heap → ℕ → Block → Heap
write h block b = record h { blocks = update h.blocks block b }

-- `next->prev = prev`, where there is a next block.
pub link_back : (ℕ → Block) → (next prev : Option ℕ) → ℕ → Block
link_back blocks none prev = blocks
link_back blocks (some next) prev = update blocks next (record (blocks next) { prev = prev })

abbrev pub block_end_addr : Heap → ℕ → ℕ
block_end_addr h block = (block + header + (h.blocks block).size) % 2 ^ 32

abbrev pub ptr_is_inside_heap_region : Heap → ℕ → Bool
ptr_is_inside_heap_region h addr = leb h.virtual_base addr && ltb addr h.virtual_next

-- A block is never null here.
pub validate_block : ℕ → Heap → Result (Unit {0})
validate_block block h = do
  require (ptr_is_inside_heap_region h block)
  require ((h.blocks block).magic == heap_magic)

-- The merge itself: the header of `next` is left as it is.
pub absorb : (block next : ℕ) → Heap → Heap
absorb block next h =
    let grown = record (h.blocks block) {
      size = ((h.blocks block).size + header + (h.blocks next).size) % 2 ^ 32;
      next = (h.blocks next).next;
    } in
    let merged = update h.blocks block grown in
    record h { blocks = link_back merged (merged next).next (some block) }

pub coalesce_pair : (block : ℕ) → (next : Option ℕ) → Heap → Result Heap
coalesce_pair block none h = ok h
coalesce_pair block (some next) h = do
  validate_block next h
  if (h.blocks block).is_free && (h.blocks next).is_free && block_end_addr h block == next
      then ok (absorb block next h)
      else ok h

pub coalesce_with_next : (block : ℕ) → Heap → Result Heap
coalesce_with_next block h = do validate_block block h; coalesce_pair block (h.blocks block).next h

-- The second half of coalesce_around; the block that is left comes with the heap.
pub coalesce_back : (block : ℕ) → (prev : Option ℕ) → Heap → Result (ℕ × Heap)
coalesce_back block none h = ok (block, h)
coalesce_back block (some prev) h = do
  validate_block prev h
  if (h.blocks prev).is_free && block_end_addr h prev == block
      then coalesce_with_next prev h >>= (λ h'. ok (prev, h'))
      else ok (block, h)

pub coalesce_around : (block : ℕ) → Heap → Result (ℕ × Heap)
coalesce_around block h = do
  validate_block block h
  h' ← coalesce_with_next block h
  coalesce_back block (h'.blocks block).prev h'

-- The new block behind the first `wanted` bytes of `block`.
pub cut : (block wanted leftover : ℕ) → Heap → Heap
cut block wanted leftover h =
    let split = (block + header + wanted) % 2 ^ 32 in
    let new : Block = record {
      magic = heap_magic;
      size = leftover - header;
      is_free = true;
      next = (h.blocks block).next;
      prev = some block;
    } in
    let made = update h.blocks split new in
    let linked = link_back made (made block).next (some split) in
    record h {
      blocks = update linked block (record (linked block) { next = some split; size = wanted });
    }

pub split_block_if_large_enough : (block wanted : ℕ) → Heap → Result Heap
split_block_if_large_enough block wanted h = do
  validate_block block h
  require (leb wanted (h.blocks block).size)
  if ltb ((h.blocks block).size - wanted) (header + min_split_payload)
      then ok h
      else ok (cut block wanted ((h.blocks block).size - wanted) h)

-- From `block` on.
pub find_free_block : (rounds wanted : ℕ) → (block : Option ℕ) → Heap → Result (Option ℕ)
find_free_block zero wanted block h = endless
find_free_block (suc rounds) wanted none h = ok none
find_free_block (suc rounds) wanted (some block) h = do
  validate_block block h
  elim ((h.blocks block).is_free && leb wanted (h.blocks block).size) [
    | true ↦ ok (some block)
    | false ↦ find_free_block rounds wanted (h.blocks block).next h
  ]

-- From the block that was found on, and what kmalloc returns.
pub hand_out : (block wanted : ℕ) → Heap → Result (ℕ × Heap)
hand_out block wanted h = do
  split ← split_block_if_large_enough block wanted h
  let taken = write split block (record (split.blocks block) { is_free = false })
  ok (
    (block + header) % 2 ^ 32,
    record taken { active = (taken.active + 1) % 2 ^ 32; total = (taken.total + 1) % 2 ^ 32 },
  )

pub release : (block : ℕ) → Heap → Result Heap
release block h = do
  validate_block block h
  require (not (h.blocks block).is_free)
  let freed = write h block (record (h.blocks block) { is_free = true })
  let counted = record freed {
    active = if ltb 0 freed.active then freed.active - 1 else freed.active;
  }
  out ← coalesce_around block counted
  ok out.1

pub kfree : (ptr : Option ℕ) → Heap → Result Heap
kfree none h = ok h
kfree (some ptr) h = do require (ptr_is_inside_heap_region h ptr); release (ptr - header) h
