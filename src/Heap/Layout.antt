-- ===== src/Heap/Layout.antt =====
-- The layout of the heap: its blocks lie one behind the other, without gaps, and are linked both ways
-- in that order.
use toyix.Heap.{Heap, Block, heap_magic, header, validate_block, ptr_is_inside_heap_region}
use toyix.Prelude.{
  ℕ, ◌+◌, ◌≡◌, ◌<◌, ◌≤◌, ◌^◌, Bool, Option, none, some, ok, refl, true, List, [], ◌∷◌, arith,
}

-- A block by its size, and whether it is free.
pub record Segment : Type 0 where
  pub size : ℕ
  pub is_free : Bool

-- The link to a block at `a`, where there is one.
abbrev pub first_of : ℕ → List Segment → Option ℕ
first_of a [] = none
first_of a (seg ∷ rest) = some a

-- The blocks from address `a` to `stop` are these, and the block before them is `before`.
abbrev pub Tiled : (ℕ → Block) → (before : Option ℕ) → (a stop : ℕ) → List Segment → Type 0
Tiled blocks before a stop [] = a ≡ stop
Tiled blocks before a stop (seg ∷ rest) =
    (blocks a ≡ record {
      magic = heap_magic;
      size = seg.size;
      is_free = seg.is_free;
      next = first_of (a + header + seg.size) rest;
      prev = before;
    })
    × Tiled blocks (some a) (a + header + seg.size) stop rest

-- The heap consists of these blocks, from its base on, all of it below 2 ^ 32.
pub record Laid (h : Heap) (segments : List Segment) : Type 0 where
  pub tiled : Tiled h.blocks none h.virtual_base h.virtual_next segments
  pub first : h.head ≡ first_of h.virtual_base segments
  pub below : h.virtual_next < 2 ^ 32

pub Tiled-le :
    (blocks : ℕ → Block) (before : Option ℕ) (a stop : ℕ) (segs : List Segment)
    → Tiled blocks before a stop segs
    → a ≤ stop
Tiled-le blocks before a stop [] e = omega arith
Tiled-le blocks before a stop (seg ∷ rest) (_, tiled) =
    let le = Tiled-le blocks (some a) (a + header + seg.size) stop rest tiled in omega arith

pub validate_fields :
    (h : Heap) (a : ℕ)
    → h.virtual_base ≤ a
    → a < h.virtual_next
    → (h.blocks a).magic ≡ heap_magic
    → validate_block a h ≡ ok tt
unfolding validate_block
validate_fields h a low high magic =
    let inside : ptr_is_inside_heap_region h a ≡ true = ground arith in rw (inside, magic) refl

-- A block between the bounds of the heap passes validate_block.
pub validate_block_lem :
    (h : Heap) (before : Option ℕ) (a : ℕ) (seg : Segment) (rest : List Segment)
    → h.virtual_base ≤ a
    → Tiled h.blocks before a h.virtual_next (seg ∷ rest)
    → validate_block a h ≡ ok tt
unfolding validate_block
validate_block_lem h before a seg rest low (here, tiled) =
    let le = Tiled-le h.blocks (some a) (a + header + seg.size) h.virtual_next rest tiled in
    let inside : ptr_is_inside_heap_region h a ≡ true = ground arith in rw (inside, here) refl
