-- ===== src/Heap/Stats.antt =====
-- heap_compute_stats counts the blocks and their bytes, and misses none.
use toyix.Heap.{Heap, Block, header, validate_block}
use toyix.Heap.Layout.{Segment, first_of, Tiled, Laid, validate_block_lem}
use toyix.Prelude.{
  ℕ, zero, suc, ◌+◌, ◌*◌, ◌%◌, ◌^◌, ◌<◌, ◌≤◌, ◌≡◌, refl, ap, ◌∙◌, Bool, true, false, if◌then◌else◌,
  inl, inr, Bool-cases, Option, none, some, Result, ok, endless, ◌>>◌, List, [], ◌∷◌, length, arith,
}

-- The part of heap_stats_t that is computed from the blocks.
pub record Stats : Type 0 where
  pub free_payload_bytes : ℕ
  pub used_payload_bytes : ℕ
  pub block_count : ℕ

-- One round of the loop.
pub count_block : Block → Stats → Stats
count_block block stats = record {
  free_payload_bytes =
      if block.is_free
      then (stats.free_payload_bytes + block.size) % 2 ^ 32
      else stats.free_payload_bytes;
  used_payload_bytes =
      if block.is_free
      then stats.used_payload_bytes
      else (stats.used_payload_bytes + block.size) % 2 ^ 32;
  block_count = (stats.block_count + 1) % 2 ^ 32;
}

pub count_from : (rounds : ℕ) → (block : Option ℕ) → Stats → Heap → Result Stats
count_from zero block stats h = endless
count_from (suc rounds) none stats h = ok stats
count_from (suc rounds) (some block) stats h = do
  validate_block block h
  count_from rounds (h.blocks block).next (count_block (h.blocks block) stats) h

pub heap_compute_stats : (rounds : ℕ) → Heap → Result Stats
heap_compute_stats rounds h =
    count_from rounds h.head
      (record { free_payload_bytes = 0; used_payload_bytes = 0; block_count = 0 }) h

-- The bytes of the free blocks, and those of the others.
abbrev pub free_bytes : List Segment → ℕ
free_bytes [] = 0
free_bytes (seg ∷ rest) = (if seg.is_free then seg.size else 0) + free_bytes rest

abbrev pub used_bytes : List Segment → ℕ
used_bytes [] = 0
used_bytes (seg ∷ rest) = (if seg.is_free then 0 else seg.size) + used_bytes rest

bytes-Tiled :
    (blocks : ℕ → Block) (before : Option ℕ) (a stop : ℕ) (segs : List Segment)
    → Tiled blocks before a stop segs
    → a + free_bytes segs + used_bytes segs + header * length segs ≡ stop
bytes-Tiled blocks before a stop [] e = omega (arith, e)
bytes-Tiled blocks before a stop (seg ∷ rest) (_, tiled) =
    let sum = bytes-Tiled blocks (some a) (a + header + seg.size) stop rest tiled in
    elim (Bool-cases seg.is_free) [
      | inl e ↦ rw e (omega (arith, sum))
      | inr e ↦ rw e (omega (arith, sum))
    ]

abbrev pub plus : Stats → (free used blocks : ℕ) → Stats
plus stats free used blocks = record {
  free_payload_bytes = stats.free_payload_bytes + free;
  used_payload_bytes = stats.used_payload_bytes + used;
  block_count = stats.block_count + blocks;
}

plus-same :
    (stats : Stats) (f u c f' u' c' : ℕ)
    → f ≡ f'
    → u ≡ u'
    → c ≡ c'
    → plus stats f u c ≡ plus stats f' u' c'
plus-same stats f u c f' u' c' e e' e'' = rw (e, e', e'') refl

sum : (a b c : ℕ) → a + b + c ≡ a + (b + c)
sum a b c = omega arith

small : (n : ℕ) → n < 2 ^ 32 → n % 2 ^ 32 ≡ n
small n below = omega arith

add_zero : (n : ℕ) → n + 0 ≡ n
add_zero n = omega arith

zero_add : (n : ℕ) → 0 + n ≡ n
zero_add n = omega arith

plus-plus :
    (stats : Stats) (f u c f' u' c' : ℕ)
    → plus (plus stats f u c) f' u' c' ≡ plus stats (f + f') (u + u') (c + c')
plus-plus stats f u c f' u' c' = cc (
  sum stats.free_payload_bytes f f',
  sum stats.used_payload_bytes u u',
  sum stats.block_count c c',
)

counted-cases :
    (free : Bool) (size : ℕ) (stats : Stats)
    → stats.free_payload_bytes + (if free then size else 0) < 2 ^ 32
    → stats.used_payload_bytes + (if free then 0 else size) < 2 ^ 32
    → stats.block_count + 1 < 2 ^ 32
    → (record {
      free_payload_bytes =
          if free then (stats.free_payload_bytes + size) % 2 ^ 32 else stats.free_payload_bytes;
      used_payload_bytes =
          if free then stats.used_payload_bytes else (stats.used_payload_bytes + size) % 2 ^ 32;
      block_count = (stats.block_count + 1) % 2 ^ 32;
    })
      ≡ plus stats (if free then size else 0) (if free then 0 else size) 1
counted-cases true size stats f u c = cc (
  small (stats.free_payload_bytes + size) f,
  small (stats.block_count + 1) c,
  add_zero stats.used_payload_bytes,
)
counted-cases false size stats f u c = cc (
  small (stats.used_payload_bytes + size) u,
  small (stats.block_count + 1) c,
  add_zero stats.free_payload_bytes,
)

count_block-plus :
    (block : Block) (stats : Stats)
    → stats.free_payload_bytes + (if block.is_free then block.size else 0) < 2 ^ 32
    → stats.used_payload_bytes + (if block.is_free then 0 else block.size) < 2 ^ 32
    → stats.block_count + 1 < 2 ^ 32
    → count_block block stats
      ≡ plus stats
          (if block.is_free then block.size else 0)
          (if block.is_free then 0 else block.size)
          1
unfolding count_block
count_block-plus block stats f u c = counted-cases block.is_free block.size stats f u c

count_from-plus :
    (rounds : ℕ) (h : Heap) (before : Option ℕ) (a : ℕ) (segs : List Segment) (stats : Stats)
    → length segs < rounds
    → h.virtual_base ≤ a
    → stats.free_payload_bytes + free_bytes segs < 2 ^ 32
    → stats.used_payload_bytes + used_bytes segs < 2 ^ 32
    → stats.block_count + length segs < 2 ^ 32
    → Tiled h.blocks before a h.virtual_next segs
    → count_from rounds (first_of a segs) stats h
      ≡ ok (plus stats (free_bytes segs) (used_bytes segs) (length segs))
unfolding count_from
count_from-plus zero h before a segs stats few low f u c tiled = absurd (omega arith)
count_from-plus (suc rounds) h before a [] stats few low f u c tiled = ap ok (
    cc (
      add_zero stats.free_payload_bytes,
      add_zero stats.used_payload_bytes,
      add_zero stats.block_count,
    ))
count_from-plus (suc rounds) h before a (seg ∷ rest) stats few low f u c (here, tiled) =
    let valid = validate_block_lem h before a seg rest low (here, tiled) in
    let free = if seg.is_free then seg.size else 0 in
    let used = if seg.is_free then 0 else seg.size in
    let next : (h.blocks a).next ≡ first_of (a + header + seg.size) rest =
      ap {A = Block} (λ b. b.next) here in
    let counted : count_block (h.blocks a) stats ≡ plus stats free used 1 =
      rw here (count_block-plus _ stats (omega arith) (omega arith) (omega arith)) in
    let rest_lem =
      count_from-plus rounds h (some a) (a + header + seg.size) rest (plus stats free used 1)
        (omega arith) (omega arith) (omega arith) (omega arith) (omega arith) tiled in
    let there = first_of (a + header + seg.size) rest in
    let stepped : count_from rounds (h.blocks a).next (count_block (h.blocks a) stats) h
        ≡ count_from rounds there (plus stats free used 1) h =
      ap (λ n. count_from rounds n (count_block (h.blocks a) stats) h) next
      ∙ ap (λ s. count_from rounds there s h) counted in
    let one : 1 + length rest ≡ suc (length rest) = omega arith in
    let joined = plus-plus stats free used 1 (free_bytes rest) (used_bytes rest) (length rest) in
    rw valid (stepped ∙ rest_lem ∙ ap ok (joined ∙ plus-same stats _ _ _ _ _ _ refl refl one))

-- In a heap of these blocks, heap_compute_stats gives the bytes of its free and of its used blocks and
-- their number, and these and the headers are all the bytes of the heap.
pub heap_compute_stats-sums :
    (rounds : ℕ) (h : Heap) (segs : List Segment)
    → length segs < rounds
    → Laid h segs
    → (heap_compute_stats rounds h
        ≡ ok (record {
          free_payload_bytes = free_bytes segs;
          used_payload_bytes = used_bytes segs;
          block_count = length segs;
        }))
      × (h.virtual_base + free_bytes segs + used_bytes segs + header * length segs ≡ h.virtual_next)
unfolding heap_compute_stats
heap_compute_stats-sums rounds h segs few laid =
    let bytes = bytes-Tiled h.blocks none h.virtual_base h.virtual_next segs laid.tiled in
    let start : Stats = record {
      free_payload_bytes = 0;
      used_payload_bytes = 0;
      block_count = 0;
    } in
    let counted =
      count_from-plus rounds h none h.virtual_base segs start few (omega arith)
        (omega (arith, laid.below, bytes)) (omega (arith, laid.below, bytes))
        (omega (arith, laid.below, bytes)) laid.tiled in
    (
      ap (λ b. count_from rounds b start h) laid.first
          ∙ counted
          ∙ ap ok
              (cc (zero_add (free_bytes segs), zero_add (used_bytes segs), zero_add (length segs))),
      bytes,
    )
