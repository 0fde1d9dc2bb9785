-- ===== src/Heap/Tests.antt =====
-- A heap of three blocks, and instances of its theorems.
use toyix.Heap.{Heap, heap_magic, header, kfree}
use toyix.Heap.Layout.{Segment, Laid}
use toyix.Heap.Alloc.{kmalloc}
use toyix.Heap.Alloc.Append.{fresh_segment}
use toyix.Heap.Alloc.Grow.{has_room, region_for}
use toyix.Heap.Alloc.Placed.{placed}
use toyix.Heap.Alloc.Kmalloc.{Allocated, kmalloc-Allocated}
use toyix.Heap.Stats.{heap_compute_stats, heap_compute_stats-sums}
use toyix.Heap.Release.{absorbed, freed, kfree-Laid}
use toyix.Prelude.{
  List, ℕ, ◌+◌, ◌*◌, ◌≡◌, refl, ◌==◌, if◌then◌else◌, true, false, some, none, ok, [], ◌∷◌, arith,
}

abbrev base : ℕ
base = 0xd1000000

-- 64 bytes in use between two free blocks.
abbrev first_block : Segment
first_block = record { size = 32; is_free = true }

abbrev second_block : Segment
second_block = record { size = 64; is_free = false }

abbrev third_block : Segment
third_block = record { size = 3928; is_free = true }

abbrev sample : Heap
sample = record {
  blocks = λ a.
      if a == base
      then record {
        magic = heap_magic;
        size = 32;
        is_free = true;
        next = some (base + 56);
        prev = none;
      }
      else if a == base + 56
      then record {
        magic = heap_magic;
        size = 64;
        is_free = false;
        next = some (base + 144);
        prev = some base;
      }
      else record {
        magic = heap_magic;
        size = 3928;
        is_free = true;
        next = none;
        prev = some (base + 56);
      };
  head = some base;
  initialized = true;
  virtual_base = base;
  virtual_next = base + 4096;
  virtual_limit = 0xd2000000;
  region_bytes = 4096;
  mapped_pages = 1;
  active = 1;
  total = 5;
}

sample-Laid : Laid sample (first_block ∷ second_block ∷ third_block ∷ [])
sample-Laid = record { tiled = (refl, (refl, (refl, refl))); first = refl; below = omega arith }

abbrev sample_blocks : List Segment
sample_blocks = first_block ∷ second_block ∷ third_block ∷ []

-- 100 bytes, rounded up to 104, of the third block.
kmalloc-Allocated_example :
    Allocated
      (placed 104 base sample_blocks)
      (placed 104 base (absorbed sample_blocks (fresh_segment (region_for 104)) []))
      (has_room true 104 sample)
      (kmalloc 8 true 100 sample)
kmalloc-Allocated_example =
    kmalloc-Allocated 8 100 true sample sample_blocks (omega arith) refl (omega arith) (omega arith)
      (omega arith) sample-Laid

placed_run :
    placed 104 base sample_blocks
    ≡ some (
      base + 168,
      first_block
          ∷ second_block
          ∷ record { size = 104; is_free = false }
          ∷ record { size = 3800; is_free = true }
          ∷ [],
    )
placed_run = refl

heap_compute_stats-sums_example :
    (heap_compute_stats 4 sample
      ≡ ok (record { free_payload_bytes = 3960; used_payload_bytes = 64; block_count = 3 }))
    × (base + 3960 + 64 + header * 3 ≡ base + 4096)
heap_compute_stats-sums_example =
    heap_compute_stats-sums 4 sample sample_blocks (omega arith) sample-Laid

-- The block in use is given back and merges with both others.
kfree-Laid_example :
    (h' : Heap) × (kfree (some (base + 56 + header)) sample ≡ ok h')
    × Laid h' (absorbed (first_block ∷ []) (freed second_block) (third_block ∷ []))
kfree-Laid_example =
    kfree-Laid sample (first_block ∷ []) second_block (third_block ∷ []) sample-Laid refl
      (omega arith)

merged_run :
    absorbed (first_block ∷ []) (freed second_block) (third_block ∷ [])
    ≡ record { size = 4072; is_free = true } ∷ []
merged_run = refl
