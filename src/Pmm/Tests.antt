-- ===== src/Pmm/Tests.antt =====
-- Runs of the page allocator, and its theorems at a state with one free frame.
use toyix.Prelude.{
  ℕ, ◌+◌, ◌<◌, ◌≡◌, ◌↔◌, ◌⊎◌, inl, inr, refl, true, false, not, ◌&&◌, some, ok, panic, arith, ◌==◌,
}
use toyix.Pmm.{
  Pmm, MmapEntry, MultibootInfo, max_frames, bitmap_test, bitmap_clear, mark_all_frames_used,
  mark_frame_free, alloc_from, alloc_page, alloc_contiguous_pages_below, find_run, free_page, init,
  get_stats, discover_from_mmap,
}
use toyix.Pmm.Accounting.{IsValid, mark_free-IsValid}
use toyix.Pmm.Alloc.{Allocated, Refused, alloc_page-first_free}
use toyix.Pmm.Run.{RunTaken, RunRefused, alloc_contiguous-run}
use toyix.Pmm.Free.{IsFreeable, free_page-cases, free_page-alloc}
use toyix.Pmm.Region.{covers}
use toyix.Pmm.Map.{IsMap, Visited, Mapped, discover_from_mmap-Mapped}
use toyix.Pmm.Init.{kept_back, init-free_iff, mark_all-IsValid}

abbrev pub zeroed : Pmm
zeroed = record { bitmap = λ _. 0; total = 0; usable = 0; reserved = 0; free = 0; highest = 0 }

abbrev pub all_used : Pmm
all_used = mark_all_frames_used zeroed

-- Only frame 300, at 0x12C000, is free.
abbrev pub one_free : Pmm
one_free = mark_frame_free all_used 300

pub all_used-IsValid : IsValid all_used
all_used-IsValid = mark_all-IsValid zeroed (λ i. omega arith)

pub one_free-IsValid : IsValid one_free
one_free-IsValid = mark_free-IsValid 300 all_used-IsValid

alloc_run : (alloc_page one_free).0 ≡ 0x12c000
unfolding alloc_page alloc_from mark_frame_free mark_all_frames_used bitmap_test bitmap_clear
alloc_run = refl

stats_run : (get_stats one_free).free_frames ≡ 1
unfolding get_stats mark_frame_free mark_all_frames_used bitmap_test
stats_run = refl

frame_300 : bitmap_test one_free.bitmap 300 ≡ false
unfolding bitmap_test bitmap_clear mark_frame_free mark_all_frames_used
frame_300 = refl

alloc_page-first_free_example :
    Allocated one_free 256 max_frames (alloc_page one_free)
    ⊎ Refused one_free 256 max_frames (alloc_page one_free)
alloc_page-first_free_example = alloc_page-first_free one_free-IsValid

one_Allocated : Allocated one_free 256 max_frames (alloc_page one_free)
one_Allocated = elim (alloc_page-first_free one_free-IsValid) [
  | inl a ↦ a
  | inr r ↦ absurd (ground (arith, r.full 300, frame_300))
]

alloc_contiguous-run_example :
    RunTaken one_free 256 4096 1 (alloc_contiguous_pages_below 1 0x1000000 one_free)
    ⊎ RunRefused one_free 256 4096 1 (alloc_contiguous_pages_below 1 0x1000000 one_free)
alloc_contiguous-run_example =
    alloc_contiguous-run 1 0x1000000 one_free-IsValid (omega arith) (omega arith)

contiguous_run : (alloc_contiguous_pages_below 1 0x1000000 one_free).0 ≡ 0x12c000
unfolding alloc_contiguous_pages_below find_run mark_frame_free mark_all_frames_used bitmap_test
    bitmap_clear
contiguous_run = refl

free_page-cases_example :
    (IsFreeable 0x12c000
      × ((s' : Pmm) × (free_page 0x12c000 all_used ≡ ok s')
          × IsValid s'
          × ((g : ℕ)
              → bitmap_test s'.bitmap g ≡ (not (300 == g) && bitmap_test all_used.bitmap g))))
    ⊎ (¬ IsFreeable 0x12c000 × (free_page 0x12c000 all_used ≡ panic))
free_page-cases_example = free_page-cases 0x12c000 all_used (omega arith) all_used-IsValid

free_page-alloc_example :
    (s' : Pmm) × (free_page (alloc_page one_free).0 (alloc_page one_free).1 ≡ ok s')
    × IsValid s'
    × (s'.free ≡ one_free.free)
    × ((g : ℕ) → bitmap_test s'.bitmap g ≡ bitmap_test one_free.bitmap g)
free_page-alloc_example = free_page-alloc (omega arith) (omega arith) one_Allocated

-- A map with one entry: 15 MiB of available memory from 1 MiB on.
abbrev entry_at : ℕ → MmapEntry
entry_at c = record {
  size = 20;
  base_addr_low = 0x100000;
  base_addr_high = 0;
  length_low = 0xf00000;
  length_high = 0;
  kind = 1;
}

abbrev mbi : MultibootInfo
mbi = record { addr = 0x9000; flags = 64; mmap_length = 24; mmap_addr = 0x9100 }

entry_at-IsMap : IsMap entry_at (0x9100 + 24)
entry_at-IsMap = record { entries = λ c. omega arith; advances = λ c h. omega arith }

discover_from_mmap-Mapped_example :
    (s' : Pmm) × (discover_from_mmap entry_at mbi all_used ≡ ok s')
    × Mapped entry_at (0x9100 + 24) 0x9100 all_used s'
discover_from_mmap-Mapped_example =
    discover_from_mmap-Mapped entry_at mbi entry_at-IsMap (omega arith) all_used-IsValid

init-free_iff_example :
    (s' : Pmm) × (init 0x100000 0x140000 entry_at (some mbi) zeroed ≡ ok s')
    × IsValid s'
    × ((g : ℕ)
        → g < max_frames
        → (bitmap_test s'.bitmap g ≡ false) ↔ (
            (kept_back 0x100000 0x140000 mbi g ≡ false)
            × ((d : ℕ) × Visited entry_at (0x9100 + 24) d 0x9100 × (covers (entry_at d) g ≡ true))))
init-free_iff_example =
    init-free_iff 0x100000 0x140000 entry_at mbi zeroed (λ i. omega arith) (omega arith)
      entry_at-IsMap
