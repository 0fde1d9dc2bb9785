-- ===== src/Vmm/Tests.antt =====
-- The theorems of the mapper at small states.
use toyix.Prelude.{
  ℕ, ◌*◌, ◌%◌, ◌/◌, ◌<◌, ◌≡◌, ◌≢◌, ◌⊎◌, inl, inr, refl, ap, true, arith, ◌==◌, if◌then◌else◌,
}
use toyix.PageTable.{walk}
use toyix.Pmm.{bitmap_test, max_frames}
use toyix.Pmm.Accounting.{test-mark_free}
use toyix.Pmm.Alloc.{alloc_page_below-first_free}
use toyix.Pmm.Init.{test-mark_all}
use toyix.Pmm.Tests.{zeroed, all_used, one_free, all_used-IsValid, one_free-IsValid}
use toyix.Vmm.{
  Vmm, done, map_page, unmap_page, get_physical, get_flags, get_or_create_page_table, page_entry,
  entry_present,
}
use toyix.Vmm.Spec.{IsValid}
use toyix.Vmm.Table.{NoTable}
use toyix.Vmm.Map.{Mapped, Occupied, TableAtZero, map_page-cases}
use toyix.Vmm.Translate.{map_page-get_physical, map_page-null_table}
use toyix.Vmm.Unmap.{Unmapped, Missing, unmap_page-cases}

-- The directory in frame 8 has one table, in frame 10, for the addresses from 0xD0000000 on.
abbrev one_table : Vmm
one_table = record {
  memory = λ a. if a == 0x8d00 then 0xa003 else 0;
  directory = 0x8000;
  mapped_page_count = 0;
  pmm = one_free;
}

frame_used : (g : ℕ) → g < max_frames → g ≢ 300 → bitmap_test one_free.bitmap g ≡ true
frame_used g h ne =
    ground (arith, test-mark_free 300 g all_used-IsValid (omega arith), test-mark_all zeroed g h)

one_table-IsValid : IsValid one_table
one_table-IsValid = record {
  words = λ a. ground arith;
  tree = record {
    aligned = omega arith;
    apart = λ i h p. ground arith;
    disjoint = λ i j hi hj p q. ground arith;
  };
  pmm = one_free-IsValid;
  directory_used = frame_used 8 (omega arith) (omega arith);
  tables_used = λ i h p. ground (arith, frame_used 10);
}

map_page-cases_example :
    Mapped one_table 0xd0003000 0x500000 2 (map_page 0xd0003000 0x500000 2 one_table)
    ⊎ Occupied one_table 0xd0003000 (map_page 0xd0003000 0x500000 2 one_table)
    ⊎ TableAtZero one_table 0xd0003000 0x500000 2 (map_page 0xd0003000 0x500000 2 one_table)
map_page-cases_example =
    map_page-cases 0xd0003000 0x500000 2 one_table-IsValid (omega arith) (omega arith) (omega arith)
      (omega arith)

one_Mapped :
    (flags : ℕ)
    → Mapped one_table 0xd0003000 0x500000 flags (map_page 0xd0003000 0x500000 flags one_table)
unfolding walk
one_Mapped flags =
    elim (map_page-cases 0xd0003000 0x500000 flags one_table-IsValid (omega arith) (omega arith)
      (omega arith) (omega arith)) [
        | inl m ↦ m
        | inr (inl o) ↦ cc (o.full)
        | inr (inr n) ↦ cc (n.absent)
      ]

map_page-get_physical_example :
    (get_physical 0xd0003123 (map_page 0xd0003000 0x500000 2 one_table).1 ≡ 0x500123)
    × (get_flags 0xd0003123 (map_page 0xd0003000 0x500000 2 one_table).1 ≡ 3)
map_page-get_physical_example =
    map_page-get_physical 0xd0003000 0x500000 2 one_table-IsValid (omega arith) (omega arith)
      (one_Mapped 2) 0xd0003123 (omega arith)

unmap_page-cases_example :
    Unmapped one_table 0xd0003000 (unmap_page 0xd0003000 one_table)
    ⊎ Missing one_table 0xd0003000 (unmap_page 0xd0003000 one_table)
unmap_page-cases_example = unmap_page-cases 0xd0003000 one_table-IsValid (omega arith) (omega arith)

-- No table and no frame for one.
abbrev exhausted : Vmm
exhausted = record one_table { memory = λ _. 0; pmm = all_used }

exhausted-IsValid : IsValid exhausted
exhausted-IsValid = record {
  words = λ a. omega arith;
  tree = record { aligned = omega arith; apart = λ i h p. cc; disjoint = λ i j hi hj p q. cc };
  pmm = all_used-IsValid;
  directory_used = test-mark_all zeroed 8 (omega arith);
  tables_used = λ i h p. cc;
}

exhausted-NoTable : NoTable exhausted 832 (get_or_create_page_table 832 2 exhausted)
unfolding get_or_create_page_table entry_present
exhausted-NoTable = elim (alloc_page_below-first_free all_used-IsValid 0x1000000 (omega arith)) [
  | inl a ↦ cc (a.first.clear, test-mark_all zeroed a.frame (omega (arith, a.first.below)))
  | inr r ↦ rw r.page (record {
    absent = refl;
    no_frame = r.full;
    null = refl;
    same = ap (λ p. record exhausted { pmm = p }) r.same;
  })
]

map_page-null_table_example :
    let out = map_page 0xd0003000 0x500000 2 exhausted in
    (out.0 ≡ done)
    × (out.1.memory (4 * (0xd0003000 / 4096 % 1024)) ≡ page_entry 0x500000 2)
    × (get_physical 0xd0003000 out.1 ≡ 0)
map_page-null_table_example =
    map_page-null_table 0xd0003000 0x500000 2 exhausted-IsValid (omega arith) (omega arith)
      (omega arith) (omega arith) exhausted-NoTable refl
