-- ===== src/Vmm/Spec.antt =====
-- The state in which the kernel's mapper works, and the field layout of its words.
use toyix.Prelude.{ℕ, ◌+◌, ◌*◌, ◌/◌, ◌%◌, ◌^◌, ◌<◌, ◌≡◌, true, arith, ◌==◌}
use toyix.Bits.{and_fff, and_3ff, and_fffff000, and_1, or_flags, or_1}
use toyix.PageTable.{IsTree, pde, is_present, write_entry, write_entry-IsTree, pde-write_entry}
use toyix.Pmm
use toyix.Pmm.Accounting
use toyix.Vmm.{
  Vmm, is_page_aligned, table_index, table_from_pde, entry_present, table_flags, page_entry,
}

-- The tables form a tree of words, and their pages are not free.
pub record IsValid (s : Vmm) : Type 0 where
  pub words : (a : ℕ) → s.memory a < 2 ^ 32
  pub tree : IsTree s.memory s.directory
  pub pmm : Accounting.IsValid s.pmm
  pub directory_used : Pmm.bitmap_test s.pmm.bitmap (s.directory / 4096) ≡ true
  pub tables_used :
      (i : ℕ)
      → i < 1024
      → is_present (pde s.memory s.directory i) ≡ true
      → Pmm.bitmap_test s.pmm.bitmap (pde s.memory s.directory i / 4096) ≡ true

pub is_page_aligned_lem : (a : ℕ) → is_page_aligned a ≡ (a % 4096 == 0)
unfolding is_page_aligned
is_page_aligned_lem a = ground (arith, and_fff a)

pub table_index_lem : (v : ℕ) → table_index v ≡ v / 4096 % 1024
unfolding table_index
table_index_lem v = and_3ff (v / 4096)

pub table_from_pde_lem : (e : ℕ) → e < 2 ^ 32 → table_from_pde e ≡ e / 4096 * 4096
unfolding table_from_pde
table_from_pde_lem e h = omega (arith, and_fffff000 e h)

pub entry_present_lem : (e : ℕ) → entry_present e ≡ is_present e
unfolding entry_present
entry_present_lem e = ground (arith, and_1 e)

pub table_flags_bounds : (f : ℕ) → (table_flags f % 2 ≡ 1) × (table_flags f < 4096)
unfolding table_flags
table_flags_bounds f = ground arith

-- The entry for a page-aligned address holds the address, the flags and the present bit.
pub page_entry_lem :
    (p f : ℕ) → p < 2 ^ 32 → p % 4096 ≡ 0 → page_entry p f ≡ p + f % 4096 / 2 * 2 + 1
unfolding page_entry
page_entry_lem p f h even =
    ground (arith, and_fffff000 p h, and_fff f, or_flags p (f % 4096), or_1 (p + f % 4096))

-- Writing a word into a table keeps the state valid.
pub write_entry-IsValid :
    {s : Vmm} (i t x count : ℕ)
    → IsValid s
    → i < 1024
    → t < 1024
    → x < 2 ^ 32
    → is_present (pde s.memory s.directory i) ≡ true
    → IsValid
        (record s { memory = write_entry s.memory s.directory i t x; mapped_page_count = count })
write_entry-IsValid {s} i t x count v hi ht hx here = record {
  words = λ a. ground (arith, v.words a);
  tree = write_entry-IsTree v.tree i t hi ht here x;
  pmm = v.pmm;
  directory_used = v.directory_used;
  tables_used = λ j hj. rw (pde-write_entry v.tree i t hi ht here x j hj) (v.tables_used j hj);
}
