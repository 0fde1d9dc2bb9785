-- ===== src/PageTable.antt =====
-- Two-level page tables of 32-bit x86 in physical memory, as the MMU walks them: an independent
-- description against which arch/x86/vmm.c is verified.
use native.Mathlib.Decide.{ℕ_discrete}
use toyix.Prelude.{
  ℕ, ◌+◌, ◌*◌, ◌/◌, ◌%◌, ◌^◌, ◌<◌, ◌≡◌, ◌≢◌, Bool, true, false, not, ◌&&◌, arith, leb, ltb, ◌==◌,
  if◌then◌else◌, update,
}

-- Physical memory, a 32-bit word at each address that is a multiple of four.
abbrev pub Memory : Type 0
Memory = ℕ → ℕ

-- `memset(page, 0, X86_PAGE_SIZE)`
abbrev pub zero_page : Memory → ℕ → Memory
zero_page mem page a = if leb page a && ltb a (page + 4096) then 0 else mem a

-- An entry says that what it points to is present by its lowest bit.
abbrev pub is_present : ℕ → Bool
is_present entry = not (entry % 2 == 0)

abbrev pub pde : Memory → ℕ → ℕ → ℕ
pde mem dir i = mem (dir + 4 * i)

-- The table entry for a virtual address, or 0 where the directory has no table.
unfoldable pub walk : Memory → ℕ → ℕ → ℕ
walk mem dir v =
    if is_present (pde mem dir (v / 2 ^ 22))
    then mem (pde mem dir (v / 2 ^ 22) / 4096 * 4096 + 4 * (v / 4096 % 1024))
    else 0

-- The directory and the tables that it points to are pages of their own.
pub record IsTree (mem : Memory) (dir : ℕ) : Type 0 where
  pub aligned : dir % 4096 ≡ 0
  pub apart :
      (i : ℕ) → i < 1024 → is_present (pde mem dir i) ≡ true → pde mem dir i / 4096 ≢ dir / 4096
  pub disjoint :
      (i j : ℕ)
      → i < 1024
      → j < 1024
      → is_present (pde mem dir i) ≡ true
      → is_present (pde mem dir j) ≡ true
      → pde mem dir i / 4096 ≡ pde mem dir j / 4096
      → i ≡ j

-- The write of entry `t` of the table at directory index `i`.
abbrev pub write_entry : Memory → ℕ → ℕ → ℕ → ℕ → Memory
write_entry mem dir i t x = update mem (pde mem dir i / 4096 * 4096 + 4 * t) x

module _ {mem : Memory} {dir : ℕ} (tree : IsTree mem dir) (i t : ℕ) (hi : i < 1024) (ht : t < 1024)
    (here : is_present (pde mem dir i) ≡ true) where
  pub pde-write_entry : (x j : ℕ) → j < 1024 → pde (write_entry mem dir i t x) dir j ≡ pde mem dir j
  pde-write_entry x j hj = ground (arith, tree.apart i hi here, tree.aligned)

  -- Writing an entry of a table changes the walk for the page of that entry and no other.
  pub walk-write_entry :
      (x v : ℕ)
      → v < 2 ^ 32
      → walk (write_entry mem dir i t x) dir v
        ≡ (if v / 4096 == i * 1024 + t then x else walk mem dir v)
  unfolding walk
  walk-write_entry x v hv =
      let bound : v / 2 ^ 22 < 1024 = omega arith in
      elim (ℕ_discrete (v / 2 ^ 22) i) [
        | yes same ↦ ground (arith, pde-write_entry x (v / 2 ^ 22) bound)
        | no other ↦ ground (
          arith,
          pde-write_entry x (v / 2 ^ 22) bound,
          tree.disjoint i (v / 2 ^ 22) hi bound here,
        )
      ]

  pub write_entry-IsTree : (x : ℕ) → IsTree (write_entry mem dir i t x) dir
  write_entry-IsTree x = record {
    aligned = tree.aligned;
    apart = λ j hj. rw (pde-write_entry x j hj) (tree.apart j hj);
    disjoint =
        λ j k hj hk. rw (pde-write_entry x j hj, pde-write_entry x k hk) (tree.disjoint j k hj hk);
  }

-- A new, zeroed table page for a directory entry that had none.
abbrev pub add_table : Memory → ℕ → ℕ → ℕ → ℕ → Memory
add_table mem dir i page flags = update (zero_page mem page) (dir + 4 * i) (page + flags)

module _ {mem : Memory} {dir : ℕ} (tree : IsTree mem dir) (i page flags : ℕ) (hi : i < 1024)
    (here : is_present (pde mem dir i) ≡ false) (even : page % 4096 ≡ 0) (odd : flags % 2 ≡ 1)
    (small : flags < 4096) (off : page / 4096 ≢ dir / 4096)
    (fresh : (j : ℕ)
      → j < 1024
      → is_present (pde mem dir j) ≡ true
      → pde mem dir j / 4096 ≢ page / 4096) where
  pub pde-add_table :
      (j : ℕ)
      → j < 1024
      → pde (add_table mem dir i page flags) dir j
        ≡ (if j == i then page + flags else pde mem dir j)
  pde-add_table j hj = ground (arith, tree.aligned)

  -- An empty table leaves every walk as it was.
  pub walk-add_table :
      (v : ℕ) → v < 2 ^ 32 → walk (add_table mem dir i page flags) dir v ≡ walk mem dir v
  unfolding walk
  walk-add_table v hv =
      let bound : v / 2 ^ 22 < 1024 = omega arith in
      elim (ℕ_discrete (v / 2 ^ 22) i) [
        | yes same ↦ ground (arith, pde-add_table (v / 2 ^ 22) bound, tree.aligned)
        | no other ↦ ground (
          arith,
          pde-add_table (v / 2 ^ 22) bound,
          fresh (v / 2 ^ 22) bound,
          tree.apart (v / 2 ^ 22) bound,
          tree.aligned,
        )
      ]

  pub add_table-IsTree : IsTree (add_table mem dir i page flags) dir
  add_table-IsTree = record {
    aligned = tree.aligned;
    apart = λ j hj. ground (arith, pde-add_table j hj, tree.apart j hj);
    disjoint = λ j k hj hk. ground (
      arith,
      pde-add_table j hj,
      pde-add_table k hk,
      tree.disjoint j k hj hk,
      fresh j hj,
      fresh k hk,
    );
  }
