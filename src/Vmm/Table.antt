-- ===== src/Vmm/Table.antt =====
-- get_or_create_page_table: a table for a directory index, new if need be.
use toyix.Prelude.{
  ℕ, ◌+◌, ◌*◌, ◌/◌, ◌%◌, ◌^◌, ◌<◌, ◌≤◌, ◌≡◌, ◌≢◌, ◌⊎◌, refl, ap, ◌∙◌, bit_or, bit_and, true, false,
  inl, inr, arith, ◌==◌, Bool-cases, update,
}
use toyix.Bits.{and_fffff000, or_flags}
use toyix.PageTable.{
  pde, is_present, walk, zero_page, walk-add_table, add_table-IsTree, pde-add_table,
}
use toyix.Pmm
use toyix.Pmm.Alloc.{Allocated, alloc_page_below-first_free}
use toyix.Vmm.{Vmm, entry_present, table_flags, get_or_create_page_table}
use toyix.Vmm.Spec.{IsValid, table_from_pde_lem, entry_present_lem, table_flags_bounds}

-- A table stands ready at directory index `i`, and every walk is as before.
pub record Ready (s : Vmm) (i : ℕ) (out : ℕ × Vmm) : Type 0 where
  pub valid : IsValid out.1
  pub present : is_present (pde out.1.memory out.1.directory i) ≡ true
  pub table : out.0 ≡ pde out.1.memory out.1.directory i / 4096 * 4096
  pub same :
      (v : ℕ) → v < 2 ^ 32 → walk out.1.memory out.1.directory v ≡ walk s.memory s.directory v
  pub count : out.1.mapped_page_count ≡ s.mapped_page_count

-- No frame below 16 MiB was left for a table: the pointer is null, and the memory is as before.
pub record NoTable (s : Vmm) (i : ℕ) (out : ℕ × Vmm) : Type 0 where
  pub absent : is_present (pde s.memory s.directory i) ≡ false
  pub no_frame : (g : ℕ) → 256 ≤ g → g < 4096 → Pmm.bitmap_test s.pmm.bitmap g ≡ true
  pub null : out.0 ≡ 0
  pub same : out.1 ≡ s

present-Ready :
    {s : Vmm} (i flags : ℕ)
    → IsValid s
    → is_present (pde s.memory s.directory i) ≡ true
    → Ready s i (get_or_create_page_table i flags s)
unfolding get_or_create_page_table
present-Ready {s} i flags v here =
    let e : entry_present (s.memory (s.directory + 4 * i)) ≡ true =
      entry_present_lem (s.memory (s.directory + 4 * i)) ∙ here in
    rw e (record {
      valid = v;
      present = here;
      table = table_from_pde_lem _ (v.words _);
      same = λ w h. refl;
      count = refl;
    })

module _ {s : Vmm} (i flags : ℕ) (hi : i < 1024) (v : IsValid s)
    (absent : is_present (pde s.memory s.directory i) ≡ false) (out : ℕ × Pmm.Pmm)
    (a : Allocated s.pmm 256 4096 out) where
  fresh :
      (j : ℕ)
      → j < 1024
      → is_present (pde s.memory s.directory j) ≡ true
      → pde s.memory s.directory j / 4096 ≢ out.0 / 4096
  fresh j hj p e = ground (arith, v.tables_used j hj p, a.page, a.first.clear)

  apart_from_directory : out.0 / 4096 ≢ s.directory / 4096
  apart_from_directory e = ground (arith, v.directory_used, a.page, a.first.clear)

  new_state : Vmm
  new_state = record s {
    memory = update (zero_page s.memory out.0) (s.directory + 4 * i) (out.0 + table_flags flags);
    pmm = out.1;
  }

  new-Ready : Ready s i (out.0, new_state)
  unfolding new_state
  new-Ready =
      let (odd, small) = table_flags_bounds flags in
      let even : out.0 % 4096 ≡ 0 = omega (arith, a.page) in
      let at =
        pde-add_table v.tree i out.0 (table_flags flags) hi absent even odd small
          apart_from_directory fresh in
      record {
        valid = record {
          words = λ x. ground (arith, v.words x, a.page, a.first.below, small);
          tree =
              add_table-IsTree v.tree i out.0 (table_flags flags) hi absent even odd small
                apart_from_directory fresh;
          pmm = a.valid;
          directory_used = ground (arith, a.taken (s.directory / 4096), v.directory_used);
          tables_used = λ j hj p. ground (
            arith,
            at j hj,
            v.tables_used j hj,
            a.taken (pde s.memory s.directory j / 4096),
            a.taken (out.0 / 4096),
            a.page,
            small,
          );
        };
        present = ground (arith, at i hi, odd, even);
        table = ground (arith, at i hi, small, even);
        same =
            walk-add_table v.tree i out.0 (table_flags flags) hi absent even odd small
              apart_from_directory fresh;
        count = refl;
      }

-- The frame for the table comes from the page allocator.
absent_case :
    {s : Vmm} (i flags : ℕ)
    → i < 1024
    → IsValid s
    → is_present (pde s.memory s.directory i) ≡ false
    → Ready s i (get_or_create_page_table i flags s)
      ⊎ NoTable s i (get_or_create_page_table i flags s)
unfolding get_or_create_page_table new_state
absent_case {s} i flags hi v absent =
    let e : entry_present (s.memory (s.directory + 4 * i)) ≡ false =
      entry_present_lem (s.memory (s.directory + 4 * i)) ∙ absent in
    rw e (elim (alloc_page_below-first_free v.pmm 0x1000000 (omega arith)) [
      | inl a ↦
          let some_page : (Pmm.alloc_page_below 0x1000000 s.pmm).0 == 0 ≡ false =
            ground (arith, a.page, a.first.above) in
          let out = Pmm.alloc_page_below 0x1000000 s.pmm in
          let (odd, small) = table_flags_bounds flags in
          let word : bit_or (bit_and out.0 0xfffff000) (table_flags flags)
              ≡ out.0 + table_flags flags =
            ground (
              arith,
              and_fffff000 out.0 (omega (arith, a.page, a.first.below)),
              or_flags out.0 (table_flags flags) (omega (arith, a.page)) small,
            ) in
          rw (some_page, word) (inl (new-Ready i flags hi v absent out a))
      | inr r ↦ rw r.page (
          inr (record {
            absent = absent;
            no_frame = r.full;
            null = refl;
            same = ap (λ p. record s { pmm = p }) r.same;
          }))
    ])

pub get_or_create-cases :
    {s : Vmm} (i flags : ℕ)
    → i < 1024
    → IsValid s
    → Ready s i (get_or_create_page_table i flags s)
      ⊎ NoTable s i (get_or_create_page_table i flags s)
get_or_create-cases {s} i flags hi v = elim (Bool-cases (is_present (pde s.memory s.directory i))) [
  | inl here ↦ inl (present-Ready i flags v here)
  | inr absent ↦ absent_case i flags hi v absent
]
