-- ===== src/Vmm/Translate.antt =====
-- vmm_get_physical and vmm_get_flags read the walk of the page tables, so that what vmm_map_page has
-- entered is what they return.
use toyix.Prelude.{
  ℕ, ◌+◌, ◌*◌, ◌/◌, ◌%◌, ◌^◌, ◌≤◌, ◌<◌, ◌≡◌, refl, ◌∙◌, true, false, not, ◌||◌, inl, inr, arith,
  ◌==◌, if◌then◌else◌, Bool-cases, update,
}
use toyix.Bits.{and_fff, and_fffff000}
use toyix.PageTable.{pde, is_present, walk}
use toyix.Vmm.{
  Vmm, Status, done, is_page_aligned, table_index, directory_index, table_from_pde, entry_present,
  page_entry, get_or_create_page_table, map_in_table, map_page,
}
use toyix.Vmm.Spec.{
  IsValid, is_page_aligned_lem, table_index_lem, table_from_pde_lem, entry_present_lem,
  page_entry_lem,
}
use toyix.Vmm.{get_physical, get_flags}
use toyix.Vmm.Table.{NoTable}
use toyix.Vmm.Map.{Mapped}

module _ {s : Vmm} (v : IsValid s) (w : ℕ) where
  slot_lem :
      is_present (pde s.memory s.directory (w / 2 ^ 22)) ≡ true
      → s.memory (table_from_pde (s.memory (s.directory + 4 * (w / 2 ^ 22))) + 4 * table_index w)
        ≡ walk s.memory s.directory w
  unfolding walk
  slot_lem here = ground (
    arith,
    table_from_pde_lem (pde s.memory s.directory (w / 2 ^ 22)) (v.words _),
    table_index_lem w,
  )

  walk-lt : walk s.memory s.directory w < 2 ^ 32
  unfolding walk
  walk-lt =
      ground (
        arith,
        v.words (pde s.memory s.directory (w / 2 ^ 22) / 4096 * 4096 + 4 * (w / 4096 % 1024)),
      )

  -- The address that the entry of the page holds, and the offset in the page.
  get_physical_lem : get_physical w s ≡ (
      if is_present (walk s.memory s.directory w)
      then (walk s.memory s.directory w / 4096 * 4096 + w % 4096) % 2 ^ 32
      else 0)
  unfolding get_physical walk
  get_physical_lem = elim (Bool-cases (is_present (pde s.memory s.directory (w / 2 ^ 22)))) [
    | inl here ↦ ground (
      arith,
      slot_lem here,
      entry_present_lem (pde s.memory s.directory (w / 2 ^ 22)),
      entry_present_lem (walk s.memory s.directory w),
      and_fffff000 (walk s.memory s.directory w) (walk-lt),
      and_fff w,
    )
    | inr absent ↦ ground (arith, entry_present_lem (pde s.memory s.directory (w / 2 ^ 22)))
  ]

  -- The flags that the entry of the page holds.
  pub get_flags_lem :
      get_flags w s
      ≡ (if is_present (walk s.memory s.directory w) then walk s.memory s.directory w % 4096 else 0)
  unfolding get_flags walk
  get_flags_lem = elim (Bool-cases (is_present (pde s.memory s.directory (w / 2 ^ 22)))) [
    | inl here ↦ ground (
      arith,
      slot_lem here,
      entry_present_lem (pde s.memory s.directory (w / 2 ^ 22)),
      entry_present_lem (walk s.memory s.directory w),
      and_fff (walk s.memory s.directory w),
    )
    | inr absent ↦ ground (arith, entry_present_lem (pde s.memory s.directory (w / 2 ^ 22)))
  ]

-- After vmm_map_page has mapped a page in a valid state, vmm_get_physical of each address in that page
-- is the address at the same offset in the physical page, vmm_get_flags gives the flags with the
-- present bit set, and for addresses in every other page both answer as before.
pub map_page-get_physical :
    {s : Vmm} (virtual physical flags : ℕ) {out : Status × Vmm}
    → IsValid s
    → physical < 2 ^ 32
    → physical % 4096 ≡ 0
    → Mapped s virtual physical flags out
    → (w : ℕ) → w < 2 ^ 32
    → (get_physical w out.1
        ≡ (if w / 4096 == virtual / 4096 then physical + w % 4096 else get_physical w s))
      × (get_flags w out.1
          ≡ (if w / 4096 == virtual / 4096 then flags % 4096 / 2 * 2 + 1 else get_flags w s))
map_page-get_physical {s} virtual physical flags {out} v hp ep m w hw = (
  ground (
    arith,
    get_physical_lem v w,
    get_physical_lem m.valid w,
    m.seen w hw,
    page_entry_lem physical flags,
  ),
  ground (
    arith,
    get_flags_lem v w,
    get_flags_lem m.valid w,
    m.seen w hw,
    page_entry_lem physical flags,
  ),
)

-- When no frame is left for a page table that the page needs, vmm_map_page of page-aligned addresses
-- uses the null table pointer: if the word that it takes for the entry (at an address below one page)
-- has no present bit, it reports VMM_OK and overwrites that word, although the page stays unmapped.
pub map_page-null_table :
    {s : Vmm} (virtual physical flags : ℕ)
    → IsValid s
    → 4096 ≤ s.directory
    → virtual < 2 ^ 32
    → virtual % 4096 ≡ 0
    → physical % 4096 ≡ 0
    → NoTable s
        (directory_index virtual)
        (get_or_create_page_table (directory_index virtual) flags s)
    → is_present (s.memory (4 * (virtual / 4096 % 1024))) ≡ false
    → let out : Status × Vmm = map_page virtual physical flags s in
      (out.0 ≡ done)
      × (out.1.memory (4 * (virtual / 4096 % 1024)) ≡ page_entry physical flags)
      × (get_physical virtual out.1 ≡ 0)
unfolding map_page map_in_table get_physical
map_page-null_table {s} virtual physical flags v hd hv ev ep n low =
    let aligned : (not (is_page_aligned virtual) || not (is_page_aligned physical)) ≡ false =
      ground (arith, is_page_aligned_lem virtual, is_page_aligned_lem physical) in
    let same : get_or_create_page_table (directory_index virtual) flags s ≡ (0, s) =
      λ i. (n.null i, n.same i) in
    let zero_slot : 0 + 4 * (virtual / 4096 % 1024) ≡ 4 * (virtual / 4096 % 1024) = omega arith in
    let e : entry_present (s.memory (4 * (virtual / 4096 % 1024))) ≡ false =
      entry_present_lem (s.memory (4 * (virtual / 4096 % 1024))) ∙ low in
    let directory : pde (update s.memory (4 * (virtual / 4096 % 1024)) (page_entry physical flags))
          s.directory (virtual / 2 ^ 22)
        ≡ pde s.memory s.directory (virtual / 2 ^ 22) =
      ground arith in
    let absent : entry_present (pde s.memory s.directory (virtual / 2 ^ 22)) ≡ false =
      entry_present_lem (pde s.memory s.directory (virtual / 2 ^ 22)) ∙ n.absent in
    rw (aligned, same, table_index_lem virtual, zero_slot, e)
      (refl, ground arith, rw (directory, absent))
