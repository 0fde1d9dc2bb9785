-- ===== src/Vmm/Unmap.antt =====
-- vmm_unmap_page: the page loses its mapping, and no other page does.
use toyix.Prelude.{
  ℕ, ◌+◌, ◌-◌, ◌*◌, ◌/◌, ◌%◌, ◌^◌, ◌<◌, ◌≡◌, ◌⊎◌, refl, ap, ◌∙◌, true, false, not, inl, inr, arith,
  ltb, ◌==◌, Bool-cases, if◌then◌else◌,
}
use toyix.PageTable.{pde, is_present, walk, walk-write_entry}
use toyix.Vmm.{
  Vmm, Status, done, not_mapped, is_page_aligned, table_from_pde, entry_present, unmap_page,
}
use toyix.Vmm.Spec.{
  IsValid, write_entry-IsValid, is_page_aligned_lem, table_index_lem, table_from_pde_lem,
  entry_present_lem, page_entry_lem,
}
use toyix.Vmm.Map.{Mapped}

-- The page was unmapped: its walk, and no other, now gives no entry.
pub record Unmapped (s : Vmm) (virtual : ℕ) (out : Status × Vmm) : Type 0 where
  pub full : is_present (walk s.memory s.directory virtual) ≡ true
  pub status : out.0 ≡ done
  pub valid : IsValid out.1
  pub seen :
      (w : ℕ)
      → w < 2 ^ 32
      → walk out.1.memory out.1.directory w
        ≡ (if w / 4096 == virtual / 4096 then 0 else walk s.memory s.directory w)
  pub count :
      out.1.mapped_page_count
      ≡ (if ltb 0 s.mapped_page_count then s.mapped_page_count - 1 else s.mapped_page_count)

-- There was no mapping: the call says so and changes nothing.
pub record Missing (s : Vmm) (virtual : ℕ) (out : Status × Vmm) : Type 0 where
  pub empty : is_present (walk s.memory s.directory virtual) ≡ false
  pub status : out.0 ≡ not_mapped
  pub same : out.1 ≡ s

module _ {s : Vmm} (virtual : ℕ) (v : IsValid s) (hv : virtual < 2 ^ 32)
    (even : virtual % 4096 ≡ 0) where
  aligned : not (is_page_aligned virtual) ≡ false
  aligned = ground (arith, is_page_aligned_lem virtual)

  present-cases :
      is_present (pde s.memory s.directory (virtual / 2 ^ 22)) ≡ true
      → Unmapped s virtual (unmap_page virtual s) ⊎ Missing s virtual (unmap_page virtual s)
  unfolding unmap_page
  present-cases here =
      let i = virtual / 2 ^ 22 in
      let t = virtual / 4096 % 1024 in
      let p : entry_present (s.memory (s.directory + 4 * i)) ≡ true =
        entry_present_lem (pde s.memory s.directory i) ∙ here in
      let base : table_from_pde (s.memory (s.directory + 4 * i))
          ≡ pde s.memory s.directory i / 4096 * 4096 =
        table_from_pde_lem _ (v.words _) in
      let slot : s.memory (pde s.memory s.directory i / 4096 * 4096 + 4 * t)
          ≡ walk s.memory s.directory virtual =
        unfold walk in ground arith in
      let e : entry_present (s.memory (pde s.memory s.directory i / 4096 * 4096 + 4 * t))
          ≡ is_present (walk s.memory s.directory virtual) =
        entry_present_lem _ ∙ ap is_present slot in
      rw (aligned, p, base, table_index_lem virtual)
        (elim (Bool-cases (is_present (walk s.memory s.directory virtual))) [
          | inr empty ↦ rw (e ∙ empty) (inr (record { empty = empty; status = refl; same = refl }))
          | inl full ↦ rw (e ∙ full) (
              inl (record {
                full = full;
                status = refl;
                valid =
                    write_entry-IsValid i t 0 _ v (omega arith) (omega arith) (omega arith) here;
                seen = λ w hw.
                    ground
                      (arith, walk-write_entry v.tree i t (omega arith) (omega arith) here 0 w hw);
                count = refl;
              }))
        ])

  absent-Missing :
      is_present (pde s.memory s.directory (virtual / 2 ^ 22)) ≡ false
      → Missing s virtual (unmap_page virtual s)
  unfolding unmap_page walk
  absent-Missing absent =
      let p : entry_present (s.memory (s.directory + 4 * (virtual / 2 ^ 22))) ≡ false =
        entry_present_lem (pde s.memory s.directory (virtual / 2 ^ 22)) ∙ absent in
      rw (aligned, p) (record { empty = ground arith; status = refl; same = refl })

  -- For a page-aligned 32-bit address in a valid state, vmm_unmap_page either unmaps the page (after
  -- which its walk gives no entry, and no other walk changes) and counts one page less, or, exactly
  -- when the page had no present entry, says VMM_ERR_NOT_MAPPED and changes nothing. The state stays
  -- valid.
  pub unmap_page-cases :
      Unmapped s virtual (unmap_page virtual s) ⊎ Missing s virtual (unmap_page virtual s)
  unmap_page-cases = elim (Bool-cases (is_present (pde s.memory s.directory (virtual / 2 ^ 22)))) [
    | inl here ↦ present-cases here
    | inr absent ↦ inr (absent-Missing absent)
  ]

-- Unmapping a page that vmm_map_page has just mapped succeeds, and afterwards the page has no entry
-- and every walk outside that page is as it was before the mapping.
unmap_page-map :
    {s : Vmm} (virtual physical flags : ℕ) {out : Status × Vmm}
    → virtual < 2 ^ 32
    → virtual % 4096 ≡ 0
    → physical < 2 ^ 32
    → physical % 4096 ≡ 0
    → Mapped s virtual physical flags out
    → ((unmap_page virtual out.1).0 ≡ done)
      × ((w : ℕ)
          → w < 2 ^ 32
          → walk (unmap_page virtual out.1).1.memory (unmap_page virtual out.1).1.directory w
            ≡ (if w / 4096 == virtual / 4096 then 0 else walk s.memory s.directory w))
unmap_page-map virtual physical flags hv ev hp ep m =
    elim (unmap_page-cases virtual m.valid hv ev) [
      | inl u ↦ (u.status, λ w hw. ground (arith, u.seen w hw, m.seen w hw))
      | inr n ↦
          absurd (ground (arith, n.empty, m.seen virtual hv, page_entry_lem physical flags hp ep))
    ]
