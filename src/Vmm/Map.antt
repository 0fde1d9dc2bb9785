-- ===== src/Vmm/Map.antt =====
-- vmm_map_page: a new mapping shows at its page and nowhere else.
use toyix.Prelude.{
  ℕ, ◌+◌, ◌*◌, ◌/◌, ◌%◌, ◌^◌, ◌<◌, ◌≡◌, ◌⊎◌, refl, ap, ◌∙◌, true, false, not, ◌||◌, inl, inr, arith,
  ◌==◌, if◌then◌else◌, Bool-cases, update, ◌≤◌,
}
use toyix.PageTable.{is_present, pde, walk, walk-write_entry}
use toyix.Pmm.{bitmap_test}
use toyix.Vmm.{
  Vmm, Status, done, already_mapped, is_page_aligned, table_index, directory_index, entry_present,
  page_entry, map_in_table, map_page,
}
use toyix.Vmm.Spec.{
  IsValid, write_entry-IsValid, is_page_aligned_lem, table_index_lem, entry_present_lem,
  page_entry_lem,
}
use toyix.Vmm.Table.{Ready, NoTable, get_or_create-cases}

-- The page was mapped: its walk, and no other, now gives the new entry.
pub record Mapped (s : Vmm) (virtual physical flags : ℕ) (out : Status × Vmm) : Type 0 where
  pub empty : is_present (walk s.memory s.directory virtual) ≡ false
  pub status : out.0 ≡ done
  pub valid : IsValid out.1
  pub seen :
      (w : ℕ)
      → w < 2 ^ 32
      → walk out.1.memory out.1.directory w ≡ (
          if w / 4096 == virtual / 4096
          then page_entry physical flags
          else walk s.memory s.directory w)
  pub count : out.1.mapped_page_count ≡ (s.mapped_page_count + 1) % 2 ^ 32

-- The page was mapped before: the call says so, and no walk changes.
pub record Occupied (s : Vmm) (virtual : ℕ) (out : Status × Vmm) : Type 0 where
  pub full : is_present (walk s.memory s.directory virtual) ≡ true
  pub status : out.0 ≡ already_mapped
  pub valid : IsValid out.1
  pub seen :
      (w : ℕ) → w < 2 ^ 32 → walk out.1.memory out.1.directory w ≡ walk s.memory s.directory w

-- The page needs a table for which no frame is left below 16 MiB. The code takes the null pointer for the
-- table, and writes the new entry into low memory, or says that the page is mapped if an entry is there.
pub record TableAtZero (s : Vmm) (virtual physical flags : ℕ) (out : Status × Vmm) : Type 0 where
  pub absent : is_present (pde s.memory s.directory (virtual / 2 ^ 22)) ≡ false
  pub no_frame : (g : ℕ) → 256 ≤ g → g < 4096 → bitmap_test s.pmm.bitmap g ≡ true
  pub result : out ≡ (
      if is_present (s.memory (4 * (virtual / 4096 % 1024))) then (already_mapped, s) else (
        done,
        record s {
          memory = update s.memory (4 * (virtual / 4096 % 1024)) (page_entry physical flags);
          mapped_page_count = (s.mapped_page_count + 1) % 2 ^ 32;
        },
      ))

slot-walk :
    {s : Vmm} (i v : ℕ) {out : ℕ × Vmm}
    → Ready s i out
    → v < 2 ^ 32
    → i ≡ v / 2 ^ 22
    → out.1.memory (out.0 + 4 * table_index v) ≡ walk s.memory s.directory v
unfolding walk
slot-walk i v r hv e = ground (arith, r.same v hv, r.present, r.table, table_index_lem v)

module _ {s : Vmm} (virtual physical flags : ℕ) (hv : virtual < 2 ^ 32) {out : ℕ × Vmm}
    (r : Ready s (directory_index virtual) out) where
  written : Vmm
  written = record out.1 {
    memory = update out.1.memory (out.0 + 4 * table_index virtual) (page_entry physical flags);
    mapped_page_count = (out.1.mapped_page_count + 1) % 2 ^ 32;
  }

  written-Mapped :
      page_entry physical flags < 2 ^ 32
      → is_present (walk s.memory s.directory virtual) ≡ false
      → Mapped s virtual physical flags (done, written)
  unfolding written
  written-Mapped small empty =
      let i = directory_index virtual in
      let t = table_index virtual in
      let hi : i < 1024 = omega arith in
      let ht : t < 1024 = omega (arith, table_index_lem virtual) in
      let v = r.valid in
      let x = page_entry physical flags in
      rw r.table (record {
        empty = empty;
        status = refl;
        valid = write_entry-IsValid i t x _ v hi ht small r.present;
        seen = λ w hw. ground (
          arith,
          walk-write_entry v.tree i t hi ht r.present x w hw,
          r.same w hw,
          table_index_lem virtual,
        );
        count = ap (λ (c : ℕ). (c + 1) % 2 ^ 32) r.count;
      })

-- With a table at hand.
map_in_table-cases :
    {s : Vmm} (virtual physical flags : ℕ) {out : ℕ × Vmm}
    → virtual < 2 ^ 32
    → page_entry physical flags < 2 ^ 32
    → Ready s (directory_index virtual) out
    → Mapped s virtual physical flags (map_in_table out.0 virtual physical flags out.1)
      ⊎ Occupied s virtual (map_in_table out.0 virtual physical flags out.1)
unfolding map_in_table written
map_in_table-cases {s} virtual physical flags {out} hv small r =
    let here = slot-walk (directory_index virtual) virtual r hv refl in
    let e : entry_present (out.1.memory (out.0 + 4 * table_index virtual))
        ≡ is_present (walk s.memory s.directory virtual) =
      entry_present_lem _ ∙ ap is_present here in
    elim (Bool-cases (is_present (walk s.memory s.directory virtual))) [
      | inl full ↦
          rw (e ∙ full)
            (inr (record { full = full; status = refl; valid = r.valid; seen = r.same }))
      | inr empty ↦ rw (e ∙ empty) (inl (written-Mapped virtual physical flags hv r small empty))
    ]

null_table :
    {s : Vmm} (virtual physical flags : ℕ) {out : ℕ × Vmm}
    → NoTable s (directory_index virtual) out
    → TableAtZero s virtual physical flags (map_in_table out.0 virtual physical flags out.1)
unfolding map_in_table
null_table {s} virtual physical flags {out} n =
    let slot : 0 + 4 * table_index virtual ≡ 4 * (virtual / 4096 % 1024) =
      omega (arith, table_index_lem virtual) in
    record {
      absent = n.absent;
      no_frame = n.no_frame;
      result =
          rw (n.null, n.same, slot, entry_present_lem (s.memory (4 * (virtual / 4096 % 1024))))
            refl;
    }

-- For page-aligned 32-bit addresses in a valid state, vmm_map_page does one of three things. It maps a page
-- without a present entry, after which the walk of that page, and of no other, gives the entry made from
-- the address and the flags. It says VMM_ERR_ALREADY_MAPPED for a page with a present entry, and no walk
-- changes. In both cases the state stays valid. Or the page needs a table for which no frame from 1 MiB up
-- to 16 MiB is free: then the entry goes to the place in low memory of a table at address 0, with VMM_OK,
-- or, if a present entry is there, the call says VMM_ERR_ALREADY_MAPPED and changes nothing.
pub map_page-cases :
    {s : Vmm} (virtual physical flags : ℕ)
    → IsValid s
    → virtual < 2 ^ 32
    → physical < 2 ^ 32
    → virtual % 4096 ≡ 0
    → physical % 4096 ≡ 0
    → Mapped s virtual physical flags (map_page virtual physical flags s)
      ⊎ Occupied s virtual (map_page virtual physical flags s)
      ⊎ TableAtZero s virtual physical flags (map_page virtual physical flags s)
unfolding map_page
map_page-cases {s} virtual physical flags v hv hp ev ep =
    let aligned : (not (is_page_aligned virtual) || not (is_page_aligned physical)) ≡ false =
      ground (arith, is_page_aligned_lem virtual, is_page_aligned_lem physical) in
    let small : page_entry physical flags < 2 ^ 32 =
      omega (arith, page_entry_lem physical flags hp ep) in
    rw aligned (elim (get_or_create-cases (directory_index virtual) flags (omega arith) v) [
      | inl r ↦ elim (map_in_table-cases virtual physical flags hv small r) [
        | inl m ↦ inl m
        | inr o ↦ inr (inl o)
      ]
      | inr n ↦ inr (inr (null_table virtual physical flags n))
    ])
