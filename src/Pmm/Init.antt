-- ===== src/Pmm/Init.antt =====
-- pmm_init: which frames are free once the memory map is read and the kernel's memory reserved.
use toyix.Prelude.{
  ℕ, ◌+◌, ◌-◌, ◌/◌, ◌%◌, ◌≤◌, ◌<◌, ◌≡◌, ◌↔◌, refl, sym, bit_and, Bool, true, false, ◌||◌, inl, inr,
  arith, ◌==◌, some, ok, count-none,
}
use toyix.Bits.{and_64}
use toyix.Bits.Byte.{test-ones}
use toyix.Pmm.{
  Pmm, MmapEntry, MultibootInfo, max_frames, word, bitmap_test, mark_all_frames_used,
  reserve_kernel_and_boot_data, init,
}
use toyix.Pmm.Bitmap.{AreBytes}
use toyix.Pmm.Accounting.{IsValid}
use toyix.Pmm.Range.{within, reserve_range-taken}
use toyix.Pmm.Region.{covers}
use toyix.Pmm.Map.{IsMap, Visited, Mapped, discover_from_mmap-Mapped}

pub test-mark_all :
    (s : Pmm) (g : ℕ) → g < max_frames → bitmap_test (mark_all_frames_used s).bitmap g ≡ true
unfolding mark_all_frames_used bitmap_test
test-mark_all s g h = ground (arith, test-ones (g % 8))

pub mark_all-IsValid : (s : Pmm) → AreBytes s.bitmap → IsValid (mark_all_frames_used s)
unfolding mark_all_frames_used
mark_all-IsValid s h = record {
  bytes = λ i. ground (arith, h i);
  counted = sym (count-none max_frames _ (λ i lt. ground (arith, test-mark_all s i lt)));
}

-- The frames that the kernel keeps for itself: the first MiB, its image, the Multiboot structure and
-- the memory map.
abbrev pub kept_back : (kernel_start kernel_end : ℕ) → MultibootInfo → ℕ → Bool
kept_back kernel_start kernel_end mbi g =
    within (mbi.mmap_addr / 4096) ((mbi.mmap_addr + mbi.mmap_length + 4095) / 4096) g
    || (within (mbi.addr / 4096) ((mbi.addr + 52 + 4095) / 4096) g
        || (within (kernel_start / 4096) ((kernel_end + 4095) / 4096) g || within 0 256 g))

-- The image, the structure and the map lie below the last page of the address space, and the
-- structure says that it has a map.
pub record IsLayout (kernel_start kernel_end : ℕ) (mbi : MultibootInfo) : Type 0 where
  pub image : kernel_start < word
  pub image_end : kernel_end ≤ word - 4096
  pub info : mbi.addr + 52 ≤ word - 4096
  pub map : mbi.mmap_addr + mbi.mmap_length ≤ word - 4096
  pub has_map : mbi.flags / 64 % 2 ≡ 1

module _ {kernel_start kernel_end : ℕ} {mbi : MultibootInfo}
    (l : IsLayout kernel_start kernel_end mbi) where
  flag_set : (bit_and mbi.flags 64 == 0) ≡ false
  flag_set = ground (arith, and_64 mbi.flags, l.has_map)

  reserve-kept_back :
      {s : Pmm}
      → IsValid s
      → IsValid (reserve_kernel_and_boot_data kernel_start kernel_end mbi s)
        × ((g : ℕ)
            → bitmap_test (reserve_kernel_and_boot_data kernel_start kernel_end mbi s).bitmap g
              ≡ (kept_back kernel_start kernel_end mbi g || bitmap_test s.bitmap g))
  unfolding reserve_kernel_and_boot_data
  reserve-kept_back v =
      let low = reserve_range-taken 0 0x100000 v (omega arith) (omega arith) in
      let image = reserve_range-taken kernel_start kernel_end low.valid l.image l.image_end in
      let info =
        reserve_range-taken mbi.addr (mbi.addr + 52) image.valid (omega (arith, l.info)) l.info in
      let map =
        reserve_range-taken mbi.mmap_addr (mbi.mmap_addr + mbi.mmap_length) info.valid
          (omega (arith, l.map)) l.map in
      let info_end : (mbi.addr + 52) % word ≡ mbi.addr + 52 = omega (arith, l.info) in
      let map_end : (mbi.mmap_addr + mbi.mmap_length) % word ≡ mbi.mmap_addr + mbi.mmap_length =
        omega (arith, l.map) in
      rw (flag_set, info_end, map_end)
        (map.valid, λ g. ground (arith, map.test g, info.test g, image.test g, low.test g))

-- A frame that was in use, after the walk over the map and after what is kept back.
free_iff :
    (entry_at : ℕ → MmapEntry) (mmap_end c : ℕ) (s₀ found : Pmm) (g : ℕ) (kept after : Bool)
    → Mapped entry_at mmap_end c s₀ found
    → bitmap_test s₀.bitmap g ≡ true
    → after ≡ (kept || bitmap_test found.bitmap g)
    → (after ≡ false) ↔ (
        (kept ≡ false) × ((d : ℕ) × Visited entry_at mmap_end d c × (covers (entry_at d) g ≡ true)))
free_iff entry_at mmap_end c s₀ found g kept after m used e = (
  λ free. elim (m.freed g (ground arith)) [ inl before ↦ cc | inr seen ↦ (ground arith, seen) ],
  λ (back, (d, r, hit)). ground (arith, m.covered g d r hit),
)

-- For a boot with a memory map that is well placed, pmm_init succeeds with a valid allocator, in which
-- a frame is free exactly if it lies wholly in the available memory of an entry of the map that is reached,
-- and is not among the frames kept back for the first MiB, the kernel's image and the boot data. The last
-- frame below 4 GiB does not count, nor does an entry that ends exactly at 4 GiB.
pub init-free_iff :
    (kernel_start kernel_end : ℕ) (entry_at : ℕ → MmapEntry) (mbi : MultibootInfo) (s : Pmm)
    → AreBytes s.bitmap
    → IsLayout kernel_start kernel_end mbi
    → IsMap entry_at (mbi.mmap_addr + mbi.mmap_length)
    → (s' : Pmm) × (init kernel_start kernel_end entry_at (some mbi) s ≡ ok s')
      × IsValid s'
      × ((g : ℕ)
          → g < max_frames
          → (bitmap_test s'.bitmap g ≡ false) ↔ (
              (kept_back kernel_start kernel_end mbi g ≡ false)
              × ((d : ℕ) × Visited entry_at (mbi.mmap_addr + mbi.mmap_length) d mbi.mmap_addr
                  × (covers (entry_at d) g ≡ true))))
unfolding init
init-free_iff kernel_start kernel_end entry_at mbi s bytes l map =
    let used = mark_all-IsValid s bytes in
    let cleared : Pmm = record (mark_all_frames_used s) {
      total = max_frames;
      usable = 0;
      reserved = 0;
      highest = 0;
    } in
    let (found, runs, m) =
      discover_from_mmap-Mapped entry_at mbi {s = cleared} map (omega (arith, l.map))
        (record { bytes = used.bytes; counted = used.counted }) in
    let (valid, test) = reserve-kept_back l m.valid in
    let kept : Pmm = reserve_kernel_and_boot_data kernel_start kernel_end mbi found in
    (
      record kept { reserved = (kept.total + word - kept.free) % word },
      rw (flag_set l, runs) refl,
      record { bytes = valid.bytes; counted = valid.counted },
      λ g lt.
          free_iff entry_at (mbi.mmap_addr + mbi.mmap_length) mbi.mmap_addr cleared found g _ _ m
            (test-mark_all s g lt) (test g),
    )
