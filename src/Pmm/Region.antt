-- ===== src/Pmm/Region.antt =====
-- One entry of the Multiboot memory map: the frames that discover_from_mmap frees for it.
use toyix.Prelude.{
  ℕ, ◌+◌, ◌-◌, ◌*◌, ◌/◌, ◌%◌, ◌^◌, ◌≤◌, ◌<◌, ◌≡◌, refl, Bool, not, ◌&&◌, inl, inr, arith, ltb, leb,
  ◌==◌, if◌then◌else◌, Bool-cases,
}
use toyix.Bits.{or_words}
use toyix.Pmm.{Pmm, MmapEntry, word, bitmap_test, discover_region, discover_entry}
use toyix.Pmm.Accounting.{IsValid}
use toyix.Pmm.Range.{within, Marked, released, free_range-released}

-- The region that an entry describes, as 64-bit numbers.
abbrev pub base_of : MmapEntry → ℕ
base_of entry = entry.base_addr_high * 2 ^ 32 + entry.base_addr_low

abbrev pub end_of : MmapEntry → ℕ
end_of entry = base_of entry + (entry.length_high * 2 ^ 32 + entry.length_low)

-- `frame` lies wholly in the region, and it is available memory.
abbrev pub holds : MmapEntry → ℕ → Bool
holds entry frame =
    entry.kind == 1
    && (leb (base_of entry) (frame * 4096) && leb (frame * 4096 + 4096) (end_of entry))

-- The frames that the entry makes free: those it holds, but for the last one below 4 GiB. An entry that
-- ends exactly at 4 GiB makes none free, as its end is taken for 0.
abbrev pub covers : MmapEntry → ℕ → Bool
covers entry frame = holds entry frame && (ltb frame 0xfffff && not (end_of entry == 2 ^ 32))

-- Where the frames that discover_entry frees for the entry end.
abbrev low_end_of : MmapEntry → ℕ
low_end_of entry = if ltb (2 ^ 32) (end_of entry) then 0xffffffff else end_of entry % word

-- The fields are 32-bit numbers, the region's end is a 64-bit number, and the region does not begin in the
-- last page below 4 GiB.
pub record IsEntry (entry : MmapEntry) : Type 0 where
  pub base_low : entry.base_addr_low < word
  pub length_low : entry.length_low < word
  pub fits : end_of entry < 2 ^ 64
  pub placed : base_of entry < 2 ^ 32 → base_of entry ≤ word - 4096

discover_region-released :
    {s : Pmm} (start end : ℕ)
    → IsValid s
    → start ≤ word - 4096
    → end < word
    → Marked s (discover_region s start end) released ((start + 4095) / 4096) (end / 4096)
unfolding discover_region
discover_region-released start end v hs he =
    let freed = free_range-released start end v hs he in
    record {
      valid = record { bytes = freed.valid.bytes; counted = freed.valid.counted };
      test = freed.test;
    }

-- One entry of the map frees the frames that it covers.
pub record Discovered (s : Pmm) (e : MmapEntry) (s' : Pmm) : Type 0 where
  pub valid : IsValid s'
  pub test : (g : ℕ) → bitmap_test s'.bitmap g ≡ (not (covers e g) && bitmap_test s.bitmap g)

covers-within :
    (e : MmapEntry) (g : ℕ)
    → covers e g ≡ (
        (e.kind == 1 && ltb (base_of e) (2 ^ 32))
        && within ((base_of e + 4095) / 4096) (low_end_of e / 4096) g)
covers-within e g = ground arith

pub discover_entry-covers :
    {s : Pmm} (e : MmapEntry) → IsValid s → IsEntry e → Discovered s e (discover_entry s e)
unfolding discover_entry
discover_entry-covers {s} e v p =
    let wide : end_of e % 2 ^ 64 ≡ end_of e = omega (arith, p.fits) in
    rw
      (
        or_words e.base_addr_high e.base_addr_low p.base_low,
        or_words e.length_high e.length_low p.length_low,
        wide,
      )
      (elim (Bool-cases (e.kind == 1 && ltb (base_of e) (2 ^ 32))) [
        | inl available ↦ rw available (
            let low : base_of e < 2 ^ 32 = ground arith in
            let freed =
              discover_region-released {s = s} (base_of e) (low_end_of e) v (p.placed low)
                (ground arith) in
            let same : base_of e % word ≡ base_of e = omega (arith, low) in
            rw same (record {
              valid = freed.valid;
              test = λ g. rw (covers-within e g, available) (freed.test g);
            }))
        | inr other ↦
            rw other (record { valid = v; test = λ g. rw (covers-within e g, other) refl })
      ])
