-- ===== src/Pmm/Range.antt =====
-- reserve_range and free_range: which frames a range of addresses covers.
use toyix.Prelude.{
  ℕ, zero, suc, ◌+◌, ◌-◌, ◌*◌, ◌/◌, ◌%◌, ◌^◌, ◌≤◌, ◌<◌, ◌≡◌, refl, Bool, true, false, not, ◌&&◌,
  ◌||◌, inl, inr, arith, leb, ltb, Bool-cases,
}
use toyix.Bits.{and_fffff000}
use toyix.Pmm.{
  Pmm, max_frames, word, bitmap_test, align_down_page, align_up_page, mark_frame_used,
  mark_frame_free, mark_pages, reserve_range, free_range,
}
use toyix.Pmm.Accounting.{
  IsValid, mark_used-IsValid, mark_free-IsValid, test-mark_used, test-mark_free,
}

-- `frame` lies in `[lo, hi)`.
abbrev pub within : ℕ → ℕ → ℕ → Bool
within lo hi frame = leb lo frame && ltb frame hi

align_down_page-frame : (a : ℕ) → a < word → align_down_page a ≡ a / 4096 * 4096
unfolding align_down_page
align_down_page-frame a h = omega (arith, and_fffff000 a h)

-- Rounding up fits the word only for an address of at most 2 ^ 32 - 4096.
align_up_page-frame : (a : ℕ) → a ≤ word - 4096 → align_up_page a ≡ (a + 4095) / 4096 * 4096
unfolding align_up_page
align_up_page-frame a h = omega (arith, and_fffff000 ((a + 4095) % word) (omega arith))

module _ (mark : Pmm → ℕ → Pmm) where
  mark_pages-step :
      (rounds a e : ℕ) (s : Pmm)
      → a < e
      → e < max_frames
      → mark_pages mark (suc rounds) (a * 4096) (e * 4096) s
        ≡ mark_pages mark rounds ((a + 1) * 4096) (e * 4096) (mark s a)
  unfolding mark_pages
  mark_pages-step rounds a e s h fits =
      let more : ltb (a * 4096) (e * 4096) ≡ true = ground arith in
      let next : (a * 4096 + 4096) % 2 ^ 32 ≡ (a + 1) * 4096 = omega arith in
      let here : a * 4096 / 4096 ≡ a = omega arith in rw (more, next, here, mark_pages)

  mark_pages-done :
      (rounds a e : ℕ) (s : Pmm) → e ≤ a → mark_pages mark rounds (a * 4096) (e * 4096) s ≡ s
  unfolding mark_pages
  mark_pages-done zero a e s h = refl
  mark_pages-done (suc rounds) a e s h =
      let over : ltb (a * 4096) (e * 4096) ≡ false = ground arith in rw (over, mark_pages)

-- What a run of the loop over the frames of `[a, e)` has done to each frame.
pub record Marked (s s' : Pmm) (mark : Bool → Bool → Bool) (a e : ℕ) : Type 0 where
  pub valid : IsValid s'
  pub test : (g : ℕ) → bitmap_test s'.bitmap g ≡ mark (within a e g) (bitmap_test s.bitmap g)

abbrev pub taken : Bool → Bool → Bool
taken inside before = inside || before

abbrev pub released : Bool → Bool → Bool
released inside before = not inside && before

-- The two loops for frames of `[a, e)` with rounds to spare.
mark_pages-taken :
    (rounds a e : ℕ) {s : Pmm}
    → IsValid s
    → e < max_frames
    → e ≤ a + rounds
    → Marked s (mark_pages mark_frame_used rounds (a * 4096) (e * 4096) s) taken a e
mark_pages-taken zero a e v fits enough =
    rw (mark_pages-done mark_frame_used 0 a e _ (omega arith))
      (record { valid = v; test = λ g. ground arith })
mark_pages-taken (suc rounds) a e {s} v fits enough = elim (Bool-cases (ltb a e)) [
  | inr over ↦
      rw (mark_pages-done mark_frame_used (suc rounds) a e s (ground arith))
        (record { valid = v; test = λ g. ground arith })
  | inl more ↦
      let rest =
        mark_pages-taken rounds (a + 1) e (mark_used-IsValid a v) fits (omega (arith, enough)) in
      rw (mark_pages-step mark_frame_used rounds a e s (ground arith) fits) (record {
        valid = rest.valid;
        test = λ g. ground (arith, rest.test g, test-mark_used a g v (ground arith));
      })
]

mark_pages-released :
    (rounds a e : ℕ) {s : Pmm}
    → IsValid s
    → e < max_frames
    → e ≤ a + rounds
    → Marked s (mark_pages mark_frame_free rounds (a * 4096) (e * 4096) s) released a e
mark_pages-released zero a e v fits enough =
    rw (mark_pages-done mark_frame_free 0 a e _ (omega arith))
      (record { valid = v; test = λ g. ground arith })
mark_pages-released (suc rounds) a e {s} v fits enough = elim (Bool-cases (ltb a e)) [
  | inr over ↦
      rw (mark_pages-done mark_frame_free (suc rounds) a e s (ground arith))
        (record { valid = v; test = λ g. ground arith })
  | inl more ↦
      let rest =
        mark_pages-released rounds (a + 1) e (mark_free-IsValid a v) fits (omega (arith, enough)) in
      rw (mark_pages-step mark_frame_free rounds a e s (ground arith) fits) (record {
        valid = rest.valid;
        test = λ g. ground (arith, rest.test g, test-mark_free a g v (ground arith));
      })
]

-- reserve_range, for a range of addresses that ends at most one page below 4 GiB, marks exactly the
-- frames that the range touches, and keeps the allocator valid.
pub reserve_range-taken :
    {s : Pmm} (start end : ℕ)
    → IsValid s
    → start < word
    → end ≤ word - 4096
    → Marked s (reserve_range s start end) taken (start / 4096) ((end + 4095) / 4096)
unfolding reserve_range
reserve_range-taken start end v hs he =
    rw (align_down_page-frame start hs, align_up_page-frame end he)
      (mark_pages-taken max_frames (start / 4096) ((end + 4095) / 4096) v (omega arith)
        (omega arith))

-- free_range, for a range of addresses that begins at most one page below 4 GiB, frees exactly the
-- frames that lie wholly in the range, and keeps the allocator valid.
pub free_range-released :
    {s : Pmm} (start end : ℕ)
    → IsValid s
    → start ≤ word - 4096
    → end < word
    → Marked s (free_range s start end) released ((start + 4095) / 4096) (end / 4096)
unfolding free_range
free_range-released start end v hs he =
    rw (align_up_page-frame start hs, align_down_page-frame end he)
      (mark_pages-released max_frames ((start + 4095) / 4096) (end / 4096) v (omega arith)
        (omega arith))
