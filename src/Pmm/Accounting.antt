-- ===== src/Pmm/Accounting.antt =====
-- The bitmap and the count of free frames agree: the invariant of the allocator, and how marking
-- one frame keeps it.
use toyix.Prelude.{
  ℕ, ◌+◌, ◌<◌, ◌≡◌, true, false, not, ◌&&◌, ◌||◌, inl, inr, arith, leb, ◌==◌, Bool-cases, count,
  count-drop, count-pos, count-le,
}
use toyix.Pmm.{
  Pmm, max_frames, bitmap_test, mark_frame_used, mark_frame_free, bitmap_set, bitmap_clear,
}
use toyix.Pmm.Bitmap.{AreBytes, set-AreBytes, clear-AreBytes, bitmap_test-set, bitmap_test-clear}

-- The frames whose bit is clear.
abbrev pub clear_frames : (ℕ → ℕ) → ℕ
clear_frames bitmap = count max_frames (λ f. not (bitmap_test bitmap f))

pub record IsValid (s : Pmm) : Type 0 where
  pub bytes : AreBytes s.bitmap
  pub counted : s.free ≡ clear_frames s.bitmap

clear_frames-set :
    (b : ℕ → ℕ) (f : ℕ)
    → AreBytes b
    → f < max_frames
    → bitmap_test b f ≡ false
    → clear_frames b ≡ clear_frames (bitmap_set b f) + 1
clear_frames-set b f h lt e =
    count-drop max_frames f _ _ lt (ground arith) (ground (arith, bitmap_test-set b f f h))
      (λ i _ ne. ground (arith, bitmap_test-set b f i h))

clear_frames-clear :
    (b : ℕ → ℕ) (f : ℕ)
    → AreBytes b
    → f < max_frames
    → bitmap_test b f ≡ true
    → clear_frames (bitmap_clear b f) ≡ clear_frames b + 1
clear_frames-clear b f h lt e =
    count-drop max_frames f _ _ lt (ground (arith, bitmap_test-clear b f f h)) (ground arith)
      (λ i _ ne. ground (arith, bitmap_test-clear b f i h))

-- Marking a frame as used keeps the bitmap's bytes bytes, and the free count equal to the number of
-- clear bits.
pub mark_used-IsValid : {s : Pmm} (f : ℕ) → IsValid s → IsValid (mark_frame_used s f)
unfolding mark_frame_used
mark_used-IsValid {s} f v = elim (Bool-cases (leb max_frames f)) [
  | inl out ↦ rw out v
  | inr lt ↦ elim (Bool-cases (bitmap_test s.bitmap f)) [
    | inl used ↦ rw (lt, used) v
    | inr free ↦
        rw (lt, free)
          (record {
            bytes = set-AreBytes s.bitmap f v.bytes;
            counted = ground (arith, clear_frames-set s.bitmap f v.bytes);
          })
  ]
]

-- Marking a frame as free keeps the bitmap's bytes bytes, and the free count, which does not wrap,
-- equal to the number of clear bits.
pub mark_free-IsValid : {s : Pmm} (f : ℕ) → IsValid s → IsValid (mark_frame_free s f)
unfolding mark_frame_free
mark_free-IsValid {s} f v = elim (Bool-cases (leb max_frames f)) [
  | inl out ↦ rw out v
  | inr lt ↦ elim (Bool-cases (bitmap_test s.bitmap f)) [
    | inr free ↦ rw (lt, free) v
    | inl used ↦
        rw (lt, used)
          (record {
            bytes = clear-AreBytes s.bitmap f v.bytes;
            counted = ground (
              arith,
              clear_frames-clear s.bitmap f v.bytes,
              count-le max_frames (λ g. not (bitmap_test s.bitmap g)),
            );
          })
  ]
]

module _ {s : Pmm} (f g : ℕ) (v : IsValid s) (lt : f < max_frames) where
  pub test-mark_used :
      bitmap_test (mark_frame_used s f).bitmap g ≡ (f == g || bitmap_test s.bitmap g)
  unfolding mark_frame_used
  test-mark_used = ground (arith, bitmap_test-set s.bitmap f g v.bytes)

  pub test-mark_free :
      bitmap_test (mark_frame_free s f).bitmap g ≡ (not (f == g) && bitmap_test s.bitmap g)
  unfolding mark_frame_free
  test-mark_free = ground (arith, bitmap_test-clear s.bitmap f g v.bytes)

-- Taking a free frame takes one off the count.
pub free-mark_used :
    {s : Pmm} (f : ℕ)
    → IsValid s
    → f < max_frames
    → bitmap_test s.bitmap f ≡ false
    → s.free ≡ (mark_frame_used s f).free + 1
unfolding mark_frame_used
free-mark_used {s} f v lt e =
    ground (arith, count-pos max_frames f (λ g. not (bitmap_test s.bitmap g)) lt)

pub free-mark_free :
    {s : Pmm} (f : ℕ)
    → IsValid s
    → f < max_frames
    → bitmap_test s.bitmap f ≡ true
    → (mark_frame_free s f).free ≡ s.free + 1
unfolding mark_frame_free
free-mark_free {s} f v lt e =
    ground (arith, count-le max_frames (λ g. not (bitmap_test s.bitmap g)))
