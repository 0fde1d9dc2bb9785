-- ===== src/Pmm/Alloc.antt =====
-- pmm_alloc_page and pmm_alloc_page_below take the first free frame of their range.
use toyix.Prelude.{
  ℕ, zero, suc, ◌+◌, ◌-◌, ◌*◌, ◌≤◌, ◌<◌, ◌≡◌, ◌⊎◌, refl, true, false, ◌||◌, inl, inr, arith, ◌==◌,
  Bool-cases,
}
use toyix.Pmm.{
  Pmm, max_frames, page_size, invalid_page, bitmap_test, alloc_from, alloc_page, alloc_page_below,
  frame_limit,
}
use toyix.Pmm.Accounting.{IsValid, mark_used-IsValid, test-mark_used, free-mark_used}

-- `frame` is the first frame of `[lo, hi)` that is free in `s`.
pub record IsFirstFree (s : Pmm) (lo hi frame : ℕ) : Type 0 where
  pub above : lo ≤ frame
  pub below : frame < hi
  pub clear : bitmap_test s.bitmap frame ≡ false
  pub before : (g : ℕ) → lo ≤ g → g < frame → bitmap_test s.bitmap g ≡ true

-- A page was handed out: the first free frame, which alone changes hands.
pub record Allocated (s : Pmm) (lo hi : ℕ) (out : ℕ × Pmm) : Type 0 where
  pub frame : ℕ
  pub first : IsFirstFree s lo hi frame
  pub page : out.0 ≡ frame * page_size
  pub valid : IsValid out.1
  pub paid : s.free ≡ out.1.free + 1
  pub taken : (g : ℕ) → bitmap_test out.1.bitmap g ≡ (frame == g || bitmap_test s.bitmap g)

-- There was none: every frame of the range is in use, and nothing changes.
pub record Refused (s : Pmm) (lo hi : ℕ) (out : ℕ × Pmm) : Type 0 where
  pub full : (g : ℕ) → lo ≤ g → g < hi → bitmap_test s.bitmap g ≡ true
  pub page : out.0 ≡ invalid_page
  pub same : out.1 ≡ s

module _ {s : Pmm} (v : IsValid s) where
  first-Allocated :
      (rounds frame : ℕ)
      → frame + suc rounds ≤ max_frames
      → bitmap_test s.bitmap frame ≡ false
      → Allocated s frame (frame + suc rounds) (alloc_from (suc rounds) frame s)
  unfolding alloc_from
  first-Allocated rounds frame fits e =
      rw (e, alloc_from)
        (record {
          frame = frame;
          first = record {
            above = omega arith;
            below = omega arith;
            clear = e;
            before = λ g p q. absurd (omega arith);
          };
          page = omega arith;
          valid = mark_used-IsValid frame v;
          paid = free-mark_used frame v (omega arith) e;
          taken = λ g. test-mark_used frame g v (omega arith);
        })

  -- One frame more in front, which is in use.
  Allocated-later :
      (lo hi : ℕ) {out : ℕ × Pmm}
      → bitmap_test s.bitmap lo ≡ true
      → Allocated s (lo + 1) hi out
      → Allocated s lo hi out
  Allocated-later lo hi e a = record {
    frame = a.frame;
    page = a.page;
    valid = a.valid;
    paid = a.paid;
    taken = a.taken;
    first = record {
      above = omega (arith, a.first.above);
      below = a.first.below;
      clear = a.first.clear;
      before = λ g p q. elim (Bool-cases (g == lo)) [
        | inl here ↦ ground arith
        | inr there ↦ a.first.before g (ground arith) q
      ];
    };
  }

  Refused-later :
      (lo hi : ℕ) {out : ℕ × Pmm}
      → bitmap_test s.bitmap lo ≡ true
      → Refused s (lo + 1) hi out
      → Refused s lo hi out
  Refused-later lo hi e r = record {
    page = r.page;
    same = r.same;
    full = λ g p q. elim (Bool-cases (g == lo)) [
      | inl here ↦ ground arith
      | inr there ↦ r.full g (ground arith) q
    ];
  }

  alloc_from-cases :
      (rounds frame hi : ℕ)
      → frame + rounds ≡ hi
      → hi ≤ max_frames
      → Allocated s frame hi (alloc_from rounds frame s)
        ⊎ Refused s frame hi (alloc_from rounds frame s)
  unfolding alloc_from
  alloc_from-cases zero frame hi e fits =
      inr (record { full = λ g p q. absurd (omega arith); page = refl; same = refl })
  alloc_from-cases (suc rounds) frame hi e fits = elim (Bool-cases (bitmap_test s.bitmap frame)) [
    | inr clear ↦ inl (rw (← e) (first-Allocated rounds frame (omega arith) clear))
    | inl used ↦
        rw (used, alloc_from)
          (elim (alloc_from-cases rounds (frame + 1) hi (omega arith) fits) [
            | inl a ↦ inl (Allocated-later frame hi used a)
            | inr r ↦ inr (Refused-later frame hi used r)
          ])
  ]

  -- In a valid allocator, pmm_alloc_page either hands out the address of the first free frame from
  -- 1 MiB on, marking that frame and no other and taking one off the free count, or, if every frame
  -- from 1 MiB on is in use, returns PMM_INVALID_PAGE and changes nothing.
  pub alloc_page-first_free :
      Allocated s 256 max_frames (alloc_page s) ⊎ Refused s 256 max_frames (alloc_page s)
  unfolding alloc_page
  alloc_page-first_free =
      alloc_from-cases (max_frames - 256) 256 max_frames (omega arith) (omega arith)

  -- In a valid allocator, pmm_alloc_page_below does the same among the frames from 1 MiB up to the
  -- given limit, for a limit of at least 1 MiB.
  pub alloc_page_below-first_free :
      (max_exclusive : ℕ)
      → 256 ≤ frame_limit max_exclusive
      → Allocated s 256 (frame_limit max_exclusive) (alloc_page_below max_exclusive s)
        ⊎ Refused s 256 (frame_limit max_exclusive) (alloc_page_below max_exclusive s)
  unfolding alloc_page_below
  alloc_page_below-first_free m h =
      alloc_from-cases (frame_limit m - 256) 256 (frame_limit m) (ground arith) (ground arith)
