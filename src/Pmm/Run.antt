-- ===== src/Pmm/Run.antt =====
-- pmm_alloc_contiguous_pages_below: the search for a run of free frames.
use toyix.Prelude.{
  ℕ, zero, suc, ◌+◌, ◌-◌, ◌*◌, ◌%◌, ◌^◌, ◌≤◌, ◌<◌, ◌≡◌, ◌≢◌, ◌⊎◌, refl, true, false, ◌&&◌, ◌||◌,
  inl, inr, arith, leb, ltb, ◌==◌, if◌then◌else◌, Bool-cases, ==_iff, ne→==,
}
use toyix.Pmm.{
  Pmm, max_frames, page_size, invalid_page, bitmap_test, mark_run, find_run, frame_limit,
  alloc_contiguous_pages_below,
}
use toyix.Pmm.Accounting.{IsValid, mark_used-IsValid, test-mark_used, free-mark_used}

abbrev pub AllFree : Pmm → ℕ → ℕ → Type 0
AllFree s lo n = (g : ℕ) → lo ≤ g → g < lo + n → bitmap_test s.bitmap g ≡ false

mark_run-IsValid : (n lo : ℕ) {s : Pmm} → IsValid s → IsValid (mark_run n lo s)
unfolding mark_run
mark_run-IsValid zero lo v = v
mark_run-IsValid (suc n) lo v = mark_run-IsValid n (lo + 1) (mark_used-IsValid lo v)

test-mark_run :
    (n lo : ℕ) {s : Pmm} (g : ℕ)
    → IsValid s
    → lo + n ≤ max_frames
    → bitmap_test (mark_run n lo s).bitmap g
      ≡ ((leb lo g && ltb g (lo + n)) || bitmap_test s.bitmap g)
unfolding mark_run
test-mark_run zero lo g v fits = ground arith
test-mark_run (suc n) lo g v fits = ground (
  arith,
  test-mark_run n (lo + 1) g (mark_used-IsValid lo v) (omega arith),
  test-mark_used lo g v (omega arith),
)

free-mark_run :
    (n lo : ℕ) {s : Pmm}
    → IsValid s
    → lo + n ≤ max_frames
    → AllFree s lo n
    → s.free ≡ (mark_run n lo s).free + n
unfolding mark_run
free-mark_run zero lo v fits free = omega arith
free-mark_run (suc n) lo v fits free = omega (
  arith,
  free-mark_used lo v (omega arith) (free lo (omega arith) (omega arith)),
  free-mark_run n (lo + 1) (mark_used-IsValid lo v) (omega arith) (λ g p q.
      ground (arith, test-mark_used lo g v (omega arith), free g (omega arith) (omega arith))),
)

-- A run was handed out: all its frames were free, and they alone change hands.
pub record RunTaken (s : Pmm) (lo hi n : ℕ) (out : ℕ × Pmm) : Type 0 where
  pub start : ℕ
  pub above : lo ≤ start
  pub below : start + n ≤ hi
  pub clear : AllFree s start n
  pub page : out.0 ≡ start * page_size
  pub valid : IsValid out.1
  pub paid : s.free ≡ out.1.free + n
  pub taken :
      (g : ℕ)
      → bitmap_test out.1.bitmap g ≡ ((leb start g && ltb g (start + n)) || bitmap_test s.bitmap g)

-- The range has no such run, and nothing changes.
pub record RunRefused (s : Pmm) (lo hi n : ℕ) (out : ℕ × Pmm) : Type 0 where
  pub missing : (w : ℕ) → lo ≤ w → w + n ≤ hi → ¬ AllFree s w n
  pub page : out.0 ≡ invalid_page
  pub same : out.1 ≡ s

-- The search has reached `frame`: it stands in a run of `len` free frames, and no run of `n` frames
-- begins before that.
record Scanned (s : Pmm) (lo n frame run_start len : ℕ) : Type 0 where
  begin : ℕ
  at : begin + len ≡ frame
  above : lo ≤ begin
  named : len ≢ 0 → run_start ≡ begin
  short : len < n
  clear : AllFree s begin len
  blocked : (w : ℕ) → lo ≤ w → w < begin → ¬ AllFree s w n

module _ {s : Pmm} (v : IsValid s) {lo n : ℕ} where
  Scanned-used :
      {frame run_start len : ℕ}
      → Scanned s lo n frame run_start len
      → bitmap_test s.bitmap frame ≡ true
      → Scanned s lo n (frame + 1) 0 0
  Scanned-used {frame} c used = record {
    begin = frame + 1;
    at = omega arith;
    above = omega (arith, c.at, c.above);
    named = λ ne. absurd (ne refl);
    short = omega (arith, c.short);
    clear = λ g p q. absurd (omega arith);
    blocked = λ w p q all. elim (Bool-cases (ltb w c.begin)) [
      | inl old ↦ c.blocked w p (ground arith) all
      | inr new ↦ ground (arith, all frame (ground (arith, c.at)) (ground (arith, c.at, c.short)))
    ];
  }

  run_begin :
      {frame run_start len : ℕ}
      → (c : Scanned s lo n frame run_start len) → (if len == 0 then frame else run_start) ≡ c.begin
  run_begin {len = zero} c = omega (arith, c.at)
  run_begin {len = suc len} c = ground (arith, c.named (omega arith))

  AllFree-next :
      {frame run_start len : ℕ}
      → (c : Scanned s lo n frame run_start len) → bitmap_test s.bitmap frame ≡ false
      → AllFree s c.begin (len + 1)
  AllFree-next {frame} c free g p q = elim (Bool-cases (g == frame)) [
    | inl here ↦ ground arith
    | inr there ↦ c.clear g p (ground (arith, c.at))
  ]

  Scanned-free :
      {frame run_start len : ℕ}
      → Scanned s lo n frame run_start len
      → bitmap_test s.bitmap frame ≡ false
      → len + 1 ≢ n
      → Scanned s lo n (frame + 1) (if len == 0 then frame else run_start) (len + 1)
  Scanned-free c free more = record {
    begin = c.begin;
    at = omega (arith, c.at);
    above = c.above;
    named = λ _. run_begin c;
    short = omega (arith, c.short);
    clear = AllFree-next c free;
    blocked = c.blocked;
  }

  find_run-cases :
      (rounds frame run_start len hi : ℕ)
      → Scanned s lo n frame run_start len
      → frame + rounds ≡ hi
      → hi ≤ max_frames
      → RunTaken s lo hi n (find_run n rounds frame run_start len s)
        ⊎ RunRefused s lo hi n (find_run n rounds frame run_start len s)
  unfolding find_run
  find_run-cases zero frame run_start len hi c e fits = inr (record {
    missing = λ w p q. c.blocked w p (omega (arith, c.at, c.short));
    page = refl;
    same = refl;
  })
  find_run-cases (suc rounds) frame run_start len hi c e fits =
      elim (Bool-cases (bitmap_test s.bitmap frame)) [
        | inl used ↦
            rw (used, find_run)
              (find_run-cases rounds (frame + 1) 0 0 hi (Scanned-used c used) (omega arith) fits)
        | inr free ↦
            rw (free, find_run)
              (elim (Bool-cases (len + 1 == n)) [
                | inr more ↦ rw more (
                    find_run-cases rounds (frame + 1) (if len == 0 then frame else run_start)
                      (len + 1) hi (Scanned-free c free (ground arith)) (omega arith) fits)
                | inl done ↦ rw (done, run_begin c) (inl (finish free done))
              ])
      ]
    where
      finish :
          bitmap_test s.bitmap frame ≡ false
          → (len + 1 == n) ≡ true
          → RunTaken s lo hi n (c.begin * page_size % 2 ^ 32, mark_run n c.begin s)
      finish free done =
          let full : len + 1 ≡ n = (==_iff (len + 1) n).0 done in
          let fit : c.begin + n ≤ max_frames = omega (arith, c.at) in
          let all : AllFree s c.begin n = rw (← full) (AllFree-next c free) in
          record {
            start = c.begin;
            above = c.above;
            below = omega (arith, c.at);
            clear = all;
            page = omega (arith, c.short);
            valid = mark_run-IsValid n c.begin v;
            paid = free-mark_run n c.begin v fit all;
            taken = λ g. test-mark_run n c.begin g v fit;
          }

-- In a valid allocator, for a count above 0 and a limit of at least 1 MiB,
-- pmm_alloc_contiguous_pages_below either hands out a run of that many free frames between 1 MiB and
-- the limit, marking those frames and no other and taking their number off the free count, or, if
-- there is no such run, returns PMM_INVALID_PAGE and changes nothing.
pub alloc_contiguous-run :
    {s : Pmm} (n max_exclusive : ℕ)
    → IsValid s
    → 0 < n
    → 256 ≤ frame_limit max_exclusive
    → RunTaken s 256 (frame_limit max_exclusive) n (alloc_contiguous_pages_below n max_exclusive s)
      ⊎ RunRefused s 256
          (frame_limit max_exclusive)
          n
          (alloc_contiguous_pages_below n max_exclusive s)
unfolding alloc_contiguous_pages_below
alloc_contiguous-run {s} n m v pos h = rw (ne→== n 0 (omega arith)) (
    find_run-cases v (frame_limit m - 256) 256 0 0 (frame_limit m)
      (record {
        begin = 256;
        at = omega arith;
        above = omega arith;
        named = λ ne. absurd (ne refl);
        short = pos;
        clear = λ g p q. absurd (omega arith);
        blocked = λ w p q. absurd (omega arith);
      })
      (ground arith) (ground arith))
