-- ===== src/Pmm/Free.antt =====
-- pmm_free_page: what it accepts, and that it undoes an allocation.
use toyix.Prelude.{
  ℕ, ◌/◌, ◌%◌, ◌≤◌, ◌<◌, ◌≡◌, ◌⊎◌, ap, ◌∙◌, bit_and, true, not, ◌&&◌, inl, inr, arith, leb, ◌==◌,
  Bool-cases, ok, panic,
}
use toyix.Bits.{and_fff}
use toyix.Pmm.{Pmm, max_frames, word, bitmap_test, mark_frame_free, free_page}
use toyix.Pmm.Accounting.{IsValid, mark_free-IsValid, test-mark_free, free-mark_free}
use toyix.Pmm.Alloc.{Allocated}

-- The address is that of a frame from 1 MiB on.
abbrev pub IsFreeable : ℕ → Type 0
IsFreeable addr = (addr % 4096 ≡ 0) × (0x100000 ≤ addr)

accepts :
    (addr : ℕ) (s : Pmm) → IsFreeable addr → free_page addr s ≡ ok (mark_frame_free s (addr / 4096))
unfolding free_page
accepts addr s (aligned, high) =
    let first : (bit_and addr 4095 == 0) ≡ true = ground (arith, and_fff addr) in
    let second : leb 0x100000 addr ≡ true = ground arith in rw (first, second)

-- pmm_free_page of a 32-bit address panics unless the address is a multiple of the page size from
-- 1 MiB on; otherwise, in a valid allocator, it frees that frame and no other and keeps the
-- allocator valid.
pub free_page-cases :
    (addr : ℕ) (s : Pmm)
    → addr < word
    → IsValid s
    → (IsFreeable addr
        × ((s' : Pmm) × (free_page addr s ≡ ok s')
            × IsValid s'
            × ((g : ℕ)
                → bitmap_test s'.bitmap g ≡ (not (addr / 4096 == g) && bitmap_test s.bitmap g))))
      ⊎ (¬ IsFreeable addr × (free_page addr s ≡ panic))
unfolding free_page
free_page-cases addr s h v = elim (Bool-cases (bit_and addr 4095 == 0)) [
  | inr uneven ↦ inr (λ f. ground (arith, and_fff addr, f.0), rw uneven)
  | inl aligned ↦ elim (Bool-cases (leb 0x100000 addr)) [
    | inr low ↦ inr (λ f. ground (arith, f.1), rw (aligned, low))
    | inl high ↦ inl (
      (ground (arith, and_fff addr), ground arith),
      (
        mark_frame_free s (addr / 4096),
        rw (aligned, high),
        mark_free-IsValid (addr / 4096) v,
        λ g. test-mark_free (addr / 4096) g v (omega arith),
      ),
    )
  ]
]

-- Freeing the page that an allocation has just handed out succeeds, and gives back an allocator that
-- is valid, has as many free frames as before, and has the same frames in use.
pub free_page-alloc :
    {s : Pmm} {lo hi : ℕ} {out : ℕ × Pmm}
    → 256 ≤ lo
    → hi ≤ max_frames
    → Allocated s lo hi out
    → (s' : Pmm) × (free_page out.0 out.1 ≡ ok s')
      × IsValid s'
      × (s'.free ≡ s.free)
      × ((g : ℕ) → bitmap_test s'.bitmap g ≡ bitmap_test s.bitmap g)
free_page-alloc {s} {out} hlo hhi a =
    let lt : a.frame < max_frames = omega (arith, a.first.below) in
    let here : out.0 / 4096 ≡ a.frame = omega (arith, a.page) in
    let used : bitmap_test out.1.bitmap a.frame ≡ true = ground (arith, a.taken a.frame) in
    (
      mark_frame_free out.1 a.frame,
      accepts out.0 out.1 (omega (arith, a.page), omega (arith, a.page, a.first.above))
          ∙ ap (λ f. ok (mark_frame_free out.1 f)) here,
      mark_free-IsValid a.frame a.valid,
      omega (arith, a.paid, free-mark_free a.frame a.valid lt used),
      λ g. ground (arith, test-mark_free a.frame g a.valid lt, a.taken g, a.first.clear),
    )
