-- ===== src/Pmm/Map.antt =====
-- discover_from_mmap: the walk over the Multiboot memory map ends, and what it frees.
use toyix.Prelude.{
  ℕ, zero, suc, ◌+◌, ◌%◌, ◌≤◌, ◌<◌, ◌≡◌, ◌⊎◌, refl, true, false, inl, inr, arith, ltb, Bool-cases,
  ok, ge→ltb,
}
use toyix.Pmm.{Pmm, MmapEntry, MultibootInfo, word, bitmap_test, discover_loop, discover_from_mmap}
use toyix.Pmm.Accounting.{IsValid}
use toyix.Pmm.Region.{IsEntry, covers, Discovered, discover_entry-covers}

abbrev pub next_cursor : (ℕ → MmapEntry) → ℕ → ℕ
next_cursor entry_at cursor = (cursor + ((entry_at cursor).size + 4) % word) % word

-- The loop that starts at the last argument comes to the entry at `d`.
pub data Visited (entry_at : ℕ → MmapEntry) (mmap_end d : ℕ) : ℕ → Type 0 where
  here : {c : ℕ} → c ≡ d → c < mmap_end → Visited entry_at mmap_end d c
  next :
      {c : ℕ}
      → c < mmap_end
      → Visited entry_at mmap_end d (next_cursor entry_at c)
      → Visited entry_at mmap_end d c

-- The entries of a map that lies below `mmap_end`: what they hold, and that the cursor does not wrap.
pub record IsMap (entry_at : ℕ → MmapEntry) (mmap_end : ℕ) : Type 0 where
  pub entries : (c : ℕ) → IsEntry (entry_at c)
  pub advances : (c : ℕ) → c < mmap_end → c + (entry_at c).size + 4 < word

-- A frame becomes free exactly if an entry that the loop comes to covers it.
pub record Mapped (entry_at : ℕ → MmapEntry) (mmap_end c : ℕ) (s s' : Pmm) : Type 0 where
  pub valid : IsValid s'
  pub freed :
      (g : ℕ)
      → bitmap_test s'.bitmap g ≡ false
      → (bitmap_test s.bitmap g ≡ false)
        ⊎ ((d : ℕ) × Visited entry_at mmap_end d c × (covers (entry_at d) g ≡ true))
  pub kept : (g : ℕ) → bitmap_test s.bitmap g ≡ false → bitmap_test s'.bitmap g ≡ false
  pub covered :
      (g d : ℕ)
      → Visited entry_at mmap_end d c
      → covers (entry_at d) g ≡ true
      → bitmap_test s'.bitmap g ≡ false

Visited-lt :
    {entry_at : ℕ → MmapEntry} {mmap_end d c : ℕ} → Visited entry_at mmap_end d c → c < mmap_end
Visited-lt (here e lt) = lt
Visited-lt (next lt r) = lt

module _ (entry_at : ℕ → MmapEntry) (mmap_end : ℕ) where
  Mapped-nil : (c : ℕ) {s : Pmm} → IsValid s → mmap_end ≤ c → Mapped entry_at mmap_end c s s
  Mapped-nil c v over = record {
    valid = v;
    freed = λ g h. inl h;
    kept = λ g h. h;
    covered = λ g d r h. absurd (omega (arith, Visited-lt r));
  }

  covered-cons :
      {c : ℕ} {s s₁ s₂ : Pmm} (g d : ℕ)
      → Discovered s (entry_at c) s₁
      → Mapped entry_at mmap_end (next_cursor entry_at c) s₁ s₂
      → Visited entry_at mmap_end d c
      → covers (entry_at d) g ≡ true
      → bitmap_test s₂.bitmap g ≡ false
  covered-cons {c} g d e m (here same lt) h = m.kept g (rw (e.test g, same, h))
  covered-cons g d e m (next lt r) h = m.covered g d r h

  Mapped-cons :
      (c : ℕ) {s s₁ s₂ : Pmm}
      → c < mmap_end
      → Discovered s (entry_at c) s₁
      → Mapped entry_at mmap_end (next_cursor entry_at c) s₁ s₂
      → Mapped entry_at mmap_end c s s₂
  Mapped-cons c {s} lt e m = record {
    valid = m.valid;
    freed = λ g h. elim (m.freed g h) [
      | inr (d, r, hit) ↦ inr (d, next lt r, hit)
      | inl before ↦ elim (Bool-cases (covers (entry_at c) g)) [
        | inl hit ↦ inr (c, here refl lt, hit)
        | inr miss ↦ inl (ground (arith, e.test g))
      ]
    ];
    kept = λ g h. m.kept g (ground (arith, e.test g));
    covered = λ g d r h. covered-cons g d e m r h;
  }

  -- Enough fuel is one round for each byte left.
  discover_loop-Mapped :
      (fuel c : ℕ) {s : Pmm}
      → IsMap entry_at mmap_end
      → IsValid s
      → mmap_end ≤ c + fuel
      → (s' : Pmm) × (discover_loop entry_at fuel mmap_end c s ≡ ok s')
        × Mapped entry_at mmap_end c s s'
  unfolding discover_loop
  discover_loop-Mapped zero c {s} map v enough =
      (s, rw (ge→ltb c mmap_end (omega arith)), Mapped-nil c v (omega arith))
  discover_loop-Mapped (suc fuel) c {s} map v enough = elim (Bool-cases (ltb c mmap_end)) [
    | inr over ↦ (s, rw (over, discover_loop), Mapped-nil c v (ground arith))
    | inl more ↦
        let lt : c < mmap_end = ground arith in
        let e = discover_entry-covers (entry_at c) v (map.entries c) in
        let (s', runs, m) =
          discover_loop-Mapped fuel (next_cursor entry_at c) map e.valid
            (omega (arith, map.advances c lt)) in
        (s', rw (more, discover_loop) runs, Mapped-cons c lt e m)
  ]

-- For a map whose entries are well placed and whose cursor does not wrap, discover_from_mmap ends, keeps
-- the allocator valid, and leaves free exactly the frames that were free before, and those that lie
-- wholly in the available memory of an entry reached from the start of the map. Of these it leaves out the
-- last frame below 4 GiB, and all frames of an entry that ends exactly at 4 GiB.
pub discover_from_mmap-Mapped :
    (entry_at : ℕ → MmapEntry) (mbi : MultibootInfo) {s : Pmm}
    → IsMap entry_at (mbi.mmap_addr + mbi.mmap_length)
    → mbi.mmap_addr + mbi.mmap_length < word
    → IsValid s
    → (s' : Pmm) × (discover_from_mmap entry_at mbi s ≡ ok s')
      × Mapped entry_at (mbi.mmap_addr + mbi.mmap_length) mbi.mmap_addr s s'
unfolding discover_from_mmap
discover_from_mmap-Mapped entry_at mbi map h v =
    let fits : (mbi.mmap_addr + mbi.mmap_length) % word ≡ mbi.mmap_addr + mbi.mmap_length =
      omega arith in
    rw fits (
      discover_loop-Mapped entry_at (mbi.mmap_addr + mbi.mmap_length) mbi.mmap_length mbi.mmap_addr
        map v (omega arith))
