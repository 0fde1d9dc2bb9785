-- ===== src/Heap/Release.antt =====
-- kfree: the block is free afterwards, as one with its free neighbours.
use toyix.Heap.{
  Heap, Block, header, ptr_is_inside_heap_region, coalesce_back, coalesce_around, release, kfree,
}
use toyix.Heap.Layout.{Segment, Tiled, Laid, Tiled-le, validate_block_lem}
use toyix.Heap.Splice.{end_of, last_of, end_of-le, Tiled-behind, Laid-splice}
use toyix.Heap.Cut.{take-Tiled}
use toyix.Heap.Merge.{merge_next, coalesce_with_next-Laid}
use toyix.Heap.Free.{append-shift, end_of-append, merge_next-cons, coalesce_around-Laid}
use toyix.Prelude.{
  ℕ, ◌+◌, ◌-◌, ◌<◌, ◌≤◌, ◌≡◌, ◌⊎◌, refl, sym, ap, subst, ◌∙◌, true, false, ◌&&◌, ltb, leb,
  if◌then◌else◌, inl, inr, update, update_other, none, some, ok, List, [], ◌∷◌, ◌++◌, arith,
}

-- The blocks of a heap in which `seg` is merged with the blocks before and behind it, where both of two
-- are free.
abbrev pub absorbed : (front : List Segment) → Segment → (rest : List Segment) → List Segment
absorbed [] seg rest = merge_next seg rest
absorbed (p ∷ []) seg rest = merge_next p (merge_next seg rest)
absorbed (p ∷ q ∷ front) seg rest = p ∷ absorbed (q ∷ front) seg rest

absorbed-append :
    (front : List Segment) (p seg : Segment) (rest : List Segment)
    → absorbed (front ++ (p ∷ [])) seg rest ≡ front ++ merge_next p (merge_next seg rest)
absorbed-append [] p seg rest = refl
absorbed-append (q ∷ []) p seg rest = refl
absorbed-append (q ∷ r ∷ front) p seg rest =
    ap (λ l. q ∷ l) (absorbed-append (r ∷ front) p seg rest)

-- Either there is no block in front, or a last one.
pub last-cases :
    (front : List Segment)
    → (front ≡ []) ⊎ ((init : List Segment) × (p : Segment) × (front ≡ init ++ (p ∷ [])))
last-cases [] = inl refl
last-cases (seg ∷ front) = elim (last-cases front) [
  | inl e ↦ inr ([], seg, ap (λ l. seg ∷ l) e)
  | inr (init, p, e) ↦ inr (seg ∷ init, p, ap (λ l. seg ∷ l) e)
]

-- What coalesce_around leaves of the block behind `front`.
abbrev pub Coalesced :
    (h : Heap) → (front : List Segment) → Segment → (rest : List Segment) → Type 0
Coalesced h front seg rest =
    (block : ℕ) × (blocks : ℕ → Block) × (coalesce_around (end_of h.virtual_base front) h
      ≡ ok (block, record h { blocks = blocks }))
    × Laid (record h { blocks = blocks }) (absorbed front seg rest)

coalesce_first :
    (h : Heap) (seg : Segment) (rest : List Segment) → Laid h (seg ∷ rest) → Coalesced h [] seg rest
unfolding coalesce_around coalesce_back
coalesce_first h seg rest laid =
    let a = h.virtual_base in
    let valid = validate_block_lem h none a seg rest (omega arith) laid.tiled in
    let (blocks, same, laid') = coalesce_with_next-Laid h [] seg rest laid in
    let (m, more, cons) = merge_next-cons seg rest in
    let plain : Laid (record h { blocks = blocks }) (m ∷ more) =
      subst (λ l. Laid (record h { blocks = blocks }) l) cons laid' in
    let prev : (blocks a).prev ≡ none = ap {A = Block} (λ k. k.prev) plain.tiled.0 in
    (a, blocks, rw (valid, same, prev) refl, laid')

pub coalesce_around-Coalesced :
    (h : Heap) (front : List Segment) (seg : Segment) (rest : List Segment)
    → Laid h (front ++ (seg ∷ rest))
    → Coalesced h front seg rest
coalesce_around-Coalesced h front seg rest laid = elim (last-cases front) [
  | inl e ↦
      subst (λ l. Coalesced h l seg rest) (sym e)
        (coalesce_first h seg rest (subst (λ l. Laid h (l ++ (seg ∷ rest))) e laid))
  | inr (init, p, e) ↦
      let plain : Laid h (init ++ (p ∷ seg ∷ rest)) =
        subst (λ l. Laid h l) (sym (append-shift init p (seg ∷ rest)))
          (subst (λ l. Laid h (l ++ (seg ∷ rest))) e laid) in
      let (block, blocks, same, laid') = coalesce_around-Laid h init p seg rest plain in
      let here = sym (end_of-append h.virtual_base init p) in
      subst (λ l. Coalesced h l seg rest) (sym e)
        (
          block,
          blocks,
          subst (λ x. coalesce_around x h ≡ ok (block, record h { blocks = blocks })) here same,
          subst (λ l. Laid (record h { blocks = blocks }) l) (sym (absorbed-append init p seg rest))
              laid',
        )
]

abbrev pub freed : Segment → Segment
freed seg = record { size = seg.size; is_free = true }

release-Laid :
    (h : Heap) (front : List Segment) (seg : Segment) (rest : List Segment)
    → Laid h (front ++ (seg ∷ rest))
    → seg.is_free ≡ false
    → (h' : Heap) × (release (end_of h.virtual_base front) h ≡ ok h')
      × Laid h' (absorbed front (freed seg) rest)
unfolding release
release-Laid h front seg rest laid used =
    let a = end_of h.virtual_base front in
    let before = last_of none h.virtual_base front in
    let tiled : Tiled h.blocks before a h.virtual_next (seg ∷ rest) =
      Tiled-behind h.blocks none h.virtual_base h.virtual_next front (seg ∷ rest) laid.tiled in
    let low = end_of-le h.virtual_base front in
    let valid = validate_block_lem h before a seg rest low tiled in
    let taken : (h.blocks a).is_free ≡ false = ap {A = Block} (λ k. k.is_free) tiled.0 ∙ used in
    let blocks = update h.blocks a (record (h.blocks a) { is_free = true }) in
    let active = if ltb 0 h.active then h.active - 1 else h.active in
    let marked : Heap = record h { blocks = blocks; active = active } in
    let laid' : Laid marked (front ++ (freed seg ∷ rest)) =
      Laid-splice h blocks active h.total front seg (freed seg) rest rest laid
        (λ b lt. update_other h.blocks a b _ (omega arith))
        (take-Tiled h.blocks before a h.virtual_next seg rest true tiled) in
    let (block, final, same, laid'') =
      coalesce_around-Coalesced marked front (freed seg) rest laid' in
    (record marked { blocks = final }, rw (valid, taken, same) refl, laid'')

within : (low x high : ℕ) → low ≤ x → x < high → (leb low x && ltb x high) ≡ true
within low x high a b = ground arith

-- For the pointer to a used block with at least one byte, kfree does not panic, and leaves the heap with
-- this block free, merged with the blocks right before and right behind it that are free.
pub kfree-Laid :
    (h : Heap) (front : List Segment) (seg : Segment) (rest : List Segment)
    → Laid h (front ++ (seg ∷ rest))
    → seg.is_free ≡ false
    → 0 < seg.size
    → (h' : Heap) × (kfree (some (end_of h.virtual_base front + header)) h ≡ ok h')
      × Laid h' (absorbed front (freed seg) rest)
unfolding kfree
kfree-Laid h front seg rest laid used some_bytes =
    let a = end_of h.virtual_base front in
    let tiled =
      Tiled-behind h.blocks none h.virtual_base h.virtual_next front (seg ∷ rest) laid.tiled in
    let low = end_of-le h.virtual_base front in
    let le = Tiled-le h.blocks (some a) (a + header + seg.size) h.virtual_next rest tiled.1 in
    let inside : ptr_is_inside_heap_region h (a + header) ≡ true =
      within h.virtual_base (a + header) h.virtual_next (omega (arith, low)) (omega (arith, le)) in
    let back : a + header - header ≡ a = omega arith in
    let (h', done, laid') = release-Laid h front seg rest laid used in
    (h', rw (inside, back) done, laid')
