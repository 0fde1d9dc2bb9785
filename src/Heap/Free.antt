-- ===== src/Heap/Free.antt =====
-- kfree marks a block as free and merges it with its free neighbours.
use toyix.Heap.{
  Heap, Block, header, block_end_addr, coalesce_with_next, coalesce_back, coalesce_around,
}
use toyix.Heap.Layout.{Segment, Tiled, Laid, Tiled-le, validate_block_lem}
use toyix.Heap.Splice.{end_of, last_of, end_of-le, Tiled-behind}
use toyix.Heap.Merge.{merged, merge_next, coalesce_with_next-Laid, no_wrap}
use toyix.Prelude.{
  ℕ, ◌+◌, ◌≡◌, refl, sym, ap, subst, ◌∙◌, true, false, ◌&&◌, ◌==◌, inl, inr, Bool-cases, none, some,
  ok, List, [], ◌∷◌, ◌++◌, arith,
}

-- The block `p` counted to those in front.
pub append-shift :
    (front : List Segment) (p : Segment) (rest : List Segment)
    → front ++ (p ∷ rest) ≡ (front ++ (p ∷ [])) ++ rest
append-shift [] p rest = refl
append-shift (seg ∷ front) p rest = ap (λ l. seg ∷ l) (append-shift front p rest)

pub end_of-append :
    (a : ℕ) (front : List Segment) (p : Segment)
    → end_of a (front ++ (p ∷ [])) ≡ end_of a front + header + p.size
end_of-append a [] p = refl
end_of-append a (seg ∷ front) p = end_of-append (a + header + seg.size) front p

-- A block is left in any case.
pub merge_next-cons :
    (seg : Segment) (rest : List Segment)
    → (m : Segment) × (more : List Segment) × (merge_next seg rest ≡ m ∷ more)
merge_next-cons seg [] = (seg, [], refl)
merge_next-cons seg (next ∷ rest) = elim (Bool-cases (seg.is_free && next.is_free)) [
  | inl e ↦ (merged seg next, rest, rw e refl)
  | inr e ↦ (seg, next ∷ rest, rw e refl)
]

coalesce_back-Laid :
    (h : Heap) (front : List Segment) (p m : Segment) (more : List Segment)
    → Laid h (front ++ (p ∷ m ∷ more))
    → (block : ℕ) × (blocks : ℕ → Block) × (coalesce_back
          (end_of h.virtual_base front + header + p.size)
          (some (end_of h.virtual_base front))
          h
        ≡ ok (block, record h { blocks = blocks }))
      × Laid (record h { blocks = blocks }) (front ++ merge_next p (m ∷ more))
unfolding coalesce_back
coalesce_back-Laid h front p m more laid =
    let b = end_of h.virtual_base front in
    let a = b + header + p.size in
    let before = last_of none h.virtual_base front in
    let tiled : Tiled h.blocks before b h.virtual_next (p ∷ m ∷ more) =
      Tiled-behind h.blocks none h.virtual_base h.virtual_next front (p ∷ m ∷ more) laid.tiled in
    let valid = validate_block_lem h before b p (m ∷ more) (end_of-le h.virtual_base front) tiled in
    let le = Tiled-le h.blocks (some b) a h.virtual_next (m ∷ more) tiled.1 in
    let size : (h.blocks b).size ≡ p.size = ap {A = Block} (λ k. k.size) tiled.0 in
    let free : (h.blocks b).is_free ≡ p.is_free = ap {A = Block} (λ k. k.is_free) tiled.0 in
    let adjacent : (block_end_addr h b == a) ≡ true =
      rw size (no_wrap a (omega (arith, laid.below, le))) in
    elim (Bool-cases p.is_free) [
      | inl e ↦
          let free' : (h.blocks b).is_free ≡ true = free ∙ e in
          let (blocks, same, laid') = coalesce_with_next-Laid h front p (m ∷ more) laid in
          (b, blocks, rw (valid, free', adjacent, same) refl, laid')
      | inr e ↦
          let free' : (h.blocks b).is_free ≡ false = free ∙ e in
          let one : (p.is_free && m.is_free) ≡ false = ap (λ f. f && m.is_free) e in
          let keeps : merge_next p (m ∷ more) ≡ p ∷ m ∷ more = rw one refl in
          (a, h.blocks, rw (valid, free') refl, subst (λ l. Laid h (front ++ l)) (sym keeps) laid)
    ]

-- The merging with both neighbours, for a block that has one before it.
pub coalesce_around-Laid :
    (h : Heap) (front : List Segment) (p seg : Segment) (rest : List Segment)
    → Laid h (front ++ (p ∷ seg ∷ rest))
    → (block : ℕ) × (blocks : ℕ → Block) × (coalesce_around
          (end_of h.virtual_base front + header + p.size)
          h
        ≡ ok (block, record h { blocks = blocks }))
      × Laid (record h { blocks = blocks }) (front ++ merge_next p (merge_next seg rest))
unfolding coalesce_around
coalesce_around-Laid h front p seg rest laid =
    let b = end_of h.virtual_base front in
    let a = b + header + p.size in
    let tiled : Tiled h.blocks (last_of none h.virtual_base front) b h.virtual_next
        (p ∷ seg ∷ rest) =
      Tiled-behind h.blocks none h.virtual_base h.virtual_next front (p ∷ seg ∷ rest) laid.tiled in
    let low = end_of-le h.virtual_base front in
    let valid = validate_block_lem h (some b) a seg rest (omega (arith, low)) tiled.1 in
    let shifted : Laid h ((front ++ (p ∷ [])) ++ (seg ∷ rest)) =
      subst (λ l. Laid h l) (append-shift front p (seg ∷ rest)) laid in
    let (blocks, same, laid') = coalesce_with_next-Laid h (front ++ (p ∷ [])) seg rest shifted in
    let same' : coalesce_with_next a h ≡ ok (record h { blocks = blocks }) =
      subst (λ x. coalesce_with_next x h ≡ ok (record h { blocks = blocks }))
        (end_of-append h.virtual_base front p) same in
    let (m, more, cons) = merge_next-cons seg rest in
    let h' : Heap = record h { blocks = blocks } in
    let back : Laid h' (front ++ (p ∷ merge_next seg rest)) =
      subst (λ l. Laid h' l) (sym (append-shift front p (merge_next seg rest))) laid' in
    let plain : Laid h' (front ++ (p ∷ m ∷ more)) =
      subst (λ l. Laid h' (front ++ (p ∷ l))) cons back in
    let there =
      Tiled-behind blocks none h.virtual_base h.virtual_next front (p ∷ m ∷ more) plain.tiled in
    let prev : (blocks a).prev ≡ some b = ap {A = Block} (λ k. k.prev) there.1.0 in
    let (block, final, done, laid'') = coalesce_back-Laid h' front p m more plain in
    (
      block,
      final,
      rw (valid, same', prev) done,
      subst (λ l. Laid (record h { blocks = final }) (front ++ merge_next p l)) (sym cons) laid'',
    )
