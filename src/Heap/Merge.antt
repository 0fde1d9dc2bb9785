-- ===== src/Heap/Merge.antt =====
-- coalesce_with_next merges a free block with the block behind it, if that is free too.
use toyix.Heap.{
  Heap, Block, heap_magic, header, link_back, block_end_addr, absorb, coalesce_pair,
  coalesce_with_next,
}
use toyix.Heap.Layout.{Segment, first_of, Tiled, Laid, Tiled-le, validate_block_lem}
use toyix.Heap.Splice.{end_of, last_of, end_of-le, Tiled-behind, Tiled-same, Laid-splice}
use toyix.Heap.Cut.{link_back-Tiled, link_back-below}
use toyix.Prelude.{
  ℕ, ◌+◌, ◌%◌, ◌^◌, ◌<◌, ◌≡◌, refl, ap, ne→==, ◌∙◌, true, false, ◌&&◌, ◌==◌, if◌then◌else◌, inl,
  inr, Bool-cases, update, update_self, update_other, Option, none, some, ok, List, [], ◌∷◌, ◌++◌,
  arith,
}

-- The first block, merged with the next one where both are free.
abbrev pub merged : Segment → Segment → Segment
merged seg next = record { size = seg.size + header + next.size; is_free = seg.is_free }

abbrev pub merge_next : Segment → List Segment → List Segment
merge_next seg [] = seg ∷ []
merge_next seg (next ∷ rest) =
    if seg.is_free && next.is_free then merged seg next ∷ rest else seg ∷ next ∷ rest

absorb-Tiled :
    (h : Heap) (before : Option ℕ) (a stop : ℕ) (seg next : Segment) (rest : List Segment)
    → stop < 2 ^ 32
    → Tiled h.blocks before a stop (seg ∷ next ∷ rest)
    → (blocks : ℕ → Block) × (absorb a (a + header + seg.size) h ≡ record h { blocks = blocks })
      × ((b : ℕ) → b < a → blocks b ≡ h.blocks b)
      × Tiled blocks before a stop (merged seg next ∷ rest)
unfolding absorb
absorb-Tiled h before a stop seg next rest below (here, (there, tiled)) =
    let blocks = h.blocks in
    let n = a + header + seg.size in
    let z = n + header + next.size in
    let le = Tiled-le blocks (some n) z stop rest tiled in
    let sum : (seg.size + header + next.size) % 2 ^ 32 ≡ seg.size + header + next.size =
      omega arith in
    let own : (blocks a).size ≡ seg.size = ap {A = Block} (λ b. b.size) here in
    let theirs : (blocks n).size ≡ next.size = ap {A = Block} (λ b. b.size) there in
    let links : (blocks n).next ≡ first_of z rest = ap {A = Block} (λ b. b.next) there in
    let grown : Block = record (blocks a) {
      size = ((blocks a).size + header + (blocks n).size) % 2 ^ 32;
      next = (blocks n).next;
    } in
    let wide = update blocks a grown in
    let apart : (a == n) ≡ false = ne→== a n (omega arith) in
    let kept : Tiled wide (some n) z stop rest =
      Tiled-same blocks wide (some n) z stop rest tiled
        (λ b low high. update_other blocks a b grown (omega arith)) in
    let far : a + header + (seg.size + header + next.size) ≡ z = omega arith in
    let new : grown ≡ record {
      magic = heap_magic;
      size = seg.size + header + next.size;
      is_free = seg.is_free;
      next = first_of (a + header + (seg.size + header + next.size)) rest;
      prev = before;
    } =
      rw (here, theirs, links, sum, far) refl in
    (
      link_back wide (first_of z rest) (some a),
      rw (apart, links) refl,
      (λ b lt.
          link_back-below wide (some a) z rest b (omega arith)
          ∙ update_other blocks a b grown (omega arith)),
      (
        link_back-below wide (some a) z rest a (omega arith) ∙ update_self blocks a grown ∙ new,
        rw far (link_back-Tiled wide (some n) (some a) z stop rest kept),
      ),
    )

-- An address below 2 ^ 32 does not wrap around.
pub no_wrap : (n : ℕ) → n < 2 ^ 32 → (n % 2 ^ 32 == n) ≡ true
no_wrap n below = ground arith

pub coalesce_with_next-Laid :
    (h : Heap) (front : List Segment) (seg : Segment) (rest : List Segment)
    → Laid h (front ++ (seg ∷ rest))
    → (blocks : ℕ → Block) × (coalesce_with_next (end_of h.virtual_base front) h
        ≡ ok (record h { blocks = blocks }))
      × Laid (record h { blocks = blocks }) (front ++ merge_next seg rest)
unfolding coalesce_with_next coalesce_pair
coalesce_with_next-Laid h front seg [] laid =
    let a = end_of h.virtual_base front in
    let before = last_of none h.virtual_base front in
    let tiled : Tiled h.blocks before a h.virtual_next (seg ∷ []) =
      Tiled-behind h.blocks none h.virtual_base h.virtual_next front (seg ∷ []) laid.tiled in
    let valid = validate_block_lem h before a seg [] (end_of-le h.virtual_base front) tiled in
    let links : (h.blocks a).next ≡ none = ap {A = Block} (λ b. b.next) tiled.0 in
    (h.blocks, rw (valid, links) refl, laid)
coalesce_with_next-Laid h front seg (next ∷ rest) laid =
    let a = end_of h.virtual_base front in
    let n = a + header + seg.size in
    let before = last_of none h.virtual_base front in
    let tiled : Tiled h.blocks before a h.virtual_next (seg ∷ next ∷ rest) =
      Tiled-behind h.blocks none h.virtual_base h.virtual_next front (seg ∷ next ∷ rest)
        laid.tiled in
    let low = end_of-le h.virtual_base front in
    let valid = validate_block_lem h before a seg (next ∷ rest) low tiled in
    let valid' = validate_block_lem h (some a) n next rest (omega (arith, low)) tiled.1 in
    let le = Tiled-le h.blocks (some a) n h.virtual_next (next ∷ rest) tiled.1 in
    let links : (h.blocks a).next ≡ some n = ap {A = Block} (λ b. b.next) tiled.0 in
    let size : (h.blocks a).size ≡ seg.size = ap {A = Block} (λ b. b.size) tiled.0 in
    let adjacent : (block_end_addr h a == n) ≡ true =
      rw size (no_wrap n (omega (arith, laid.below, le))) in
    let one : (h.blocks a).is_free ≡ seg.is_free = ap {A = Block} (λ b. b.is_free) tiled.0 in
    let two : (h.blocks n).is_free ≡ next.is_free = ap {A = Block} (λ b. b.is_free) tiled.1.0 in
    elim (Bool-cases (seg.is_free && next.is_free)) [
      | inl e ↦
          let both : ((h.blocks a).is_free && (h.blocks n).is_free) ≡ true = rw (one, two) e in
          let (blocks, same, other, new) =
            absorb-Tiled h before a h.virtual_next seg next rest laid.below tiled in
          (
            blocks,
            rw (valid, links, valid', both, adjacent) (ap ok same),
            rw e (
                Laid-splice h blocks h.active h.total front seg (merged seg next) (next ∷ rest) rest
                  laid other new),
          )
      | inr e ↦
          let both : ((h.blocks a).is_free && (h.blocks n).is_free) ≡ false = rw (one, two) e in
          (h.blocks, rw (valid, links, valid', both) refl, rw e laid)
    ]
