-- ===== src/Heap/HandOut.antt =====
-- What kmalloc does with the block that it has found.
use toyix.Heap.{Heap, Block, header, min_split_payload, cut, split_block_if_large_enough, hand_out}
use toyix.Heap.Layout.{Segment, Tiled, Laid, Tiled-le, validate_block_lem}
use toyix.Heap.Splice.{end_of, last_of, end_of-le, Tiled-behind, Laid-splice}
use toyix.Heap.Cut.{handed, cut-Tiled, take-Tiled}
use toyix.Prelude.{
  ℕ, ◌+◌, ◌-◌, ◌%◌, ◌^◌, ◌<◌, ◌≤◌, ◌≡◌, refl, sym, ap, subst, ◌∙◌, true, false, ltb, leb, inl, inr,
  Bool-cases, update, update_other, none, some, ok, List, ◌∷◌, ◌++◌, arith,
}

-- From a block with at least `wanted` bytes that lies behind the blocks `front`, hand_out gives the
-- address behind its header, and leaves the same heap with this block used; where 40 bytes or more are
-- left over, they become a free block behind it.
pub hand_out-Laid :
    (h : Heap) (front : List Segment) (seg : Segment) (rest : List Segment) (wanted : ℕ)
    → Laid h (front ++ (seg ∷ rest))
    → wanted ≤ seg.size
    → (h' : Heap) × (hand_out (end_of h.virtual_base front) wanted h
        ≡ ok (end_of h.virtual_base front + header, h'))
      × Laid h' (front ++ handed wanted seg rest)
unfolding hand_out split_block_if_large_enough cut
hand_out-Laid h front seg rest wanted laid enough =
    let a = end_of h.virtual_base front in
    let before = last_of none h.virtual_base front in
    let tiled : Tiled h.blocks before a h.virtual_next (seg ∷ rest) =
      Tiled-behind h.blocks none h.virtual_base h.virtual_next front (seg ∷ rest) laid.tiled in
    let low = end_of-le h.virtual_base front in
    let le = Tiled-le h.blocks (some a) (a + header + seg.size) h.virtual_next rest tiled.1 in
    let valid = validate_block_lem h before a seg rest low tiled in
    let size : (h.blocks a).size ≡ seg.size = ap {A = Block} (λ b. b.size) tiled.0 in
    let fits : leb wanted (h.blocks a).size ≡ true = rw size (ground arith) in
    let addr : (a + header) % 2 ^ 32 ≡ a + header = omega (arith, laid.below) in
    let active = (h.active + 1) % 2 ^ 32 in
    let total = (h.total + 1) % 2 ^ 32 in
    elim (Bool-cases (ltb (seg.size - wanted) (header + min_split_payload))) [
      | inl e ↦
          let over : ltb ((h.blocks a).size - wanted) (header + min_split_payload) ≡ true =
            rw size e in
          let used = update h.blocks a (record (h.blocks a) { is_free = false }) in
          (
            record h { blocks = used; active = active; total = total },
            rw (valid, fits, over, addr) refl,
            rw e (
                Laid-splice h used active total front seg _ rest rest laid
                  (λ b lt. update_other h.blocks a b _ (omega arith))
                  (take-Tiled h.blocks before a h.virtual_next seg rest false tiled)),
          )
      | inr e ↦
          let over : ltb ((h.blocks a).size - wanted) (header + min_split_payload) ≡ false =
            rw size e in
          let split = (cut a wanted ((h.blocks a).size - wanted) h).blocks in
          let used = update split a (record (split a) { is_free = false }) in
          let last : List Segment =
            record { size = seg.size - wanted - header; is_free = true } ∷ rest in
          let (same, new) =
            subst
              (λ n.
                ((b : ℕ) → b < a → (cut a wanted n h).blocks b ≡ h.blocks b)
                × Tiled (cut a wanted n h).blocks before a h.virtual_next (
                    record { size = wanted; is_free = seg.is_free }
                    ∷ record { size = seg.size - wanted - header; is_free = true }
                    ∷ rest))
              (ap (λ n. n - wanted) (sym size))
              (cut-Tiled h before a h.virtual_next seg rest wanted (ground arith) laid.below
                tiled) in
          (
            record h { blocks = used; active = active; total = total },
            rw (valid, fits, over, addr) refl,
            rw e (
                Laid-splice h used active total front seg _ rest last laid
                  (λ b lt. update_other split a b _ (omega arith) ∙ same b lt)
                  (take-Tiled split before a h.virtual_next
                    (record { size = wanted; is_free = seg.is_free }) last false new)),
          )
    ]
