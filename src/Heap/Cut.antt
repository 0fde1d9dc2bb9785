-- ===== src/Heap/Cut.antt =====
-- kmalloc's changes to the block that it hands out.
use toyix.Heap.{Heap, Block, heap_magic, header, min_split_payload, link_back, cut}
use toyix.Heap.Layout.{Segment, first_of, Tiled, Tiled-le}
use toyix.Heap.Splice.{Tiled-same}
use toyix.Prelude.{
  ℕ, ◌+◌, ◌-◌, ◌%◌, ◌^◌, ◌<◌, ◌≤◌, ◌≡◌, refl, sym, ap, subst, ne→==, ◌∙◌, Bool, true, false, ltb,
  ◌==◌, if◌then◌else◌, update, update_self, update_other, Option, some, List, [], ◌∷◌, arith,
}

-- The block behind gets a new block before it.
pub link_back-Tiled :
    (blocks : ℕ → Block) (before new : Option ℕ) (a stop : ℕ) (segs : List Segment)
    → Tiled blocks before a stop segs
    → Tiled (link_back blocks (first_of a segs) new) new a stop segs
unfolding link_back
link_back-Tiled blocks before new a stop [] e = e
link_back-Tiled blocks before new a stop (seg ∷ rest) (here, tiled) = (
  update_self blocks a _ ∙ ap {A = Block} (λ b. record b { prev = new }) here,
  Tiled-same blocks _ (some a) (a + header + seg.size) stop rest tiled
      (λ b low high. update_other blocks a b _ (omega arith)),
)

pub link_back-below :
    (blocks : ℕ → Block) (new : Option ℕ) (a : ℕ) (segs : List Segment) (b : ℕ)
    → b < a
    → link_back blocks (first_of a segs) new b ≡ blocks b
unfolding link_back
link_back-below blocks new a [] b lt = refl
link_back-below blocks new a (seg ∷ rest) b lt = update_other blocks a b _ (omega arith)

-- The blocks that a free block becomes when `wanted` bytes of it are handed out.
abbrev pub handed : (wanted : ℕ) → Segment → List Segment → List Segment
handed wanted seg rest =
    if ltb (seg.size - wanted) (header + min_split_payload)
    then record { size = seg.size; is_free = false } ∷ rest
    else record { size = wanted; is_free = false }
      ∷ record { size = seg.size - wanted - header; is_free = true }
      ∷ rest

module _ (blocks : ℕ → Block) (before : Option ℕ) (a stop : ℕ) (seg : Segment)
    (rest : List Segment) where
  -- The block is marked as free or used.
  pub take-Tiled :
      (f : Bool)
      → Tiled blocks before a stop (seg ∷ rest)
      → Tiled
          (update blocks a (record (blocks a) { is_free = f }))
          before
          a
          stop
          (record { size = seg.size; is_free = f } ∷ rest)
  take-Tiled f (here, tiled) = (
    update_self blocks a _ ∙ ap {A = Block} (λ b. record b { is_free = f }) here,
    Tiled-same blocks _ (some a) (a + header + seg.size) stop rest tiled
        (λ b low high. update_other blocks a b _ (omega arith)),
  )

pub cut-Tiled :
    (h : Heap) (before : Option ℕ) (a stop : ℕ) (seg : Segment) (rest : List Segment) (wanted : ℕ)
    → header + min_split_payload ≤ seg.size - wanted
    → stop < 2 ^ 32
    → Tiled h.blocks before a stop (seg ∷ rest)
    → ((b : ℕ) → b < a → (cut a wanted (seg.size - wanted) h).blocks b ≡ h.blocks b)
      × Tiled (cut a wanted (seg.size - wanted) h).blocks before a stop (
          record { size = wanted; is_free = seg.is_free }
          ∷ record { size = seg.size - wanted - header; is_free = true }
          ∷ rest)
unfolding cut
cut-Tiled h before a stop seg rest wanted large below (here, tiled) =
    let blocks = h.blocks in
    let z = a + header + seg.size in
    let y = a + header + wanted in
    let second : y + header + (seg.size - wanted - header) ≡ z = omega arith in
    let le = Tiled-le blocks (some a) z stop rest tiled in
    let addr : (a + header + wanted) % 2 ^ 32 ≡ y = omega arith in
    let new : Block = record {
      magic = heap_magic;
      size = seg.size - wanted - header;
      is_free = true;
      next = first_of z rest;
      prev = some a;
    } in
    let made = update blocks y new in
    let linked = link_back made (first_of z rest) (some y) in
    let kept : Tiled made (some a) z stop rest =
      Tiled-same blocks made (some a) z stop rest tiled
        (λ b low high. update_other blocks y b new (omega arith)) in
    let back : Tiled linked (some y) z stop rest =
      link_back-Tiled made (some a) (some y) z stop rest kept in
    let own : linked a ≡ blocks a =
      link_back-below made (some y) z rest a (omega arith)
      ∙ update_other blocks y a new (omega arith) in
    let there : linked y ≡ new =
      link_back-below made (some y) z rest y (omega arith) ∙ update_self blocks y new in
    let behind : new ≡ record {
      magic = heap_magic;
      size = seg.size - wanted - header;
      is_free = true;
      next = first_of (y + header + (seg.size - wanted - header)) rest;
      prev = some a;
    } =
      rw second refl in
    let final = update linked a (record (linked a) { next = some y; size = wanted }) in
    let links : (blocks a).next ≡ first_of z rest = ap {A = Block} (λ b. b.next) here in
    let apart : (y == a) ≡ false = ne→== y a (omega arith) in
    let same : (cut a wanted (seg.size - wanted) h).blocks ≡ final = rw (addr, links, apart) refl in
    let lower : (b : ℕ) → b < a → final b ≡ blocks b = λ b lt.
      update_other linked a b _ (omega arith)
      ∙ link_back-below made (some y) z rest b (omega arith)
      ∙ update_other blocks y b new (omega arith) in
    subst
      (λ l.
        ((b : ℕ) → b < a → l b ≡ blocks b)
        × Tiled l before a stop (
            record { size = wanted; is_free = seg.is_free }
            ∷ record { size = seg.size - wanted - header; is_free = true }
            ∷ rest))
      (sym same)
      (
        lower,
        (
          update_self linked a _
              ∙ ap {A = Block} (λ b. record b { next = some y; size = wanted }) (own ∙ here),
          (
            update_other linked a y _ (omega arith) ∙ there ∙ behind,
            rw second (
                Tiled-same linked final (some y) z stop rest back
                  (λ b low high. update_other linked a b _ (omega arith))),
          ),
        ),
      )
