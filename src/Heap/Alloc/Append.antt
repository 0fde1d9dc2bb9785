-- ===== src/Heap/Alloc/Append.antt =====
-- A new region lies behind all blocks, and insert_block_sorted links its block behind the last.
use toyix.Heap.{Heap, Block, header, validate_block}
use toyix.Heap.Layout.{Segment, first_of, Tiled, Laid, Tiled-le, validate_fields}
use toyix.Heap.Splice.{end_of, last_of, first_of-append, Tiled-behind, Tiled-splice}
use toyix.Heap.Release.{last-cases}
use toyix.Heap.Free.{append-shift}
use toyix.Heap.Alloc.{
  find_not_below, find_tail, insert_last, insert_at, insert_from_head, insert_block_sorted,
  region_block,
}
use toyix.Prelude.{
  ℕ, zero, suc, ◌+◌, ◌-◌, ◌%◌, ◌^◌, ◌<◌, ◌≤◌, ◌≡◌, refl, sym, ap, subst, ◌∙◌, true, ltb, update,
  update_self, update_other, Option, none, some, ok, List, [], ◌∷◌, ◌++◌, length, length-append,
  arith, lt→ltb, inl, inr,
}

-- No block lies at `new` or above.
find_not_below-none :
    (rounds new : ℕ) (h : Heap) (before : Option ℕ) (a stop : ℕ) (segs : List Segment)
    → length segs < rounds
    → stop ≤ new
    → Tiled h.blocks before a stop segs
    → find_not_below rounds new (first_of a segs) h ≡ ok none
unfolding find_not_below
find_not_below-none zero new h before a stop segs few high tiled = absurd (omega arith)
find_not_below-none (suc rounds) new h before a stop [] few high tiled = refl
find_not_below-none (suc rounds) new h before a stop (seg ∷ rest) few high (here, tiled) =
    let le = Tiled-le h.blocks (some a) (a + header + seg.size) stop rest tiled in
    let below : ltb a new ≡ true = lt→ltb a new (omega arith) in
    let next = ap {A = Block} (λ b. b.next) here in
    rw (below, find_not_below, next)
      (find_not_below-none rounds new h (some a) (a + header + seg.size) stop rest (omega arith)
        high tiled)

find_tail-last :
    (rounds : ℕ) (h : Heap) (before : Option ℕ) (a stop : ℕ) (init : List Segment) (p : Segment)
    → length init < rounds
    → Tiled h.blocks before a stop (init ++ (p ∷ []))
    → find_tail rounds a (h.blocks a).next h ≡ ok (end_of a init)
unfolding find_tail
find_tail-last zero h before a stop init p few tiled = absurd (omega arith)
find_tail-last (suc rounds) h before a stop [] p few (here, _) = rw here refl
find_tail-last (suc rounds) h before a stop (seg ∷ []) p few (here, tiled) =
    let next : (h.blocks a).next ≡ some (a + header + seg.size) =
      ap {A = Block} (λ b. b.next) here in
    rw next (find_tail-last rounds h (some a) (a + header + seg.size) stop [] p (omega arith) tiled)
find_tail-last (suc rounds) h before a stop (seg ∷ mid ∷ init) p few (here, tiled) =
    let next : (h.blocks a).next ≡ some (a + header + seg.size) =
      ap {A = Block} (λ b. b.next) here in
    rw next (
      find_tail-last rounds h (some a) (a + header + seg.size) stop (mid ∷ init) p (omega arith)
        tiled)

-- A heap whose last `bytes` bytes are a region that is not linked yet.
pub record Extended (h : Heap) (segs : List Segment) (start bytes : ℕ) : Type 0 where
  pub tiled : Tiled h.blocks none h.virtual_base start segs
  pub first : h.head ≡ first_of h.virtual_base segs
  pub fresh : h.blocks start ≡ region_block bytes
  pub room : header ≤ bytes
  pub top : h.virtual_next ≡ start + bytes
  pub below : h.virtual_next < 2 ^ 32

abbrev pub fresh_segment : ℕ → Segment
fresh_segment bytes = record { size = bytes - header; is_free = true }

-- The new block is the heap's last.
abbrev pub Inserted : (rounds : ℕ) (h : Heap) (segs : List Segment) (start bytes : ℕ) → Type 0
Inserted rounds h segs start bytes =
    (blocks : ℕ → Block) × (head : Option ℕ) × (insert_block_sorted rounds start h
      ≡ ok (record h { blocks = blocks; head = head }))
    × Laid (record h { blocks = blocks; head = head }) (segs ++ (fresh_segment bytes ∷ []))

start-valid :
    (h : Heap) (segs : List Segment) (start bytes : ℕ)
    → Extended h segs start bytes
    → validate_block start h ≡ ok tt
start-valid h segs start bytes x =
    let low = Tiled-le h.blocks none h.virtual_base start segs x.tiled in
    validate_fields h start (omega arith) (omega (arith, x.top, x.room))
      (ap {A = Block} (λ b. b.magic) x.fresh)

insert-first :
    (rounds : ℕ) (h : Heap) (start bytes : ℕ)
    → Extended h [] start bytes
    → Inserted rounds h [] start bytes
unfolding insert_block_sorted insert_from_head
insert-first rounds h start bytes x =
    let base = h.virtual_base in
    let same : base ≡ start = x.tiled in
    let blocks = update h.blocks start (record (h.blocks start) { next = none; prev = none }) in
    let size : (bytes + 2 ^ 32 - header) % 2 ^ 32 ≡ bytes - header =
      omega (arith, x.room, x.below, x.top) in
    let here : blocks start ≡ record (region_block bytes) { size = bytes - header } =
      update_self h.blocks start _ ∙ rw (x.fresh, size) refl in
    (
      blocks,
      some start,
      rw (start-valid h [] start bytes x, x.first) refl,
      record {
        tiled = rw same (here, omega (arith, x.top, x.room));
        first = ap some (sym same);
        below = x.below;
      },
    )

first_of-last : (a : ℕ) (init : List Segment) (p : Segment) → first_of a (init ++ (p ∷ [])) ≡ some a
first_of-last a [] p = refl
first_of-last a (seg ∷ init) p = refl

insert-behind :
    (rounds : ℕ) (h : Heap) (init : List Segment) (p : Segment) (start bytes : ℕ)
    → length init + 1 < rounds
    → Extended h (init ++ (p ∷ [])) start bytes
    → Inserted rounds h (init ++ (p ∷ [])) start bytes
unfolding insert_block_sorted insert_from_head insert_at insert_last
insert-behind rounds h init p start bytes few x =
    let base = h.virtual_base in
    let segs = init ++ (p ∷ []) in
    let t = end_of base init in
    let (last, stop) = Tiled-behind h.blocks none base start init (p ∷ []) x.tiled in
    let valid = start-valid h segs start bytes x in
    let many : length segs < rounds = rw (length-append init (p ∷ [])) (omega arith) in
    let above =
      find_not_below-none rounds start h none base start segs many (omega arith) x.tiled in
    let first : first_of base segs ≡ some base = first_of-last base init p in
    let above' : find_not_below rounds start (some base) h ≡ ok none =
      subst (λ f. find_not_below rounds start f h ≡ ok none) first above in
    let tail = find_tail-last rounds h none base start init p (omega arith) x.tiled in
    let head : h.head ≡ some base = x.first ∙ first in
    let marked : Block = record (h.blocks t) { next = some start } in
    let behind = update h.blocks t marked in
    let own : behind start ≡ region_block bytes =
      update_other h.blocks t start marked (omega arith) ∙ x.fresh in
    let linked : Block = record (behind start) { next = none; prev = some t } in
    let blocks = update behind start linked in
    let size : (bytes + 2 ^ 32 - header) % 2 ^ 32 ≡ bytes - header =
      omega (arith, x.room, x.below, x.top) in
    let here : blocks t ≡ marked =
      update_other behind start t linked (omega arith) ∙ update_self h.blocks t marked in
    let there : blocks start
        ≡ record (region_block bytes) { size = bytes - header; prev = some t } =
      update_self behind start linked ∙ rw (own, size) refl in
    let same : (b : ℕ) → b < t → blocks b ≡ h.blocks b = λ b lt.
      update_other behind start b linked (omega arith)
      ∙ update_other h.blocks t b marked (omega arith) in
    let new : Tiled blocks (last_of none base init) t h.virtual_next
        (p ∷ fresh_segment bytes ∷ []) =
      (here ∙ rw (last, stop) refl, rw stop (there, omega (arith, x.top, x.room))) in
    let tiled =
      Tiled-splice h.blocks blocks none base start h.virtual_next init p p []
        (fresh_segment bytes ∷ []) x.tiled same new in
    let done : insert_from_head rounds start (some base) h ≡ ok (record h { blocks = blocks }) =
      rw (above', tail) refl in
    (
      blocks,
      h.head,
      rw valid (
          subst (λ o. insert_from_head rounds start o h ≡ ok (record h { blocks = blocks }))
            (sym head) done),
      subst (λ l. Laid (record h { blocks = blocks }) l)
          (append-shift init p (fresh_segment bytes ∷ []))
          (record {
            tiled = tiled;
            first = x.first ∙ first_of-append base init p p [] (fresh_segment bytes ∷ []);
            below = x.below;
          }),
    )

pub insert_block_sorted-Inserted :
    (rounds : ℕ) (h : Heap) (segs : List Segment) (start bytes : ℕ)
    → length segs < rounds
    → Extended h segs start bytes
    → Inserted rounds h segs start bytes
insert_block_sorted-Inserted rounds h segs start bytes few x = elim (last-cases segs) [
  | inl e ↦
      subst (λ l. Inserted rounds h l start bytes) (sym e)
        (insert-first rounds h start bytes (subst (λ l. Extended h l start bytes) e x))
  | inr (init, p, e) ↦
      let many : length init + 1 < rounds =
        omega (arith, length-append {0} init (p ∷ []), ap length e) in
      subst (λ l. Inserted rounds h l start bytes) (sym e)
        (insert-behind rounds h init p start bytes many (subst (λ l. Extended h l start bytes) e x))
]
