-- ===== src/Heap/Splice.antt =====
-- A change to the headers of some blocks leaves the blocks before them as they are.
use toyix.Heap.{Heap, Block, header}
use toyix.Heap.Layout.{Segment, first_of, Tiled, Tiled-le, Laid}
use toyix.Prelude.{ℕ, ◌+◌, ◌<◌, ◌≤◌, ◌≡◌, refl, ◌∙◌, Option, none, some, List, [], ◌∷◌, ◌++◌, arith}

-- Where the blocks end, and the last of them.
abbrev pub end_of : ℕ → List Segment → ℕ
end_of a [] = a
end_of a (seg ∷ rest) = end_of (a + header + seg.size) rest

abbrev pub last_of : (before : Option ℕ) → ℕ → List Segment → Option ℕ
last_of before a [] = before
last_of before a (seg ∷ rest) = last_of (some a) (a + header + seg.size) rest

pub end_of-le : (a : ℕ) (segs : List Segment) → a ≤ end_of a segs
end_of-le a [] = omega arith
end_of-le a (seg ∷ rest) = omega (arith, end_of-le (a + header + seg.size) rest)

-- The blocks behind the first ones.
pub Tiled-behind :
    (blocks : ℕ → Block) (before : Option ℕ) (a stop : ℕ) (front back : List Segment)
    → Tiled blocks before a stop (front ++ back)
    → Tiled blocks (last_of before a front) (end_of a front) stop back
Tiled-behind blocks before a stop [] back tiled = tiled
Tiled-behind blocks before a stop (seg ∷ front) back (_, tiled) =
    Tiled-behind blocks (some a) (a + header + seg.size) stop front back tiled

pub first_of-append :
    (a : ℕ) (front : List Segment) (x y : Segment) (xs ys : List Segment)
    → first_of a (front ++ (x ∷ xs)) ≡ first_of a (front ++ (y ∷ ys))
first_of-append a [] x y xs ys = refl
first_of-append a (seg ∷ front) x y xs ys = refl

pub Tiled-splice :
    (blocks blocks' : ℕ → Block) (before : Option ℕ) (a stop stop' : ℕ) (front : List Segment)
    (x y : Segment) (xs ys : List Segment)
    → Tiled blocks before a stop (front ++ (x ∷ xs))
    → ((b : ℕ) → b < end_of a front → blocks' b ≡ blocks b)
    → Tiled blocks' (last_of before a front) (end_of a front) stop' (y ∷ ys)
    → Tiled blocks' before a stop' (front ++ (y ∷ ys))
Tiled-splice blocks blocks' before a stop stop' [] x y xs ys tiled same new = new
Tiled-splice blocks blocks' before a stop stop' (seg ∷ front) x y xs ys (here, tiled) same new =
    let le = end_of-le (a + header + seg.size) front in
    let link = first_of-append (a + header + seg.size) front x y xs ys in
    (
      same a (omega arith) ∙ rw (← link) here,
      Tiled-splice blocks blocks' (some a) (a + header + seg.size) stop stop' front x y xs ys tiled
          same new,
    )

-- A change below or above the blocks.
pub Tiled-same :
    (blocks blocks' : ℕ → Block) (before : Option ℕ) (a stop : ℕ) (segs : List Segment)
    → Tiled blocks before a stop segs
    → ((b : ℕ) → a ≤ b → b < stop → blocks' b ≡ blocks b)
    → Tiled blocks' before a stop segs
Tiled-same blocks blocks' before a stop [] e same = e
Tiled-same blocks blocks' before a stop (seg ∷ rest) (here, tiled) same =
    let le = Tiled-le blocks (some a) (a + header + seg.size) stop rest tiled in
    (
      same a (omega arith) (omega arith) ∙ here,
      Tiled-same blocks blocks' (some a) (a + header + seg.size) stop rest tiled
          (λ b low high. same b (omega arith) high),
    )

-- A heap of which one block, and what lies behind it, is changed.
pub Laid-splice :
    (h : Heap) (blocks : ℕ → Block) (active total : ℕ) (front : List Segment) (x y : Segment)
    (xs ys : List Segment)
    → Laid h (front ++ (x ∷ xs))
    → ((b : ℕ) → b < end_of h.virtual_base front → blocks b ≡ h.blocks b)
    → Tiled blocks
        (last_of none h.virtual_base front)
        (end_of h.virtual_base front)
        h.virtual_next
        (y ∷ ys)
    → Laid (record h { blocks = blocks; active = active; total = total }) (front ++ (y ∷ ys))
Laid-splice h blocks active total front x y xs ys laid same new = record {
  tiled =
      Tiled-splice h.blocks blocks none h.virtual_base h.virtual_next h.virtual_next front x y xs ys
        laid.tiled same new;
  first = laid.first ∙ first_of-append h.virtual_base front x y xs ys;
  below = laid.below;
}
