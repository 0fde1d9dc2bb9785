-- ===== src/Keyboard/Ring.antt =====
-- The ring buffer is a queue of at most 128 characters.
use toyix.Prelude.{
  ℕ, zero, suc, ◌+◌, ◌-◌, ◌%◌, ◌≤◌, ◌<◌, ◌≡◌, ◌≢◌, refl, ap, none, some, List, [], ◌∷◌, ◌++◌, ltb,
  ◌==◌, if◌then◌else◌, update, length, arith,
}
use toyix.Keyboard.{Keyboard, ring_size, ring_push, ring_pop}

pub record IsValid (s : Keyboard) : Type 0 where
  pub head : s.head < ring_size
  pub count : s.count ≤ ring_size
  pub tail : s.tail ≡ (s.head + s.count) % ring_size

-- The `n` characters from cell `at` on, oldest first.
abbrev pub from : (ℕ → ℕ) → ℕ → ℕ → List ℕ
from ring at zero = []
from ring at (suc n) = ring at ∷ from ring ((at + 1) % ring_size) n

abbrev pub queued : Keyboard → List ℕ
queued s = from s.ring s.head s.count

length-queued : (ring : ℕ → ℕ) (at n : ℕ) → length (from ring at n) ≡ n
length-queued ring at zero = refl
length-queued ring at (suc n) = ap suc (length-queued ring ((at + 1) % ring_size) n)

-- The cell behind a run that does not fill the ring is not in the run.
from-update :
    (ring : ℕ → ℕ) (ch n at cell : ℕ)
    → at < ring_size
    → n < ring_size
    → cell ≡ (at + n) % ring_size
    → from (update ring cell ch) at (suc n) ≡ from ring at n ++ ch ∷ []
from-update ring ch zero at cell ha hn e = ground arith
from-update ring ch (suc n) at cell ha hn e =
    let other : (if cell == at then ch else ring at) ≡ ring at = ground arith in
    rw (
      other,
      from-update ring ch n ((at + 1) % ring_size) cell (omega arith) (omega arith) (omega arith),
    )

from-pos :
    (ring : ℕ → ℕ) (at n : ℕ)
    → n ≢ 0
    → from ring at n ≡ ring at ∷ from ring ((at + 1) % ring_size) (n - 1)
from-pos ring at zero h = absurd (h refl)
from-pos ring at (suc n) h = ap (λ k. ring at ∷ from ring ((at + 1) % ring_size) k) (omega arith)

-- keyboard_ring_push of a valid ring refuses exactly when 128 characters wait, and then changes
-- nothing; otherwise it puts the character behind those that wait. The ring stays valid.
pub ring_push-queued :
    {s : Keyboard} (ch : ℕ)
    → IsValid s
    → ((ring_push ch s).0 ≡ ltb (length (queued s)) ring_size)
      × (queued (ring_push ch s).1
          ≡ (if ltb (length (queued s)) ring_size then queued s ++ ch ∷ [] else queued s))
      × IsValid (ring_push ch s).1
unfolding ring_push
ring_push-queued {s} ch v =
    ground (arith, length-queued s.ring s.head s.count, from-update s.ring ch s.count s.head s.tail)

-- keyboard_ring_pop of a valid ring takes the character that has waited longest, if there is one, and
-- leaves the others in order. The ring stays valid.
ring_pop-queued :
    {s : Keyboard}
    → IsValid s
    → (queued s ≡ (elim (ring_pop s).0 [ none ↦ [] | some ch ↦ ch ∷ queued (ring_pop s).1 ]))
      × IsValid (ring_pop s).1
unfolding ring_pop
ring_pop-queued {s} v = ground (arith, from-pos s.ring s.head s.count)
