-- ===== src/WaitQueue/Frame.antt =====
-- What push and pop leave alone: the links of threads outside the queue, and so the other queues over
-- the same links.
use toyix.WaitQueue.{Links, Queue, set_links, link_last, push, unlink_first, pop_head, pop}
use toyix.WaitQueue.Order.{Absent, Chain, Holds, Chain-set_links}
use toyix.Prelude.{ℕ, ◌≡◌, ◌≢◌, refl, ◌∙◌, List, [], ◌∷◌, Option, none, some, arith}

-- No thread of the first list stands in the second.
abbrev pub Apart : List ℕ → List ℕ → Type 0
Apart [] ids = Unit
Apart (t ∷ rest) ids = Absent t ids × Apart rest ids

-- The threads of the list have the same links in both.
abbrev pub Same : (ℕ → Links) → (ℕ → Links) → List ℕ → Type 0
Same f g [] = Unit
Same f g (t ∷ rest) = (g t ≡ f t) × Same f g rest

pub Chain-Same :
    (f g : ℕ → Links) (before : Option ℕ) (ids : List ℕ) (head tail : Option ℕ)
    → Same f g ids
    → Chain f before ids head tail
    → Chain g before ids head tail
Chain-Same f g before [] head tail same chain = chain
Chain-Same f g before (t ∷ rest) head tail (e, same) (h, p, alone, chain) =
    rw e (h, p, alone, Chain-Same f g (some t) rest (f t).next tail same chain)

Chain-last-ne :
    (links : ℕ → Links) (before : Option ℕ) (t : ℕ) (ids : List ℕ) (head : Option ℕ) (last x : ℕ)
    → Chain links before (t ∷ ids) head (some last)
    → Absent x (t ∷ ids)
    → x ≢ last
Chain-last-ne links before t [] head last x (_, _, _, (_, e)) (differ, _) = ground arith
Chain-last-ne links before t (u ∷ ids) head last x (_, _, _, chain) (_, absent) =
    Chain-last-ne links (some t) u ids (links t).next last x chain absent

-- push changes the links of the last thread of the queue and of the one added.
link_last-other :
    (links : ℕ → Links) (ids : List ℕ) (head tail : Option ℕ) (thread x : ℕ)
    → Chain links none ids head tail
    → Absent x ids
    → (link_last links head tail thread).links x ≡ links x
unfolding link_last set_links
link_last-other links ids head none thread x chain absent = refl
link_last-other links [] head (some last) thread x (_, e) absent = absurd (ground arith)
link_last-other links (t ∷ ids) head (some last) thread x chain absent =
    let differ : x ≢ last = Chain-last-ne links none t ids head last x chain absent in ground arith

set_links-other :
    (links : ℕ → Links) (thread : ℕ) (new : Links) (x : ℕ)
    → x ≢ thread
    → set_links links thread new x ≡ links x
unfolding set_links
set_links-other links thread new x differ = ground arith

push-other :
    (q : Queue) (thread x : ℕ) (ids : List ℕ)
    → Holds q ids
    → Absent thread ids
    → Absent x ids
    → x ≢ thread
    → (push q thread).links x ≡ q.links x
unfolding push
push-other q thread x ids holds out absent differ =
    let new : Links = record { next = none; prev = q.tail } in
    let chain = Chain-set_links q.links none ids q.head q.tail thread new out holds in
    link_last-other (set_links q.links thread new) ids q.head q.tail thread x chain absent
    ∙ set_links-other q.links thread new x differ

-- pop changes the links of the first two threads of the queue.
pop-other :
    (q : Queue) (x : ℕ) (ids : List ℕ) → Holds q ids → Absent x ids → (pop q).1.links x ≡ q.links x
unfolding pop pop_head unlink_first set_links
pop-other q x [] (h, _) absent = rw h refl
pop-other q x (t ∷ []) (h, _, _, (n, _)) (differ, _) = rw (h, n) (ground arith)
pop-other q x (t ∷ u ∷ ids) (h, _, _, (n, _, _, _)) (differ, (other, _)) = rw (h, n) (ground arith)

pub push-Same :
    (q : Queue) (thread : ℕ) (ids others : List ℕ)
    → Holds q ids
    → Absent thread ids
    → Absent thread others
    → Apart others ids
    → Same q.links (push q thread).links others
push-Same q thread ids [] holds out absent apart = tt
push-Same q thread ids (t ∷ rest) holds out (differ, absent) (here, apart) = (
  push-other q thread t ids holds out here differ,
  push-Same q thread ids rest holds out absent apart,
)

pub pop-Same :
    (q : Queue) (ids others : List ℕ)
    → Holds q ids
    → Apart others ids
    → Same q.links (pop q).1.links others
pop-Same q ids [] holds apart = tt
pop-Same q ids (t ∷ rest) holds (here, apart) =
    (pop-other q t ids holds here, pop-Same q ids rest holds apart)
