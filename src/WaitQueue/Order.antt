-- ===== src/WaitQueue/Order.antt =====
-- The linked queue is a list of threads: push adds at its end, pop takes its first.
use toyix.WaitQueue.{Links, Queue, set_links, link_last, push, unlink_first, pop_head, pop}
use toyix.Prelude.{
  ℕ, ◌≡◌, ◌≢◌, refl, sym, ap, ◌∙◌, ◌==◌, if◌then◌else◌, List, [], ◌∷◌, ◌++◌, Option, none, some,
  arith,
}

-- No thread of the list is `thread`.
abbrev pub Absent : ℕ → List ℕ → Type 0
Absent thread [] = Unit
Absent thread (t ∷ rest) = (t ≢ thread) × Absent thread rest

-- The threads from `head` to `tail`, all different, with `before` behind the first.
abbrev pub Chain : (ℕ → Links) → (before : Option ℕ) → List ℕ → (head tail : Option ℕ) → Type 0
Chain links before [] head tail = (head ≡ none) × (tail ≡ before)
Chain links before (t ∷ rest) head tail =
    (head ≡ some t)
    × ((links t).prev ≡ before)
    × Absent t rest
    × Chain links (some t) rest (links t).next tail

-- The queue holds these threads, first to last.
abbrev pub Holds : Queue → List ℕ → Type 0
Holds q threads = Chain q.links none threads q.head q.tail

-- A thread outside a chain may get any links.
pub Chain-set_links :
    (links : ℕ → Links) (before : Option ℕ) (threads : List ℕ) (head tail : Option ℕ) (thread : ℕ)
    (new : Links)
    → Absent thread threads
    → Chain links before threads head tail
    → Chain (set_links links thread new) before threads head tail
unfolding set_links
Chain-set_links links before [] head tail thread new absent chain = chain
Chain-set_links links before (t ∷ rest) head tail thread new (differ, absent) (h, p, alone, chain) =
    let same : (if t == thread then new else links t) ≡ links t = ground arith in
    rw same
      (h, p, alone, Chain-set_links links (some t) rest (links t).next tail thread new absent chain)

set_links-own :
    (links : ℕ → Links) (thread : ℕ) (new : Links) → set_links links thread new thread ≡ new
unfolding set_links
set_links-own links thread new = ground arith

unlink_first-Holds :
    (links : ℕ → Links) (thread : ℕ) (threads : List ℕ) (head tail : Option ℕ)
    → Absent thread threads
    → Chain links (some thread) threads head tail
    → Holds (unlink_first links head tail thread) threads
unfolding unlink_first set_links
unlink_first-Holds links thread [] none tail absent chain = (refl, refl)
unlink_first-Holds links thread [] (some first) tail absent (h, _) = absurd (ground arith)
unlink_first-Holds links thread (t ∷ rest) none tail absent (h, _, _, _) = absurd (ground arith)
unlink_first-Holds links thread (t ∷ rest) (some first) tail (differ, absent) (h, p, alone, chain) =
    let same : first ≡ t = ground arith in
    let cleared = set_links links first (record { next = (links first).next; prev = none }) in
    let left = set_links cleared thread (record { next = none; prev = none }) in
    let here : left t ≡ record { next = (links t).next; prev = none } = ground arith in
    let kept : Chain cleared (some t) rest (links t).next tail =
      Chain-set_links links (some t) rest (links t).next tail first _ (rw same alone) chain in
    (
      h,
      ap (λ l. l.prev) here,
      alone,
      rw (ap (λ l. l.next) here)
          (Chain-set_links cleared (some t) rest (links t).next tail thread _ absent kept),
    )

-- What pop answers for a queue that holds the threads.
abbrev pub Popped : Queue → List ℕ → Option ℕ × Queue → Type 0
Popped q [] out = out ≡ (none, q)
Popped q (thread ∷ rest) out = (out.0 ≡ some thread) × Holds out.1 rest

-- From a queue that holds these threads, pop takes the first and leaves the others in their order; from
-- an empty queue it takes none and changes nothing.
pub pop-Popped : (q : Queue) (threads : List ℕ) → Holds q threads → Popped q threads (pop q)
unfolding pop pop_head
pop-Popped q [] (h, _) = rw h refl
pop-Popped q (thread ∷ rest) (h, p, alone, chain) =
    rw h (refl, unlink_first-Holds q.links thread rest (q.links thread).next q.tail alone chain)

pub Absent-append :
    (t thread : ℕ) (threads : List ℕ)
    → Absent t threads
    → thread ≢ t
    → Absent t (threads ++ (thread ∷ []))
Absent-append t thread [] absent differ = (differ, tt)
Absent-append t thread (u ∷ rest) (here, absent) differ =
    (here, Absent-append t thread rest absent differ)

-- The last thread of a chain is one of its threads.
Chain-last :
    (links : ℕ → Links) (before : Option ℕ) (u : ℕ) (rest : List ℕ) (head : Option ℕ) (last t : ℕ)
    → Chain links before (u ∷ rest) head (some last)
    → Absent t (u ∷ rest)
    → last ≢ t
Chain-last links before u [] head last t (_, _, _, (_, e)) (here, _) = ground arith
Chain-last links before u (v ∷ rest) head last t (_, _, _, chain) (_, absent) =
    Chain-last links (some u) v rest (links u).next last t chain absent

-- The end of push, for a queue that is not empty.
link_last-Chain :
    (links : ℕ → Links) (before : Option ℕ) (t : ℕ) (rest : List ℕ) (head : Option ℕ)
    (last thread : ℕ)
    → Absent thread (t ∷ rest)
    → links thread ≡ record { next = none; prev = some last }
    → Chain links before (t ∷ rest) head (some last)
    → Chain
        (set_links links last (record { next = some thread; prev = (links last).prev }))
        before
        ((t ∷ rest) ++ (thread ∷ []))
        head
        (some thread)
unfolding set_links
link_last-Chain links before t [] head last thread (differ, _) new (h, p, alone, (n, e)) =
    let same : last ≡ t = ground arith in
    let linked = set_links links last (record { next = some thread; prev = (links last).prev }) in
    let here : linked t ≡ record { next = some thread; prev = (links t).prev } = ground arith in
    let there : linked thread ≡ record { next = none; prev = some t } = ground arith in
    (
      h,
      ap (λ l. l.prev) here ∙ p,
      ((λ e. differ (sym e)), tt),
      (ap (λ l. l.next) here, ap (λ l. l.prev) there, tt, (ap (λ l. l.next) there, refl)),
    )
link_last-Chain links before t (u ∷ rest) head last thread (differ, absent) new
      (h, p, alone, chain) =
    let apart : last ≢ t = Chain-last links (some t) u rest (links t).next last t chain alone in
    let linked = set_links links last (record { next = some thread; prev = (links last).prev }) in
    let here : linked t ≡ links t = ground arith in
    (
      h,
      ap (λ l. l.prev) here ∙ p,
      Absent-append t thread (u ∷ rest) alone (λ e. differ (sym e)),
      rw (ap (λ l. l.next) here)
          (link_last-Chain links (some t) u rest (links t).next last thread absent new chain),
    )

pub Chain-tail :
    (links : ℕ → Links) (before : Option ℕ) (t : ℕ) (rest : List ℕ) (head tail : Option ℕ)
    → Chain links before (t ∷ rest) head tail
    → tail ≢ none
Chain-tail links before t [] head tail (_, _, _, (_, e)) = ground arith
Chain-tail links before t (u ∷ rest) head tail (_, _, _, chain) =
    Chain-tail links (some t) u rest (links t).next tail chain

link_last-Holds :
    (links : ℕ → Links) (threads : List ℕ) (head tail : Option ℕ) (thread : ℕ)
    → Absent thread threads
    → links thread ≡ record { next = none; prev = tail }
    → Chain links none threads head tail
    → Holds (link_last links head tail thread) (threads ++ (thread ∷ []))
unfolding link_last
link_last-Holds links [] head none thread absent new chain =
    (refl, ap (λ l. l.prev) new, tt, (ap (λ l. l.next) new, refl))
link_last-Holds links [] head (some last) thread absent new (_, e) = absurd (ground arith)
link_last-Holds links (t ∷ rest) head none thread absent new chain =
    absurd (Chain-tail links none t rest head none chain refl)
link_last-Holds links (t ∷ rest) head (some last) thread absent new chain =
    link_last-Chain links none t rest head last thread absent new chain

-- To a queue that holds these threads, push adds one that is not among them, behind the last.
pub push-Holds :
    (q : Queue) (thread : ℕ) (threads : List ℕ)
    → Absent thread threads
    → Holds q threads
    → Holds (push q thread) (threads ++ (thread ∷ []))
unfolding push
push-Holds q thread threads absent holds =
    let new : Links = record { next = none; prev = q.tail } in
    let own : set_links q.links thread new thread ≡ new = set_links-own q.links thread new in
    link_last-Holds (set_links q.links thread new) threads q.head q.tail thread absent own
      (Chain-set_links q.links none threads q.head q.tail thread new absent holds)
