-- ===== src/Process/Chain.antt =====
-- Taking a process out of the middle of the linked table.
use native.Mathlib.Decide.{ℕ_discrete}
use toyix.WaitQueue.{Links}
use toyix.WaitQueue.Frame.{Same, Chain-Same}
use toyix.Process.{link_next, link_prev, or_else}
use toyix.WaitQueue.Order.{Absent, Chain}
use toyix.Prelude.{
  ℕ, ◌≡◌, ◌≢◌, ◌⊎◌, inl, inr, refl, sym, ap, subst, ◌∙◌, Option, none, some, List, [], ◌∷◌, update,
  update_self, update_other, ◌==◌, if◌then◌else◌, Bool, true, false, arith, Bool-cases,
}

-- The list without `p`, which stands in it once.
abbrev pub without : ℕ → List ℕ → List ℕ
without p [] = []
without p (t ∷ rest) = if t == p then rest else t ∷ without p rest

-- One of the list is `p`.
abbrev pub Member : ℕ → List ℕ → Type 0
Member p [] = ⊥
Member p (t ∷ rest) = (t ≡ p) ⊎ Member p rest

-- The links when the neighbours of `p` have been joined.
abbrev pub joined : (ℕ → Links) → ℕ → ℕ → Links
joined links p =
    link_prev (link_next links (links p).prev (links p).next) (links p).next (links p).prev

abbrev pub unlinked : Links
unlinked = record { next = none; prev = none }

-- The links when `p` has been taken out.
abbrev pub spliced : (ℕ → Links) → ℕ → ℕ → Links
spliced links p = update (joined links p) p unlinked

some-inj : (x y : ℕ) → some x ≡ some y → x ≡ y
some-inj x y e = ground arith

pub Member-Absent : (p t : ℕ) (ids : List ℕ) → Member p ids → Absent t ids → p ≢ t
Member-Absent p t [] m absent = absurd m
Member-Absent p t (x ∷ ids) (inl e) (differ, absent) = λ same. differ (e ∙ same)
Member-Absent p t (x ∷ ids) (inr m) (differ, absent) = Member-Absent p t ids m absent

Absent-without : (p t : ℕ) (ids : List ℕ) → Absent t ids → Absent t (without p ids)
Absent-without p t [] absent = tt
Absent-without p t (x ∷ ids) (differ, absent) = elim (Bool-cases (x == p)) [
  | inl e ↦ rw e absent
  | inr e ↦ rw e (differ, Absent-without p t ids absent)
]

-- A process outside the chain is no neighbour of one inside.
prev-other :
    (links : ℕ → Links) (before : Option ℕ) (ids : List ℕ) (head tail : Option ℕ) (p t : ℕ)
    → Chain links before ids head tail
    → Member p ids
    → Absent t ids
    → before ≢ some t
    → (links p).prev ≢ some t
prev-other links before [] head tail p t chain m absent differ = absurd m
prev-other links before (x ∷ ids) head tail p t (_, prev, _, _) (inl e) absent differ =
    rw (← e) (rw prev differ)
prev-other links before (x ∷ ids) head tail p t (_, _, _, chain) (inr m) (other, absent) differ =
    prev-other links (some x) ids (links x).next tail p t chain m absent
      (λ e. other (some-inj x t e))

next-other :
    (links : ℕ → Links) (before : Option ℕ) (ids : List ℕ) (head tail : Option ℕ) (p t : ℕ)
    → Chain links before ids head tail
    → Member p ids
    → Absent t ids
    → (links p).next ≢ some t
next-other links before [] head tail p t chain m absent = absurd m
next-other links before (x ∷ []) head tail p t (_, _, _, (e, _)) (inl same) absent =
    rw (← same) (rw e (λ e'. ground arith))
next-other links before (x ∷ y ∷ ids) head tail p t (_, _, _, (e, _, _, _)) (inl same)
      (_, (differ, _)) =
    rw (← same) (rw e (λ e'. differ (some-inj y t e')))
next-other links before (x ∷ []) head tail p t chain (inr m) absent = absurd m
next-other links before (x ∷ y ∷ ids) head tail p t (_, _, _, chain) (inr m) (_, absent) =
    next-other links (some x) (y ∷ ids) (links x).next tail p t chain m absent

pub link_next-other :
    (links : ℕ → Links) (prev next : Option ℕ) (x : ℕ)
    → prev ≢ some x
    → link_next links prev next x ≡ links x
link_next-other links none next x differ = refl
link_next-other links (some u) next x differ = update_other links u x _ (λ e. differ (ap some e))

link_prev-other :
    (links : ℕ → Links) (next prev : Option ℕ) (x : ℕ)
    → next ≢ some x
    → link_prev links next prev x ≡ links x
link_prev-other links none prev x differ = refl
link_prev-other links (some v) prev x differ = update_other links v x _ (λ e. differ (ap some e))

-- A neighbour that is not in the list.
abbrev pub OffChain : Option ℕ → List ℕ → Type 0
OffChain none ids = Unit
OffChain (some x) ids = Absent x ids

OffChain-cons :
    (o : Option ℕ) (x : ℕ) (ids : List ℕ) → OffChain o (x ∷ ids) → (o ≢ some x) × OffChain o ids
OffChain-cons none x ids off = ((λ e. ground arith), tt)
OffChain-cons (some y) x ids (differ, absent) = ((λ e. differ (sym (some-inj y x e))), absent)

-- Processes that are not next to `p` keep their links, and those that are get each other's.
module _ (links : ℕ → Links) (p : ℕ) where
  spliced-other :
      (x : ℕ)
      → p ≢ x
      → (links p).prev ≢ some x
      → (links p).next ≢ some x
      → spliced links p x ≡ links x
  spliced-other x differ a b =
      update_other (joined links p) p x unlinked differ
      ∙ link_prev-other (link_next links (links p).prev (links p).next) (links p).next
          (links p).prev x b
      ∙ link_next-other links (links p).prev (links p).next x a

  spliced-next :
      (v : ℕ)
      → p ≢ v
      → (links p).prev ≢ some v
      → (links p).next ≡ some v
      → spliced links p v ≡ record { next = (links v).next; prev = (links p).prev }
  spliced-next v differ a b =
      let same = link_next-other links (links p).prev (links p).next v a in
      let here : link_prev (link_next links (links p).prev (links p).next) (links p).next
            (links p).prev v
          ≡ record { next = (links v).next; prev = (links p).prev } =
        subst
          (λ o.
            link_prev (link_next links (links p).prev (links p).next) o (links p).prev v
            ≡ record { next = (links v).next; prev = (links p).prev })
          (sym b)
          (update_self (link_next links (links p).prev (links p).next) v _
            ∙ ap {A = Links} (λ l. record l { prev = (links p).prev }) same) in
      update_other (joined links p) p v unlinked differ ∙ here

  spliced-prev :
      (u : ℕ)
      → p ≢ u
      → (links p).prev ≡ some u
      → (links p).next ≢ some u
      → spliced links p u ≡ record { next = (links p).next; prev = (links u).prev }
  spliced-prev u differ a b =
      let here : link_next links (links p).prev (links p).next u
          ≡ record { next = (links p).next; prev = (links u).prev } =
        subst
          (λ o.
            link_next links o (links p).next u
            ≡ record { next = (links p).next; prev = (links u).prev })
          (sym a) (update_self links u _) in
      update_other (joined links p) p u unlinked differ
      ∙ link_prev-other (link_next links (links p).prev (links p).next) (links p).next
          (links p).prev u b
      ∙ here

  -- The rest of a chain, behind `p` and the process next to it.
  spliced-Same :
      (ids : List ℕ)
      → Absent p ids
      → OffChain (links p).prev ids
      → OffChain (links p).next ids
      → Same links (spliced links p) ids
  spliced-Same [] absent a b = tt
  spliced-Same (x ∷ ids) (differ, absent) a b =
      let (na, ra) = OffChain-cons (links p).prev x ids a in
      let (nb, rb) = OffChain-cons (links p).next x ids b in
      (spliced-other x (λ e. differ (sym e)) na nb, spliced-Same ids absent ra rb)

abbrev pub is_first : ℕ → List ℕ → Bool
is_first p [] = false
is_first p (t ∷ rest) = t == p

Member-rest : (p t : ℕ) (ids : List ℕ) → Member p (t ∷ ids) → t ≢ p → Member p ids
Member-rest p t ids (inl e) differ = absurd (differ e)
Member-rest p t ids (inr m) differ = m

taken-first :
    (links : ℕ → Links) (before : Option ℕ) (rest : List ℕ) (tail : Option ℕ) (p : ℕ)
    → (links p).prev ≡ before
    → Absent p rest
    → Chain links (some p) rest (links p).next tail
    → OffChain before rest
    → Chain
        (spliced links p)
        before
        rest
        (links p).next
        (or_else (links p).next (links p).prev tail)
taken-first links before [] tail p prev alone (h, e) off =
    (h, subst (λ n. or_else n (links p).prev tail ≡ before) (sym h) prev)
taken-first links before (v ∷ rest) tail p prev (differ, alone) (h, back, apart, chain) (off) =
    let (off_v, off_rest) = OffChain-cons before v rest off in
    let not_prev : (links p).prev ≢ some v = λ e. off_v (sym prev ∙ e) in
    let here = spliced-next links p v (λ e. differ (sym e)) not_prev h in
    let same =
      spliced-Same links p rest alone (subst (λ o. OffChain o rest) (sym prev) off_rest)
        (subst (λ o. OffChain o rest) (sym h) apart) in
    (
      h,
      ap {A = Links} (λ l. l.prev) here ∙ prev,
      apart,
      subst
          (λ n.
            Chain (spliced links p) (some v) rest n (or_else (links p).next (links p).prev tail))
          (sym (ap {A = Links} (λ l. l.next) here))
          (subst
            (λ n.
              Chain (spliced links p) (some v) rest (links v).next (or_else n (links p).prev tail))
            (sym h)
            (Chain-Same links (spliced links p) (some v) rest (links v).next tail same chain)),
    )

-- The process in front of the rest that `p` is taken from.
front-spliced :
    (links : ℕ → Links) (t : ℕ) (rest : List ℕ) (tail : Option ℕ) (p : ℕ)
    → Absent t rest
    → Chain links (some t) rest (links t).next tail
    → Member p rest
    → t ≢ p
    → spliced links p t ≡ record {
      next = if is_first p rest then (links p).next else (links t).next;
      prev = (links t).prev;
    }
front-spliced links t [] tail p alone chain m differ = absurd m
front-spliced links t (u ∷ rest) tail p (apart, alone) (h, prev, single, chain) m differ =
    let away : (links p).next ≢ some t =
      next-other links (some t) (u ∷ rest) (links t).next tail p t (h, prev, single, chain) m
        (apart, alone) in
    elim (ℕ_discrete u p) [
      | yes same ↦
          let at : (u == p) ≡ true = ground arith in
          let before : (links p).prev ≡ some t = rw same at prev in
          rw at (spliced-prev links p t (λ e. differ (sym e)) before away)
      | no other ↦
          let at : (u == p) ≡ false = ground arith in
          let inside : Member p rest = Member-rest p u rest m other in
          let before =
            prev-other links (some u) rest (links u).next tail p t chain inside alone
              (λ e. apart (some-inj u t e)) in
          rw at (spliced-other links p t (λ e. differ (sym e)) before away)
    ]

-- The chain without `p`.
pub Chain-spliced :
    (links : ℕ → Links) (before : Option ℕ) (ids : List ℕ) (head tail : Option ℕ) (p : ℕ)
    → Chain links before ids head tail
    → Member p ids
    → OffChain before ids
    → Chain
        (spliced links p)
        before
        (without p ids)
        (if is_first p ids then (links p).next else head)
        (or_else (links p).next (links p).prev tail)
Chain-spliced links before [] head tail p chain m off = absurd m
Chain-spliced links before (t ∷ rest) head tail p (h, prev, alone, chain) m off =
    elim (ℕ_discrete t p) [
      | yes same ↦
          let at : (t == p) ≡ true = ground arith in
          rw at (
            taken-first links before rest tail p (rw same at prev) (rw same at alone)
              (rw same at chain) (OffChain-cons before t rest off).1)
      | no differ ↦
          let at : (t == p) ≡ false = ground arith in
          let inside : Member p rest = Member-rest p t rest m differ in
          let here = front-spliced links t rest tail p alone chain inside differ in
          rw at (
            h,
            ap {A = Links} (λ l. l.prev) here ∙ prev,
            Absent-without p t rest alone,
            subst
                (λ n.
                  Chain (spliced links p) (some t) (without p rest) n
                    (or_else (links p).next (links p).prev tail))
                (sym (ap {A = Links} (λ l. l.next) here))
                (Chain-spliced links (some t) rest (links t).next tail p chain inside alone),
          )
    ]
