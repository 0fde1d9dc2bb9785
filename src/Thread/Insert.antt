-- ===== src/Thread/Insert.antt =====
-- A thread put into the middle or at the head of a linked queue (link_between, link_before_head).
use toyix.WaitQueue.{Links, set_links}
use toyix.WaitQueue.Order.{Absent, Chain}
use toyix.WaitQueue.Frame.{Same, Chain-Same}
use toyix.Thread.{Ends, link_between, link_before_head}
use toyix.Prelude.{ℕ, ◌≡◌, ◌≢◌, refl, sym, ap, ◌∙◌, List, [], ◌∷◌, ◌++◌, Option, none, some, arith}

-- The last thread of `t ∷ us`.
abbrev pub last_of : ℕ → List ℕ → ℕ
last_of t [] = t
last_of t (u ∷ us) = last_of u us

Absent-last_of : (x u : ℕ) (us rest : List ℕ) → Absent x (u ∷ us ++ rest) → last_of u us ≢ x
Absent-last_of x u [] rest (ne, _) = ne
Absent-last_of x u (v ∷ us) rest (_, absent) = Absent-last_of x v us rest absent

Absent-drop : (x : ℕ) (us rest : List ℕ) → Absent x (us ++ rest) → Absent x rest
Absent-drop x [] rest absent = absent
Absent-drop x (u ∷ us) rest (_, absent) = Absent-drop x us rest absent

Absent-insert :
    (x y : ℕ) (us rest : List ℕ) → Absent x (us ++ rest) → y ≢ x → Absent x (us ++ (y ∷ rest))
Absent-insert x y [] rest absent ne = (ne, absent)
Absent-insert x y (u ∷ us) rest (here, absent) ne = (here, Absent-insert x y us rest absent ne)

-- The links that link_between leaves alone.
link_between-other :
    (links : ℕ → Links) (previous current thread z : ℕ)
    → z ≢ previous
    → z ≢ current
    → z ≢ thread
    → link_between links previous current thread z ≡ links z
unfolding link_between set_links
link_between-other links previous current thread z a b c = ground arith

pub link_between-Same :
    (links : ℕ → Links) (previous current thread : ℕ) (rest : List ℕ)
    → Absent previous rest
    → Absent current rest
    → Absent thread rest
    → Same links (link_between links previous current thread) rest
link_between-Same links previous current thread [] a b c = tt
link_between-Same links previous current thread (z ∷ rest) (p, a) (q, b) (r, c) = (
  link_between-other links previous current thread z p q r,
  link_between-Same links previous current thread rest a b c,
)

-- Between the last of `t ∷ us` and `y`.
pub link_between-Chain :
    (links : ℕ → Links) (before : Option ℕ) (t : ℕ) (us : List ℕ) (y : ℕ) (post : List ℕ)
    (head tail : Option ℕ) (x : ℕ)
    → Absent x (t ∷ us ++ (y ∷ post))
    → Chain links before (t ∷ us ++ (y ∷ post)) head tail
    → ((links y).prev ≡ some (last_of t us))
      × Chain (link_between links (last_of t us) y x) before (t ∷ us ++ (x ∷ y ∷ post)) head tail
unfolding link_between set_links
link_between-Chain links before t [] y post head tail x (xt, (xy, xpost))
      (h, p, (ty, tpost), (n, q, ypost, chain)) =
    let after = link_between links t y x in
    let at_t : after t ≡ record { next = some x; prev = (links t).prev } = ground arith in
    let at_x : after x ≡ record { next = some y; prev = some t } = ground arith in
    let at_y : after y ≡ record { next = (links y).next; prev = some x } = ground arith in
    let rest : Chain after (some y) post (links y).next tail =
      Chain-Same links after (some y) post (links y).next tail
        (link_between-Same links t y x post tpost ypost xpost) chain in
    (
      q,
      (
        h,
        ap (λ l. l.prev) at_t ∙ p,
        ((λ e. xt (sym e)), (ty, tpost)),
        (
          ap (λ l. l.next) at_t,
          ap (λ l. l.prev) at_x,
          (xy, xpost),
          (ap (λ l. l.next) at_x, ap (λ l. l.prev) at_y, ypost, rw (ap (λ l. l.next) at_y) rest),
        ),
      ),
    )
link_between-Chain links before t (u ∷ us) y post head tail x (xt, absent) (h, p, alone, chain) =
    let (q, inner) =
      link_between-Chain links (some t) u us y post (links t).next tail x absent chain in
    let last_ne : last_of u us ≢ t = Absent-last_of t u us (y ∷ post) alone in
    let (y_ne, _) = Absent-drop t (u ∷ us) (y ∷ post) alone in
    let same : link_between links (last_of u us) y x t ≡ links t =
      link_between-other links (last_of u us) y x t (λ e. last_ne (sym e)) (λ e. y_ne (sym e)) xt in
    (
      q,
      (
        h,
        ap (λ l. l.prev) same ∙ p,
        Absent-insert t x (u ∷ us) (y ∷ post) alone (λ e. xt (sym e)),
        rw (ap (λ l. l.next) same) inner,
      ),
    )

pub link_before_head-Same :
    (links : ℕ → Links) (ends : Ends) (first thread : ℕ) (rest : List ℕ)
    → Absent first rest
    → Absent thread rest
    → Same links (link_before_head links ends first thread).0 rest
unfolding link_before_head set_links
link_before_head-Same links ends first thread [] a b = tt
link_before_head-Same links ends first thread (z ∷ rest) (p, a) (q, b) =
    (ground arith, link_before_head-Same links ends first thread rest a b)

-- In front of the first thread `y`.
pub link_before_head-Chain :
    (links : ℕ → Links) (ends : Ends) (y : ℕ) (post : List ℕ) (x : ℕ)
    → Absent x (y ∷ post)
    → Chain links none (y ∷ post) ends.head ends.tail
    → Chain
        (link_before_head links ends y x).0
        none
        (x ∷ y ∷ post)
        (link_before_head links ends y x).1.head
        (link_before_head links ends y x).1.tail
unfolding link_before_head set_links
link_before_head-Chain links ends y post x (xy, xpost) (h, p, ypost, chain) =
    let after = (link_before_head links ends y x).0 in
    let at_x : after x ≡ record { next = some y; prev = none } = ground arith in
    let at_y : after y ≡ record { next = (links y).next; prev = some x } = ground arith in
    (
      refl,
      ap (λ l. l.prev) at_x,
      (xy, xpost),
      (
        ap (λ l. l.next) at_x,
        ap (λ l. l.prev) at_y,
        ypost,
        rw (ap (λ l. l.next) at_y) (
            Chain-Same links after (some y) post (links y).next ends.tail
              (link_before_head-Same links ends y x post ypost xpost) chain),
      ),
    )
