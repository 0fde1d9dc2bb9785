-- ===== src/Thread/Create/Frame.antt =====
-- The first frame of a thread's stack.
use toyix.Thread.Create.{push_words}
use toyix.Prelude.{
  ℕ, zero, suc, ◌+◌, ◌-◌, ◌*◌, ◌%◌, ◌^◌, ◌<◌, ◌≤◌, ◌≡◌, ◌⊎◌, inl, inr, refl, sym, ap, subst, ◌∙◌,
  List, [], ◌∷◌, length, get_or, update, update_self, update_other, arith,
}

-- The words that are pushed stand below `sp`, the first one highest; other words are as before.
abbrev pub PushedWords : List ℕ → (sp : ℕ) → (before after : ℕ → ℕ) → Type 0
PushedWords list sp before after =
    ((i : ℕ) → i < length list → after (sp - 4 * (i + 1)) ≡ get_or list i 0)
    × ((a : ℕ) → (a < sp - 4 * length list) ⊎ (sp ≤ a) → after a ≡ before a)

word_at :
    (word : ℕ) (rest : List ℕ) (sp : ℕ) (after : ℕ → ℕ)
    → after (sp - 4) ≡ word
    → ((i : ℕ) → i < length rest → after (sp - 4 - 4 * (i + 1)) ≡ get_or rest i 0)
    → (i : ℕ) → i < length (word ∷ rest)
    → after (sp - 4 * (i + 1)) ≡ get_or (word ∷ rest) i 0
word_at word rest sp after first pushed zero less =
    let place : sp - 4 * (0 + 1) ≡ sp - 4 = omega arith in ap after place ∙ first
word_at word rest sp after first pushed (suc i) less =
    let place : sp - 4 * (suc i + 1) ≡ sp - 4 - 4 * (i + 1) = omega arith in
    ap after place ∙ pushed i (omega (arith, less))

pushed_cons :
    (word : ℕ) (rest : List ℕ) (sp : ℕ) (words after : ℕ → ℕ)
    → 4 * length (word ∷ rest) ≤ sp
    → PushedWords rest (sp - 4) (update words (sp - 4) word) after
    → PushedWords (word ∷ rest) sp words after
pushed_cons word rest sp words after room (pushed, kept) =
    let first : after (sp - 4) ≡ word =
      kept (sp - 4) (inr (omega arith)) ∙ update_self words (sp - 4) word in
    (
      word_at word rest sp after first pushed,
      λ a outside.
          kept a (elim outside [
            | inl under ↦ inl (omega (arith, under))
            | inr over ↦ inr (omega (arith, over))
          ])
          ∙ update_other words (sp - 4) a word (λ e. elim outside [
            | inl under ↦ omega (arith, under, e, room)
            | inr over ↦ omega (arith, over, e, room)
          ]),
    )

pub push_words-PushedWords :
    (list : List ℕ) (sp : ℕ) (words : ℕ → ℕ)
    → 4 * length list ≤ sp
    → sp < 2 ^ 32
    → ((push_words list sp words).0 ≡ sp - 4 * length list)
      × PushedWords list sp words (push_words list sp words).1
unfolding push_words
push_words-PushedWords [] sp words room small =
    (omega arith, (λ i less. absurd (omega (arith, less)), λ a outside. refl))
push_words-PushedWords (word ∷ rest) sp words room small =
    let place : (sp + 2 ^ 32 - 4) % 2 ^ 32 ≡ sp - 4 = omega arith in
    let (end, (pushed, kept)) =
      push_words-PushedWords rest (sp - 4) (update words (sp - 4) word) (omega arith)
        (omega arith) in
    subst
      (λ a.
        ((push_words rest a (update words a word)).0 ≡ sp - 4 * length (word ∷ rest))
        × PushedWords (word ∷ rest) sp words (push_words rest a (update words a word)).1)
      (sym place)
      (
        end ∙ omega arith,
        pushed_cons word rest sp words (push_words rest (sp - 4) (update words (sp - 4) word)).1
            room (pushed, kept),
      )
