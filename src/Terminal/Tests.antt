-- ===== src/Terminal/Tests.antt =====
-- A line with a correction, read into a small buffer.
use toyix.Prelude.{ℕ, ◌≡◌, refl, List, [], ◌∷◌, ◌++◌, none, arith}
use toyix.Terminal.{readline, read_loop, is_printable}
use toyix.Terminal.Edit.{key, keys, Entered, readline-keys}

abbrev typing : List ℕ
typing = b'a' ∷ b'b' ∷ 8 ∷ 27 ∷ b'D' ∷ []

typing_run : keys 3 typing [] ≡ b'D' ∷ b'a' ∷ []
unfolding keys key is_printable
typing_run = refl

waiting_run : readline 3 (λ _. 7) typing ≡ none
unfolding readline read_loop
waiting_run = refl

readline-keys_example :
    Entered 3
      (λ _. 7)
      (keys 3 typing [])
      (b'x' ∷ [])
      (readline 3 (λ _. 7) (typing ++ 13 ∷ b'x' ∷ []))
readline-keys_example =
    readline-keys 3 (λ _. 7) typing 13 (b'x' ∷ []) (omega arith)
      (refl, (refl, (refl, (refl, (refl, tt))))) refl
