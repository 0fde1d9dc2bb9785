-- ===== src/Terminal.antt =====
-- kernel/terminal.c: reading an edited line from the keyboard.
-- The characters that keyboard_getchar_blocking returns are a list; where it ends the reader is still
-- waiting. The echo on the console is kept as a list of bytes, the last first.
pub mod Edit
mod Tests
use toyix.Prelude.{
  ℕ, zero, suc, ◌+◌, ◌-◌, Bool, ◌&&◌, ◌||◌, Option, none, some, List, [], ◌∷◌, ltb, leb, ◌==◌,
  if◌then◌else◌, update,
}

-- The caller's buffer, the number of characters in it, and what was echoed.
pub record Line : Type 0 where
  pub buffer : ℕ → ℕ
  pub len : ℕ
  pub echo : List ℕ

unfoldable pub is_printable : ℕ → Bool
is_printable ch = leb 32 ch && leb ch 126

-- '\r' counts as '\n'.
abbrev pub newline : ℕ → ℕ
newline ch = if ch == 13 then 10 else ch

-- The body of the loop for a character that does not end the line.
pub edit : (buffer_size : ℕ) → ℕ → Line → Line
edit buffer_size ch s =
    if ch == 8 || ch == 127
    then if ltb 0 s.len
      then record s {
        buffer = update s.buffer (s.len - 1) 0;
        len = s.len - 1;
        echo = 8 ∷ b' ' ∷ 8 ∷ s.echo;
      }
      else s
    else if is_printable ch
    then if ltb (s.len + 1) buffer_size
      then record s {
        buffer = update (update s.buffer s.len ch) (s.len + 1) 0;
        len = s.len + 1;
        echo = ch ∷ s.echo;
      }
      else s
    else s

-- The loop, with the characters that are left unread when it returns.
pub read_loop : (buffer_size : ℕ) → List ℕ → Line → Option (Line × List ℕ)
read_loop buffer_size [] s = none
read_loop buffer_size (ch ∷ rest) s =
    if newline ch == 10
    then some (record s { buffer = update s.buffer s.len 0; echo = 10 ∷ s.echo }, rest)
    else read_loop buffer_size rest (edit buffer_size (newline ch) s)

-- The result is the length of the line; a null buffer is a buffer of size 0.
pub readline : (buffer_size : ℕ) → (ℕ → ℕ) → List ℕ → Option (Line × List ℕ)
readline buffer_size buffer chars =
    if buffer_size == 0
    then some (record { buffer = buffer; len = 0; echo = [] }, chars)
    else read_loop buffer_size chars (record { buffer = update buffer 0 0; len = 0; echo = [] })
