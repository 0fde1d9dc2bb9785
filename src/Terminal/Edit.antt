-- ===== src/Terminal/Edit.antt =====
-- terminal_readline keeps the buffer in step with a line that is edited as a stack of characters.
use toyix.Prelude.{
  ℕ, ◌+◌, ◌-◌, ◌<◌, ◌≤◌, ◌≡◌, refl, true, false, ◌&&◌, ◌||◌, Option, some, List, [], ◌∷◌, ◌++◌, ltb,
  ◌==◌, if◌then◌else◌, update, length, arith, Bool-cases, inl, inr, ne→==,
}
use toyix.Terminal.{Line, is_printable, newline, edit, read_loop, readline}

-- The line typed so far, its last character first: a backspace takes the last character off, a
-- printable one goes on if there is room for it and for the final 0, and nothing else counts.
unfoldable pub key : (buffer_size : ℕ) → ℕ → List ℕ → List ℕ
key buffer_size ch line =
    if ch == 8 || ch == 127
    then (elim line [ [] ↦ [] | last ∷ before ↦ before ])
    else if is_printable ch && ltb (length line + 1) buffer_size
    then ch ∷ line
    else line

unfoldable pub keys : (buffer_size : ℕ) → List ℕ → List ℕ → List ℕ
keys buffer_size [] line = line
keys buffer_size (ch ∷ chars) line = keys buffer_size chars (key buffer_size ch line)

-- The cells below the length hold the line.
abbrev pub Holds : (ℕ → ℕ) → List ℕ → Type 0
Holds buffer [] = Unit {0}
Holds buffer (last ∷ before) = (buffer (length before) ≡ last) × Holds buffer before

abbrev pub AllPrintable : List ℕ → Type 0
AllPrintable [] = Unit {0}
AllPrintable (last ∷ before) = (is_printable last ≡ true) × AllPrintable before

-- No character of the list ends a line.
abbrev pub NoNewline : List ℕ → Type 0
NoNewline [] = Unit {0}
NoNewline (ch ∷ chars) = ((newline ch == 10) ≡ false) × NoNewline chars

-- The buffer holds the line and a final 0, and is untouched from its size on.
pub record InStep (buffer_size : ℕ) (start : ℕ → ℕ) (line : List ℕ) (s : Line) : Type 0 where
  pub len : s.len ≡ length line
  pub fits : s.len < buffer_size
  pub holds : Holds s.buffer line
  pub ended : s.buffer s.len ≡ 0
  pub printable : AllPrintable line
  pub outside : (i : ℕ) → buffer_size ≤ i → s.buffer i ≡ start i

-- What a finished read hands back.
pub record Entered (n : ℕ) (start : ℕ → ℕ) (line unread : List ℕ) (out : Option (Line × List ℕ))
    : Type 0 where
  pub state : Line
  pub result : out ≡ some (state, unread)
  pub in_step : InStep n start line state

-- A write behind a line does not change it.
Holds-update :
    (buffer : ℕ → ℕ) (at v : ℕ) (line : List ℕ)
    → length line ≤ at
    → Holds buffer line
    → Holds (update buffer at v) line
Holds-update buffer at v [] le h = tt
Holds-update buffer at v (last ∷ before) le (here, rest) =
    (ground arith, Holds-update buffer at v before (omega arith) rest)

edit-ignore :
    (n ch : ℕ) (s : Line)
    → (ch == 8 || ch == 127) ≡ false
    → (is_printable ch && ltb (s.len + 1) n) ≡ false
    → edit n ch s ≡ s
unfolding edit
edit-ignore n ch s other no_room = rw other (ground arith)

key-ignore :
    (n ch : ℕ) (line : List ℕ)
    → (ch == 8 || ch == 127) ≡ false
    → (is_printable ch && ltb (length line + 1) n) ≡ false
    → key n ch line ≡ line
unfolding key
key-ignore n ch line other no_room = rw (other, no_room)

module _ {n : ℕ} {start : ℕ → ℕ} where
  edit-erase :
      (ch : ℕ) (line : List ℕ) {s : Line}
      → (ch == 8 || ch == 127) ≡ true
      → InStep n start line s
      → InStep n start (key n ch line) (edit n ch s)
  unfolding edit key
  edit-erase ch [] {s} back v =
      let none_left : ltb 0 s.len ≡ false = ground (arith, v.len) in rw (back, none_left) v
  edit-erase ch (last ∷ before) {s} back v =
      let some_left : ltb 0 s.len ≡ true = ground (arith, v.len) in
      let behind : s.len - 1 ≡ length before = omega (arith, v.len) in
      rw (back, some_left)
        (record {
          len = behind;
          fits = omega (arith, v.fits);
          holds = Holds-update s.buffer (s.len - 1) 0 before (omega arith) v.holds.1;
          ended = ground arith;
          printable = v.printable.1;
          outside = λ i h. ground (arith, v.outside i h, v.fits);
        })

  edit-type :
      (ch : ℕ) (line : List ℕ) {s : Line}
      → (ch == 8 || ch == 127) ≡ false
      → is_printable ch ≡ true
      → ltb (s.len + 1) n ≡ true
      → InStep n start line s
      → InStep n start (key n ch line) (edit n ch s)
  unfolding edit key
  edit-type ch line {s} other char room v =
      let room' : ltb (length line + 1) n ≡ true = rw (← v.len) room in
      rw (other, char, room, room')
        (record {
          len = omega (arith, v.len);
          fits = ground arith;
          holds = (
            ground (arith, v.len),
            Holds-update (update s.buffer s.len ch) (s.len + 1) 0 line (omega (arith, v.len))
                (Holds-update s.buffer s.len ch line (omega (arith, v.len)) v.holds),
          );
          ended = ground arith;
          printable = (char, v.printable);
          outside = λ i h. ground (arith, v.outside i h);
        })

  edit-InStep :
      (ch : ℕ) (line : List ℕ) {s : Line}
      → InStep n start line s
      → InStep n start (key n ch line) (edit n ch s)
  edit-InStep ch line {s} v = elim (Bool-cases (ch == 8 || ch == 127)) [
    | inl back ↦ edit-erase ch line back v
    | inr other ↦ elim (Bool-cases (is_printable ch && ltb (s.len + 1) n)) [
      | inl types ↦ edit-type ch line other (ground arith) (ground arith) v
      | inr ignored ↦
          rw (edit-ignore n ch s other ignored, key-ignore n ch line other (rw (← v.len) ignored)) v
    ]
  ]

  read_loop-Entered :
      (chars : List ℕ) (ch : ℕ) (unread line : List ℕ) {s : Line}
      → NoNewline chars
      → (newline ch == 10) ≡ true
      → InStep n start line s
      → Entered n start (keys n chars line) unread (read_loop n (chars ++ ch ∷ unread) s)
  unfolding read_loop keys
  read_loop-Entered [] ch unread line {s} none_yet enter v = rw enter (record {
    state = record s { buffer = update s.buffer s.len 0; echo = 10 ∷ s.echo };
    result = refl;
    in_step = record {
      len = v.len;
      fits = v.fits;
      holds = Holds-update s.buffer s.len 0 line (omega (arith, v.len)) v.holds;
      ended = ground arith;
      printable = v.printable;
      outside = λ i h. ground (arith, v.outside i h, v.fits);
    };
  })
  read_loop-Entered (c ∷ chars) ch unread line (here, later) enter v =
      let plain : newline c ≡ c = ground arith in
      rw (here, plain)
        (read_loop-Entered chars ch unread (key n c line) later enter (edit-InStep c line v))

-- Reading up to the first newline or return into a buffer of at least one cell returns, leaves the
-- rest unread, and hands back the line that the keys before it make: its characters in the buffer,
-- all printable, then a 0 inside the buffer, with every cell from the buffer's size on untouched.
pub readline-keys :
    (n : ℕ) (buffer : ℕ → ℕ) (chars : List ℕ) (ch : ℕ) (unread : List ℕ)
    → 0 < n
    → NoNewline chars
    → (newline ch == 10) ≡ true
    → Entered n buffer (keys n chars []) unread (readline n buffer (chars ++ ch ∷ unread))
unfolding readline
readline-keys n buffer chars ch unread h none_yet enter = rw (ne→== n 0 (omega arith)) (
    read_loop-Entered chars ch unread [] none_yet enter (record {
      len = refl;
      fits = h;
      holds = tt;
      ended = ground arith;
      printable = tt;
      outside = λ i le. ground arith;
    }))
