-- ===== src/Keyboard.antt =====
-- drivers/input/keyboard.c: the scancodes of a PS/2 keyboard become characters in a ring buffer.
-- The static variables are the record `Keyboard`. Disabling interrupts around the ring makes each
-- operation one step, so `irq_save` and `irq_restore` are left out.
pub mod Keys
pub mod Ring
pub mod Handler
mod Tests
use toyix.Prelude.{
  ℕ, zero, suc, ◌+◌, ◌-◌, ◌%◌, bit_and, Bool, true, false, not, ◌&&◌, ◌||◌, Option, none, some,
  List, [], ◌∷◌, ltb, leb, ◌==◌, if◌then◌else◌, update,
}
use mathlib.Core.Bool.{xor}

abbrev pub ring_size : ℕ
ring_size = 128

-- The two `int` flags hold 0 or 1.
pub record Keyboard : Type 0 where
  pub ring : ℕ → ℕ
  pub head : ℕ
  pub tail : ℕ
  pub count : ℕ
  pub shift_down : Bool
  pub caps_lock : Bool

-- The initialised cells of `scancode_set1_ascii`; every other cell is 0.
abbrev pub plain_cells : List (ℕ × ℕ)
plain_cells =
    (0x02, b'1')
    ∷ (0x03, b'2')
    ∷ (0x04, b'3')
    ∷ (0x05, b'4')
    ∷ (0x06, b'5')
    ∷ (0x07, b'6')
    ∷ (0x08, b'7')
    ∷ (0x09, b'8')
    ∷ (0x0a, b'9')
    ∷ (0x0b, b'0')
    ∷ (0x0c, b'-')
    ∷ (0x0d, b'=')
    ∷ (0x0e, 8)
    ∷ (0x0f, 9)
    ∷ (0x10, b'q')
    ∷ (0x11, b'w')
    ∷ (0x12, b'e')
    ∷ (0x13, b'r')
    ∷ (0x14, b't')
    ∷ (0x15, b'y')
    ∷ (0x16, b'u')
    ∷ (0x17, b'i')
    ∷ (0x18, b'o')
    ∷ (0x19, b'p')
    ∷ (0x1a, b'[')
    ∷ (0x1b, b']')
    ∷ (0x1c, 10)
    ∷ (0x1e, b'a')
    ∷ (0x1f, b's')
    ∷ (0x20, b'd')
    ∷ (0x21, b'f')
    ∷ (0x22, b'g')
    ∷ (0x23, b'h')
    ∷ (0x24, b'j')
    ∷ (0x25, b'k')
    ∷ (0x26, b'l')
    ∷ (0x27, b';')
    ∷ (0x28, 39)
    ∷ (0x29, b'`')
    ∷ (0x2b, 92)
    ∷ (0x2c, b'z')
    ∷ (0x2d, b'x')
    ∷ (0x2e, b'c')
    ∷ (0x2f, b'v')
    ∷ (0x30, b'b')
    ∷ (0x31, b'n')
    ∷ (0x32, b'm')
    ∷ (0x33, b',')
    ∷ (0x34, b'.')
    ∷ (0x35, b'/')
    ∷ (0x39, b' ')
    ∷ []

-- The initialised cells of `scancode_set1_shifted_ascii`.
abbrev pub shifted_cells : List (ℕ × ℕ)
shifted_cells =
    (0x02, b'!')
    ∷ (0x03, b'@')
    ∷ (0x04, b'#')
    ∷ (0x05, b'$')
    ∷ (0x06, b'%')
    ∷ (0x07, b'^')
    ∷ (0x08, b'&')
    ∷ (0x09, b'*')
    ∷ (0x0a, b'(')
    ∷ (0x0b, b')')
    ∷ (0x0c, b'_')
    ∷ (0x0d, b'+')
    ∷ (0x1a, b'{')
    ∷ (0x1b, b'}')
    ∷ (0x27, b':')
    ∷ (0x28, 34)
    ∷ (0x29, b'~')
    ∷ (0x2b, b'|')
    ∷ (0x33, b'<')
    ∷ (0x34, b'>')
    ∷ (0x35, b'?')
    ∷ []

unfoldable pub cell : List (ℕ × ℕ) → ℕ → ℕ
cell [] code = 0
cell ((at, ch) ∷ cells) code = if at == code then ch else cell cells code

unfoldable pub ascii_is_lower : ℕ → Bool
ascii_is_lower ch = leb b'a' ch && leb ch b'z'

unfoldable pub ascii_is_upper : ℕ → Bool
ascii_is_upper ch = leb b'A' ch && leb ch b'Z'

unfoldable pub ascii_to_upper : ℕ → ℕ
unfolding ascii_is_lower
ascii_to_upper ch = if ascii_is_lower ch then ch - b'a' + b'A' else ch

pub translate_scancode : (shift_down caps_lock : Bool) → ℕ → ℕ
unfolding ascii_is_lower ascii_is_upper ascii_to_upper
translate_scancode shift_down caps_lock scancode =
    let base : ℕ = cell plain_cells scancode in
    let shifted : ℕ = cell shifted_cells scancode in
    if base == 0
    then 0
    else if ascii_is_lower base || ascii_is_upper base
    then (if xor shift_down caps_lock then ascii_to_upper base else base)
    else if shift_down && not (shifted == 0)
    then shifted
    else base

pub ring_push : ℕ → Keyboard → Bool × Keyboard
ring_push ch s = if leb ring_size s.count then (false, s) else (
  true,
  record s { ring = update s.ring s.tail ch; tail = (s.tail + 1) % ring_size; count = s.count + 1 },
)

-- What goes through `out`, which the callers never pass as null.
pub ring_pop : Keyboard → Option ℕ × Keyboard
ring_pop s =
    if s.count == 0
    then (none, s)
    else (some (s.ring s.head), record s { head = (s.head + 1) % ring_size; count = s.count - 1 })

-- The Boolean says whether a waiting thread is woken.
pub deliver_char : ℕ → Keyboard → Bool × Keyboard
deliver_char ch s = ring_push ch s

pub is_modifier : ℕ → Bool
is_modifier scancode =
    let code : ℕ = bit_and scancode 0x7f in code == 0x2a || (code == 0x36 || code == 0x3a)

pub handle_modifier : ℕ → Keyboard → Keyboard
handle_modifier scancode s =
    let released : Bool = not (bit_and scancode 0x80 == 0) in
    let code : ℕ = bit_and scancode 0x7f in
    if code == 0x2a || code == 0x36
    then record s { shift_down = not released }
    else if not released && code == 0x3a
    then record s { caps_lock = not s.caps_lock }
    else s

-- `scancode` is the byte read from the data port.
pub irq_handler : ℕ → Keyboard → Bool × Keyboard
irq_handler scancode s =
    let ch : ℕ = translate_scancode s.shift_down s.caps_lock scancode in
    if is_modifier scancode
    then (false, handle_modifier scancode s)
    else if not (bit_and scancode 0x80 == 0)
    then (false, s)
    else if ltb scancode 128
    then (if not (ch == 0) then deliver_char ch s else (false, s))
    else (false, s)

-- keyboard_init
pub init : Keyboard → Keyboard
init s = record s { head = 0; tail = 0; count = 0; shift_down = false; caps_lock = false }

-- keyboard_try_getchar
pub try_getchar : Keyboard → Option ℕ × Keyboard
try_getchar s = ring_pop s
