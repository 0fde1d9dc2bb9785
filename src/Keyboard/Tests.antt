-- ===== src/Keyboard/Tests.antt =====
-- Runs of the keyboard driver, and its theorems at concrete states.
use mathlib.Core.Bool.{xor}
use toyix.Prelude.{
  ◌≡◌, refl, Bool, true, false, not, ◌&&◌, none, [], ◌∷◌, ◌++◌, ltb, ◌==◌, if◌then◌else◌, length,
  arith,
}
use toyix.Keyboard.{
  Keyboard, ring_size, cell, translate_scancode, is_modifier, deliver_char, ring_push, ring_pop,
  irq_handler, init, try_getchar,
}
use toyix.Keyboard.Ring.{IsValid, queued}
use toyix.Keyboard.Handler.{typed, shift_after, caps_after, irq_handler-effect}

-- "ok" waits across the end of the ring.
abbrev two_waiting : Keyboard
two_waiting = record {
  ring = λ i. if i == 127 then b'o' else if i == 0 then b'k' else 0;
  head = 127;
  tail = 1;
  count = 2;
  shift_down = false;
  caps_lock = true;
}

two_waiting-IsValid : IsValid two_waiting
two_waiting-IsValid = omega arith

waiting_run : queued two_waiting ≡ b'o' ∷ b'k' ∷ []
waiting_run = refl

handler_run : queued (irq_handler 0x1e two_waiting).1 ≡ b'o' ∷ b'k' ∷ b'A' ∷ []
unfolding irq_handler is_modifier deliver_char ring_push translate_scancode cell xor
handler_run = refl

init_run : (try_getchar (init two_waiting)).0 ≡ none
unfolding try_getchar init ring_pop
init_run = refl

irq_handler-effect_example :
    let out : Bool × Keyboard = irq_handler 0x1e two_waiting in
    let types : Bool =
      not (is_modifier 0x1e)
      && (not (typed two_waiting 0x1e == 0) && ltb (length (queued two_waiting)) ring_size) in
    (out.1.shift_down ≡ shift_after two_waiting 0x1e)
    × (out.1.caps_lock ≡ caps_after two_waiting 0x1e)
    × (out.0 ≡ types)
    × (queued out.1
        ≡ (if types then queued two_waiting ++ typed two_waiting 0x1e ∷ [] else queued two_waiting))
    × IsValid out.1
irq_handler-effect_example = irq_handler-effect 0x1e (omega arith) two_waiting-IsValid
