-- ===== src/Keyboard/Handler.antt =====
-- keyboard_irq_handler: what each scancode does to the modifiers and to the queue.
use toyix.Prelude.{
  ℕ, ◌%◌, ◌<◌, ◌≡◌, refl, Bool, true, false, not, ◌&&◌, ◌||◌, [], ◌∷◌, ◌++◌, ltb, ◌==◌,
  if◌then◌else◌, arith, length, Bool-cases, inl, inr,
}
use toyix.Bits.{and_7f, and_80}
use toyix.Keyboard.{
  Keyboard, ring_size, translate_scancode, is_modifier, handle_modifier, deliver_char, ring_push,
  irq_handler,
}
use toyix.Keyboard.Ring.{IsValid, queued, ring_push-queued}

-- The character of a key that is pressed, or 0: a release types nothing.
abbrev pub typed : Keyboard → ℕ → ℕ
typed s scancode =
    if ltb scancode 128 then translate_scancode s.shift_down s.caps_lock scancode else 0

is_modifier_lem :
    (scancode : ℕ)
    → is_modifier scancode
      ≡ (scancode % 128 == 0x2a || (scancode % 128 == 0x36 || scancode % 128 == 0x3a))
unfolding is_modifier
is_modifier_lem scancode = rw (and_7f scancode)

-- The flags after a byte, as a reader of the handler expects them.
abbrev pub shift_after : Keyboard → ℕ → Bool
shift_after s scancode =
    if scancode == 0x2a || scancode == 0x36
    then true
    else if scancode == 0xaa || scancode == 0xb6
    then false
    else s.shift_down

abbrev pub caps_after : Keyboard → ℕ → Bool
caps_after s scancode = if scancode == 0x3a then not s.caps_lock else s.caps_lock

handle_modifier_lem :
    (s : Keyboard) (scancode : ℕ)
    → scancode < 256
    → handle_modifier scancode s
      ≡ record s { shift_down = shift_after s scancode; caps_lock = caps_after s scancode }
unfolding handle_modifier
handle_modifier_lem s scancode h = rw (and_7f scancode, and_80 scancode) (ground arith)

irq_key :
    (s : Keyboard) (scancode : ℕ)
    → scancode < 256
    → is_modifier scancode ≡ false
    → irq_handler scancode s
      ≡ (if not (typed s scancode == 0) then ring_push (typed s scancode) s else (false, s))
unfolding irq_handler deliver_char
irq_key s scancode h e = rw (e, and_80 scancode) (ground arith)

unchanged :
    (s : Keyboard) (scancode : ℕ)
    → is_modifier scancode ≡ false
    → scancode < 256
    → (shift_after s scancode ≡ s.shift_down) × (caps_after s scancode ≡ s.caps_lock)
unchanged s scancode e h = ground (arith, is_modifier_lem scancode)

flags-push :
    (s : Keyboard) (ch : ℕ)
    → ((ring_push ch s).1.shift_down ≡ s.shift_down) × ((ring_push ch s).1.caps_lock ≡ s.caps_lock)
unfolding ring_push
flags-push s ch = ground arith

-- Pressing a Shift key (0x2A, 0x36) sets the shift flag and releasing one (0xAA, 0xB6) clears it;
-- pressing Caps Lock (0x3A) turns its flag over; no other byte changes a flag. Any other key that is
-- pressed and has a character puts it into the queue and wakes a reader, unless 128 characters wait;
-- no other byte changes the queue. The ring stays valid.
pub irq_handler-effect :
    {s : Keyboard} (scancode : ℕ)
    → scancode < 256
    → IsValid s
    → let out : Bool × Keyboard = irq_handler scancode s in
      let types : Bool =
        not (is_modifier scancode)
        && (not (typed s scancode == 0) && ltb (length (queued s)) ring_size) in
      (out.1.shift_down ≡ shift_after s scancode)
      × (out.1.caps_lock ≡ caps_after s scancode)
      × (out.0 ≡ types)
      × (queued out.1 ≡ (if types then queued s ++ typed s scancode ∷ [] else queued s))
      × IsValid out.1
unfolding irq_handler
irq_handler-effect {s} scancode h v = elim (Bool-cases (is_modifier scancode)) [
  | inl held ↦
      rw (held, handle_modifier_lem s scancode h)
        (refl, refl, refl, refl, record { head = v.head; count = v.count; tail = v.tail })
  | inr key ↦
      rw (irq_key s scancode h key, key)
        (ground (
          arith,
          unchanged s scancode key h,
          flags-push s (typed s scancode),
          ring_push-queued (typed s scancode) v,
        ))
]
