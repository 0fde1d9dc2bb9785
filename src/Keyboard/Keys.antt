-- ===== src/Keyboard/Keys.antt =====
-- The character of a key under Shift and Caps Lock.
use mathlib.Core.Bool.{xor}
use toyix.Prelude.{
  ℕ, ◌-◌, ◌<◌, ◌≡◌, refl, Bool, true, not, ◌&&◌, ◌||◌, ltb, ◌==◌, if◌then◌else◌, arith,
}
use toyix.Bits.Byte.{passes, passes→test}
use toyix.Keyboard.{
  cell, plain_cells, shifted_cells, ascii_is_lower, ascii_is_upper, translate_scancode,
}

abbrev plain : ℕ → ℕ
plain = cell plain_cells

abbrev shifted : ℕ → ℕ
shifted = cell shifted_cells

-- The plain table has no capital letter and only 7-bit characters, and what the shifted table has
-- stands where the plain table has a character that is no letter.
fits : ℕ → Bool
fits code =
    (not (ascii_is_upper (plain code)) && (ltb (plain code) 128 && ltb (shifted code) 128))
    && (shifted code == 0 || (not (plain code == 0) && not (ascii_is_lower (plain code))))

tables_fit : passes fits 128 ≡ true
unfolding passes fits cell ascii_is_upper ascii_is_lower
tables_fit = refl

-- For every key, a letter is a capital exactly if one of Shift and Caps Lock is on and the other off;
-- any other key gives its shifted character if Shift is on and it has one, and its plain character
-- otherwise, whatever Caps Lock says. The character is a 7-bit one.
translate_scancode_cases :
    (shift_down caps_lock : Bool) (code : ℕ)
    → code < 128
    → (translate_scancode shift_down caps_lock code ≡ (
        if ascii_is_lower (cell plain_cells code)
        then (if xor shift_down caps_lock
            then cell plain_cells code - 32
            else cell plain_cells code)
        else if shift_down && not (cell shifted_cells code == 0)
        then cell shifted_cells code
        else cell plain_cells code))
      × (translate_scancode shift_down caps_lock code < 128)
unfolding translate_scancode fits
translate_scancode_cases shift_down caps_lock code h =
    ground (arith, passes→test fits 128 tables_fit code h)
