-- ===== src/Usercopy/Tests.antt =====
-- Two pages of a process between pages of the kernel, and instances of the theorems.
use toyix.Usercopy.{
  length_from, copy_from_user, look, copy_to_user, user_string_length, of, fault, too_long,
  pages_accessible, user_range_accessible,
}
use toyix.Usercopy.Copy.{Copied, copy_to_user-Copied}
use toyix.Prelude.{ℕ, ◌≡◌, refl, ◌&&◌, leb, ltb, if◌then◌else◌, Option, ok, [], ◌∷◌, arith, ◌==◌}

abbrev flags_at : ℕ → ℕ
flags_at page = if leb 0x40000000 page && ltb page 0x40002000 then 7 else 1

-- "ab" at 0x40000ffe, over the end of the first page.
abbrev memory : ℕ → ℕ
memory a = if a == 0x40000ffe then 97 else if a == 0x40000fff then 98 else 0

user_string_length_run : user_string_length 3 flags_at memory 0x40000ffe 16 ≡ ok (of 2)
unfolding user_string_length length_from copy_from_user user_range_accessible look pages_accessible
user_string_length_run = refl

too_long_run : user_string_length 3 flags_at memory 0x40000ffe 2 ≡ ok too_long
unfolding user_string_length length_from copy_from_user user_range_accessible look pages_accessible
too_long_run = refl

fault_run : user_string_length 3 flags_at memory 0x50000000 2 ≡ ok fault
unfolding user_string_length length_from copy_from_user user_range_accessible look pages_accessible
fault_run = refl

copy_to_user-Copied_example :
    (o : Option (ℕ → ℕ)) × (copy_to_user 4 flags_at memory 0x40000fff (1 ∷ 2 ∷ []) ≡ ok o)
    × Copied flags_at memory 0x40000fff (1 ∷ 2 ∷ []) o
copy_to_user-Copied_example =
    copy_to_user-Copied 4 flags_at memory 0x40000fff (1 ∷ 2 ∷ []) (omega arith) (omega arith)
      (omega arith)
