-- ===== src/Process/Arguments.antt =====
-- kernel/process.c: the stack that a program starts with, process_setup_arguments. A string is the list of
-- its bytes, without the null; a null pointer is `none`. The bytes that are written lie in the address
-- space of the process.
pub mod Strings
pub mod Layout
mod Tests
use toyix.Prelude.Int.{ℤ, pos, negsuc}
use toyix.Bytes.{word_bytes}
use toyix.Process.{Table, validate_live_process}
use toyix.Usercopy.{write_bytes}
use toyix.Prelude.{
  ℕ, zero, suc, ◌+◌, ◌-◌, ◌*◌, ◌%◌, ◌^◌, Bool, true, false, ◌||◌, ltb, leb, ◌==◌, if◌then◌else◌,
  Option, none, some, Result, ok, ◌>>=◌, ◌>>◌, List, [], ◌∷◌, ◌++◌, length, take,
}

abbrev pub max_argc : ℕ
max_argc = 16

abbrev pub max_arg_string : ℕ
max_arg_string = 128

-- The fields of the process that say where its stack is, and its memory.
pub record User : Type 0 where
  pub stack_base : ℕ
  pub stack_top : ℕ
  pub initial_esp : ℕ
  pub mem : ℕ → ℕ

-- The loop that measures a string, from its `len`-th byte on; `none` where it is too long.
pub arg_length : (len : ℕ) → List ℕ → Option ℕ
arg_length len [] = some len
arg_length len (byte ∷ arg) =
    let rest = arg_length (len + 1) arg in if leb max_arg_string (len + 1) then none else rest

-- The place of `bytes` bytes below `sp`, if the stack has room for them.
abbrev pub below : (base sp bytes : ℕ) → Option ℕ
below base sp bytes =
    if ltb sp ((base + bytes) % 2 ^ 32) then none else some ((sp + 2 ^ 32 - bytes) % 2 ^ 32)

pub place_measured : (base sp : ℕ) → Option ℕ → Option ℕ
place_measured base sp none = none
place_measured base sp (some len) = below base sp (len + 1)

-- The string is copied with its null, in front of the pointers of the later ones.
pub push_placed :
    (arg : List ℕ) → (ptrs : List ℕ) → (mem : ℕ → ℕ) → Option ℕ → Option (ℕ × List ℕ) × (ℕ → ℕ)
push_placed arg ptrs mem none = (none, mem)
push_placed arg ptrs mem (some sp) = (some (sp, sp ∷ ptrs), write_bytes (arg ++ (0 ∷ [])) sp mem)

-- One round of the loop over the arguments, with the stack pointer, the pointers and the memory that the
-- rounds before have left.
pub push_arg :
    Option (List ℕ) → (base : ℕ) → Option (ℕ × List ℕ) × (ℕ → ℕ) → Option (ℕ × List ℕ) × (ℕ → ℕ)
push_arg arg base (none, mem) = (none, mem)
push_arg none base (some (sp, ptrs), mem) = (none, mem)
push_arg (some arg) base (some (sp, ptrs), mem) =
    push_placed arg ptrs mem (place_measured base sp (arg_length 0 arg))

-- The loop over the arguments, from the last one to the first.
pub push_args : List (Option (List ℕ)) → (base sp : ℕ) → (ℕ → ℕ) → Option (ℕ × List ℕ) × (ℕ → ℕ)
push_args [] base sp mem = (some (sp, []), mem)
push_args (arg ∷ args) base sp mem = push_arg arg base (push_args args base sp mem)

abbrev pub words_bytes : List ℕ → List ℕ
words_bytes [] = []
words_bytes (word ∷ words) = word_bytes word ++ words_bytes words

abbrev pub stack_table : (argc : ℕ) → (ptrs : List ℕ) → List ℕ
stack_table argc ptrs = words_bytes ((argc ∷ ptrs) ++ (0 ∷ 0 ∷ []))

pub put_table : (argc : ℕ) → (ptrs : List ℕ) → User → Option ℕ → Bool × User
put_table argc ptrs u none = (false, u)
put_table argc ptrs u (some esp) =
    (true, record u { initial_esp = esp; mem = write_bytes (stack_table argc ptrs) esp u.mem })

-- The words that the program finds at its stack pointer.
pub finish_stack : (argc : ℕ) → User → Option (ℕ × List ℕ) × (ℕ → ℕ) → Bool × User
finish_stack argc u (none, mem) = (false, record u { mem = mem })
finish_stack argc u (some (sp, ptrs), mem) =
    put_table argc ptrs (record u { mem = mem })
      (below u.stack_base (sp - sp % 4) ((1 + argc + 1 + 1) * 4))

pub setup_list : List (Option (List ℕ)) → User → Bool × User
setup_list args u =
    if u.stack_base == 0 || u.stack_top == 0
    then (false, u)
    else finish_stack (length args) u (push_args args u.stack_base u.stack_top u.mem)

pub setup : (argc : ℤ) → (argv : Option (List (Option (List ℕ)))) → User → Bool × User
setup (negsuc n) argv u = (false, u)
setup (pos n) none u = if n == 0 then setup_list [] u else (false, u)
setup (pos n) (some argv) u = if ltb max_argc n then (false, u) else setup_list (take n argv) u

-- `true` is the result 0. `argv` has at least `argc` entries.
pub process_setup_arguments :
    (p : ℕ)
    → (argc : ℤ) → (argv : Option (List (Option (List ℕ)))) → Table
    → User
    → Result (Bool × User)
process_setup_arguments p argc argv t u = do validate_live_process p t; ok (setup argc argv u)
