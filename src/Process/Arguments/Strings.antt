-- ===== src/Process/Arguments/Strings.antt =====
-- The strings of the arguments on the stack.
use toyix.Usercopy.{read_bytes, write_bytes}
use toyix.Usercopy.Copy.{read_bytes-write_bytes, write_bytes-outside}
use toyix.Process.Arguments.{arg_length, below, place_measured, push_placed, push_arg, push_args}
use toyix.Prelude.{
  ℕ, zero, suc, ◌+◌, ◌-◌, ◌%◌, ◌^◌, ◌<◌, ◌≤◌, ◌≡◌, ◌⊎◌, inl, inr, refl, sym, ap, subst, ◌∙◌, true,
  false, ltb, leb, ltb→lt, ltb→ge, if◌then◌else◌, Bool-cases, Option, none, some, List, [], ◌∷◌,
  ◌++◌, length, length-append, arith,
}

-- The bytes of all strings with their nulls; `none` where a pointer is null or a string too long.
abbrev pub plus_string : List ℕ → Option ℕ → Option ℕ
plus_string arg none = none
plus_string arg (some total) = if leb 128 (length arg) then none else some (length arg + 1 + total)

abbrev pub total_bytes : List (Option (List ℕ)) → Option ℕ
total_bytes [] = some 0
total_bytes (none ∷ args) = none
total_bytes (some arg ∷ args) = plus_string arg (total_bytes args)

-- From `low` up to `top` each pointer has its string.
abbrev pub Pointed :
    (mem : ℕ → ℕ) → (low top : ℕ) → List (Option (List ℕ)) → (ptrs : List ℕ) → Type 0
Pointed mem low top [] [] = Unit
Pointed mem low top [] (ptr ∷ ptrs) = ⊥
Pointed mem low top (arg ∷ args) [] = ⊥
Pointed mem low top (none ∷ args) (ptr ∷ ptrs) = ⊥
Pointed mem low top (some arg ∷ args) (ptr ∷ ptrs) =
    (low ≤ ptr)
    × (ptr + length arg + 1 ≤ top)
    × (read_bytes (length arg + 1) mem ptr ≡ arg ++ (0 ∷ []))
    × Pointed mem low top args ptrs

read_bytes-same :
    (n : ℕ) (mem mem' : ℕ → ℕ) (addr : ℕ)
    → ((a : ℕ) → addr ≤ a → mem' a ≡ mem a)
    → read_bytes n mem' addr ≡ read_bytes n mem addr
read_bytes-same zero mem mem' addr same = refl
read_bytes-same (suc n) mem mem' addr same =
    rw
      (
        same addr (omega arith),
        read_bytes-same n mem mem' (addr + 1) (λ a from. same a (omega (arith, from))),
      )
      refl

-- A write below the strings leaves them.
pub Pointed-below :
    (mem mem' : ℕ → ℕ) (low low' top : ℕ) (args : List (Option (List ℕ))) (ptrs : List ℕ)
    → ((a : ℕ) → low ≤ a → mem' a ≡ mem a)
    → low' ≤ low
    → Pointed mem low top args ptrs
    → Pointed mem' low' top args ptrs
Pointed-below mem mem' low low' top [] [] same lower pointed = tt
Pointed-below mem mem' low low' top [] (ptr ∷ ptrs) same lower pointed = absurd pointed
Pointed-below mem mem' low low' top (none ∷ args) [] same lower pointed = absurd pointed
Pointed-below mem mem' low low' top (some arg ∷ args) [] same lower pointed = absurd pointed
Pointed-below mem mem' low low' top (none ∷ args) (ptr ∷ ptrs) same lower pointed = absurd pointed
Pointed-below mem mem' low low' top (some arg ∷ args) (ptr ∷ ptrs) same lower
      (from, to, text, rest) =
    (
      omega (arith, from, lower),
      to,
      read_bytes-same (length arg + 1) mem mem' ptr (λ a above. same a (omega (arith, from, above)))
          ∙ text,
      Pointed-below mem mem' low low' top args ptrs same lower rest,
    )

arg_length_lem :
    (len : ℕ) (arg : List ℕ)
    → len < 128
    → arg_length len arg ≡ (if leb 128 (len + length arg) then none else some (len + length arg))
unfolding arg_length
arg_length_lem len [] small = ground arith
arg_length_lem len (byte ∷ arg) small =
    let more : len + 1 + length arg ≡ len + suc (length arg) = omega arith in
    elim (Bool-cases (leb 128 (len + 1))) [
      | inl long ↦
          let long' : leb 128 (len + suc (length arg)) ≡ true = ground (arith, long) in
          rw (long, long') refl
      | inr short ↦ rw short (
          subst (λ n. arg_length (len + 1) arg ≡ (if leb 128 n then none else some n)) more
            (arg_length_lem (len + 1) arg (ground (arith, short))))
    ]

measured_lem :
    (arg : List ℕ) → arg_length 0 arg ≡ (if leb 128 (length arg) then none else some (length arg))
measured_lem arg =
    let whole : 0 + length arg ≡ length arg = omega arith in
    subst (λ n. arg_length 0 arg ≡ (if leb 128 n then none else some n)) whole
      (arg_length_lem 0 arg (omega arith))

-- What the loop leaves: either a string that is no string or too long, or too little room, or the strings.
abbrev pub Pushed :
    (mem : ℕ → ℕ) → List (Option (List ℕ)) → (base top : ℕ) → Option (ℕ × List ℕ) × (ℕ → ℕ) → Type 0
Pushed mem args base top (none, mem') =
    ((a : ℕ) → (a < base) ⊎ (top ≤ a) → mem' a ≡ mem a)
    × ((total_bytes args ≡ none)
        ⊎ ((total : ℕ) × (total_bytes args ≡ some total) × (top < base + total)))
Pushed mem args base top (some (sp, ptrs), mem') =
    ((a : ℕ) → (a < base) ⊎ (top ≤ a) → mem' a ≡ mem a)
    × (total_bytes args ≡ some (top - sp))
    × (base ≤ sp)
    × (sp ≤ top)
    × (length ptrs ≡ length args)
    × Pointed mem' sp top args ptrs

-- One more string, in front of those that are there.
module _ (base top : ℕ) (room : base + 128 < 2 ^ 32) (small : top < 2 ^ 32) where
  put_string :
      (mem mem' : ℕ → ℕ) (arg : List ℕ) (args : List (Option (List ℕ))) (sp sp' : ℕ) (ptrs : List ℕ)
      → length arg < 128
      → base ≤ sp'
      → sp' + (length arg + 1) ≡ sp
      → Pushed mem args base top (some (sp, ptrs), mem')
      → Pushed mem
          (some arg ∷ args)
          base
          top
          (some (sp', sp' ∷ ptrs), write_bytes (arg ++ (0 ∷ [])) sp' mem')
  put_string mem mem' arg args sp sp' ptrs short from place
        (same, total, low, high, count, pointed) =
      let text = arg ++ (0 ∷ []) in
      let bytes : length text ≡ length arg + 1 = length-append {0} arg (0 ∷ []) in
      let short' : leb 128 (length arg) ≡ false = ground (arith, short) in
      let read : read_bytes (length arg + 1) (write_bytes text sp' mem') sp' ≡ text =
        subst (λ n. read_bytes n (write_bytes text sp' mem') sp' ≡ text) bytes
          (read_bytes-write_bytes text sp' mem') in
      (
        λ a outside.
            write_bytes-outside text sp' mem' a (elim outside [
              | inl under ↦ inl (omega (arith, under, from))
              | inr over ↦ inr (omega (arith, over, bytes, place, high))
            ])
            ∙ same a outside,
        rw (total, short') (ap some (omega (arith, place, high))),
        from,
        omega (arith, place, high),
        ap suc count,
        (
          omega arith,
          omega (arith, place, high),
          read,
          Pointed-below mem' (write_bytes text sp' mem') sp sp' top args ptrs
              (λ a above.
                write_bytes-outside text sp' mem' a (inr (omega (arith, above, bytes, place))))
              (omega (arith, place)) pointed,
        ),
      )

  push_placed-Pushed :
      (mem mem' : ℕ → ℕ) (arg : List ℕ) (args : List (Option (List ℕ))) (sp : ℕ) (ptrs : List ℕ)
      → length arg < 128
      → Pushed mem args base top (some (sp, ptrs), mem')
      → Pushed mem
          (some arg ∷ args)
          base
          top
          (push_placed arg ptrs mem' (below base sp (length arg + 1)))
  unfolding push_placed
  push_placed-Pushed mem mem' arg args sp ptrs short (same, total, low, high, count, pointed) =
      let wrap : (base + (length arg + 1)) % 2 ^ 32 ≡ base + (length arg + 1) = omega arith in
      let short' : leb 128 (length arg) ≡ false = ground (arith, short) in
      elim (Bool-cases (ltb sp (base + (length arg + 1)))) [
        | inl full ↦
            let nowhere : below base sp (length arg + 1) ≡ none = rw (wrap, full) refl in
            let over : top < base + (length arg + 1 + (top - sp)) =
              omega (arith, ltb→lt sp (base + (length arg + 1)) full, high) in
            subst (λ o. Pushed mem (some arg ∷ args) base top (push_placed arg ptrs mem' o))
              (sym nowhere) (same, inr (length arg + 1 + (top - sp), rw (total, short') refl, over))
        | inr fits ↦
            let from = ltb→ge sp (base + (length arg + 1)) fits in
            let place : (sp + 2 ^ 32 - (length arg + 1)) % 2 ^ 32 ≡ sp - (length arg + 1) =
              omega (arith, from, high, small) in
            let there : below base sp (length arg + 1) ≡ some (sp - (length arg + 1)) =
              rw (wrap, fits) (ap some place) in
            subst (λ o. Pushed mem (some arg ∷ args) base top (push_placed arg ptrs mem' o))
              (sym there)
              (put_string mem mem' arg args sp (sp - (length arg + 1)) ptrs short
                (omega (arith, from)) (omega (arith, from))
                (same, total, low, high, count, pointed))
      ]

  push_arg-Pushed :
      (mem : ℕ → ℕ) (arg : Option (List ℕ)) (args : List (Option (List ℕ)))
      (out : Option (ℕ × List ℕ) × (ℕ → ℕ))
      → Pushed mem args base top out
      → Pushed mem (arg ∷ args) base top (push_arg arg base out)
  unfolding push_arg place_measured push_placed
  push_arg-Pushed mem none args (none, mem') (same, why) = (same, inl refl)
  push_arg-Pushed mem (some arg) args (none, mem') (same, inl e) = (same, inl (rw e refl))
  push_arg-Pushed mem (some arg) args (none, mem') (same, inr (total, e, full)) =
      elim (Bool-cases (leb 128 (length arg))) [
        | inl long ↦ (same, inl (rw (e, long) refl))
        | inr short ↦ (same, inr (length arg + 1 + total, rw (e, short) refl, omega (arith, full)))
      ]
  push_arg-Pushed mem none args (some (sp, ptrs), mem') (same, _, _, _, _, _) = (same, inl refl)
  push_arg-Pushed mem (some arg) args (some (sp, ptrs), mem')
        (same, total, low, high, count, pointed) =
      elim (Bool-cases (leb 128 (length arg))) [
        | inl long ↦
            let measured : arg_length 0 arg ≡ none =
              measured_lem arg ∙ ap (λ b. if b then none else some (length arg)) long in
            subst
              (λ o.
                Pushed mem (some arg ∷ args) base top
                  (push_placed arg ptrs mem' (place_measured base sp o)))
              (sym measured) (same, inl (rw (total, long) refl))
        | inr short ↦
            let measured : arg_length 0 arg ≡ some (length arg) =
              measured_lem arg ∙ ap (λ b. if b then none else some (length arg)) short in
            subst
              (λ o.
                Pushed mem (some arg ∷ args) base top
                  (push_placed arg ptrs mem' (place_measured base sp o)))
              (sym measured)
              (push_placed-Pushed mem mem' arg args sp ptrs (ground (arith, short))
                (same, total, low, high, count, pointed))
      ]

  pub push_args-Pushed :
      (mem : ℕ → ℕ) (args : List (Option (List ℕ)))
      → base ≤ top
      → Pushed mem args base top (push_args args base top mem)
  unfolding push_args
  push_args-Pushed mem [] ordered =
      (λ a outside. refl, ap some (omega arith), ordered, omega arith, refl, tt)
  push_args-Pushed mem (arg ∷ args) ordered =
      push_arg-Pushed mem arg args (push_args args base top mem) (push_args-Pushed mem args ordered)
