-- ===== src/Process/Arguments/Layout.antt =====
-- The whole stack that a program starts with.
use toyix.Prelude.Int.{pos}
use toyix.Usercopy.{read_bytes, write_bytes}
use toyix.Usercopy.Copy.{read_bytes-write_bytes, write_bytes-outside}
use toyix.Process.{Table}
use toyix.Process.Valid.{Live, validate_live_process_lem}
use toyix.Process.Arguments.{
  User, below, push_args, words_bytes, stack_table, put_table, finish_stack, setup_list, setup,
  process_setup_arguments,
}
use toyix.Process.Arguments.Strings.{total_bytes, Pointed, Pointed-below, Pushed, push_args-Pushed}
use toyix.Prelude.{
  ℕ, ◌+◌, ◌-◌, ◌*◌, ◌%◌, ◌^◌, ◌<◌, ◌≤◌, ◌≡◌, ◌⊎◌, inl, inr, refl, sym, ap, subst, ◌∙◌, Bool, false,
  ◌==◌, ltb, ltb→lt, ltb→ge, if◌then◌else◌, Bool-cases, Option, none, some, ok, List, [], ◌∷◌, ◌++◌,
  length, length-append, take, arith,
}

-- The bytes of the table of words for so many arguments.
abbrev pub table_bytes : List (Option (List ℕ)) → ℕ
table_bytes args = (length args + 3) * 4

-- The stack pointer for strings of `total` bytes, where the table ends below them on a word.
abbrev pub esp_for : (top total : ℕ) → List (Option (List ℕ)) → ℕ
esp_for top total args = (top - total) - (top - total) % 4 - table_bytes args

-- The stack is laid out: at the stack pointer the number of arguments, a pointer to each, and two null
-- words; above, inside the stack, the strings with their nulls.
abbrev pub LaidOut : User → List (Option (List ℕ)) → User → Type 0
LaidOut u args u' =
    (length args ≤ 16)
    × (total : ℕ) × (total_bytes args ≡ some total)
    × (u'.initial_esp ≡ esp_for u.stack_top total args)
    × (u'.initial_esp % 4 ≡ 0)
    × (u.stack_base ≤ u'.initial_esp)
    × (ptrs : List ℕ) × (read_bytes (table_bytes args) u'.mem u'.initial_esp
        ≡ words_bytes ((length args ∷ ptrs) ++ (0 ∷ 0 ∷ [])))
    × Pointed u'.mem (u'.initial_esp + table_bytes args) u.stack_top args ptrs

-- Too many arguments, a null pointer or a string of 128 bytes or more, or too little room.
abbrev pub NoStack : User → List (Option (List ℕ)) → Type 0
NoStack u args =
    (16 < length args)
    ⊎ (total_bytes args ≡ none)
    ⊎ ((total : ℕ) × (total_bytes args ≡ some total)
        × (u.stack_top < u.stack_base + total + table_bytes args + (u.stack_top - total) % 4))

-- What process_setup_arguments leaves. Outside the stack the memory is as before.
abbrev pub Arranged : User → List (Option (List ℕ)) → Bool × User → Type 0
Arranged u args (b, u') =
    ((a : ℕ) → (a < u.stack_base) ⊎ (u.stack_top ≤ a) → u'.mem a ≡ u.mem a)
    × (u'.stack_base ≡ u.stack_base)
    × (u'.stack_top ≡ u.stack_top)
    × (if b then LaidOut u args u' else ((u'.initial_esp ≡ u.initial_esp) × NoStack u args))

length-words_bytes : (words : List ℕ) → length (words_bytes words) ≡ length words * 4
length-words_bytes [] = refl
length-words_bytes (word ∷ words) = omega (arith, length-words_bytes words)

length-stack_table :
    (argc : ℕ) (ptrs : List ℕ) → length (stack_table argc ptrs) ≡ (length ptrs + 3) * 4
length-stack_table argc ptrs =
    omega (
      arith,
      length-words_bytes ((argc ∷ ptrs) ++ (0 ∷ 0 ∷ [])),
      length-append {0} ptrs (0 ∷ 0 ∷ []),
    )

take_all : {A : Type 0} (xs : List A) → take (length xs) xs ≡ xs
take_all [] = refl
take_all (x ∷ xs) = ap (λ r. x ∷ r) (take_all xs)

module _ (u : User) (room : u.stack_base + 128 < 2 ^ 32) (small : u.stack_top < 2 ^ 32)
    (some_base : 0 < u.stack_base) (ordered : u.stack_base ≤ u.stack_top) where
  -- The table of words at `esp`, under the strings.
  put-Arranged :
      (args : List (Option (List ℕ))) (sp esp : ℕ) (ptrs : List ℕ) (mem : ℕ → ℕ)
      → length args ≤ 16
      → esp + table_bytes args ≡ sp - sp % 4
      → u.stack_base ≤ esp
      → Pushed u.mem args u.stack_base u.stack_top (some (sp, ptrs), mem)
      → Arranged u args (put_table (length args) ptrs (record u { mem = mem }) (some esp))
  unfolding put_table
  put-Arranged args sp esp ptrs mem few place from (same, total, low, high, count, pointed) =
      let table = stack_table (length args) ptrs in
      let bytes : length table ≡ table_bytes args =
        omega (arith, length-stack_table (length args) ptrs, count) in
      let read : read_bytes (table_bytes args) (write_bytes table esp mem) esp ≡ table =
        subst (λ n. read_bytes n (write_bytes table esp mem) esp ≡ table) bytes
          (read_bytes-write_bytes table esp mem) in
      (
        λ a outside.
            write_bytes-outside table esp mem a (elim outside [
              | inl under ↦ inl (omega (arith, under, from))
              | inr over ↦ inr (omega (arith, over, bytes, place, high))
            ])
            ∙ same a outside,
        refl,
        refl,
        (
          few,
          u.stack_top - sp,
          total,
          omega (arith, place, high),
          omega (arith, place),
          from,
          ptrs,
          read,
          Pointed-below mem (write_bytes table esp mem) sp (esp + table_bytes args) u.stack_top args
              ptrs
              (λ a above.
                write_bytes-outside table esp mem a (inr (omega (arith, above, bytes, place))))
              (omega (arith, place)) pointed,
        ),
      )

  finish-Arranged :
      (args : List (Option (List ℕ))) (out : Option (ℕ × List ℕ) × (ℕ → ℕ))
      → length args ≤ 16
      → Pushed u.mem args u.stack_base u.stack_top out
      → Arranged u args (finish_stack (length args) u out)
  unfolding finish_stack put_table
  finish-Arranged args (none, mem) few (same, inl bad) = (same, refl, refl, (refl, inr (inl bad)))
  finish-Arranged args (none, mem) few (same, inr (total, e, full)) =
      (same, refl, refl, (refl, inr (inr (total, e, omega (arith, full)))))
  finish-Arranged args (some (sp, ptrs), mem) few (same, total, low, high, count, pointed) =
      let n = length args in
      let aligned = sp - sp % 4 in
      let bytes = (1 + n + 1 + 1) * 4 in
      let wrap : (u.stack_base + bytes) % 2 ^ 32 ≡ u.stack_base + table_bytes args =
        omega (arith, few) in
      elim (Bool-cases (ltb aligned (u.stack_base + table_bytes args))) [
        | inl full ↦
            let nowhere : below u.stack_base aligned bytes ≡ none = rw (wrap, full) refl in
            let over : u.stack_top
                < u.stack_base
                  + (u.stack_top - sp)
                  + table_bytes args
                  + (u.stack_top - (u.stack_top - sp)) % 4 =
              omega (arith, ltb→lt aligned (u.stack_base + table_bytes args) full, high) in
            subst (λ o. Arranged u args (put_table n ptrs (record u { mem = mem }) o)) (sym nowhere)
              (same, refl, refl, (refl, inr (inr (u.stack_top - sp, total, over))))
        | inr fits ↦
            let from = ltb→ge aligned (u.stack_base + table_bytes args) fits in
            let place : (aligned + 2 ^ 32 - bytes) % 2 ^ 32 ≡ aligned - table_bytes args =
              omega (arith, from, high, small, few) in
            let there : below u.stack_base aligned bytes ≡ some (aligned - table_bytes args) =
              rw (wrap, fits) (ap some place) in
            subst (λ o. Arranged u args (put_table n ptrs (record u { mem = mem }) o)) (sym there)
              (put-Arranged args sp (aligned - table_bytes args) ptrs mem few (omega (arith, from))
                (omega (arith, from)) (same, total, low, high, count, pointed))
      ]

  -- A process is not destroyed, and its stack lies between two addresses that are not null; 128 bytes over
  -- the lower one do not wrap. Then process_setup_arguments leaves the memory outside the stack as it is.
  -- It succeeds with the stack laid out; and it fails, with the stack pointer as it was, exactly for more
  -- than 16 arguments, a null pointer or a string of 128 bytes or more among them, or too little room
  -- for the strings and the table.
  pub process_setup_arguments-Arranged :
      (t : Table) (p : ℕ) (args : List (Option (List ℕ)))
      → Live (t.processes p) t.next_pid
      → (out : Bool × User) × (process_setup_arguments p (pos (length args)) (some args) t u
          ≡ ok out)
        × Arranged u args out
  unfolding process_setup_arguments setup setup_list
  process_setup_arguments-Arranged t p args live =
      let valid = validate_live_process_lem t p live in
      let base : (u.stack_base == 0) ≡ false = ground (arith, some_base) in
      let top : (u.stack_top == 0) ≡ false = ground (arith, some_base, ordered) in
      elim (Bool-cases (ltb 16 (length args))) [
        | inl many ↦ (
          (false, u),
          rw (valid, many) refl,
          (λ a outside. refl, refl, refl, (refl, inl (ltb→lt 16 (length args) many))),
        )
        | inr few ↦
            let out = push_args args u.stack_base u.stack_top u.mem in
            (
              finish_stack (length args) u out,
              rw (valid, few, take_all args, base, top) refl,
              finish-Arranged args out (ltb→ge 16 (length args) few)
                  (push_args-Pushed u.stack_base u.stack_top room small u.mem args ordered),
            )
      ]
