-- ===== src/Usercopy/Copy.antt =====
-- What the copies and user_string_length do.
use native.Mathlib.Decide.{ℕ_discrete}
use toyix.Usercopy.{
  is_user, page_of, user_range_accessible, read_bytes, write_bytes, copy_from_user, copy_to_user,
  Length, fault, too_long, of, look, length_from, user_string_length,
}
use toyix.Usercopy.Range.{Checked, user_range_accessible-Checked}
use toyix.Prelude.{
  ℕ, zero, suc, ◌+◌, ◌*◌, ◌%◌, ◌^◌, ◌<◌, ◌≤◌, ◌≡◌, ◌≢◌, ◌⊎◌, inl, inr, refl, subst, ◌∙◌, Bool, true,
  false, ltb, ◌==◌, if◌then◌else◌, Bool-cases, Option, none, some, update, update_self,
  update_other, ok, List, [], ◌∷◌, length, arith,
}

-- The bytes outside are as before.
pub write_bytes-outside :
    (bytes : List ℕ) (addr : ℕ) (mem : ℕ → ℕ) (a : ℕ)
    → (a < addr) ⊎ (addr + length bytes ≤ a)
    → write_bytes bytes addr mem a ≡ mem a
write_bytes-outside [] addr mem a outside = refl
write_bytes-outside (byte ∷ bytes) addr mem a outside =
    let differ : addr ≢ a = λ e. elim outside [
      | inl before ↦ omega (arith, before, e)
      | inr behind ↦ omega (arith, behind, e)
    ] in
    let outside' : (a < addr + 1) ⊎ (addr + 1 + length bytes ≤ a) = elim outside [
      | inl before ↦ inl (omega (arith, before))
      | inr behind ↦ inr (omega (arith, behind))
    ] in
    write_bytes-outside bytes (addr + 1) (update mem addr byte) a outside'
    ∙ update_other mem addr a byte differ

pub read_bytes-write_bytes :
    (bytes : List ℕ) (addr : ℕ) (mem : ℕ → ℕ)
    → read_bytes (length bytes) (write_bytes bytes addr mem) addr ≡ bytes
read_bytes-write_bytes [] addr mem = refl
read_bytes-write_bytes (byte ∷ bytes) addr mem =
    rw
      (
        write_bytes-outside bytes (addr + 1) (update mem addr byte) addr (inl (omega arith)),
        update_self mem addr byte,
        read_bytes-write_bytes bytes (addr + 1) (update mem addr byte),
      )
      refl

-- What copy_to_user leaves.
abbrev pub Copied : (flags mem : ℕ → ℕ) → (addr : ℕ) → List ℕ → Option (ℕ → ℕ) → Type 0
Copied flags mem addr bytes none = Checked flags addr (length bytes) false
Copied flags mem addr bytes (some mem') =
    Checked flags addr (length bytes) true
    × (read_bytes (length bytes) mem' addr ≡ bytes)
    × ((a : ℕ) → (is_user (flags (page_of a)) ≡ false) → mem' a ≡ mem a)
    × ((a : ℕ) → (a < addr) ⊎ (addr + length bytes ≤ a) → mem' a ≡ mem a)

Copied-true :
    (flags mem : ℕ → ℕ) (addr : ℕ) (bytes : List ℕ)
    → Checked flags addr (length bytes) true
    → Copied flags mem addr bytes (some (write_bytes bytes addr mem))
Copied-true flags mem addr bytes (inside, all) = (
  (inside, all),
  read_bytes-write_bytes bytes addr mem,
  λ a other. elim (Bool-cases (ltb a addr)) [
    | inl before ↦ write_bytes-outside bytes addr mem a (inl (ground (arith, before)))
    | inr from ↦ elim (Bool-cases (ltb a (addr + length bytes))) [
      | inl to ↦
          let user = all a (ground (arith, from)) (ground (arith, to)) in
          ground (arith, user, other)
      | inr behind ↦ write_bytes-outside bytes addr mem a (inr (ground (arith, behind)))
    ]
  ],
  λ a outside. write_bytes-outside bytes addr mem a outside,
)

-- With enough rounds, copy_to_user ends. It reports a fault exactly if the range is not one that the
-- process can use, and then writes nothing. Otherwise the bytes can be read back at the destination, and
-- neither a byte of a page that is not the user's nor a byte outside the destination has changed.
pub copy_to_user-Copied :
    (rounds : ℕ) (flags mem : ℕ → ℕ) (addr : ℕ) (bytes : List ℕ)
    → addr < 2 ^ 32
    → length bytes < 2 ^ 32
    → length bytes + 8190 < rounds * 4096
    → (o : Option (ℕ → ℕ)) × (copy_to_user rounds flags mem addr bytes ≡ ok o)
      × Copied flags mem addr bytes o
unfolding copy_to_user
copy_to_user-Copied rounds flags mem addr bytes small_addr small few =
    let (b, done, checked) =
      user_range_accessible-Checked rounds flags addr (length bytes) small_addr small few in
    elim b
        as (λ b.
          user_range_accessible rounds flags addr (length bytes) ≡ ok b
          → Checked flags addr (length bytes) b
          → (o : Option (ℕ → ℕ)) × (copy_to_user rounds flags mem addr bytes ≡ ok o)
            × Copied flags mem addr bytes o) [
              | true ↦ λ done checked. (
                some (write_bytes bytes addr mem),
                rw done refl,
                Copied-true flags mem addr bytes checked,
              )
              | false ↦ λ done other. (none, rw done refl, other)
            ]
      done checked

-- What user_string_length answers for a string of at most `left` bytes, from index `i` on.
abbrev pub Measured : (flags mem : ℕ → ℕ) → (addr i left : ℕ) → Length → Type 0
Measured flags mem addr i left fault =
    (k : ℕ) × (i ≤ k)
    × (k < i + left)
    × Checked flags ((addr + k) % 2 ^ 32) 1 false
    × ((j : ℕ) → i ≤ j → j < k → mem ((addr + j) % 2 ^ 32) ≢ 0)
Measured flags mem addr i left too_long =
    (j : ℕ) → i ≤ j → j < i + left → mem ((addr + j) % 2 ^ 32) ≢ 0
Measured flags mem addr i left (of k) =
    (i ≤ k)
    × (k < i + left)
    × (mem ((addr + k) % 2 ^ 32) ≡ 0)
    × ((j : ℕ) → i ≤ j → j ≤ k → Checked flags ((addr + j) % 2 ^ 32) 1 true)
    × ((j : ℕ) → i ≤ j → j < k → mem ((addr + j) % 2 ^ 32) ≢ 0)

pub copy_from_user-Checked :
    (rounds : ℕ) (flags mem : ℕ → ℕ) (addr size : ℕ)
    → addr < 2 ^ 32
    → size < 2 ^ 32
    → size + 8190 < rounds * 4096
    → (b : Bool) × (copy_from_user rounds flags mem addr size
        ≡ ok (if b then some (read_bytes size mem addr) else none))
      × Checked flags addr size b
unfolding copy_from_user
copy_from_user-Checked rounds flags mem addr size small_addr small few =
    let (b, done, checked) =
      user_range_accessible-Checked rounds flags addr size small_addr small few in
    (b, rw done refl, checked)

nonzero_cons :
    (mem : ℕ → ℕ) (addr i k : ℕ)
    → mem ((addr + i) % 2 ^ 32) ≢ 0
    → ((j : ℕ) → i + 1 ≤ j → j < k → mem ((addr + j) % 2 ^ 32) ≢ 0)
    → (j : ℕ) → i ≤ j
    → j < k
    → mem ((addr + j) % 2 ^ 32) ≢ 0
nonzero_cons mem addr i k byte before j from to = elim (ℕ_discrete i j) [
  | yes e ↦ subst (λ j. mem ((addr + j) % 2 ^ 32) ≢ 0) e byte
  | no ne ↦ before j (omega (arith, from, ne)) to
]

Measured-cons :
    (flags mem : ℕ → ℕ) (addr i left : ℕ) (l : Length)
    → mem ((addr + i) % 2 ^ 32) ≢ 0
    → Checked flags ((addr + i) % 2 ^ 32) 1 true
    → Measured flags mem addr (i + 1) left l
    → Measured flags mem addr i (suc left) l
Measured-cons flags mem addr i left fault byte user (k, from, to, other, before) = (
  k,
  omega (arith, from),
  omega (arith, to),
  other,
  λ j from' to'. nonzero_cons mem addr i k byte before j from' to',
)
Measured-cons flags mem addr i left too_long byte user later = λ j from to.
    nonzero_cons mem addr i (i + suc left) byte (λ j from' to'. later j from' (omega (arith, to')))
      j from to
Measured-cons flags mem addr i left (of k) byte user (from, to, end, can, before) = (
  omega (arith, from),
  omega (arith, to),
  end,
  λ j from' to'. elim (ℕ_discrete i j) [
    | yes e ↦ subst (λ j. Checked flags ((addr + j) % 2 ^ 32) 1 true) e user
    | no ne ↦ can j (omega (arith, from', ne)) to'
  ],
  λ j from' to'. nonzero_cons mem addr i k byte before j from' to',
)

looked :
    (left : ℕ) (rounds : ℕ) (flags mem : ℕ → ℕ) (addr i : ℕ) (b : Bool)
    → copy_from_user rounds flags mem ((addr + i) % 2 ^ 32) 1
      ≡ ok (if b then some (mem ((addr + i) % 2 ^ 32) ∷ []) else none)
    → Checked flags ((addr + i) % 2 ^ 32) 1 b
    → (l : Length) × (length_from left rounds flags mem addr (i + 1) ≡ ok l)
      × Measured flags mem addr (i + 1) left l
    → (l : Length) × (length_from (suc left) rounds flags mem addr i ≡ ok l)
      × Measured flags mem addr i (suc left) l
unfolding length_from look
looked left rounds flags mem addr i false done other later = (
  fault,
  rw done refl,
  (i, omega arith, omega arith, other, λ j from to. absurd (omega (arith, from, to))),
)
looked left rounds flags mem addr i true done user (l, same, measured) =
    elim (ℕ_discrete (mem ((addr + i) % 2 ^ 32)) 0) [
      | yes e ↦ (
        of i,
        rw (done, e) refl,
        (
          omega arith,
          omega arith,
          e,
          λ j from to.
              let e' : i ≡ j = omega (arith, from, to) in
              subst (λ j. Checked flags ((addr + j) % 2 ^ 32) 1 true) e' user,
          λ j from to. absurd (omega (arith, from, to)),
        ),
      )
      | no ne ↦
          let byte : (mem ((addr + i) % 2 ^ 32) == 0) ≡ false = ground (arith, ne) in
          (l, rw (done, byte) same, Measured-cons flags mem addr i left l ne user measured)
    ]

length_from-Measured :
    (left : ℕ) (rounds : ℕ) (flags mem : ℕ → ℕ) (addr i : ℕ)
    → 8191 < rounds * 4096
    → (l : Length) × (length_from left rounds flags mem addr i ≡ ok l)
      × Measured flags mem addr i left l
unfolding length_from look
length_from-Measured zero rounds flags mem addr i few =
    (too_long, refl, λ j from to. absurd (omega (arith, from, to)))
length_from-Measured (suc left) rounds flags mem addr i few =
    let (b, done, checked) =
      copy_from_user-Checked rounds flags mem ((addr + i) % 2 ^ 32) 1 (omega arith) (omega arith)
        (omega (arith, few)) in
    looked left rounds flags mem addr i b done checked
      (length_from-Measured left rounds flags mem addr (i + 1) few)

-- With enough rounds for one byte, user_string_length ends. A length is that of the string: its byte is
-- the first that is zero, and all bytes up to it can be read by the process. Too long means that no byte
-- of the given maximum is zero. A fault is at a byte in that maximum that the process cannot read,
-- with no zero in front.
pub user_string_length-Measured :
    (rounds : ℕ) (flags mem : ℕ → ℕ) (addr max_len : ℕ)
    → 8191 < rounds * 4096
    → (l : Length) × (user_string_length rounds flags mem addr max_len ≡ ok l)
      × Measured flags mem addr 0 max_len l
unfolding user_string_length
user_string_length-Measured rounds flags mem addr max_len few =
    length_from-Measured max_len rounds flags mem addr 0 few
