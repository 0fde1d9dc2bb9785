-- ===== src/Usercopy/Range.antt =====
-- A range is accessible exactly if every byte of it lies in a page of the user.
use toyix.Usercopy.{is_user, page_of, pages_accessible, user_range_accessible}
use native.Mathlib.Decide.{ℕ_discrete}
use toyix.Prelude.{
  lt→ltb, ge→ltb, ℕ, zero, suc, ◌+◌, ◌-◌, ◌*◌, ◌%◌, ◌/◌, ◌^◌, ◌<◌, ◌≤◌, ◌≡◌, ◌≢◌, ◌⊎◌, inl, inr,
  refl, sym, subst, ◌∙◌, Bool, true, false, ltb, leb, ltb→lt, ltb→ge, ◌==◌, Bool-cases, ok, arith,
}

-- Every page from page number `q` to the one of `end` is the user's, or one is not.
abbrev PagesChecked : (flags : ℕ → ℕ) → (q end : ℕ) → Bool → Type 0
PagesChecked flags q end true = (x : ℕ) → q ≤ x → x * 4096 ≤ end → is_user (flags (x * 4096)) ≡ true
PagesChecked flags q end false =
    (x : ℕ) × (q ≤ x) × (x * 4096 ≤ end) × (is_user (flags (x * 4096)) ≡ false)

PagesChecked-cons :
    (flags : ℕ → ℕ) (q end : ℕ) (b : Bool)
    → q * 4096 ≤ end
    → is_user (flags (q * 4096)) ≡ true
    → PagesChecked flags (q + 1) end b
    → PagesChecked flags q end b
PagesChecked-cons flags q end true inside user later = λ x from to. elim (ℕ_discrete q x) [
  | yes e ↦ subst (λ y. is_user (flags (y * 4096)) ≡ true) e user
  | no ne ↦ later x (omega (arith, from, ne)) to
]
PagesChecked-cons flags q end false inside user (x, from, to, other) =
    (x, omega (arith, from), to, other)

pages_accessible-PagesChecked :
    (rounds : ℕ) (flags : ℕ → ℕ) (q end : ℕ)
    → end < 2 ^ 32
    → q * 4096 ≤ end + 4096
    → end + 4096 < (q + rounds) * 4096
    → (b : Bool) × (pages_accessible rounds flags (q * 4096) end ≡ ok b)
      × PagesChecked flags q end b
unfolding pages_accessible
pages_accessible-PagesChecked zero flags q end top near few = absurd (omega (arith, near, few))
pages_accessible-PagesChecked (suc rounds) flags q end top near few =
    elim (Bool-cases (ltb end (q * 4096))) [
      | inl past ↦ (
        true,
        rw past refl,
        λ x from to. absurd (omega (arith, ltb→lt end (q * 4096) past, from, to)),
      )
      | inr inside ↦ elim (Bool-cases (is_user (flags (q * 4096)))) [
        | inr other ↦
            (false, rw (inside, other) refl, (q, omega arith, ltb→ge end (q * 4096) inside, other))
        | inl user ↦ elim (Bool-cases (ltb (0xffffffff - 0x1000) (q * 4096))) [
          | inl last ↦ (
            true,
            rw (inside, user, last) refl,
            PagesChecked-cons flags q end true (ltb→ge end (q * 4096) inside) user (λ x from to.
                absurd
                  (omega (arith, ltb→lt (0xffffffff - 0x1000) (q * 4096) last, from, to, top))),
          )
          | inr more ↦
              let within = ltb→ge end (q * 4096) inside in
              let (b, done, checked) =
                pages_accessible-PagesChecked rounds flags (q + 1) end top (omega (arith, within))
                  (omega (arith, few)) in
              let page : (q + 1) * 4096 ≡ q * 4096 + 4096 = omega arith in
              (
                b,
                rw (inside, user, more)
                    (subst (λ a. pages_accessible rounds flags a end ≡ ok b) page done),
                PagesChecked-cons flags q end b within user checked,
              )
        ]
      ]
    ]

-- Every byte from `low` to before `high` is the user's.
abbrev pub AllUser : (flags : ℕ → ℕ) → (low high : ℕ) → Type 0
AllUser flags low high = (a : ℕ) → low ≤ a → a < high → is_user (flags (page_of a)) ≡ true

-- A range of `size` bytes can be used by the process: it does not reach the end of the address space, and
-- all of its bytes are the user's. Or not.
abbrev pub Checked : (flags : ℕ → ℕ) → (addr size : ℕ) → Bool → Type 0
Checked flags addr size true =
    ((size ≡ 0) ⊎ (addr + size < 2 ^ 32)) × AllUser flags addr (addr + size)
Checked flags addr size false =
    (size ≢ 0)
    × ((2 ^ 32 ≤ addr + size)
        ⊎ ((a : ℕ) × (addr ≤ a) × (a < addr + size) × (is_user (flags (page_of a)) ≡ false)))

page_of_lem : (a : ℕ) → page_of a ≡ a / 4096 * 4096
page_of_lem a = omega arith

-- The byte of the range that stands for page `x`.
byte_in :
    (addr x : ℕ)
    → addr / 4096 ≤ x
    → (a : ℕ) × (addr ≤ a)
      × (page_of a ≡ x * 4096)
      × ((end : ℕ) → addr ≤ end → x * 4096 ≤ end → a ≤ end)
byte_in addr x from = elim (Bool-cases (leb addr (x * 4096))) [
  | inl below ↦ (x * 4096, ground arith, omega arith, λ end from' to. to)
  | inr above ↦
      let less : x * 4096 < addr = ground arith in
      (addr, omega arith, omega (arith, from, less), λ end from' to. from')
]

Checked-pages :
    (flags : ℕ → ℕ) (addr size : ℕ)
    → size ≢ 0
    → addr + size < 2 ^ 32
    → (b : Bool) → PagesChecked flags (addr / 4096) (addr + size - 1) b
    → Checked flags addr size b
Checked-pages flags addr size some_bytes fits true checked = (
  inr fits,
  λ a from to.
      subst (λ p. is_user (flags p) ≡ true) (sym (page_of_lem a))
        (checked (a / 4096) (omega (arith, from)) (omega (arith, to))),
)
Checked-pages flags addr size some_bytes fits false (x, from, to, other) =
    let (a, first, page, last) = byte_in addr x from in
    (
      some_bytes,
      inr (
        a,
        first,
        omega (arith, last (addr + size - 1) (omega (arith, some_bytes)) to, some_bytes),
        subst (λ p. is_user (flags p) ≡ false) (sym page) other,
      ),
    )

accessible_inside :
    (rounds : ℕ) (flags : ℕ → ℕ) (addr size : ℕ)
    → (size == 0) ≡ false
    → ltb ((addr + size) % 2 ^ 32) addr ≡ false
    → (addr + size + 2 ^ 32 - 1) % 2 ^ 32 ≡ addr + size - 1
    → page_of addr ≡ addr / 4096 * 4096
    → user_range_accessible rounds flags addr size
      ≡ pages_accessible rounds flags (addr / 4096 * 4096) (addr + size - 1)
unfolding user_range_accessible
accessible_inside rounds flags addr size some_bytes stays end page =
    rw (some_bytes, stays, end, page) refl

-- With a round for each page of the range and one more, user_range_accessible ends, and answers yes exactly
-- for a range that is the user's and does not reach the end of the address space, or is empty.
pub user_range_accessible-Checked :
    (rounds : ℕ) (flags : ℕ → ℕ) (addr size : ℕ)
    → addr < 2 ^ 32
    → size < 2 ^ 32
    → size + 8190 < rounds * 4096
    → (b : Bool) × (user_range_accessible rounds flags addr size ≡ ok b) × Checked flags addr size b
unfolding user_range_accessible
user_range_accessible-Checked rounds flags addr size small_addr small few =
    elim (ℕ_discrete size 0) [
      | yes e ↦ (true, rw e refl, (inl e, λ a from to. absurd (omega (arith, e, from, to))))
      | no some_bytes ↦ elim (Bool-cases (ltb (addr + size) (2 ^ 32))) [
        | inr over ↦
            let above : 2 ^ 32 ≤ addr + size = ltb→ge (addr + size) (2 ^ 32) over in
            let wraps : ltb ((addr + size) % 2 ^ 32) addr ≡ true =
              lt→ltb _ _ (omega (arith, above, small, small_addr)) in
            let some_bytes' : (size == 0) ≡ false = ground (arith, some_bytes) in
            (false, rw (some_bytes', wraps) refl, (some_bytes, inl above))
        | inl fits ↦
            let fits' : addr + size < 2 ^ 32 = ltb→lt (addr + size) (2 ^ 32) fits in
            let stays : ltb ((addr + size) % 2 ^ 32) addr ≡ false =
              ge→ltb _ _ (omega (arith, fits')) in
            let some_bytes' : (size == 0) ≡ false = ground (arith, some_bytes) in
            let end : (addr + size + 2 ^ 32 - 1) % 2 ^ 32 ≡ addr + size - 1 =
              omega (arith, some_bytes, fits') in
            let (b, done, checked) =
              pages_accessible-PagesChecked rounds flags (addr / 4096) (addr + size - 1)
                (omega (arith, fits')) (omega (arith, some_bytes))
                (omega (arith, few, some_bytes, fits')) in
            (
              b,
              accessible_inside rounds flags addr size some_bytes' stays end (page_of_lem addr)
                  ∙ done,
              Checked-pages flags addr size some_bytes fits' b checked,
            )
      ]
    ]
