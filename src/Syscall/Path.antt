-- ===== src/Syscall/Path.antt =====
-- A path or a name that a process passes is copied exactly if it is a string that the process can read and
-- that fits.
use toyix.Usercopy.{is_user, page_of, read_bytes, Length, fault, too_long, of}
use toyix.Usercopy.Range.{AllUser, Checked}
use toyix.Usercopy.Copy.{Measured, copy_from_user-Checked, user_string_length-Measured}
use toyix.Syscall.{copy_measured, syscall_copy_user_string}
use toyix.Prelude.{
  ℕ, ◌+◌, ◌*◌, ◌%◌, ◌^◌, ◌<◌, ◌≤◌, ◌≡◌, ◌≢◌, inl, inr, refl, sym, ap, ◌∙◌, Bool, true, false, ltb,
  ltb→lt, ltb→ge, ge→ltb, ◌==◌, if◌then◌else◌, Bool-cases, Option, none, some, ok, List, arith,
}

-- A string of `length` bytes and a null at `addr`, that the process can read.
abbrev pub IsString : (flags mem : ℕ → ℕ) → (addr length : ℕ) → Type 0
IsString flags mem addr length =
    (addr + length + 1 < 2 ^ 32)
    × AllUser flags addr (addr + length + 1)
    × (mem (addr + length) ≡ 0)
    × ((j : ℕ) → j < length → mem (addr + j) ≢ 0)

-- What is copied of a string of less than `size` bytes.
abbrev pub StringCopied : (flags mem : ℕ → ℕ) → (addr size : ℕ) → Option (List ℕ) → Type 0
StringCopied flags mem addr size none =
    (length : ℕ) → length < size → ¬ (IsString flags mem addr length)
StringCopied flags mem addr size (some bytes) =
    (length : ℕ) × (length < size)
    × IsString flags mem addr length
    × (bytes ≡ read_bytes (length + 1) mem addr)

-- The bytes of a string do not wrap.
unwrapped :
    (addr length j : ℕ) → addr + length + 1 < 2 ^ 32 → j ≤ length → (addr + j) % 2 ^ 32 ≡ addr + j
unwrapped addr length j top within = omega (arith, top, within)

faulted :
    (flags mem : ℕ → ℕ) (addr size length : ℕ)
    → Measured flags mem addr 0 size fault
    → length < size
    → ¬ (IsString flags mem addr length)
faulted flags mem addr size length (k, _, inside, (_, other), before) short
      (top, all, end, nonzero) =
    elim (Bool-cases (ltb length k)) [
      | inl early ↦
          before length (omega arith) (ltb→lt length k early)
            (ap mem (unwrapped addr length length top (omega arith)) ∙ end)
      | inr late ↦
          let within = ltb→ge length k late in
          let own : (addr + k) % 2 ^ 32 ≡ addr + k = unwrapped addr length k top within in
          elim other [
            | inl over ↦ omega (arith, over, own, within, top)
            | inr (a, first, last, off) ↦
                let on : is_user (flags (page_of a)) ≡ true =
                  all a (omega (arith, first, own)) (omega (arith, last, own, within)) in
                ground (arith, on, off)
          ]
    ]

overlong :
    (flags mem : ℕ → ℕ) (addr size length : ℕ)
    → Measured flags mem addr 0 size too_long
    → length < size
    → ¬ (IsString flags mem addr length)
overlong flags mem addr size length later short (top, all, end, nonzero) =
    later length (omega arith) (omega (arith, short))
      (ap mem (unwrapped addr length length top (omega arith)) ∙ end)

-- A string's length is the one that is measured.
same_length :
    (flags mem : ℕ → ℕ) (addr size k length : ℕ)
    → Measured flags mem addr 0 size (of k)
    → IsString flags mem addr length
    → k ≡ length
same_length flags mem addr size k length (_, inside, zero_k, can, before) (top, all, end, nonzero) =
    elim (Bool-cases (ltb k length)) [
      | inl less ↦
          let within = ltb→lt k length less in
          absurd (
            nonzero k within
              (ap mem (sym (unwrapped addr length k top (omega (arith, within)))) ∙ zero_k))
      | inr least ↦ elim (Bool-cases (ltb length k)) [
        | inl more ↦ absurd (
            before length (omega arith) (ltb→lt length k more)
              (ap mem (unwrapped addr length length top (omega arith)) ∙ end))
        | inr most ↦ omega (arith, ltb→ge k length least, ltb→ge length k most)
      ]
    ]

-- The length is `k`, and whether the bytes can be read is `b`.
known :
    (flags mem : ℕ → ℕ) (addr size k : ℕ) (b : Bool)
    → k < size
    → Measured flags mem addr 0 size (of k)
    → Checked flags addr (k + 1) b
    → StringCopied flags mem addr size (if b then some (read_bytes (k + 1) mem addr) else none)
known flags mem addr size k false short measured (_, other) =
    λ length below (top, all, end, nonzero).
      let same = same_length flags mem addr size k length measured (top, all, end, nonzero) in
      elim other [
        | inl over ↦ omega (arith, over, same, top)
        | inr (a, first, last, off) ↦
            let on : is_user (flags (page_of a)) ≡ true = all a first (omega (arith, last, same)) in
            ground (arith, on, off)
      ]
known flags mem addr size k true short (_, _, zero_k, _, before) (bounded, all) =
    let top : addr + k + 1 < 2 ^ 32 = elim bounded [
      | inl e ↦ omega (arith, e)
      | inr h ↦ omega (arith, h)
    ] in
    (
      k,
      short,
      (
        top,
        λ a from to. all a from (omega (arith, to)),
        ap mem (sym (unwrapped addr k k top (omega arith))) ∙ zero_k,
        λ j less e.
            before j (omega arith) less (ap mem (unwrapped addr k j top (omega (arith, less))) ∙ e),
      ),
      refl,
    )

module _ (rounds : ℕ) (flags mem : ℕ → ℕ) (addr size : ℕ) (small : addr < 2 ^ 32)
    (few : size + 8190 < rounds * 4096) (top : size < 2 ^ 32) where
  copy_measured-StringCopied :
      (l : Length)
      → Measured flags mem addr 0 size l
      → (o : Option (List ℕ)) × (copy_measured rounds flags mem addr size l ≡ ok o)
        × StringCopied flags mem addr size o
  unfolding copy_measured
  copy_measured-StringCopied fault measured =
      (none, refl, λ length short. faulted flags mem addr size length measured short)
  copy_measured-StringCopied too_long measured =
      (none, refl, λ length short. overlong flags mem addr size length measured short)
  copy_measured-StringCopied (of k) measured =
      let short : k < size = omega (arith, measured.1) in
      let fits : ltb size (k + 1) ≡ false = ge→ltb size (k + 1) (omega (arith, short)) in
      let (b, done, checked) =
        copy_from_user-Checked rounds flags mem addr (k + 1) small (omega (arith, short, top))
          (omega (arith, short, few)) in
      (
        if b then some (read_bytes (k + 1) mem addr) else none,
        rw fits done,
        known flags mem addr size k b short measured checked,
      )

-- From an address that is not null, for a buffer of `size` bytes and with enough rounds for it,
-- syscall_copy_user_string ends. If the process can read a string there that fits with its null, exactly
-- the string is copied, with the null; otherwise the result is -1.
pub copy_user_string-StringCopied :
    (rounds : ℕ) (flags mem : ℕ → ℕ) (addr size : ℕ)
    → 0 < addr
    → addr < 2 ^ 32
    → 0 < size
    → size < 2 ^ 32
    → size + 8190 < rounds * 4096
    → (o : Option (List ℕ)) × (syscall_copy_user_string rounds flags mem addr size ≡ ok o)
      × StringCopied flags mem addr size o
unfolding syscall_copy_user_string
copy_user_string-StringCopied rounds flags mem addr size some_addr small some_size top few =
    let addr' : (addr == 0) ≡ false = ground (arith, some_addr) in
    let size' : (size == 0) ≡ false = ground (arith, some_size) in
    let (l, measured, answer) =
      user_string_length-Measured rounds flags mem addr size (omega (arith, few, some_size)) in
    let (o, copied, string) =
      copy_measured-StringCopied rounds flags mem addr size small few top l answer in
    (o, rw (addr', size', measured) copied, string)
