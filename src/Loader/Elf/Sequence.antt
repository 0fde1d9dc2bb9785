-- ===== src/Loader/Elf/Sequence.antt =====
-- Which calls elf_load_process makes to the process, for which images.
use toyix.Loader.{Status, loaded, on_loaded}
use toyix.Loader.Contract.{on_loaded-loaded}
use toyix.Loader.Calls.{
  Log, Answers, calling, AllMayCall, calling_contract, run, status_of, status_cases,
}
use toyix.Loader.Elf.{
  Phdr, read_ehdr, read_phdr, validate_elf_header, validate_load_segment, validate_segments,
  load_checked, elf_load_process,
}
use toyix.Loader.Elf.Checks.{
  IsHeader, IsLoadable, validate_load_segment_iff, validate_elf_header_iff,
}
use toyix.Loader.Elf.Load.{read_phdr-IsPhdr, validate_segments-checked, elf_load_process-keeps}
use toyix.Prelude.{
  ℕ, zero, suc, ◌+◌, ◌^◌, ◌<◌, ◌≤◌, ◌≡◌, ◌≢◌, ◌⊎◌, ◌↔◌, inl, inr, refl, sym, subst, Bool, true,
  false, ◌==◌, if◌then◌else◌, Bool-cases, [], arith,
}
use toyix.Loader.Elf.Segments.{image_calls, entered, load_image-run}

-- Images with a proper header, proper segments, and one of them at least to load.
abbrev pub IsImage : (image : ℕ → ℕ) → (n : ℕ) → Type 0
IsImage image n =
    IsHeader (read_ehdr image) n
    × ((j : ℕ)
        → j < (read_ehdr image).phnum
        → ((read_phdr image (read_ehdr image).phoff j).kind ≢ 1)
          ⊎ IsLoadable (read_phdr image (read_ehdr image).phoff j) n)
    × ((j : ℕ) × (j < (read_ehdr image).phnum)
        × ((read_phdr image (read_ehdr image).phoff j).kind ≡ 1))

abbrev pub Loading : Answers → (image : ℕ → ℕ) → (n : ℕ) → Status × Log → Type 0
Loading answers image n out =
    (IsImage image n
      × (out
          ≡ on_loaded
              (status_of (
                run answers
                  (image_calls (read_ehdr image) (read_phdr image (read_ehdr image).phoff)) []))
              (entered (read_ehdr image).entry)))
    ⊎ ((¬ (IsImage image n)) × (out.0 ≢ loaded) × (out.1 ≡ []))

-- The first loop passes where every segment is proper, and has seen one to load if there is one.
validate_segments-passed :
    (rounds i : ℕ) (phdr : ℕ → Phdr) (n : ℕ) (saw : Bool)
    → ((j : ℕ) → i ≤ j → j < i + rounds → validate_load_segment (phdr j) n ≡ loaded)
    → ((validate_segments rounds i phdr n saw).0 ≡ loaded)
      × ((saw ≡ true) → (validate_segments rounds i phdr n saw).1 ≡ true)
      × ((j : ℕ)
          → i ≤ j
          → j < i + rounds
          → (phdr j).kind ≡ 1
          → (validate_segments rounds i phdr n saw).1 ≡ true)
unfolding validate_segments on_loaded
validate_segments-passed zero i phdr n saw ok =
    (refl, λ e. e, λ j low high e. absurd (omega (arith, low, high)))
validate_segments-passed (suc rounds) i phdr n saw ok =
    let next = if (phdr i).kind == 1 then true else saw in
    let (passed, kept, seen) =
      validate_segments-passed rounds (i + 1) phdr n next
        (λ j low high. ok j (omega (arith, low)) (omega (arith, high))) in
    rw (ok i (omega arith) (omega arith)) (
      passed,
      λ e. kept (ground (arith, e)),
      λ j low high e. elim (Bool-cases (j == i)) [
        | inl same ↦
            let same' : i ≡ j = ground (arith, same) in
            let e' : (phdr i).kind ≡ 1 = subst (λ k. (phdr k).kind ≡ 1) (sym same') e in
            let here : ((phdr i).kind == 1) ≡ true = ground (arith, e') in kept (rw here refl)
        | inr other ↦ seen j (ground (arith, low, other)) (omega (arith, high)) e
      ],
    )

-- What it has seen was there.
validate_segments-seen :
    (rounds i : ℕ) (phdr : ℕ → Phdr) (n : ℕ) (saw : Bool)
    → (validate_segments rounds i phdr n saw).0 ≡ loaded
    → (validate_segments rounds i phdr n saw).1 ≡ true
    → (saw ≡ true) ⊎ ((j : ℕ) × (i ≤ j) × (j < i + rounds) × ((phdr j).kind ≡ 1))
unfolding validate_segments on_loaded
validate_segments-seen zero i phdr n saw passed seen = inl seen
validate_segments-seen (suc rounds) i phdr n saw passed seen =
    let next = if (phdr i).kind == 1 then true else saw in
    let (first, rest) =
      on_loaded-loaded (validate_load_segment (phdr i) n, saw)
        (λ saw. validate_segments rounds (i + 1) phdr n (if (phdr i).kind == 1 then true else saw))
        passed in
    let seen' : (validate_segments rounds (i + 1) phdr n next).1 ≡ true = rw first at seen in
    elim (validate_segments-seen rounds (i + 1) phdr n next rest seen') [
      | inr (j, low, high, load) ↦ inr (j, omega (arith, low), omega (arith, high), load)
      | inl before ↦ elim (Bool-cases ((phdr i).kind == 1)) [
        | inl load ↦ inr (i, omega arith, omega arith, ground (arith, load))
        | inr skip ↦ inl (rw skip at before)
      ]
    ]

module _ (answers : Answers) (image : ℕ → ℕ) (n : ℕ) (small : n < 2 ^ 32) where
  checked : Status × Bool
  checked =
      validate_segments (read_ehdr image).phnum 0 (read_phdr image (read_ehdr image).phoff) n false

  IsHeader-iff : (validate_elf_header (read_ehdr image) n ≡ loaded) ↔ IsHeader (read_ehdr image) n
  unfolding read_ehdr
  IsHeader-iff = validate_elf_header_iff (read_ehdr image) n (omega arith) (omega arith) small

  segments_passed : IsImage image n → (checked.0 ≡ loaded) × (checked.1 ≡ true)
  unfolding checked
  segments_passed (_, proper, (j, less, load)) =
      let (passed, _, seen) =
        validate_segments-passed (read_ehdr image).phnum 0 (read_phdr image (read_ehdr image).phoff)
          n false
          (λ j _ high.
            (validate_load_segment_iff (read_phdr image (read_ehdr image).phoff j) n
                (read_phdr-IsPhdr image (read_ehdr image).phoff j) small).1
              (proper j (omega (arith, high)))) in
      (passed, seen j (omega arith) (omega (arith, less)) load)

  passed-IsImage :
      validate_elf_header (read_ehdr image) n ≡ loaded
      → checked.0 ≡ loaded
      → checked.1 ≡ true
      → IsImage image n
  unfolding checked
  passed-IsImage first second third =
      let phdr = read_phdr image (read_ehdr image).phoff in
      (
        IsHeader-iff.0 first,
        λ j less.
            validate_segments-checked (read_ehdr image).phnum 0 phdr n false
              (read_phdr-IsPhdr image (read_ehdr image).phoff) small second j (omega arith)
              (omega (arith, less)),
        elim (validate_segments-seen (read_ehdr image).phnum 0 phdr n false second third) [
          | inl e ↦ absurd (ground (arith, e))
          | inr (j, _, less, load) ↦ (j, omega (arith, less), load)
        ],
      )

  -- The second loop is reached, or not.
  load_checked-Loading :
      validate_elf_header (read_ehdr image) n ≡ loaded
      → Loading answers image n (
          load_checked
            (calling answers)
            (read_ehdr image)
            (read_phdr image (read_ehdr image).phoff)
            []
            checked)
  unfolding load_checked checked on_loaded
  load_checked-Loading first = elim (status_cases checked.0) [
    | inr (other, same) ↦
        let no : ¬ (IsImage image n) = λ image. other (segments_passed image).0 in
        rw (same [] _) (inr (no, other, refl))
    | inl second ↦ elim (Bool-cases checked.1) [
      | inr none_seen ↦
          let no : ¬ (IsImage image n) =
            λ image. ground (arith, none_seen, (segments_passed image).1) in
          rw (second, none_seen) (inr (no, λ e. cc, refl))
      | inl third ↦
          let proper = passed-IsImage first second third in
          rw (second, third)
            (inl (
              proper,
              load_image-run answers n (read_ehdr image) (read_phdr image (read_ehdr image).phoff)
                  [] proper.1,
            ))
    ]
  ]

-- Whatever the process answers, for any bytes of an image whose size is a 32-bit number, the calls that
-- elf_load_process makes are proper ones: regions, the stack and the entry point lie in user space, what
-- is copied lies inside the image, and what is written has been mapped. For an image with a proper header
-- and proper segments, of which one at least is to be loaded, the calls are those for the stack and for
-- each segment in turn, up to the first that fails, which is the result; when all succeed, the image is
-- loaded with its entry point set, or refused for an entry point outside user space. Any other image is
-- refused without a call.
pub elf_load_process-Loading :
    (answers : Answers) (image : ℕ → ℕ) (n : ℕ)
    → n < 2 ^ 32
    → AllMayCall n (elf_load_process (calling answers) image n []).1
      × Loading answers image n (elf_load_process (calling answers) image n [])
unfolding elf_load_process checked on_loaded load_checked
elf_load_process-Loading answers image n small = (
  elf_load_process-keeps (calling answers) n (calling_contract answers n) image [] small tt,
  elim (status_cases (validate_elf_header (read_ehdr image) n)) [
    | inl first ↦ rw first (load_checked-Loading answers image n small first)
    | inr (other, same) ↦
        let no : ¬ (IsImage image n) =
          λ proper. other ((IsHeader-iff answers image n small).1 proper.0) in
        rw (same [] _) (inr (no, other, refl))
  ],
)
