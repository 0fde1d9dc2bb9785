-- ===== src/Loader/Elf/Segments.antt =====
-- The calls that load_segments and the rest of the loading make, once the checks have passed.
use toyix.Bits.{and_fffff000}
use toyix.Loader.{Status, loaded, invalid, after, on_loaded, align_up_page}
use toyix.Loader.Calls.{
  Call, map_region, copy_in, zero_fill, stack_at, enter_at, code_at, Log, Answers, calling, make,
  run, proceed, status_of, after-proceed, after-on_loaded, on_loaded-proceed, run-append,
}
use toyix.Loader.Elf.{Ehdr, Phdr, load_segment, load_segments, enter, load_image}
use toyix.Loader.Elf.Checks.{IsLoadable}
use toyix.Loader.Elf.Load.{segment_pages}
use toyix.Prelude.{
  ℕ, zero, suc, ◌+◌, ◌-◌, ◌*◌, ◌/◌, ◌%◌, ◌^◌, ◌<◌, ◌≤◌, ◌≡◌, ◌≢◌, ◌⊎◌, inl, inr, refl, ◌∙◌, Bool,
  true, false, ◌&&◌, ltb, leb, ◌==◌, if◌then◌else◌, Bool-cases, List, [], ◌∷◌, ◌++◌, arith,
}

-- A segment is mapped in whole pages, its file part is copied, and the rest is zeroed.
abbrev pub segment_calls : Phdr → List Call
segment_calls p =
    map_region p.vaddr ((p.memsz + 4095) / 4096 * 4096)
    ∷ copy_in p.vaddr p.offset p.filesz
    ∷ (if ltb p.filesz p.memsz
        then zero_fill (p.vaddr + p.filesz) (p.memsz - p.filesz) ∷ []
        else [])

-- For `rounds` program headers from the `i`-th on.
abbrev pub all_segments : (rounds i : ℕ) → (ℕ → Phdr) → List Call
all_segments zero i phdr = []
all_segments (suc rounds) i phdr =
    (if (phdr i).kind == 1 then segment_calls (phdr i) else []) ++ all_segments rounds (i + 1) phdr

-- The page of the stack comes first.
abbrev pub image_calls : Ehdr → (ℕ → Phdr) → List Call
image_calls h phdr =
    map_region 0x6ffff000 4096
    ∷ zero_fill 0x6ffff000 4096
    ∷ stack_at 0x6ffff000 0x70000000
    ∷ all_segments h.phnum 0 phdr

-- After the calls, the entry point is set if it lies in user space.
abbrev pub entered : (at : ℕ) → Log → Status × Log
entered at log =
    if leb 0x1000000 at && ltb at 0xc0000000
    then (loaded, (enter_at at, true) ∷ (code_at at, true) ∷ log)
    else (invalid, log)

-- What the code computes is the segment's size in whole pages.
segment_size :
    (p : Phdr) (n : ℕ)
    → IsLoadable p n
    → (align_up_page ((p.vaddr + p.memsz) % 2 ^ 32) + 2 ^ 32 - p.vaddr) % 2 ^ 32
      ≡ (p.memsz + 4095) / 4096 * 4096
unfolding align_up_page
segment_size p n (_, _, _, _, low, high, even) =
    let fits : ((p.vaddr + p.memsz) % 2 ^ 32 + 4095) % 2 ^ 32 ≡ p.vaddr + p.memsz + 4095 =
      omega (arith, high) in
    rw (fits, and_fffff000 (p.vaddr + p.memsz + 4095) (omega (arith, high)))
      (omega (arith, low, high, even))

module _ (answers : Answers) (n : ℕ) where
  load_segment-run :
      (p : Phdr) (log : Log)
      → IsLoadable p n
      → load_segment (calling answers) p log ≡ status_of (run answers (segment_calls p) log)
  unfolding load_segment run
  load_segment-run p log ok =
      let (whole, fits, top) = segment_pages p n ok in
      let (_, file, _, small, low, high, even) = ok in
      let size : (align_up_page ((p.vaddr + p.memsz) % 2 ^ 32) + 2 ^ 32 - p.vaddr) % 2 ^ 32
          ≡ (p.memsz + 4095) / 4096 * 4096 =
        segment_size p n ok in
      let dest : (p.vaddr + p.filesz) % 2 ^ 32 ≡ p.vaddr + p.filesz = omega (arith, file, high) in
      rw (whole, size, dest)
        (after-proceed (make answers (map_region p.vaddr ((p.memsz + 4095) / 4096 * 4096)) log) _ _
          (λ log. after-proceed (make answers (copy_in p.vaddr p.offset p.filesz) log) _ _ (λ log.
            elim (Bool-cases (ltb p.filesz p.memsz)) [
              | inl more ↦ rw more (
                  after-proceed
                    (make answers (zero_fill (p.vaddr + p.filesz) (p.memsz - p.filesz)) log) _ _
                    (λ log. refl))
              | inr none_left ↦ rw none_left refl
            ])))

  one_to_load : (p : Phdr) → (p.kind == 1) ≡ true → (p.kind ≢ 1) ⊎ IsLoadable p n → IsLoadable p n
  one_to_load p load (inl other) = absurd (ground (arith, load, other))
  one_to_load p load (inr ok) = ok

  load_segments-run :
      (rounds i : ℕ) (phdr : ℕ → Phdr) (log : Log)
      → ((j : ℕ) → i ≤ j → j < i + rounds → ((phdr j).kind ≢ 1) ⊎ IsLoadable (phdr j) n)
      → load_segments (calling answers) rounds i phdr log
        ≡ status_of (run answers (all_segments rounds i phdr) log)
  unfolding load_segments run on_loaded
  load_segments-run zero i phdr log ok = refl
  load_segments-run (suc rounds) i phdr log ok =
      let rest = all_segments rounds (i + 1) phdr in
      let later : (log : Log)
          → load_segments (calling answers) rounds (i + 1) phdr log
            ≡ status_of (run answers rest log) =
        λ log.
          load_segments-run rounds (i + 1) phdr log
            (λ j low high. ok j (omega (arith, low)) (omega (arith, high))) in
      elim (Bool-cases ((phdr i).kind == 1)) [
        | inr skip ↦ rw skip (later log)
        | inl load ↦
            let loadable = one_to_load (phdr i) load (ok i (omega arith) (omega arith)) in
            rw
              (
                load,
                load_segment-run (phdr i) log loadable,
                run-append answers (segment_calls (phdr i)) rest log,
              )
              (on_loaded-proceed (run answers (segment_calls (phdr i)) log) _ (run answers rest)
                later)
      ]

  enter-entered : (at : ℕ) (log : Log) → enter (calling answers) at log ≡ entered at log
  unfolding enter
  enter-entered at log = elim (Bool-cases (leb 0x1000000 at)) [
    | inr low ↦ let low' : ltb at 0x1000000 ≡ true = ground (arith, low) in rw (low, low') refl
    | inl high ↦ elim (Bool-cases (ltb at 0xc0000000)) [
      | inl below ↦
          let high' : ltb at 0x1000000 ≡ false = ground (arith, high) in
          rw (high, high', below) refl
      | inr above ↦
          let high' : ltb at 0x1000000 ≡ false = ground (arith, high) in
          rw (high, high', above) refl
    ]
  ]

  -- `on_loaded` in two steps.
  on_loaded-entered :
      (at : ℕ) (r r' : Status × Log)
      → r ≡ r'
      → on_loaded r (enter (calling answers) at) ≡ on_loaded r' (entered at)
  on_loaded-entered at r r' e i = on_loaded (e i) (λ log. enter-entered at log i)

  pub load_image-run :
      (h : Ehdr) (phdr : ℕ → Phdr) (log : Log)
      → ((j : ℕ) → j < h.phnum → ((phdr j).kind ≢ 1) ⊎ IsLoadable (phdr j) n)
      → load_image (calling answers) h phdr log
        ≡ on_loaded (status_of (run answers (image_calls h phdr) log)) (entered h.entry)
  unfolding load_image run proceed
  load_image-run h phdr log ok =
      let mapped = make answers (map_region 0x6ffff000 4096) log in
      let zeroed : Log → Bool × Log = make answers (zero_fill 0x6ffff000 4096) in
      let segments : Log → Status × Log = λ log.
        load_segments (calling answers) h.phnum 0 phdr
          ((stack_at 0x6ffff000 0x70000000, true) ∷ log) in
      let next : Log → Status × Log = enter (calling answers) h.entry in
      (λ i. after mapped (λ log. after-on_loaded (zeroed log) segments next i))
      ∙ (after-on_loaded mapped (λ log. after (zeroed log) segments) next
          ∙ on_loaded-entered h.entry _ _ (
              after-proceed mapped _ _ (λ log. after-proceed (zeroed log) _ _ (λ log.
                load_segments-run h.phnum 0 phdr ((stack_at 0x6ffff000 0x70000000, true) ∷ log)
                  (λ j _ less. ok j (omega (arith, less)))))))
