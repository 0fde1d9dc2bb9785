-- ===== src/Loader/Elf/Load.antt =====
-- The loading of an ELF image keeps to the contract with the process.
use toyix.Loader.{loaded, ProcessOperations, align_up_page, align_down_page, on_loaded}
use toyix.Loader.Contract.{Contract, after-keeps, if-keeps, on_loaded-keeps, on_loaded-loaded}
use toyix.Loader.Elf.{
  Ehdr, Phdr, read_ehdr, read_phdr, validate_elf_header, validate_load_segment, validate_segments,
  load_segment, load_segments, enter, load_image, load_checked, elf_load_process,
}
use toyix.Loader.Elf.Checks.{IsLoadable, IsPhdr, validate_load_segment_iff}
use toyix.Bits.{and_fffff000}
use toyix.Prelude.{
  ℕ, zero, suc, ◌+◌, ◌-◌, ◌%◌, ◌^◌, ◌<◌, ◌≤◌, ◌≡◌, ◌≢◌, ◌⊎◌, inl, inr, Bool, true, false, not, ◌||◌,
  ltb, ◌==◌, if◌then◌else◌, arith,
}

-- The pages of a loadable segment start at its address, hold all of it and lie in user space.
pub segment_pages :
    (p : Phdr) (n : ℕ)
    → IsLoadable p n
    → (align_down_page p.vaddr ≡ p.vaddr)
      × (p.vaddr + p.memsz ≤ align_up_page ((p.vaddr + p.memsz) % 2 ^ 32))
      × (align_up_page ((p.vaddr + p.memsz) % 2 ^ 32) ≤ 0xc0000000)
unfolding align_up_page align_down_page
segment_pages p n (a, b, c, d, f, g, k) = ground (
  arith,
  and_fffff000 p.vaddr (omega arith),
  and_fffff000 (p.vaddr + p.memsz + 4095) (omega arith),
)

pub read_phdr-IsPhdr : (image : ℕ → ℕ) (phoff i : ℕ) → IsPhdr (read_phdr image phoff i)
unfolding read_phdr
read_phdr-IsPhdr image phoff i = ground arith

-- What the first loop has checked: each segment is not loaded, or is loadable.
pub validate_segments-checked :
    (rounds i : ℕ) (phdr : ℕ → Phdr) (n : ℕ) (saw : Bool)
    → ((j : ℕ) → IsPhdr (phdr j))
    → n < 2 ^ 32
    → (validate_segments rounds i phdr n saw).0 ≡ loaded
    → (j : ℕ) → i ≤ j
    → j < i + rounds
    → ((phdr j).kind ≢ 1) ⊎ IsLoadable (phdr j) n
unfolding validate_segments on_loaded
validate_segments-checked zero i phdr n saw words hn e j low high = absurd (omega arith)
validate_segments-checked (suc rounds) i phdr n saw words hn e j low high =
    let (first, rest) =
      on_loaded-loaded (validate_load_segment (phdr i) n, saw)
        (λ saw. validate_segments rounds (i + 1) phdr n (if (phdr i).kind == 1 then true else saw))
        e in
    let split : (j ≡ i) ⊎ (i + 1 ≤ j) = ground arith in
    elim split [
      | inl e ↦ rw e ((validate_load_segment_iff (phdr i) n (words i) hn).0 first)
      | inr later ↦
          validate_segments-checked rounds (i + 1) phdr n (if (phdr i).kind == 1 then true else saw)
            words hn rest j later (omega arith)
    ]

module _ {P : Type 0} (ops : ProcessOperations P) (n : ℕ) (C : Contract P ops n) where
  load_segment-keeps :
      (p : Phdr) (process : P)
      → IsLoadable p n
      → C.Inv process
      → C.Inv (load_segment ops p process).1
  unfolding load_segment
  load_segment-keeps p process ok kept =
      let (whole, fits, top) = segment_pages p n ok in
      let (_, file, _, small, low, _, _) = ok in
      let start : ℕ = align_down_page p.vaddr in
      let size : ℕ = (align_up_page ((p.vaddr + p.memsz) % 2 ^ 32) + 2 ^ 32 - start) % 2 ^ 32 in
      let exact : start + size ≡ align_up_page ((p.vaddr + p.memsz) % 2 ^ 32) = omega arith in
      after-keeps C.Inv (ops.map_user_region process start size) _
        (C.map_region process start size (omega arith, omega arith) kept)
        (λ mapped kept.
          let p1 = (ops.map_user_region process start size).1 in
          let usable : (a : ℕ) → p.vaddr ≤ a → a < p.vaddr + p.memsz → C.Mapped p1 a =
            λ a lo hi. C.map_mapped process start size a mapped (omega arith) (omega arith) in
          after-keeps C.Inv (ops.copy_to_user_init p1 p.vaddr p.offset p.filesz) _
            (C.copy p1 p.vaddr p.offset p.filesz (omega arith)
              (λ a lo hi. usable a lo (omega arith)) kept)
            (λ copied kept.
              let p2 = (ops.copy_to_user_init p1 p.vaddr p.offset p.filesz).1 in
              let dest : ℕ = (p.vaddr + p.filesz) % 2 ^ 32 in
              if-keeps C.Inv (ltb p.filesz p.memsz) _ _
                (λ more.
                  after-keeps C.Inv (ops.zero_user_init p2 dest (p.memsz - p.filesz)) _
                    (C.zero_bytes p2 dest (p.memsz - p.filesz)
                      (λ a lo hi.
                        C.copy_keeps p1 p.vaddr p.offset p.filesz a
                          (usable a (omega arith) (ground arith)))
                      kept)
                    (λ _ kept. kept))
                (λ _. kept)))

  load_segments-keeps :
      (rounds i : ℕ) (phdr : ℕ → Phdr) (process : P)
      → ((j : ℕ) → i ≤ j → j < i + rounds → ((phdr j).kind ≢ 1) ⊎ IsLoadable (phdr j) n)
      → C.Inv process
      → C.Inv (load_segments ops rounds i phdr process).1
  unfolding load_segments
  load_segments-keeps zero i phdr process checked kept = kept
  load_segments-keeps (suc rounds) i phdr process checked kept =
      on_loaded-keeps C.Inv
        (if (phdr i).kind == 1 then load_segment ops (phdr i) process else (loaded, process))
        (load_segments ops rounds (i + 1) phdr)
        (if-keeps C.Inv ((phdr i).kind == 1) _ _
          (λ load. elim (checked i (omega arith) (omega arith)) [
            | inl other ↦ absurd (ground arith)
            | inr ok ↦ load_segment-keeps (phdr i) process ok kept
          ])
          (λ _. kept))
        (λ _ kept.
          load_segments-keeps rounds (i + 1) phdr _
            (λ j lo hi. checked j (omega arith) (omega arith)) kept)

  enter-keeps : (at : ℕ) (process : P) → C.Inv process → C.Inv (enter ops at process).1
  unfolding enter
  enter-keeps at process kept =
      if-keeps C.Inv (ltb at 0x1000000 || not (ltb at 0xc0000000)) _ _ (λ _. kept)
        (λ inside.
          C.entry _ at (ground arith) (ground arith)
            (C.code_base process at (ground arith) (ground arith) kept))

  load_image-keeps :
      (h : Ehdr) (phdr : ℕ → Phdr) (process : P)
      → ((j : ℕ) → j < h.phnum → ((phdr j).kind ≢ 1) ⊎ IsLoadable (phdr j) n)
      → C.Inv process
      → C.Inv (load_image ops h phdr process).1
  unfolding load_image
  load_image-keeps h phdr process checked kept =
      after-keeps C.Inv (ops.map_user_region process (0x70000000 - 4096) 4096) _
        (C.map_region process (0x70000000 - 4096) 4096 (omega arith, omega arith) kept)
        (λ mapped kept.
          let p1 = (ops.map_user_region process (0x70000000 - 4096) 4096).1 in
          after-keeps C.Inv (ops.zero_user_init p1 (0x70000000 - 4096) 4096) _
            (C.zero_bytes p1 (0x70000000 - 4096) 4096
              (λ a lo hi.
                C.map_mapped process (0x70000000 - 4096) 4096 a mapped (omega arith) (omega arith))
              kept)
            (λ _ kept.
              let p2 = (ops.zero_user_init p1 (0x70000000 - 4096) 4096).1 in
              let p3 = ops.set_user_stack p2 (0x70000000 - 4096) 0x70000000 in
              on_loaded-keeps C.Inv (load_segments ops h.phnum 0 phdr p3) (enter ops h.entry)
                (load_segments-keeps h.phnum 0 phdr p3 (λ j _ hi. checked j (omega arith))
                  (C.stack p2 (0x70000000 - 4096) 0x70000000 (omega arith)
                    (omega arith, omega arith) kept))
                (λ _ kept. enter-keeps h.entry _ kept)))

  -- elf_load_process calls the operations of the process only as their contract asks, for any bytes of
  -- an image whose size is a 32-bit number: it maps regions of user space, copies from inside the image
  -- into mapped memory, zeroes mapped memory, and sets an entry point in user space. So it keeps what
  -- the operations keep.
  pub elf_load_process-keeps :
      (image : ℕ → ℕ) (process : P)
      → n < 2 ^ 32
      → C.Inv process
      → C.Inv (elf_load_process ops image n process).1
  unfolding elf_load_process load_checked
  elf_load_process-keeps image process hn kept =
      let h = read_ehdr image in
      let phdr = read_phdr image h.phoff in
      let out = validate_segments h.phnum 0 phdr n false in
      on_loaded-keeps C.Inv (validate_elf_header h n, process) _ kept
        (λ _ kept.
          on_loaded-keeps C.Inv (out.0, process) _ kept
            (λ passed kept.
              if-keeps C.Inv out.1 _ _
                (λ _.
                  load_image-keeps h phdr process
                    (λ j hi.
                      validate_segments-checked h.phnum 0 phdr n false
                        (read_phdr-IsPhdr image h.phoff) hn passed j (omega arith) (omega arith))
                    kept)
                (λ _. kept)))
