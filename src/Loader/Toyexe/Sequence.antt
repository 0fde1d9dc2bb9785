-- ===== src/Loader/Toyexe/Sequence.antt =====
-- Which calls toyexe_load_process makes to the process, for which images.
use toyix.Bits.{and_fffff000}
use toyix.Loader.{Status, loaded, on_loaded, align_up_page}
use toyix.Loader.Calls.{
  Call, map_region, copy_in, zero_fill, stack_at, enter_at, code_at, Log, Answers, calling, make,
  AllMayCall, calling_contract, run, proceed, status_of, after-proceed, status_cases,
}
use toyix.Loader.Toyexe.{
  Header, read_header, validate_header, stack_bytes, finish, fill_image, load_image,
  toyexe_load_process,
}
use toyix.Loader.Toyexe.Checks.{IsHeader, validate_header_iff, stack_bytes-bounds}
use toyix.Loader.Toyexe.Load.{read_header-IsWords, toyexe_load_process-keeps}
use toyix.Prelude.{
  ℕ, ◌+◌, ◌-◌, ◌*◌, ◌/◌, ◌%◌, ◌^◌, ◌<◌, ◌≤◌, ◌≡◌, ◌≢◌, ◌⊎◌, inl, inr, refl, ap, true, false, ltb,
  ◌==◌, if◌then◌else◌, Bool-cases, List, [], ◌∷◌, ◌++◌, arith,
}

-- The stack in whole pages, a page where the header asks for none.
abbrev pub stack_size : Header → ℕ
stack_size h = if h.stack_size == 0 then 4096 else (h.stack_size + 4095) / 4096 * 4096

-- The program is copied, its other data zeroed, and the entry point and the stack are set.
abbrev pub fill_calls : Header → List Call
fill_calls h =
    copy_in 0x40100000 h.image_offset h.image_size
    ∷ ((if h.bss_size == 0 then [] else zero_fill (0x40100000 + h.image_size) h.bss_size ∷ [])
        ++ (code_at 0x40100000
            ∷ enter_at (0x40100000 + h.entry_offset)
            ∷ stack_at (0x70000000 - stack_size h) 0x70000000
            ∷ []))

-- The program and its zeroed data lie at 0x40100000, and the stack ends at 0x70000000.
abbrev pub image_calls : Header → List Call
image_calls h =
    map_region 0x40100000 (h.image_size + h.bss_size)
    ∷ map_region (0x70000000 - stack_size h) (stack_size h)
    ∷ fill_calls h

abbrev pub Loading : Answers → (image : ℕ → ℕ) → (n : ℕ) → Status × Log → Type 0
Loading answers image n out =
    ((32 ≤ n)
      × IsHeader (read_header image) n
      × (out ≡ status_of (run answers (image_calls (read_header image)) [])))
    ⊎ ((¬ ((32 ≤ n) × IsHeader (read_header image) n)) × (out.0 ≢ loaded) × (out.1 ≡ []))

stack_bytes_lem : (h : Header) → h.stack_size ≤ 0x100000 → stack_bytes h ≡ stack_size h
unfolding stack_bytes align_up_page
stack_bytes_lem h le = ground (
  arith,
  and_fffff000 (4096 + 4095) (omega arith),
  and_fffff000 (h.stack_size + 4095) (omega (arith, le)),
)

module _ (answers : Answers) (n : ℕ) where
  finish_lem :
      (h : Header) (log : Log)
      → IsHeader h n
      → finish (calling answers) h log
        ≡ (stack_at (0x70000000 - stack_size h) 0x70000000, true)
          ∷ (enter_at (0x40100000 + h.entry_offset), true)
          ∷ (code_at 0x40100000, true)
          ∷ log
  unfolding finish
  finish_lem h log (_, _, _, _, _, entry, whole, stack) =
      let (some_pages, bounded) = stack_bytes-bounds h stack in
      let base : (0x70000000 + 2 ^ 32 - stack_bytes h) % 2 ^ 32 ≡ 0x70000000 - stack_bytes h =
        omega (arith, some_pages, bounded) in
      let start : (0x40100000 + h.entry_offset) % 2 ^ 32 ≡ 0x40100000 + h.entry_offset =
        omega (arith, entry, whole) in
      rw (base, start, stack_bytes_lem h stack) refl

  fill_image-run :
      (h : Header) (log : Log)
      → IsHeader h n
      → fill_image (calling answers) h log ≡ status_of (run answers (fill_calls h) log)
  unfolding fill_image run proceed
  fill_image-run h log ok =
      after-proceed (make answers (copy_in 0x40100000 h.image_offset h.image_size) log) _ _ (λ log.
        elim (Bool-cases (h.bss_size == 0)) [
          | inl empty ↦ rw empty (ap (λ log. (loaded, log)) (finish_lem h log ok))
          | inr more ↦
              let (_, _, _, _, _, _, whole, _) = ok in
              let end : (0x40100000 + h.image_size) % 2 ^ 32 ≡ 0x40100000 + h.image_size =
                omega (arith, whole) in
              rw (more, end)
                (after-proceed (make answers (zero_fill (0x40100000 + h.image_size) h.bss_size) log)
                  _ _ (λ log. ap (λ log. (loaded, log)) (finish_lem h log ok)))
        ])

  load_image-run :
      (h : Header) (log : Log)
      → IsHeader h n
      → load_image (calling answers) h log ≡ status_of (run answers (image_calls h) log)
  unfolding load_image run
  load_image-run h log ok =
      let (_, _, _, _, _, entry, whole, stack) = ok in
      let (some_pages, bounded) = stack_bytes-bounds h stack in
      let some_bytes : (h.image_size + h.bss_size == 0) ≡ false = ground (arith, entry) in
      let runtime : (h.image_size + h.bss_size) % 2 ^ 32 ≡ h.image_size + h.bss_size =
        omega (arith, whole) in
      let base : (0x70000000 + 2 ^ 32 - stack_bytes h) % 2 ^ 32 ≡ 0x70000000 - stack_bytes h =
        omega (arith, some_pages, bounded) in
      rw (runtime, some_bytes, base, stack_bytes_lem h stack)
        (after-proceed (make answers (map_region 0x40100000 (h.image_size + h.bss_size)) log) _ _
          (λ log.
            after-proceed (make answers (map_region (0x70000000 - stack_size h) (stack_size h)) log)
              _ _ (λ log. fill_image-run h log ok)))

-- Whatever the process answers, for any bytes of an image whose size is a 32-bit number, the calls that
-- toyexe_load_process makes are proper ones: regions, the stack and the entry point lie in user space,
-- what is copied lies inside the image, and what is written has been mapped. For an image with a proper
-- header, the calls are those for the program and its stack, up to the first that fails, which is the
-- result; when all succeed, the image is loaded, with its entry point and its stack set. Any other image
-- is refused without a call.
pub toyexe_load_process-Loading :
    (answers : Answers) (image : ℕ → ℕ) (n : ℕ)
    → n < 2 ^ 32
    → AllMayCall n (toyexe_load_process (calling answers) image n []).1
      × Loading answers image n (toyexe_load_process (calling answers) image n [])
unfolding toyexe_load_process on_loaded
toyexe_load_process-Loading answers image n small =
    let h = read_header image in
    let iff = validate_header_iff h n (read_header-IsWords image) small in
    (
      toyexe_load_process-keeps (calling answers) n (calling_contract answers n) image [] small tt,
      elim (Bool-cases (ltb n 32)) [
        | inl short ↦ rw short (inr (λ p. ground (arith, short, p.0), λ e. cc, refl))
        | inr long ↦ rw long (elim (status_cases (validate_header h n)) [
          | inl passed ↦
              let proper = iff.0 passed in
              rw passed (inl (ground (arith, long), proper, load_image-run answers n h [] proper))
          | inr (other, same) ↦
              rw (same [] (load_image (calling answers) h))
                (inr (λ p. other (iff.1 p.1), other, refl))
        ])
      ],
    )
