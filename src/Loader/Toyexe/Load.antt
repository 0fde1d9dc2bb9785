-- ===== src/Loader/Toyexe/Load.antt =====
-- The loading of an image in the kernel's own format keeps to the contract with the process.
use toyix.Loader.{ProcessOperations}
use toyix.Loader.Contract.{Contract, after-keeps, if-keeps, on_loaded-keeps}
use toyix.Loader.Toyexe.{
  Header, read_header, validate_header, stack_bytes, finish, fill_image, load_image,
  toyexe_load_process,
}
use toyix.Loader.Toyexe.Checks.{IsHeader, IsWords, validate_header_iff, stack_bytes-bounds}
use toyix.Prelude.{ℕ, ◌+◌, ◌-◌, ◌%◌, ◌^◌, ◌<◌, ◌≤◌, not, ltb, ◌==◌, arith}

pub read_header-IsWords : (image : ℕ → ℕ) → IsWords (read_header image)
unfolding read_header
read_header-IsWords image = ground arith

module _ {P : Type 0} (ops : ProcessOperations P) (n : ℕ) (C : Contract P ops n) where
  finish-keeps :
      (h : Header) (process : P) → IsHeader h n → C.Inv process → C.Inv (finish ops h process)
  unfolding finish
  finish-keeps h process (_, _, _, _, _, entry, whole, stack) kept =
      let (some_pages, bounded) = stack_bytes-bounds h stack in
      let base : ℕ = (0x70000000 + 2 ^ 32 - stack_bytes h) % 2 ^ 32 in
      C.stack _ base 0x70000000 (omega arith) (omega arith, omega arith)
        (C.entry _ ((0x40100000 + h.entry_offset) % 2 ^ 32) (omega arith) (omega arith)
          (C.code_base process 0x40100000 (omega arith) (omega arith) kept))

  fill_image-keeps :
      (h : Header) (process : P)
      → IsHeader h n
      → ((a : ℕ)
          → 0x40100000 ≤ a
          → a < 0x40100000 + (h.image_size + h.bss_size)
          → C.Mapped process a)
      → C.Inv process
      → C.Inv (fill_image ops h process).1
  unfolding fill_image
  fill_image-keeps h process ok usable kept =
      let (_, _, _, _, file, _, whole, _) = ok in
      after-keeps C.Inv (ops.copy_to_user_init process 0x40100000 h.image_offset h.image_size) _
        (C.copy process 0x40100000 h.image_offset h.image_size (omega arith)
          (λ a lo hi. usable a lo (omega arith)) kept)
        (λ _ kept.
          let p1 = (ops.copy_to_user_init process 0x40100000 h.image_offset h.image_size).1 in
          let dest : ℕ = (0x40100000 + h.image_size) % 2 ^ 32 in
          if-keeps C.Inv (not (h.bss_size == 0)) _ _
            (λ _.
              after-keeps C.Inv (ops.zero_user_init p1 dest h.bss_size) _
                (C.zero_bytes p1 dest h.bss_size
                  (λ a lo hi.
                    C.copy_keeps process 0x40100000 h.image_offset h.image_size a
                      (usable a (omega arith) (omega arith)))
                  kept)
                (λ _ kept. finish-keeps h _ ok kept))
            (λ _. finish-keeps h _ ok kept))

  load_image-keeps :
      (h : Header) (process : P) → IsHeader h n → C.Inv process → C.Inv (load_image ops h process).1
  unfolding load_image
  load_image-keeps h process ok kept =
      let (_, _, _, _, _, _, whole, stack) = ok in
      let (some_pages, bounded) = stack_bytes-bounds h stack in
      let size : ℕ = (h.image_size + h.bss_size) % 2 ^ 32 in
      let base : ℕ = (0x70000000 + 2 ^ 32 - stack_bytes h) % 2 ^ 32 in
      if-keeps C.Inv (size == 0) _ _ (λ _. kept)
        (λ _.
          after-keeps C.Inv (ops.map_user_region process 0x40100000 size) _
            (C.map_region process 0x40100000 size (omega arith, omega arith) kept)
            (λ mapped kept.
              let p1 = (ops.map_user_region process 0x40100000 size).1 in
              after-keeps C.Inv (ops.map_user_region p1 base (stack_bytes h)) _
                (C.map_region p1 base (stack_bytes h) (omega arith, omega arith) kept)
                (λ _ kept.
                  fill_image-keeps h _ ok
                    (λ a lo hi.
                      C.map_keeps p1 base (stack_bytes h) a
                        (C.map_mapped process 0x40100000 size a mapped lo (omega arith)))
                    kept)))

  -- toyexe_load_process calls the operations of the process only as their contract asks, for any bytes
  -- of an image whose size is a 32-bit number: it maps regions of user space, copies from inside the
  -- image into mapped memory, zeroes mapped memory, and sets a stack and an entry point in user space.
  -- So it keeps what the operations keep.
  pub toyexe_load_process-keeps :
      (image : ℕ → ℕ) (process : P)
      → n < 2 ^ 32
      → C.Inv process
      → C.Inv (toyexe_load_process ops image n process).1
  unfolding toyexe_load_process
  toyexe_load_process-keeps image process hn kept =
      let h = read_header image in
      if-keeps C.Inv (ltb n 32) _ _ (λ _. kept)
        (λ _.
          on_loaded-keeps C.Inv (validate_header h n, process) (load_image ops h) kept
            (λ passed kept.
              load_image-keeps h process
                ((validate_header_iff h n (read_header-IsWords image) hn).0 passed) kept))
