-- ===== src/Loader.antt =====
-- What the two program loaders (kernel/elf_loader.c and kernel/toyexe.c) share: their results, the
-- operations of a process that they call (kernel/process.c), and the numbers read from an image.
pub mod Elf
pub mod Toyexe
pub mod Contract
pub mod Calls
use toyix.Prelude.{ℕ, zero, suc, ◌+◌, ◌*◌, ◌%◌, ◌^◌, bit_and, Bool, true, false}

-- ELF_LOADER_OK, TOYEXE_OK and the errors of the two headers, which have the same numbers.
pub data Status : Type 0 where
  loaded : Status
  invalid : Status
  unsupported : Status
  too_large : Status
  load_failed : Status

-- The operations of a process `P` that a loader calls; The Boolean says whether the result is 0.
pub record ProcessOperations (P : Type 0) : Type 0 where
  pub map_user_region : P → ℕ → ℕ → Bool × P
  -- The target address, the offset of the source in the image, and the size.
  pub copy_to_user_init : P → ℕ → ℕ → ℕ → Bool × P
  pub zero_user_init : P → ℕ → ℕ → Bool × P
  pub set_user_stack : P → ℕ → ℕ → P
  pub set_user_entry : P → ℕ → P
  pub set_code_base : P → ℕ → P

-- Little-endian fields of the image.
abbrev pub le16 : (ℕ → ℕ) → ℕ → ℕ
le16 image at = (image at + 256 * image (at + 1)) % 2 ^ 16

abbrev pub le32 : (ℕ → ℕ) → ℕ → ℕ
le32 image at =
    (image at + 256 * image (at + 1) + 65536 * image (at + 2) + 16777216 * image (at + 3)) % 2 ^ 32

-- `(value + PMM_PAGE_SIZE - 1u) & ~(PMM_PAGE_SIZE - 1u)`
pub align_up_page : ℕ → ℕ
align_up_page value = bit_and ((value + 4095) % 2 ^ 32) 0xfffff000

pub align_down_page : ℕ → ℕ
align_down_page value = bit_and value 0xfffff000

-- `if (call != 0) return LOAD_FAILED;`, and what comes after it.
pub after : {P : Type 0} → Bool × P → (P → Status × P) → Status × P
after (false, process) next = (load_failed, process)
after (true, process) next = next process

-- `if (rc != OK) return rc;`, and what comes after it.
pub on_loaded : {P : Type 0} → Status × P → (P → Status × P) → Status × P
on_loaded (loaded, process) next = next process
on_loaded (invalid, process) next = (invalid, process)
on_loaded (unsupported, process) next = (unsupported, process)
on_loaded (too_large, process) next = (too_large, process)
on_loaded (load_failed, process) next = (load_failed, process)
