-- ===== src/Loader/Toyexe.antt =====
-- kernel/toyexe.c: the checks of an image in the kernel's own format, and its loading.
pub mod Checks
pub mod Load
pub mod Sequence
mod Tests
use toyix.Loader.{
  Status, loaded, invalid, unsupported, too_large, load_failed, ProcessOperations, le32,
  align_up_page, after, on_loaded,
}
use toyix.Prelude.{ℕ, ◌+◌, ◌-◌, ◌*◌, ◌%◌, ◌^◌, Bool, true, false, not, ltb, ◌==◌, if◌then◌else◌}

-- toyexe_header_t
pub record Header : Type 0 where
  pub magic : ℕ
  pub version : ℕ
  pub header_size : ℕ
  pub entry_offset : ℕ
  pub image_offset : ℕ
  pub image_size : ℕ
  pub bss_size : ℕ
  pub stack_size : ℕ

pub read_header : (ℕ → ℕ) → Header
read_header image = record {
  magic = le32 image 0;
  version = le32 image 4;
  header_size = le32 image 8;
  entry_offset = le32 image 12;
  image_offset = le32 image 16;
  image_size = le32 image 20;
  bss_size = le32 image 24;
  stack_size = le32 image 28;
}

pub validate_header : Header → ℕ → Status
validate_header h file_size =
    if not (h.magic == 0x45595854)
    then invalid
    else if not (h.version == 1)
    then unsupported
    else if ltb h.header_size 32
    then invalid
    else if ltb file_size h.header_size
    then invalid
    else if ltb h.image_offset h.header_size
    then invalid
    else if ltb file_size h.image_offset
    then invalid
    else if h.image_size == 0
    then invalid
    else if ltb ((h.image_offset + h.image_size) % 2 ^ 32) h.image_offset
    then invalid
    else if ltb file_size ((h.image_offset + h.image_size) % 2 ^ 32)
    then invalid
    else if not (ltb h.entry_offset h.image_size)
    then invalid
    else if ltb ((h.image_size + h.bss_size) % 2 ^ 32) h.image_size
    then invalid
    else if ltb 0x100000 ((h.image_size + h.bss_size) % 2 ^ 32)
    then too_large
    else if ltb 0x100000 h.stack_size
    then too_large
    else loaded

-- `stack_size`, with its default, in whole pages.
pub stack_bytes : Header → ℕ
stack_bytes h = align_up_page (if h.stack_size == 0 then 4096 else h.stack_size)

module _ {P : Type 0} (ops : ProcessOperations P) where
  -- The last assignments of the loading.
  pub finish : Header → P → P
  finish h process =
      let based = ops.set_code_base process 0x40100000 in
      let entered = ops.set_user_entry based ((0x40100000 + h.entry_offset) % 2 ^ 32) in
      ops.set_user_stack entered ((0x70000000 + 2 ^ 32 - stack_bytes h) % 2 ^ 32) 0x70000000

  -- The copy of the program and its zeroed data.
  pub fill_image : Header → P → Status × P
  fill_image h process =
      after (ops.copy_to_user_init process 0x40100000 h.image_offset h.image_size) (λ copied.
        if not (h.bss_size == 0)
        then after (ops.zero_user_init copied ((0x40100000 + h.image_size) % 2 ^ 32) h.bss_size)
            (λ zeroed. (loaded, finish h zeroed))
        else (loaded, finish h copied))

  -- The part of the loading that changes the process, once all checks have passed.
  pub load_image : Header → P → Status × P
  load_image h process =
      let runtime_size : ℕ = (h.image_size + h.bss_size) % 2 ^ 32 in
      let stack_base : ℕ = (0x70000000 + 2 ^ 32 - stack_bytes h) % 2 ^ 32 in
      if runtime_size == 0
      then (invalid, process)
      else after (ops.map_user_region process 0x40100000 runtime_size)
          (λ mapped. after (ops.map_user_region mapped stack_base (stack_bytes h)) (fill_image h))

  -- The image and the process are not null.
  pub toyexe_load_process : (ℕ → ℕ) → ℕ → P → Status × P
  toyexe_load_process image image_size process =
      let h = read_header image in
      if ltb image_size 32
      then (invalid, process)
      else on_loaded (validate_header h image_size, process) (load_image h)
