-- ===== src/Loader/Elf.antt =====
-- kernel/elf_loader.c: the checks of an ELF image, and its loading into a process.
pub mod Checks
pub mod Load
pub mod Segments
pub mod Sequence
mod Tests
use toyix.Loader.{
  Status, loaded, invalid, unsupported, too_large, load_failed, ProcessOperations, le16, le32,
  align_up_page, align_down_page, after, on_loaded,
}
use toyix.Prelude.{
  ℕ, zero, suc, ◌+◌, ◌-◌, ◌*◌, ◌%◌, ◌^◌, Bool, true, false, not, ◌&&◌, ◌||◌, ltb, ◌==◌,
  if◌then◌else◌, bit_and,
}

-- The fields of elf32_ehdr_t that the loader reads.
pub record Ehdr : Type 0 where
  pub ident : ℕ → ℕ
  pub kind : ℕ
  pub machine : ℕ
  pub version : ℕ
  pub entry : ℕ
  pub phoff : ℕ
  pub ehsize : ℕ
  pub phentsize : ℕ
  pub phnum : ℕ

-- The header is a cast of the start of the image.
pub read_ehdr : (ℕ → ℕ) → Ehdr
read_ehdr image = record {
  ident = λ i. image i;
  kind = le16 image 16;
  machine = le16 image 18;
  version = le32 image 20;
  entry = le32 image 24;
  phoff = le32 image 28;
  ehsize = le16 image 40;
  phentsize = le16 image 42;
  phnum = le16 image 44;
}

-- The fields of elf32_phdr_t that the loader reads.
pub record Phdr : Type 0 where
  pub kind : ℕ
  pub offset : ℕ
  pub vaddr : ℕ
  pub filesz : ℕ
  pub memsz : ℕ

-- `&program_headers[i]`
pub read_phdr : (ℕ → ℕ) → ℕ → ℕ → Phdr
read_phdr image phoff i =
    let at : ℕ = phoff + 32 * i in
    record {
      kind = le32 image at;
      offset = le32 image (at + 4);
      vaddr = le32 image (at + 8);
      filesz = le32 image (at + 16);
      memsz = le32 image (at + 20);
    }

abbrev pub range_overflows : ℕ → ℕ → Bool
range_overflows start size = ltb ((start + size) % 2 ^ 32) start

-- The first check of the header: size and magic number.
pub has_magic : Ehdr → Bool
has_magic h = h.ident 0 == 0x7f && (h.ident 1 == b'E' && (h.ident 2 == b'L' && h.ident 3 == b'F'))

-- The checks of the kind of executable: class, byte order, version, type and machine.
pub is_supported : Ehdr → Bool
is_supported h =
    h.ident 4 == 1
    && (h.ident 5 == 1 && (h.ident 6 == 1 && (h.kind == 2 && (h.machine == 3 && h.version == 1))))

pub validate_elf_header : Ehdr → ℕ → Status
validate_elf_header h image_size =
    let phdr_bytes : ℕ = h.phnum * 32 % 2 ^ 32 in
    if ltb image_size 52
    then invalid
    else if not (has_magic h)
    then invalid
    else if not (is_supported h)
    then unsupported
    else if not (h.ehsize == 52)
    then invalid
    else if h.phoff == 0 || h.phnum == 0
    then invalid
    else if not (h.phentsize == 32)
    then invalid
    else if range_overflows h.phoff phdr_bytes
    then invalid
    else if ltb image_size ((h.phoff + phdr_bytes) % 2 ^ 32)
    then invalid
    else loaded

pub validate_load_segment : Phdr → ℕ → Status
validate_load_segment p image_size =
    if not (p.kind == 1)
    then loaded
    else if p.memsz == 0
    then invalid
    else if ltb p.memsz p.filesz
    then invalid
    else if range_overflows p.offset p.filesz
    then invalid
    else if ltb image_size ((p.offset + p.filesz) % 2 ^ 32)
    then invalid
    else if range_overflows p.vaddr p.memsz
    then invalid
    else if ltb 0x100000 p.memsz
    then too_large
    else if ltb p.vaddr 0x1000000 || not (ltb p.vaddr 0xc0000000)
    then invalid
    else if ltb 0xc0000000 ((p.vaddr + p.memsz) % 2 ^ 32)
    then invalid
    else if not (bit_and p.vaddr 0xfff == 0)
    then unsupported
    else loaded

-- The first loop over the program headers, `rounds` of them from `i` on. The Boolean is `saw_load`.
pub validate_segments : (rounds i : ℕ) → (ℕ → Phdr) → ℕ → Bool → Status × Bool
validate_segments zero i phdr image_size saw_load = (loaded, saw_load)
validate_segments (suc rounds) i phdr image_size saw_load =
    on_loaded (validate_load_segment (phdr i) image_size, saw_load)
      (λ saw.
        validate_segments rounds (i + 1) phdr image_size (if (phdr i).kind == 1 then true else saw))

module _ {P : Type 0} (ops : ProcessOperations P) where
  pub load_segment : Phdr → P → Status × P
  load_segment p process =
      let start : ℕ = align_down_page p.vaddr in
      let end : ℕ = align_up_page ((p.vaddr + p.memsz) % 2 ^ 32) in
      after (ops.map_user_region process start ((end + 2 ^ 32 - start) % 2 ^ 32)) (λ mapped.
        after (ops.copy_to_user_init mapped p.vaddr p.offset p.filesz) (λ copied.
          if ltb p.filesz p.memsz
          then after
              (ops.zero_user_init copied ((p.vaddr + p.filesz) % 2 ^ 32) (p.memsz - p.filesz))
              (λ zeroed. (loaded, zeroed))
          else (loaded, copied)))

  -- The second loop over the program headers.
  pub load_segments : (rounds i : ℕ) → (ℕ → Phdr) → P → Status × P
  load_segments zero i phdr process = (loaded, process)
  load_segments (suc rounds) i phdr process =
      on_loaded (if (phdr i).kind == 1 then load_segment (phdr i) process else (loaded, process))
        (load_segments rounds (i + 1) phdr)

  -- The end of the loading: the entry point.
  pub enter : ℕ → P → Status × P
  enter entry process =
      if ltb entry 0x1000000 || not (ltb entry 0xc0000000)
      then (invalid, process)
      else (loaded, ops.set_user_entry (ops.set_code_base process entry) entry)

  -- The part of the loading that changes the process, once all checks have passed.
  pub load_image : Ehdr → (ℕ → Phdr) → P → Status × P
  load_image h phdr process =
      after (ops.map_user_region process (0x70000000 - 4096) 4096) (λ mapped.
        after (ops.zero_user_init mapped (0x70000000 - 4096) 4096) (λ zeroed.
          on_loaded
            (load_segments h.phnum 0 phdr
              (ops.set_user_stack zeroed (0x70000000 - 4096) 0x70000000))
            (enter h.entry)))

  -- `if (!saw_load) return ELF_LOADER_ERR_INVALID;`
  pub load_checked : Ehdr → (ℕ → Phdr) → P → Status × Bool → Status × P
  load_checked h phdr process (rc, saw_load) =
      on_loaded (rc, process)
        (λ process. if saw_load then load_image h phdr process else (invalid, process))

  -- The image and the process are not null.
  pub elf_load_process : (ℕ → ℕ) → ℕ → P → Status × P
  elf_load_process image image_size process =
      let h = read_ehdr image in
      let phdr = read_phdr image h.phoff in
      on_loaded (validate_elf_header h image_size, process)
        (λ process. load_checked h phdr process (validate_segments h.phnum 0 phdr image_size false))
