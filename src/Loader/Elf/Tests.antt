-- ===== src/Loader/Elf/Tests.antt =====
-- A small ELF image, its loading, and instances of the theorems.
use toyix.Loader.{loaded, on_loaded, after, align_up_page, align_down_page}
use toyix.Loader.Calls.{
  map_region, copy_in, zero_fill, stack_at, enter_at, code_at, Answers, calling, AllMayCall,
}
use toyix.Loader.Elf.{
  read_phdr, read_ehdr, elf_load_process, validate_elf_header, validate_load_segment, load_checked,
  has_magic, is_supported, validate_segments, load_image, load_segments, load_segment, enter,
}
use toyix.Loader.Elf.Sequence.{Loading, elf_load_process-Loading}
use toyix.Prelude.{ℕ, ◌≡◌, refl, true, [], ◌∷◌, get_or, arith}

-- An executable with one segment of four bytes of code and twelve of zeroed data.
abbrev elf_image : ℕ → ℕ
elf_image at =
    get_or
      (0x7f ∷ b'E' ∷ b'L' ∷ b'F' ∷ 1 ∷ 1 ∷ 1 ∷ 0 ∷ 0 ∷ 0 ∷ 0 ∷ 0 ∷ 0 ∷ 0 ∷ 0 ∷ 0 ∷ 2 ∷ 0 ∷ 3 ∷ 0 ∷ 1
        ∷ 0 ∷ 0 ∷ 0 ∷ 0 ∷ 0 ∷ 16 ∷ 64 ∷ 52 ∷ 0 ∷ 0 ∷ 0 ∷ 0 ∷ 0 ∷ 0 ∷ 0 ∷ 0 ∷ 0 ∷ 0 ∷ 0 ∷ 52 ∷ 0 ∷ 32
        ∷ 0 ∷ 1 ∷ 0 ∷ 0 ∷ 0 ∷ 0 ∷ 0 ∷ 0 ∷ 0 ∷ 1 ∷ 0 ∷ 0 ∷ 0 ∷ 84 ∷ 0 ∷ 0 ∷ 0 ∷ 0 ∷ 0 ∷ 16 ∷ 64 ∷ 0
        ∷ 0 ∷ 0 ∷ 0 ∷ 4 ∷ 0 ∷ 0 ∷ 0 ∷ 16 ∷ 0 ∷ 0 ∷ 0 ∷ 5 ∷ 0 ∷ 0 ∷ 0 ∷ 0 ∷ 16 ∷ 0 ∷ 0 ∷ 0x90 ∷ 0x90
        ∷ 0xcd ∷ 0x80 ∷ [])
      at 0

-- Every call succeeds.
abbrev yes : Answers
yes = λ log call. true

elf_run : elf_load_process (calling yes) elf_image 88 [] ≡ (
  loaded,
  (enter_at 0x40100000, true)
      ∷ (code_at 0x40100000, true)
      ∷ (zero_fill 0x40100004 12, true)
      ∷ (copy_in 0x40100000 84 4, true)
      ∷ (map_region 0x40100000 4096, true)
      ∷ (stack_at 0x6ffff000 0x70000000, true)
      ∷ (zero_fill 0x6ffff000 4096, true)
      ∷ (map_region 0x6ffff000 4096, true)
      ∷ [],
)
unfolding elf_load_process load_checked on_loaded after validate_elf_header has_magic is_supported
    read_ehdr read_phdr validate_segments validate_load_segment load_image load_segments
    load_segment enter align_up_page align_down_page
elf_run = refl

elf_load_process-Loading_example :
    AllMayCall 88 (elf_load_process (calling yes) elf_image 88 []).1
    × Loading yes elf_image 88 (elf_load_process (calling yes) elf_image 88 [])
elf_load_process-Loading_example = elf_load_process-Loading yes elf_image 88 (omega arith)
