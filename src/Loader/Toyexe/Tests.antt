-- ===== src/Loader/Toyexe/Tests.antt =====
-- A small image in the kernel's own format, its loading, and instances of the theorems.
use toyix.Loader.{loaded, on_loaded, after, align_up_page}
use toyix.Loader.Calls.{
  map_region, copy_in, zero_fill, stack_at, enter_at, code_at, Answers, calling, AllMayCall,
}
use toyix.Loader.Toyexe.{
  read_header, toyexe_load_process, validate_header, load_image, fill_image, finish, stack_bytes,
}
use toyix.Loader.Toyexe.Sequence.{Loading, toyexe_load_process-Loading}
use toyix.Prelude.{ℕ, ◌≡◌, refl, true, [], ◌∷◌, get_or, arith}

-- A program of four bytes behind its header, with twelve of zeroed data.
abbrev toyexe_image : ℕ → ℕ
toyexe_image at =
    get_or
      (0x54 ∷ 0x58 ∷ 0x59 ∷ 0x45 ∷ 1 ∷ 0 ∷ 0 ∷ 0 ∷ 32 ∷ 0 ∷ 0 ∷ 0 ∷ 2 ∷ 0 ∷ 0 ∷ 0 ∷ 32 ∷ 0 ∷ 0 ∷ 0
        ∷ 4 ∷ 0 ∷ 0 ∷ 0 ∷ 12 ∷ 0 ∷ 0 ∷ 0 ∷ 0 ∷ 0 ∷ 0 ∷ 0 ∷ 0x90 ∷ 0x90 ∷ 0xcd ∷ 0x80 ∷ [])
      at 0

-- Every call succeeds.
abbrev yes : Answers
yes = λ log call. true

toyexe_run : toyexe_load_process (calling yes) toyexe_image 36 [] ≡ (
  loaded,
  (stack_at 0x6ffff000 0x70000000, true)
      ∷ (enter_at 0x40100002, true)
      ∷ (code_at 0x40100000, true)
      ∷ (zero_fill 0x40100004 12, true)
      ∷ (copy_in 0x40100000 32 4, true)
      ∷ (map_region 0x6ffff000 4096, true)
      ∷ (map_region 0x40100000 16, true)
      ∷ [],
)
unfolding toyexe_load_process on_loaded after validate_header read_header load_image fill_image
    finish stack_bytes align_up_page
toyexe_run = refl

toyexe_load_process-Loading_example :
    AllMayCall 36 (toyexe_load_process (calling yes) toyexe_image 36 []).1
    × Loading yes toyexe_image 36 (toyexe_load_process (calling yes) toyexe_image 36 [])
toyexe_load_process-Loading_example = toyexe_load_process-Loading yes toyexe_image 36 (omega arith)
