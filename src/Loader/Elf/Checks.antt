-- ===== src/Loader/Elf/Checks.antt =====
-- What the checks of an ELF image accept (validate_elf_header, validate_load_segment).
use toyix.Loader.{loaded}
use toyix.Loader.Elf.{
  Ehdr, Phdr, has_magic, is_supported, validate_elf_header, validate_load_segment,
}
use toyix.Prelude.{ℕ, ◌+◌, ◌*◌, ◌%◌, ◌^◌, ◌<◌, ◌≤◌, ◌≡◌, ◌≢◌, ◌↔◌, ◌⊎◌, inl, inr, arith}
use toyix.Bits.{and_fff}

-- The magic number: 0x7f and the letters of ELF.
abbrev pub HasMagic : Ehdr → Type 0
HasMagic h = (h.ident 0 ≡ 0x7f) × (h.ident 1 ≡ b'E') × (h.ident 2 ≡ b'L') × (h.ident 3 ≡ b'F')

-- A little-endian executable of 32 bits, of version 1, for the 80386.
abbrev pub IsSupported : Ehdr → Type 0
IsSupported h =
    (h.ident 4 ≡ 1)
    × (h.ident 5 ≡ 1)
    × (h.ident 6 ≡ 1)
    × (h.kind ≡ 2)
    × (h.machine ≡ 3)
    × (h.version ≡ 1)

-- A header of the supported kind whose table of program headers lies inside the image.
abbrev pub IsHeader : Ehdr → ℕ → Type 0
IsHeader h n =
    HasMagic h
    × IsSupported h
    × (h.ehsize ≡ 52)
    × (h.phentsize ≡ 32)
    × (0 < h.phoff)
    × (0 < h.phnum)
    × (52 ≤ n)
    × (h.phoff + 32 * h.phnum ≤ n)

-- The file part of a segment lies inside the image; its memory part, of at most 1 MiB, starts at a
-- page and lies inside user space.
abbrev pub IsLoadable : Phdr → ℕ → Type 0
IsLoadable p n =
    (0 < p.memsz)
    × (p.filesz ≤ p.memsz)
    × (p.offset + p.filesz ≤ n)
    × (p.memsz ≤ 0x100000)
    × (0x1000000 ≤ p.vaddr)
    × (p.vaddr + p.memsz ≤ 0xc0000000)
    × (p.vaddr % 4096 ≡ 0)

-- The fields of the program header are 32-bit numbers.
abbrev pub IsPhdr : Phdr → Type 0
IsPhdr p = (p.offset < 2 ^ 32) × (p.vaddr < 2 ^ 32) × (p.filesz < 2 ^ 32) × (p.memsz < 2 ^ 32)

-- For fields and an image size of 32 bits, validate_load_segment accepts exactly the segments that are
-- not loaded and those whose parts lie inside the image and inside user space, at a page boundary.
pub validate_load_segment_iff :
    (p : Phdr) (n : ℕ)
    → IsPhdr p
    → n < 2 ^ 32
    → (validate_load_segment p n ≡ loaded) ↔ ((p.kind ≢ 1) ⊎ IsLoadable p n)
unfolding validate_load_segment
validate_load_segment_iff p n (ho, hv, hf, hm) hn = (
  λ e. ground (arith, and_fff p.vaddr),
  λ h. elim h [
    | inl other ↦ ground arith
    | inr (a, b, c, d, f, g, k) ↦ ground (arith, and_fff p.vaddr)
  ],
)

-- For an offset, a number of program headers and an image size of their machine widths,
-- validate_elf_header accepts exactly the headers of the supported kind whose table of program headers
-- is not empty and lies inside the image.
pub validate_elf_header_iff :
    (h : Ehdr) (n : ℕ)
    → h.phoff < 2 ^ 32
    → h.phnum < 2 ^ 16
    → n < 2 ^ 32
    → (validate_elf_header h n ≡ loaded) ↔ IsHeader h n
unfolding validate_elf_header has_magic is_supported
validate_elf_header_iff h n ho hp hn =
    (λ e. ground arith, λ ((m, o, p, q), (r, s, t, u, v, w), c, d, f, g, k, l). ground arith)
