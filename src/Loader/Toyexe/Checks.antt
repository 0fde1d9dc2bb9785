-- ===== src/Loader/Toyexe/Checks.antt =====
-- What the checks of an image in the kernel's own format accept (validate_header).
use toyix.Loader.{loaded, align_up_page}
use toyix.Loader.Toyexe.{Header, validate_header, stack_bytes}
use toyix.Prelude.{ℕ, ◌+◌, ◌^◌, ◌<◌, ◌≤◌, ◌≡◌, ◌↔◌, arith}
use toyix.Bits.{and_fffff000}

-- The program lies inside the file, behind the header; with its zeroed data it takes at most 1 MiB, as
-- does the stack; the entry point lies inside the program.
abbrev pub IsHeader : Header → ℕ → Type 0
IsHeader h n =
    (h.magic ≡ 0x45595854)
    × (h.version ≡ 1)
    × (32 ≤ h.header_size)
    × (h.header_size ≤ h.image_offset)
    × (h.image_offset + h.image_size ≤ n)
    × (h.entry_offset < h.image_size)
    × (h.image_size + h.bss_size ≤ 0x100000)
    × (h.stack_size ≤ 0x100000)

-- The fields that the checks add are 32-bit numbers.
abbrev pub IsWords : Header → Type 0
IsWords h = (h.image_offset < 2 ^ 32) × (h.image_size < 2 ^ 32) × (h.bss_size < 2 ^ 32)

-- For fields and a file size of 32 bits, validate_header accepts exactly the headers whose program lies
-- inside the file, with the entry point inside the program, and whose program and stack take at most
-- 1 MiB each.
pub validate_header_iff :
    (h : Header) (n : ℕ) → IsWords h → n < 2 ^ 32 → (validate_header h n ≡ loaded) ↔ IsHeader h n
unfolding validate_header
validate_header_iff h n (ho, hi, hb) hn =
    (λ e. ground arith, λ (a, b, c, d, f, g, k, l). ground arith)

-- The stack takes at least one page and at most 1 MiB, in whole pages.
pub stack_bytes-bounds :
    (h : Header) → h.stack_size ≤ 0x100000 → (4096 ≤ stack_bytes h) × (stack_bytes h ≤ 0x100000)
unfolding stack_bytes align_up_page
stack_bytes-bounds h le = ground (
  arith,
  and_fffff000 (4096 + 4095) (omega arith),
  and_fffff000 (h.stack_size + 4095) (omega arith),
)
