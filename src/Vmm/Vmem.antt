-- ===== src/Vmm/Vmem.antt =====
-- kernel/vmem.c: the names by which the rest of the kernel calls the mapper, with flags and results
-- of their own.
use toyix.Prelude.{
  ℕ, ◌+◌, ◌*◌, ◌/◌, ◌%◌, ◌^◌, ◌<◌, ◌≡◌, bit_and, bit_or, Bool, not, arith, ◌==◌, if◌then◌else◌,
}
use toyix.Bits.{and_1, and_2, and_4}
use toyix.Vmm
use toyix.Vmm.{Vmm, Status, page_entry}
use toyix.Vmm.Spec.{page_entry_lem}
use toyix.Vmm.Map.{Mapped}
use toyix.Vmm.Translate.{get_flags_lem}

-- VMEM_FLAG_WRITABLE is 1 and VMEM_FLAG_USER is 2; X86_PAGE_WRITABLE is 2 and X86_PAGE_USER is 4.
unfoldable pub to_arch_flags : ℕ → ℕ
to_arch_flags flags =
    let writable : ℕ = if bit_and flags 1 == 0 then 0 else bit_or 0 2 in
    if bit_and flags 2 == 0 then writable else bit_or writable 4

pub from_arch_flags : ℕ → ℕ
from_arch_flags arch_flags =
    let writable : ℕ = if bit_and arch_flags 2 == 0 then 0 else bit_or 0 1 in
    if bit_and arch_flags 4 == 0 then writable else bit_or writable 2

-- The result codes of the two layers have the same names.
unfoldable pub map_page : (virtual physical flags : ℕ) → Vmm → Status × Vmm
map_page virtual physical flags s = Vmm.map_page virtual physical (to_arch_flags flags) s

pub get_flags : ℕ → Vmm → ℕ
get_flags virtual s = from_arch_flags (Vmm.get_flags virtual s)

pub is_user_accessible : ℕ → Vmm → Bool
is_user_accessible virtual s = not (bit_and (get_flags virtual s) 2 == 0)

to_arch_flags_lem : (f : ℕ) → to_arch_flags f ≡ f % 2 * 2 + f / 2 % 2 * 4
unfolding to_arch_flags
to_arch_flags_lem f = ground (arith, and_1 f, and_2 f)

from_arch_flags_lem : (f : ℕ) → from_arch_flags f ≡ f / 2 % 2 + f / 4 % 2 * 2
unfolding from_arch_flags
from_arch_flags_lem f = ground (arith, and_2 f, and_4 f)

-- The flags with which a page is mapped through vmem_map_page are those that vmem_get_flags returns
-- for it, so the page is accessible from user mode exactly if VMEM_FLAG_USER was among them.
get_flags-map_page :
    {s : Vmm} (virtual physical flags : ℕ)
    → virtual < 2 ^ 32
    → physical < 2 ^ 32
    → physical % 4096 ≡ 0
    → Mapped s virtual physical (to_arch_flags flags) (map_page virtual physical flags s)
    → (get_flags virtual (map_page virtual physical flags s).1 ≡ flags % 4)
      × (is_user_accessible virtual (map_page virtual physical flags s).1
          ≡ not (flags / 2 % 2 == 0))
unfolding map_page get_flags is_user_accessible
get_flags-map_page {s} virtual physical flags hv hp ep m =
    let a = to_arch_flags flags in
    let seen : get_flags virtual (map_page virtual physical flags s).1 ≡ flags % 4 = ground (
      arith,
      get_flags_lem m.valid virtual,
      m.seen virtual hv,
      page_entry_lem physical a hp ep,
      to_arch_flags_lem flags,
      from_arch_flags_lem (a % 4096 / 2 * 2 + 1),
    ) in
    (seen, ground (arith, seen, and_2 (flags % 4)))
