-- ===== src/Vmm.antt =====
-- arch/x86/vmm.c and kernel/vmem.c: mapping pages in the kernel's address space.
-- The page tables are words of physical memory, which the kernel reaches through the identity map.
-- Invalidating the TLB and reloading CR3 change no memory and are left out.
pub mod Spec
pub mod Table
pub mod Map
pub mod Unmap
pub mod Translate
pub mod Vmem
mod Tests
use toyix.Prelude.{
  ℕ, ◌+◌, ◌-◌, ◌*◌, ◌/◌, ◌%◌, ◌^◌, bit_and, bit_or, Bool, true, false, not, ◌&&◌, ◌||◌, ltb, ◌==◌,
  if◌then◌else◌, update, Result, ok, panic, ◌>>=◌, ◌>>◌, require,
}
use toyix.PageTable.{Memory, zero_page}
use toyix.Pmm
use toyix.Pmm.{Pmm}

-- The results VMM_OK, VMM_ERR_INVALID, VMM_ERR_NO_MEMORY, VMM_ERR_ALREADY_MAPPED, VMM_ERR_NOT_MAPPED.
pub data Status : Type 0 where
  done invalid no_memory already_mapped not_mapped : Status

-- `directory` is the physical address of the page directory, `pmm` the page allocator.
pub record Vmm : Type 0 where
  pub memory : Memory
  pub directory : ℕ
  pub mapped_page_count : ℕ
  pub pmm : Pmm

unfoldable pub is_page_aligned : ℕ → Bool
is_page_aligned value = bit_and value 0xfff == 0

abbrev pub directory_index : ℕ → ℕ
directory_index virtual = virtual / 2 ^ 22

unfoldable pub table_index : ℕ → ℕ
table_index virtual = bit_and (virtual / 2 ^ 12) 0x3ff

unfoldable pub table_from_pde : ℕ → ℕ
table_from_pde entry = bit_and entry 0xfffff000

-- `(entry & X86_PAGE_PRESENT) != 0`
unfoldable pub entry_present : ℕ → Bool
entry_present entry = not (bit_and entry 1 == 0)

-- The flags of a new directory entry: present and writable, and user if asked for.
unfoldable pub table_flags : ℕ → ℕ
table_flags flags =
    let kernel_flags : ℕ = bit_or 1 2 in
    if bit_and flags 4 == 0 then kernel_flags else bit_or kernel_flags 4

-- A null pointer is the address 0.
pub get_or_create_page_table : (dir_index flags : ℕ) → Vmm → ℕ × Vmm
get_or_create_page_table dir_index flags s =
    let entry : ℕ = s.memory (s.directory + 4 * dir_index) in
    let (table_phys, pmm) = Pmm.alloc_page_below 0x1000000 s.pmm in
    if entry_present entry
    then (table_from_pde entry, s)
    else if table_phys == Pmm.invalid_page
    then (0, record s { pmm = pmm })
    else (
      table_phys,
      record s {
        memory =
            update (zero_page s.memory table_phys) (s.directory + 4 * dir_index)
              (bit_or (bit_and table_phys 0xfffff000) (table_flags flags));
        pmm = pmm;
      },
    )

-- `paging_get_kernel_directory` gives the address of the directory.
pub init : (kernel_directory : ℕ) → Vmm → Result Vmm
init kernel_directory s = do
  require (not (kernel_directory == 0))
  ok (record s { directory = kernel_directory; mapped_page_count = 0 })

-- The word that a mapping writes.
unfoldable pub page_entry : (physical flags : ℕ) → ℕ
page_entry physical flags = bit_or (bit_or (bit_and physical 0xfffff000) (bit_and flags 0xfff)) 1

-- The steps behind the checks: the table pointer is used as it comes.
pub map_in_table : (table virtual physical flags : ℕ) → Vmm → Status × Vmm
map_in_table table virtual physical flags s =
    let slot : ℕ = table + 4 * table_index virtual in
    if entry_present (s.memory slot) then (already_mapped, s) else (
      done,
      record s {
        memory = update s.memory slot (page_entry physical flags);
        mapped_page_count = (s.mapped_page_count + 1) % 2 ^ 32;
      },
    )

pub map_page : (virtual physical flags : ℕ) → Vmm → Status × Vmm
map_page virtual physical flags s =
    let (table, s') = get_or_create_page_table (directory_index virtual) flags s in
    if not (is_page_aligned virtual) || not (is_page_aligned physical)
    then (invalid, s)
    else map_in_table table virtual physical flags s'

pub unmap_page : (virtual : ℕ) → Vmm → Status × Vmm
unmap_page virtual s =
    let entry : ℕ = s.memory (s.directory + 4 * directory_index virtual) in
    let slot : ℕ = table_from_pde entry + 4 * table_index virtual in
    if not (is_page_aligned virtual)
    then (invalid, s)
    else if not (entry_present entry)
    then (not_mapped, s)
    else if not (entry_present (s.memory slot))
    then (not_mapped, s)
    else (
      done,
      record s {
        memory = update s.memory slot 0;
        mapped_page_count =
            if ltb 0 s.mapped_page_count then s.mapped_page_count - 1 else s.mapped_page_count;
      },
    )

pub get_physical : (virtual : ℕ) → Vmm → ℕ
get_physical virtual s =
    let entry : ℕ = s.memory (s.directory + 4 * directory_index virtual) in
    let slot : ℕ = table_from_pde entry + 4 * table_index virtual in
    if not (entry_present entry)
    then 0
    else if not (entry_present (s.memory slot))
    then 0
    else (bit_and (s.memory slot) 0xfffff000 + bit_and virtual 0xfff) % 2 ^ 32

pub get_flags : (virtual : ℕ) → Vmm → ℕ
get_flags virtual s =
    let entry : ℕ = s.memory (s.directory + 4 * directory_index virtual) in
    let slot : ℕ = table_from_pde entry + 4 * table_index virtual in
    if not (entry_present entry)
    then 0
    else if not (entry_present (s.memory slot))
    then 0
    else bit_and (s.memory slot) 0xfff
