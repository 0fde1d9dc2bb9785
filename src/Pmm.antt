-- ===== src/Pmm.antt =====
-- kernel/pmm.c: the physical page allocator, a bitmap with one bit for each 4 KiB frame.
-- The static variables are the record `Pmm`; what a function prints on the console is left out.
pub mod Bitmap
pub mod Accounting
pub mod Alloc
pub mod Run
pub mod Free
pub mod Range
pub mod Region
pub mod Map
pub mod Init
pub mod Tests
use toyix.Prelude.{
  ℕ, zero, suc, ◌+◌, ◌-◌, ◌*◌, ◌/◌, ◌%◌, ◌^◌, min, bit_and, bit_or, Bool, true, false, not, ◌&&◌,
  ◌||◌, Option, none, some, ltb, leb, ◌==◌, if◌then◌else◌, update, Result, ok, panic, endless,
  ◌>>=◌, ◌>>◌, require,
}
use toyix.Bits.Byte.{test_bit, set_bit, clear_bit}

abbrev pub page_size : ℕ
page_size = 4096

abbrev pub max_frames : ℕ
max_frames = 1048576

abbrev pub invalid_page : ℕ
invalid_page = 0

-- `uint32_t` arithmetic wraps at this number.
abbrev pub word : ℕ
word = 2 ^ 32

-- `frame_bitmap` is the function from the index of a byte to the byte.
pub record Pmm : Type 0 where
  pub bitmap : ℕ → ℕ
  pub total : ℕ
  pub usable : ℕ
  pub reserved : ℕ
  pub free : ℕ
  pub highest : ℕ

-- `~(PMM_PAGE_SIZE - 1u)` is 0xFFFFF000.
pub align_down_page : ℕ → ℕ
align_down_page value = bit_and value 0xfffff000

pub align_up_page : ℕ → ℕ
align_up_page value = bit_and ((value + 4095) % word) 0xfffff000

abbrev pub frame_index_from_addr : ℕ → ℕ
frame_index_from_addr addr = addr / page_size

abbrev pub addr_from_frame_index : ℕ → ℕ
addr_from_frame_index frame = frame * page_size % word

unfoldable pub bitmap_test : (ℕ → ℕ) → ℕ → Bool
bitmap_test bitmap frame = test_bit (bitmap (frame / 8)) (frame % 8)

unfoldable pub bitmap_set : (ℕ → ℕ) → ℕ → ℕ → ℕ
bitmap_set bitmap frame = update bitmap (frame / 8) (set_bit (bitmap (frame / 8)) (frame % 8))

unfoldable pub bitmap_clear : (ℕ → ℕ) → ℕ → ℕ → ℕ
bitmap_clear bitmap frame = update bitmap (frame / 8) (clear_bit (bitmap (frame / 8)) (frame % 8))

pub mark_frame_used : Pmm → ℕ → Pmm
mark_frame_used s frame =
    if leb max_frames frame then s else if bitmap_test s.bitmap frame then s else record s {
      bitmap = bitmap_set s.bitmap frame;
      free = if ltb 0 s.free then s.free - 1 else s.free;
    }

pub mark_frame_free : Pmm → ℕ → Pmm
mark_frame_free s frame =
    if leb max_frames frame
    then s
    else if bitmap_test s.bitmap frame
    then record s { bitmap = bitmap_clear s.bitmap frame; free = (s.free + 1) % word }
    else s

-- `for (addr = start; addr < end; addr += PMM_PAGE_SIZE) mark(frame_index_from_addr(addr))`, with a
-- bound on the rounds.
pub mark_pages : (Pmm → ℕ → Pmm) → ℕ → ℕ → ℕ → Pmm → Pmm
mark_pages mark zero addr end s = s
mark_pages mark (suc rounds) addr end s = elim (ltb addr end) [
  | true ↦
      mark_pages mark rounds ((addr + page_size) % word) end (mark s (frame_index_from_addr addr))
  | false ↦ s
]

pub reserve_range : Pmm → ℕ → ℕ → Pmm
reserve_range s start_addr end_addr =
    mark_pages mark_frame_used max_frames (align_down_page start_addr) (align_up_page end_addr) s

pub free_range : Pmm → ℕ → ℕ → Pmm
free_range s start_addr end_addr =
    mark_pages mark_frame_free max_frames (align_up_page start_addr) (align_down_page end_addr) s

pub mark_all_frames_used : Pmm → Pmm
mark_all_frames_used s = record s {
  bitmap = λ i. if ltb i (max_frames / 8) then 255 else s.bitmap i;
  free = 0;
}

-- `multiboot_mmap_entry_t`
pub record MmapEntry : Type 0 where
  pub size : ℕ
  pub base_addr_low : ℕ
  pub base_addr_high : ℕ
  pub length_low : ℕ
  pub length_high : ℕ
  pub kind : ℕ

-- The fields of `multiboot_info_t` that the allocator reads, and the address of the structure.
pub record MultibootInfo : Type 0 where
  pub addr : ℕ
  pub flags : ℕ
  pub mmap_length : ℕ
  pub mmap_addr : ℕ

-- `free_range(usable_start, usable_end)` and the two statistics that follow it.
pub discover_region : Pmm → ℕ → ℕ → Pmm
discover_region s usable_start usable_end =
    let start_frame : ℕ = frame_index_from_addr (align_up_page usable_start) in
    let end_frame : ℕ = frame_index_from_addr (align_down_page usable_end) in
    let freed : Pmm = free_range s usable_start usable_end in
    record freed {
      usable =
          if ltb start_frame end_frame
          then (freed.usable + (end_frame - start_frame)) % word
          else freed.usable;
      highest = if ltb freed.highest usable_end then usable_end else freed.highest;
    }

-- The body of the loop for one entry. `base` and `end` are 64-bit numbers.
pub discover_entry : Pmm → MmapEntry → Pmm
discover_entry s entry =
    let base : ℕ = bit_or (entry.base_addr_high * 2 ^ 32) entry.base_addr_low in
    let len : ℕ = bit_or (entry.length_high * 2 ^ 32) entry.length_low in
    let end : ℕ = (base + len) % 2 ^ 64 in
    let usable_end : ℕ = if ltb (2 ^ 32) end then 0xffffffff else end % word in
    if entry.kind == 1 && ltb base (2 ^ 32) then discover_region s (base % word) usable_end else s

-- `while (cursor < mmap_end)`: the entries are read from memory at the cursor.
pub discover_loop : (ℕ → MmapEntry) → ℕ → ℕ → ℕ → Pmm → Result Pmm
discover_loop entry_at zero mmap_end cursor s = if ltb cursor mmap_end then endless else ok s
discover_loop entry_at (suc fuel) mmap_end cursor s = elim (ltb cursor mmap_end) [
  | true ↦
      discover_loop entry_at fuel mmap_end ((cursor + ((entry_at cursor).size + 4) % word) % word)
        (discover_entry s (entry_at cursor))
  | false ↦ ok s
]

-- The fuel counts rounds: a round moves the cursor on by at least four bytes.
pub discover_from_mmap : (ℕ → MmapEntry) → MultibootInfo → Pmm → Result Pmm
discover_from_mmap entry_at mbi s =
    discover_loop entry_at mbi.mmap_length ((mbi.mmap_addr + mbi.mmap_length) % word) mbi.mmap_addr
      s

-- `kernel_start` and `kernel_end` are symbols of the linker script; `sizeof(multiboot_info_t)` is 52.
pub reserve_kernel_and_boot_data : (kernel_start kernel_end : ℕ) → MultibootInfo → Pmm → Pmm
reserve_kernel_and_boot_data kernel_start kernel_end mbi s =
    let low = reserve_range s 0 0x100000 in
    let image = reserve_range low kernel_start kernel_end in
    let info = reserve_range image mbi.addr ((mbi.addr + 52) % word) in
    if bit_and mbi.flags 64 == 0
    then info
    else reserve_range info mbi.mmap_addr ((mbi.mmap_addr + mbi.mmap_length) % word)

-- A null pointer for the Multiboot information is `none`.
pub init : (kernel_start kernel_end : ℕ) → (ℕ → MmapEntry) → Option MultibootInfo → Pmm → Result Pmm
init kernel_start kernel_end entry_at none s = panic
init kernel_start kernel_end entry_at (some mbi) s = do
  let used = mark_all_frames_used s
  require (not (bit_and mbi.flags 64 == 0))
  found ←
      discover_from_mmap entry_at mbi
        (record used { total = max_frames; usable = 0; reserved = 0; highest = 0 })
  let kept = reserve_kernel_and_boot_data kernel_start kernel_end mbi found
  ok (record kept { reserved = (kept.total + word - kept.free) % word })

-- The search loop of the two allocation functions: `rounds` frames from `frame` on.
pub alloc_from : ℕ → ℕ → Pmm → ℕ × Pmm
alloc_from zero frame s = (invalid_page, s)
alloc_from (suc rounds) frame s = elim (bitmap_test s.bitmap frame) [
  | false ↦ (addr_from_frame_index frame, mark_frame_used s frame)
  | true ↦ alloc_from rounds (frame + 1) s
]

pub alloc_page : Pmm → ℕ × Pmm
alloc_page s = alloc_from (max_frames - 256) 256 s

-- `if (max_frame > PMM_MAX_FRAMES) max_frame = PMM_MAX_FRAMES;`
abbrev pub frame_limit : ℕ → ℕ
frame_limit max_exclusive =
    let max_frame : ℕ = max_exclusive / page_size in
    if ltb max_frames max_frame then max_frames else max_frame

pub alloc_page_below : ℕ → Pmm → ℕ × Pmm
alloc_page_below max_exclusive s = alloc_from (frame_limit max_exclusive - 256) 256 s

-- `for (i = 0; i < page_count; ++i) mark_frame_used(run_start + i);`
pub mark_run : ℕ → ℕ → Pmm → Pmm
mark_run zero frame s = s
mark_run (suc n) frame s = mark_run n (frame + 1) (mark_frame_used s frame)

pub find_run : (page_count rounds frame run_start run_length : ℕ) → Pmm → ℕ × Pmm
find_run page_count zero frame run_start run_length s = (invalid_page, s)
find_run page_count (suc rounds) frame run_start run_length s =
    let start : ℕ = if run_length == 0 then frame else run_start in
    elim (bitmap_test s.bitmap frame) [
      | false ↦ elim (run_length + 1 == page_count) [
        | true ↦ (addr_from_frame_index start, mark_run page_count start s)
        | false ↦ find_run page_count rounds (frame + 1) start (run_length + 1) s
      ]
      | true ↦ find_run page_count rounds (frame + 1) 0 0 s
    ]

pub alloc_contiguous_pages_below : ℕ → ℕ → Pmm → ℕ × Pmm
alloc_contiguous_pages_below page_count max_exclusive s =
    if page_count == 0
    then (invalid_page, s)
    else find_run page_count (frame_limit max_exclusive - 256) 256 0 0 s

pub free_page : ℕ → Pmm → Result Pmm
free_page physical_addr s = do
  require (bit_and physical_addr 4095 == 0)
  require (leb 0x100000 physical_addr)
  ok (mark_frame_free s (frame_index_from_addr physical_addr))

pub record Stats : Type 0 where
  pub total_frames : ℕ
  pub usable_frames : ℕ
  pub reserved_frames : ℕ
  pub free_frames : ℕ
  pub used_frames : ℕ
  pub highest_physical_addr : ℕ

pub get_stats : Pmm → Stats
get_stats s = record {
  total_frames = s.total;
  usable_frames = s.usable;
  reserved_frames = s.reserved;
  free_frames = s.free;
  used_frames = (s.total + word - s.free) % word;
  highest_physical_addr = s.highest;
}
