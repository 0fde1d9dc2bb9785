-- ===== src/Usercopy.antt =====
-- kernel/usercopy.c: copying between the kernel and the memory of a process. `flags` is what
-- address_space_get_flags says of a page of the current address space, `mem` the bytes of the virtual
-- memory. A buffer of the kernel is the list of its bytes, and is never null. The loops over the pages
-- run for `rounds` rounds.
pub mod Range
pub mod Copy
mod Tests
use toyix.Prelude.{
  ℕ, zero, suc, ◌+◌, ◌-◌, ◌%◌, ◌^◌, bit_and, Bool, true, false, not, ltb, leb, ◌==◌, if◌then◌else◌,
  Option, none, some, update, Result, ok, endless, ◌>>=◌, List, [], ◌∷◌, length,
}

-- ADDRESS_SPACE_FLAG_USER is 2.
abbrev pub is_user : (flags : ℕ) → Bool
is_user flags = not (bit_and flags 2 == 0)

abbrev pub page_of : ℕ → ℕ
page_of addr = addr - addr % 4096

-- The loop over the pages from `page` on.
pub pages_accessible : (rounds : ℕ) → (flags : ℕ → ℕ) → (page end : ℕ) → Result Bool
pages_accessible zero flags page end = endless
pages_accessible (suc rounds) flags page end =
    let rest = pages_accessible rounds flags (page + 4096) end in
    if ltb end page
    then ok true
    else if not (is_user (flags page))
    then ok false
    else if ltb (0xffffffff - 0x1000) page
    then ok true
    else rest

pub user_range_accessible : (rounds : ℕ) → (flags : ℕ → ℕ) → (user_addr size : ℕ) → Result Bool
user_range_accessible rounds flags user_addr size =
    if size == 0
    then ok true
    else if ltb ((user_addr + size) % 2 ^ 32) user_addr
    then ok false
    else pages_accessible rounds flags (page_of user_addr)
        ((user_addr + size + 2 ^ 32 - 1) % 2 ^ 32)

abbrev pub read_bytes : (n : ℕ) → (ℕ → ℕ) → (addr : ℕ) → List ℕ
read_bytes zero mem addr = []
read_bytes (suc n) mem addr = mem addr ∷ read_bytes n mem (addr + 1)

abbrev pub write_bytes : List ℕ → (addr : ℕ) → (ℕ → ℕ) → ℕ → ℕ
write_bytes [] addr mem = mem
write_bytes (byte ∷ bytes) addr mem = write_bytes bytes (addr + 1) (update mem addr byte)

-- The bytes, or `none` for USERCOPY_ERR_FAULT.
pub copy_from_user :
    (rounds : ℕ) → (flags mem : ℕ → ℕ) → (user_src size : ℕ) → Result (Option (List ℕ))
copy_from_user rounds flags mem user_src size = do
  accessible ← user_range_accessible rounds flags user_src size
  ok (if accessible then some (read_bytes size mem user_src) else none)

-- The memory, or `none` for USERCOPY_ERR_FAULT.
pub copy_to_user :
    (rounds : ℕ) → (flags mem : ℕ → ℕ) → (user_dest : ℕ) → List ℕ → Result (Option (ℕ → ℕ))
copy_to_user rounds flags mem user_dest bytes = do
  accessible ← user_range_accessible rounds flags user_dest (length bytes)
  ok (if accessible then some (write_bytes bytes user_dest mem) else none)

-- The results USERCOPY_ERR_FAULT, USERCOPY_ERR_TOO_LONG, and the length with USERCOPY_OK.
pub data Length : Type 0 where
  fault too_long : Length
  of : (length : ℕ) → Length

-- What is done with one byte of the string.
pub look : (i : ℕ) → Option (List ℕ) → (later : Result Length) → Result Length
look i none later = ok fault
look i (some []) later = ok fault
look i (some (byte ∷ bytes)) later = if byte == 0 then ok (of i) else later

-- The loop from index `i` on, with `left` rounds to go.
pub length_from : (left : ℕ) → (rounds : ℕ) → (flags mem : ℕ → ℕ) → (user_str i : ℕ) → Result Length
length_from zero rounds flags mem user_str i = ok too_long
length_from (suc left) rounds flags mem user_str i =
    let later = length_from left rounds flags mem user_str (i + 1) in
    copy_from_user rounds flags mem ((user_str + i) % 2 ^ 32) 1 >>= (λ bytes. look i bytes later)

pub user_string_length : (rounds : ℕ) → (flags mem : ℕ → ℕ) → (user_str max_len : ℕ) → Result Length
user_string_length rounds flags mem user_str max_len =
    length_from max_len rounds flags mem user_str 0
