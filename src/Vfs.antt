-- ===== src/Vfs.antt =====
-- kernel/vfs.c: the read-only files inside the kernel image. Out-parameters are results; the callers
-- never pass a null pointer for them.
pub mod Read
pub mod Seek
pub mod Find
mod Tests
use toyix.Bytes.{memcpy}
use toyix.Strings.{kstrcmp}
use toyix.Prelude.Int.{ℤ, pos, negsuc, sub_ℕ}
use toyix.Prelude.{
  ℕ, zero, suc, ◌+◌, ◌-◌, ◌%◌, ◌^◌, Bool, true, false, not, ltb, leb, ◌==◌, if◌then◌else◌, List, [],
  ◌∷◌, Option, none, some,
}

-- VFS_OK and the errors.
pub data Status : Type 0 where
  done : Status
  not_found : Status
  invalid : Status
  no_memory : Status

-- `data` is the address of the bytes.
pub record Node : Type 0 where
  pub path : List ℕ
  pub kind : ℕ
  pub data_at : ℕ
  pub size : ℕ

pub record File : Type 0 where
  pub node : Node
  pub offset : ℕ

-- The two files, whose bytes the linker places at `readme` and `programs`.
pub ramfs_nodes : (readme programs : ℕ) → List Node
ramfs_nodes readme programs =
    record {
      path = b'/' ∷ b'R' ∷ b'E' ∷ b'A' ∷ b'D' ∷ b'M' ∷ b'E' ∷ [];
      kind = 1;
      data_at = readme;
      size = 106;
    }
    ∷ record {
      path = b'/' ∷ b'p' ∷ b'r' ∷ b'o' ∷ b'g' ∷ b'r' ∷ b'a' ∷ b'm' ∷ b's' ∷ [];
      kind = 1;
      data_at = programs;
      size = 19;
    }
    ∷ []

-- The loop of ramfs_find.
pub find_in : List Node → List ℕ → Option Node
find_in [] path = none
find_in (node ∷ nodes) path = elim (kstrcmp (some path) (some node.path)) [
  | pos zero ↦ some node
  | pos (suc n) ↦ find_in nodes path
  | negsuc n ↦ find_in nodes path
]

pub ramfs_find : List Node → Option (List ℕ) → Option Node
ramfs_find nodes none = none
ramfs_find nodes (some path) = find_in nodes path

-- `allocated` says whether kmalloc had memory for the file.
pub open_node : (allocated : Bool) → Option Node → Status × Option File
open_node allocated none = (not_found, none)
open_node false (some node) = (no_memory, none)
open_node true (some node) = (done, some (record { node = node; offset = 0 }))

pub open_path : List Node → (allocated : Bool) → Option (List ℕ) → Status × Option File
open_path nodes allocated none = (invalid, none)
open_path nodes allocated (some path) = open_node allocated (ramfs_find nodes (some path))

-- The file and the memory after the call are the last two results.
pub read : Option File → Option ℕ → (length : ℕ) → (ℕ → ℕ) → Status × ℕ × Option File × (ℕ → ℕ)
read none buffer length mem = (invalid, 0, none, mem)
read (some file) none length mem = (invalid, 0, some file, mem)
read (some file) (some buffer) length mem =
    let remaining : ℕ = file.node.size - file.offset in
    let to_copy : ℕ = if ltb remaining length then remaining else length in
    if length == 0
    then (done, 0, some file, mem)
    else if leb file.node.size file.offset
    then (done, 0, some file, mem)
    else (
      done,
      to_copy,
      some (record { node = file.node; offset = (file.offset + to_copy) % 2 ^ 32 }),
      memcpy buffer (file.node.data_at + file.offset) to_copy mem,
    )

-- The sum of a base and a signed offset.
pub add_offset : ℕ → ℤ → ℤ
add_offset base (pos n) = pos (base + n)
add_offset base (negsuc n) = sub_ℕ base (n + 1)

-- The check of the new position, and its assignment.
pub move_to : File → ℤ → Status × Option ℕ × File
move_to file (negsuc n) = (invalid, none, file)
move_to file (pos next) =
    if ltb 0xffffffff next
    then (invalid, none, file)
    else (done, some next, record { node = file.node; offset = next })

pub seek : File → (offset : ℤ) → (whence : ℕ) → Status × Option ℕ × File
seek file offset whence =
    if whence == 0
    then move_to file (add_offset 0 offset)
    else if whence == 1
    then move_to file (add_offset file.offset offset)
    else if whence == 2
    then move_to file (add_offset file.node.size offset)
    else (invalid, none, file)

pub tell : Option File → ℕ
tell none = 0
tell (some file) = file.offset

pub size_of : Option File → ℕ
size_of none = 0
size_of (some file) = file.node.size

pub stat_node : Option Node → Status × Option (ℕ × ℕ)
stat_node none = (not_found, none)
stat_node (some node) = (done, some (node.kind, node.size))

-- The type and the size.
pub stat : List Node → Option (List ℕ) → Status × Option (ℕ × ℕ)
stat nodes none = (invalid, none)
stat nodes (some path) = stat_node (ramfs_find nodes (some path))
