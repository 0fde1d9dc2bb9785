-- ===== src/Syscall/Files.antt =====
-- kernel/syscall.c: the system calls that take a path. `nodes` are the files that there are, and `allocated`
-- says whether kmalloc has memory for an open file.
pub mod Stat
use toyix.Process.{Table}
use toyix.Process.Descriptors.{process_fd_install}
use toyix.Usercopy.{copy_to_user}
use toyix.Bytes.{word_bytes}
use toyix.Syscall.{failed, answered, syscall_copy_user_string}
use toyix.Vfs as Vfs
use toyix.Prelude.{
  ℕ, ◌+◌, Bool, true, false, ◌||◌, ◌==◌, if◌then◌else◌, Option, none, some, Result, ok, ◌>>=◌, List,
  [], ◌∷◌, ◌++◌,
}

-- The text of a buffer ends before its first null.
pub text_of : List ℕ → List ℕ
text_of [] = []
text_of (byte ∷ bytes) = if byte == 0 then [] else byte ∷ text_of bytes

-- VFS_NODE_REGULAR and VFS_NODE_DIRECTORY.
abbrev pub syscall_vfs_type_to_abi : ℕ → ℕ
syscall_vfs_type_to_abi vfs_type = if vfs_type == 1 then 1 else if vfs_type == 2 then 2 else 0

-- The bytes of a toyix_stat_t.
abbrev pub stat_bytes : (type size : ℕ) → List ℕ
stat_bytes type size = word_bytes type ++ word_bytes size

pub copy_stat :
    (rounds : ℕ)
    → (flags mem : ℕ → ℕ) → (user_stat : ℕ) → Vfs.Status × Option (ℕ × ℕ)
    → Result (ℕ × (ℕ → ℕ))
copy_stat rounds flags mem user_stat (status, none) = ok (failed, mem)
copy_stat rounds flags mem user_stat (status, some (type, size)) =
    if syscall_vfs_type_to_abi type == 0 then ok (failed, mem) else (do
      copied ←
          copy_to_user rounds flags mem user_stat (stat_bytes (syscall_vfs_type_to_abi type) size)
      ok (answered mem copied))

pub stat_path :
    (rounds : ℕ)
    → (flags mem : ℕ → ℕ) → List Vfs.Node
    → (user_stat : ℕ) → Option (List ℕ)
    → Result (ℕ × (ℕ → ℕ))
stat_path rounds flags mem nodes user_stat none = ok (failed, mem)
stat_path rounds flags mem nodes user_stat (some path) =
    copy_stat rounds flags mem user_stat (Vfs.stat nodes (some (text_of path)))

pub syscall_stat :
    (rounds : ℕ)
    → (flags mem : ℕ → ℕ) → List Vfs.Node
    → (current : Option ℕ) → (user_path user_stat : ℕ) → Result (ℕ × (ℕ → ℕ))
syscall_stat rounds flags mem nodes none user_path user_stat = ok (failed, mem)
syscall_stat rounds flags mem nodes (some c) user_path user_stat =
    if user_path == 0 || user_stat == 0 then ok (failed, mem) else (do
      path ← syscall_copy_user_string rounds flags mem user_path 64
      stat_path rounds flags mem nodes user_stat path)
