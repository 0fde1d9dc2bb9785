-- ===== src/Vfs/Tests.antt =====
-- Runs of the file system, and instances of its theorems.
use toyix.Vfs.{
  ramfs_find, find_in, open_node, done, invalid, File, ramfs_nodes, open_path, seek, move_to,
  add_offset, size_of, tell,
}
use toyix.Strings.{kstrcmp, compare_text}
use toyix.Vfs.Seek.{base, IsSum, at, seek_iff}
use toyix.Prelude.Int.{negsuc}
use toyix.Prelude.{ℕ, ◌^◌, ◌<◌, ◌≤◌, ◌≡◌, ◌↔◌, ◌⊎◌, refl, true, [], ◌∷◌, some, none}

abbrev notes : File
notes = record { node = record { path = []; kind = 1; data_at = 1000; size = 19 }; offset = 15 }

abbrev counting : ℕ → ℕ
counting a = a

sizes_run : (size_of (some notes) ≡ 19) × (tell (some notes) ≡ 15)
unfolding size_of tell
sizes_run = (refl, refl)

back_run : seek notes (negsuc 4) 1 ≡ (done, some 10, at notes 10)
unfolding seek move_to add_offset
back_run = refl

seek_iff_example :
    ((seek notes (negsuc 4) 1 ≡ (done, some 10, at notes 10))
      ↔ ((1 ≤ 2) × (10 < 2 ^ 32) × IsSum (base notes 1) (negsuc 4) 10))
    × (((seek notes (negsuc 4) 1).0 ≡ done) ⊎ (seek notes (negsuc 4) 1 ≡ (invalid, none, notes)))
seek_iff_example = seek_iff notes (negsuc 4) 1 10

readme_run :
    size_of
      (open_path
        (ramfs_nodes 1000 2000)
        true
        (some (b'/' ∷ b'p' ∷ b'r' ∷ b'o' ∷ b'g' ∷ b'r' ∷ b'a' ∷ b'm' ∷ b's' ∷ []))).1
    ≡ 19
unfolding ramfs_nodes open_path ramfs_find find_in open_node size_of kstrcmp compare_text
readme_run = refl
