-- ===== src/Vfs/Seek.antt =====
-- Where vfs_seek moves the position.
use toyix.Vfs.{done, invalid, File, seek, move_to, add_offset}
use toyix.Prelude.Int.{ℤ, pos, negsuc}
use toyix.Prelude.{ℕ, ◌+◌, ◌^◌, ◌<◌, ◌≤◌, ◌≡◌, ◌↔◌, ◌⊎◌, ◌==◌, if◌then◌else◌, none, some, arith}

-- The position that an offset is counted from.
abbrev pub base : File → ℕ → ℕ
base file whence = if whence == 0 then 0 else if whence == 1 then file.offset else file.node.size

-- `next` is `from` moved by a signed offset.
abbrev pub IsSum : ℕ → ℤ → ℕ → Type 0
IsSum from (pos n) next = next ≡ from + n
IsSum from (negsuc n) next = next + (n + 1) ≡ from

abbrev pub at : File → ℕ → File
at file next = record { node = file.node; offset = next }

move_to_iff :
    (file : File) (from : ℕ) (offset : ℤ) (next : ℕ)
    → (move_to file (add_offset from offset) ≡ (done, some next, at file next))
      ↔ ((next < 2 ^ 32) × IsSum from offset next)
unfolding move_to add_offset
move_to_iff file from (pos n) next = (λ e. ground arith, λ (lt, e). ground arith)
move_to_iff file from (negsuc n) next = (λ e. ground arith, λ (lt, e). ground arith)

move_to-otherwise :
    (file : File) (from : ℕ) (offset : ℤ)
    → ((move_to file (add_offset from offset)).0 ≡ done)
      ⊎ (move_to file (add_offset from offset) ≡ (invalid, none, file))
unfolding move_to add_offset
move_to-otherwise file from (pos n) = ground arith
move_to-otherwise file from (negsuc n) = ground arith

-- vfs_seek moves the position to `next` exactly if `whence` is one of the three that exist and `next`
-- is the 32-bit number at the offset from it; in all other cases it is an error and the file keeps its
-- position.
pub seek_iff :
    (file : File) (offset : ℤ) (whence next : ℕ)
    → ((seek file offset whence ≡ (done, some next, at file next))
        ↔ ((whence ≤ 2) × (next < 2 ^ 32) × IsSum (base file whence) offset next))
      × (((seek file offset whence).0 ≡ done) ⊎ (seek file offset whence ≡ (invalid, none, file)))
unfolding seek
seek_iff file offset whence next =
    let moves = move_to_iff file (base file whence) offset next in
    let stays = move_to-otherwise file (base file whence) offset in ground arith
