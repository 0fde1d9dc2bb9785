-- ===== src/Vfs/Read.antt =====
-- What vfs_read delivers.
use toyix.Bytes.Move.{inside, memcpy-inside}
use toyix.Vfs.{done, File, read}
use toyix.Prelude.{
  ℕ, ◌+◌, ◌-◌, ◌^◌, ◌<◌, ◌≤◌, ◌≡◌, ◌⊎◌, ap, sym, ◌∙◌, if◌then◌else◌, some, min, arith,
}

-- What is left of a file, at most `length` bytes.
abbrev pub available : File → ℕ → ℕ
available file length = min length (file.node.size - file.offset)

-- The file with its position `count` bytes further on.
abbrev pub moved : File → ℕ → File
moved file count = record { node = file.node; offset = file.offset + count }

moved-none : (file : File) (count : ℕ) → count ≡ 0 → moved file count ≡ file
moved-none file count e = ap (λ offset. record { node = file.node; offset = offset }) (omega arith)

-- A read into a buffer that does not overlap the file succeeds. It delivers the bytes of the file from
-- its position on, as many as were asked for or are left, moves the position behind them, and changes
-- no other memory.
read-available :
    (file : File) (buffer length : ℕ) (mem : ℕ → ℕ) (a : ℕ)
    → file.offset < 2 ^ 32
    → file.node.size < 2 ^ 32
    → (buffer + length ≤ file.node.data_at) ⊎ (file.node.data_at + file.node.size ≤ buffer)
    → let count : ℕ = available file length in
      let out = read (some file) (some buffer) length mem in
      (out.0 ≡ done)
      × (out.1 ≡ count)
      × (out.2 ≡ some (moved file count))
      × (out.3 a ≡ (
          if inside buffer count a
          then mem (file.node.data_at + file.offset + (a - buffer))
          else mem a))
unfolding read
read-available file buffer length mem a ho hs apart = ground (
  arith,
  moved-none file (available file length),
  memcpy-inside buffer (file.node.data_at + file.offset) (available file length) mem a
      (ground arith),
)

moved-moved :
    (file : File) (i j k : ℕ) → i + j ≡ k → some (moved (moved file i) j) ≡ some (moved file k)
moved-moved file i j k e =
    ap (λ offset. some (record { node = file.node; offset = offset })) (omega arith)

-- The second of two reads, from memory that the first one has left.
read-second :
    (file : File) (buffer m n : ℕ) (mem mem1 : ℕ → ℕ) (a : ℕ)
    → file.offset < 2 ^ 32
    → file.node.size < 2 ^ 32
    → (buffer + (m + n) ≤ file.node.data_at) ⊎ (file.node.data_at + file.node.size ≤ buffer)
    → let count : ℕ = available file m in
      ((x : ℕ)
        → mem1 x ≡ (
            if inside buffer count x
            then mem (file.node.data_at + file.offset + (x - buffer))
            else mem x))
      → let second = read (some (moved file count)) (some (buffer + count)) n mem1 in
        let whole = read (some file) (some buffer) (m + n) mem in
        (count + second.1 ≡ whole.1) × (second.2 ≡ whole.2) × (second.3 a ≡ whole.3 a)
read-second file buffer m n mem mem1 a ho hs apart left =
    let count : ℕ = available file m in
    let next : ℕ = available (moved file count) n in
    let (_, count2, file2, mem2) =
      read-available (moved file count) (buffer + count) n mem1 a (omega arith) hs (omega arith) in
    let (_, count3, file3, mem3) = read-available file buffer (m + n) mem a ho hs apart in
    let total : count + next ≡ available file (m + n) = omega arith in
    (
      ground arith,
      file2 ∙ moved-moved file count next (available file (m + n)) total ∙ sym file3,
      ground (
        arith,
        left a,
        left (file.node.data_at + (file.offset + count) + (a - (buffer + count))),
      ),
    )

-- Two reads in a row, with buffers that follow each other and do not overlap the file, deliver together
-- what one read of both lengths does: as many bytes, the same position, the same memory.
read-append :
    (file : File) (buffer m n : ℕ) (mem : ℕ → ℕ) (a : ℕ)
    → file.offset < 2 ^ 32
    → file.node.size < 2 ^ 32
    → (buffer + (m + n) ≤ file.node.data_at) ⊎ (file.node.data_at + file.node.size ≤ buffer)
    → let first = read (some file) (some buffer) m mem in
      let second = read first.2 (some (buffer + first.1)) n first.3 in
      let whole = read (some file) (some buffer) (m + n) mem in
      (first.1 + second.1 ≡ whole.1) × (second.2 ≡ whole.2) × (second.3 a ≡ whole.3 a)
read-append file buffer m n mem a ho hs apart =
    let (_, count1, file1, _) = read-available file buffer m mem a ho hs (omega arith) in
    let left : (x : ℕ) → _ = λ x. (read-available file buffer m mem x ho hs (omega arith)).3 in
    rw (count1, file1)
      (read-second file buffer m n mem ((read (some file) (some buffer) m mem).3) a ho hs apart
        left)
