-- ===== src/Syscall/Files/Stat.antt =====
-- A process learns the type and size of a file by its path.
use native.Mathlib.Decide.{ℕ_discrete}
use toyix.Strings.Compare.{IsText}
use toyix.Usercopy.{read_bytes}
use toyix.Usercopy.Range.{Checked}
use toyix.Usercopy.Copy.{Copied, copy_to_user-Copied}
use toyix.Syscall.{failed, answered}
use toyix.Syscall.Path.{IsString, StringCopied, copy_user_string-StringCopied}
use toyix.Syscall.Files.{
  text_of, syscall_vfs_type_to_abi, stat_bytes, copy_stat, stat_path, syscall_stat,
}
use toyix.Vfs as Vfs
use toyix.Vfs.Find.{Listed, HaveTexts, Answers, open_path-Answers}
use toyix.Prelude.{
  ℕ, zero, suc, ◌+◌, ◌^◌, ◌<◌, ◌≡◌, ◌≢◌, ◌⊎◌, inl, inr, refl, sym, ap, subst, ◌∙◌, true, false,
  ◌==◌, Option, none, some, ok, List, ◌∷◌, arith,
}

text_of-cons :
    (byte : ℕ) (bytes : List ℕ)
    → (byte == 0) ≡ false
    → text_of (byte ∷ bytes) ≡ byte ∷ text_of bytes
unfolding text_of
text_of-cons byte bytes e = rw e refl

-- What is read of a string is a text.
read_string :
    (mem : ℕ → ℕ) (addr n : ℕ)
    → mem (addr + n) ≡ 0
    → ((j : ℕ) → j < n → mem (addr + j) ≢ 0)
    → (text_of (read_bytes (suc n) mem addr) ≡ read_bytes n mem addr)
      × IsText (read_bytes n mem addr)
unfolding text_of
read_string mem addr zero end nonzero =
    let same : addr ≡ addr + 0 = omega arith in
    let here : mem addr ≡ 0 = ap mem same ∙ end in
    let last : (mem addr == 0) ≡ true = ground (arith, here) in (rw last refl, tt)
read_string mem addr (suc n) end nonzero =
    let same_place : addr + 0 ≡ addr = omega arith in
    let first : mem addr ≢ 0 = subst (λ a. mem a ≢ 0) same_place (nonzero 0 (omega arith)) in
    let first' : (mem addr == 0) ≡ false = ground (arith, first) in
    let (same, text) =
      read_string mem (addr + 1) n (ap mem (omega arith) ∙ end)
        (λ j less e. nonzero (j + 1) (omega (arith, less)) (ap mem (omega arith) ∙ e)) in
    (
      text_of-cons (mem addr) (read_bytes (suc n) mem (addr + 1)) first'
          ∙ ap (λ rest. mem addr ∷ rest) same,
      (omega (arith, first), text),
    )

-- The path is a string of the process, of less than 64 bytes.
abbrev pub IsPath : (flags mem : ℕ → ℕ) → (user_path : ℕ) → List ℕ → Type 0
IsPath flags mem user_path path =
    (n : ℕ) × (n < 64) × IsString flags mem user_path n × (path ≡ read_bytes n mem user_path)

-- The answer and the memory. The call succeeds for a file with the path, and puts its type and size into
-- the memory.
abbrev pub StatAnswer :
    (flags mem : ℕ → ℕ) → List Vfs.Node → (user_path user_stat : ℕ) → ℕ × (ℕ → ℕ) → Type 0
StatAnswer flags mem nodes user_path user_stat out =
    ((out.0 ≡ 0)
      × (user_path ≢ 0)
      × (user_stat ≢ 0)
      × (node : Vfs.Node) × Listed node nodes
      × IsPath flags mem user_path node.path
      × (syscall_vfs_type_to_abi node.kind ≢ 0)
      × Copied flags mem user_stat (stat_bytes (syscall_vfs_type_to_abi node.kind) node.size)
          (some out.1))
    ⊎ ((out ≡ (failed, mem))
        × ((user_path ≡ 0)
            ⊎ (user_stat ≡ 0)
            ⊎ ((n : ℕ) → n < 64 → ¬ (IsString flags mem user_path n))
            ⊎ ((path : List ℕ) × IsPath flags mem user_path path
                × ((node : Vfs.Node) → Listed node nodes → node.path ≢ path))
            ⊎ ((node : Vfs.Node) × Listed node nodes
                × IsPath flags mem user_path node.path
                × (syscall_vfs_type_to_abi node.kind ≡ 0))
            ⊎ Checked flags user_stat 8 false))

answered-StatAnswer :
    (flags mem : ℕ → ℕ) (nodes : List Vfs.Node) (user_path user_stat : ℕ) (node : Vfs.Node)
    (o : Option (ℕ → ℕ))
    → user_path ≢ 0
    → user_stat ≢ 0
    → Listed node nodes
    → IsPath flags mem user_path node.path
    → syscall_vfs_type_to_abi node.kind ≢ 0
    → Copied flags mem user_stat (stat_bytes (syscall_vfs_type_to_abi node.kind) node.size) o
    → StatAnswer flags mem nodes user_path user_stat (answered mem o)
answered-StatAnswer flags mem nodes user_path user_stat node none named place listed path known
      other =
    inr (refl, inr (inr (inr (inr (inr other)))))
answered-StatAnswer flags mem nodes user_path user_stat node (some mem') named place listed path
      known copied =
    inl (refl, named, place, node, listed, path, known, copied)

-- With enough rounds, what is made of the file that has been found.
copy_stat-StatAnswer :
    (rounds : ℕ) (flags mem : ℕ → ℕ) (nodes : List Vfs.Node) (user_path user_stat : ℕ)
    (node : Vfs.Node)
    → 2 < rounds
    → user_stat < 2 ^ 32
    → user_path ≢ 0
    → user_stat ≢ 0
    → Listed node nodes
    → IsPath flags mem user_path node.path
    → (out : ℕ × (ℕ → ℕ)) × (copy_stat rounds flags mem user_stat
          (Vfs.done, some (node.kind, node.size))
        ≡ ok out)
      × StatAnswer flags mem nodes user_path user_stat out
unfolding copy_stat
copy_stat-StatAnswer rounds flags mem nodes user_path user_stat node enough small named place listed
      path =
    let abi = syscall_vfs_type_to_abi node.kind in
    elim (ℕ_discrete abi 0) [
      | yes e ↦
          let e' : (abi == 0) ≡ true = ground (arith, e) in
          (
            (failed, mem),
            rw e' refl,
            inr (refl, inr (inr (inr (inr (inl (node, listed, path, e)))))),
          )
      | no ne ↦
          let ne' : (abi == 0) ≡ false = ground (arith, ne) in
          let (o, done, copied) =
            copy_to_user-Copied rounds flags mem user_stat (stat_bytes abi node.size) small
              (omega arith) (omega (arith, enough)) in
          (
            answered mem o,
            rw (ne', done) refl,
            answered-StatAnswer flags mem nodes user_path user_stat node o named place listed path
                ne copied,
          )
    ]

-- The search for the path of a string.
searched-StatAnswer :
    (rounds : ℕ) (flags mem : ℕ → ℕ) (nodes : List Vfs.Node) (user_path user_stat : ℕ)
    (path : List ℕ) (opened refused : Vfs.Status × Option Vfs.File)
    (described : Vfs.Status × Option (ℕ × ℕ))
    → 2 < rounds
    → user_stat < 2 ^ 32
    → user_path ≢ 0
    → user_stat ≢ 0
    → IsPath flags mem user_path path
    → Answers nodes path opened refused described
    → (out : ℕ × (ℕ → ℕ)) × (copy_stat rounds flags mem user_stat described ≡ ok out)
      × StatAnswer flags mem nodes user_path user_stat out
unfolding copy_stat
searched-StatAnswer rounds flags mem nodes user_path user_stat path opened refused described enough
      small named place is_path (inl (node, listed, same, _, _, found)) =
    let (out, done, answer) =
      copy_stat-StatAnswer rounds flags mem nodes user_path user_stat node enough small named place
        listed (subst (λ p. IsPath flags mem user_path p) (sym same) is_path) in
    (out, rw found done, answer)
searched-StatAnswer rounds flags mem nodes user_path user_stat path opened refused described enough
      small named place is_path (inr (missing, _, _, none_there)) =
    ((failed, mem), rw none_there refl, inr (refl, inr (inr (inr (inl (path, is_path, missing))))))

copied-StatAnswer :
    (rounds : ℕ) (flags mem : ℕ → ℕ) (nodes : List Vfs.Node) (user_path user_stat : ℕ)
    (copied : Option (List ℕ))
    → 2 < rounds
    → user_stat < 2 ^ 32
    → user_path ≢ 0
    → user_stat ≢ 0
    → HaveTexts nodes
    → StringCopied flags mem user_path 64 copied
    → (out : ℕ × (ℕ → ℕ)) × (stat_path rounds flags mem nodes user_stat copied ≡ ok out)
      × StatAnswer flags mem nodes user_path user_stat out
unfolding stat_path
copied-StatAnswer rounds flags mem nodes user_path user_stat none enough small named place texts
      none_there =
    ((failed, mem), refl, inr (refl, inr (inr (inl none_there))))
copied-StatAnswer rounds flags mem nodes user_path user_stat (some bytes) enough small named place
      texts (n, short, (top, all, end, nonzero), read) =
    let (same, text) = read_string mem user_path n end nonzero in
    let path = read_bytes n mem user_path in
    let (out, done, answer) =
      searched-StatAnswer rounds flags mem nodes user_path user_stat path _ _ _ enough small named
        place (n, short, (top, all, end, nonzero), refl)
        (open_path-Answers nodes path texts text) in
    let count : n + 1 ≡ suc n = omega arith in
    let bytes' = ap text_of (read ∙ ap (λ k. read_bytes k mem user_path) count) ∙ same in
    (out, rw bytes' done, answer)

-- Among files with proper paths, with at least four rounds, syscall_stat of a process ends. It succeeds
-- exactly for a path of less than 64 bytes that the process can read and that is the path of a file of a
-- known type, and a place that the process can write, neither pointer being null. It then puts the type
-- and the size of that file into the memory, within the pages of the process. Otherwise it fails, and
-- writes nothing.
pub syscall_stat-StatAnswer :
    (rounds : ℕ) (flags mem : ℕ → ℕ) (nodes : List Vfs.Node) (c user_path user_stat : ℕ)
    → 3 < rounds
    → user_path < 2 ^ 32
    → user_stat < 2 ^ 32
    → HaveTexts nodes
    → (out : ℕ × (ℕ → ℕ)) × (syscall_stat rounds flags mem nodes (some c) user_path user_stat
        ≡ ok out)
      × StatAnswer flags mem nodes user_path user_stat out
unfolding syscall_stat
syscall_stat-StatAnswer rounds flags mem nodes c user_path user_stat enough small small' texts =
    elim (ℕ_discrete user_path 0) [
      | yes e ↦ ((failed, mem), rw e refl, inr (refl, inl e))
      | no path ↦ elim (ℕ_discrete user_stat 0) [
        | yes e ↦
            let path' : (user_path == 0) ≡ false = ground (arith, path) in
            ((failed, mem), rw (path', e) refl, inr (refl, inr (inl e)))
        | no place ↦
            let path' : (user_path == 0) ≡ false = ground (arith, path) in
            let place' : (user_stat == 0) ≡ false = ground (arith, place) in
            let (copied, done, string) =
              copy_user_string-StringCopied rounds flags mem user_path 64 (omega (arith, path))
                small (omega arith) (omega arith) (omega (arith, enough)) in
            let (out, looked, answer) =
              copied-StatAnswer rounds flags mem nodes user_path user_stat copied
                (omega (arith, enough)) small' path place texts string in
            (out, rw (path', place', done) looked, answer)
      ]
    ]
