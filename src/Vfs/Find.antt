-- ===== src/Vfs/Find.antt =====
-- Opening and describing a file by its path.
use toyix.Strings.Compare.{IsText, kstrcmp-zero_iff}
use toyix.Strings.{kstrcmp}
use toyix.Vfs.{
  Status, done, not_found, no_memory, Node, File, find_in, ramfs_find, open_node, open_path,
  stat_node, stat,
}
use toyix.Prelude.Int.{ℤ, pos, negsuc}
use toyix.Prelude.{
  ℕ, zero, suc, ◌≡◌, ◌≢◌, ◌↔◌, sym, ◌⊎◌, inl, inr, refl, true, false, List, [], ◌∷◌, Option, none,
  some, arith,
}

abbrev pub Listed : Node → List Node → Type 0
Listed node [] = ⊥
Listed node (first ∷ nodes) = (node ≡ first) ⊎ Listed node nodes

-- The paths of all files are texts without a null.
abbrev pub HaveTexts : List Node → Type 0
HaveTexts [] = Unit
HaveTexts (node ∷ nodes) = IsText node.path × HaveTexts nodes

-- The result of the search, by what the list holds.
abbrev pub Found : List Node → List ℕ → Option Node → Type 0
Found nodes path none = (node : Node) → Listed node nodes → node.path ≢ path
Found nodes path (some node) = Listed node nodes × (node.path ≡ path)

later-Found :
    (first : Node) (nodes : List Node) (path : List ℕ) (out : Option Node)
    → first.path ≢ path
    → Found nodes path out
    → Found (first ∷ nodes) path out
later-Found first nodes path none differ missing =
    λ node listed. elim listed [ inl e ↦ rw e differ | inr later ↦ missing node later ]
later-Found first nodes path (some node) differ (listed, same) = (inr listed, same)

-- One round of the search, by the result of the comparison.
compared-Found :
    (first : Node) (nodes : List Node) (path : List ℕ) (c : ℤ)
    → (c ≡ pos 0) ↔ (path ≡ first.path)
    → Found nodes path (find_in nodes path)
    → Found (first ∷ nodes) path (elim c as (λ _. Option Node) [
      | pos zero ↦ some first
      | pos (suc n) ↦ find_in nodes path
      | negsuc n ↦ find_in nodes path
    ])
compared-Found first nodes path (pos zero) same rest = (inl refl, sym (same.0 refl))
compared-Found first nodes path (pos (suc n)) same rest =
    later-Found first nodes path (find_in nodes path) (λ e. ground (arith, same.1 (sym e))) rest
compared-Found first nodes path (negsuc n) same rest =
    later-Found first nodes path (find_in nodes path) (λ e. ground (arith, same.1 (sym e))) rest

find_in-Found :
    (nodes : List Node) (path : List ℕ)
    → HaveTexts nodes
    → IsText path
    → Found nodes path (find_in nodes path)
unfolding find_in
find_in-Found [] path texts t = λ node listed. absurd listed
find_in-Found (first ∷ nodes) path (here, texts) t =
    compared-Found first nodes path (kstrcmp (some path) (some first.path))
      (kstrcmp-zero_iff path first.path t here) (find_in-Found nodes path texts t)

-- Opening a path with memory (`opened`) and without (`refused`) and describing it, by what is listed.
abbrev pub Answers :
    List Node
    → List ℕ
    → (opened refused : Status × Option File) → (described : Status × Option (ℕ × ℕ)) → Type 0
Answers nodes path opened refused described =
    ((node : Node) × Listed node nodes
      × (node.path ≡ path)
      × (opened ≡ (done, some (record { node = node; offset = 0 })))
      × (refused ≡ (no_memory, none))
      × (described ≡ (done, some (node.kind, node.size))))
    ⊎ (((node : Node) → Listed node nodes → node.path ≢ path)
        × (opened ≡ (not_found, none))
        × (refused ≡ (not_found, none))
        × (described ≡ (not_found, none)))

Found-Answers :
    (nodes : List Node) (path : List ℕ) (out : Option Node)
    → Found nodes path out
    → Answers nodes path (open_node true out) (open_node false out) (stat_node out)
unfolding open_node stat_node
Found-Answers nodes path none missing = inr (missing, refl, refl, refl)
Found-Answers nodes path (some node) (listed, same) = inl (node, listed, same, refl, refl, refl)

-- Among files with proper paths, opening and describing a path either find a file of that path, opened
-- at its start if there is memory for it, and give its type and size; or no file has that path and both
-- say so.
pub open_path-Answers :
    (nodes : List Node) (path : List ℕ)
    → HaveTexts nodes
    → IsText path
    → Answers nodes path
        (open_path nodes true (some path))
        (open_path nodes false (some path))
        (stat nodes (some path))
unfolding open_path stat ramfs_find
open_path-Answers nodes path texts t =
    Found-Answers nodes path (find_in nodes path) (find_in-Found nodes path texts t)
