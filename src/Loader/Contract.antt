-- ===== src/Loader/Contract.antt =====
-- The rules by which a loader keeps a property of the process: what each operation is called with, and
-- what it then keeps. Loader/Calls.antt has them for the log of the calls.
use toyix.Loader.{
  Status, loaded, invalid, unsupported, too_large, load_failed, ProcessOperations, after, on_loaded,
}
use toyix.Prelude.{arith, if◌then◌else◌, ℕ, ◌+◌, ◌-◌, ◌<◌, ◌≤◌, ◌≡◌, refl, Bool, true, false}

-- The `size` bytes from `start` on lie in the user part of the address space.
abbrev pub InUser : ℕ → ℕ → Type 0
InUser start size = (0x1000000 ≤ start) × (start + size ≤ 0xc0000000)

-- What the operations keep (`Inv`) and the addresses that a process can use (`Mapped`). The contract
-- asks the loader for regions of user space, for a source inside the image of `image_size` bytes, for
-- targets that are mapped, and for an entry point in user space.
pub record Contract (P : Type 0) (ops : ProcessOperations P) (image_size : ℕ) : Type 1 where
  pub Inv : P → Type 0
  pub Mapped : P → ℕ → Type 0
  pub map_region :
      (p : P) (start size : ℕ)
      → InUser start size
      → Inv p
      → Inv ((ops.map_user_region p start size).1)
  pub map_mapped :
      (p : P) (start size a : ℕ)
      → (ops.map_user_region p start size).0 ≡ true
      → start ≤ a
      → a < start + size
      → Mapped ((ops.map_user_region p start size).1) a
  pub map_keeps :
      (p : P) (start size a : ℕ) → Mapped p a → Mapped ((ops.map_user_region p start size).1) a
  pub copy :
      (p : P) (dest offset size : ℕ)
      → offset + size ≤ image_size
      → ((a : ℕ) → dest ≤ a → a < dest + size → Mapped p a)
      → Inv p
      → Inv ((ops.copy_to_user_init p dest offset size).1)
  pub copy_keeps :
      (p : P) (dest offset size a : ℕ)
      → Mapped p a
      → Mapped ((ops.copy_to_user_init p dest offset size).1) a
  pub zero_bytes :
      (p : P) (dest size : ℕ)
      → ((a : ℕ) → dest ≤ a → a < dest + size → Mapped p a)
      → Inv p
      → Inv ((ops.zero_user_init p dest size).1)
  pub stack :
      (p : P) (base top : ℕ)
      → base < top
      → InUser base (top - base)
      → Inv p
      → Inv (ops.set_user_stack p base top)
  pub entry :
      (p : P) (at : ℕ) → 0x1000000 ≤ at → at < 0xc0000000 → Inv p → Inv (ops.set_user_entry p at)
  pub code_base :
      (p : P) (at : ℕ) → 0x1000000 ≤ at → at < 0xc0000000 → Inv p → Inv (ops.set_code_base p at)

module _ {P : Type 0} (Inv : P → Type 0) where
  -- After a call that kept `Inv`, what follows has to keep it only where the call succeeded.
  pub after-keeps :
      (r : Bool × P) (next : P → Status × P)
      → Inv r.1
      → (r.0 ≡ true → Inv r.1 → Inv (next r.1).1)
      → Inv (after r next).1
  unfolding after
  after-keeps (false, p) next kept goes_on = kept
  after-keeps (true, p) next kept goes_on = goes_on refl kept

  pub on_loaded-keeps :
      (r : Status × P) (next : P → Status × P)
      → Inv r.1
      → (r.0 ≡ loaded → Inv r.1 → Inv (next r.1).1)
      → Inv (on_loaded r next).1
  unfolding on_loaded
  on_loaded-keeps (loaded, p) next kept goes_on = goes_on refl kept
  on_loaded-keeps (invalid, p) next kept goes_on = kept
  on_loaded-keeps (unsupported, p) next kept goes_on = kept
  on_loaded-keeps (too_large, p) next kept goes_on = kept
  on_loaded-keeps (load_failed, p) next kept goes_on = kept

  pub if-keeps :
      (test : Bool) (left right : Status × P)
      → (test ≡ true → Inv left.1)
      → (test ≡ false → Inv right.1)
      → Inv (if test then left else right).1
  if-keeps true left right h k = h refl
  if-keeps false left right h k = k refl

-- What follows `on_loaded` only runs, and succeeds, where all did.
pub on_loaded-loaded :
    {P : Type 0} (r : Status × P) (next : P → Status × P)
    → (on_loaded r next).0 ≡ loaded
    → (r.0 ≡ loaded) × ((next r.1).0 ≡ loaded)
unfolding on_loaded
on_loaded-loaded (loaded, p) next e = (refl, e)
on_loaded-loaded (invalid, p) next e = ground arith
on_loaded-loaded (unsupported, p) next e = ground arith
on_loaded-loaded (too_large, p) next e = ground arith
on_loaded-loaded (load_failed, p) next e = ground arith
