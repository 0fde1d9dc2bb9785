-- ===== src/Sync/Mutex.antt =====
-- The mutex of kernel/sync.c, as a resource.
use toyix.Sync.{Resource, World, Did, enter, try_once, give_back}
use toyix.Prelude.{
  ℕ, Bool, true, false, not, ◌&&◌, ◌==◌, Option, none, some, Result, ok, ◌>>◌, require,
}

-- mutex_t, less its name and its queue.
pub record Mutex : Type 0 where
  pub locked : Bool
  pub owner : Option ℕ

abbrev pub mutex_init : Mutex
mutex_init = record { locked = false; owner = none }

abbrev pub mutex_available : Mutex → Bool
mutex_available m = not m.locked

abbrev pub is_owner : ℕ → Option ℕ → Bool
is_owner self none = false
is_owner self (some owner) = owner == self

-- The panic of mutex_lock on a lock that the thread already has.
abbrev pub mutex_admit : ℕ → Mutex → Result (Unit {0})
mutex_admit self m = require (not (m.locked && is_owner self m.owner))

abbrev pub mutex_acquire : ℕ → Mutex → Mutex
mutex_acquire self m = record { locked = true; owner = some self }

abbrev pub mutex_release : ℕ → Mutex → Result Mutex
mutex_release self m = do
  require m.locked
  require (is_owner self m.owner)
  ok (record { locked = false; owner = none })

abbrev pub mutex : Resource Mutex
mutex = record {
  available = mutex_available;
  admit = mutex_admit;
  acquire = mutex_acquire;
  release = mutex_release;
}

-- The calls, up to their first wait or wake-up.
abbrev pub mutex_lock : ℕ → World Mutex → Result (Did × World Mutex)
mutex_lock self w = enter mutex self w

abbrev pub mutex_try_lock : ℕ → World Mutex → Did × World Mutex
mutex_try_lock self w = try_once mutex self w

abbrev pub mutex_unlock : ℕ → World Mutex → Result (Did × World Mutex)
mutex_unlock self w = give_back mutex self w
