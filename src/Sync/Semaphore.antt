-- ===== src/Sync/Semaphore.antt =====
-- The semaphore of kernel/sync.c, as a resource. Its count is an int32_t, kept as the number of its 32
-- bits: from 2 ^ 31 on it is negative. Where the count is 2 ^ 31 - 1 the source's `count++` is
-- undefined; here it wraps around.
use toyix.Sync.{Resource, World, Did, enter, try_once, give_back}
use toyix.Prelude.{
  ℕ, ◌+◌, ◌-◌, ◌^◌, Bool, ltb, ◌==◌, if◌then◌else◌, ◌&&◌, Result, ok, ◌>>◌, require,
}

-- semaphore_t, less its name and its queue.
pub record Semaphore : Type 0 where
  pub count : ℕ

abbrev pub semaphore_init : (initial : ℕ) → Result Semaphore
semaphore_init initial = do require (ltb initial (2 ^ 31)); ok (record { count = initial })

abbrev pub semaphore_available : Semaphore → Bool
semaphore_available s = ltb 0 s.count && ltb s.count (2 ^ 31)

abbrev pub semaphore_take : ℕ → Semaphore → Semaphore
semaphore_take self s = record { count = if s.count == 0 then 2 ^ 32 - 1 else s.count - 1 }

abbrev pub semaphore_give : ℕ → Semaphore → Result Semaphore
semaphore_give self s = ok (record { count = if s.count == 2 ^ 32 - 1 then 0 else s.count + 1 })

abbrev pub semaphore : Resource Semaphore
semaphore = record {
  available = semaphore_available;
  admit = λ self s. ok tt;
  acquire = semaphore_take;
  release = semaphore_give;
}

-- The calls, up to their first wait or wake-up.
abbrev pub semaphore_wait : ℕ → World Semaphore → Result (Did × World Semaphore)
semaphore_wait self w = enter semaphore self w

abbrev pub semaphore_try_wait : ℕ → World Semaphore → Did × World Semaphore
semaphore_try_wait self w = try_once semaphore self w

abbrev pub semaphore_signal : ℕ → World Semaphore → Result (Did × World Semaphore)
semaphore_signal self w = give_back semaphore self w
