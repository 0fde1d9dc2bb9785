-- ===== src/Sync/Laws.antt =====
-- The mutex and the semaphore keep the promises of a resource.
use toyix.Sync.Mutex.{Mutex, mutex}
use toyix.Sync.Semaphore.{Semaphore, semaphore}
use toyix.Sync.Valid.{Lawful}
use toyix.Prelude.{ℕ, ◌^◌, ltb, if◌then◌else◌, arith}

-- One thread can have a mutex that is not locked.
abbrev pub mutex_units : Mutex → ℕ
mutex_units m = if m.locked then 0 else 1

abbrev pub mutex_laws : Lawful mutex
mutex_laws = record {
  units = mutex_units;
  available_lem = λ m e. ground arith;
  unavailable_lem = λ m e. ground arith;
  acquire_lem = λ self m e. ground arith;
  release_lem = λ self m m' e. ground arith;
}

-- As many threads can have a semaphore as its count says, none where it is negative.
abbrev pub semaphore_units : Semaphore → ℕ
semaphore_units s = if ltb s.count (2 ^ 31) then s.count else 0

abbrev pub semaphore_laws : Lawful semaphore
semaphore_laws = record {
  units = semaphore_units;
  available_lem = λ s e. ground arith;
  unavailable_lem = λ s e. ground arith;
  acquire_lem = λ self s e. ground arith;
  release_lem = λ self s s' e. ground arith;
}
