-- ===== src/Lock/Ttas.antt =====
-- lab2/SpinLocks.c: `struct TTAS_Lock`, `TTAS_init`, `TTAS_acquire`, `TTAS_release`.
pub mod Exclusion
use distibuted_sys.Base.{ℕ, ◌+◌, ◌%◌, ◌^◌, Option, none, some, ◌==◌, ltb, if◌then◌else◌}
use distibuted_sys.Lock.Backoff.{
  cycles_to_spin, min_backoff_nanoseconds, sleep_nanoseconds, next_backoff,
}

pub record TtasLock : Type 0 where
  pub lock_taken : ℕ

unfoldable pub test_and_set : TtasLock → TtasLock × ℕ
test_and_set lock = (record lock { lock_taken = 1 }, lock.lock_taken)

unfoldable pub init : TtasLock
init = record { lock_taken = 0 }

-- Before which access to the lock a thread in `TTAS_acquire` stands.
pub data Place : Type 0 where
  spinning : (cycle_no : ℕ) → Place  -- the load in the test of the first loop
  loading : (backoff_sleep : ℕ) → Place  -- the load at the head of the second loop
  setting : (backoff_sleep : ℕ) → Place  -- the test-and-set that ends the second loop

-- What a round leaves behind, with the sleep that it makes, if any.
unfoldable pub back_off : ℕ → ℕ → Place × Option ℕ
back_off rand backoff_sleep =
    (loading (next_backoff backoff_sleep), some (sleep_nanoseconds rand backoff_sleep))

-- One access of `TTAS_acquire`.
unfoldable pub poll : ℕ → TtasLock → Place → TtasLock × Option Place
unfolding test_and_set back_off
poll rand lock (spinning cycle_no) = (
  lock,
  some (
      if lock.lock_taken == 0
      then loading min_backoff_nanoseconds
      else if ltb cycle_no cycles_to_spin
      then spinning ((cycle_no + 1) % 2 ^ 32)
      else loading min_backoff_nanoseconds),
)
poll rand lock (loading backoff_sleep) = (
  lock,
  some (if lock.lock_taken == 0 then setting backoff_sleep else (back_off rand backoff_sleep).0),
)
poll rand lock (setting backoff_sleep) =
    let (lock', taken) = test_and_set lock in
    (lock', if taken == 0 then none else some (loading backoff_sleep))

unfoldable pub release : TtasLock → TtasLock
release lock = record lock { lock_taken = 0 }
