-- ===== src/Lock/Tas.antt =====
-- lab2/SpinLocks.c: `struct TAS_Lock`, `TAS_init`, `TAS_acquire`, `TAS_release`.
pub mod Exclusion
pub mod Sleep
use distibuted_sys.Base.{ℕ, ◌+◌, ◌-◌, ◌%◌, ◌^◌, Option, none, some, ◌==◌, if◌then◌else◌}
use distibuted_sys.Lock.Backoff.{
  cycles_to_spin, min_backoff_nanoseconds, sleep_nanoseconds, next_backoff,
}

pub record TasLock : Type 0 where
  pub lock_taken : ℕ

-- The value that `__atomic_test_and_set` stores: 1 on the machines of the lab.
abbrev pub set_value : ℕ
set_value = 1

-- The new byte, and the byte before.
unfoldable pub test_and_set : TasLock → TasLock × ℕ
test_and_set lock = (record lock { lock_taken = set_value }, lock.lock_taken)

unfoldable pub init : TasLock
init = record { lock_taken = 0 }

pub record Spin : Type 0 where
  pub cycle_no : ℕ
  pub backoff_sleep : ℕ

unfoldable pub start : Spin
start = record { cycle_no = 0; backoff_sleep = min_backoff_nanoseconds }

-- The body of the loop and `++cycle_no`, with the sleep that it makes, if any.
unfoldable pub spin : ℕ → Spin → Spin × Option ℕ
spin rand s =
    if s.cycle_no == cycles_to_spin
    then (
      record {
        cycle_no = (cycles_to_spin - 1 + 1) % 2 ^ 32;
        backoff_sleep = next_backoff s.backoff_sleep;
      },
      some (sleep_nanoseconds rand s.backoff_sleep),
    )
    else (record s { cycle_no = (s.cycle_no + 1) % 2 ^ 32 }, none)

-- One round of the loop of `TAS_acquire`.
unfoldable pub poll : ℕ → TasLock → Spin → TasLock × Option Spin
unfolding test_and_set
poll rand lock s =
    let (lock', taken) = test_and_set lock in
    (lock', if taken == 0 then none else some (spin rand s).0)

unfoldable pub release : TasLock → TasLock
release lock = record lock { lock_taken = 0 }
