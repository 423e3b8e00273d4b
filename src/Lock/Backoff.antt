-- ===== src/Lock/Backoff.antt =====
-- The exponential backoff of `TAS_acquire` and `TTAS_acquire` in lab2/SpinLocks.c. The constants
-- TAS_MIN_BACKOFF_NANOSECONDS and TTAS_MIN_BACKOFF_NANOSECONDS are one number, and so are the others.
use distibuted_sys.Base.{ℕ, ◌+◌, ◌*◌, ◌%◌, ◌^◌, ◌≤◌, ◌<◌, ◌≡◌, ◌⊎◌, ltb, if◌then◌else◌, arith}

abbrev pub cycles_to_spin : ℕ
cycles_to_spin = 10

abbrev pub min_backoff_nanoseconds : ℕ
min_backoff_nanoseconds = 1000

abbrev pub max_backoff_nanoseconds : ℕ
max_backoff_nanoseconds = 64000

-- `tv_nsec` of the sleep: unsigned arithmetic, and `rand()` is not negative.
unfoldable pub sleep_nanoseconds : ℕ → ℕ → ℕ
sleep_nanoseconds rand backoff_sleep = (backoff_sleep + rand % min_backoff_nanoseconds) % 2 ^ 32

unfoldable pub next_backoff : ℕ → ℕ
next_backoff backoff_sleep =
    if ltb backoff_sleep max_backoff_nanoseconds then backoff_sleep * 2 % 2 ^ 32 else backoff_sleep

-- The values that `backoff_sleep` takes: it doubles from the minimum up to the maximum.
abbrev pub IsBackoff : ℕ → Type 0
IsBackoff b =
    (b ≡ 1000) ⊎ (b ≡ 2000) ⊎ (b ≡ 4000) ⊎ (b ≡ 8000) ⊎ (b ≡ 16000) ⊎ (b ≡ 32000) ⊎ (b ≡ 64000)

pub next_backoff-IsBackoff : (b : ℕ) → IsBackoff b → IsBackoff (next_backoff b)
unfolding next_backoff
next_backoff-IsBackoff b h = ground arith

-- The length of a sleep stays within what `nanosleep` takes (below 10^9) and within the constants.
abbrev pub ValidSleep : ℕ → Type 0
ValidSleep n =
    (min_backoff_nanoseconds ≤ n) × (n < max_backoff_nanoseconds + min_backoff_nanoseconds)

pub sleep_nanoseconds-ValidSleep :
    (rand b : ℕ) → IsBackoff b → ValidSleep (sleep_nanoseconds rand b)
unfolding sleep_nanoseconds
sleep_nanoseconds-ValidSleep rand b h = ground arith
