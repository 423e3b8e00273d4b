-- ===== src/Lock/Tas/Sleep.antt =====
-- The sleeps of `TAS_acquire` while the lock stays taken.
use distibuted_sys.Base.{
  ℕ, ◌-◌, ◌≤◌, ◌≡◌, refl, inl, Option, none, some, List, [], ◌∷◌, length, arith,
}
use distibuted_sys.Lock.Backoff.{
  cycles_to_spin, ValidSleep, IsBackoff, next_backoff-IsBackoff, sleep_nanoseconds-ValidSleep,
}
use distibuted_sys.Lock.Tas.{Spin, start, spin}

abbrev pub cons_some : Option ℕ → List ℕ → List ℕ
cons_some none ns = ns
cons_some (some n) ns = n ∷ ns

-- The sleeps of the rounds that find the lock taken, one round for each value of `rand()`.
unfoldable pub sleeps : Spin → List ℕ → List ℕ
unfolding spin
sleeps s [] = []
sleeps s (rand ∷ rands) = cons_some (spin rand s).1 (sleeps (spin rand s).0 rands)

abbrev pub AllValid : List ℕ → Type 0
AllValid [] = Unit
AllValid (n ∷ ns) = ValidSleep n × AllValid ns

sleeps-AllValid :
    (s : Spin) (rands : List ℕ) → IsBackoff s.backoff_sleep → AllValid (sleeps s rands)
unfolding sleeps
sleeps-AllValid s [] h = tt
sleeps-AllValid s (rand ∷ rands) h = ground (
  arith,
  sleeps-AllValid (spin rand s).0 rands,
  next_backoff-IsBackoff s.backoff_sleep,
  sleep_nanoseconds-ValidSleep rand s.backoff_sleep,
)

length-sleeps :
    (s : Spin) (rands : List ℕ)
    → s.cycle_no ≤ cycles_to_spin
    → length (sleeps s rands) ≡ length rands - (cycles_to_spin - s.cycle_no)
unfolding sleeps
length-sleeps s [] h = omega arith
length-sleeps s (rand ∷ rands) h = ground (arith, length-sleeps (spin rand s).0 rands)

-- However long the lock stays taken, `TAS_acquire` spins ten rounds and then sleeps in each, at
-- least 1000 and less than 65000 nanoseconds.
pub sleeps_bounds :
    (rands : List ℕ)
    → AllValid (sleeps start rands) × (length (sleeps start rands) ≡ length rands - cycles_to_spin)
unfolding start
sleeps_bounds rands =
    (sleeps-AllValid start rands (inl refl), length-sleeps start rands (omega arith))
