-- ===== src/Base/Threads.antt =====
-- Families indexed by thread: update at one thread, and sums over the first `n` threads.
use native.Mathlib.Nat.{mul-le-mul_left}
use Prim.Native.Nat.{ℕ, zero, suc, ◌+◌, ◌*◌, ◌≤◌, ◌<◌}
use mathlib.Core.Path.{◌≡◌, refl}
use mathlib.Core.Logic.{inl, inr}
use mathlib.Core.List.{List, [], ◌∷◌}
use native.Mathlib.Omega.{arith}
use distibuted_sys.Base.Tests.{◌==◌, if◌then◌else◌, Bool-cases}

abbrev pub update {ℓ} : {A : Type ℓ} → (ℕ → A) → ℕ → A → ℕ → A
update f i a j = if i == j then a else f j

module _ {ℓ} {A : Type ℓ} (weight : A → ℕ) where
  unfoldable pub sum_threads : ℕ → (ℕ → A) → ℕ
  sum_threads zero f = 0
  sum_threads (suc n) f = sum_threads n f + weight (f n)

  pub sum_threads-suc : (n : ℕ) (f : ℕ → A) → sum_threads (suc n) f ≡ sum_threads n f + weight (f n)
  unfolding sum_threads
  sum_threads-suc n f = refl

  sum_threads-above :
      (n i : ℕ) (f : ℕ → A) (a : A) → n ≤ i → sum_threads n (update f i a) ≡ sum_threads n f
  unfolding sum_threads
  sum_threads-above zero i f a h = refl
  sum_threads-above (suc n) i f a h = ground (arith, sum_threads-above n i f a)

  -- Only the weight of the updated thread changes the sum.
  pub sum_threads-update :
      (n i : ℕ) (f : ℕ → A) (a : A)
      → i < n
      → sum_threads n (update f i a) + weight (f i) ≡ sum_threads n f + weight a
  unfolding sum_threads
  sum_threads-update zero i f a h = absurd (omega arith)
  sum_threads-update (suc n) i f a h =
      ground (arith, sum_threads-update n i f a, sum_threads-above n i f a)

  pub sum_threads-const :
      (n w : ℕ) (f : ℕ → A) → ((i : ℕ) → i < n → weight (f i) ≡ w) → sum_threads n f ≡ n * w
  unfolding sum_threads
  sum_threads-const zero w f h = omega arith
  sum_threads-const (suc n) w f h =
      omega (arith, sum_threads-const n w f (λ i l. h i (omega arith)), h n (omega arith))

  pub sum_threads-le : ((a : A) → weight a ≤ 1) → (n : ℕ) (f : ℕ → A) → sum_threads n f ≤ n
  unfolding sum_threads
  sum_threads-le small zero f = omega arith
  sum_threads-le small (suc n) f = omega (arith, small (f n), sum_threads-le small n f)

  pub sum_threads-ge : (n i : ℕ) (f : ℕ → A) → i < n → weight (f i) ≤ sum_threads n f
  unfolding sum_threads
  sum_threads-ge zero i f h = absurd (omega arith)
  sum_threads-ge (suc n) i f h = elim (Bool-cases (i == n)) [
    | inl same ↦ let e : i ≡ n = ground arith in rw e (omega arith)
    | inr other ↦ omega (arith, sum_threads-ge n i f (ground arith))
  ]

pub sum_threads_mono {ℓ ℓ'} :
    {A : Type ℓ} {B : Type ℓ'} (u : A → ℕ) (w : B → ℕ) (n : ℕ) (f : ℕ → A) (g : ℕ → B)
    → ((i : ℕ) → i < n → u (f i) ≤ w (g i))
    → sum_threads u n f ≤ sum_threads w n g
unfolding sum_threads
sum_threads_mono u w zero f g h = omega arith
sum_threads_mono u w (suc n) f g h =
    omega (arith, sum_threads_mono u w n f g (λ i l. h i (omega arith)), h n (omega arith))

-- Below a bound on the index, a range ends below the same multiple of it.
pub mul-lt : (len i n : ℕ) → i < n → len * i + len ≤ len * n
mul-lt len i n h = omega (arith, mul-le-mul_left len h)

-- How many turns a schedule has for thread `i`.
abbrev pub turns {ℓ} : {A : Type ℓ} → ℕ → List (ℕ × A) → ℕ
turns i [] = 0
turns i ((j, _) ∷ es) = if j == i then suc (turns i es) else turns i es
