-- ===== src/StackBenchmark/Contract.antt =====
-- What lab3/StackBenchmark.c relies on in a stack: it is last in, first out, as long as there is room
-- for the threads that pop.
use distibuted_sys.Base.{
  ℕ, suc, ◌≤◌, ◌<◌, ◌≡◌, Bool, true, false, none, some, List, [], ◌∷◌, ◌==◌, arith,
}
use distibuted_sys.Base.Threads.{
  update, sum_threads, sum_threads-suc, sum_threads-le, sum_threads-const,
}
use distibuted_sys.StackBenchmark.{max_threads, SharedStack}

abbrev pub bit : Bool → ℕ
bit true = 1
bit false = 0

-- The main thread has the number `max_threads`. With `t` among them, at most `max_threads` threads
-- are inside: they have called `stack_pop` and have not left.
abbrev pub HasRoom : (ℕ → Bool) → ℕ → Type 0
HasRoom inside t = sum_threads bit (suc max_threads) (update inside t true) ≤ max_threads

bit-le : (b : Bool) → bit b ≤ 1
bit-le true = omega arith
bit-le false = omega arith

-- While the main thread is not inside, each of the others has room,
pub HasRoom-thread :
    (inside : ℕ → Bool) (t : ℕ) → t < max_threads → inside max_threads ≡ false → HasRoom inside t
HasRoom-thread inside t lt main =
    let f = update inside t true in
    let last : bit (f max_threads) ≡ 0 = ground (arith, main) in
    omega (arith, sum_threads-suc bit max_threads f, last, sum_threads-le bit bit-le max_threads f)

-- and so has the main thread, when the others have left.
pub HasRoom-main :
    (inside : ℕ → Bool)
    → ((t : ℕ) → t < max_threads → inside t ≡ false)
    → HasRoom inside max_threads
HasRoom-main inside gone =
    let f = update inside max_threads true in
    let last : bit (f max_threads) ≡ 1 = ground arith in
    let rest = sum_threads-const bit max_threads 0 f (λ t lt.
      let other : (max_threads == t) ≡ false = ground arith in ground (arith, other, gone t lt)) in
    omega (arith, sum_threads-suc bit max_threads f, last, rest)

-- `Holds s vs inside`: the stack has the values `vs`, the first on top, and only the threads of
-- `inside` are inside. `Fits` is what the system has to answer.
pub record Contract (k : SharedStack) : Type 1 where
  pub Holds : k.Store → List ℕ → (ℕ → Bool) → Type 0
  pub Fits : k.Answer → k.Store → Type 0
  pub start : k.Store
  pub starts : k.init ≡ some start
  pub empty : Holds start [] (λ _. false)
  pub pushes :
      (a : k.Answer) (t v : ℕ) (s : k.Store) (vs : List ℕ) (inside : ℕ → Bool)
      → Holds s vs inside
      → Fits a s
      → (s' : k.Store) × (k.push a t v s ≡ some s') × Holds s' (v ∷ vs) inside
  pub pops :
      (a : k.Answer) (t v : ℕ) (s : k.Store) (vs : List ℕ) (inside : ℕ → Bool)
      → Holds s (v ∷ vs) inside
      → Fits a s
      → t ≤ max_threads
      → HasRoom inside t
      → (s' : k.Store) × (k.pop a t s ≡ some (some v, s')) × Holds s' vs (update inside t true)
  pub finds_none :
      (a : k.Answer) (t : ℕ) (s : k.Store) (inside : ℕ → Bool)
      → Holds s [] inside
      → Fits a s
      → t ≤ max_threads
      → HasRoom inside t
      → (s' : k.Store) × (k.pop a t s ≡ some (none, s')) × Holds s' [] (update inside t true)
  pub leaves :
      (t : ℕ) (s : k.Store) (vs : List ℕ) (inside : ℕ → Bool)
      → Holds s vs inside
      → t ≤ max_threads
      → Holds (k.leave t s) vs (update inside t false)
