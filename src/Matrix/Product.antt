-- ===== src/Matrix/Product.antt =====
-- `Multiply` and `MultiplyWithOutAMP` of lab1/ConsoleApplication3.cpp against sums of products.
use distibuted_sys.Base.{
  ℕ, zero, suc, ◌+◌, ◌-◌, ◌*◌, ◌/◌, ◌≤◌, ◌<◌, ◌≡◌, ◌≢◌, refl, ◌∙◌, ap, sym, true, false, List, [],
  ◌∷◌, inl, inr, arith, ◌==◌, ltb, if◌then◌else◌, Bool-cases, ◌⊎◌,
}
use native.Mathlib.Nat.{mul-le-mul_right}
use distibuted_sys.Matrix.{
  Matrix, Scalar, zeros, transposed, many_threads, left_of, right_of, run_threads, multiply,
  multiply_without_amp, sum,
}
use distibuted_sys.Matrix.Cells.{add_rows-outside, add_rows-inside}

-- How often a thread runs.
abbrev pub runs : ℕ → List ℕ → ℕ
runs i [] = 0
runs i (t ∷ order) = if t == i then suc (runs i order) else runs i order

-- The row `i` is one of thread `t`, of `n`.
abbrev Owns : ℕ → ℕ → ℕ → ℕ → Type 0
Owns rank n t i = (left_of rank n t ≤ i) × (i < right_of rank n t)

below-find : (w m i : ℕ) → i < m * w → (t : ℕ) × (t < m) × (t * w ≤ i) × (i < (t + 1) * w)
below-find w zero i h = absurd (omega (arith, h))
below-find w (suc m) i h = elim (Bool-cases (ltb i (m * w))) [
  | inl low ↦
      let (t, lt, ge, below) = below-find w m i (ground arith) in (t, omega arith, ge, below)
  | inr high ↦ (m, omega arith, ground arith, omega (arith, h))
]

Owns-thread : (rank n i : ℕ) → i < rank → 1 ≤ n → (t : ℕ) × (t < n) × Owns rank n t i
unfolding left_of right_of
Owns-thread rank n i h some = elim (Bool-cases (ltb i ((n - 1) * (rank / n)))) [
  | inl low ↦
      let (t, lt, ge, below) = below-find (rank / n) (n - 1) i (ground arith) in
      let e : (t == n - 1) ≡ false = ground arith in (t, omega arith, (ge, rw e below))
  | inr high ↦
      let e : (n - 1 == n - 1) ≡ true = ground arith in (n - 1, omega arith, (ground arith, rw e h))
]

Owns-lt : (rank n t u i : ℕ) → u < n → t < u → Owns rank n t i → left_of rank n u ≤ i → t ≡ u
unfolding left_of right_of
Owns-lt rank n t u i h lt (a, b) c =
    let e : (t == n - 1) ≡ false = ground arith in
    let b' : i < (t + 1) * (rank / n) = rw e at b in
    let far : (t + 1) * (rank / n) ≤ u * (rank / n) = mul-le-mul_right (rank / n) (omega arith) in
    absurd (omega (arith, b', far, c))

-- No other thread has the row.
Owns-unique : (rank n t u i : ℕ) → t < n → u < n → Owns rank n t i → Owns rank n u i → t ≡ u
Owns-unique rank n t u i ht hu o p = elim (Bool-cases (ltb t u)) [
  | inl lt ↦ Owns-lt rank n t u i hu (ground arith) o p.0
  | inr above ↦ elim (Bool-cases (ltb u t)) [
    | inl lt ↦ sym (Owns-lt rank n u t i ht (ground arith) p o.0)
    | inr same ↦ ground arith
  ]
]

module _ {ℓ} {A : Type ℓ} (s : Scalar A) (first second : Matrix A) (rank n : ℕ) where
  -- A thread leaves the rows of the others as they are.
  many_threads-other :
      (t u i j : ℕ) (m : Matrix A)
      → t < n
      → u < n
      → t ≢ u
      → Owns rank n u i
      → many_threads s first second (left_of rank n t) (right_of rank n t) rank m i j ≡ m i j
  unfolding many_threads
  many_threads-other t u i j m ht hu ne o =
      add_rows-outside s _ rank rank (left_of rank n t) (right_of rank n t - left_of rank n t) i j m
        apart
    where
      apart :
          (i < left_of rank n t) ⊎ (left_of rank n t + (right_of rank n t - left_of rank n t) ≤ i)
      apart = elim (Bool-cases (ltb i (left_of rank n t))) [
        | inl low ↦ inl (ground arith)
        | inr high ↦ elim (Bool-cases (ltb i (right_of rank n t))) [
          | inl own ↦ absurd (ne (Owns-unique rank n t u i ht hu (ground arith, ground arith) o))
          | inr beyond ↦ inr (ground arith)
        ]
      ]

  many_threads-own :
      (u i j : ℕ) (m : Matrix A)
      → j < rank
      → Owns rank n u i
      → many_threads s first second (left_of rank n u) (right_of rank n u) rank m i j
        ≡ sum s (λ k. s.mul (first i k) (second j k)) rank (m i j)
  unfolding many_threads
  many_threads-own u i j m h (a, b) =
      add_rows-inside s (λ r c k. s.mul (first r k) (second c k)) rank rank (left_of rank n u)
        (right_of rank n u - left_of rank n u) i j m a (omega arith) h

  run_threads-out :
      (order : List ℕ) (u i j : ℕ) (m : Matrix A)
      → u < n
      → Owns rank n u i
      → ((t : ℕ) → runs t order ≢ 0 → t < n)
      → runs u order ≡ 0
      → run_threads s first second rank n order m i j ≡ m i j
  unfolding run_threads
  run_threads-out [] u i j m hu o known e = refl
  run_threads-out (t ∷ order) u i j m hu o known e =
      let self : (t == t) ≡ true = ground arith in
      let ne : t ≢ u = ground (arith, e) in
      let ht : t < n = known t (ground (arith, self)) in
      run_threads-out order u i j _ hu o (λ v h. known v (ground (arith, h))) (ground (arith, e))
      ∙ many_threads-other t u i j m ht hu ne o

  run_threads-once :
      (order : List ℕ) (u i j : ℕ) (m : Matrix A)
      → j < rank
      → u < n
      → Owns rank n u i
      → ((t : ℕ) → runs t order ≢ 0 → t < n)
      → runs u order ≡ 1
      → run_threads s first second rank n order m i j
        ≡ sum s (λ k. s.mul (first i k) (second j k)) rank (m i j)
  unfolding run_threads
  run_threads-once [] u i j m hj hu o known e = absurd (omega (arith, e))
  run_threads-once (t ∷ order) u i j m hj hu o known e = elim (Bool-cases (t == u)) [
    | inl here ↦
        let h : t ≡ u = ground arith in
        let rest : runs u order ≡ 0 = ground (arith, e) in
        run_threads-out order u i j _ hu o (λ v q. known v (ground (arith, q))) rest
        ∙ rw h (many_threads-own u i j m hj o)
    | inr other ↦
        let self : (t == t) ≡ true = ground arith in
        let ht : t < n = known t (ground (arith, self)) in
        run_threads-once order u i j _ hj hu o (λ v q. known v (ground (arith, q)))
          (ground (arith, e))
        ∙ ap (sum s (λ k. s.mul (first i k) (second j k)) rank)
            (many_threads-other t u i j m ht hu (ground arith) o)
  ]

-- With one thread or more, in whatever order they run, each of them once, Multiply makes each cell
-- of the product the sum of the products of the row with the column, in order, from zero.
pub multiply-sum {ℓ} :
    {A : Type ℓ} (s : Scalar A) (first second : Matrix A) (rank number_of_threads : ℕ)
    (order : List ℕ) (i j : ℕ)
    → 1 ≤ number_of_threads
    → ((t : ℕ) → t < number_of_threads → runs t order ≡ 1)
    → ((t : ℕ) → runs t order ≢ 0 → t < number_of_threads)
    → i < rank
    → j < rank
    → multiply s first second rank number_of_threads order i j
      ≡ sum s (λ k. s.mul (first i k) (second k j)) rank s.zero
unfolding multiply
multiply-sum s first second rank n order i j some once known hi hj =
    let (u, hu, o) = Owns-thread rank n i hi some in
    run_threads-once s first (transposed s second) rank n order u i j (zeros s) hj hu o known
      (once u hu)

-- MultiplyWithOutAMP makes each cell the sum of the products of the row with the column without the
-- last one, in order, from zero.
pub multiply_without_amp-sum {ℓ} :
    {A : Type ℓ} (s : Scalar A) (a b : Matrix A) (rank i j : ℕ)
    → i < rank
    → j < rank
    → multiply_without_amp s a b rank i j ≡ sum s (λ k. s.mul (a i k) (b k j)) (rank - 1) s.zero
unfolding multiply_without_amp
multiply_without_amp-sum s a b rank i j hi hj =
    add_rows-inside s (λ row col inner. s.mul (a row inner) (b inner col)) rank (rank - 1) 0 rank i
      j (zeros s) (omega arith) (omega arith) hj
