-- ===== src/Matrix.antt =====
-- lab1/ConsoleApplication3.cpp: the product of two square matrices, over threads and without. The
-- numbers of the program are of type `double`; here they are any type with a zero, a sum and a
-- product, of which nothing is assumed.
pub mod Cells
pub mod Product
mod Tests
use distibuted_sys.Base.{ℕ, zero, suc, ◌+◌, ◌-◌, ◌*◌, ◌/◌, List, [], ◌∷◌, ◌==◌, if◌then◌else◌}

-- The cells that a matrix has are those below its size.
abbrev pub Matrix {ℓ} : Type ℓ → Type ℓ
Matrix A = ℕ → ℕ → A

pub record Scalar {ℓ} (A : Type ℓ) : Type ℓ where
  pub zero : A
  pub add : A → A → A
  pub mul : A → A → A

-- The rows of thread `i`.
unfoldable pub left_of : ℕ → ℕ → ℕ → ℕ
left_of rank number_of_threads i = i * (rank / number_of_threads)

unfoldable pub right_of : ℕ → ℕ → ℕ → ℕ
right_of rank number_of_threads i =
    if i == number_of_threads - 1 then rank else (i + 1) * (rank / number_of_threads)

module _ {ℓ} {A : Type ℓ} (s : Scalar A) where
  -- `m[i][j] = v`
  abbrev pub put : Matrix A → ℕ → ℕ → A → Matrix A
  put m i j v r c = if i == r then (if j == c then v else m r c) else m r c

  -- The loop over `k`, below `n`: `m[i][j] += term(k)`.
  unfoldable pub add_terms : (ℕ → A) → ℕ → ℕ → ℕ → Matrix A → Matrix A
  add_terms term i j zero m = m
  add_terms term i j (suc n) m =
      let m' = add_terms term i j n m in put m' i j (s.add (m' i j) (term n))

  -- The loop over `j`, below `n`, with `terms` numbers in each sum.
  unfoldable pub add_row : (ℕ → ℕ → A) → ℕ → ℕ → ℕ → Matrix A → Matrix A
  add_row term i terms zero m = m
  add_row term i terms (suc n) m = add_terms (term n) i n terms (add_row term i terms n m)

  -- The loop over `n` rows from `left` on.
  unfoldable pub add_rows : (ℕ → ℕ → ℕ → A) → ℕ → ℕ → ℕ → ℕ → Matrix A → Matrix A
  add_rows term size terms left zero m = m
  add_rows term size terms left (suc n) m =
      add_row (term (left + n)) (left + n) terms size (add_rows term size terms left n m)

  -- `Many_threads`, for the rows from `left` up to `right`.
  unfoldable pub many_threads : Matrix A → Matrix A → ℕ → ℕ → ℕ → Matrix A → Matrix A
  many_threads first second left right size =
      add_rows (λ i j k. s.mul (first i k) (second j k)) size size left (right - left)

  -- `transponent`
  abbrev pub transposed : Matrix A → Matrix A
  transposed m i j = m j i

  abbrev pub zeros : Matrix A
  zeros i j = s.zero

  -- The threads, in the order in which they run.
  unfoldable pub run_threads : Matrix A → Matrix A → ℕ → ℕ → List ℕ → Matrix A → Matrix A
  run_threads first second rank number_of_threads [] m = m
  run_threads first second rank number_of_threads (i ∷ order) m =
      run_threads first second rank number_of_threads order (
        many_threads first second (left_of rank number_of_threads i)
          (right_of rank number_of_threads i) rank m)

  -- `Multiply`
  unfoldable pub multiply : Matrix A → Matrix A → ℕ → ℕ → List ℕ → Matrix A
  multiply first second rank number_of_threads order =
      run_threads first (transposed second) rank number_of_threads order zeros

  -- `MultiplyWithOutAMP`: its inner loop stops before `rank - 1`.
  unfoldable pub multiply_without_amp : Matrix A → Matrix A → ℕ → Matrix A
  multiply_without_amp a b rank =
      add_rows (λ row col inner. s.mul (a row inner) (b inner col)) rank (rank - 1) 0 rank zeros

  -- The sum of the first `n` terms, from `a` on.
  abbrev pub sum : (ℕ → A) → ℕ → A → A
  sum term zero a = a
  sum term (suc n) a = s.add (sum term n a) (term n)
