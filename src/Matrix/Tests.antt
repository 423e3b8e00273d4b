-- ===== src/Matrix/Tests.antt =====
-- Products of small matrices by lab1/ConsoleApplication3.cpp.
use distibuted_sys.Base.{ℕ, zero, suc, ◌+◌, ◌*◌, ◌<◌, ◌≡◌, ◌≢◌, refl, [], ◌∷◌, arith}
use distibuted_sys.Matrix.{Scalar, Matrix, multiply, multiply_without_amp}
use distibuted_sys.Matrix.Product.{runs, multiply-sum, multiply_without_amp-sum}

abbrev numbers : Scalar ℕ
numbers = record { zero = 0; add = λ a b. a + b; mul = λ a b. a * b }

abbrev ones : Matrix ℕ
ones i j = 1

-- Two threads, of which the second runs first.
each_once : (t : ℕ) → t < 2 → runs t (1 ∷ 0 ∷ []) ≡ 1
each_once zero h = refl
each_once (suc zero) h = refl
each_once (suc (suc t)) h = absurd (omega arith)

only_two : (t : ℕ) → runs t (1 ∷ 0 ∷ []) ≢ 0 → t < 2
only_two zero h = omega arith
only_two (suc zero) h = omega arith
only_two (suc (suc t)) h = absurd (h (ground arith))

multiply-sum_example : multiply numbers ones ones 3 2 (1 ∷ 0 ∷ []) 1 2 ≡ 3
multiply-sum_example =
    multiply-sum numbers ones ones 3 2 (1 ∷ 0 ∷ []) 1 2 (omega arith) each_once only_two
      (omega arith) (omega arith)

multiply_without_amp-sum_example : multiply_without_amp numbers ones ones 3 1 2 ≡ 2
multiply_without_amp-sum_example =
    multiply_without_amp-sum numbers ones ones 3 1 2 (omega arith) (omega arith)
