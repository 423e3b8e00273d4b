-- ===== src/StackBenchmark/Passed.antt =====
-- What `run_test_correctness` of lab3/StackBenchmark.c prints.
use distibuted_sys.Base.{
  ℕ, ◌*◌, ◌^◌, ◌<◌, ◌≤◌, ◌≡◌, ◌≢◌, refl, true, some, List, [], ◌∷◌, inl, inr, arith, ◌==◌,
  Bool-cases, length, replicate,
}
use distibuted_sys.Stack.{Memory}
use distibuted_sys.StackBenchmark.{
  max_threads, correctness_test_num_to_push, SharedStack, Round, rounds, thread_counts,
  run_test_correctness,
}
use distibuted_sys.StackBenchmark.Tally.{count}
use distibuted_sys.StackBenchmark.Contract.{Contract}
use distibuted_sys.StackBenchmark.Counted.{checked}
use distibuted_sys.StackBenchmark.Turns.{Fitting}
use distibuted_sys.StackBenchmark.Rounds.{rounds-passed}
use distibuted_sys.StackBenchmark.HazardStack.{hazard_stack}
use distibuted_sys.StackBenchmark.Kept.{hazard_stack-Contract}

abbrev AllAtMost : ℕ → List ℕ → Type 0
AllAtMost b [] = Unit
AllAtMost b (n ∷ ns) = (n ≤ b) × AllAtMost b ns

count-AllAtMost : (b n : ℕ) (ns : List ℕ) → AllAtMost b ns → count n ns ≢ 0 → n ≤ b
count-AllAtMost b n [] all there = absurd (there refl)
count-AllAtMost b n (m ∷ ns) (l, all) there = elim (Bool-cases (m == n)) [
  | inl e ↦ ground arith
  | inr e ↦ count-AllAtMost b n ns all (rw e at there)
]

thread_counts-AllAtMost : AllAtMost max_threads thread_counts
thread_counts-AllAtMost = (
  omega arith,
  (
    omega arith,
    (
      omega arith,
      (
        omega arith,
        (
          omega arith,
          (
            omega arith,
            (
              omega arith,
              (
                omega arith,
                (
                  omega arith,
                  (
                    omega arith,
                    (
                      omega arith,
                      (omega arith, (omega arith, (omega arith, (omega arith, (omega arith, tt))))),
                    ),
                  ),
                ),
              ),
            ),
          ),
        ),
      ),
    ),
  ),
)

-- Over a stack that keeps the contract, run_test_correctness prints PASSED in each of its rounds,
-- in every order of the operations of the threads in which each thread gets turns enough to finish,
-- if the system answers as the stack needs it.
pub run_test_correctness-passed :
    (k : SharedStack) (x : Contract k) (answers : ℕ → Round k)
    → ((n : ℕ) (log : ℕ → ℕ)
        → count n thread_counts ≢ 0
        → Fitting k x correctness_test_num_to_push n log (answers n))
    → run_test_correctness k answers ≡ some (replicate (length thread_counts) true)
unfolding run_test_correctness
run_test_correctness-passed k x answers fit =
    rounds-passed k x correctness_test_num_to_push (omega arith) thread_counts (λ v. 0) answers
      (λ n there. count-AllAtMost max_threads n thread_counts thread_counts-AllAtMost there) fit

-- The correctness test of the stack of lab3/Stack.c prints PASSED for any numbers of threads up to
-- 64, in every order of the operations of the threads in which each thread gets turns enough to
-- finish, if the system answers as the stack needs it and the log is shorter than 2^32.
pub hazard_stack-passed :
    (blank : Memory) (num : ℕ) (ns : List ℕ) (log : ℕ → ℕ)
    (answers : ℕ → Round (hazard_stack blank))
    → num * max_threads < 2 ^ 32
    → ((n : ℕ) → count n ns ≢ 0 → n ≤ max_threads)
    → ((n : ℕ) (log : ℕ → ℕ)
        → count n ns ≢ 0
        → Fitting (hazard_stack blank) (hazard_stack-Contract blank) num n log (answers n))
    → rounds (hazard_stack blank) (checked num) ns log answers ≡ some (replicate (length ns) true)
hazard_stack-passed blank num ns log answers small few fit =
    rounds-passed (hazard_stack blank) (hazard_stack-Contract blank) num small ns log answers few
      fit
