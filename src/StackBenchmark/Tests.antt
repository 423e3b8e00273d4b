-- ===== src/StackBenchmark/Tests.antt =====
-- Runs of the correctness test of lab3/StackBenchmark.c.
use distibuted_sys.Base.{
  Bool, ℕ, zero, suc, ◌+◌, ◌*◌, ◌<◌, ◌≤◌, ◌≡◌, ◌≢◌, refl, ap, subst, true, false, Option, some,
  none, List, [], ◌∷◌, ◌++◌, inl, inr, arith, ◌==◌, Bool-cases, replicate,
}
use distibuted_sys.Stack.{Memory, null, no_error}
use distibuted_sys.Stack.Hazard.{
  acquire_cell, hazard_pointer_init, hazard_pointer_cleanup, set_hazard,
  get_hazard_pointer_for_current_thread,
}
use distibuted_sys.Stack.Reclaim.{weak_exchange, add_to_reclaim_list}
use distibuted_sys.Stack.Access.{
  exchange_head, push_loop, stack_push, protect, unlink, retire, stack_pop,
}
use distibuted_sys.StackBenchmark.{
  correctness_test_num_to_push, SharedStack, Bench, Round, turn, spawn, work, run, rounds,
  run_test_correctness,
}
use distibuted_sys.StackBenchmark.Tally.{count}
use distibuted_sys.StackBenchmark.Contract.{Contract}
use distibuted_sys.StackBenchmark.Counted.{checked}
use distibuted_sys.Base.Threads.{sum_threads, turns}
use distibuted_sys.StackBenchmark.Turns.{Fitting, AllFit}
use distibuted_sys.StackBenchmark.HazardStack.{
  Answers, Fits, hazard_stack, shared_push, shared_pop, shared_leave,
}
use distibuted_sys.StackBenchmark.Kept.{started, hazard_stack-Contract}
use distibuted_sys.StackBenchmark.Counted.{flight, made}
use distibuted_sys.StackBenchmark.Conserved.{run-conserves}
use distibuted_sys.StackBenchmark.Passed.{run_test_correctness-passed, hazard_stack-passed}

-- A stack that is a list, and asks nothing of the system.
abbrev list_pop : List ℕ → Option ℕ × List ℕ
list_pop [] = (none, [])
list_pop (v ∷ vs) = (some v, vs)

abbrev list_stack : SharedStack
list_stack = record {
  Store = List ℕ;
  Answer = Unit {0};
  init = some [];
  push = λ _ t v vs. some (v ∷ vs);
  pop = λ _ t vs. some (list_pop vs);
  leave = λ t vs. vs;
}

list_stack-Contract : Contract list_stack
list_stack-Contract = record {
  Holds = λ s vs _. s ≡ vs;
  Fits = λ _ _. Unit;
  start = [];
  starts = refl;
  empty = refl;
  pushes = λ a t v s vs inside h _. (v ∷ s, refl, ap (λ ws. v ∷ ws) h);
  pops = λ a t v s vs inside h _ _ _. (vs, ap (λ ws. some (list_pop ws)) h, refl);
  finds_none = λ a t s inside h _ _ _. ([], ap (λ ws. some (list_pop ws)) h, refl);
  leaves = λ t s vs inside h _. h;
}

-- Every thread below `n` in turn, `m` times over.
abbrev in_turn : ℕ → List (ℕ × Unit {0})
in_turn zero = []
in_turn (suc n) = (n, tt) ∷ in_turn n

abbrev repeat : ℕ → List (ℕ × Unit {0}) → List (ℕ × Unit {0})
repeat zero es = []
repeat (suc m) es = es ++ repeat m es

turns-append : (i : ℕ) (es fs : List (ℕ × Unit {0})) → turns i (es ++ fs) ≡ turns i es + turns i fs
turns-append i [] fs = omega arith
turns-append i ((j, a) ∷ es) fs = elim (Bool-cases (j == i)) [
  | inl e ↦ rw e (omega (arith, turns-append i es fs))
  | inr e ↦ rw e (turns-append i es fs)
]

turns-in_turn : (i n : ℕ) → i < n → 1 ≤ turns i (in_turn n)
turns-in_turn i zero lt = absurd (omega arith)
turns-in_turn i (suc n) lt = elim (Bool-cases (n == i)) [
  | inl e ↦ rw e (omega arith)
  | inr e ↦ rw e (turns-in_turn i n (ground arith))
]

turns-repeat : (i n m : ℕ) → i < n → m ≤ turns i (repeat m (in_turn n))
turns-repeat i n zero lt = omega arith
turns-repeat i n (suc m) lt = omega (
  arith,
  turns-append i (in_turn n) (repeat m (in_turn n)),
  turns-in_turn i n lt,
  turns-repeat i n m lt,
)

list_stack-AllFit :
    (num n : ℕ) (es : List (ℕ × Unit {0})) (b : Bench list_stack)
    → AllFit list_stack list_stack-Contract num n es b
unfolding list_stack-Contract
list_stack-AllFit num n [] b = tt
list_stack-AllFit num n (e ∷ es) b = (tt, λ b' _. list_stack-AllFit num n es b')

abbrev all_in_turn : ℕ → ℕ → Round list_stack
all_in_turn num n = record {
  before = λ _. tt;
  schedule = repeat (3 * num + 2) (in_turn n);
  after = tt;
}

all_in_turn-Fitting :
    (num n : ℕ) (log : ℕ → ℕ) → Fitting list_stack list_stack-Contract num n log (all_in_turn num n)
unfolding list_stack-Contract
all_in_turn-Fitting num n log = record {
  steps = list_stack-AllFit num n _ _;
  last = λ b e. tt;
  enough = λ i lt. turns-repeat i n (3 * num + 2) lt;
}

run_test_correctness-passed_example :
    run_test_correctness list_stack (all_in_turn correctness_test_num_to_push)
    ≡ some (replicate 16 true)
run_test_correctness-passed_example =
    run_test_correctness-passed list_stack list_stack-Contract
      (all_in_turn correctness_test_num_to_push)
      (λ n log _. all_in_turn-Fitting correctness_test_num_to_push n log)

-- The first thread pushes both of its values and pops the last.
abbrev some_turns : List (ℕ × Unit {0})
some_turns = (0, tt) ∷ (0, tt) ∷ (1, tt) ∷ (0, tt) ∷ (0, tt) ∷ []

run-conserves_example :
    (b : Bench list_stack) × (run list_stack
        (checked 2)
        2
        some_turns
        (spawn list_stack (checked 2) 2 (λ v. 0) [])
      ≡ some b)
    × (vs : List ℕ) × (inside : ℕ → Bool) × (b.store ≡ vs)
    × ((v : ℕ)
        → v < 4
        → count v vs + sum_threads (flight 2 v) 2 b.thread + b.pop_log_array v
          ≡ sum_threads (made 2 v) 2 b.thread)
unfolding list_stack-Contract
run-conserves_example =
    run-conserves list_stack list_stack-Contract 2 2 (λ v. 0) some_turns (omega arith) (omega arith)
      (list_stack-AllFit 2 2 some_turns (spawn list_stack (checked 2) 2 (λ v. 0) []))

abbrev blank : Memory
blank = record {
  cell = λ p. none;
  hazard_pointers = [];
  to_reclaim = null;
  has_destructor = false;
  reclaim_counter = 0;
  head = null;
  errno = no_error;
  local_hazard = none;
  stack_allocated = false;
  array_allocated = false;
  key_created = false;
  destroyed = [];
}

-- `malloc` gives the address `p`.
abbrev gives : ℕ → Answers
gives p = record {
  system = record { fresh = p; thread_id_address = 4096; setspecific_fails = false };
  spurious = λ q. 0;
}

abbrev spares : ℕ → List (ℕ × Answers)
spares m = replicate m (0, gives 16)

abbrev one_thread : Round (hazard_stack blank)
one_thread = record { before = λ i. gives 8; schedule = (0, gives 8) ∷ spares 4; after = gives 16 }

abbrev after_turn : ℕ × Answers → Bench (hazard_stack blank) → Bench (hazard_stack blank)
after_turn e b = elim (turn (hazard_stack blank) (checked 1) 1 e b) [ none ↦ b | some b' ↦ b' ]

AllFit-turn :
    (i : ℕ) (a : Answers) (es : List (ℕ × Answers)) (b b1 : Bench (hazard_stack blank))
    → turn (hazard_stack blank) (checked 1) 1 (i, a) b ≡ some b1
    → Fits a b.store
    → AllFit (hazard_stack blank) (hazard_stack-Contract blank) 1 1 es b1
    → AllFit (hazard_stack blank) (hazard_stack-Contract blank) 1 1 ((i, a) ∷ es) b
AllFit-turn i a es b b1 e fits rest = (
  fits,
  λ b' e'.
      let q : b1 ≡ b' = ground (arith, e, e') in
      subst (AllFit (hazard_stack blank) (hazard_stack-Contract blank) 1 1 es) q rest,
)

module _ (log : ℕ → ℕ) where
  abbrev b0 : Bench (hazard_stack blank)
  b0 = spawn (hazard_stack blank) (checked 1) 1 log (started blank)

  abbrev b1 : Bench (hazard_stack blank)
  b1 = after_turn (0, gives 8) b0

  abbrev b2 : Bench (hazard_stack blank)
  b2 = after_turn (0, gives 16) b1

  abbrev b3 : Bench (hazard_stack blank)
  b3 = after_turn (0, gives 16) b2

  abbrev b4 : Bench (hazard_stack blank)
  b4 = after_turn (0, gives 16) b3

  abbrev b5 : Bench (hazard_stack blank)
  b5 = after_turn (0, gives 16) b4

  -- The address 16 stays unused.
  unused_still :
      Fits (gives 16) b1.store
      × Fits (gives 16) b2.store
      × Fits (gives 16) b3.store
      × Fits (gives 16) b4.store
      × Fits (gives 16) b5.store
  unfolding turn work spawn shared_push shared_pop shared_leave stack_push push_loop exchange_head
      stack_pop unlink protect set_hazard retire get_hazard_pointer_for_current_thread
      hazard_pointer_init acquire_cell hazard_pointer_cleanup add_to_reclaim_list weak_exchange
  unused_still = (
    record { fresh = omega arith; unused = refl; works = refl; marks = omega arith },
    record { fresh = omega arith; unused = refl; works = refl; marks = omega arith },
    record { fresh = omega arith; unused = refl; works = refl; marks = omega arith },
    record { fresh = omega arith; unused = refl; works = refl; marks = omega arith },
    record { fresh = omega arith; unused = refl; works = refl; marks = omega arith },
  )

  one_thread-AllFit :
      AllFit (hazard_stack blank) (hazard_stack-Contract blank) 1 1 one_thread.schedule b0
  unfolding turn work spawn shared_push shared_pop shared_leave stack_push push_loop exchange_head
      stack_pop unlink protect set_hazard retire get_hazard_pointer_for_current_thread
      hazard_pointer_init acquire_cell hazard_pointer_cleanup add_to_reclaim_list weak_exchange
  one_thread-AllFit =
      AllFit-turn 0 (gives 8) (spares 4) b0 b1 refl
        (record { fresh = omega arith; unused = refl; works = refl; marks = omega arith })
        (AllFit-turn 0 (gives 16) (spares 3) b1 b2 refl unused_still.0 (
          AllFit-turn 0 (gives 16) (spares 2) b2 b3 refl unused_still.1 (
            AllFit-turn 0 (gives 16) (spares 1) b3 b4 refl unused_still.2
              (AllFit-turn 0 (gives 16) (spares 0) b4 b5 refl unused_still.3 tt))))

  one_thread-runs : run (hazard_stack blank) (checked 1) 1 one_thread.schedule b0 ≡ some b5
  unfolding run turn work spawn shared_push shared_pop shared_leave stack_push push_loop
      exchange_head stack_pop unlink protect set_hazard retire get_hazard_pointer_for_current_thread
      hazard_pointer_init acquire_cell hazard_pointer_cleanup add_to_reclaim_list weak_exchange
  one_thread-runs = refl

one_thread-Fitting :
    (n : ℕ) (log : ℕ → ℕ)
    → count n (1 ∷ []) ≢ 0
    → Fitting (hazard_stack blank) (hazard_stack-Contract blank) 1 n log one_thread
one_thread-Fitting n log there =
    let only : 1 ≡ n = ground (arith, there) in
    subst (λ m. Fitting (hazard_stack blank) (hazard_stack-Contract blank) 1 m log one_thread) only
      (record {
        steps = one_thread-AllFit log;
        last = λ b e.
            let q : b5 log ≡ b = ground (arith, e, one_thread-runs log) in
            subst (λ b'. Fits (gives 16) b'.store) q (unused_still log).4;
        enough = λ i lt.
            let zero_is : 0 ≡ i = omega arith in
            subst (λ j. 5 ≤ turns j one_thread.schedule) zero_is (omega arith);
      })

hazard_stack-passed_example :
    rounds (hazard_stack blank) (checked 1) (1 ∷ []) (λ v. 0) (λ n. one_thread) ≡ some (true ∷ [])
hazard_stack-passed_example =
    hazard_stack-passed blank 1 (1 ∷ []) (λ v. 0) (λ n. one_thread) (omega arith)
      (λ n there. ground (arith, there)) one_thread-Fitting
