-- ===== src/StackBenchmark.antt =====
-- lab3/StackBenchmark.c: the threads that push and pop, and the check of the correctness test. The
-- time measurements are left out. `SharedStack` is what the benchmark sees of a stack: every call is
-- one step, and `none` is an access to memory that is not there.
pub mod Tally
pub mod Contract
pub mod Counted
pub mod Works
pub mod Turns
pub mod Rounds
pub mod Conserved
pub mod Cells
pub mod HazardStack
pub mod Owned
pub mod Kept
pub mod Passed
mod Tests
pub use distibuted_sys.StackBenchmark.Tally.{count}
use distibuted_sys.Base.{
  ℕ, zero, suc, ◌+◌, ◌*◌, ◌%◌, ◌^◌, Bool, true, false, Option, none, some, List, [], ◌∷◌, ◌==◌, ltb,
  leb, if◌then◌else◌,
}
use distibuted_sys.Base.Threads.{update}

abbrev pub max_threads : ℕ
max_threads = 64

abbrev pub correctness_test_num_to_push : ℕ
correctness_test_num_to_push = 10000

-- An answer is what the system says to the calls that an operation makes of it; the number before
-- the value or the store is the calling thread.
pub record SharedStack : Type 1 where
  pub Store : Type 0
  pub Answer : Type 0
  pub init : Option Store
  pub push : Answer → ℕ → ℕ → Store → Option Store
  pub pop : Answer → ℕ → Store → Option (Option ℕ × Store)
  pub leave : ℕ → Store → Store  -- the end of the thread

-- `struct CommonThreadArgs`: what the threads read of it and never write.
pub record Common : Type 0 where
  pub check_correctness : Bool
  pub num_to_push : ℕ
  pub num_to_pop : ℕ

-- Where a thread stands in `one_thread_job`, with its local variables.
pub data Job : Type 0 where
  pushing : (i : ℕ) → Job  -- the test of the push cycle
  popping : (i : ℕ) → Job  -- the test of a pop cycle
  logging : (i pop_location : ℕ) → Job  -- between `stack_pop` and the increment of the log
  finished : Job

-- `struct ThreadArgs`
pub record Thread : Type 0 where
  pub thread_i : ℕ
  pub job : Job

pub record Bench (k : SharedStack) : Type 0 where
  pub store : k.Store
  pub pop_log_array : ℕ → ℕ
  pub thread : ℕ → Thread

module _ (k : SharedStack) (c : Common) where
  open k use {Store, Answer, init, push, pop, leave}
  open c use {check_correctness, num_to_push, num_to_pop}

  -- The length of the log: a thread that writes beyond it accesses memory that is not there.
  abbrev pub log_size : ℕ
  log_size = num_to_push * max_threads % 2 ^ 32

  -- What follows `stack_pop`: with the result 0 and the check of correctness the log comes next.
  abbrev pub popped : ℕ → Option ℕ → Job
  popped i none = popping ((i + 1) % 2 ^ 32)
  popped i (some v) = if check_correctness then logging i v else popping ((i + 1) % 2 ^ 32)

  -- One operation of a thread on the stack or on the log.
  unfoldable pub work : Answer → Store → (ℕ → ℕ) → ℕ → Job → Option (Store × (ℕ → ℕ) × Job)
  work answer s log t (pushing i) =
      if ltb i num_to_push
      then (elim (push answer t ((num_to_push * t + i) % 2 ^ 32) s) [
        | none ↦ none
        | some s' ↦ some (s', log, pushing ((i + 1) % 2 ^ 32))
      ])
      else some (s, log, popping 0)
  work answer s log t (popping i) =
      if ltb i num_to_pop
      then (elim (pop answer t s) [ none ↦ none | some (o, s') ↦ some (s', log, popped i o) ])
      else some (leave t s, log, finished)
  work answer s log t (logging i v) =
      if ltb v log_size
      then some (s, update log v ((log v + 1) % 2 ^ 8), popping ((i + 1) % 2 ^ 32))
      else none
  work answer s log t finished = some (s, log, finished)

  unfoldable pub turn : ℕ → ℕ × Answer → Bench k → Option (Bench k)
  turn num_threads (i, answer) b =
      if ltb i num_threads
      then (elim (work answer b.store b.pop_log_array (b.thread i).thread_i (b.thread i).job) [
        | none ↦ none
        | some (s, log, j) ↦ some (record {
          store = s;
          pop_log_array = log;
          thread = update b.thread i (record { thread_i = (b.thread i).thread_i; job = j });
        })
      ])
      else some b

  -- A schedule names the thread that moves next, and what the system answers to it.
  unfoldable pub run : ℕ → List (ℕ × Answer) → Bench k → Option (Bench k)
  run num_threads [] b = some b
  run num_threads (e ∷ es) b = elim (turn num_threads e b) [
    | none ↦ none
    | some b' ↦ run num_threads es b'
  ]

  -- The loop of `run_test` that pushes what the pops need beyond the pushes, by the main thread.
  unfoldable pub pre_push : (ℕ → Answer) → ℕ → ℕ → Store → Option Store
  pre_push answers zero to_push s = none
  pre_push answers (suc fuel) to_push s =
      if ltb ((to_push + num_to_push) % 2 ^ 32) num_to_pop
      then (elim (push (answers to_push) max_threads to_push s) [
        | none ↦ none
        | some s' ↦ pre_push answers fuel ((to_push + 1) % 2 ^ 32) s'
      ])
      else some s

  -- The loop of `correctness_test_printout`, from the index `i`, with `n` to go.
  unfoldable pub all_one : (ℕ → ℕ) → ℕ → ℕ → Bool
  all_one log zero i = true
  all_one log (suc n) i = if log i == 1 then all_one log n (i + 1) else false

  -- `true` prints PASSED, `false` prints FAILED.
  unfoldable pub correctness_test_printout : Answer → ℕ → Bench k → Option Bool
  correctness_test_printout answer num_threads b = elim (pop answer max_threads b.store) [
    | none ↦ none
    | some (some v, s) ↦ some false
    | some (none, s) ↦ some (all_one b.pop_log_array (num_threads * num_to_push % 2 ^ 32) 0)
  ]

  -- `memset`, and the threads of a run.
  unfoldable pub spawn : ℕ → (ℕ → ℕ) → Store → Bench k
  spawn num_threads log s = record {
    store = s;
    pop_log_array = λ v.
        if check_correctness
        then (if ltb v (num_to_push * num_threads) then 0 else log v)
        else log v;
    thread = λ t. record { thread_i = t; job = pushing 0 };
  }

-- What the system answers in a round of `run_test`.
pub record Round (k : SharedStack) : Type 0 where
  pub before : ℕ → k.Answer
  pub schedule : List (ℕ × k.Answer)
  pub after : k.Answer

module _ (k : SharedStack) (c : Common) where
  open k use {Store, Answer, init}

  -- One round of the loop of `run_test` with the printout of the correctness test, from what the
  -- log holds; the number of pops is fuel enough for the loop before.
  unfoldable pub round : ℕ → (ℕ → ℕ) → Round k → Option (Bool × (ℕ → ℕ))
  round num_threads log r = elim init [
    | none ↦ none
    | some s ↦ elim (pre_push k c r.before (suc c.num_to_pop) 0 s) [
      | none ↦ none
      | some s' ↦ elim (run k c num_threads r.schedule (spawn k c num_threads log s')) [
        | none ↦ none
        | some b ↦ elim (correctness_test_printout k c r.after num_threads b) [
          | none ↦ none
          | some passed ↦ some (passed, b.pop_log_array)
        ]
      ]
    ]
  ]

  -- The loop of `run_test` over the numbers of threads: what the rounds print.
  unfoldable pub rounds : List ℕ → (ℕ → ℕ) → (ℕ → Round k) → Option (List Bool)
  rounds [] log answers = some []
  rounds (n ∷ ns) log answers = elim (round n log (answers n)) [
    | none ↦ none
    | some (passed, log') ↦ elim (rounds ns log' answers) [
      | none ↦ none
      | some prints ↦ some (passed ∷ prints)
    ]
  ]

-- The numbers of threads: from 4 up to MAX_THREADS, in steps of 4.
abbrev pub thread_counts : List ℕ
thread_counts = 4 ∷ 8 ∷ 12 ∷ 16 ∷ 20 ∷ 24 ∷ 28 ∷ 32 ∷ 36 ∷ 40 ∷ 44 ∷ 48 ∷ 52 ∷ 56 ∷ 60 ∷ 64 ∷ []

abbrev pub correctness_test_args : Common
correctness_test_args = record {
  check_correctness = true;
  num_to_push = correctness_test_num_to_push;
  num_to_pop = correctness_test_num_to_push;
}

-- `run_test_correctness`; `calloc` clears the log.
unfoldable pub run_test_correctness : (k : SharedStack) → (ℕ → Round k) → Option (List Bool)
run_test_correctness k answers = rounds k correctness_test_args thread_counts (λ v. 0) answers
