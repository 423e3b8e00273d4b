-- ===== src/SkipListBenchmarks.antt =====
-- lab4/SkipListBenchmarks.c: the threads of the correctness test, which insert, search and remove,
-- and its printout. The time measurements are left out. `SharedMap` is what the benchmark sees of a
-- skip list: every call is one step, and `none` is an access to memory that is not there.
pub mod Contract
pub mod Expected
pub mod Works
pub mod Rounds
pub mod EpochList
pub mod Performance
pub mod Inserted
mod Tests
use distibuted_sys.Base.{
  ℕ, zero, suc, ◌+◌, ◌*◌, ◌%◌, ◌^◌, Bool, true, false, Option, none, some, List, [], ◌∷◌, ◌==◌, ltb,
  if◌then◌else◌,
}
use distibuted_sys.Base.Threads.{update}

abbrev pub max_threads : ℕ
max_threads = 100

abbrev pub correctness_num_elements : ℕ
correctness_num_elements = 100

-- An answer is what the system says to the calls that an operation makes of it; the number behind
-- it is the calling thread. A search gives the value, or `none` for the result -1.
pub record SharedMap : Type 1 where
  pub Store : Type 0
  pub Answer : Type 0
  pub init : Option Store
  pub insert : Answer → ℕ → (key value : ℕ) → Store → Option Store
  pub remove : Answer → ℕ → (key : ℕ) → Store → Option Store
  pub search : Answer → ℕ → (key : ℕ) → Store → Option (Option ℕ × Store)

-- Where a thread stands in `correctness_thread_job`, with the index of its cycle.
pub data Job : Type 0 where
  inserting searching removing searching_again : (i : ℕ) → Job
  finished : Job

-- `struct ThreadArgs`
pub record Thread : Type 0 where
  pub thread_i : ℕ
  pub executed_correctly : Bool
  pub job : Job

pub record Bench (k : SharedMap) : Type 0 where
  pub store : k.Store
  pub thread : ℕ → Thread

-- `step * i + shift`, in the arithmetic of `unsigned`.
abbrev pub key_of : ℕ → ℕ → ℕ → ℕ
key_of step i shift = (step * i + shift) % 2 ^ 32

-- The test of the first search cycle: whether it finds nothing amiss,
abbrev pub finds : ℕ → Option ℕ → Bool
finds key none = false
finds key (some value) = value == key

-- and that of the second, in which `value` stays 0 where the search fails.
abbrev pub misses : Option ℕ → Bool
misses none = true
misses (some value) = false

-- `executed_correctly` only ever falls.
abbrev pub still : Bool → Bool → Bool
still fine correct = if fine then correct else false

module _ (k : SharedMap) (num_elements num_threads : ℕ) where
  open k use {Store, Answer, init, insert, remove, search}

  -- A call of the map by thread `t`, or the test of a cycle that has come to its end.
  unfoldable pub work : Answer → Store → ℕ → Bool → Job → Option (Store × Bool × Job)
  work answer s t correct (inserting i) =
      if ltb i num_elements
      then (elim (insert answer t (key_of num_threads i t) (key_of num_threads i t) s) [
        | none ↦ none
        | some s' ↦ some (s', correct, inserting (i + 1))
      ])
      else some (s, correct, searching 0)
  work answer s t correct (searching i) =
      if ltb i num_elements
      then (elim (search answer t (key_of num_threads i t) s) [
        | none ↦ none
        | some (o, s') ↦
            some (s', still (finds (key_of num_threads i t) o) correct, searching (i + 1))
      ])
      else some (s, correct, removing 0)
  work answer s t correct (removing i) =
      if ltb i num_elements
      then (elim (remove answer t (key_of num_threads i t) s) [
        | none ↦ none
        | some s' ↦ some (s', correct, removing (i + 1))
      ])
      else some (s, correct, searching_again 0)
  work answer s t correct (searching_again i) =
      if ltb i num_elements
      then (elim (search answer t (key_of num_threads i t) s) [
        | none ↦ none
        | some (o, s') ↦ some (s', still (misses o) correct, searching_again (i + 1))
      ])
      else some (s, correct, finished)
  work answer s t correct finished = some (s, correct, finished)

  unfoldable pub turn : ℕ × Answer → Bench k → Option (Bench k)
  turn (i, answer) b =
      let a = b.thread i in
      if ltb i num_threads
      then (elim (work answer b.store a.thread_i a.executed_correctly a.job) [
        | none ↦ none
        | some (s, correct, j) ↦ some (record {
          store = s;
          thread =
              update b.thread i
                (record { thread_i = a.thread_i; executed_correctly = correct; job = j });
        })
      ])
      else some b

  -- A schedule names the thread that moves next, and what the system answers to it.
  unfoldable pub run : List (ℕ × Answer) → Bench k → Option (Bench k)
  run [] b = some b
  run (e ∷ es) b = elim (turn e b) [ none ↦ none | some b' ↦ run es b' ]

  -- INSERT_ELEMENTS(how_many, 1, 0) of `run_test`, by the main thread, from `i` with `n` to go.
  unfoldable pub insert_elements : (ℕ → Answer) → ℕ → ℕ → Store → Option Store
  insert_elements answers zero i s = some s
  insert_elements answers (suc n) i s =
      elim (insert (answers i) max_threads (key_of 1 i 0) (key_of 1 i 0) s) [
        | none ↦ none
        | some s' ↦ insert_elements answers n (i + 1) s'
      ]

  -- The loop of `correctness_test_printout`, with `n` to go: `true` prints PASSED.
  unfoldable pub all_correct : (ℕ → Thread) → ℕ → ℕ → Bool
  all_correct thread zero i = true
  all_correct thread (suc n) i =
      if (thread i).executed_correctly then all_correct thread n (i + 1) else false

  unfoldable pub correctness_test_printout : Bench k → Bool
  correctness_test_printout b = all_correct b.thread num_threads 0

  unfoldable pub spawn : Store → Bench k
  spawn s = record {
    store = s;
    thread = λ t. record { thread_i = t; executed_correctly = true; job = inserting 0 };
  }

-- What the system answers in a round of `run_test`.
pub record Round (k : SharedMap) : Type 0 where
  pub before : ℕ → k.Answer
  pub schedule : List (ℕ × k.Answer)

module _ (k : SharedMap) (num_elements num_to_push : ℕ) where
  open k use {Store, Answer, init}

  -- One round of the loop of `run_test`, with the job and the printout of the correctness test.
  unfoldable pub round : ℕ → Round k → Option Bool
  round num_threads r = elim init [
    | none ↦ none
    | some s ↦
        elim (insert_elements k num_elements num_threads r.before (num_to_push * num_threads) 0 s) [
          | none ↦ none
          | some s' ↦
              elim (run k num_elements num_threads r.schedule
                (spawn k num_elements num_threads s')) [
                  | none ↦ none
                  | some b ↦ some (correctness_test_printout k num_elements num_threads b)
                ]
        ]
  ]

  -- The loop of `run_test`, from `num_threads` with `n` to go: what its rounds print.
  unfoldable pub rounds : (ℕ → Round k) → ℕ → ℕ → Option (List Bool)
  rounds answers zero num_threads = some []
  rounds answers (suc n) num_threads = elim (round num_threads (answers num_threads)) [
    | none ↦ none
    | some passed ↦ elim (rounds answers n (num_threads + 1)) [
      | none ↦ none
      | some prints ↦ some (passed ∷ prints)
    ]
  ]

unfoldable pub run_test_correctness : (k : SharedMap) → (ℕ → Round k) → Option (List Bool)
run_test_correctness k answers = rounds k correctness_num_elements 0 answers max_threads 1
