-- ===== src/SkipListBenchmarks/Performance.antt =====
-- lab4/SkipListBenchmarks.c: the threads of the performance tests, without the time they measure.
-- Each job is the list of the operations that a thread makes; what they answer is not looked at.
use distibuted_sys.Base.{
  ℕ, zero, suc, ◌+◌, ◌*◌, ◌%◌, ◌^◌, Option, none, some, List, [], ◌∷◌, ◌++◌, ltb, if◌then◌else◌,
}
use distibuted_sys.Base.Threads.{update}
use distibuted_sys.SkipListBenchmarks.{SharedMap, key_of, max_threads, Round, insert_elements}

abbrev pub insert_performance_num_elements : ℕ
insert_performance_num_elements = 10000

abbrev pub remove_performance_num_elements : ℕ
remove_performance_num_elements = 10000

abbrev pub search_performance_num_elements : ℕ
search_performance_num_elements = 10000

abbrev pub reads : ℕ
reads = 9000

abbrev pub delets : ℕ
delets = 500

abbrev pub inserts : ℕ
inserts = 500

abbrev pub half_to_half_test : ℕ
half_to_half_test = 100

pub data Operation : Type 0 where
  insertion : (key value : ℕ) → Operation
  removal search_of : (key : ℕ) → Operation

-- INSERT_ELEMENTS, REMOVE_ELEMENTS and SEARCH_ELEMENTS, from `i` with `n` to go.
unfoldable pub insertions : ℕ → ℕ → ℕ → ℕ → List Operation
insertions zero i step shift = []
insertions (suc n) i step shift =
    insertion (key_of step i shift) (key_of step i shift) ∷ insertions n (i + 1) step shift

unfoldable pub removals : ℕ → ℕ → ℕ → ℕ → List Operation
removals zero i step shift = []
removals (suc n) i step shift = removal (key_of step i shift) ∷ removals n (i + 1) step shift

unfoldable pub searches : ℕ → ℕ → ℕ → ℕ → List Operation
searches zero i step shift = []
searches (suc n) i step shift = search_of (key_of step i shift) ∷ searches n (i + 1) step shift

-- The jobs take `num_threads` and `thread_i`.
abbrev pub insert_performance_thread_job : ℕ → ℕ → List Operation
insert_performance_thread_job num_threads thread_i =
    insertions insert_performance_num_elements 0 num_threads thread_i

abbrev pub remove_performance_thread_job : ℕ → ℕ → List Operation
remove_performance_thread_job num_threads thread_i =
    removals remove_performance_num_elements 0 num_threads thread_i

abbrev pub search_performance_thread_job : ℕ → ℕ → List Operation
search_performance_thread_job num_threads thread_i =
    searches search_performance_num_elements 0 num_threads thread_i

abbrev pub mixed_performance_thread_job : ℕ → ℕ → List Operation
mixed_performance_thread_job num_threads thread_i =
    insertions inserts 0 num_threads thread_i
    ++ searches reads 0 num_threads thread_i
    ++ removals delets 0 num_threads thread_i

-- `num_threads * (HALF_TO_HALF_TEST * cycle + thread_i)`, in the arithmetic of `unsigned`.
abbrev pub first_key : ℕ → ℕ → ℕ → ℕ
first_key num_threads cycle thread_i =
    (num_threads * ((half_to_half_test * cycle + thread_i) % 2 ^ 32)) % 2 ^ 32

-- The cycles of `aggressive_performance_thread_job`, from `cycle` with `n` to go.
unfoldable pub aggressive_cycles : ℕ → ℕ → ℕ → ℕ → List Operation
aggressive_cycles zero cycle num_threads thread_i = []
aggressive_cycles (suc n) cycle num_threads thread_i =
    insertions 50 0 1 (first_key num_threads cycle thread_i)
    ++ searches 49 0 1 (first_key num_threads cycle (thread_i + 1))
    ++ (removal (first_key num_threads cycle thread_i)
        ∷ aggressive_cycles n (cycle + 1) num_threads thread_i)

abbrev pub aggressive_performance_thread_job : ℕ → ℕ → List Operation
aggressive_performance_thread_job num_threads thread_i =
    aggressive_cycles half_to_half_test 0 num_threads thread_i

module _ (k : SharedMap) where
  open k use {Store, Answer, insert, remove, search}

  abbrev pub perform : Answer → ℕ → Operation → Store → Option Store
  perform answer t (insertion key value) s = insert answer t key value s
  perform answer t (removal key) s = remove answer t key s
  perform answer t (search_of key) s = elim (search answer t key s) [
    | none ↦ none
    | some (o, s') ↦ some s'
  ]

  -- What the threads still have to do.
  abbrev pub Race : Type 0
  Race = Store × (ℕ → List Operation)

  abbrev pub next_operation : Answer → ℕ → Race → List Operation → Option Race
  next_operation answer t r [] = some r
  next_operation answer t r (op ∷ ops) = elim (perform answer t op r.0) [
    | none ↦ none
    | some s ↦ some (s, update r.1 t ops)
  ]

  -- Any of the `n` threads of a round moves next.
  unfoldable pub race_turn : ℕ → ℕ × Answer → Race → Option Race
  race_turn n (t, answer) r = if ltb t n then next_operation answer t r (r.1 t) else some r

  unfoldable pub race : ℕ → List (ℕ × Answer) → Race → Option Race
  race n [] r = some r
  race n (e ∷ es) r = elim (race_turn n e r) [ none ↦ none | some r' ↦ race n es r' ]

-- A round of `run_test` with the job of a performance test: what the main thread inserts first is
-- answered by `before`.
unfoldable pub performance_round :
    (k : SharedMap) → ℕ → (ℕ → ℕ → List Operation) → ℕ → Round k → Option (Race k)
performance_round k num_to_push job num_threads r = elim k.init [
  | none ↦ none
  | some s ↦
      elim (insert_elements k num_to_push num_threads r.before (num_to_push * num_threads) 0 s) [
        | none ↦ none
        | some s' ↦ race k num_threads r.schedule (s', job num_threads)
      ]
]

-- The loop of `run_test`, from `num_threads` with `n` to go.
unfoldable pub performance_rounds :
    (k : SharedMap) → ℕ → (ℕ → ℕ → List Operation) → (ℕ → Round k) → ℕ → ℕ → Option (List (Race k))
performance_rounds k num_to_push job answers zero num_threads = some []
performance_rounds k num_to_push job answers (suc n) num_threads =
    elim (performance_round k num_to_push job num_threads (answers num_threads)) [
      | none ↦ none
      | some r ↦ elim (performance_rounds k num_to_push job answers n (num_threads + 1)) [
        | none ↦ none
        | some rs ↦ some (r ∷ rs)
      ]
    ]

module _ (k : SharedMap) (answers : ℕ → Round k) where
  abbrev pub run_test_insert_performance : Option (List (Race k))
  run_test_insert_performance =
      performance_rounds k 0 insert_performance_thread_job answers max_threads 1

  abbrev pub run_test_remove_performance : Option (List (Race k))
  run_test_remove_performance =
      performance_rounds k remove_performance_num_elements remove_performance_thread_job answers
        max_threads 1

  abbrev pub run_test_search_performance : Option (List (Race k))
  run_test_search_performance =
      performance_rounds k search_performance_num_elements search_performance_thread_job answers
        max_threads 1

  abbrev pub run_test_mixed_performance : Option (List (Race k))
  run_test_mixed_performance =
      performance_rounds k 0 mixed_performance_thread_job answers max_threads 1

  abbrev pub run_test_aggressive_performance : Option (List (Race k))
  run_test_aggressive_performance =
      performance_rounds k 0 aggressive_performance_thread_job answers max_threads 1
