-- ===== src/Lock/Count.antt =====
-- lab2/SpinLockBenchmarks.c: `one_thread_job`, which counts under a lock, and the check of the
-- correctness test. The time measurements are left out.
mod Keep
pub mod Correct
pub mod Finish
use distibuted_sys.Base.{
  ℕ, ◌+◌, ◌*◌, ◌%◌, ◌^◌, Bool, Option, none, some, List, [], ◌∷◌, ◌==◌, ltb, if◌then◌else◌,
}
use distibuted_sys.Base.Threads.{update}
use distibuted_sys.Lock.{Status, idle, waiting, holding, Lock}

-- `struct CommonTestArgs`: what the job reads of it and never writes.
pub record Common : Type 0 where
  pub num_lock_acquisitions : ℕ
  pub num_cycles_per_thread : ℕ

abbrev pub correctness_test : Common
correctness_test = record { num_lock_acquisitions = 100; num_cycles_per_thread = 10 }

-- Where a thread stands in `one_thread_job`, with its local variables.
pub data Job (L : Type 0) : Type 0 where
  outside : (acquisition : ℕ) → Job L  -- the test of the outer loop
  acquiring : (acquisition : ℕ) → L → Job L  -- inside `acquire_lock`
  inside : (acquisition cycle : ℕ) → Job L  -- the test of the inner loop
  loaded : (acquisition cycle value : ℕ) → Job L  -- between the load and the store of `+= 1`
  finished : Job L

-- Where the job stands towards the lock.
abbrev pub stand : {L : Type 0} → Job L → Status L
stand (outside _) = idle
stand (acquiring _ l) = waiting l
stand (inside _ _) = holding
stand (loaded _ _ _) = holding
stand finished = idle

abbrev pub acquired : {L : Type 0} → ℕ → Option L → Job L
acquired a none = inside a 0
acquired a (some l) = acquiring a l

pub record Bench (k : Lock) : Type 0 where
  pub word : k.Word
  pub number_to_increment : ℕ
  pub job : ℕ → Job k.Local

module _ (k : Lock) (c : Common) where
  open k use {Word, Local, init, enter, poll, release}
  open c use {num_lock_acquisitions, num_cycles_per_thread}

  -- One access of a thread to the lock or to the number.
  unfoldable pub work : ℕ → Word → ℕ → Job Local → Word × ℕ × Job Local
  work rand w number (outside a) =
      if ltb a num_lock_acquisitions
      then (let (w', l) = enter w in (w', number, acquiring a l))
      else (w, number, finished)
  work rand w number (acquiring a l) = let (w', o) = poll rand w l in (w', number, acquired a o)
  work rand w number (inside a cycle) =
      if ltb cycle num_cycles_per_thread
      then (w, number, loaded a cycle number)
      else (release w, number, outside ((a + 1) % 2 ^ 64))
  work rand w number (loaded a cycle value) =
      (w, (value + 1) % 2 ^ 64, inside a ((cycle + 1) % 2 ^ 64))
  work rand w number finished = (w, number, finished)

  -- `run_test` before it spawns the threads of a run.
  unfoldable pub spawn : Bench k
  spawn = record { word = init; number_to_increment = 0; job = λ _. outside 0 }

  unfoldable pub turn : ℕ → ℕ × ℕ → Bench k → Bench k
  unfolding work
  turn num_threads (i, rand) s =
      if ltb i num_threads
      then (let (w, number, p) = work rand s.word s.number_to_increment (s.job i) in
          record { word = w; number_to_increment = number; job = update s.job i p })
      else s

  unfoldable pub run : ℕ → List (ℕ × ℕ) → Bench k → Bench k
  unfolding turn
  run num_threads [] s = s
  run num_threads (e ∷ es) s = run num_threads es (turn num_threads e s)

  -- The test of `correctness_test_printout`: `true` prints CORRECT, `false` prints WRONG.
  unfoldable pub prints_correct : ℕ → Bench k → Bool
  prints_correct num_threads s =
      s.number_to_increment
      == (num_threads * num_lock_acquisitions % 2 ^ 64) * num_cycles_per_thread % 2 ^ 64
