-- ===== src/StackBenchmark/Conserved.antt =====
-- Where the values are while the correctness test of lab3/StackBenchmark.c runs.
use distibuted_sys.Base.{ℕ, ◌+◌, ◌*◌, ◌^◌, ◌≤◌, ◌<◌, ◌≡◌, Bool, some, List, arith}
use distibuted_sys.Base.Threads.{sum_threads}
use distibuted_sys.StackBenchmark.{max_threads, SharedStack, Bench, run, spawn}
use distibuted_sys.StackBenchmark.Tally.{count}
use distibuted_sys.StackBenchmark.Contract.{Contract}
use distibuted_sys.StackBenchmark.Counted.{checked, flight, made}
use distibuted_sys.StackBenchmark.Turns.{AllFit, run-Counted}
use distibuted_sys.StackBenchmark.Rounds.{cleared, clear, spawn-Counted}

-- In every order of the operations of up to 64 threads, over a stack that keeps the contract, and
-- after any number of them, each value of the round stands on the stack, between a pop and the log
-- and in the log together as often as the threads have pushed it.
pub run-conserves :
    (k : SharedStack) (x : Contract k) (num n : ℕ) (log : ℕ → ℕ) (es : List (ℕ × k.Answer))
    → num * max_threads < 2 ^ 32
    → n ≤ max_threads
    → AllFit k x num n es (spawn k (checked num) n log x.start)
    → (b : Bench k) × (run k (checked num) n es (spawn k (checked num) n log x.start) ≡ some b)
      × (vs : List ℕ) × (inside : ℕ → Bool) × x.Holds b.store vs inside
      × ((v : ℕ)
          → v < num * n
          → count v vs + sum_threads (flight num v) n b.thread + b.pop_log_array v
            ≡ sum_threads (made num v) n b.thread)
run-conserves k x num n log es small few fit =
    let (b, runs, c, _) =
      run-Counted k x num n (cleared k x num small n log) few small (clear k x num small n few log)
        es (spawn k (checked num) n log x.start)
        (spawn-Counted k x num small n few log x.start x.empty) fit in
    (
      b,
      runs,
      c.vs,
      c.inside,
      c.holds,
      λ v lt. omega (arith, c.placed v, c.log_is v, clear k x num small n few log v lt),
    )
