-- ===== src/Lock/Tests.antt =====
-- Runs of the locks, and the theorems on locks at concrete inputs.
use distibuted_sys.Base.{ℕ, ◌≡◌, refl, List, [], ◌∷◌, arith, length}
use distibuted_sys.Lock.{idle, waiting}
use distibuted_sys.Base.Threads.{update}
use distibuted_sys.Lock.Run.{run, start}
use distibuted_sys.Lock.Count.{correctness_test}
use distibuted_sys.Lock.Guarantees.{
  CountsCorrectly, tas-OneHolder, ttas-OneHolder, ticket-OneHolder, tas-CountsCorrectly,
  ttas-CountsCorrectly, ticket-CountsCorrectly,
}
use distibuted_sys.Lock.Tas.Exclusion.{tas}
use distibuted_sys.Lock.Tas.{init as tas_init, start as tas_start, poll as tas_poll}
use distibuted_sys.Lock.Tas.Sleep.{AllValid, sleeps, sleeps_bounds}
use distibuted_sys.Lock.Ttas.{init as ttas_init, poll as ttas_poll}
use distibuted_sys.Lock.Ticket.{init as ticket_init, draw, poll as ticket_poll}
use distibuted_sys.Lock.Ticket.Fifo.{Queued, draw-join}
use distibuted_sys.Lock.Ttas.Exclusion.{ttas}
use distibuted_sys.Lock.Ticket.Exclusion.{ticket, init-Queued}

-- Two threads come for the lock, and thread 1 gets it.
abbrev contest : List (ℕ × ℕ)
contest = (0, 0) ∷ (1, 0) ∷ (1, 0) ∷ (0, 0) ∷ []

tas-OneHolder_example : ◌≡◌ {A = ℕ} 1 1
unfolding run start tas_init tas_start tas_poll
tas-OneHolder_example = tas-OneHolder 2 contest 1 1 refl refl

-- The same under TTAS, whose loops take three loads and a test-and-set.
abbrev ttas_contest : List (ℕ × ℕ)
ttas_contest = (0, 0) ∷ (1, 0) ∷ (1, 0) ∷ (1, 0) ∷ (0, 0) ∷ (1, 0) ∷ (0, 0) ∷ []

ttas-OneHolder_example : ◌≡◌ {A = ℕ} 1 1
unfolding run start ttas_init ttas_poll
ttas-OneHolder_example = ttas-OneHolder 2 ttas_contest 1 1 refl refl

-- Thread 1 draws the first ticket, and thread 0 waits however often it looks.
abbrev ticket_contest : List (ℕ × ℕ)
ticket_contest = (1, 0) ∷ (0, 0) ∷ (0, 0) ∷ (1, 0) ∷ (1, 0) ∷ (0, 0) ∷ []

ticket-OneHolder_example : ◌≡◌ {A = ℕ} 1 1
unfolding run start ticket_init draw ticket_poll
ticket-OneHolder_example = ticket-OneHolder 2 (omega arith) ticket_contest 1 1 refl refl

tas-CountsCorrectly_example : CountsCorrectly tas correctness_test 10
tas-CountsCorrectly_example = tas-CountsCorrectly 10 correctness_test (omega arith)

ttas-CountsCorrectly_example : CountsCorrectly ttas correctness_test 10
ttas-CountsCorrectly_example = ttas-CountsCorrectly 10 correctness_test (omega arith)

ticket-CountsCorrectly_example : CountsCorrectly ticket correctness_test 10
ticket-CountsCorrectly_example =
    ticket-CountsCorrectly 10 correctness_test (omega arith) (omega arith)

abbrev twelve : List ℕ
twelve = 3 ∷ 1 ∷ 4 ∷ 1 ∷ 5 ∷ 9 ∷ 2 ∷ 6 ∷ 5 ∷ 3 ∷ 5 ∷ 8 ∷ []

-- Twelve rounds on a taken lock: ten that spin, two that sleep.
sleeps_bounds_example : AllValid (sleeps tas_start twelve) × (length (sleeps tas_start twelve) ≡ 2)
sleeps_bounds_example = sleeps_bounds twelve

-- Thread 0 stands in line, thread 1 joins behind it.
one_waits :
    Queued 2 (draw ticket_init).0 (update (λ _. idle) 0 (waiting (draw ticket_init).1)) (0 ∷ [])
one_waits = draw-join (omega arith) (init-Queued 2) 0 (omega arith) refl

draw-join_example :
    Queued 2 (draw ticket_init).0 (update (λ _. idle) 0 (waiting (draw ticket_init).1)) (0 ∷ [])
draw-join_example = draw-join (omega arith) (init-Queued 2) 0 (omega arith) refl
