-- ===== src/Stack/Interleaved/Tests.antt =====
-- Runs of two threads over lab3/Stack.c, and examples.
use distibuted_sys.Base.{
  ℕ, zero, suc, ◌≡◌, ◌≢◌, refl, arith, false, Option, none, some, List, [], ◌∷◌, ◌++◌,
}
use distibuted_sys.Stack.{success}
use distibuted_sys.Stack.Interleaved.{
  Call, push, pop, pushed, popped, Event, called, returned, Input, System, idle, turn, step, runs,
  start,
}
use distibuted_sys.Stack.Interleaved.Atomic.{Deed, Atomic, atomic_turn, atomic_start}
use distibuted_sys.Stack.Interleaved.Linear.{
  Holds, run_stays_in_allocated_memory, run_is_linearizable,
}
use distibuted_sys.Stack.Interleaved.Returns.{alone, call_returns_alone}

abbrev moves : ℕ → Call → ℕ → ℕ → List (ℕ × Input)
moves zero c p i = []
moves (suc n) c p i = (i, record { call = c; fresh = p; spurious = false }) ∷ moves n c p i

-- Thread 0 pushes 7 in the node 1 and starts to pop it; thread 1 pops it first, and pushes 8 in the
-- node 2; then thread 0 finds that its node is not on top any more, and pops the other.
abbrev overtaken : List (ℕ × Input)
overtaken =
    moves 6 (push 7) 1 0
    ++ moves 5 pop 0 0
    ++ moves 13 pop 0 1
    ++ moves 6 (push 8) 2 1
    ++ moves 13 pop 0 0

abbrev seen_in : Option (System × List Event) → List Event
seen_in none = []
seen_in (some (s, seen)) = seen

overtaken_seen :
    seen_in (runs turn overtaken start)
    ≡ called 0 (push 7)
      ∷ returned 0 (pushed success)
      ∷ called 0 pop
      ∷ called 1 pop
      ∷ returned 1 (popped (some 7))
      ∷ called 1 (push 8)
      ∷ returned 1 (pushed success)
      ∷ returned 0 (popped (some 8))
      ∷ []
unfolding runs turn step
overtaken_seen = refl

run_stays_in_allocated_memory_example : runs turn overtaken start ≢ none
run_stays_in_allocated_memory_example = run_stays_in_allocated_memory overtaken

run_is_linearizable_example :
    (deeds : List (ℕ × Deed)) × (s : System) × (a : Atomic) × (seen : List Event) × (runs turn
        overtaken start
      ≡ some (s, seen))
    × (runs atomic_turn deeds atomic_start ≡ some (a, seen))
    × Holds s.shared s.shared.head a.contents
run_is_linearizable_example = run_is_linearizable overtaken

-- Thread 0 has set its hazard pointer, and then its node is popped.
abbrev interrupted : List (ℕ × Input)
interrupted = moves 6 (push 7) 1 0 ++ moves 5 pop 0 0 ++ moves 13 pop 0 1

call_returns_alone_example :
    (n : ℕ) × (s : System) × (seen : List Event) × (runs turn
        (interrupted ++ alone n 0 (record { call = pop; fresh = 0; spurious = false }))
        start
      ≡ some (s, seen))
    × (s.place 0 ≡ idle)
call_returns_alone_example =
    call_returns_alone interrupted 0 (record { call = pop; fresh = 0; spurious = false })
      (omega arith) refl
