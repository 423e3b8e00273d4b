-- ===== src/Stack/Interleaved/Returns.antt =====
-- lab3/Stack.c: a call of `stack_push` or `stack_pop` returns when its thread runs alone.
use distibuted_sys.Base.{
  ℕ, zero, suc, ◌<◌, ◌≡◌, refl, arith, true, false, List, [], ◌∷◌, ◌++◌, some, ltb,
}
use distibuted_sys.Base.Threads.{update}
use distibuted_sys.Stack.Hazard.{max_hazard_pointers}
use distibuted_sys.Stack.Interleaved.{Shared, Place, idle, Input, System, Event, turn, runs, start}
use distibuted_sys.Stack.Interleaved.Atomic.{Atomic, atomic_start}
use distibuted_sys.Stack.Interleaved.Simulation.{
  Simulates, turn-Simulates, turn-step, runs-cons, runs-nil, start-Simulates,
}
use distibuted_sys.Stack.Interleaved.Alone.{Ends, ended, goes}
use distibuted_sys.Stack.Interleaved.Ending.{Sound-Ends}

abbrev pub alone : ℕ → ℕ → Input → List (ℕ × Input)
alone zero i input = []
alone (suc n) i input = (i, input) ∷ alone n i input

record Returned (i : ℕ) (input : Input) (es : List (ℕ × Input)) (s : System) : Type 0 where
  rounds : ℕ
  s' : System
  seen : List Event
  ran : runs turn (es ++ alone rounds i input) s ≡ some (s', seen)
  is_idle : s'.place i ≡ idle

Ends-Returned :
    (i : ℕ) (input : Input) (m : Shared) (P : Place)
    → ltb i max_hazard_pointers ≡ true
    → Ends input i m P
    → (place : ℕ → Place) → place i ≡ P
    → Returned i input [] (record { shared = m; place = place })
Ends-Returned i input m _ b ended place at = record {
  rounds = 0;
  s' = record { shared = m; place = place };
  seen = [];
  ran = runs-nil turn _;
  is_idle = at;
}
Ends-Returned i input m P b (goes {s' = m'} {P' = P'} e k) place at =
    let r = Ends-Returned i input m' P' b k (update place i P') (ground arith) in
    record {
      rounds = suc r.rounds;
      s' = r.s';
      seen = _;
      ran =
          runs-cons turn (i, input) (alone r.rounds i input) _ _ _ _ _
            (turn-step i input (record { shared = m; place = place }) m' P' b (rw at e)) r.ran;
      is_idle = r.is_idle;
    }

schedule-Returned :
    (i : ℕ) (input : Input) (es : List (ℕ × Input)) (s : System) (a : Atomic)
    → i < max_hazard_pointers
    → input.spurious ≡ false
    → Simulates s a
    → Returned i input es s
schedule-Returned i input [] s a bound calm sim =
    Ends-Returned i input s.shared (s.place i) (ground arith)
      (Sound-Ends input i bound calm s.shared (s.place i)
        (record { place = s.place; zone = sim.zone; vs = a.contents; inv = sim.inv; at = refl }))
      s.place refl
schedule-Returned i input ((j, other) ∷ es) s a bound calm sim =
    let here = turn-Simulates j other s a sim in
    let later = schedule-Returned i input es here.s' here.a' bound calm here.simulates in
    record {
      rounds = later.rounds;
      s' = later.s';
      seen = here.seen ++ later.seen;
      ran =
          runs-cons turn (j, other) (es ++ alone later.rounds i input) s here.s' later.s' here.seen
            later.seen here.turned later.ran;
      is_idle = later.is_idle;
    }

-- After any schedule of pushes and pops, a thread that then runs alone, and whose weak
-- compare-exchanges do not fail spuriously, has returned from its call after finitely many steps.
pub call_returns_alone :
    (es : List (ℕ × Input)) (i : ℕ) (input : Input)
    → i < max_hazard_pointers
    → input.spurious ≡ false
    → (n : ℕ) × (s : System) × (seen : List Event) × (runs turn (es ++ alone n i input) start
        ≡ some (s, seen))
      × (s.place i ≡ idle)
call_returns_alone es i input bound calm =
    let r = schedule-Returned i input es start atomic_start bound calm start-Simulates in
    (r.rounds, r.s', r.seen, r.ran, r.is_idle)
