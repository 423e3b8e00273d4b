-- ===== src/Stack/Interleaved/Simulation.antt =====
-- lab3/Stack.c: a step of a thread, against a deed on the atomic stack.
use distibuted_sys.Base.{
  ℕ, ◌≡◌, sym, ◌∙◌, refl, arith, true, false, inl, inr, Bool-cases, Option, some, List, [], ◌∷◌,
  ◌++◌, ◌==◌, ltb,
}
use distibuted_sys.Base.Threads.{update}
use distibuted_sys.Stack.{Ptr, null}
use distibuted_sys.Stack.Hazard.{max_hazard_pointers}
use distibuted_sys.Stack.Interleaved.{
  Shared, Place, idle, Event, event, step, Input, System, turn, runs, start,
}
use distibuted_sys.Stack.Interleaved.Zones.{Zone, free, stacked, limbo, held, chained}
use distibuted_sys.Stack.Interleaved.Atomic.{
  Stage, Deed, rests, Atomic, act, atomic_turn, atomic_start,
}
use distibuted_sys.Stack.Interleaved.Knowledge.{root, stage_of, Inv}
use distibuted_sys.Stack.Interleaved.Outcome.{Outcome}
use distibuted_sys.Stack.Interleaved.Steps.{step-Outcome}

-- The values on the stack are `contents`, and each thread stands where the atomic stack has it.
pub record Simulates (s : System) (a : Atomic) : Type 0 where
  pub zone : Ptr → Zone
  pub inv : Inv s.shared s.place zone a.contents
  pub stages : (j : ℕ) → a.stage j ≡ stage_of s.shared.value (s.place j)

pub record Turned (r : Option (System × List Event)) (i : ℕ) (a : Atomic) : Type 0 where
  pub s' : System
  pub a' : Atomic
  pub seen : List Event
  pub deed : Deed
  pub turned : r ≡ some (s', seen)
  pub atomic : atomic_turn (i, deed) a ≡ some (a', seen)
  pub simulates : Simulates s' a'

atomic_turn-act :
    (i : ℕ) (d : Deed) (a : Atomic) (vs : List ℕ) (st : Stage) (seen : List Event)
    → act i d a.contents (a.stage i) ≡ some (vs, st, seen)
    → atomic_turn (i, d) a ≡ some (record { contents = vs; stage = update a.stage i st }, seen)
unfolding atomic_turn
atomic_turn-act i d a vs st seen e = rw (atomic_turn, e) refl

pub turn-step :
    (i : ℕ) (input : Input) (s : System) (m : Shared) (p : Place)
    → ltb i max_hazard_pointers ≡ true
    → step input i s.shared (s.place i) ≡ some (m, p)
    → turn (i, input) s
      ≡ some (record { shared = m; place = update s.place i p }, event input i (s.place i))
unfolding turn
turn-step i input s m p b e = rw (turn, b, e) refl

turn-above :
    (i : ℕ) (input : Input) (s : System)
    → ltb i max_hazard_pointers ≡ false
    → turn (i, input) s ≡ some (s, [])
unfolding turn
turn-above i input s b = rw (turn, b) refl

pub turn-Simulates :
    (i : ℕ) (input : Input) (s : System) (a : Atomic)
    → Simulates s a
    → Turned (turn (i, input) s) i a
turn-Simulates i input s a sim = elim (Bool-cases (ltb i max_hazard_pointers)) [
  | inl b ↦ of_outcome b (
      step-Outcome input i s.shared s.place sim.zone a.contents sim.inv (ground arith) (s.place i)
        refl)
  | inr b ↦ stays b
]
  where
    stages :
        (o : Outcome i
          (event input i (s.place i))
          s.shared
          s.place
          a.contents
          (s.place i)
          (step input i s.shared (s.place i)))
        (j : ℕ)
        → update a.stage i (stage_of o.s'.value o.P') j
          ≡ stage_of o.s'.value (update s.place i o.P' j)
    stages o j = elim (Bool-cases (i == j)) [
      | inl e ↦ rw e refl
      | inr e ↦ rw e (sim.stages j ∙ sym (o.others j (ground arith)))
    ]

    same : (j : ℕ) → update a.stage i (a.stage i) j ≡ stage_of s.shared.value (s.place j)
    same j = ground (arith, sim.stages j)

    of_outcome :
        ltb i max_hazard_pointers ≡ true
        → Outcome i
            (event input i (s.place i))
            s.shared
            s.place
            a.contents
            (s.place i)
            (step input i s.shared (s.place i))
        → Turned (turn (i, input) s) i a
    of_outcome b o = record {
      s' = record { shared = o.s'; place = update s.place i o.P' };
      a' = record { contents = o.vs'; stage = update a.stage i (stage_of o.s'.value o.P') };
      seen = event input i (s.place i);
      deed = o.deed;
      turned = turn-step i input s o.s' o.P' b o.result;
      atomic =
          atomic_turn-act i o.deed a o.vs' (stage_of o.s'.value o.P') (event input i (s.place i))
            (rw (sim.stages i) o.acts);
      simulates = record { zone = o.zone'; inv = o.inv; stages = λ j. stages o j };
    }

    stays : ltb i max_hazard_pointers ≡ false → Turned (turn (i, input) s) i a
    stays b = record {
      s' = s;
      a' = record { contents = a.contents; stage = update a.stage i (a.stage i) };
      seen = [];
      deed = rests;
      turned = turn-above i input s b;
      atomic = atomic_turn-act i rests a a.contents (a.stage i) [] refl;
      simulates = record { zone = sim.zone; inv = sim.inv; stages = λ j. same j };
    }

pub record Ran (es : List (ℕ × Input)) (s : System) (a : Atomic) : Type 0 where
  pub s' : System
  pub a' : Atomic
  pub seen : List Event
  pub deeds : List (ℕ × Deed)
  pub ran : runs turn es s ≡ some (s', seen)
  pub atomic : runs atomic_turn deeds a ≡ some (a', seen)
  pub simulates : Simulates s' a'

pub runs-cons :
    {E S : Type 0} (move : E → S → Option (S × List Event)) (e : E) (es : List E) (s s' s'' : S)
    (here later : List Event)
    → move e s ≡ some (s', here)
    → runs move es s' ≡ some (s'', later)
    → runs move (e ∷ es) s ≡ some (s'', here ++ later)
unfolding runs
runs-cons move e es s s' s'' here later h k = rw (runs, h, k) refl

pub runs-nil :
    {E S : Type 0} (turn : E → S → Option (S × List Event)) (s : S) → runs turn [] s ≡ some (s, [])
unfolding runs
runs-nil turn s = refl

runs-Simulates : (es : List (ℕ × Input)) (s : System) (a : Atomic) → Simulates s a → Ran es s a
runs-Simulates [] s a sim = record {
  s' = s;
  a' = a;
  seen = [];
  deeds = [];
  ran = runs-nil turn s;
  atomic = runs-nil atomic_turn a;
  simulates = sim;
}
runs-Simulates ((i, input) ∷ es) s a sim =
    let here = turn-Simulates i input s a sim in
    let later = runs-Simulates es here.s' here.a' here.simulates in
    record {
      s' = later.s';
      a' = later.a';
      seen = here.seen ++ later.seen;
      deeds = (i, here.deed) ∷ later.deeds;
      ran =
          runs-cons turn (i, input) es s here.s' later.s' here.seen later.seen here.turned
            later.ran;
      atomic =
          runs-cons atomic_turn (i, here.deed) later.deeds a here.a' later.a' here.seen later.seen
            here.atomic later.atomic;
      simulates = later.simulates;
    }

root-start : (z : Zone) → root null null (λ i. idle) z ≡ null
root-start free = refl
root-start stacked = refl
root-start limbo = refl
root-start (held i) = refl
root-start (chained i) = refl

pub start-Simulates : Simulates start atomic_start
start-Simulates = record {
  zone = λ p. free;
  inv = record {
    shape = record {
      is_used = λ p. refl;
      null_free = refl;
      next_in = λ p l. absurd (ground arith);
      inj = λ p q l. absurd (ground arith);
      root_in = λ z l ne. absurd (ne (root-start z));
      root_first = λ p l. absurd (ground arith);
    };
    knows = λ i. tt;
    holds = λ i p e. absurd (ground arith);
    limited = (0, λ p h. refl);
    lists = refl;
  };
  stages = λ j. refl;
}

pub started : (es : List (ℕ × Input)) → Ran es start atomic_start
started es = runs-Simulates es start atomic_start start-Simulates
