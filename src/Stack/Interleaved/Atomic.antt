-- ===== src/Stack/Interleaved/Atomic.antt =====
-- What the threads of Stack.Interleaved promise: each call of `stack_push` and `stack_pop`
-- (lab3/Stack.c) takes effect at one moment between the call and its return.
use distibuted_sys.Base.{ℕ, Option, none, some, List, [], ◌∷◌}
use distibuted_sys.Base.Threads.{update}
use distibuted_sys.Stack.{success, failure}
use distibuted_sys.Stack.Interleaved.{
  Call, push, pop, Answer, pushed, popped, Event, called, returned,
}

-- Where a thread stands: outside; in a call that has no effect yet; in one that has its answer.
pub data Stage : Type 0 where
  ready : Stage
  invoked : Call → Stage
  responded : Answer → Stage

pub data Deed : Type 0 where
  rests takes_effect runs_out returns : Deed
  calls : Call → Deed

-- What thread `i` does to the values on the stack and to its stage; `runs_out` is a call that finds no
-- memory. `none` where the deed does not fit the stage.
abbrev pub act : ℕ → Deed → List ℕ → Stage → Option (List ℕ × Stage × List Event)
act i rests vs st = some (vs, st, [])
act i (calls c) vs ready = some (vs, invoked c, called i c ∷ [])
act i takes_effect vs (invoked (push v)) = some (v ∷ vs, responded (pushed success), [])
act i takes_effect [] (invoked pop) = some ([], responded (popped none), [])
act i takes_effect (v ∷ vs) (invoked pop) = some (vs, responded (popped (some v)), [])
act i runs_out vs (invoked (push v)) = some (vs, responded (pushed failure), [])
act i returns vs (responded a) = some (vs, ready, returned i a ∷ [])
act _ _ _ _ = none

pub record Atomic : Type 0 where
  pub contents : List ℕ
  pub stage : ℕ → Stage

unfoldable pub atomic_turn : ℕ × Deed → Atomic → Option (Atomic × List Event)
atomic_turn (i, d) a = elim (act i d a.contents (a.stage i)) [
  | none ↦ none
  | some (vs, st, seen) ↦ some (record { contents = vs; stage = update a.stage i st }, seen)
]

abbrev pub atomic_start : Atomic
atomic_start = record { contents = []; stage = λ i. ready }
