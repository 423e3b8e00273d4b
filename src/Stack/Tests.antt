-- ===== src/Stack/Tests.antt =====
-- Runs of the stack, and the theorems on it at concrete inputs.
use distibuted_sys.Base.{
  zero, suc, ◌≡◌, refl, true, false, Option, none, some, [], ◌∷◌, arith, ◌==◌, if◌then◌else◌,
}
use distibuted_sys.Stack.{
  Ptr, null, StackNode, node, no_error, no_element, no_threads, Memory, done, crash, success,
  failure,
}
use distibuted_sys.Stack.Hazard.{
  System, get_hazard_pointer_for_current_thread, outstanding_hazard_pointers_for,
}
use distibuted_sys.Stack.Access.{stack_push, stack_pop}
use distibuted_sys.Stack.Lifetime.{stack_free}
use distibuted_sys.Stack.Nodes.{has, IsStack}
use distibuted_sys.Stack.Push.{push-IsStack}
use distibuted_sys.Stack.Pop.{HasHazard, Retired, unlinked, pop-cons, pop-nil}
use distibuted_sys.Stack.Retire.{keep}
use distibuted_sys.Stack.Claim.{TakenBelow, HasHazard-old, HasHazard-new, pop-crash}
use distibuted_sys.Stack.Dispose.{free-Gone}
use distibuted_sys.Stack.Lifecycle.{use_stack, use_stack_leaves_nothing}

abbrev cells : Ptr → Option StackNode
cells a =
    if a == 8
    then some (node 16 5)
    else if a == 16
    then some (node null 4)
    else if a == 24
    then some (node 32 3)
    else if a == 32
    then some (node null 2)
    else none

-- Two elements, 5 on top, and two retired nodes, of which another thread protects the first.
abbrev memory : Memory
memory = record {
  cell = cells;
  hazard_pointers = record { id = 7; pointer = 0 } ∷ record { id = 9; pointer = 24 } ∷ [];
  to_reclaim = 24;
  has_destructor = true;
  reclaim_counter = 127;
  head = 8;
  errno = no_error;
  local_hazard = some 0;
  stack_allocated = true;
  array_allocated = true;
  key_created = true;
  destroyed = [];
}

abbrev system : System
system = record { fresh = 40; thread_id_address = 4096; setspecific_fails = false }

memory-IsStack : IsStack memory ((8, 5) ∷ (16, 4) ∷ []) ((24, 3) ∷ (32, 2) ∷ [])
memory-IsStack = record {
  head = refl;
  to_reclaim = refl;
  stack_linked = (omega arith, refl, refl, (omega arith, refl, refl, tt));
  reclaim_linked = (omega arith, refl, refl, (omega arith, refl, refl, tt));
  apart = λ a h. ground arith;
}

memory-HasHazard : HasHazard system memory memory.hazard_pointers 0 (record { id = 7; pointer = 0 })
memory-HasHazard = HasHazard-old system memory 0 (record { id = 7; pointer = 0 }) refl refl refl

push-IsStack_example :
    (m' : Memory) × (stack_push system 3 1 6 memory ≡ done success m')
    × IsStack m' ((40, 6) ∷ (8, 5) ∷ (16, 4) ∷ []) ((24, 3) ∷ (32, 2) ∷ [])
    × (m'.hazard_pointers ≡ memory.hazard_pointers)
    × (m'.errno ≡ memory.errno)
push-IsStack_example =
    push-IsStack system 2 1 6 memory ((8, 5) ∷ (16, 4) ∷ []) ((24, 3) ∷ (32, 2) ∷ []) memory-IsStack
      (omega arith) (omega arith) refl

pop-cons_example :
    (m' : Memory) × (stack_pop system (λ p. p) 4 1 2 memory ≡ done (success, some 5) m')
    × Retired
        (unlinked (λ p. p) memory memory.hazard_pointers 0 (record { id = 7; pointer = 0 }) 16)
        8
        5
        ((16, 4) ∷ [])
        ((24, 3) ∷ (32, 2) ∷ [])
        m'
pop-cons_example =
    pop-cons (λ p. p) system 3 1 2 8 5 memory ((16, 4) ∷ []) ((24, 3) ∷ (32, 2) ∷ [])
      memory.hazard_pointers 0 (record { id = 7; pointer = 0 }) memory-IsStack memory-HasHazard
      (omega arith) (omega arith) (omega arith)

abbrev drained : Memory
drained = record memory { head = null }

drained-IsStack : IsStack drained [] ((24, 3) ∷ (32, 2) ∷ [])
drained-IsStack = record {
  head = refl;
  to_reclaim = refl;
  stack_linked = tt;
  reclaim_linked = memory-IsStack.reclaim_linked;
  apart = λ a h. cc;
}

pop-nil_example :
    stack_pop system (λ p. 0) 1 1 2 drained
    ≡ done
        (failure, none)
        (record drained {
          hazard_pointers = record { id = 7; pointer = 0 } ∷ record { id = 9; pointer = 24 } ∷ [];
          local_hazard = some 0;
          errno = no_element;
        })
pop-nil_example =
    pop-nil (λ p. 0) system 0 1 2 drained ((24, 3) ∷ (32, 2) ∷ []) drained.hazard_pointers 0
      (record { id = 7; pointer = 0 }) drained-IsStack
      (HasHazard-old system drained 0 (record { id = 7; pointer = 0 }) refl refl refl) (omega arith)
      (omega arith)

keep_runs : keep memory.hazard_pointers ((24, 3) ∷ (32, 2) ∷ []) [] ≡ (24, 3) ∷ []
unfolding keep outstanding_hazard_pointers_for
keep_runs = refl

HasHazard-new_example :
    HasHazard system
      (record memory {
        local_hazard = none;
        hazard_pointers = record { id = 9; pointer = 24 } ∷ record { id = 0; pointer = 0 } ∷ [];
      })
      (record { id = 9; pointer = 24 } ∷ record { id = 4096; pointer = 0 } ∷ [])
      1
      (record { id = 4096; pointer = 0 })
HasHazard-new_example =
    HasHazard-new system
      (record memory {
        local_hazard = none;
        hazard_pointers = record { id = 9; pointer = 24 } ∷ record { id = 0; pointer = 0 } ∷ [];
      })
      1 (record { id = 0; pointer = 0 }) refl refl refl refl first_taken
  where
    first_taken :
        TakenBelow (record { id = 9; pointer = 24 } ∷ record { id = 0; pointer = 0 } ∷ []) 1
    first_taken zero h lt e = ground arith
    first_taken (suc i) h lt e = absurd (omega arith)

abbrev cell_less : Memory
cell_less = record memory { local_hazard = none }

pop-crash_example :
    (get_hazard_pointer_for_current_thread system cell_less
      ≡ done none (record cell_less { errno = no_threads }))
    × (stack_pop system (λ p. 0) 1 1 2 cell_less ≡ crash)
pop-crash_example =
    pop-crash system (λ p. 0) 0 1 2 cell_less (omega arith) (omega arith) refl
      (omega arith, (omega arith, tt))

free-Gone_example :
    (m' : Memory) × (stack_free 3 1 memory ≡ done tt m')
    × ((a : Ptr) → has ((8, 5) ∷ (16, 4) ∷ []) a ≡ true → m'.cell a ≡ none)
    × ((a : Ptr) → has ((24, 3) ∷ (32, 2) ∷ []) a ≡ true → m'.cell a ≡ none)
    × ((a : Ptr)
        → has ((8, 5) ∷ (16, 4) ∷ []) a ≡ false
        → has ((24, 3) ∷ (32, 2) ∷ []) a ≡ false
        → m'.cell a ≡ cells a)
    × (m'.destroyed ≡ 4 ∷ 5 ∷ [])
    × (m'.stack_allocated ≡ false)
free-Gone_example =
    free-Gone 3 1 memory ((8, 5) ∷ (16, 4) ∷ []) ((24, 3) ∷ (32, 2) ∷ []) memory-IsStack
      (omega arith) (omega arith) (omega arith)

use_stack_leaves_nothing_example :
    (m' : Memory) × (use_stack
        (record { stack = true; key = true; array = true })
        system
        4
        1
        true
        ((40, 6) ∷ (48, 7) ∷ [])
        memory
      ≡ done tt m')
    × ((a : Ptr) → m'.cell a ≡ memory.cell a)
    × (m'.destroyed ≡ 6 ∷ 7 ∷ [])
    × (m'.stack_allocated ≡ false)
use_stack_leaves_nothing_example =
    use_stack_leaves_nothing (record { stack = true; key = true; array = true }) system 4 1 true
      ((40, 6) ∷ (48, 7) ∷ []) memory (omega arith) refl
      (omega arith, refl, refl, (omega arith, refl, refl, tt)) (omega arith)
