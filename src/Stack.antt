-- ===== src/Stack.antt =====
-- lab3/Stack.c and lab3/Stack.h: the lock-free stack with hazard pointers, as one thread runs its
-- functions while the others stand still. What they stand at shows in the hazard pointers.
pub mod Hazard
pub mod Reclaim
pub mod Access
pub mod Lifetime
pub mod Nodes
pub mod Claim
pub mod Dispose
pub mod Push
pub mod Pop
pub mod Retire
pub mod Lifecycle
pub mod Interleaved
mod Tests
pub use distibuted_sys.Base.Code.{
  Outcome, done, crash, unfinished, ◌>>=◌, ◌>>◌, return, read, write,
}
use distibuted_sys.Base.{ℕ, ◌≡◌, Bool, Option, none, some, List, ◌==◌, if◌then◌else◌}

abbrev pub Ptr : Type 0
Ptr = ℕ

abbrev pub null : Ptr
null = 0

-- `struct StackNode`
pub record StackNode : Type 0 where
  pub next : Ptr
  pub value : ℕ

abbrev pub node : Ptr → ℕ → StackNode
node q v = record { next = q; value = v }

-- `struct HazardPointer`
pub record HazardPointer : Type 0 where
  pub id : ℕ
  pub pointer : Ptr

pub data StackErrno : Type 0 where
  no_error no_memory no_element no_threads invalid_argument thread_local_error : StackErrno

-- The nodes that are allocated, the fields of `struct Stack`, and the thread-local value of the
-- calling thread: the index of its hazard pointer. `destroyed` lists the data that the destructor
-- was called for, the last first.
pub record Memory : Type 0 where
  pub cell : Ptr → Option StackNode
  pub hazard_pointers : List HazardPointer
  pub to_reclaim : Ptr
  pub has_destructor : Bool
  pub reclaim_counter : ℕ
  pub head : Ptr
  pub errno : StackErrno
  pub local_hazard : Option ℕ
  pub stack_allocated : Bool
  pub array_allocated : Bool
  pub key_created : Bool
  pub destroyed : List ℕ

abbrev pub Code : Type 0 → Type 0
Code A = Memory → Outcome Memory A

-- The results 0 and -1.
pub data Status : Type 0 where
  success failure : Status

abbrev pub put : (Ptr → Option StackNode) → Ptr → Option StackNode → Ptr → Option StackNode
put cell p o a = if p == a then o else cell a

abbrev pub load_node : Ptr → Code StackNode
load_node p m = elim (m.cell p) [ none ↦ crash | some n ↦ done n m ]

-- `p->next = q`
abbrev pub set_next : Ptr → Ptr → Code (Unit {0})
set_next p q m = elim (m.cell p) [
  | none ↦ crash
  | some n ↦ done tt (record m { cell = put m.cell p (some (record n { next = q })) })
]

abbrev pub free : Ptr → Code (Unit {0})
free p m = elim (m.cell p) [
  | none ↦ crash
  | some n ↦ done tt (record m { cell = put m.cell p none })
]

abbrev pub fail_with : StackErrno → Code Status
fail_with e m = done failure (record m { errno = e })
