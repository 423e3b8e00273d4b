-- ===== src/StackBenchmark/HazardStack.antt =====
-- The stack of lab3/Stack.c as the benchmark of lab3/StackBenchmark.c uses it, with the thread-local
-- hazard pointers of all threads.
use distibuted_sys.Base.{ℕ, suc, ◌+◌, ◌%◌, ◌^◌, ◌≡◌, ◌≢◌, true, false, Option, none, some}
use distibuted_sys.Base.Threads.{update}
use distibuted_sys.Stack.{Ptr, null, Memory, done, crash, unfinished, success, failure, Status}
use distibuted_sys.Stack.Hazard.{System, hazard_pointer_cleanup}
use distibuted_sys.Stack.Access.{stack_push, stack_pop}
use distibuted_sys.Stack.Lifetime.{stack_init}
use distibuted_sys.StackBenchmark.{SharedStack}

-- The memory, the cell that each thread has of it, and the number of pops there were, which bounds
-- the nodes that wait to be freed.
pub record Shared : Type 0 where
  pub memory : Memory
  pub local : ℕ → Option ℕ
  pub pops : ℕ

pub record Answers : Type 0 where
  pub system : System
  pub spurious : Ptr → ℕ

-- The memory as thread `t` sees it.
abbrev pub seen : ℕ → Shared → Memory
seen t s = record s.memory { local_hazard = s.local t }

abbrev popped_value : Status → Option ℕ → Option ℕ
popped_value success o = o
popped_value failure o = none

-- The addresses of the stack and of `pop_location` are 1 and 2.
unfoldable pub shared_init : Memory → Option Shared
shared_init blank =
    elim (stack_init (record { stack = true; key = true; array = true }) 1 false blank) [
      | done _ m ↦ some (record { memory = m; local = λ _. none; pops = 0 })
      | crash ↦ none
      | unfinished ↦ none
    ]

-- The benchmark does not look at what `stack_push` returns.
unfoldable pub shared_push : Answers → ℕ → ℕ → Shared → Option Shared
shared_push a t v s = elim (stack_push a.system 1 1 v (seen t s)) [
  | done _ m ↦ some (record s { memory = m })
  | crash ↦ none
  | unfinished ↦ none
]

unfoldable pub shared_pop : Answers → ℕ → Shared → Option (Option ℕ × Shared)
shared_pop a t s = elim (stack_pop a.system a.spurious (suc (s.pops + 1)) 1 2 (seen t s)) [
  | done (r, o) m ↦ some (
    popped_value r o,
    record { memory = m; local = update s.local t m.local_hazard; pops = suc s.pops },
  )
  | crash ↦ none
  | unfinished ↦ none
]

-- The destructor of the thread-local value runs where a thread that has a cell ends.
unfoldable pub shared_leave : ℕ → Shared → Shared
shared_leave t s = elim (s.local t) [
  | none ↦ s
  | some i ↦ elim (hazard_pointer_cleanup i s.memory) [
    | done _ m ↦ record s { memory = m; local = update s.local t none }
    | crash ↦ s
    | unfinished ↦ s
  ]
]

abbrev pub hazard_stack : Memory → SharedStack
hazard_stack blank = record {
  Store = Shared;
  Answer = Answers;
  init = shared_init blank;
  push = shared_push;
  pop = shared_pop;
  leave = shared_leave;
}

-- `malloc` gives memory that no node has, and `pthread_setspecific` works; the address that marks a
-- cell is not zero in its low 32 bits.
pub record Fits (a : Answers) (s : Shared) : Type 0 where
  pub fresh : a.system.fresh ≢ null
  pub unused : s.memory.cell a.system.fresh ≡ none
  pub works : a.system.setspecific_fails ≡ false
  pub marks : a.system.thread_id_address % 2 ^ 32 ≢ 0
