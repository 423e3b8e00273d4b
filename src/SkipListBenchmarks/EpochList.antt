-- ===== src/SkipListBenchmarks/EpochList.antt =====
-- The skip list of lab4/SkipList.c as the benchmark of lab4/SkipListBenchmarks.c uses it, with the
-- thread-local epoch cells of all threads.
pub mod Cells
pub mod Others
pub mod Inside
pub mod Kept
pub mod Passed
mod Tests
use distibuted_sys.Base.{ℕ, suc, ◌≡◌, ◌≢◌, ◌^◌, ◌-◌, true, Option, none, some, List}
use distibuted_sys.Base.Int.{ℤ, pos, negsuc}
use distibuted_sys.Base.Threads.{update}
use distibuted_sys.SkipList.{Ptr, header, Memory, done, crash, unfinished, Status, success, failure}
use distibuted_sys.SkipList.Access.{Outside, skiplist_insert, skiplist_remove, skiplist_search}
use distibuted_sys.SkipList.Lifetime.{Grants, skiplist_init}
use distibuted_sys.SkipListBenchmarks.{SharedMap}

-- The memory, the cell that each thread has of it, and the number of insertions there were, which
-- bounds the towers.
pub record Shared : Type 0 where
  pub memory : Memory
  pub local : ℕ → Option ℕ
  pub insertions : ℕ

-- The memory as thread `t` sees it.
abbrev pub seen : ℕ → Shared → Memory
seen t s = record s.memory { local_epoch = s.local t }

-- A call with fuel for every tower; no other thread moves during the call, so that each search
-- ends in its first round.
abbrev pub fuelled : Outside → Shared → Outside
fuelled a s = record a { resets = 1; fuel = suc s.insertions }

-- A `long` as an `unsigned long`.
abbrev pub unsigned_long : ℤ → ℕ
unsigned_long (pos n) = n
unsigned_long (negsuc n) = 2 ^ 64 - 1 - n

abbrev pub found_value : Option ℤ → Option ℕ
found_value none = none
found_value (some v) = some (unsigned_long v)

abbrev pub stored : Shared → ℕ → ℕ → Memory → Shared
stored s t n m = record { memory = m; local = update s.local t m.local_epoch; insertions = n }

unfoldable pub shared_init : Grants → Memory → Option Shared
shared_init grants blank = elim (skiplist_init grants header blank) [
  | done _ m ↦ some (record { memory = m; local = λ _. none; insertions = 0 })
  | crash ↦ none
  | unfinished ↦ none
]

-- The benchmark does not look at what `skiplist_insert` and `skiplist_remove` return.
unfoldable pub shared_insert : Outside → ℕ → (key value : ℕ) → Shared → Option Shared
shared_insert a t key value s =
    elim (skiplist_insert (fuelled a s) (pos key) header (pos value) (seen t s)) [
      | done _ m ↦ some (stored s t (suc s.insertions) m)
      | crash ↦ none
      | unfinished ↦ none
    ]

unfoldable pub shared_remove : Outside → ℕ → (key : ℕ) → Shared → Option Shared
shared_remove a t key s = elim (skiplist_remove (fuelled a s) (pos key) header (seen t s)) [
  | done _ m ↦ some (stored s t s.insertions m)
  | crash ↦ none
  | unfinished ↦ none
]

unfoldable pub shared_search : Outside → ℕ → (key : ℕ) → Shared → Option (Option ℕ × Shared)
shared_search a t key s = elim (skiplist_search (fuelled a s) (pos key) header (seen t s)) [
  | done (r, o) m ↦ some (found_value o, stored s t s.insertions m)
  | crash ↦ none
  | unfinished ↦ none
]

abbrev pub epoch_list : Grants → Memory → SharedMap
epoch_list grants blank = record {
  Store = Shared;
  Answer = Outside;
  init = shared_init grants blank;
  insert = shared_insert;
  remove = shared_remove;
  search = shared_search;
}

-- `malloc` gives memory that no tower has, and `pthread_setspecific` works.
pub record Fits (a : Outside) (s : Shared) : Type 0 where
  pub fresh : a.fresh ≢ 0
  pub unused : s.memory.tower a.fresh ≡ none
  pub works : a.setspecific ≡ pos 0
