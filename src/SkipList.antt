-- ===== src/SkipList.antt =====
-- lab4/SkipList.c and lab4/SkipList.h: the lock-free skip list with epoch-based reclamation, as one
-- thread runs its functions while the others stand still.
pub mod Epoch
pub mod Search
pub mod Access
pub mod Lifetime
pub mod Items
pub mod Exchange
pub mod Walk
pub mod Find
pub mod Lookup
pub mod Cells
pub mod Apart
pub mod Update
pub mod Insert
pub mod Missing
pub mod Remove
pub mod RoundTrip
pub mod Reclaim
pub mod Sample
mod Tests
mod RemoveTests
pub use distibuted_sys.Base.Code.{
  Outcome, done, crash, unfinished, ◌>>=◌, ◌>>◌, return, read, write,
}
use distibuted_sys.Base.{ℕ, ◌≡◌, Bool, Option, none, some, List, ◌==◌, leb, if◌then◌else◌}
use distibuted_sys.Base.Int.{ℤ}

abbrev pub max_threads : ℕ
max_threads = 256

abbrev pub num_levels : ℕ
num_levels = 16

abbrev pub num_epochs : ℕ
num_epochs = 4

abbrev pub Ptr : Type 0
Ptr = ℕ

abbrev pub null : Ptr
null = 0

-- The address of the header tower, which is a part of `struct SkipList`.
abbrev pub header : Ptr
header = 1

-- A tagged pointer: POINTER and IS_MARKED are its fields.
pub record Link : Type 0 where
  pub target : Ptr
  pub marked : Bool

abbrev pub link : Ptr → Link
link p = record { target = p; marked = Bool.false }

-- MARKED
abbrev pub mark : Link → Link
mark l = record l { marked = Bool.true }

-- `struct Tower`; `forward` has the levels 0 to `level`.
pub record Tower : Type 0 where
  pub key : ℤ
  pub value : ℤ
  pub level : ℕ
  pub reclaim_next : Ptr
  pub forward : ℕ → Link

pub data SkiplistErrno : Type 0 where
  no_error no_memory no_threads no_element thread_local_error : SkiplistErrno

-- The towers that are allocated, the fields of `struct SkipList`, and the thread-local value of the
-- calling thread: the index of its cell among the local epochs.
pub record Memory : Type 0 where
  pub tower : Ptr → Option Tower
  pub max_level : ℕ
  pub errno : SkiplistErrno
  pub reclaim_lists : List Ptr
  pub reclaim_lock : Bool
  pub global_epoch : ℤ
  pub local_epochs : List ℤ
  pub local_epoch : Option ℕ

abbrev pub Code : Type 0 → Type 0
Code A = Memory → Outcome Memory A

pub data Status : Type 0 where
  success failure : Status

abbrev pub put : (Ptr → Option Tower) → Ptr → Option Tower → Ptr → Option Tower
put tower p o a = if p == a then o else tower a

abbrev pub load_tower : Ptr → Code Tower
load_tower p m = elim (m.tower p) [ none ↦ crash | some t ↦ done t m ]

abbrev pub store_tower : Ptr → Tower → Code (Unit {0})
store_tower p t m = elim (m.tower p) [
  | none ↦ crash
  | some _ ↦ done tt (record m { tower = put m.tower p (some t) })
]

abbrev pub free : Ptr → Code (Unit {0})
free p m = elim (m.tower p) [
  | none ↦ crash
  | some _ ↦ done tt (record m { tower = put m.tower p none })
]

abbrev pub set_forward : (ℕ → Link) → ℕ → Link → ℕ → Link
set_forward f lvl l k = if lvl == k then l else f k

-- `p->forward[lvl]`
unfoldable pub load_link : Ptr → ℕ → Code Link
load_link p lvl = do
  t ← load_tower p
  if leb lvl t.level then return (t.forward lvl) else (λ _. crash)

-- `p->forward[lvl] = l`
unfoldable pub store_link : Ptr → ℕ → Link → Code (Unit {0})
store_link p lvl l = do
  t ← load_tower p
  if leb lvl t.level
      then store_tower p (record t { forward = set_forward t.forward lvl l })
      else (λ _. crash)

abbrev pub same_link : Link → Link → Bool
same_link a b =
    if a.target == b.target
    then (if a.marked then b.marked else (if b.marked then Bool.false else Bool.true))
    else Bool.false

-- The strong compare-exchange of `p->forward[lvl]`: whether it was made, and the value found.
unfoldable pub exchange_link : Ptr → ℕ → Link → Link → Code (Bool × Link)
unfolding load_link store_link
exchange_link p lvl expected desired = do
  found ← load_link p lvl
  if same_link found expected
      then (do store_link p lvl desired; return (Bool.true, found))
      else return (Bool.false, found)
