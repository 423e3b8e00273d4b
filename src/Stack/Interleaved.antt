-- ===== src/Stack/Interleaved.antt =====
-- lab3/Stack.c: threads that call `stack_push` and `stack_pop`, interleaved at each access to what
-- they share. Each thread has its hazard pointer already, and NULL is not passed to the functions.
pub mod Zones
pub mod Atomic
pub mod Knowledge
pub mod Capture
pub mod Lists
pub mod Outcome
pub mod Pushes
pub mod Pops
pub mod Reclaims
pub mod Cleans
pub mod Steps
pub mod Simulation
pub mod Linear
pub mod Finite
pub mod Alone
pub mod Relist
pub mod Ending
pub mod Returns
mod Tests
use distibuted_sys.Base.{
  ℕ, suc, ◌+◌, ◌*◌, ◌%◌, ◌^◌, Bool, true, false, Option, none, some, List, [], ◌∷◌, ◌++◌, ◌==◌, ltb,
  leb, if◌then◌else◌,
}
use distibuted_sys.Base.Threads.{update}
use distibuted_sys.Stack.{
  Ptr, null, StackErrno, no_error, no_memory, no_element, Status, success, failure,
}
use distibuted_sys.Stack.Hazard.{max_hazard_pointers}
use distibuted_sys.Stack.Access.{yield_backoff}

-- The memory of the nodes, and the fields of `struct Stack`; thread `i` has the hazard pointer `i`.
-- Memory that is not allocated keeps what was in it.
pub record Shared : Type 0 where
  pub allocated : Ptr → Bool
  pub next : Ptr → Ptr
  pub value : Ptr → ℕ
  pub hazard : ℕ → Ptr
  pub to_reclaim : Ptr
  pub reclaim_counter : ℕ
  pub head : Ptr
  pub errno : StackErrno

-- What comes behind `add_to_reclaim_list`: in `stack_pop`, the counter; in
-- `delete_nodes_with_no_hazards`, the next node. Both carry the value at `place_to_pop`.
pub data Behind : Type 0 where
  counting : (value : ℕ) → Behind
  cleaning : (next : Ptr) (value : ℕ) → Behind

-- The access that a thread makes next, with its local variables.
pub data Place : Type 0 where
  idle : Place
  -- `stack_push`
  allocates : (value : ℕ) → Place
  loads_head : (new_node : Ptr) (backoff_counter : ℕ) → Place
  links : (new_node top : Ptr) (backoff_counter : ℕ) → Place
  swaps_in : (new_node top : Ptr) (backoff_counter : ℕ) → Place
  push_ends : Status → Place
  -- `stack_pop`
  loads_old : Place
  protects : (old_head : Ptr) → Place
  checks : (tmp : Ptr) → Place
  reads_next : (old_head : Ptr) → Place
  swaps_out : (old_head next : Ptr) → Place
  clears : (old_head : Ptr) → Place
  fails : Place
  copies : (old_head : Ptr) → Place
  counts : (value : ℕ) → Place
  resets : (value : ℕ) → Place
  pop_ends : Option ℕ → Place
  -- `add_to_reclaim_list`
  loads_reclaim : (node : Ptr) → Behind → Place
  links_reclaim : (node reclaim_head : Ptr) → Behind → Place
  swaps_reclaim : (node : Ptr) → Behind → Place
  -- `delete_nodes_with_no_hazards`
  takes : (value : ℕ) → Place
  cleans : (current : Ptr) (value : ℕ) → Place
  scans : (current next : Ptr) (hp_i value : ℕ) → Place

pub data Call : Type 0 where
  push : ℕ → Call
  pop : Call

-- What comes of a call: the result of `stack_push`, or the value popped, if there is one.
pub data Answer : Type 0 where
  pushed : Status → Answer
  popped : Option ℕ → Answer

-- What the outside does in a step: which call an idle thread makes, the address that `malloc` gives,
-- and whether a weak compare-exchange fails for no reason.
pub record Input : Type 0 where
  pub call : Call
  pub fresh : Ptr
  pub spurious : Bool

-- `malloc` gives memory that is not allocated, or NULL.
abbrev pub granted : (Ptr → Bool) → Ptr → Ptr
granted allocated p = if p == null then null else if allocated p then null else p

abbrev pub begins : Call → Place
begins (push v) = allocates v
begins pop = loads_old

abbrev pub goes_on : Behind → Place
goes_on (counting v) = counts v
goes_on (cleaning next v) = cleans next v

-- A pointer is followed only to allocated memory.
abbrev pub follow : Shared → Ptr → Shared × Place → Option (Shared × Place)
follow s p r = if s.allocated p then some r else none

-- The weak compare-exchange of `add_to_reclaim_list`: on failure the node's `next` gets the value found.
abbrev pub exchanges_reclaim : Bool → Shared → Ptr → Behind → Shared × Place
exchanges_reclaim spurious s p k =
    if spurious
    then (record s { next = update s.next p s.to_reclaim }, loads_reclaim p k)
    else if s.to_reclaim == s.next p
    then (record s { to_reclaim = p }, goes_on k)
    else (record s { next = update s.next p s.to_reclaim }, loads_reclaim p k)

-- One round of `outstanding_hazard_pointers_for`, or what follows its last round.
abbrev pub scans_hazards : Shared → Ptr → Ptr → ℕ → ℕ → Option (Shared × Place)
scans_hazards s current next hp_i v =
    if ltb hp_i max_hazard_pointers
    then some (
      s,
      if s.hazard hp_i == current
          then loads_reclaim current (cleaning next v)
          else scans current next (suc hp_i) v,
    )
    else follow s current (record s { allocated = update s.allocated current false }, cleans next v)

-- One access of thread `i`; `none` is an access to memory that is not allocated.
unfoldable pub step : Input → ℕ → Shared → Place → Option (Shared × Place)
step input i s idle = some (s, begins input.call)
step input i s (allocates v) =
    let p = granted s.allocated input.fresh in
    if p == null
    then some (record s { errno = no_memory }, push_ends failure)
    else some (
      record s { allocated = update s.allocated p true; value = update s.value p v },
      loads_head p 0,
    )
step input i s (loads_head p c) = some (s, links p s.head (if c == yield_backoff then 0 else c))
step input i s (links p top c) =
    follow s p (record s { next = update s.next p top }, swaps_in p top ((c + 1) % 2 ^ 32))
step input i s (swaps_in p top c) =
    some (if s.head == top then (record s { head = p }, push_ends success) else (s, loads_head p c))
step input i s (push_ends r) = some (s, idle)
step input i s loads_old = some (s, protects s.head)
step input i s (protects old) = some (record s { hazard = update s.hazard i old }, checks old)
step input i s (checks tmp) = some (
  s,
  if s.head == tmp then (if tmp == null then clears null else reads_next tmp) else protects s.head,
)
step input i s (reads_next old) = follow s old (s, swaps_out old (s.next old))
step input i s (swaps_out old next) =
    some (if s.head == old then (record s { head = next }, clears old) else (s, loads_old))
step input i s (clears old) =
    some (record s { hazard = update s.hazard i null }, if old == null then fails else copies old)
step input i s fails = some (record s { errno = no_element }, pop_ends none)
step input i s (copies old) = follow s old (s, loads_reclaim old (counting (s.value old)))
step input i s (counts v) =
    let c = (s.reclaim_counter + 1) % 2 ^ 32 in
    some (
      record s { reclaim_counter = c },
      if leb (2 * max_hazard_pointers) c then resets v else pop_ends (some v),
    )
step input i s (resets v) = some (record s { reclaim_counter = 0 }, takes v)
step input i s (pop_ends o) = some (s, idle)
step input i s (loads_reclaim p k) = some (s, links_reclaim p s.to_reclaim k)
step input i s (links_reclaim p r k) =
    follow s p (record s { next = update s.next p r }, swaps_reclaim p k)
step input i s (swaps_reclaim p k) = follow s p (exchanges_reclaim input.spurious s p k)
step input i s (takes v) = some (record s { to_reclaim = null }, cleans s.to_reclaim v)
step input i s (cleans current v) =
    if current == null
    then some (s, pop_ends (some v))
    else follow s current (s, scans current (s.next current) 0 v)
step input i s (scans current next hp_i v) = scans_hazards s current next hp_i v

-- What a caller sees.
pub data Event : Type 0 where
  called : ℕ → Call → Event
  returned : ℕ → Answer → Event

abbrev pub event : Input → ℕ → Place → List Event
event input i idle = called i input.call ∷ []
event input i (push_ends r) = returned i (pushed r) ∷ []
event input i (pop_ends o) = returned i (popped o) ∷ []
event input i _ = []

pub record System : Type 0 where
  pub shared : Shared
  pub place : ℕ → Place

-- A step of the thread that moves next; there are as many as there are hazard pointers.
unfoldable pub turn : ℕ × Input → System → Option (System × List Event)
turn (i, input) s =
    if ltb i max_hazard_pointers
    then (elim (step input i s.shared (s.place i)) [
      | none ↦ none
      | some (m, p) ↦
          some (record { shared = m; place = update s.place i p }, event input i (s.place i))
    ])
    else some (s, [])

-- The steps of a schedule, one after the other, with all that the callers see.
unfoldable pub runs {ℓ κ} :
    {E : Type ℓ} {S : Type κ}
    → (E → S → Option (S × List Event))
    → List E
    → S
    → Option (S × List Event)
runs move [] s = some (s, [])
runs move (e ∷ es) s = elim (move e s) [
  | none ↦ none
  | some (s', here) ↦ elim (runs move es s') [
    | none ↦ none
    | some (s'', later) ↦ some (s'', here ++ later)
  ]
]

-- After `stack_init`: no node is allocated, and no thread has called yet.
abbrev pub start : System
start = record {
  shared = record {
    allocated = λ p. false;
    next = λ p. null;
    value = λ p. 0;
    hazard = λ i. null;
    to_reclaim = null;
    reclaim_counter = 0;
    head = null;
    errno = no_error;
  };
  place = λ i. idle;
}
