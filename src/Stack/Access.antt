-- ===== src/Stack/Access.antt =====
-- lab3/Stack.c: `stack_push` and `stack_pop`.
use distibuted_sys.Base.{
  ℕ, zero, suc, ◌+◌, ◌*◌, ◌%◌, ◌^◌, Bool, true, false, Option, none, some, ◌==◌, leb, if◌then◌else◌,
}
use distibuted_sys.Stack.{
  Ptr, null, node, no_memory, no_element, invalid_argument, Code, done, unfinished, ◌>>=◌, ◌>>◌,
  return, read, write, Status, success, failure, put, load_node, set_next, fail_with,
}
use distibuted_sys.Stack.Hazard.{
  max_hazard_pointers, System, set_hazard, get_hazard_pointer_for_current_thread,
}
use distibuted_sys.Stack.Reclaim.{add_to_reclaim_list, delete_nodes_with_no_hazards}

abbrev pub yield_backoff : ℕ
yield_backoff = 2

-- The strong compare-exchange of `head`.
unfoldable pub exchange_head : Ptr → Ptr → Code Bool
exchange_head expected desired m =
    if m.head == expected then done true (record m { head = desired }) else done false m

-- The loop of `stack_push`; `sched_yield` has no effect on the memory.
unfoldable pub push_loop : ℕ → ℕ → Ptr → Code (Unit {0})
unfolding exchange_head
push_loop zero backoff_counter new_node = λ _. unfinished
push_loop (suc fuel) backoff_counter new_node = do
  m ← read
  let counter = if backoff_counter == yield_backoff then 0 else backoff_counter
  set_next new_node m.head
  won ← exchange_head m.head new_node
  if won then return tt else push_loop fuel ((counter + 1) % 2 ^ 32) new_node

unfoldable pub stack_push : System → ℕ → Ptr → ℕ → Code Status
unfolding push_loop
stack_push sys fuel stack value =
    if stack == null then return failure else if sys.fresh == null then fail_with no_memory else do
      m ← read
      write (record m { cell = put m.cell sys.fresh (some (node null value)) })
      push_loop fuel 0 sys.fresh
      return success

-- The inner loop of `stack_pop`: until the hazard pointer holds the head.
unfoldable pub protect : ℕ → Option ℕ → Ptr → Code Ptr
unfolding set_hazard
protect zero hp old_head = λ _. unfinished
protect (suc fuel) hp old_head = do
  set_hazard hp old_head
  m ← read
  if m.head == old_head then return m.head else protect fuel hp m.head

-- The outer loop: NULL, or the node that was unlinked.
unfoldable pub unlink : ℕ → Option ℕ → Code Ptr
unfolding protect exchange_head
unlink zero hp = λ _. unfinished
unlink (suc fuel) hp = do
  m ← read
  old_head ← protect (suc fuel) hp m.head
  if old_head == null then return null else do
    n ← load_node old_head
    won ← exchange_head old_head n.next
    if won then return old_head else unlink fuel hp

-- What follows the loops, for a node.
unfoldable pub retire : (Ptr → ℕ) → ℕ → Ptr → Code (Unit {0})
retire spurious fuel old_head = do
  add_to_reclaim_list (spurious old_head) old_head
  m ← read
  let counter = (m.reclaim_counter + 1) % 2 ^ 32
  if leb (2 * max_hazard_pointers) counter
      then (do write (record m { reclaim_counter = 0 }); delete_nodes_with_no_hazards spurious fuel)
      else write (record m { reclaim_counter = counter })

-- The value stored at `place_to_pop` is `some`, unless nothing is.
unfoldable pub stack_pop : System → (Ptr → ℕ) → ℕ → Ptr → Ptr → Code (Status × Option ℕ)
stack_pop sys spurious fuel stack place_to_pop =
    if stack == null
    then return (failure, none)
    else if place_to_pop == null
    then (do s ← fail_with invalid_argument; return (s, none))
    else do
      hp ← get_hazard_pointer_for_current_thread sys
      old_head ← unlink fuel hp
      set_hazard hp null
      if old_head == null then (do s ← fail_with no_element; return (s, none)) else do
        n ← load_node old_head
        retire spurious fuel old_head
        return (success, some n.value)
