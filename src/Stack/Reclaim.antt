-- ===== src/Stack/Reclaim.antt =====
-- lab3/Stack.c: memory reclamation.
use distibuted_sys.Base.{ℕ, zero, suc, Bool, true, false, ◌==◌, if◌then◌else◌}
use distibuted_sys.Stack.{
  Ptr, null, Code, unfinished, ◌>>=◌, ◌>>◌, return, read, write, load_node, set_next, free,
}
use distibuted_sys.Stack.Hazard.{outstanding_hazard_pointers_for}

-- The weak compare-exchange of `to_reclaim` against `p->next`. A failure, `spurious` or not, stores
-- the value found into `p->next`.
unfoldable pub weak_exchange : Bool → Ptr → Code Bool
weak_exchange spurious p = do
  m ← read
  n ← load_node p
  let hit = m.to_reclaim == n.next
  let won = if spurious then false else hit
  if won
      then (do write (record m { to_reclaim = p }); return true)
      else (do set_next p m.to_reclaim; return false)

-- `spurious` counts the spurious failures of the weak compare-exchange in this call.
unfoldable pub add_to_reclaim_list : (spurious : ℕ) → Ptr → Code (Unit {0})
unfolding weak_exchange
add_to_reclaim_list zero p = do
  m ← read
  set_next p m.to_reclaim
  won ← weak_exchange false p
  if won then return tt else (λ _. unfinished)
add_to_reclaim_list (suc k) p = do
  m ← read
  set_next p m.to_reclaim
  won ← weak_exchange true p
  if won then return tt else add_to_reclaim_list k p

module _ (spurious : Ptr → ℕ) where
  -- One round of the loop of `delete_nodes_with_no_hazards`.
  unfoldable pub delete_or_return : Ptr → Code (Unit {0})
  delete_or_return current = do
    m ← read
    if outstanding_hazard_pointers_for m.hazard_pointers current
        then add_to_reclaim_list (spurious current) current
        else free current

  unfoldable pub delete_loop : ℕ → Ptr → Code (Unit {0})
  unfolding delete_or_return
  delete_loop zero current = λ _. unfinished
  delete_loop (suc fuel) current =
      if current == null
      then return tt
      else do n ← load_node current; delete_or_return current; delete_loop fuel n.next

  unfoldable pub delete_nodes_with_no_hazards : ℕ → Code (Unit {0})
  unfolding delete_loop
  delete_nodes_with_no_hazards fuel = do
    m ← read
    write (record m { to_reclaim = null })
    delete_loop fuel m.to_reclaim
