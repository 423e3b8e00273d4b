-- ===== src/SkipList/Tests.antt =====
-- Runs of the functions of lab4/SkipList.c on small skip lists.
use distibuted_sys.Base.{
  ℕ, zero, suc, ◌<◌, ◌≤◌, ◌≡◌, refl, true, Option, none, some, List, [], ◌∷◌, arith, get_elem?,
  replicate,
}
use distibuted_sys.Base.Int.{ℤ, pos, minus_one}
use distibuted_sys.SkipList.{
  Ptr, null, header, no_memory, no_threads, success, failure, Tower, Memory, Outcome, done, crash,
  put, ◌>>=◌, ◌>>◌, return, Code,
}
use distibuted_sys.SkipList.Search.{Tables, generate_level, fill_tables}
use distibuted_sys.SkipList.Epoch.{
  claim_cell, epoch_init, enter_epoch, next_epoch, reclaim_epoch, reclaim_nodes,
}
use distibuted_sys.SkipList.Access.{no_tables, skiplist_insert, skiplist_remove, skiplist_search}
use distibuted_sys.SkipList.Lifetime.{skiplist_init}
use distibuted_sys.SkipList.Items.{place}
use distibuted_sys.SkipList.Walk.{IsSkipList}
use distibuted_sys.SkipList.Find.{Finds, Same, fill_tables-Finds}
use distibuted_sys.SkipList.Lookup.{left, search_result, lookup, search-lookup}
use distibuted_sys.SkipList.Cells.{generate_level_bounds, epoch_init-shared, search-crash}
use distibuted_sys.SkipList.Update.Values.{set_value}
use distibuted_sys.SkipList.Update.{insert-set_value}
use distibuted_sys.SkipList.Insert.Splice.{insert_item}
use distibuted_sys.SkipList.Insert.{new_item, insert-insert_item}
use distibuted_sys.SkipList.Missing.{remove-absent, insert-no_memory}
use distibuted_sys.SkipList.Reclaim.{reclaim_nodes-behind, reclaim_nodes-Chained}
use distibuted_sys.SkipList.Sample.{
  three, seven, tower_of, two_towers, two_towers-IsSkipList, outside,
}

search-lookup_example :
    skiplist_search outside (pos 7) header two_towers
    ≡ search_result (lookup (pos 7) (three ∷ seven ∷ [])) (left 0 (pos 0) two_towers)
search-lookup_example =
    search-lookup outside (pos 7) two_towers header 0 (pos 0) (three ∷ seven ∷ []) (omega arith)
      two_towers-IsSkipList (record { mine = refl; holds = refl }) (omega arith) (omega arith)
      (omega arith)

fill_tables-Finds_example :
    (t : Tables) × (fill_tables (pos 5) 1 3 1 0 no_tables two_towers ≡ done t two_towers)
    × ((l : ℕ)
        → 0 ≤ l
        → l ≤ 1
        → Finds (pos 5) two_towers (place header (three ∷ seven ∷ [])) (three ∷ seven ∷ []) t l)
    × ((l : ℕ) → 1 < l → Same (pos 5) two_towers no_tables t l)
fill_tables-Finds_example =
    fill_tables-Finds (pos 5) two_towers 1 3 1 0 no_tables (three ∷ seven ∷ [])
      two_towers-IsSkipList (omega arith) (omega arith) (omega arith) (omega arith)

generate_level_bounds_example :
    (0 ≤ generate_level 100 0 (10 ∷ 20 ∷ 90 ∷ [])) × (generate_level 100 0 (10 ∷ 20 ∷ 90 ∷ []) < 16)
generate_level_bounds_example = generate_level_bounds 100 0 (10 ∷ 20 ∷ 90 ∷ []) (omega arith)

-- No cell is free for a new thread, and no cell equals the one before.
abbrev no_cell : Memory
no_cell = record two_towers { local_epochs = pos 0 ∷ pos 1 ∷ []; local_epoch = none }

search-crash_example :
    (enter_epoch outside.setspecific no_cell
      ≡ done minus_one (record no_cell { errno = no_threads }))
    × (skiplist_search outside (pos 7) header no_cell ≡ crash)
unfolding claim_cell
search-crash_example =
    search-crash outside (pos 7) no_cell header (pos 0 ∷ pos 1 ∷ []) (three ∷ seven ∷ [])
      (omega arith) two_towers-IsSkipList refl refl (omega arith) (omega arith) (omega arith)

-- Two neighbours have cells of the epoch 2, as threads that have not seen the epoch move on.
abbrev twins : Memory
twins = record two_towers {
  global_epoch = pos 0;
  local_epochs = pos 0 ∷ minus_one ∷ pos 2 ∷ pos 2 ∷ minus_one ∷ [];
  local_epoch = none;
}

epoch_init-shared_example :
    epoch_init twins
    ≡ done
        (some 3)
        (record twins { local_epochs = pos 0 ∷ minus_one ∷ pos 2 ∷ pos 0 ∷ minus_one ∷ [] })
epoch_init-shared_example = epoch_init-shared twins 2 (pos 2) (refl, (refl, (refl, tt))) refl refl

-- Four threads enter, one after another, a skip list that skiplist_init made in zeroed memory.
abbrev enter_four : Code (List (Option ℕ))
enter_four = do
  skiplist_init
      (record { memory = true; key = true; raw_epochs = replicate 7 (pos 0); raw_value = pos 0 })
      header
  first ← epoch_init
  second ← epoch_init
  third ← epoch_init
  fourth ← epoch_init
  return (first ∷ second ∷ third ∷ fourth ∷ [])

abbrev outcome_of : {A : Type 0} → Outcome Memory A → Option A
outcome_of (done a _) = some a
outcome_of _ = none

four_threads : outcome_of (enter_four two_towers) ≡ some (some 0 ∷ some 2 ∷ some 5 ∷ some 5 ∷ [])
unfolding skiplist_init epoch_init claim_cell
four_threads = refl

-- One removed tower in the list of the epoch two behind.
abbrev one_removed : Memory
one_removed = record two_towers {
  reclaim_lists = null ∷ null ∷ null ∷ 3 ∷ [];
  local_epochs = pos 1 ∷ pos 1 ∷ [];
}

one_removed_same :
    (i : ℕ) (e : ℤ) → get_elem? one_removed.local_epochs i ≡ some e → e ≡ one_removed.global_epoch
one_removed_same zero e at = ground (arith, at)
one_removed_same (suc zero) e at = ground (arith, at)
one_removed_same (suc (suc i)) e at = ground (arith, at)

reclaim_nodes-behind_example : reclaim_nodes 3 two_towers ≡ done tt two_towers
reclaim_nodes-behind_example = reclaim_nodes-behind two_towers 3 1 minus_one refl refl

reclaim_nodes-Chained_example :
    reclaim_nodes 3 one_removed
    ≡ done tt (record one_removed {
      tower = put two_towers.tower 3 none;
      reclaim_lists = replicate 4 null;
      global_epoch = pos 2;
    })
unfolding next_epoch reclaim_epoch
reclaim_nodes-Chained_example =
    reclaim_nodes-Chained one_removed 3 3 (3 ∷ []) refl one_removed_same refl
      (refl, refl, tt, tower_of seven [], refl, refl) (omega arith)

insert-set_value_example :
    (tower : Ptr → Option Tower) × (skiplist_insert outside (pos 7) header (pos 71) two_towers
      ≡ done success (left 0 (pos 0) (record two_towers { tower = tower })))
    × IsSkipList tower (set_value (pos 7) (pos 71) (three ∷ seven ∷ []))
insert-set_value_example =
    insert-set_value outside (pos 7) (pos 71) two_towers header 0 (pos 0) (three ∷ seven ∷ []) seven
      (omega arith) two_towers-IsSkipList (record { mine = refl; holds = refl }) (omega arith)
      (omega arith) refl

insert-insert_item_example :
    (tower : Ptr → Option Tower) × (skiplist_insert outside (pos 5) header (pos 50) two_towers
      ≡ done success (left 0 (pos 0) (record two_towers { tower = tower; max_level = 1 })))
    × IsSkipList tower (insert_item (new_item outside (pos 5) (pos 50)) (three ∷ seven ∷ []))
unfolding generate_level
insert-insert_item_example =
    insert-insert_item outside (pos 5) (pos 50) two_towers header 0 (pos 0) (three ∷ seven ∷ [])
      (omega arith) two_towers-IsSkipList (record { mine = refl; holds = refl }) (omega arith)
      (omega arith) refl (omega arith) refl

remove-absent_example :
    skiplist_remove outside (pos 5) header two_towers ≡ done success (left 0 (pos 0) two_towers)
remove-absent_example =
    remove-absent outside (pos 5) two_towers header 0 (pos 0) (three ∷ seven ∷ []) (omega arith)
      two_towers-IsSkipList (record { mine = refl; holds = refl }) (omega arith) (omega arith) refl

insert-no_memory_example :
    skiplist_insert (record outside { fresh = null }) (pos 5) header (pos 50) two_towers
    ≡ done failure (record two_towers { errno = no_memory })
insert-no_memory_example =
    insert-no_memory (record outside { fresh = null }) (pos 5) two_towers header 0 (pos 0)
      (three ∷ seven ∷ []) (omega arith) two_towers-IsSkipList
      (record { mine = refl; holds = refl }) (omega arith) (omega arith) refl refl (pos 50)
