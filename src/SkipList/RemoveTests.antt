-- ===== src/SkipList/RemoveTests.antt =====
-- Runs of `skiplist_remove` of lab4/SkipList.c.
use distibuted_sys.Base.{◌≡◌, refl, none, some, Option, [], ◌∷◌, arith}
use distibuted_sys.Base.Int.{pos, minus_one}
use distibuted_sys.SkipList.{
  Ptr, null, header, success, failure, no_element, Tower, Memory, done, ◌>>◌, return,
}
use distibuted_sys.SkipList.Epoch.{to_unsigned, reclaim_nodes}
use distibuted_sys.SkipList.Access.{skiplist_insert, skiplist_remove, skiplist_search}
use distibuted_sys.SkipList.Lookup.{left}
use distibuted_sys.SkipList.Remove.Uninsert.{remove_item}
use distibuted_sys.SkipList.Remove.Ends.{Removed}
use distibuted_sys.SkipList.Remove.Run.{retired}
use distibuted_sys.SkipList.Remove.{remove-remove_item}
use distibuted_sys.SkipList.RoundTrip.{search-insert, search-remove}
use distibuted_sys.SkipList.Sample.{three, seven, two_towers, two_towers-IsSkipList, outside}

remove-remove_item_example :
    (tower : Ptr → Option Tower) × (skiplist_remove outside (pos 3) header two_towers
      ≡ (reclaim_nodes 3 >> return success) (left 0 (pos 0) (retired two_towers tower 0 2)))
    × Removed two_towers.tower tower three (remove_item (pos 3) (three ∷ seven ∷ [])) null
unfolding to_unsigned
remove-remove_item_example =
    remove-remove_item outside (pos 3) two_towers header 0 (pos 0) (three ∷ seven ∷ []) three null
      (omega arith) two_towers-IsSkipList (record { mine = refl; holds = refl }) (omega arith)
      (omega arith) refl refl

search-insert_example :
    (m : Memory) × ((skiplist_insert outside (pos 7) header (pos 71)
          >> skiplist_search (record outside { fuel = 4 }) (pos 7) header)
        two_towers
      ≡ done (success, some (pos 71)) m)
search-insert_example =
    search-insert outside (record outside { fuel = 4 }) (pos 7) two_towers header 0 (pos 0)
      (three ∷ seven ∷ []) (omega arith) two_towers-IsSkipList
      (record { mine = refl; holds = refl }) (omega arith) (omega arith) (omega arith) (omega arith)
      (pos 71) (omega arith) (omega arith) refl

search-remove_example :
    (m : Memory) × ((skiplist_remove outside (pos 3) header
          >> skiplist_search outside (pos 3) header)
        two_towers
      ≡ done (failure, none) (record m { errno = no_element }))
unfolding to_unsigned
search-remove_example =
    search-remove outside outside (pos 3) two_towers header 0 (pos 0) (three ∷ seven ∷ [])
      (omega arith) two_towers-IsSkipList (record { mine = refl; holds = refl }) (omega arith)
      (omega arith) (omega arith) (omega arith) null 1 minus_one (omega arith) refl refl refl
