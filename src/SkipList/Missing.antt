-- ===== src/SkipList/Missing.antt =====
-- `skiplist_remove` and `skiplist_insert` of lab4/SkipList.c where there is nothing to remove, and no
-- memory for what is to be inserted.
use distibuted_sys.Base.{ℕ, ◌-◌, ◌≤◌, ◌<◌, ◌≡◌, ◌≢◌, false, none, List, arith, length}
use distibuted_sys.Base.Int.{ℤ}
use distibuted_sys.SkipList.{num_levels, null, no_memory, Memory, done, success, failure}
use distibuted_sys.SkipList.Search.{Tables, fill_tables}
use distibuted_sys.SkipList.Access.{
  Outside, no_tables, holds_key, insert_tower, skiplist_insert, skiplist_remove,
}
use distibuted_sys.SkipList.Items.{Item, drop_less}
use distibuted_sys.SkipList.Walk.{IsSkipList}
use distibuted_sys.SkipList.Find.{fill_tables-Finds}
use distibuted_sys.SkipList.Lookup.{
  HasCell, left, drop_less-Linked, enter_epoch-HasCell, leave_epoch-HasCell,
}
use distibuted_sys.SkipList.Update.Values.{find}
use distibuted_sys.SkipList.Insert.Finished.{find-drop_less}
use distibuted_sys.SkipList.Insert.{holds_key-other}

module _ (o : Outside) (k : ℤ) (m : Memory) (skiplist cell : ℕ) (epoch : ℤ) (xs : List Item)
    (ne : skiplist ≢ null) (s : IsSkipList m.tower xs) (c : HasCell m cell epoch)
    (more : 1 ≤ o.resets) (h : length xs < o.fuel) (e : find k xs ≡ none) where
  search-other :
      (t : Tables) × (fill_tables k o.resets o.fuel (num_levels - 1) 0 no_tables m ≡ done t m)
      × (holds_key o k (t.succs 0) m ≡ done false m)
  search-other =
      let (t, runs, finds, _) =
        fill_tables-Finds k m o.resets o.fuel (num_levels - 1) 0 no_tables xs s (omega arith)
          (omega arith) more h in
      (
        t,
        runs,
        holds_key-other o k (t.succs 0) (drop_less k xs) m (finds 0 (omega arith) (omega arith)).1
            (drop_less-Linked k m.tower xs s.links) (find-drop_less k xs e),
      )

  -- A thread that has its cell succeeds with skiplist_remove, in a skip list with fuel for every
  -- tower, when no tower has the key, without NO_ELEMENT; only its own epoch changes.
  pub remove-absent : skiplist_remove o k skiplist m ≡ done success (left cell epoch m)
  unfolding skiplist_remove
  remove-absent =
      let (t, runs, looks) = search-other in
      ground (
        arith,
        ne,
        runs,
        looks,
        enter_epoch-HasCell o.setspecific m cell epoch c,
        leave_epoch-HasCell m cell epoch c,
      )

  -- If malloc returns NULL, skiplist_insert of a key that no tower has fails with NO_MEMORY, in a skip
  -- list with fuel for every tower and for a thread that has its cell; it changes nothing else, and
  -- does not leave the epoch.
  pub insert-no_memory :
      o.fresh ≡ null
      → (v : ℤ) → skiplist_insert o k skiplist v m ≡ done failure (record m { errno = no_memory })
  unfolding skiplist_insert insert_tower
  insert-no_memory full v =
      let (t, runs, looks) = search-other in
      ground (arith, ne, runs, looks, full, enter_epoch-HasCell o.setspecific m cell epoch c)
