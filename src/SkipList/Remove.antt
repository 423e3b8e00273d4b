-- ===== src/SkipList/Remove.antt =====
-- `skiplist_remove` of lab4/SkipList.c with a key that the skip list has.
pub mod Unlink
pub mod Uninsert
pub mod Levels
pub mod Marking
pub mod Sweep
pub mod Way
pub mod Ends
pub mod Run
use distibuted_sys.Base.{
  ℕ, zero, suc, ◌+◌, ◌-◌, ◌≤◌, ◌<◌, ◌≡◌, ◌≢◌, refl, ◌∙◌, Bool, true, false, Option, some, List, [],
  ◌∷◌, inl, inr, arith, ◌==◌, Bool-cases, ap, sym, subst, ltb, length, set, get_elem?,
}
use distibuted_sys.Base.Int.{ℤ, ltz, eqz, eqz→eq, eqz_refl}
use distibuted_sys.SkipList.{
  num_levels, Ptr, null, header, Link, link, Tower, Memory, done, put, ◌>>◌, return, Status,
  success, load_tower,
}
use distibuted_sys.SkipList.Search.{Tables, fill_tables}
use distibuted_sys.SkipList.Epoch.{to_unsigned, add_to_reclaim_list, reclaim_nodes}
use distibuted_sys.SkipList.Access.{
  Outside, no_tables, holds_key, mark_levels, mark_bottom, skiplist_remove,
}
use distibuted_sys.SkipList.Items.{Item, ApartFrom, AllLow, next_at, drop_less, IsSorted}
use distibuted_sys.SkipList.Walk.{Stands, Linked, IsSkipList}
use distibuted_sys.SkipList.Find.{fill_tables-Finds}
use distibuted_sys.SkipList.Lookup.{HasCell, left, enter_epoch-HasCell, leave_epoch-HasCell}
use distibuted_sys.SkipList.Update.Values.{find, next_at-find, find-Stands}
use distibuted_sys.SkipList.Insert.Splice.{insert_item}
use distibuted_sys.SkipList.Insert.Linking.{Layout}
use distibuted_sys.SkipList.Insert.Joined.{half-insert_item, Linked-AllApart}
use distibuted_sys.SkipList.Remove.Uninsert.{
  remove_item, insert_item-remove_item, IsSorted-uninsert, ApartFrom-uninsert, AllApart-uninsert,
  AllLow-uninsert, Linked-uninsert,
}
use distibuted_sys.SkipList.Remove.Levels.{old_link, Unlinking, Unlinking-put, Unlinking-IsSkipList}
use distibuted_sys.SkipList.Remove.Marking.{mark_levels-Unlinking, mark_bottom-Unlinking}
use distibuted_sys.SkipList.Reclaim.{reclaim_nodes-behind}
use distibuted_sys.SkipList.Remove.Sweep.{fill_tables-Unlinking}
use distibuted_sys.SkipList.Remove.Ends.{
  Removed, insert_item-Layout, insert_item-Unlinking, length-insert_item, Unlinking-Removed,
}
use distibuted_sys.SkipList.Remove.Run.{retired, remove_run}

remove-insert_item :
    (o : Outside) (m : Memory) (skiplist cell : ℕ) (epoch : ℤ) (x : Item) (xs : List Item) (r : Ptr)
    → skiplist ≢ null
    → IsSkipList m.tower (insert_item x xs)
    → HasCell m cell epoch
    → 1 ≤ o.resets
    → length (insert_item x xs) < o.fuel
    → find x.key (insert_item x xs) ≡ some x
    → get_elem? m.reclaim_lists (to_unsigned epoch) ≡ some r
    → (tower : Ptr → Option Tower) × (skiplist_remove o x.key skiplist m
        ≡ (reclaim_nodes o.fuel >> return success)
            (left cell epoch (retired m tower (to_unsigned epoch) x.ptr)))
      × Removed m.tower tower x xs r
remove-insert_item o m skiplist cell epoch x xs r ne s c more h e head =
    let k = x.key in
    let L = insert_item x xs in
    let y = insert_item-Layout m.tower x xs s in
    let (low, lows) = AllLow-uninsert x xs s.low in
    let (t, runs, finds, _) =
      fill_tables-Finds k m o.resets o.fuel (num_levels - 1) 0 no_tables L s (omega arith)
        (omega arith) more h in
    let succ : t.succs 0 ≡ x.ptr =
      (finds 0 (omega arith) (omega arith)).1 ∙ next_at-find k L x s.sorted e in
    let u = insert_item-Unlinking m.tower x xs s in
    let held : eqz u.old.key k ≡ true = rw u.key (eqz_refl k) in
    let (tower1, marks, u1) =
      mark_levels-Unlinking o k m.tower x xs y more (suc x.level) x.level m (omega arith) u in
    let m1 = record m { tower = tower1 } in
    let (tower2, bottom, u2) = mark_bottom-Unlinking o k m.tower x xs y more (suc x.level) m1 u1 in
    let m2 = record m { tower = tower2 } in
    let short : length xs + 1 < o.fuel = omega (arith, length-insert_item x xs) in
    let (t3, tower3, again, u3) =
      fill_tables-Unlinking o.fuel 0 m.tower x xs y low short o.resets t m2 more u2 in
    let top : mark_levels o k u.old.level x.ptr m ≡ done tt m1 =
      ap (λ l. mark_levels o k l x.ptr m) u.level ∙ marks in
    (
      put tower3 x.ptr (some (record u3.old { reclaim_next = r })),
      remove_run o k m skiplist cell x.ptr epoch t t3 u.old u3.old tower1 tower2 tower3 r ne
          y.not_null c runs succ u.found held top bottom again u3.found head,
      Unlinking-Removed m.tower tower3 x xs r u3 y lows,
    )

-- A thread that has its cell removes by skiplist_remove, in a skip list with fuel for every tower, the
-- tower with the key, if there is one: the skip list has the others, unchanged, the tower is in front
-- of the reclamation list of the thread's epoch, no memory that does not belong to the skip list
-- changes, and the thread leaves the epoch; then it runs reclaim_nodes and succeeds.
pub remove-remove_item :
    (o : Outside) (k : ℤ) (m : Memory) (skiplist cell : ℕ) (epoch : ℤ) (xs : List Item) (z : Item)
    (r : Ptr)
    → skiplist ≢ null
    → IsSkipList m.tower xs
    → HasCell m cell epoch
    → 1 ≤ o.resets
    → length xs < o.fuel
    → find k xs ≡ some z
    → get_elem? m.reclaim_lists (to_unsigned epoch) ≡ some r
    → (tower : Ptr → Option Tower) × (skiplist_remove o k skiplist m
        ≡ (reclaim_nodes o.fuel >> return success)
            (left cell epoch (retired m tower (to_unsigned epoch) z.ptr)))
      × Removed m.tower tower z (remove_item k xs) r
remove-remove_item o k m skiplist cell epoch xs z r ne s c more h e head =
    let whole = insert_item-remove_item k xs z s.sorted e in
    let (_, _, _, has) = find-Stands m.tower k xs z s.links e in
    let key : z.key ≡ k = eqz→eq z.key k has in
    let e' : find z.key (insert_item z (remove_item k xs)) ≡ some z =
      ap (λ i. find i (insert_item z (remove_item k xs))) key ∙ ap (find k) whole ∙ e in
    let (tower, runs, removed) =
      remove-insert_item o m skiplist cell epoch z (remove_item k xs) r ne
        (subst (IsSkipList m.tower) (sym whole) s) c more
        (subst (λ ys. length ys < o.fuel) (sym whole) h) e' head in
    (tower, ap (λ i. skiplist_remove o i skiplist m) (sym key) ∙ runs, removed)

-- When moreover some cell still holds another epoch than the global one, nothing is freed.
pub remove-behind :
    (o : Outside) (k : ℤ) (m : Memory) (skiplist cell : ℕ) (epoch : ℤ) (xs : List Item) (z : Item)
    (r : Ptr) (i : ℕ) (other : ℤ)
    → skiplist ≢ null
    → IsSkipList m.tower xs
    → HasCell m cell epoch
    → 1 ≤ o.resets
    → length xs < o.fuel
    → find k xs ≡ some z
    → get_elem? m.reclaim_lists (to_unsigned epoch) ≡ some r
    → get_elem? (left cell epoch m).local_epochs i ≡ some other
    → eqz other m.global_epoch ≡ false
    → (tower : Ptr → Option Tower) × (skiplist_remove o k skiplist m
        ≡ done success (left cell epoch (retired m tower (to_unsigned epoch) z.ptr)))
      × Removed m.tower tower z (remove_item k xs) r
remove-behind o k m skiplist cell epoch xs z r i other ne s c more h e head at behind =
    let (tower, runs, removed) =
      remove-remove_item o k m skiplist cell epoch xs z r ne s c more h e head in
    let after = left cell epoch (retired m tower (to_unsigned epoch) z.ptr) in
    (tower, runs ∙ rw (reclaim_nodes-behind after o.fuel i other at behind) refl, removed)
