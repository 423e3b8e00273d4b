-- ===== src/SkipList/Remove/Run.antt =====
-- The body of `skiplist_remove` of lab4/SkipList.c, over what its parts do.
use distibuted_sys.Base.{
  ℕ, ◌-◌, ◌≡◌, ◌≢◌, refl, true, false, Option, some, arith, ◌==◌, set, get_elem?,
}
use distibuted_sys.Base.Int.{ℤ, eqz}
use distibuted_sys.SkipList.{
  num_levels, Ptr, null, Tower, Memory, done, put, ◌>>◌, return, success, load_tower,
}
use distibuted_sys.SkipList.Search.{Tables, fill_tables}
use distibuted_sys.SkipList.Epoch.{to_unsigned, add_to_reclaim_list, reclaim_nodes}
use distibuted_sys.SkipList.Access.{
  Outside, no_tables, holds_key, mark_levels, mark_bottom, skiplist_remove,
}
use distibuted_sys.SkipList.Lookup.{HasCell, left, enter_epoch-HasCell, leave_epoch-HasCell}

abbrev pub retired : Memory → (Ptr → Option Tower) → ℕ → Ptr → Memory
retired m tower e p = record m { tower = tower; reclaim_lists = set m.reclaim_lists e p }

add_to_reclaim_list-some :
    (p : Ptr) (e : ℕ) (m : Memory) (t : Tower) (r : Ptr)
    → m.tower p ≡ some t
    → get_elem? m.reclaim_lists e ≡ some r
    → add_to_reclaim_list p e m
      ≡ done tt (record m {
        tower = put m.tower p (some (record t { reclaim_next = r }));
        reclaim_lists = set m.reclaim_lists e p;
      })
unfolding add_to_reclaim_list
add_to_reclaim_list-some p e m t r at head = ground (arith, at, head)

-- The run of `skiplist_remove` over what its parts do.
module _ (o : Outside) (k : ℤ) (m : Memory) (skiplist cell p : ℕ) (epoch : ℤ) (t t3 : Tables)
    (here old : Tower) (tower1 tower2 tower3 : Ptr → Option Tower) (r : Ptr) (ne : skiplist ≢ null)
    (nn : p ≢ null) (c : HasCell m cell epoch)
    (runs : fill_tables k o.resets o.fuel (num_levels - 1) 0 no_tables m ≡ done t m)
    (succ : t.succs 0 ≡ p) (found : m.tower p ≡ some here) (held : eqz here.key k ≡ true)
    (marks : mark_levels o k here.level p m ≡ done tt (record m { tower = tower1 }))
    (bottom : mark_bottom o k o.resets p (record m { tower = tower1 })
      ≡ done true (record m { tower = tower2 }))
    (again : fill_tables k o.resets o.fuel (num_levels - 1) 0 t (record m { tower = tower2 })
      ≡ done t3 (record m { tower = tower3 }))
    (unlinked : tower3 p ≡ some old)
    (head : get_elem? m.reclaim_lists (to_unsigned epoch) ≡ some r) where
  abbrev pub after_removal : Memory
  after_removal =
      retired m (put tower3 p (some (record old { reclaim_next = r }))) (to_unsigned epoch) p

  pub remove_run :
      skiplist_remove o k skiplist m
      ≡ (reclaim_nodes o.fuel >> return success) (left cell epoch after_removal)
  unfolding skiplist_remove holds_key
  remove_run =
      let m3 = record m { tower = tower3 } in
      let present : (skiplist == null) ≡ false = ground (arith, ne) in
      let there : (p == null) ≡ false = ground (arith, nn) in
      let enters = enter_epoch-HasCell o.setspecific m cell epoch c in
      let loads : load_tower p m ≡ done here m = rw (found, load_tower) refl in
      let retires = add_to_reclaim_list-some p (to_unsigned epoch) m3 old r unlinked head in
      let leaves =
        leave_epoch-HasCell after_removal cell epoch (record { mine = c.mine; holds = c.holds }) in
      rw
        (
          present, enters, runs, succ, there, loads, held, loads, marks, bottom, again, retires,
          leaves,
        )
        refl
