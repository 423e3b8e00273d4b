-- ===== src/SkipList/RoundTrip.antt =====
-- What `skiplist_search` of lab4/SkipList.c finds after `skiplist_insert` and `skiplist_remove`.
use distibuted_sys.Base.{
  ℕ, suc, ◌+◌, ◌≤◌, ◌<◌, ◌≡◌, ◌≢◌, refl, false, none, some, List, [], ◌∷◌, inl, inr, arith, ◌⊎◌,
  Bool-cases, ap, length, get_elem?, get_elem?-set_self,
}
use distibuted_sys.Base.Int.{ℤ, ltz, eqz, eqz→eq, eqz_refl, ltz-neq, ltz_irrefl}
use distibuted_sys.SkipList.{
  num_levels, Ptr, null, Memory, done, ◌>>◌, success, failure, no_element,
}
use distibuted_sys.SkipList.Epoch.{to_unsigned, next_epoch}
use distibuted_sys.SkipList.Access.{Outside, skiplist_insert, skiplist_remove, skiplist_search}
use distibuted_sys.SkipList.Items.{Item, IsSorted}
use distibuted_sys.SkipList.Walk.{IsSkipList}
use distibuted_sys.SkipList.Lookup.{HasCell, left, lookup, lookup_above, search-lookup}
use distibuted_sys.SkipList.Cells.{generate_level_bounds}
use distibuted_sys.SkipList.Update.Values.{find, set_value}
use distibuted_sys.SkipList.Update.{insert-set_value}
use distibuted_sys.SkipList.Insert.Splice.{insert_item}
use distibuted_sys.SkipList.Insert.{new_item, raised, insert-insert_item}
use distibuted_sys.SkipList.Missing.{remove-absent}
use distibuted_sys.SkipList.Remove.Uninsert.{remove_item}
use distibuted_sys.SkipList.Remove.Ends.{length-insert_item}
use distibuted_sys.SkipList.Remove.Run.{retired}
use distibuted_sys.SkipList.Remove.{remove-behind}

pub lookup-insert_item :
    (x : Item) (xs : List Item) → lookup x.key (insert_item x xs) ≡ some x.value
lookup-insert_item x [] = rw (eqz_refl x.key) refl
lookup-insert_item x (y ∷ ys) = elim (Bool-cases (ltz y.key x.key)) [
  | inl less ↦ rw (less, ltz-neq y.key x.key less) (lookup-insert_item x ys)
  | inr more ↦ rw (more, eqz_refl x.key) refl
]

pub lookup-set_value :
    (k v : ℤ) (xs : List Item) (z : Item)
    → find k xs ≡ some z
    → lookup k (set_value k v xs) ≡ some v
lookup-set_value k v [] z e = ground (arith, e)
lookup-set_value k v (y ∷ ys) z e = elim (Bool-cases (eqz y.key k)) [
  | inl same ↦ rw (same, same) refl
  | inr other ↦ rw (other, other) (lookup-set_value k v ys z (rw other at e))
]

pub lookup-find : (k : ℤ) (xs : List Item) → find k xs ≡ none → lookup k xs ≡ none
lookup-find k [] e = refl
lookup-find k (y ∷ ys) e = elim (Bool-cases (eqz y.key k)) [
  | inl same ↦ ground (arith, e, same)
  | inr other ↦ rw other (lookup-find k ys (rw other at e))
]

pub lookup-remove_item : (k : ℤ) (xs : List Item) → IsSorted xs → lookup k (remove_item k xs) ≡ none
lookup-remove_item k [] s = refl
lookup-remove_item k (y ∷ ys) (above, s) = elim (Bool-cases (eqz y.key k)) [
  | inl same ↦
      let key : y.key ≡ k = eqz→eq y.key k same in
      rw same (lookup_above y.key k ys (rw key (ltz_irrefl k)) above)
  | inr other ↦ rw (other, other) (lookup-remove_item k ys s)
]

pub length-set_value : (k v : ℤ) (xs : List Item) → length (set_value k v xs) ≡ length xs
length-set_value k v [] = refl
length-set_value k v (y ∷ ys) = elim (Bool-cases (eqz y.key k)) [
  | inl same ↦ rw same refl
  | inr other ↦ rw other (ap suc (length-set_value k v ys))
]

pub length-remove_item : (k : ℤ) (xs : List Item) → length (remove_item k xs) ≤ length xs
length-remove_item k [] = omega arith
length-remove_item k (y ∷ ys) = elim (Bool-cases (eqz y.key k)) [
  | inl same ↦ rw same (omega arith)
  | inr other ↦ rw other (omega (arith, length-remove_item k ys))
]

left-HasCell :
    (m : Memory) (cell : ℕ) (epoch : ℤ)
    → HasCell m cell epoch
    → (now : ℤ) × HasCell (left cell epoch m) cell now
left-HasCell m cell epoch c = elim (Bool-cases (eqz epoch m.global_epoch)) [
  | inl same ↦ (epoch, record { mine = c.mine; holds = rw same c.holds })
  | inr other ↦ (
    next_epoch epoch,
    record {
      mine = c.mine;
      holds = rw other (get_elem?-set_self m.local_epochs cell epoch (next_epoch epoch) c.holds);
    },
  )
]

pub find-cases : (k : ℤ) (xs : List Item) → ((z : Item) × (find k xs ≡ some z)) ⊎ (find k xs ≡ none)
find-cases k [] = inr refl
find-cases k (y ∷ ys) = elim (Bool-cases (eqz y.key k)) [
  | inl same ↦ inl (y, rw same refl)
  | inr other ↦ rw other (find-cases k ys)
]

pub raised_bounds : (x : Item) (level n : ℕ) → x.level < n → level < n → raised x level < n
raised_bounds x level n h g = ground arith

module _ (o o' : Outside) (k : ℤ) (m : Memory) (skiplist cell : ℕ) (epoch : ℤ) (xs : List Item)
    (ne : skiplist ≢ null) (s : IsSkipList m.tower xs) (c : HasCell m cell epoch)
    (lt : m.max_level < num_levels) (more : 1 ≤ o.resets) (more' : 1 ≤ o'.resets)
    (h : length xs < o.fuel) where
  -- In a skip list with fuel for every tower, a thread that has its cell, and that has stored by
  -- skiplist_insert a value at a key, there before or not, then finds by skiplist_search with that key
  -- that value, if malloc gives memory that no tower has.
  pub search-insert :
      (v : ℤ)
      → length xs + 1 < o'.fuel
      → o.fresh ≢ null
      → m.tower o.fresh ≡ none
      → (m' : Memory) × ((skiplist_insert o k skiplist v >> skiplist_search o' k skiplist) m
          ≡ done (success, some v) m')
  search-insert v h' nn free = elim (find-cases k xs) [
    | inl (z, e) ↦
        let (tower, runs, s') = insert-set_value o k v m skiplist cell epoch xs z ne s c more h e in
        let m1 = left cell epoch (record m { tower = tower }) in
        let (now, c') =
          left-HasCell (record m { tower = tower }) cell epoch
            (record { mine = c.mine; holds = c.holds }) in
        (
          left cell now m1,
          rw
              (
                runs,
                search-lookup o' k m1 skiplist cell now (set_value k v xs) ne s' c' lt more'
                    (omega (arith, length-set_value k v xs)),
                lookup-set_value k v xs z e,
              )
              refl,
        )
    | inr e ↦
        let x = new_item o k v in
        let (tower, runs, s') =
          insert-insert_item o k v m skiplist cell epoch xs ne s c more h e nn free in
        let m0 = record m { tower = tower; max_level = raised x m.max_level } in
        let (now, c') = left-HasCell m0 cell epoch (record { mine = c.mine; holds = c.holds }) in
        let (_, low) = generate_level_bounds o.rand_max 0 o.rands (omega arith) in
        (
          left cell now (left cell epoch m0),
          rw
              (
                runs,
                search-lookup o' k (left cell epoch m0) skiplist cell now (insert_item x xs) ne s'
                    c' (raised_bounds x m.max_level num_levels low lt) more'
                    (omega (arith, length-insert_item x xs)),
                lookup-insert_item x xs,
              )
              refl,
        )
  ]

  -- In a skip list with fuel for every tower, a thread that has its cell, and that has removed a key
  -- by skiplist_remove, there before or not, then fails to find it by skiplist_search, with
  -- NO_ELEMENT, while another cell holds another epoch than the global one.
  pub search-remove :
      (r : Ptr) (i : ℕ) (other : ℤ)
      → length xs < o'.fuel
      → get_elem? m.reclaim_lists (to_unsigned epoch) ≡ some r
      → get_elem? (left cell epoch m).local_epochs i ≡ some other
      → eqz other m.global_epoch ≡ false
      → (m' : Memory) × ((skiplist_remove o k skiplist >> skiplist_search o' k skiplist) m
          ≡ done (failure, none) (record m' { errno = no_element }))
  search-remove r i other h' head at behind = elim (find-cases k xs) [
    | inl (z, e) ↦
        let (tower, runs, removed) =
          remove-behind o k m skiplist cell epoch xs z r i other ne s c more h e head at behind in
        let m0 = retired m tower (to_unsigned epoch) z.ptr in
        let (now, c') = left-HasCell m0 cell epoch (record { mine = c.mine; holds = c.holds }) in
        (
          left cell now (left cell epoch m0),
          rw
              (
                runs,
                search-lookup o' k (left cell epoch m0) skiplist cell now (remove_item k xs) ne
                    removed.list c' lt more' (omega (arith, length-remove_item k xs)),
                lookup-remove_item k xs s.sorted,
              )
              refl,
        )
    | inr e ↦
        let (now, c') = left-HasCell m cell epoch c in
        (
          left cell now (left cell epoch m),
          rw
              (
                remove-absent o k m skiplist cell epoch xs ne s c more h e,
                search-lookup o' k (left cell epoch m) skiplist cell now xs ne s c' lt more' h',
                lookup-find k xs e,
              )
              refl,
        )
  ]
