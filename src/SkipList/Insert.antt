-- ===== src/SkipList/Insert.antt =====
-- `skiplist_insert` of lab4/SkipList.c with a key that the skip list has not.
pub mod Splice
pub mod Step
pub mod Relink
pub mod Linking
pub mod Joined
pub mod Finished
pub mod Rounds
use distibuted_sys.Base.{
  ℕ, ◌+◌, ◌-◌, ◌≤◌, ◌<◌, ◌≡◌, ◌≢◌, refl, false, Option, none, some, List, [], ◌∷◌, arith, ◌==◌, ltb,
  if◌then◌else◌, length,
}
use distibuted_sys.Base.Int.{ℤ, eqz}
use distibuted_sys.SkipList.{num_levels, Ptr, null, link, Tower, Memory, done, put, success}
use distibuted_sys.SkipList.Search.{Tables, generate_level}
use distibuted_sys.SkipList.Access.{Outside, no_tables, holds_key, insert_tower, skiplist_insert}
use distibuted_sys.SkipList.Items.{Item, next_at, drop_less}
use distibuted_sys.SkipList.Walk.{Linked, IsSkipList}
use distibuted_sys.SkipList.Find.{fill_tables-Finds}
use distibuted_sys.SkipList.Lookup.{
  HasCell, left, drop_less-Linked, enter_epoch-HasCell, leave_epoch-HasCell,
}
use distibuted_sys.SkipList.Cells.{generate_level_bounds}
use distibuted_sys.SkipList.Update.Values.{find}
use distibuted_sys.SkipList.Insert.Splice.{insert_item}
use distibuted_sys.SkipList.Insert.Linking.{pred_at, succ_at}
use distibuted_sys.SkipList.Insert.Joined.{IsSkipList-Layout, Splicing-zero}
use distibuted_sys.SkipList.Insert.Finished.{find-drop_less, find-other, IsSkipList-Splicing}
use distibuted_sys.SkipList.Insert.Rounds.{link_levels-Splicing}

pub holds_key-other :
    (o : Outside) (k : ℤ) (p : Ptr) (ys : List Item) (m : Memory)
    → p ≡ next_at 0 ys
    → Linked m.tower ys
    → find k ys ≡ none
    → holds_key o k p m ≡ done false m
unfolding holds_key
holds_key-other o k p [] m e links f = ground (arith, e)
holds_key-other o k p (y ∷ ys) m e (nn, s, links) f =
    let other : eqz s.here.key k ≡ false = rw s.key (find-other k y ys f).0 in
    ground (arith, e, s.found, other)

-- The item that a call brings in.
abbrev pub new_item : Outside → ℤ → ℤ → Item
new_item o k v = record {
  ptr = o.fresh;
  key = k;
  value = v;
  level = generate_level o.rand_max 0 o.rands;
}

-- The greatest level there is.
abbrev pub raised : Item → ℕ → ℕ
raised x level = if ltb level x.level then x.level else level

insert_tower-insert_item :
    (o : Outside) (k v : ℤ) (m : Memory) (cell : ℕ) (epoch : ℤ) (xs : List Item) (tables : Tables)
    → IsSkipList m.tower xs
    → HasCell m cell epoch
    → 1 ≤ o.resets
    → find k xs ≡ none
    → o.fresh ≢ null
    → m.tower o.fresh ≡ none
    → ((l : ℕ)
        → l ≤ num_levels - 1
        → (tables.preds l ≡ pred_at l (new_item o k v) xs)
          × (tables.succs l ≡ succ_at l (new_item o k v) xs))
    → (tower : Ptr → Option Tower) × (insert_tower o k v tables m
        ≡ done success (
            left cell epoch
              (record m { tower = tower; max_level = raised (new_item o k v) m.max_level })))
      × IsSkipList tower (insert_item (new_item o k v) xs)
unfolding insert_tower
insert_tower-insert_item o k v m cell epoch xs tables s c more e nn free tabs =
    let x = new_item o k v in
    let y = IsSkipList-Layout m.tower x xs s nn free in
    let (_, lt) = generate_level_bounds o.rand_max 0 o.rands (omega arith) in
    let new : Tower = record {
      key = k;
      value = v;
      level = x.level;
      reclaim_next = null;
      forward = λ _. link null;
    } in
    let m1 = record m {
      tower = put m.tower o.fresh (some new);
      max_level = raised x m.max_level;
    } in
    let (tower, runs, s1) =
      link_levels-Splicing o k tables x xs (x.level + 1) 0 m1
        (Splicing-zero m.tower x xs new s y refl refl refl) y refl (omega arith) lt more
        (λ l h. tabs l (omega arith)) in
    let not_null : (o.fresh == null) ≡ false = ground (arith, nn) in
    (
      tower,
      ground (
        arith,
        not_null,
        runs,
        leave_epoch-HasCell (record m1 { tower = tower }) cell epoch
            (record { mine = c.mine; holds = c.holds }),
      ),
      IsSkipList-Splicing tower x xs s1 y s.low lt e,
    )

-- A thread that has its cell links by skiplist_insert, in a skip list with fuel for every tower that
-- has no tower with the key, a new tower with the key and the value at its place at each of its
-- levels, if malloc gives memory that no tower has, and succeeds; beyond the towers only the greatest
-- level and the thread's own epoch change.
pub insert-insert_item :
    (o : Outside) (k v : ℤ) (m : Memory) (skiplist cell : ℕ) (epoch : ℤ) (xs : List Item)
    → skiplist ≢ null
    → IsSkipList m.tower xs
    → HasCell m cell epoch
    → 1 ≤ o.resets
    → length xs < o.fuel
    → find k xs ≡ none
    → o.fresh ≢ null
    → m.tower o.fresh ≡ none
    → (tower : Ptr → Option Tower) × (skiplist_insert o k skiplist v m
        ≡ done success (
            left cell epoch
              (record m { tower = tower; max_level = raised (new_item o k v) m.max_level })))
      × IsSkipList tower (insert_item (new_item o k v) xs)
unfolding skiplist_insert
insert-insert_item o k v m skiplist cell epoch xs ne s c more h e nn free =
    let (t, runs, finds, _) =
      fill_tables-Finds k m o.resets o.fuel (num_levels - 1) 0 no_tables xs s (omega arith)
        (omega arith) more h in
    let looks =
      holds_key-other o k (t.succs 0) (drop_less k xs) m (finds 0 (omega arith) (omega arith)).1
        (drop_less-Linked k m.tower xs s.links) (find-drop_less k xs e) in
    let (tower, inserts, list) =
      insert_tower-insert_item o k v m cell epoch xs t s c more e nn free
        (λ l a. finds l (omega arith) a) in
    (
      tower,
      ground (arith, ne, runs, looks, enter_epoch-HasCell o.setspecific m cell epoch c, inserts),
      list,
    )
