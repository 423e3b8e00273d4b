-- ===== src/SkipList/Update.antt =====
-- `skiplist_insert` of lab4/SkipList.c with a key that the skip list has already.
pub mod Values
use distibuted_sys.Base.{
  ℕ, ◌-◌, ◌≤◌, ◌<◌, ◌≡◌, ◌≢◌, refl, ◌∙◌, true, false, Option, none, some, List, [], ◌∷◌, inl, inr,
  arith, ◌==◌, if◌then◌else◌, Bool-cases, length, ap, sym, subst,
}
use distibuted_sys.Base.Int.{ℤ, ltz, eqz, eqz→eq, ltz-neq, not_ltz-neq}
use distibuted_sys.SkipList.{num_levels, Ptr, null, header, link, Tower, Memory, done, success, put}
use distibuted_sys.SkipList.Access.{Outside, no_tables, holds_key, skiplist_insert}
use distibuted_sys.SkipList.Items.{Item, ApartFrom, AllLow, next_at, drop_less, AllAbove, IsSorted}
use distibuted_sys.SkipList.Walk.{Stands, Linked, IsSkipList}
use distibuted_sys.SkipList.Find.{fill_tables-Finds}
use distibuted_sys.SkipList.Lookup.{HasCell, left, enter_epoch-HasCell, leave_epoch-HasCell}
use distibuted_sys.SkipList.Apart.{Stands-apart, Linked-put, AllAbove-ApartFrom}
use distibuted_sys.SkipList.Update.Values.{
  find, set_value, find-Stands, next_at-find, next_at-set_value, IsSorted-set_value,
  ApartFrom-set_value, AllLow-set_value, Linked-set_value,
}

-- A store of a value leaves the levels and links of the header as they are, wherever it goes.
header-put :
    (tower : Ptr → Option Tower) (q : Ptr) (t head : Tower) (v : ℤ)
    → tower q ≡ some t
    → tower header ≡ some head
    → (head' : Tower) × (put tower q (some (record t { value = v })) header ≡ some head')
      × (head'.level ≡ head.level)
      × (head'.forward ≡ head.forward)
header-put tower q t head v at found = elim (Bool-cases (q == header)) [
  | inl same ↦
      let e : q ≡ header = ground arith in
      let f : t ≡ head = ground (arith, at, found, e) in
      (record t { value = v }, rw same refl, ap (λ x. x.level) f, ap (λ x. x.forward) f)
  | inr other ↦ (head, rw (other, found), refl, refl)
]

IsSkipList-set_value :
    (tower : Ptr → Option Tower) (k v : ℤ) (xs : List Item) (z : Item) (t : Tower)
    → IsSkipList tower xs
    → find k xs ≡ some z
    → tower z.ptr ≡ some t
    → IsSkipList (put tower z.ptr (some (record t { value = v }))) (set_value k v xs)
IsSkipList-set_value tower k v xs z t s e at =
    let (head, found, level, forward) = header-put tower z.ptr t s.head v at s.found in
    record {
      head = head;
      found = found;
      level = level ∙ s.level;
      leads =
          λ l h. ap (λ f. f l) forward ∙ s.leads l h ∙ ap link (sym (next_at-set_value l k v xs));
      links = Linked-set_value tower k v xs z t s.links s.sorted e at;
      apart = ApartFrom-set_value header k v xs s.apart;
      low = AllLow-set_value k v xs s.low;
      sorted = IsSorted-set_value k v xs s.sorted;
    }

-- A thread that has its cell stores by skiplist_insert, in a skip list with fuel for every tower, the
-- value at the tower with the key, if there is one, and succeeds: the skip list has the same towers
-- with that value, and beyond them only the thread's own epoch changes.
pub insert-set_value :
    (o : Outside) (k v : ℤ) (m : Memory) (skiplist cell : ℕ) (epoch : ℤ) (xs : List Item) (z : Item)
    → skiplist ≢ null
    → IsSkipList m.tower xs
    → HasCell m cell epoch
    → 1 ≤ o.resets
    → length xs < o.fuel
    → find k xs ≡ some z
    → (tower : Ptr → Option Tower) × (skiplist_insert o k skiplist v m
        ≡ done success (left cell epoch (record m { tower = tower })))
      × IsSkipList tower (set_value k v xs)
unfolding skiplist_insert holds_key
insert-set_value o k v m skiplist cell epoch xs z ne s c more h e =
    let (t, runs, finds, _) =
      fill_tables-Finds k m o.resets o.fuel (num_levels - 1) 0 no_tables xs s (omega arith)
        (omega arith) more h in
    let succ : t.succs 0 ≡ z.ptr =
      (finds 0 (omega arith) (omega arith)).1 ∙ next_at-find k xs z s.sorted e in
    let (rest, sz, nz, key) = find-Stands m.tower k xs z s.links e in
    let held : eqz sz.here.key k ≡ true = rw sz.key key in
    let tower = put m.tower z.ptr (some (record sz.here { value = v })) in
    (
      tower,
      ground (
        arith,
        runs,
        succ,
        sz.found,
        held,
        enter_epoch-HasCell o.setspecific m cell epoch c,
        leave_epoch-HasCell (record m { tower = tower }) cell epoch
            (record { mine = c.mine; holds = c.holds }),
      ),
      IsSkipList-set_value m.tower k v xs z sz.here s e sz.found,
    )
