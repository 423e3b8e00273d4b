-- ===== src/SkipList/Lookup.antt =====
-- `skiplist_search` against a lookup among the items.
use distibuted_sys.Base.{
  ℕ, ◌≤◌, ◌<◌, ◌≡◌, ◌≢◌, refl, ◌∙◌, false, Option, none, some, List, [], ◌∷◌, inl, inr, arith,
  if◌then◌else◌, Bool-cases, length, ap, sym, get_elem?, set,
}
use distibuted_sys.Base.Int.{ℤ, ltz, eqz, ltz-neq, not_ltz-neq}
use distibuted_sys.SkipList.{
  num_levels, Ptr, null, no_element, Tower, Memory, Outcome, done, Status, success, failure,
}
use distibuted_sys.SkipList.Search.{Tables, fill_tables}
use distibuted_sys.SkipList.Epoch.{enter_epoch, leave_epoch, next_epoch}
use distibuted_sys.SkipList.Access.{Outside, no_tables, holds_key, skiplist_search}
use distibuted_sys.SkipList.Items.{Item, next_at, drop_less, AllAbove, IsSorted}
use distibuted_sys.SkipList.Find.{fill_tables-Finds}
use distibuted_sys.SkipList.Walk.{Linked, IsSkipList}

-- The value of the item with the key `k`.
abbrev pub lookup : ℤ → List Item → Option ℤ
lookup k [] = none
lookup k (y ∷ ys) = if eqz y.key k then some y.value else lookup k ys

-- The same, looking only at the first item.
abbrev lookup_first : ℤ → List Item → Option ℤ
lookup_first k [] = none
lookup_first k (y ∷ ys) = if eqz y.key k then some y.value else none

pub lookup_above : (a k : ℤ) (ys : List Item) → ltz a k ≡ false → AllAbove a ys → lookup k ys ≡ none
lookup_above a k [] h s = refl
lookup_above a k (y ∷ ys) h (l, s) = rw (not_ltz-neq a y.key k h l) (lookup_above a k ys h s)

lookup-drop_less :
    (k : ℤ) (xs : List Item) → IsSorted xs → lookup k xs ≡ lookup_first k (drop_less k xs)
lookup-drop_less k [] s = refl
lookup-drop_less k (y ∷ ys) (above, s) = elim (Bool-cases (ltz y.key k)) [
  | inl less ↦ rw (less, ltz-neq y.key k less) (lookup-drop_less k ys s)
  | inr more ↦ rw (more, lookup_above y.key k ys more above)
]

pub drop_less-Linked :
    (k : ℤ) (tower : Ptr → Option Tower) (xs : List Item)
    → Linked tower xs
    → Linked tower (drop_less k xs)
drop_less-Linked k tower [] links = links
drop_less-Linked k tower (y ∷ ys) (ne, s, links) = elim (Bool-cases (ltz y.key k)) [
  | inl less ↦ rw less (drop_less-Linked k tower ys links)
  | inr more ↦ rw more (ne, s, links)
]

-- The calling thread has the cell `cell`, and `epoch` in it.
pub record HasCell (m : Memory) (cell : ℕ) (epoch : ℤ) : Type 0 where
  pub mine : m.local_epoch ≡ some cell
  pub holds : get_elem? m.local_epochs cell ≡ some epoch

-- After `leave_epoch`.
abbrev pub left : ℕ → ℤ → Memory → Memory
left cell epoch m = record m {
  local_epochs =
      if eqz epoch m.global_epoch
      then m.local_epochs
      else set m.local_epochs cell (next_epoch epoch);
}

pub enter_epoch-HasCell :
    (setspecific : ℤ) (m : Memory) (cell : ℕ) (epoch : ℤ)
    → HasCell m cell epoch
    → enter_epoch setspecific m ≡ done epoch m
unfolding enter_epoch
enter_epoch-HasCell setspecific m cell epoch c = ground (arith, c.mine, c.holds)

pub leave_epoch-HasCell :
    (m : Memory) (cell : ℕ) (epoch : ℤ)
    → HasCell m cell epoch
    → leave_epoch m ≡ done tt (left cell epoch m)
unfolding leave_epoch
leave_epoch-HasCell m cell epoch c = elim (Bool-cases (eqz epoch m.global_epoch)) [
  | inl same ↦ ground (arith, c.mine, c.holds)
  | inr other ↦ ground (arith, c.mine, c.holds)
]

abbrev pub search_result : Option ℤ → Memory → Outcome Memory (Status × Option ℤ)
search_result (some v) m = done (success, some v) m
search_result none m = done (failure, none) (record m { errno = no_element })

-- What the search makes of the first tower with a key that is not below `k`.
search-first :
    (o : Outside) (k : ℤ) (m : Memory) (skiplist cell : ℕ) (epoch : ℤ) (t : Tables) (ys : List Item)
    → skiplist ≢ null
    → HasCell m cell epoch
    → fill_tables k o.resets o.fuel m.max_level 0 no_tables m ≡ done t m
    → t.succs 0 ≡ next_at 0 ys
    → Linked m.tower ys
    → skiplist_search o k skiplist m ≡ search_result (lookup_first k ys) (left cell epoch m)
unfolding skiplist_search holds_key
search-first o k m skiplist cell epoch t [] ne c runs succ links = ground (
  arith,
  runs,
  succ,
  enter_epoch-HasCell o.setspecific m cell epoch c,
  leave_epoch-HasCell m cell epoch c,
)
search-first o k m skiplist cell epoch t (y ∷ ys) ne c runs succ (ne', s, links) =
    let at : t.succs 0 ≡ y.ptr = ground (arith, succ) in
    elim (Bool-cases (eqz y.key k)) [
      | inl same ↦ ground (
        arith,
        runs,
        s.found,
        enter_epoch-HasCell o.setspecific m cell epoch c,
        leave_epoch-HasCell m cell epoch c,
      )
      | inr other ↦ ground (
        arith,
        runs,
        s.found,
        enter_epoch-HasCell o.setspecific m cell epoch c,
        leave_epoch-HasCell m cell epoch c,
      )
    ]

-- A thread that has its cell finds by skiplist_search, in a skip list with fuel for every tower, the
-- value of the tower with the key, or else fails with NO_ELEMENT; it changes nothing else but its own
-- epoch, which it moves on where it differs from the global one.
pub search-lookup :
    (o : Outside) (k : ℤ) (m : Memory) (skiplist cell : ℕ) (epoch : ℤ) (xs : List Item)
    → skiplist ≢ null
    → IsSkipList m.tower xs
    → HasCell m cell epoch
    → m.max_level < num_levels
    → 1 ≤ o.resets
    → length xs < o.fuel
    → skiplist_search o k skiplist m ≡ search_result (lookup k xs) (left cell epoch m)
search-lookup o k m skiplist cell epoch xs ne s c lt more h =
    let (t, runs, finds, _) =
      fill_tables-Finds k m o.resets o.fuel m.max_level 0 no_tables xs s (omega arith) lt more h in
    search-first o k m skiplist cell epoch t (drop_less k xs) ne c runs
      (finds 0 (omega arith) (omega arith)).1 (drop_less-Linked k m.tower xs s.links)
    ∙ ap (λ v. search_result v (left cell epoch m)) (sym (lookup-drop_less k xs s.sorted))
