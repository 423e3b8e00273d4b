-- ===== src/SkipListBenchmarks/EpochList/Inside.antt =====
-- A call of lab4/SkipList.c by a thread of lab4/SkipListBenchmarks.c, in its epoch cell.
use distibuted_sys.Base.{
  ℕ, suc, ◌≡◌, ◌<◌, ◌≤◌, inl, inr, refl, subst, arith, false, Bool-cases, Option, none, some, List,
  get_elem?, length, ◌==◌,
}
use distibuted_sys.Base.Int.{ℤ, pos, eqz}
use distibuted_sys.Base.Threads.{update}
use distibuted_sys.SkipList.{num_levels, Ptr, header, SkiplistErrno, Tower, Memory, done, Status}
use distibuted_sys.SkipList.Epoch.{enter_epoch}
use distibuted_sys.SkipList.Access.{Outside, skiplist_insert, skiplist_remove, skiplist_search}
use distibuted_sys.SkipList.Items.{Item}
use distibuted_sys.SkipList.Walk.{IsSkipList}
use distibuted_sys.SkipList.Lookup.{HasCell, left, lookup, enter_epoch-HasCell}
use distibuted_sys.SkipListBenchmarks.EpochList.{
  Shared, seen, fuelled, found_value, stored, shared_insert, shared_remove, shared_search,
}
use distibuted_sys.SkipListBenchmarks.EpochList.Cells.{IsRow, Entered, enters-old, enters-new}

-- The skip list has the content, no epoch has moved on, and each thread's cell holds the epoch 0.
pub record Holds (s : Shared) (content : ℕ → Option ℕ) : Type 0 where
  pub items : List Item
  pub list : IsSkipList s.memory.tower items
  pub level : s.memory.max_level < num_levels
  pub epoch : s.memory.global_epoch ≡ pos 0
  pub retired_head : Ptr
  pub retires : get_elem? s.memory.reclaim_lists 0 ≡ some retired_head
  pub is_row : IsRow s.memory.local_epochs
  pub cells : (t c : ℕ) → s.local t ≡ some c → get_elem? s.memory.local_epochs c ≡ some (pos 0)
  pub short : length items ≤ s.insertions
  pub agrees : (key : ℕ) → content key ≡ found_value (lookup (pos key) items)

pub insert-stored :
    (a : Outside) (t key value : ℕ) (s : Shared) (r : Status) (m : Memory)
    → skiplist_insert (fuelled a s) (pos key) header (pos value) (seen t s) ≡ done r m
    → shared_insert a t key value s ≡ some (stored s t (suc s.insertions) m)
unfolding shared_insert
insert-stored a t key value s r m e = rw (shared_insert, e) refl

pub remove-stored :
    (a : Outside) (t key : ℕ) (s : Shared) (r : Status) (m : Memory)
    → skiplist_remove (fuelled a s) (pos key) header (seen t s) ≡ done r m
    → shared_remove a t key s ≡ some (stored s t s.insertions m)
unfolding shared_remove
remove-stored a t key s r m e = rw (shared_remove, e) refl

pub search-stored :
    (a : Outside) (t key : ℕ) (s : Shared) (r : Status) (o : Option ℤ) (m : Memory)
    → skiplist_search (fuelled a s) (pos key) header (seen t s) ≡ done (r, o) m
    → shared_search a t key s ≡ some (found_value o, stored s t s.insertions m)
unfolding shared_search
search-stored a t key s r o m e = rw (shared_search, e) refl

pub left-same : (cell : ℕ) (m : Memory) → m.global_epoch ≡ pos 0 → left cell (pos 0) m ≡ m
left-same cell m g = rw g refl

module _ (t : ℕ) (s : Shared) (content : ℕ → Option ℕ) (h : Holds s content) where
  pub enters : Entered (pos 0) (seen t s)
  enters = by_cell (s.local t) refl
    where
      by_cell : (o : Option ℕ) → s.local t ≡ o → Entered (pos 0) (seen t s)
      by_cell none e = enters-new (seen t s) h.is_row e h.epoch
      by_cell (some c) e = enters-old (seen t s) c h.is_row e (h.cells t c e)

  abbrev pub inside : Entered (pos 0) (seen t s) → Memory
  inside e = record (seen t s) { local_epochs = e.epochs; local_epoch = some e.cell }

  pub inside-HasCell : (e : Entered (pos 0) (seen t s)) → HasCell (inside e) e.cell (pos 0)
  inside-HasCell e = record { mine = refl; holds = e.holds }

  -- The call changes the towers and the lists, and keeps the rest.
  pub after-Holds :
      (e : Entered (pos 0) (seen t s)) (tower : Ptr → Option Tower) (max_level : ℕ)
      (errno : SkiplistErrno) (reclaim_lists : List Ptr) (r n : ℕ) (items : List Item)
      (content' : ℕ → Option ℕ)
      → IsSkipList tower items
      → max_level < num_levels
      → get_elem? reclaim_lists 0 ≡ some r
      → length items ≤ n
      → ((key : ℕ) → content' key ≡ found_value (lookup (pos key) items))
      → Holds
          (stored s t n (record (inside e) {
            tower = tower;
            max_level = max_level;
            errno = errno;
            reclaim_lists = reclaim_lists;
          }))
          content'
  after-Holds e tower max_level errno reclaim_lists r n items content' list level retires short
        agrees =
      record {
        items = items;
        list = list;
        level = level;
        epoch = h.epoch;
        retired_head = r;
        retires = retires;
        is_row = e.is_row;
        cells = λ u c own. elim (Bool-cases (t == u)) [
          | inl same ↦
              let cell : e.cell ≡ c = ground arith in
              subst (λ i. get_elem? e.epochs i ≡ some (pos 0)) cell e.holds
          | inr other ↦ e.kept c (h.cells u c (rw other at own))
        ];
        short = short;
        agrees = agrees;
      }

  module _ (a : Outside) (works : a.setspecific ≡ pos 0) (k : ℤ)
      (e : Entered (pos 0) (seen t s)) where
    again : enter_epoch a.setspecific (inside e) ≡ done (pos 0) (inside e)
    again = enter_epoch-HasCell a.setspecific (inside e) e.cell (pos 0) (inside-HasCell e)

    first : enter_epoch a.setspecific (seen t s) ≡ done (pos 0) (inside e)
    first = rw works e.runs

    -- It is all the same whether the thread had its cell before.
    pub insert-inside :
        (v : ℤ) → skiplist_insert a k header v (seen t s) ≡ skiplist_insert a k header v (inside e)
    unfolding skiplist_insert
    insert-inside v = rw (first, again) refl

    pub remove-inside :
        skiplist_remove a k header (seen t s) ≡ skiplist_remove a k header (inside e)
    unfolding skiplist_remove
    remove-inside = rw (first, again) refl

    pub search-inside :
        skiplist_search a k header (seen t s) ≡ skiplist_search a k header (inside e)
    unfolding skiplist_search
    search-inside = rw (first, again) refl

  -- Only one key changes.
  pub agrees_but :
      (key : ℕ) (o : Option ℕ) (items : List Item)
      → o ≡ found_value (lookup (pos key) items)
      → ((k : ℤ) → eqz (pos key) k ≡ false → lookup k items ≡ lookup k h.items)
      → (j : ℕ) → update content key o j ≡ found_value (lookup (pos j) items)
  agrees_but key o items here others j = elim (Bool-cases (key == j)) [
    | inl same ↦
        let at : key ≡ j = ground arith in
        rw same (subst (λ i. o ≡ found_value (lookup (pos i) items)) at here)
    | inr other ↦ rw (other, others (pos j) other) (h.agrees j)
  ]
