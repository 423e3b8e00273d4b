-- ===== src/SkipListBenchmarks/EpochList/Kept.antt =====
-- The skip list of lab4/SkipList.c keeps what the benchmark of lab4/SkipListBenchmarks.c relies on.
use distibuted_sys.Base.{
  ℕ, suc, ◌≡◌, inl, inr, refl, ◌∙◌, ap, arith, Option, none, some, get_elem?, set,
}
use distibuted_sys.Base.Int.{ℤ, pos, minus_one}
use distibuted_sys.Base.Threads.{update}
use distibuted_sys.SkipList.{num_levels, header, no_element, Memory, done, success}
use distibuted_sys.SkipList.Epoch.{to_unsigned}
use distibuted_sys.SkipList.Access.{Outside, skiplist_search}
use distibuted_sys.SkipList.Lookup.{lookup, search-lookup, search_result}
use distibuted_sys.SkipList.Cells.{generate_level_bounds}
use distibuted_sys.SkipList.Update.Values.{set_value}
use distibuted_sys.SkipList.Update.{insert-set_value}
use distibuted_sys.SkipList.Insert.Splice.{insert_item}
use distibuted_sys.SkipList.Insert.{new_item, raised, insert-insert_item}
use distibuted_sys.SkipList.Missing.{remove-absent}
use distibuted_sys.SkipList.Remove.Uninsert.{remove_item}
use distibuted_sys.SkipList.Remove.Ends.{length-insert_item}
use distibuted_sys.SkipList.Remove.Run.{retired}
use distibuted_sys.SkipList.Remove.{remove-behind}
use distibuted_sys.SkipList.RoundTrip.{
  lookup-set_value, lookup-insert_item, lookup-remove_item, length-set_value, length-remove_item,
  find-cases, lookup-find, raised_bounds,
}
use distibuted_sys.SkipListBenchmarks.EpochList.{
  Shared, seen, fuelled, found_value, stored, shared_insert, shared_remove, shared_search, Fits,
}
use distibuted_sys.SkipListBenchmarks.EpochList.Cells.{IsRow-second, Entered}
use distibuted_sys.SkipListBenchmarks.EpochList.Others.{
  set-get_elem?, lookup-insert_other, lookup-set_other, lookup-remove_other,
}
use distibuted_sys.SkipListBenchmarks.EpochList.Inside.{
  Holds, insert-stored, remove-stored, search-stored, left-same, enters, inside, inside-HasCell,
  after-Holds, insert-inside, remove-inside, search-inside, agrees_but,
}

module _ (t : ℕ) (s : Shared) (content : ℕ → Option ℕ) (h : Holds s content) where
  abbrev entering : Entered (pos 0) (seen t s)
  entering = enters t s content h

  -- The memory as the thread finds it in its epoch.
  abbrev now : Memory
  now = inside t s content h entering

  module _ (a : Outside) (f : Fits a s) (key : ℕ) where
    pub searches :
        (s' : Shared) × (shared_search a t key s ≡ some (content key, s')) × Holds s' content
    searches =
        let found =
          search-lookup (fuelled a s) (pos key) now header entering.cell (pos 0) h.items
            (omega arith) h.list (inside-HasCell t s content h entering) h.level (omega arith)
            (omega (arith, h.short)) in
        let runs : skiplist_search (fuelled a s) (pos key) header (seen t s)
            ≡ search_result (lookup (pos key) h.items) now =
          search-inside t s content h (fuelled a s) f.works (pos key) entering
          ∙ found
          ∙ ap (search_result (lookup (pos key) h.items)) (left-same entering.cell now h.epoch) in
        by_lookup (lookup (pos key) h.items) refl runs
      where
        by_lookup :
            (r : Option ℤ)
            → lookup (pos key) h.items ≡ r
            → skiplist_search (fuelled a s) (pos key) header (seen t s)
              ≡ search_result (lookup (pos key) h.items) now
            → (s' : Shared) × (shared_search a t key s ≡ some (content key, s')) × Holds s' content
        by_lookup none e runs =
            let ends = runs ∙ ap (λ r. search_result r now) e in
            let agree : content key ≡ none = h.agrees key ∙ ap found_value e in
            (
              stored s t s.insertions (record now { errno = no_element }),
              search-stored a t key s _ _ _ ends ∙ rw agree refl,
              after-Holds t s content h entering s.memory.tower s.memory.max_level no_element
                  s.memory.reclaim_lists h.retired_head s.insertions h.items content h.list h.level
                  h.retires h.short h.agrees,
            )
        by_lookup (some v) e runs =
            let ends = runs ∙ ap (λ r. search_result r now) e in
            let agree : content key ≡ found_value (some v) = h.agrees key ∙ ap found_value e in
            (
              stored s t s.insertions now,
              search-stored a t key s _ _ _ ends ∙ rw agree refl,
              after-Holds t s content h entering s.memory.tower s.memory.max_level s.memory.errno
                  s.memory.reclaim_lists h.retired_head s.insertions h.items content h.list h.level
                  h.retires h.short h.agrees,
            )

    pub inserts :
        (value : ℕ)
        → (s' : Shared) × (shared_insert a t key value s ≡ some s')
          × Holds s' (update content key (some value))
    inserts value =
        let o = fuelled a s in
        let same = insert-inside t s content h o f.works (pos key) entering (pos value) in
        elim (find-cases (pos key) h.items) [
          | inl (z, e) ↦
              let (tower, runs, list) =
                insert-set_value o (pos key) (pos value) now header entering.cell (pos 0) h.items z
                  (omega arith) h.list (inside-HasCell t s content h entering) (omega arith)
                  (omega (arith, h.short)) e in
              let ends =
                same
                ∙ runs
                ∙ ap (done success)
                    (left-same entering.cell (record now { tower = tower }) h.epoch) in
              (
                stored s t (suc s.insertions) (record now { tower = tower }),
                insert-stored a t key value s _ _ ends,
                after-Holds t s content h entering tower s.memory.max_level s.memory.errno
                    s.memory.reclaim_lists h.retired_head (suc s.insertions)
                    (set_value (pos key) (pos value) h.items) _ list h.level h.retires
                    (omega (arith, length-set_value (pos key) (pos value) h.items, h.short))
                    (agrees_but t s content h key (some value)
                      (set_value (pos key) (pos value) h.items)
                      (rw (lookup-set_value (pos key) (pos value) h.items z e) refl)
                      (λ k differ. lookup-set_other k (pos key) (pos value) h.items differ)),
              )
          | inr e ↦
              let x = new_item o (pos key) (pos value) in
              let (tower, runs, list) =
                insert-insert_item o (pos key) (pos value) now header entering.cell (pos 0) h.items
                  (omega arith) h.list (inside-HasCell t s content h entering) (omega arith)
                  (omega (arith, h.short)) e f.fresh f.unused in
              let (_, low) = generate_level_bounds o.rand_max 0 o.rands (omega arith) in
              let ends =
                same
                ∙ runs
                ∙ ap (done success) (
                    left-same entering.cell
                      (record now { tower = tower; max_level = raised x s.memory.max_level })
                      h.epoch) in
              (
                stored s t (suc s.insertions)
                    (record now { tower = tower; max_level = raised x s.memory.max_level }),
                insert-stored a t key value s _ _ ends,
                after-Holds t s content h entering tower (raised x s.memory.max_level)
                    s.memory.errno s.memory.reclaim_lists h.retired_head (suc s.insertions)
                    (insert_item x h.items) _ list
                    (raised_bounds x s.memory.max_level num_levels low h.level) h.retires
                    (omega (arith, length-insert_item x h.items, h.short))
                    (agrees_but t s content h key (some value) (insert_item x h.items)
                      (rw (lookup-insert_item x h.items) refl)
                      (λ k differ. lookup-insert_other k x h.items differ)),
              )
        ]

    pub removes :
        (s' : Shared) × (shared_remove a t key s ≡ some s') × Holds s' (update content key none)
    unfolding to_unsigned
    removes =
        let o = fuelled a s in
        let same = remove-inside t s content h o f.works (pos key) entering in
        elim (find-cases (pos key) h.items) [
          | inl (z, e) ↦
              let (tower, runs, removed) =
                remove-behind o (pos key) now header entering.cell (pos 0) h.items z h.retired_head
                  1 minus_one (omega arith) h.list (inside-HasCell t s content h entering)
                  (omega arith) (omega (arith, h.short)) e h.retires
                  (ap (λ m. get_elem? m.local_epochs 1) (left-same entering.cell now h.epoch)
                    ∙ IsRow-second entering.epochs entering.is_row)
                  (rw h.epoch refl) in
              let m' = retired now tower 0 z.ptr in
              let ends = same ∙ runs ∙ ap (done success) (left-same entering.cell m' h.epoch) in
              (
                stored s t s.insertions m',
                remove-stored a t key s _ _ ends,
                after-Holds t s content h entering tower s.memory.max_level s.memory.errno
                    (set s.memory.reclaim_lists 0 z.ptr) z.ptr s.insertions
                    (remove_item (pos key) h.items) _ removed.list h.level
                    (set-get_elem? s.memory.reclaim_lists 0 z.ptr h.retired_head h.retires)
                    (omega (arith, length-remove_item (pos key) h.items, h.short))
                    (agrees_but t s content h key none (remove_item (pos key) h.items)
                      (rw (lookup-remove_item (pos key) h.items h.list.sorted) refl)
                      (λ k differ. lookup-remove_other k (pos key) h.items differ)),
              )
          | inr e ↦
              let runs =
                remove-absent o (pos key) now header entering.cell (pos 0) h.items (omega arith)
                  h.list (inside-HasCell t s content h entering) (omega arith)
                  (omega (arith, h.short)) e in
              let ends = same ∙ runs ∙ ap (done success) (left-same entering.cell now h.epoch) in
              (
                stored s t s.insertions now,
                remove-stored a t key s _ _ ends,
                after-Holds t s content h entering s.memory.tower s.memory.max_level s.memory.errno
                    s.memory.reclaim_lists h.retired_head s.insertions h.items _ h.list h.level
                    h.retires h.short
                    (agrees_but t s content h key none h.items
                      (rw (lookup-find (pos key) h.items e) refl) (λ k differ. refl)),
              )
        ]
