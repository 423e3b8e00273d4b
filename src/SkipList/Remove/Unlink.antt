-- ===== src/SkipList/Remove/Unlink.antt =====
-- The inner loop of `fill_tables` of lab4/SkipList.c on a level where one tower is marked: the loop
-- unlinks it.
use distibuted_sys.Base.{
  ℕ, zero, suc, ◌+◌, ◌≤◌, ◌<◌, ◌≡◌, ◌≢◌, refl, ◌∙◌, true, false, some, List, [], ◌∷◌, inl, inr,
  arith, ◌==◌, leb, ltb, Bool-cases, length, ap,
}
use distibuted_sys.Base.Int.{ltz}
use distibuted_sys.SkipList.{
  Ptr, null, link, mark, Tower, Memory, done, put, set_forward, load_link, load_tower,
}
use distibuted_sys.SkipList.Exchange.{load_link-some, exchange_link-some}
use distibuted_sys.SkipList.Search.{walk}
use distibuted_sys.SkipList.Items.{
  Item, ApartFrom, next_at, drop_less, Place, place, place_at, IsSorted,
}
use distibuted_sys.SkipList.Walk.{
  StandsAt, Linked, Linked-LinkedAt, walk_on, walk-null, walk-LinkedAt,
}
use distibuted_sys.SkipList.Apart.{Linked-put}
use distibuted_sys.SkipList.Insert.Splice.{insert_item, half, lead, Halfway}
use distibuted_sys.SkipList.Insert.Relink.{with_link, AllApart}
use distibuted_sys.SkipList.Insert.Finished.{Stands-Leads, Linked_behind}

module _ (m : Memory) (x : Item) (l : ℕ) (tx : Tower) (not_null : x.ptr ≢ null) (h : l ≤ x.level)
    (found : m.tower x.ptr ≡ some tx) (level : tx.level ≡ x.level) where
  -- The round at the marked tower.
  unlink_round :
      (fuel : ℕ) (cur succ : Ptr) (t : Tower)
      → m.tower cur ≡ some t
      → l ≤ t.level
      → t.forward l ≡ link x.ptr
      → tx.forward l ≡ mark (link succ)
      → walk x.key (suc fuel) l cur x.ptr m
        ≡ walk x.key fuel l cur succ (record m { tower = put m.tower cur (with_link l succ t) })
  unfolding walk
  unlink_round fuel cur succ t at tall leads marked =
      let ne : (x.ptr == null) ≡ false = ground (arith, not_null) in
      let m1 = record m { tower = put m.tower cur (with_link l succ t) } in
      let loaded : load_link x.ptr l m ≡ done (mark (link succ)) m =
        load_link-some x.ptr l m tx found (omega arith) ∙ ap (λ i. done i m) marked in
      let read_x : load_tower x.ptr m ≡ done tx m = rw (found, load_tower) refl in
      let won = exchange_link-some cur x.ptr l (link succ) m t at tall leads in
      let self : (cur == cur) ≡ true = ground arith in
      let same : (l == l) ≡ true = ground arith in
      let next : load_link cur l m1 ≡ done (link succ) m1 =
        load_link-some cur l m1 (record t { forward = set_forward t.forward l (link succ) })
          (rw self refl) tall
        ∙ rw same refl in
      rw (ne, loaded, read_x, won, next) refl

  -- The walk ends where it would end without the marked tower, and unlinks that at this level.
  pub walk-unlink :
      (fuel : ℕ) (p : Place) (t : Tower) (ys : List Item)
      → m.tower p.at ≡ some t
      → l ≤ t.level
      → t.forward l ≡ link (next_at l (insert_item x ys))
      → Halfway (suc l) m.tower x ys
      → IsSorted ys
      → ApartFrom p.at ys
      → AllApart ys
      → tx.forward l ≡ mark (link (next_at l (drop_less x.key ys)))
      → length ys + 1 < fuel
      → (last : Tower) × (m.tower (place_at l x.key p ys).at ≡ some last)
        × (walk x.key fuel l p.at (next_at l (insert_item x ys)) m
            ≡ done (some ((place_at l x.key p ys).at, next_at l (drop_less x.key ys))) (record m {
              tower =
                  put m.tower
                    (place_at l x.key p ys).at
                    (with_link l (next_at l (drop_less x.key ys)) last);
            }))
  walk-unlink zero p t ys at tall leads half sorted ap_p apart marked enough = absurd (omega arith)
  walk-unlink (suc zero) p t ys at tall leads half sorted ap_p apart marked enough =
      absurd (omega arith)
  walk-unlink (suc (suc fuel)) p t [] at tall leads half sorted ap_p apart marked enough =
      let high : leb l x.level ≡ true = ground arith in
      let m1 = record m { tower = put m.tower p.at (with_link l null t) } in
      (
        t,
        at,
        rw high (
            unlink_round (suc fuel) p.at null t at tall (rw high at leads) marked
            ∙ walk-null x.key m1 fuel l p.at),
      )
  walk-unlink (suc (suc fuel)) p t (y ∷ ys) at tall leads (nn, s, half) (above, sorted) (ne, ap_p)
        (ap_y, apart) marked enough =
      let high : leb l x.level ≡ true = ground arith in
      elim (Bool-cases (ltz y.key x.key)) [
        | inl less ↦
            let now : ltb l (suc l) ≡ true = ground arith in
            elim (Bool-cases (leb l y.level)) [
              | inl tall_y ↦
                  let stands : StandsAt m.tower l y (insert_item x ys) = record {
                    here = s.here;
                    found = s.found;
                    key = s.key;
                    level = s.level;
                    leads = λ i. s.leads l i ∙ rw (less, now) refl;
                  } in
                  let (last, found_last, walks) =
                    walk-unlink (suc fuel) (place y.ptr ys) s.here ys s.found
                      (ground (arith, s.level)) (stands.leads (ground arith)) half sorted ap_y apart
                      (rw less at marked) (omega arith) in
                  (
                    last,
                    rw (less, tall_y) found_last,
                    rw (less, tall_y)
                        (walk_on x.key m (suc fuel) l p.at y (insert_item x ys) nn stands
                            (ground arith) less
                          ∙ walks),
                  )
              | inr low ↦
                  let (last, found_last, walks) =
                    walk-unlink (suc (suc fuel)) p t ys at tall (rw (less, low) at leads) half
                      sorted ap_p apart (rw less at marked) (omega arith) in
                  (last, rw (less, low) found_last, rw (less, low) walks)
            ]
        | inr more ↦
            let succ = next_at l (y ∷ ys) in
            let m1 = record m { tower = put m.tower p.at (with_link l succ t) } in
            let links : Linked m.tower (y ∷ ys) = (
              nn,
              Stands-Leads m.tower y (λ i. lead (suc l) i x y.key ys) ys s (λ i j. rw more refl),
              Linked_behind (suc l) m.tower x y.key ys half more above,
            ) in
            let links1 =
              Linked-LinkedAt m1.tower l (y ∷ ys)
                (Linked-put m.tower p.at (with_link l succ t) (y ∷ ys) (ne, ap_p) links) in
            let leads' : t.forward l ≡ link x.ptr = rw (more, high) at leads in
            (
              t,
              rw more at,
              rw (more, high)
                  (unlink_round (suc fuel) p.at succ t at tall leads' (rw more at marked)
                    ∙ walk-LinkedAt x.key m1 (suc fuel) l p (y ∷ ys) links1 (above, sorted)
                        (omega arith)
                    ∙ rw more refl),
            )
      ]
