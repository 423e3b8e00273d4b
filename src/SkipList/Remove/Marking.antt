-- ===== src/SkipList/Remove/Marking.antt =====
-- How `skiplist_remove` of lab4/SkipList.c marks a tower, from its top level down.
use distibuted_sys.Base.{
  ℕ, zero, suc, ◌≤◌, ◌≡◌, refl, ◌∙◌, true, false, Option, some, List, inl, inr, arith, ◌==◌,
  Bool-cases, ap, ltb,
}
use distibuted_sys.Base.Int.{ℤ}
use distibuted_sys.SkipList.{Ptr, link, mark, Tower, Memory, done, put, set_forward, load_link}
use distibuted_sys.SkipList.Exchange.{with_forward, load_link-some, exchange_link-some}
use distibuted_sys.SkipList.Access.{Outside, mark_level, mark_levels, mark_bottom}
use distibuted_sys.SkipList.Items.{Item}
use distibuted_sys.SkipList.Insert.Linking.{Layout, succ_at}
use distibuted_sys.SkipList.Remove.Levels.{Unlinking, Unlinking-put}

module _ (o : Outside) (k : ℤ) where
  mark_level-link :
      (tries lvl : ℕ) (p q : Ptr) (m : Memory) (t : Tower)
      → 1 ≤ tries
      → m.tower p ≡ some t
      → lvl ≤ t.level
      → t.forward lvl ≡ link q
      → mark_level o k tries p lvl m
        ≡ done tt (record m { tower = put m.tower p (with_forward t lvl (mark (link q))) })
  unfolding mark_level
  mark_level-link zero lvl p q m t more at tall e = absurd (omega arith)
  mark_level-link (suc tries) lvl p q m t more at tall e =
      let loads : load_link p lvl m ≡ done (link q) m =
        load_link-some p lvl m t at tall ∙ ap (λ i. done i m) e in
      rw (loads, exchange_link-some p q lvl (mark (link q)) m t at tall e) refl

  mark_bottom-link :
      (tries : ℕ) (p q : Ptr) (m : Memory) (t : Tower)
      → 1 ≤ tries
      → m.tower p ≡ some t
      → t.forward 0 ≡ link q
      → mark_bottom o k tries p m
        ≡ done true (record m { tower = put m.tower p (with_forward t 0 (mark (link q))) })
  unfolding mark_bottom
  mark_bottom-link zero p q m t more at e = absurd (omega arith)
  mark_bottom-link (suc tries) p q m t more at e =
      let loads : load_link p 0 m ≡ done (link q) m =
        load_link-some p 0 m t at (omega arith) ∙ ap (λ i. done i m) e in
      rw (loads, exchange_link-some p q 0 (mark (link q)) m t at (omega arith) e) refl

-- The mark of the highest level that has none.
marked-Unlinking :
    (n lvl : ℕ) (base tower : Ptr → Option Tower) (x : Item) (xs : List Item)
    (s : Unlinking n (suc lvl) base tower x xs)
    → Layout x xs
    → Unlinking n lvl base
        (put tower x.ptr (with_forward s.old lvl (mark (link (succ_at lvl x xs)))))
        x
        xs
marked-Unlinking n lvl base tower x xs s y =
    Unlinking-put n (suc lvl) lvl base tower x xs
      (record s.old { forward = set_forward s.old.forward lvl (mark (link (succ_at lvl x xs))) }) y
      s.key s.level
      (λ l h. elim (Bool-cases (lvl == l)) [
        | inl same ↦
            let e : lvl ≡ l = ground arith in
            let not_below : ltb l lvl ≡ false = ground arith in
            rw (same, not_below) (ap (λ i. mark (link (succ_at i x xs))) e)
        | inr other ↦
            let e : ltb l (suc lvl) ≡ ltb l lvl = ground arith in rw other (s.links l h ∙ rw e refl)
      ])
      s

-- What a tower has at a level that is not marked yet.
unmarked :
    (n lvl : ℕ) (base tower : Ptr → Option Tower) (x : Item) (xs : List Item)
    (s : Unlinking n (suc lvl) base tower x xs)
    → lvl ≤ x.level
    → s.old.forward lvl ≡ link (succ_at lvl x xs)
unmarked n lvl base tower x xs s h =
    let below : ltb lvl (suc lvl) ≡ true = ground arith in s.links lvl h ∙ rw below refl

module _ (o : Outside) (k : ℤ) (base : Ptr → Option Tower) (x : Item) (xs : List Item)
    (y : Layout x xs) (more : 1 ≤ o.resets) where
  pub mark_levels-Unlinking :
      (n lvl : ℕ) (m : Memory)
      → lvl ≤ x.level
      → Unlinking n (suc lvl) base m.tower x xs
      → (tower : Ptr → Option Tower) × (mark_levels o k lvl x.ptr m
          ≡ done tt (record m { tower = tower }))
        × Unlinking n 1 base tower x xs
  unfolding mark_levels
  mark_levels-Unlinking n zero m h s = (m.tower, refl, s)
  mark_levels-Unlinking n (suc lvl) m h s =
      let e = unmarked n (suc lvl) base m.tower x xs s h in
      let t = with_forward s.old (suc lvl) (mark (link (succ_at (suc lvl) x xs))) in
      let marks =
        mark_level-link o k o.resets (suc lvl) x.ptr (succ_at (suc lvl) x xs) m s.old more s.found
          (omega (arith, s.level)) e in
      let m1 = record m { tower = put m.tower x.ptr t } in
      let (tower, runs, s') =
        mark_levels-Unlinking n lvl m1 (omega arith)
          (marked-Unlinking n (suc lvl) base m.tower x xs s y) in
      (tower, rw marks runs, s')

  pub mark_bottom-Unlinking :
      (n : ℕ) (m : Memory)
      → Unlinking n 1 base m.tower x xs
      → (tower : Ptr → Option Tower) × (mark_bottom o k o.resets x.ptr m
          ≡ done true (record m { tower = tower }))
        × Unlinking n 0 base tower x xs
  mark_bottom-Unlinking n m s =
      let e = unmarked n 0 base m.tower x xs s (omega arith) in
      (
        put m.tower x.ptr (with_forward s.old 0 (mark (link (succ_at 0 x xs)))),
        mark_bottom-link o k o.resets x.ptr (succ_at 0 x xs) m s.old more s.found e,
        marked-Unlinking n 0 base m.tower x xs s y,
      )
