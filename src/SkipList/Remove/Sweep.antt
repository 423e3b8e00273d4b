-- ===== src/SkipList/Remove/Sweep.antt =====
-- `fill_tables` of lab4/SkipList.c in a skip list with one marked tower: it unlinks that at each level.
use distibuted_sys.Base.{
  ℕ, zero, suc, ◌+◌, ◌-◌, ◌<◌, ◌≤◌, ◌≡◌, refl, ◌∙◌, true, false, Option, some, List, inl, inr, ◌⊎◌,
  arith, ◌==◌, Bool-cases, ap, sym, subst, leb, ltb, length,
}
use distibuted_sys.SkipList.{
  num_levels, Ptr, header, link, mark, Tower, Memory, Outcome, done, put, load_link,
}
use distibuted_sys.SkipList.Search.{Tables, set_ptr, walk, fill_levels, fill_tables}
use distibuted_sys.SkipList.Exchange.{load_link-some}
use distibuted_sys.SkipList.Items.{
  Item, next_at, drop_less, Place, place, place_at, place_at-place_at, drop_less-place_at,
}
use distibuted_sys.SkipList.Walk.{walk-LinkedAt}
use distibuted_sys.SkipList.Insert.Splice.{insert_item}
use distibuted_sys.SkipList.Insert.Relink.{with_link}
use distibuted_sys.SkipList.Insert.Linking.{Layout, pred_at, succ_at}
use distibuted_sys.SkipList.Remove.Unlink.{walk-unlink}
use distibuted_sys.SkipList.Remove.Levels.{Unlinking, round-Unlinking}
use distibuted_sys.SkipList.Remove.Way.{Way, place_at-Way, Halfway-LinkedAt}

module _ (fuel j : ℕ) (base : Ptr → Option Tower) (x : Item) (xs : List Item) (y : Layout x xs)
    (low : x.level < num_levels) (enough : length xs + 1 < fuel) where
  -- Where the search stands before level `l`.
  record Position (a l : ℕ) (m : Memory) (c : Place) : Type 0 where
    way : Way a l (length xs) m.tower x c
    agrees : (i : ℕ) → i ≤ l → place_at i x.key c c.behind ≡ place_at i x.key (place header xs) xs
    passed : drop_less x.key c.behind ≡ drop_less x.key xs

  header-Way :
      (a l : ℕ) (tower : Ptr → Option Tower)
      → Unlinking a 0 base tower x xs
      → l < num_levels
      → Way a l (length xs) tower x (place header xs)
  header-Way a l tower s h = record {
    stop = record {
      here = s.leads.here;
      found = s.leads.found;
      tall = ground (arith, s.leads.level);
      leads = λ i le. s.leads.leads i (omega arith);
    };
    half_done = s.towers;
    sorted = y.sorted;
    apart_at = y.header_apart;
    apart = y.apart;
    short = omega arith;
  }

  next-Position :
      (a l : ℕ) (m : Memory)
      → Unlinking a 0 base m.tower x xs
      → suc l < num_levels
      → Position a l m (place_at (suc l) x.key (place header xs) xs)
  next-Position a l m s h =
      let w =
        place_at-Way a (suc l) (length xs) m.tower x (place header xs) xs s.towers y.sorted y.apart
          (omega arith) (header-Way a (suc l) m.tower s h) in
      record {
        way = record {
          stop = record {
            here = w.stop.here;
            found = w.stop.found;
            tall = omega (arith, w.stop.tall);
            leads = λ i le. w.stop.leads i (omega arith);
          };
          half_done = w.half_done;
          sorted = w.sorted;
          apart_at = w.apart_at;
          apart = w.apart;
          short = w.short;
        };
        agrees = λ i le.
            place_at-place_at (suc l) i x.key (place header xs) (place header xs) xs (omega arith)
              refl;
        passed = drop_less-place_at (suc l) x.key (place header xs) xs xs refl refl;
      }

  fill_round :
      (r : ℕ) (cur q pred succ : Ptr) (tables : Tables) (m m' : Memory)
      → load_link cur r m ≡ done (link q) m
      → walk x.key fuel r cur q m ≡ done (some (pred, succ)) m'
      → (t : Tables) × (fill_levels x.key fuel 0 (suc r) cur tables m
          ≡ fill_levels x.key fuel 0 r pred t m')
  unfolding fill_levels
  fill_round r cur q pred succ tables m m' loads walks =
      let e : 0 + r ≡ r = omega arith in
      (
        record {
          preds = set_ptr tables.preds (0 + r) pred;
          succs = set_ptr tables.succs (0 + r) succ;
        },
        ground (arith, e, loads, walks),
      )

  -- A level that does not lead to the old tower.
  plain_level :
      (a r : ℕ) (c : Place) (tables : Tables) (m : Memory)
      → Position a r m c
      → a ≤ r
      → (t : Tables) × (fill_levels x.key fuel 0 (suc r) c.at tables m
          ≡ fill_levels x.key fuel 0 r (pred_at r x xs) t m)
  plain_level a r c tables m p h =
      let w = p.way in
      let above : ltb r a ≡ false = ground arith in
      let loads : load_link c.at r m ≡ done (link (next_at r c.behind)) m =
        load_link-some c.at r m w.stop.here w.stop.found w.stop.tall
        ∙ ap (λ i. done i m) (w.stop.leads r (omega arith) ∙ rw above refl) in
      let walks =
        walk-LinkedAt x.key m fuel r c c.behind
          (Halfway-LinkedAt a r m.tower x c.behind h w.half_done) w.sorted
          (omega (arith, w.short)) in
      let ends =
        walks
        ∙ ap (λ q. done (some (q.at, next_at r (drop_less x.key c.behind))) m)
            (p.agrees r (omega arith)) in
      fill_round r c.at (next_at r c.behind) (pred_at r x xs) (next_at r (drop_less x.key c.behind))
        tables m m loads ends

  -- The highest level that leads to the old tower.
  unlink_level :
      (r : ℕ) (c : Place) (tables : Tables) (m : Memory)
      → Unlinking (suc r) 0 base m.tower x xs
      → Position (suc r) r m c
      → r ≤ x.level
      → (t : Tables) × (tower : Ptr → Option Tower) × (fill_levels x.key fuel 0
            (suc r)
            c.at
            tables
            m
          ≡ fill_levels x.key fuel 0 r (pred_at r x xs) t (record m { tower = tower }))
        × Unlinking r 0 base tower x xs
  unlink_level r c tables m s p h =
      let w = p.way in
      let now : ltb r (suc r) ≡ true = ground arith in
      let leads : w.stop.here.forward r ≡ link (next_at r (insert_item x c.behind)) =
        w.stop.leads r (omega arith) ∙ rw now refl in
      let loads : load_link c.at r m ≡ done (link (next_at r (insert_item x c.behind))) m =
        load_link-some c.at r m w.stop.here w.stop.found w.stop.tall ∙ ap (λ i. done i m) leads in
      let none_below : ltb r 0 ≡ false = ground arith in
      let marked : s.old.forward r ≡ mark (link (next_at r (drop_less x.key c.behind))) =
        s.links r h ∙ rw (none_below, p.passed) refl in
      let (last, found, walks) =
        walk-unlink m x r s.old y.not_null h s.found s.level fuel c w.stop.here c.behind
          w.stop.found w.stop.tall leads w.half_done w.sorted w.apart_at w.apart marked
          (omega (arith, w.short)) in
      let same = p.agrees r (omega arith) in
      let unlinked : Tower → Ptr → Ptr → Outcome Memory (Option (Ptr × Ptr)) = λ t pred succ.
        done (some (pred, succ)) (record m { tower = put m.tower pred (with_link r succ t) }) in
      let tower = put m.tower (pred_at r x xs) (with_link r (succ_at r x xs) last) in
      let ends : walk x.key fuel r c.at (next_at r (insert_item x c.behind)) m
          ≡ done (some (pred_at r x xs, succ_at r x xs)) (record m { tower = tower }) =
        walks
        ∙ ap (λ q. unlinked last q.at (next_at r (drop_less x.key c.behind))) same
        ∙ ap (λ zs. unlinked last (pred_at r x xs) (next_at r zs)) p.passed in
      let (t, runs) =
        fill_round r c.at (next_at r (insert_item x c.behind)) (pred_at r x xs) (succ_at r x xs)
          tables m (record m { tower = tower }) loads ends in
      (
        t,
        tower,
        runs,
        round-Unlinking r base m.tower x xs last y h (sym (ap (λ q. m.tower q.at) same) ∙ found) s,
      )

  -- Either all levels are done above the old tower, or it is unlinked down to level `r`.
  abbrev Reached : ℕ → ℕ → Type 0
  Reached a r = ((a ≡ suc r) × (r ≤ x.level)) ⊎ ((a ≡ suc x.level) × (a ≤ r))

  abbrev Swept : ℕ → Ptr → Tables → Memory → Type 0
  Swept r cur tables m =
      (t : Tables) × (tower : Ptr → Option Tower) × (fill_levels x.key fuel 0 r cur tables m
        ≡ done (some t) (record m { tower = tower }))
      × Unlinking 0 0 base tower x xs

  sweep :
      (r a : ℕ) (c : Place) (tables : Tables) (m : Memory)
      → Unlinking a 0 base m.tower x xs
      → Position a r m c
      → r < num_levels
      → Reached a r
      → Swept (suc r) c.at tables m
  unfolding fill_levels
  sweep zero a c tables m s p h (inl (e, le)) =
      let (t, tower, runs, s') =
        unlink_level 0 c tables m (subst (λ i. Unlinking i 0 base m.tower x xs) e s)
          (subst (λ i. Position i 0 m c) e p) le in
      (t, tower, runs, s')
  sweep zero a c tables m s p h (inr (e, le)) = absurd (omega arith)
  sweep (suc r) a c tables m s p h (inl (e, le)) =
      let (t, tower, runs, s') =
        unlink_level (suc r) c tables m (subst (λ i. Unlinking i 0 base m.tower x xs) e s)
          (subst (λ i. Position i (suc r) m c) e p) le in
      let m' = record m { tower = tower } in
      let (t2, tower2, runs2, s2) =
        sweep r (suc r) (place_at (suc r) x.key (place header xs) xs) t m' s'
          (next-Position (suc r) r m' s' h) (omega arith) (inl (refl, omega arith)) in
      (t2, tower2, runs ∙ runs2, s2)
  sweep (suc r) a c tables m s p h (inr (e, le)) =
      let (t, runs) = plain_level a (suc r) c tables m p le in
      let reached : Reached a r = elim (Bool-cases (leb a r)) [
        | inl low ↦ inr (e, ground arith)
        | inr top ↦ inl (ground arith, ground arith)
      ] in
      let (t2, tower2, runs2, s2) =
        sweep r a (place_at (suc r) x.key (place header xs) xs) t m s (next-Position a r m s h)
          (omega arith) reached in
      (t2, tower2, runs ∙ runs2, s2)

  -- A search over all levels unlinks the marked tower everywhere.
  pub fill_tables-Unlinking :
      (resets : ℕ) (tables : Tables) (m : Memory)
      → 1 ≤ resets
      → Unlinking (suc x.level) 0 base m.tower x xs
      → (t : Tables) × (tower : Ptr → Option Tower) × (fill_tables x.key resets fuel
            (num_levels - 1)
            0
            tables
            m
          ≡ done t (record m { tower = tower }))
        × Unlinking 0 0 base tower x xs
  unfolding fill_tables
  fill_tables-Unlinking zero tables m more s = absurd (omega arith)
  fill_tables-Unlinking (suc resets) tables m more s =
      let p : Position (suc x.level) 15 m (place header xs) = record {
        way = header-Way (suc x.level) 15 m.tower s (omega arith);
        agrees = λ i le. refl;
        passed = refl;
      } in
      let reached : Reached (suc x.level) 15 = elim (Bool-cases (x.level == 15)) [
        | inl top ↦ inl (ground arith, ground arith)
        | inr below ↦ inr (refl, ground arith)
      ] in
      let (t, tower, runs, s') =
        sweep 15 (suc x.level) (place header xs) tables m s p (omega arith) reached in
      (t, tower, rw runs refl, s')
