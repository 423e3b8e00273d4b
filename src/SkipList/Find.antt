-- ===== src/SkipList/Find.antt =====
-- `fill_tables` in a skip list with no marked tower: it finds, at each level, the last tower with a
-- smaller key and the one behind it, and changes nothing.
use distibuted_sys.Base.{
  ℕ, zero, suc, ◌+◌, ◌-◌, ◌≤◌, ◌<◌, ◌≡◌, refl, ◌∙◌, true, false, some, List, inl, inr, arith, ◌==◌,
  leb, Bool-cases, length, subst,
}
use distibuted_sys.Base.Int.{ℤ}
use distibuted_sys.SkipList.{num_levels, header, Memory, done}
use distibuted_sys.SkipList.Search.{Tables, set_ptr, fill_levels, fill_tables}
use distibuted_sys.SkipList.Items.{
  Item, next_at, drop_less, Place, place, place_at, place_at-place_at, drop_less-place_at,
}
use distibuted_sys.SkipList.Walk.{
  IsSkipList, load_link-header, walk-place_at, Entry, place_at-Entry,
}

module _ (k : ℤ) (m : Memory) where
  -- What a search from the place `p` before the towers `xs` finds at level `l`.
  abbrev pub Finds : Place → List Item → Tables → ℕ → Type 0
  Finds p xs t l = (t.preds l ≡ (place_at l k p xs).at) × (t.succs l ≡ next_at l (drop_less k xs))

  abbrev pub Same : Tables → Tables → ℕ → Type 0
  Same s t l = (t.preds l ≡ s.preds l) × (t.succs l ≡ s.succs l)

  module _ (n fuel to : ℕ) (p0 : Place) (xs : List Item) where
    -- The search stands at `p`, and has the lower levels still to do.
    record Way (top : ℕ) (p : Place) : Type 0 where
      entry : Entry k m n top p
      agrees : (l : ℕ) → l ≤ top → place_at l k p p.behind ≡ place_at l k p0 xs
      passed : drop_less k p.behind ≡ drop_less k xs

    abbrev round_tables : ℕ → Place → Tables → Tables
    round_tables l p tables = record {
      preds = set_ptr tables.preds l (place_at l k p p.behind).at;
      succs = set_ptr tables.succs l (next_at l (drop_less k p.behind));
    }

    level_round :
        (r : ℕ) (p : Place) (tables : Tables)
        → n < fuel
        → Way (to + r) p
        → fill_levels k fuel to (suc r) p.at tables m
          ≡ fill_levels k fuel to r
              (place_at (to + r) k p p.behind).at
              (round_tables (to + r) p tables)
              m
    unfolding fill_levels
    level_round r p tables h w = ground (
      arith,
      w.entry.leads (to + r),
      walk-place_at k m fuel (to + r) p p.behind w.entry.links w.entry.sorted,
      w.entry.short,
    )

    Way-place_at :
        (r : ℕ) (p : Place) → Way (to + suc r) p → Way (to + r) (place_at (to + suc r) k p p.behind)
    Way-place_at r p w =
        let e =
          place_at-Entry k m n (to + suc r) p p.behind w.entry w.entry.links w.entry.sorted
            w.entry.short in
        record {
          entry = record {
            leads = λ l h. e.leads l (omega arith);
            links = e.links;
            sorted = e.sorted;
            short = e.short;
          };
          agrees = λ l h.
              place_at-place_at (to + suc r) l k p p p.behind (omega arith) refl
              ∙ w.agrees l (omega arith);
          passed = drop_less-place_at (to + suc r) k p xs p.behind w.passed w.passed;
        }

    -- The tables `t` have what is found at the levels `to` to `top`, and elsewhere what `s` has.
    abbrev Fills : ℕ → Tables → Tables → Type 0
    Fills top s t =
        ((l : ℕ) → to ≤ l → l ≤ top → Finds p0 xs t l) × ((l : ℕ) → top < l → Same s t l)

    round-Finds :
        (r l : ℕ) (p : Place) (tables : Tables)
        → Way (to + r) p
        → to + r ≡ l
        → Finds p0 xs (round_tables (to + r) p tables) l
    round-Finds r l p tables w e = subst (Finds p0 xs (round_tables (to + r) p tables)) e (
        let same : (to + r == to + r) ≡ true = ground arith in
        (rw (same, w.agrees (to + r) (omega arith)), rw (same, w.passed)))

    round-Same :
        (top l : ℕ) (p : Place) (tables : Tables)
        → top < l
        → Same tables (round_tables top p tables) l
    round-Same top l p tables h =
        let other : (top == l) ≡ false = ground arith in (rw other, rw other)

    fill_levels-Fills :
        (r : ℕ) (p : Place) (tables : Tables)
        → n < fuel
        → Way (to + r) p
        → (t : Tables) × (fill_levels k fuel to (suc r) p.at tables m ≡ done (some t) m)
          × Fills (to + r) tables t
    unfolding fill_levels
    fill_levels-Fills zero p tables h w = (
      round_tables (to + zero) p tables,
      level_round zero p tables h w,
      (
        (λ l a b. round-Finds zero l p tables w (omega arith)),
        λ l. round-Same (to + zero) l p tables,
      ),
    )
    fill_levels-Fills (suc r) p tables h w =
        let next_tables = round_tables (to + suc r) p tables in
        let (t, runs, (finds, same)) =
          fill_levels-Fills r (place_at (to + suc r) k p p.behind) next_tables h
            (Way-place_at r p w) in
        (
          t,
          level_round (suc r) p tables h w ∙ runs,
          (
            (λ l a b. elim (Bool-cases (leb l (to + r))) [
              | inl low ↦ finds l a (ground arith)
              | inr top ↦
                  let (u, v) = round-Finds (suc r) l p tables w (ground arith) in
                  let (x, y) = same l (ground arith) in (x ∙ u, y ∙ v)
            ]),
            (λ l a.
                let (u, v) = round-Same (to + suc r) l p tables a in
                let (x, y) = same l (omega arith) in (x ∙ u, y ∙ v)),
          ),
        )

  -- With fuel for every tower, `fill_tables` does not start again and changes nothing; at each level
  -- from `to` to `from` it finds the last tower with a key below `k`, or the header, and the first
  -- tower of that level with another key, or NULL; higher levels of the tables stay as they were.
  pub fill_tables-Finds :
      (resets fuel from to : ℕ) (tables : Tables) (xs : List Item)
      → IsSkipList m.tower xs
      → to ≤ from
      → from < num_levels
      → 1 ≤ resets
      → length xs < fuel
      → (t : Tables) × (fill_tables k resets fuel from to tables m ≡ done t m)
        × ((l : ℕ) → to ≤ l → l ≤ from → Finds (place header xs) xs t l)
        × ((l : ℕ) → from < l → Same tables t l)
  unfolding fill_tables
  fill_tables-Finds zero fuel from to tables xs s le lt more h = absurd (omega arith)
  fill_tables-Finds (suc resets) fuel from to tables xs s le lt more h =
      let way : Way (length xs) fuel to (place header xs) xs (to + (from - to)) (place header xs) =
        record {
          entry = record {
            leads = λ l a. load_link-header m xs l s (omega arith);
            links = s.links;
            sorted = s.sorted;
            short = omega arith;
          };
          agrees = λ l a. refl;
          passed = refl;
        } in
      let rounds : from + 1 - to ≡ suc (from - to) = omega arith in
      let (t, runs, (finds, same)) =
        fill_levels-Fills (length xs) fuel to (place header xs) xs (from - to) (place header xs)
          tables h way in
      (t, rw (rounds, runs), (λ l a b. finds l a (omega arith)), λ l a. same l (omega arith))
