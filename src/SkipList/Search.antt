-- ===== src/SkipList/Search.antt =====
-- lab4/SkipList.c: `fill_tables` and `generate_level`.
use distibuted_sys.Base.{
  ℕ, zero, suc, ◌+◌, ◌-◌, ◌/◌, Option, none, some, List, [], ◌∷◌, ◌&&◌, ◌==◌, ltb, if◌then◌else◌,
}
use distibuted_sys.Base.Int.{ℤ, ltz}
use distibuted_sys.SkipList.{
  num_levels, Ptr, null, header, link, Code, unfinished, ◌>>=◌, return, load_tower, load_link,
  exchange_link,
}

-- The values of `random()` come from outside; a list too short reads as RAND_MAX.
unfoldable pub generate_level : ℕ → ℕ → List ℕ → ℕ
generate_level rand_max generated [] = generated
generate_level rand_max generated (rand ∷ rands) =
    let deeper = generate_level rand_max (generated + 1) rands in
    if ltb generated (num_levels - 1) && ltb rand (rand_max / 2) then deeper else generated

-- The arrays `preds` and `succs`.
pub record Tables : Type 0 where
  pub preds : ℕ → Ptr
  pub succs : ℕ → Ptr

abbrev pub set_ptr : (ℕ → Ptr) → ℕ → Ptr → ℕ → Ptr
set_ptr f lvl p k = if lvl == k then p else f k

module _ (search_key : ℤ) where
  -- The inner loop of `fill_tables` at one level, from `cur` with `next` behind it; `none` is
  -- `goto reset_search`.
  unfoldable pub walk : ℕ → ℕ → Ptr → Ptr → Code (Option (Ptr × Ptr))
  walk zero lvl cur next = λ _. unfinished
  walk (suc fuel) lvl cur next = if next == null then return (some (cur, null)) else do
    next_next ← load_link next lvl
    t ← load_tower next
    if next_next.marked
        then (do
          (won, _) ← exchange_link cur lvl (link next) (link next_next.target)
          if won then (do l ← load_link cur lvl; walk fuel lvl cur l.target) else return none)
        else if ltz t.key search_key
        then walk fuel lvl next next_next.target
        else return (some (cur, next))

  -- The outer loop, over the `rounds` levels from `to_level` up, the highest first.
  unfoldable pub fill_levels : ℕ → ℕ → ℕ → Ptr → Tables → Code (Option Tables)
  fill_levels fuel to_level zero cur tables = return (some tables)
  fill_levels fuel to_level (suc rounds) cur tables = do
    l ← load_link cur (to_level + rounds)
    place ← walk fuel (to_level + rounds) cur l.target
    elim place [
      | none ↦ return none
      | some (pred, succ) ↦ fill_levels fuel to_level rounds pred (record {
        preds = set_ptr tables.preds (to_level + rounds) pred;
        succs = set_ptr tables.succs (to_level + rounds) succ;
      })
    ]

  -- `fill_tables`, with `resets` for the number of times that it may start again.
  unfoldable pub fill_tables : ℕ → ℕ → (from_level to_level : ℕ) → Tables → Code Tables
  fill_tables zero fuel from_level to_level tables = λ _. unfinished
  fill_tables (suc resets) fuel from_level to_level tables = do
    filled ← fill_levels fuel to_level (from_level + 1 - to_level) header tables
    elim filled [ some t ↦ return t | none ↦ fill_tables resets fuel from_level to_level tables ]
