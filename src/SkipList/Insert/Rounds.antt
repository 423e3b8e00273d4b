-- ===== src/SkipList/Insert/Rounds.antt =====
-- The rounds of the loop of `skiplist_insert` of lab4/SkipList.c that links the new tower.
use distibuted_sys.Base.{ℕ, zero, suc, ◌+◌, ◌≤◌, ◌<◌, ◌≡◌, refl, Option, some, List, arith, subst}
use distibuted_sys.Base.Int.{ℤ}
use distibuted_sys.SkipList.{num_levels, Ptr, link, Tower, Memory, done, put, store_link}
use distibuted_sys.SkipList.Exchange.{with_forward, store_link-some, exchange_link-some}
use distibuted_sys.SkipList.Search.{Tables}
use distibuted_sys.SkipList.Access.{Outside, link_level, link_levels}
use distibuted_sys.SkipList.Items.{Item}
use distibuted_sys.SkipList.Insert.Linking.{
  Layout, Splicing, pred_at, succ_at, pred_at-new, pred_at-Ends, after_round, round-Splicing,
}

-- One level is linked at the first try.
link_level-round :
    (o : Outside) (k : ℤ) (tries n : ℕ) (tables : Tables) (m : Memory) (x : Item) (xs : List Item)
    (s : Splicing n m.tower x xs) (t : Tower)
    → 1 ≤ tries
    → x.ptr ≡ o.fresh
    → Layout x xs
    → n ≤ x.level
    → tables.preds n ≡ pred_at n x xs
    → tables.succs n ≡ succ_at n x xs
    → m.tower (pred_at n x xs) ≡ some t
    → n ≤ t.level
    → t.forward n ≡ link (succ_at n x xs)
    → link_level o k tries n tables m
      ≡ done tables (record m { tower = after_round n m.tower x xs s.new t })
unfolding link_level
link_level-round o k zero n tables m x xs s t more fresh y h pred succ at tall leads =
    absurd (omega arith)
link_level-round o k (suc tries) n tables m x xs s t more fresh y h pred succ at tall leads =
    let linked = with_forward s.new n (link (succ_at n x xs)) in
    let m1 = record m { tower = put m.tower x.ptr linked } in
    let stored : store_link x.ptr n (link (succ_at n x xs)) m ≡ done tt m1 =
      store_link-some x.ptr n (link (succ_at n x xs)) m s.new s.found (ground (arith, s.level)) in
    let at1 : m1.tower (pred_at n x xs) ≡ some t = rw (pred_at-new n x xs y h, at) in
    let won =
      exchange_link-some (pred_at n x xs) (succ_at n x xs) n (link x.ptr) m1 t at1 tall leads in
    rw (← fresh, pred, succ, stored, won) refl

pub link_levels-Splicing :
    (o : Outside) (k : ℤ) (tables : Tables) (x : Item) (xs : List Item) (rounds n : ℕ) (m : Memory)
    → Splicing n m.tower x xs
    → Layout x xs
    → x.ptr ≡ o.fresh
    → n + rounds ≡ suc x.level
    → x.level < num_levels
    → 1 ≤ o.resets
    → ((l : ℕ)
        → l ≤ x.level
        → (tables.preds l ≡ pred_at l x xs) × (tables.succs l ≡ succ_at l x xs))
    → (tower : Ptr → Option Tower) × (link_levels o k rounds n tables m
        ≡ done tt (record m { tower = tower }))
      × Splicing (suc x.level) tower x xs
unfolding link_levels
link_levels-Splicing o k tables x xs zero n m s y fresh e lt more tabs =
    let all : n ≡ suc x.level = omega arith in
    (m.tower, refl, subst (λ i. Splicing i m.tower x xs) all s)
link_levels-Splicing o k tables x xs (suc rounds) n m s y fresh e lt more tabs =
    let (t, at, tall, leads) = pred_at-Ends n m.tower x xs s (omega arith) in
    let (pred, succ) = tabs n (omega arith) in
    let round =
      link_level-round o k o.resets n tables m x xs s t more fresh y (omega arith) pred succ at tall
        leads in
    let tower1 = after_round n m.tower x xs s.new t in
    let next : suc n ≡ n + 1 = omega arith in
    let s1 : Splicing (n + 1) tower1 x xs =
      subst (λ i. Splicing i tower1 x xs) next
        (round-Splicing n m.tower x xs s t y (omega arith) at) in
    let (tower, runs, s2) =
      link_levels-Splicing o k tables x xs rounds (n + 1) (record m { tower = tower1 }) s1 y fresh
        (omega arith) lt more tabs in
    (tower, rw round runs, s2)
