-- ===== src/SkipList/Insert/Step.antt =====
-- The levels of a skip list that lead to a tower, one more or one less.
use distibuted_sys.Base.{
  ℕ, suc, ◌≤◌, ◌≡◌, refl, true, false, Option, some, List, [], ◌∷◌, inl, inr, arith, ◌==◌, leb, ltb,
  Bool-cases,
}
use distibuted_sys.Base.Int.{ltz}
use distibuted_sys.SkipList.{Ptr, link, Tower}
use distibuted_sys.SkipList.Items.{Item, next_at, Place, place, place_at}
use distibuted_sys.SkipList.Insert.Splice.{insert_item, half, Leads, Halfway}

pub half-suc :
    (n l : ℕ) (x : Item) (ys : List Item) → (n == l) ≡ false → half n l x ys ≡ half (suc n) l x ys
half-suc n l x ys ne = elim (Bool-cases (ltb l n)) [
  | inl below ↦ let also : ltb l (suc n) ≡ true = ground arith in rw (below, also) refl
  | inr above ↦ let also : ltb l (suc n) ≡ false = ground arith in rw (above, also) refl
]

pub half_hidden :
    (n l : ℕ) (x : Item) (ys : List Item)
    → next_at n (insert_item x ys) ≡ next_at n ys
    → half n l x ys ≡ half (suc n) l x ys
half_hidden n l x ys hidden = elim (Bool-cases (n == l)) [
  | inl same ↦
      let e : n ≡ l = ground arith in
      let now : ltb l (suc n) ≡ true = ground arith in
      let before : ltb l n ≡ false = ground arith in rw (now, before, rw e at hidden) refl
  | inr other ↦ half-suc n l x ys other
]

-- The tower at `p` is `top` levels high at least, and leads at them to what is behind it.
pub record Stop (a top : ℕ) (tower : Ptr → Option Tower) (x : Item) (p : Place) : Type 0 where
  pub here : Tower
  pub found : tower p.at ≡ some here
  pub tall : top ≤ here.level
  pub leads : (l : ℕ) → l ≤ top → here.forward l ≡ link (half a l x p.behind)

pub place_at-Stop :
    (a top : ℕ) (tower : Ptr → Option Tower) (x : Item) (p : Place) (ys : List Item)
    → Halfway a tower x ys
    → Stop a top tower x p
    → Stop a top tower x (place_at top x.key p ys)
place_at-Stop a top tower x p [] rest stop = stop
place_at-Stop a top tower x p (y ∷ ys) (nn, s, rest) stop = elim (Bool-cases (ltz y.key x.key)) [
  | inl less ↦ elim (Bool-cases (leb top y.level)) [
    | inl high ↦
        let s' : Leads tower y (λ l. half a l x ys) = rw less at s in
        rw (less, high)
          (place_at-Stop a top tower x (place y.ptr ys) ys rest (record {
            here = s'.here;
            found = s'.found;
            tall = ground (arith, s'.level);
            leads = λ l h. s'.leads l (ground arith);
          }))
    | inr low ↦ rw (less, low) (place_at-Stop a top tower x p ys rest stop)
  ]
  | inr more ↦ rw more stop
]
