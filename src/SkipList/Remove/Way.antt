-- ===== src/SkipList/Remove/Way.antt =====
-- Where a search of lab4/SkipList.c stands that unlinks a marked tower.
use distibuted_sys.Base.{
  ℕ, ◌≤◌, ◌≡◌, refl, ◌∙◌, false, Option, List, [], ◌∷◌, inl, inr, arith, Bool-cases, leb, ltb,
  length,
}
use distibuted_sys.Base.Int.{ltz}
use distibuted_sys.SkipList.{Ptr, Tower}
use distibuted_sys.SkipList.Items.{Item, ApartFrom, Place, place, place_at, IsSorted}
use distibuted_sys.SkipList.Walk.{LinkedAt}
use distibuted_sys.SkipList.Insert.Splice.{half, Leads, Halfway}
use distibuted_sys.SkipList.Insert.Step.{Stop}
use distibuted_sys.SkipList.Insert.Relink.{AllApart}

-- A place on the way, with what is behind it.
pub record Way (a top n : ℕ) (tower : Ptr → Option Tower) (x : Item) (c : Place) : Type 0 where
  pub stop : Stop a top tower x c
  pub half_done : Halfway a tower x c.behind
  pub sorted : IsSorted c.behind
  pub apart_at : ApartFrom c.at c.behind
  pub apart : AllApart c.behind
  pub short : length c.behind ≤ n

pub place_at-Way :
    (a top n : ℕ) (tower : Ptr → Option Tower) (x : Item) (p : Place) (ys : List Item)
    → Halfway a tower x ys
    → IsSorted ys
    → AllApart ys
    → length ys ≤ n
    → Way a top n tower x p
    → Way a top n tower x (place_at top x.key p ys)
place_at-Way a top n tower x p [] rest sorted apart h w = w
place_at-Way a top n tower x p (y ∷ ys) (nn, s, rest) (above, sorted) (ap_y, apart) h w =
    elim (Bool-cases (ltz y.key x.key)) [
      | inl less ↦ elim (Bool-cases (leb top y.level)) [
        | inl high ↦
            let s' : Leads tower y (λ l. half a l x ys) = rw less at s in
            rw (less, high)
              (place_at-Way a top n tower x (place y.ptr ys) ys rest sorted apart (omega arith)
                (record {
                  stop = record {
                    here = s'.here;
                    found = s'.found;
                    tall = ground (arith, s'.level);
                    leads = λ l i. s'.leads l (ground arith);
                  };
                  half_done = rest;
                  sorted = sorted;
                  apart_at = ap_y;
                  apart = apart;
                  short = omega arith;
                }))
        | inr low ↦
            rw (less, low) (place_at-Way a top n tower x p ys rest sorted apart (omega arith) w)
      ]
      | inr more ↦ rw more w
    ]

-- At the levels that do not lead to the old tower.
pub Halfway-LinkedAt :
    (a l : ℕ) (tower : Ptr → Option Tower) (x : Item) (ys : List Item)
    → a ≤ l
    → Halfway a tower x ys
    → LinkedAt tower l ys
Halfway-LinkedAt a l tower x [] h half = tt
Halfway-LinkedAt a l tower x (y ∷ ys) h (nn, s, rest) =
    let above : ltb l a ≡ false = ground arith in
    (
      nn,
      record {
        here = s.here;
        found = s.found;
        key = s.key;
        level = s.level;
        leads = λ i. s.leads l i ∙ (elim (Bool-cases (ltz y.key x.key)) [
          | inl less ↦ rw (less, above) refl
          | inr more ↦ rw more refl
        ]);
      },
      Halfway-LinkedAt a l tower x ys h rest,
    )
