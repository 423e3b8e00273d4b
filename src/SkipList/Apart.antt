-- ===== src/SkipList/Apart.antt =====
-- The towers of a skip list have different addresses, so that a write to one leaves the others.
use distibuted_sys.Base.{◌≡◌, false, Option, List, [], ◌∷◌, inl, inr, arith, ◌==◌, Bool-cases}
use distibuted_sys.Base.Int.{eqz, eqz_refl, ltz-neq}
use distibuted_sys.SkipList.{Ptr, Tower, put}
use distibuted_sys.SkipList.Items.{Item, ApartFrom, AllAbove}
use distibuted_sys.SkipList.Walk.{Stands, Linked}

-- Towers with different keys have different addresses.
pub Stands-apart :
    (tower : Ptr → Option Tower) (x y : Item) (r r' : List Item)
    → Stands tower x r
    → Stands tower y r'
    → eqz x.key y.key ≡ false
    → (x.ptr == y.ptr) ≡ false
Stands-apart tower x y r r' s s' ne = elim (Bool-cases (x.ptr == y.ptr)) [
  | inl same ↦
      let e : x.ptr ≡ y.ptr = ground arith in
      let keys : x.key ≡ y.key = ground (arith, e, s.found, s'.found, s.key, s'.key) in
      ground (arith, keys, ne, eqz_refl y.key)
  | inr apart ↦ apart
]

-- A write to another address leaves the towers linked.
pub Linked-put :
    (tower : Ptr → Option Tower) (p : Ptr) (o : Option Tower) (ys : List Item)
    → ApartFrom p ys
    → Linked tower ys
    → Linked (put tower p o) ys
Linked-put tower p o [] apart links = tt
Linked-put tower p o (y ∷ ys) (ne, apart) (nn, s, links) = (
  nn,
  record {
    here = s.here;
    found = rw (ne, s.found);
    key = s.key;
    value = s.value;
    level = s.level;
    leads = s.leads;
  },
  Linked-put tower p o ys apart links,
)

pub AllAbove-ApartFrom :
    (tower : Ptr → Option Tower) (x : Item) (r ys : List Item)
    → Stands tower x r
    → Linked tower ys
    → AllAbove x.key ys
    → ApartFrom x.ptr ys
AllAbove-ApartFrom tower x r [] s links above = tt
AllAbove-ApartFrom tower x r (y ∷ ys) s (ne, s', links) (l, above) = (
  Stands-apart tower x y r ys s s' (ltz-neq x.key y.key l),
  AllAbove-ApartFrom tower x r ys s links above,
)
