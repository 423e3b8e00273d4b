-- ===== src/SkipList/Walk.antt =====
-- The towers of a skip list with no marked tower, and the inner loop of `fill_tables` of
-- lab4/SkipList.c on one level of it.
use distibuted_sys.Base.{
  ℕ, zero, suc, ◌-◌, ◌≤◌, ◌<◌, ◌≡◌, ◌≢◌, refl, ◌∙◌, true, false, Option, some, List, [], ◌∷◌, inl,
  inr, arith, leb, Bool-cases, length,
}
use distibuted_sys.Base.Int.{ℤ, ltz}
use distibuted_sys.SkipList.{num_levels, Ptr, null, header, link, Tower, Memory, done, load_link}
use distibuted_sys.SkipList.Search.{walk}
use distibuted_sys.SkipList.Items.{
  Item, ApartFrom, AllLow, next_at, drop_less, Place, place, place_at, IsSorted, drop_less_above,
  place_at_above,
}

-- The tower of `x` is allocated, is marked nowhere, and leads at each of its levels to the next
-- tower of that level in `rest`.
pub record Stands (tower : Ptr → Option Tower) (x : Item) (rest : List Item) : Type 0 where
  pub here : Tower
  pub found : tower x.ptr ≡ some here
  pub key : here.key ≡ x.key
  pub value : here.value ≡ x.value
  pub level : here.level ≡ x.level
  pub leads : (l : ℕ) → l ≤ x.level → here.forward l ≡ link (next_at l rest)

abbrev pub Linked : (Ptr → Option Tower) → List Item → Type 0
Linked tower [] = Unit
Linked tower (x ∷ xs) = (x.ptr ≢ null) × Stands tower x xs × Linked tower xs

load_link-Stands :
    (m : Memory) (x : Item) (rest : List Item) (l : ℕ)
    → Stands m.tower x rest
    → l ≤ x.level
    → load_link x.ptr l m ≡ done (link (next_at l rest)) m
unfolding load_link
load_link-Stands m x rest l s h = ground (arith, s.leads l)

-- The header leads into the unmarked towers `xs`, which are linked in the order of their keys.
pub record IsSkipList (tower : Ptr → Option Tower) (xs : List Item) : Type 0 where
  pub head : Tower
  pub found : tower header ≡ some head
  pub level : head.level ≡ num_levels - 1
  pub leads : (l : ℕ) → l < num_levels → head.forward l ≡ link (next_at l xs)
  pub links : Linked tower xs
  pub apart : ApartFrom header xs
  pub low : AllLow xs
  pub sorted : IsSorted xs

pub load_link-header :
    (m : Memory) (xs : List Item) (l : ℕ)
    → IsSkipList m.tower xs
    → l < num_levels
    → load_link header l m ≡ done (link (next_at l xs)) m
unfolding load_link
load_link-header m xs l s h = ground (arith, s.leads l)

-- The same of one level: the tower is not marked there, and leads to the next of that level.
pub record StandsAt (tower : Ptr → Option Tower) (l : ℕ) (x : Item) (rest : List Item)
    : Type 0 where
  pub here : Tower
  pub found : tower x.ptr ≡ some here
  pub key : here.key ≡ x.key
  pub level : here.level ≡ x.level
  pub leads : l ≤ x.level → here.forward l ≡ link (next_at l rest)

abbrev pub LinkedAt : (Ptr → Option Tower) → ℕ → List Item → Type 0
LinkedAt tower l [] = Unit
LinkedAt tower l (x ∷ xs) = (x.ptr ≢ null) × StandsAt tower l x xs × LinkedAt tower l xs

pub Linked-LinkedAt :
    (tower : Ptr → Option Tower) (l : ℕ) (xs : List Item) → Linked tower xs → LinkedAt tower l xs
Linked-LinkedAt tower l [] links = tt
Linked-LinkedAt tower l (x ∷ xs) (ne, s, links) = (
  ne,
  record { here = s.here; found = s.found; key = s.key; level = s.level; leads = λ h. s.leads l h },
  Linked-LinkedAt tower l xs links,
)

module _ (k : ℤ) (m : Memory) where
  -- A round at a tower of the level, in its two outcomes.
  pub walk_on :
      (fuel l : ℕ) (cur : Ptr) (x : Item) (rest : List Item)
      → x.ptr ≢ null
      → StandsAt m.tower l x rest
      → l ≤ x.level
      → ltz x.key k ≡ true
      → walk k (suc fuel) l cur x.ptr m ≡ walk k fuel l x.ptr (next_at l rest) m
  unfolding walk load_link
  walk_on fuel l cur x rest ne s h less = ground (arith, s.leads)

  walk_stop :
      (fuel l : ℕ) (cur : Ptr) (x : Item) (rest : List Item)
      → x.ptr ≢ null
      → StandsAt m.tower l x rest
      → l ≤ x.level
      → ltz x.key k ≡ false
      → walk k (suc fuel) l cur x.ptr m ≡ done (some (cur, x.ptr)) m
  unfolding walk load_link
  walk_stop fuel l cur x rest ne s h more = ground (arith, s.leads)

  pub walk-null :
      (fuel l : ℕ) (cur : Ptr) → walk k (suc fuel) l cur null m ≡ done (some (cur, null)) m
  unfolding walk
  walk-null fuel l cur = refl

  pub walk-LinkedAt :
      (fuel l : ℕ) (p : Place) (ys : List Item)
      → LinkedAt m.tower l ys
      → IsSorted ys
      → length ys < fuel
      → walk k fuel l p.at (next_at l ys) m
        ≡ done (some ((place_at l k p ys).at, next_at l (drop_less k ys))) m
  walk-LinkedAt zero l p ys links sorted h = absurd (omega arith)
  walk-LinkedAt (suc fuel) l p [] links sorted h = walk-null fuel l p.at
  walk-LinkedAt (suc fuel) l p (y ∷ ys) (ne, s, links) (above, sorted) h =
      elim (Bool-cases (leb l y.level)) [
        | inl high ↦ elim (Bool-cases (ltz y.key k)) [
          | inl less ↦
              rw (high, less)
                (walk_on fuel l p.at y ys ne s (ground arith) less
                  ∙ walk-LinkedAt fuel l (place y.ptr ys) ys links sorted (omega arith))
          | inr more ↦
              rw (high, more) (walk_stop fuel l p.at y ys ne s (ground arith) more ∙ rw high)
        ]
        | inr low ↦ elim (Bool-cases (ltz y.key k)) [
          | inl less ↦ rw (low, less) (walk-LinkedAt (suc fuel) l p ys links sorted (omega arith))
          | inr more ↦
              rw (low, more)
                (walk-LinkedAt (suc fuel) l p ys links sorted (omega arith)
                  ∙ rw (
                    place_at_above l y.key k p ys more above,
                    drop_less_above y.key k ys more above,
                    low,
                  ))
        ]
      ]

  pub walk-place_at :
      (fuel l : ℕ) (p : Place) (ys : List Item)
      → Linked m.tower ys
      → IsSorted ys
      → length ys < fuel
      → walk k fuel l p.at (next_at l ys) m
        ≡ done (some ((place_at l k p ys).at, next_at l (drop_less k ys))) m
  walk-place_at fuel l p ys links sorted h =
      walk-LinkedAt fuel l p ys (Linked-LinkedAt m.tower l ys links) sorted h

  -- From `p` the levels up to `top` lead into the sorted towers behind it, `n` at most.
  pub record Entry (n top : ℕ) (p : Place) : Type 0 where
    pub leads : (l : ℕ) → l ≤ top → load_link p.at l m ≡ done (link (next_at l p.behind)) m
    pub links : Linked m.tower p.behind
    pub sorted : IsSorted p.behind
    pub short : length p.behind ≤ n

  pub place_at-Entry :
      (n l : ℕ) (p : Place) (ys : List Item)
      → Entry n l p
      → Linked m.tower ys
      → IsSorted ys
      → length ys ≤ n
      → Entry n l (place_at l k p ys)
  place_at-Entry n l p [] e links sorted h = e
  place_at-Entry n l p (y ∷ ys) e (ne, s, links) (above, sorted) h =
      elim (Bool-cases (ltz y.key k)) [
        | inl less ↦ elim (Bool-cases (leb l y.level)) [
          | inl high ↦
              rw (less, high)
                (place_at-Entry n l (place y.ptr ys) ys
                  (record {
                    leads = λ j i. load_link-Stands m y ys j s (ground arith);
                    links = links;
                    sorted = sorted;
                    short = omega arith;
                  })
                  links sorted (omega arith))
          | inr low ↦ rw (less, low) (place_at-Entry n l p ys e links sorted (omega arith))
        ]
        | inr more ↦ rw more e
      ]
