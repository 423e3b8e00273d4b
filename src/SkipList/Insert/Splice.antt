-- ===== src/SkipList/Insert/Splice.antt =====
-- A skip list while `skiplist_insert` of lab4/SkipList.c links a new tower, level by level.
use distibuted_sys.Base.{
  ℕ, ◌≤◌, ◌≡◌, ◌≢◌, refl, false, Option, some, List, [], ◌∷◌, inl, inr, arith, ◌==◌, leb, ltb,
  if◌then◌else◌, Bool-cases, ◌⊎◌,
}
use distibuted_sys.Base.Int.{ℤ, ltz}
use distibuted_sys.SkipList.{Ptr, null, link, Tower}
use distibuted_sys.SkipList.Items.{Item, ApartFrom, next_at, drop_less, Place, place, place_at}

-- The new item goes before the first key that is not below its own.
abbrev pub insert_item : Item → List Item → List Item
insert_item x [] = x ∷ []
insert_item x (y ∷ ys) = if ltz y.key x.key then y ∷ insert_item x ys else x ∷ y ∷ ys

-- What is behind a place leads on to the same as the end of the search.
pub next_at-place_at :
    (l : ℕ) (k : ℤ) (p : Place) (ys : List Item)
    → next_at l p.behind ≡ next_at l ys
    → next_at l (place_at l k p ys).behind ≡ next_at l (drop_less k ys)
next_at-place_at l k p [] e = e
next_at-place_at l k p (y ∷ ys) e = elim (Bool-cases (ltz y.key k)) [
  | inl less ↦ elim (Bool-cases (leb l y.level)) [
    | inl high ↦ rw (less, high) (next_at-place_at l k (place y.ptr ys) ys refl)
    | inr low ↦ rw (less, low) (next_at-place_at l k p ys (rw low at e))
  ]
  | inr more ↦ rw more e
]

-- Where the search ends among `ys`: at `p`, with the new item next, or at one of `ys`, which then
-- hides the new item from all before.
abbrev pub EndsAt : ℕ → Item → Place → List Item → Type 0
EndsAt l x p ys =
    ((place_at l x.key p ys ≡ p) × (next_at l (insert_item x ys) ≡ x.ptr))
    ⊎ ((next_at l (insert_item x ys) ≡ next_at l ys)
        × ((q : Ptr) → ApartFrom q ys → (q == (place_at l x.key p ys).at) ≡ false))

pub place_at-EndsAt :
    (l : ℕ) (x : Item) (p : Place) (ys : List Item) → l ≤ x.level → EndsAt l x p ys
place_at-EndsAt l x p [] h = inl (refl, ground arith)
place_at-EndsAt l x p (y ∷ ys) h = elim (Bool-cases (ltz y.key x.key)) [
  | inl less ↦ elim (Bool-cases (leb l y.level)) [
    | inl high ↦ elim (place_at-EndsAt l x (place y.ptr ys) ys h) [
      | inl (stays, next) ↦ inr (rw (less, high) refl, λ q (ne, apart). rw (less, high, stays) ne)
      | inr (next, among) ↦
          inr (rw (less, high) refl, λ q (ne, apart). rw (less, high) (among q apart))
    ]
    | inr low ↦ elim (place_at-EndsAt l x p ys h) [
      | inl (stays, next) ↦ inl (rw (less, low) stays, rw (less, low) next)
      | inr (next, among) ↦
          inr (rw (less, low) next, λ q (ne, apart). rw (less, low) (among q apart))
    ]
  ]
  | inr more ↦ inl (rw more refl, rw more (ground arith))
]

-- `insert_item` from level `n` down.
abbrev pub half : ℕ → ℕ → Item → List Item → Ptr
half n l x ys = if ltb l n then next_at l (insert_item x ys) else next_at l ys

-- The link of level `l` from an item before `ys`, when the levels below `n` are done.
abbrev pub lead : ℕ → ℕ → Item → ℤ → List Item → Ptr
lead n l x key ys = if ltz key x.key then half n l x ys else next_at l ys

pub record Leads (tower : Ptr → Option Tower) (y : Item) (next : ℕ → Ptr) : Type 0 where
  pub here : Tower
  pub found : tower y.ptr ≡ some here
  pub key : here.key ≡ y.key
  pub value : here.value ≡ y.value
  pub level : here.level ≡ y.level
  pub leads : (l : ℕ) → l ≤ y.level → here.forward l ≡ link (next l)

abbrev pub Halfway : ℕ → (Ptr → Option Tower) → Item → List Item → Type 0
Halfway n tower x [] = Unit
Halfway n tower x (y ∷ ys) =
    (y.ptr ≢ null) × Leads tower y (λ l. lead n l x y.key ys) × Halfway n tower x ys
