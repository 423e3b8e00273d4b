-- ===== src/SkipList/Items.antt =====
-- The towers of lab4/SkipList.c as one sequence in the order of their keys, and what a search over
-- several levels comes to in it.
use distibuted_sys.Base.{
  ℕ, ◌==◌, ◌≤◌, ◌<◌, ◌≡◌, refl, true, false, List, [], ◌∷◌, inl, inr, arith, leb, if◌then◌else◌,
  Bool-cases,
}
use distibuted_sys.Base.Int.{ℤ, ltz, not_ltz_trans}
use distibuted_sys.SkipList.{num_levels, Ptr, null}

pub record Item : Type 0 where
  pub ptr : Ptr
  pub key : ℤ
  pub value : ℤ
  pub level : ℕ

-- The first tower that reaches up to level `l`.
abbrev pub next_at : ℕ → List Item → Ptr
next_at l [] = null
next_at l (y ∷ ys) = if leb l y.level then y.ptr else next_at l ys

-- The items from the first key on that is not below `k`.
abbrev pub drop_less : ℤ → List Item → List Item
drop_less k [] = []
drop_less k (y ∷ ys) = if ltz y.key k then drop_less k ys else y ∷ ys

-- A tower and the items behind it.
pub record Place : Type 0 where
  pub at : Ptr
  pub behind : List Item

abbrev pub place : Ptr → List Item → Place
place p ys = record { at = p; behind = ys }

-- The last tower of level `l` or more whose key is below `k`; `p` if there is none.
abbrev pub place_at : ℕ → ℤ → Place → List Item → Place
place_at l k p [] = p
place_at l k p (y ∷ ys) =
    if ltz y.key k then place_at l k (if leb l y.level then place y.ptr ys else p) ys else p

-- No item has the address `p`.
abbrev pub ApartFrom : Ptr → List Item → Type 0
ApartFrom p [] = Unit
ApartFrom p (y ∷ ys) = ((p == y.ptr) ≡ false) × ApartFrom p ys

-- No item is higher than the header.
abbrev pub AllLow : List Item → Type 0
AllLow [] = Unit
AllLow (y ∷ ys) = (y.level < num_levels) × AllLow ys

abbrev pub AllAbove : ℤ → List Item → Type 0
AllAbove k [] = Unit
AllAbove k (y ∷ ys) = (ltz k y.key ≡ true) × AllAbove k ys

abbrev pub IsSorted : List Item → Type 0
IsSorted [] = Unit
IsSorted (y ∷ ys) = AllAbove y.key ys × IsSorted ys

-- Behind a key that is not below `k` no key is.
pub drop_less_above :
    (a k : ℤ) (ys : List Item) → ltz a k ≡ false → AllAbove a ys → drop_less k ys ≡ ys
drop_less_above a k [] h s = refl
drop_less_above a k (y ∷ ys) h (l, s) = rw (not_ltz_trans a y.key k h l)

pub place_at_above :
    (l : ℕ) (a k : ℤ) (p : Place) (ys : List Item)
    → ltz a k ≡ false
    → AllAbove a ys
    → place_at l k p ys ≡ p
place_at_above l a k p [] h s = refl
place_at_above l a k p (y ∷ ys) h (m, s) = rw (not_ltz_trans a y.key k h m)

-- A search at level `l` and then one at a lower level, from where the first ended, come to the same
-- as the second alone.
pub place_at-place_at :
    (l l' : ℕ) (k : ℤ) (p p' : Place) (ys : List Item)
    → l' ≤ l
    → place_at l' k p p.behind ≡ place_at l' k p' ys
    → place_at l' k (place_at l k p ys) (place_at l k p ys).behind ≡ place_at l' k p' ys
place_at-place_at l l' k p p' [] h e = e
place_at-place_at l l' k p p' (y ∷ ys) h e = elim (Bool-cases (ltz y.key k)) [
  | inl less ↦ elim (Bool-cases (leb l y.level)) [
    | inl high ↦
        let high' : leb l' y.level ≡ true = ground arith in
        rw (less, high, high')
          (place_at-place_at l l' k (place y.ptr ys) (place y.ptr ys) ys h refl)
    | inr low ↦
        rw (less, low)
          (place_at-place_at l l' k p (if leb l' y.level then place y.ptr ys else p') ys h
            (rw less at e))
  ]
  | inr more ↦ rw more (rw more at e)
]

-- What was passed on the way has smaller keys.
pub drop_less-place_at :
    (l : ℕ) (k : ℤ) (p : Place) (xs ys : List Item)
    → drop_less k p.behind ≡ drop_less k xs
    → drop_less k ys ≡ drop_less k xs
    → drop_less k (place_at l k p ys).behind ≡ drop_less k xs
drop_less-place_at l k p xs [] e f = e
drop_less-place_at l k p xs (y ∷ ys) e f = elim (Bool-cases (ltz y.key k)) [
  | inl less ↦ elim (Bool-cases (leb l y.level)) [
    | inl high ↦
        rw (less, high)
          (drop_less-place_at l k (place y.ptr ys) xs ys (rw less at f) (rw less at f))
    | inr low ↦ rw (less, low) (drop_less-place_at l k p xs ys e (rw less at f))
  ]
  | inr more ↦ rw more e
]
