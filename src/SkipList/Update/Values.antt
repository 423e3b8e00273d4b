-- ===== src/SkipList/Update/Values.antt =====
-- The items of a skip list of lab4/SkipList.c by their keys, and a change of a value.
use distibuted_sys.Base.{
  ℕ, ◌≡◌, ◌≢◌, refl, ◌∙◌, true, false, Option, none, some, List, [], ◌∷◌, inl, inr, arith, ◌==◌,
  if◌then◌else◌, Bool-cases, ap, sym, subst,
}
use distibuted_sys.Base.Int.{ℤ, ltz, eqz, eqz→eq, ltz-neq, not_ltz-neq}
use distibuted_sys.SkipList.{Ptr, null, link, Tower, put}
use distibuted_sys.SkipList.Items.{Item, ApartFrom, AllLow, next_at, drop_less, AllAbove, IsSorted}
use distibuted_sys.SkipList.Walk.{Stands, Linked}
use distibuted_sys.SkipList.Apart.{Stands-apart, Linked-put, AllAbove-ApartFrom}

-- The item with the key `k`.
abbrev pub find : ℤ → List Item → Option Item
find k [] = none
find k (y ∷ ys) = if eqz y.key k then some y else find k ys

abbrev pub set_value : ℤ → ℤ → List Item → List Item
set_value k v [] = []
set_value k v (y ∷ ys) = if eqz y.key k then record y { value = v } ∷ ys else y ∷ set_value k v ys

find_above : (a k : ℤ) (ys : List Item) → ltz a k ≡ false → AllAbove a ys → find k ys ≡ none
find_above a k [] h s = refl
find_above a k (y ∷ ys) h (l, s) = rw (not_ltz-neq a y.key k h l) (find_above a k ys h s)

pub next_at-find :
    (k : ℤ) (xs : List Item) (z : Item)
    → IsSorted xs
    → find k xs ≡ some z
    → next_at 0 (drop_less k xs) ≡ z.ptr
next_at-find k [] z s e = ground (arith, e)
next_at-find k (y ∷ ys) z (above, s) e = elim (Bool-cases (ltz y.key k)) [
  | inl less ↦ rw less (next_at-find k ys z s (rw (ltz-neq y.key k less) at e))
  | inr more ↦ elim (Bool-cases (eqz y.key k)) [
    | inl same ↦ ground (arith, e, more, same)
    | inr other ↦ ground (arith, e, other, find_above y.key k ys more above)
  ]
]

pub find-Stands :
    (tower : Ptr → Option Tower) (k : ℤ) (xs : List Item) (z : Item)
    → Linked tower xs
    → find k xs ≡ some z
    → (rest : List Item) × Stands tower z rest × (z.ptr ≢ null) × (eqz z.key k ≡ true)
find-Stands tower k [] z links e = ground (arith, e)
find-Stands tower k (y ∷ ys) z (ne, s, links) e = elim (Bool-cases (eqz y.key k)) [
  | inl same ↦
      let f : y ≡ z = ground (arith, e, same) in
      (ys, subst (λ x. Stands tower x ys) f s, subst (λ x. x.ptr ≢ null) f ne, rw f at same)
  | inr other ↦ find-Stands tower k ys z links (rw other at e)
]

pub next_at-set_value :
    (l : ℕ) (k v : ℤ) (xs : List Item) → next_at l (set_value k v xs) ≡ next_at l xs
next_at-set_value l k v [] = refl
next_at-set_value l k v (y ∷ ys) = elim (Bool-cases (eqz y.key k)) [
  | inl same ↦ rw same refl
  | inr other ↦ rw (other, next_at-set_value l k v ys)
]

AllAbove-set_value : (a k v : ℤ) (xs : List Item) → AllAbove a xs → AllAbove a (set_value k v xs)
AllAbove-set_value a k v [] s = tt
AllAbove-set_value a k v (y ∷ ys) (l, s) = elim (Bool-cases (eqz y.key k)) [
  | inl same ↦ rw same (l, s)
  | inr other ↦ rw other (l, AllAbove-set_value a k v ys s)
]

pub ApartFrom-set_value :
    (p : Ptr) (k v : ℤ) (xs : List Item) → ApartFrom p xs → ApartFrom p (set_value k v xs)
ApartFrom-set_value p k v [] s = tt
ApartFrom-set_value p k v (y ∷ ys) (ne, s) = elim (Bool-cases (eqz y.key k)) [
  | inl same ↦ rw same (ne, s)
  | inr other ↦ rw other (ne, ApartFrom-set_value p k v ys s)
]

pub AllLow-set_value : (k v : ℤ) (xs : List Item) → AllLow xs → AllLow (set_value k v xs)
AllLow-set_value k v [] s = tt
AllLow-set_value k v (y ∷ ys) (l, s) = elim (Bool-cases (eqz y.key k)) [
  | inl same ↦ rw same (l, s)
  | inr other ↦ rw other (l, AllLow-set_value k v ys s)
]

pub IsSorted-set_value : (k v : ℤ) (xs : List Item) → IsSorted xs → IsSorted (set_value k v xs)
IsSorted-set_value k v [] s = tt
IsSorted-set_value k v (y ∷ ys) (above, s) = elim (Bool-cases (eqz y.key k)) [
  | inl same ↦ rw same (above, s)
  | inr other ↦ rw other (AllAbove-set_value y.key k v ys above, IsSorted-set_value k v ys s)
]

eqz-other : (a b k : ℤ) → eqz a k ≡ true → eqz b k ≡ false → eqz a b ≡ false
eqz-other a b k e ne = elim (Bool-cases (eqz a b)) [
  | inl same ↦ ground (arith, eqz→eq a b same, e, ne)
  | inr other ↦ other
]

pub Linked-set_value :
    (tower : Ptr → Option Tower) (k v : ℤ) (xs : List Item) (z : Item) (t : Tower)
    → Linked tower xs
    → IsSorted xs
    → find k xs ≡ some z
    → tower z.ptr ≡ some t
    → Linked (put tower z.ptr (some (record t { value = v }))) (set_value k v xs)
Linked-set_value tower k v [] z t links s e at = tt
Linked-set_value tower k v (y ∷ ys) z t (ne, s, links) (above, sorted) e at =
    elim (Bool-cases (eqz y.key k)) [
      | inl same ↦
          let f : y ≡ z = ground (arith, e, same) in
          let here : s.here ≡ t = ground (arith, s.found, at, f) in
          let self : (z.ptr == y.ptr) ≡ true = rw f (ground arith) in
          rw same (
            ne,
            record {
              here = record t { value = v };
              found = rw self refl;
              key = sym (ap (λ q. q.key) here) ∙ s.key;
              value = refl;
              level = sym (ap (λ q. q.level) here) ∙ s.level;
              leads = λ l h. sym (ap (λ q. q.forward l) here) ∙ s.leads l h;
            },
            subst (λ p. Linked (put tower p (some (record t { value = v }))) ys) (ap (λ i. i.ptr) f)
                (Linked-put tower y.ptr (some (record t { value = v })) ys
                  (AllAbove-ApartFrom tower y ys ys s links above) links),
          )
      | inr other ↦
          let g : find k ys ≡ some z = rw other at e in
          let (rest, sz, nz, key) = find-Stands tower k ys z links g in
          let neq = eqz-other z.key y.key k key other in
          let apart = Stands-apart tower z y rest ys sz s neq in
          rw other (
            ne,
            record {
              here = s.here;
              found = rw (apart, s.found);
              key = s.key;
              value = s.value;
              level = s.level;
              leads = λ l h. s.leads l h ∙ ap link (sym (next_at-set_value l k v ys));
            },
            Linked-set_value tower k v ys z t links sorted g at,
          )
    ]
