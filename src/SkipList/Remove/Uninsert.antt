-- ===== src/SkipList/Remove/Uninsert.antt =====
-- A skip list of lab4/SkipList.c as one that an item was put into: what `skiplist_remove` starts from.
use distibuted_sys.Base.{
  ℕ, suc, ◌<◌, ◌≡◌, ◌≢◌, refl, ◌∙◌, true, false, Option, some, List, [], ◌∷◌, inl, inr, arith, ◌==◌,
  Bool-cases, ap, sym, if◌then◌else◌,
}
use distibuted_sys.Base.Int.{ℤ, ltz, eqz, ltz_irrefl, not_ltz_trans}
use distibuted_sys.SkipList.{num_levels, Ptr, null, link, Tower}
use distibuted_sys.SkipList.Items.{Item, ApartFrom, AllLow, next_at, drop_less, AllAbove, IsSorted}
use distibuted_sys.SkipList.Walk.{Stands, Linked}
use distibuted_sys.SkipList.Update.Values.{find}
use distibuted_sys.SkipList.Insert.Splice.{insert_item, half, lead, Leads, Halfway}
use distibuted_sys.SkipList.Insert.Relink.{AllApart}
use distibuted_sys.SkipList.Insert.Joined.{half-insert_item}

-- The items without the one with the key `k`.
abbrev pub remove_item : ℤ → List Item → List Item
remove_item k [] = []
remove_item k (y ∷ ys) = if eqz y.key k then ys else y ∷ remove_item k ys

AllAbove-find :
    (a k : ℤ) (ys : List Item) (z : Item) → AllAbove a ys → find k ys ≡ some z → ltz a z.key ≡ true
AllAbove-find a k [] z above e = ground (arith, e)
AllAbove-find a k (y ∷ ys) z (l, above) e = elim (Bool-cases (eqz y.key k)) [
  | inl same ↦ let f : y ≡ z = ground (arith, e, same) in rw (← f) l
  | inr other ↦ AllAbove-find a k ys z above (rw other at e)
]

insert_item_first : (z : Item) (ys : List Item) → AllAbove z.key ys → insert_item z ys ≡ z ∷ ys
insert_item_first z [] above = refl
insert_item_first z (y ∷ ys) (l, above) =
    rw (not_ltz_trans z.key y.key z.key (ltz_irrefl z.key) l) refl

pub insert_item-remove_item :
    (k : ℤ) (xs : List Item) (z : Item)
    → IsSorted xs
    → find k xs ≡ some z
    → insert_item z (remove_item k xs) ≡ xs
insert_item-remove_item k [] z sorted e = ground (arith, e)
insert_item-remove_item k (y ∷ ys) z (above, sorted) e = elim (Bool-cases (eqz y.key k)) [
  | inl same ↦
      let f : y ≡ z = ground (arith, e, same) in rw (same, ← f) (insert_item_first y ys above)
  | inr other ↦
      let g : find k ys ≡ some z = rw other at e in
      rw (other, AllAbove-find y.key k ys z above g, insert_item-remove_item k ys z sorted g) refl
]

AllAbove-uninsert :
    (a : ℤ) (x : Item) (ys : List Item)
    → AllAbove a (insert_item x ys)
    → (ltz a x.key ≡ true) × AllAbove a ys
AllAbove-uninsert a x [] (l, above) = (l, tt)
AllAbove-uninsert a x (y ∷ ys) above = elim (Bool-cases (ltz y.key x.key)) [
  | inl less ↦
      let (l, rest) : AllAbove a (y ∷ insert_item x ys) = rw less at above in
      let (m, old) = AllAbove-uninsert a x ys rest in (m, (l, old))
  | inr more ↦ let (m, (l, rest)) : AllAbove a (x ∷ y ∷ ys) = rw more at above in (m, (l, rest))
]

pub IsSorted-uninsert : (x : Item) (ys : List Item) → IsSorted (insert_item x ys) → IsSorted ys
IsSorted-uninsert x [] sorted = tt
IsSorted-uninsert x (y ∷ ys) sorted = elim (Bool-cases (ltz y.key x.key)) [
  | inl less ↦
      let (above, rest) : IsSorted (y ∷ insert_item x ys) = rw less at sorted in
      ((AllAbove-uninsert y.key x ys above).1, IsSorted-uninsert x ys rest)
  | inr more ↦ let (above, rest) : IsSorted (x ∷ y ∷ ys) = rw more at sorted in rest
]

pub ApartFrom-uninsert :
    (p : Ptr) (x : Item) (ys : List Item)
    → ApartFrom p (insert_item x ys)
    → ((p == x.ptr) ≡ false) × ApartFrom p ys
ApartFrom-uninsert p x [] (ne, apart) = (ne, tt)
ApartFrom-uninsert p x (y ∷ ys) apart = elim (Bool-cases (ltz y.key x.key)) [
  | inl less ↦
      let (ne, rest) : ApartFrom p (y ∷ insert_item x ys) = rw less at apart in
      let (nx, old) = ApartFrom-uninsert p x ys rest in (nx, (ne, old))
  | inr more ↦ let (nx, rest) : ApartFrom p (x ∷ y ∷ ys) = rw more at apart in (nx, rest)
]

pub AllApart-uninsert :
    (x : Item) (ys : List Item) → AllApart (insert_item x ys) → ApartFrom x.ptr ys × AllApart ys
AllApart-uninsert x [] apart = (tt, tt)
AllApart-uninsert x (y ∷ ys) apart = elim (Bool-cases (ltz y.key x.key)) [
  | inl less ↦
      let (ap_y, rest) : AllApart (y ∷ insert_item x ys) = rw less at apart in
      let (ne, old_y) = ApartFrom-uninsert y.ptr x ys ap_y in
      let (ap_x, old) = AllApart-uninsert x ys rest in ((ground (arith, ne), ap_x), (old_y, old))
  | inr more ↦ let (ap_x, rest) : AllApart (x ∷ y ∷ ys) = rw more at apart in (ap_x, rest)
]

pub AllLow-uninsert :
    (x : Item) (ys : List Item) → AllLow (insert_item x ys) → (x.level < num_levels) × AllLow ys
AllLow-uninsert x [] (l, low) = (l, tt)
AllLow-uninsert x (y ∷ ys) low = elim (Bool-cases (ltz y.key x.key)) [
  | inl less ↦
      let (l, rest) : AllLow (y ∷ insert_item x ys) = rw less at low in
      let (lx, old) = AllLow-uninsert x ys rest in (lx, (l, old))
  | inr more ↦ let (lx, rest) : AllLow (x ∷ y ∷ ys) = rw more at low in (lx, rest)
]

Leads-Stands :
    (tower : Ptr → Option Tower) (y : Item) (rest : List Item) (f : ℕ → Ptr)
    → Stands tower y rest
    → ((l : ℕ) → next_at l rest ≡ f l)
    → Leads tower y f
Leads-Stands tower y rest f s same = record {
  here = s.here;
  found = s.found;
  key = s.key;
  value = s.value;
  level = s.level;
  leads = λ l h. s.leads l h ∙ ap link (same l);
}

-- Behind the place of the item the links are those without it.
Halfway-behind :
    (n : ℕ) (tower : Ptr → Option Tower) (x : Item) (a : ℤ) (ys : List Item)
    → Linked tower ys
    → ltz a x.key ≡ false
    → AllAbove a ys
    → Halfway n tower x ys
Halfway-behind n tower x a [] links more above = tt
Halfway-behind n tower x a (y ∷ ys) (nn, s, links) more (l, above) =
    let still = not_ltz_trans a y.key x.key more l in
    (
      nn,
      Leads-Stands tower y ys (λ i. lead n i x y.key ys) s (λ i. rw still refl),
      Halfway-behind n tower x a ys links more above,
    )

pub Linked-uninsert :
    (tower : Ptr → Option Tower) (x : Item) (ys : List Item)
    → Linked tower (insert_item x ys)
    → IsSorted ys
    → (x.ptr ≢ null) × Stands tower x (drop_less x.key ys) × Halfway (suc x.level) tower x ys
Linked-uninsert tower x [] (nn, s, links) sorted = (nn, s, tt)
Linked-uninsert tower x (y ∷ ys) links (above, sorted) = elim (Bool-cases (ltz y.key x.key)) [
  | inl less ↦
      let (ny, sy, rest) : Linked tower (y ∷ insert_item x ys) = rw less at links in
      let (nn, s, half) = Linked-uninsert tower x ys rest sorted in
      (
        nn,
        rw less s,
        (
          ny,
          Leads-Stands tower y (insert_item x ys) (λ i. lead (suc x.level) i x y.key ys) sy
              (λ i. rw less (sym (half-insert_item i x ys))),
          half,
        ),
      )
  | inr more ↦
      let (nn, s, rest) : Linked tower (x ∷ y ∷ ys) = rw more at links in
      let (ny, sy, behind) : Linked tower (y ∷ ys) = rest in
      (
        nn,
        rw more s,
        (
          ny,
          Leads-Stands tower y ys (λ i. lead (suc x.level) i x y.key ys) sy (λ i. rw more refl),
          Halfway-behind (suc x.level) tower x y.key ys behind more above,
        ),
      )
]
