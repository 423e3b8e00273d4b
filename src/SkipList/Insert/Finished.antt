-- ===== src/SkipList/Insert/Finished.antt =====
-- The skip list of lab4/SkipList.c when a new tower is linked at all its levels.
use distibuted_sys.Base.{
  ℕ, ◌<◌, suc, ◌≤◌, ◌≡◌, ◌≢◌, refl, ◌∙◌, true, false, Option, none, List, [], ◌∷◌, inl, inr, arith,
  ◌==◌, Bool-cases, ap,
}
use distibuted_sys.Base.Int.{ℤ, ltz, eqz, not_ltz_trans, ltz_trans, ltz_total}
use distibuted_sys.SkipList.{num_levels, Ptr, null, header, link, Tower}
use distibuted_sys.SkipList.Items.{Item, ApartFrom, AllLow, next_at, drop_less, AllAbove, IsSorted}
use distibuted_sys.SkipList.Walk.{Stands, Linked, IsSkipList}
use distibuted_sys.SkipList.Update.Values.{find}
use distibuted_sys.SkipList.Insert.Splice.{insert_item, half, lead, Leads, Halfway}
use distibuted_sys.SkipList.Insert.Linking.{Layout, Splicing}
use distibuted_sys.SkipList.Insert.Joined.{half-insert_item}

AllAbove-trans : (a b : ℤ) (ys : List Item) → ltz a b ≡ true → AllAbove b ys → AllAbove a ys
AllAbove-trans a b [] l above = tt
AllAbove-trans a b (y ∷ ys) l (m, above) = (ltz_trans a b y.key l m, AllAbove-trans a b ys l above)

AllAbove-insert_item :
    (a : ℤ) (x : Item) (ys : List Item)
    → ltz a x.key ≡ true
    → AllAbove a ys
    → AllAbove a (insert_item x ys)
AllAbove-insert_item a x [] l above = (l, tt)
AllAbove-insert_item a x (y ∷ ys) l (m, above) = elim (Bool-cases (ltz y.key x.key)) [
  | inl less ↦ rw less (m, AllAbove-insert_item a x ys l above)
  | inr more ↦ rw more (l, (m, above))
]

pub find-other :
    (k : ℤ) (y : Item) (ys : List Item)
    → find k (y ∷ ys) ≡ none
    → (eqz y.key k ≡ false) × (find k ys ≡ none)
find-other k y ys e = elim (Bool-cases (eqz y.key k)) [
  | inl same ↦ ground (arith, e, same)
  | inr other ↦ (other, rw other at e)
]

pub find-drop_less : (k : ℤ) (ys : List Item) → find k ys ≡ none → find k (drop_less k ys) ≡ none
find-drop_less k [] e = refl
find-drop_less k (y ∷ ys) e = elim (Bool-cases (ltz y.key k)) [
  | inl less ↦ rw less (find-drop_less k ys (find-other k y ys e).1)
  | inr more ↦ rw more e
]

IsSorted-insert_item :
    (x : Item) (ys : List Item) → IsSorted ys → find x.key ys ≡ none → IsSorted (insert_item x ys)
IsSorted-insert_item x [] sorted e = (tt, tt)
IsSorted-insert_item x (y ∷ ys) (above, sorted) e =
    let (other, e') = find-other x.key y ys e in
    elim (Bool-cases (ltz y.key x.key)) [
      | inl less ↦
          rw less (AllAbove-insert_item y.key x ys less above, IsSorted-insert_item x ys sorted e')
      | inr more ↦
          let l = ltz_total y.key x.key more other in
          rw more ((l, AllAbove-trans x.key y.key ys l above), (above, sorted))
    ]

ApartFrom-insert_item :
    (p : Ptr) (x : Item) (ys : List Item)
    → (p == x.ptr) ≡ false
    → ApartFrom p ys
    → ApartFrom p (insert_item x ys)
ApartFrom-insert_item p x [] ne apart = (ne, tt)
ApartFrom-insert_item p x (y ∷ ys) ne (m, apart) = elim (Bool-cases (ltz y.key x.key)) [
  | inl less ↦ rw less (m, ApartFrom-insert_item p x ys ne apart)
  | inr more ↦ rw more (ne, (m, apart))
]

AllLow-insert_item :
    (x : Item) (ys : List Item) → x.level < num_levels → AllLow ys → AllLow (insert_item x ys)
AllLow-insert_item x [] h low = (h, tt)
AllLow-insert_item x (y ∷ ys) h (l, low) = elim (Bool-cases (ltz y.key x.key)) [
  | inl less ↦ rw less (l, AllLow-insert_item x ys h low)
  | inr more ↦ rw more (h, (l, low))
]

pub Stands-Leads :
    (tower : Ptr → Option Tower) (y : Item) (f : ℕ → Ptr) (rest : List Item)
    → Leads tower y f
    → ((l : ℕ) → l ≤ y.level → f l ≡ next_at l rest)
    → Stands tower y rest
Stands-Leads tower y f rest s same = record {
  here = s.here;
  found = s.found;
  key = s.key;
  value = s.value;
  level = s.level;
  leads = λ l h. s.leads l h ∙ ap link (same l h);
}

-- Behind the place of the new tower nothing has changed.
pub Linked_behind :
    (n : ℕ) (tower : Ptr → Option Tower) (x : Item) (a : ℤ) (ys : List Item)
    → Halfway n tower x ys
    → ltz a x.key ≡ false
    → AllAbove a ys
    → Linked tower ys
Linked_behind n tower x a [] half more above = tt
Linked_behind n tower x a (y ∷ ys) (nn, s, rest) more (l, above) =
    let still = not_ltz_trans a y.key x.key more l in
    (
      nn,
      Stands-Leads tower y (λ i. lead n i x y.key ys) ys s (λ i h. rw still refl),
      Linked_behind n tower x a ys rest more above,
    )

Linked-insert_item :
    (tower : Ptr → Option Tower) (x : Item) (ys : List Item)
    → x.ptr ≢ null
    → Leads tower x (λ l. next_at l (drop_less x.key ys))
    → Halfway (suc x.level) tower x ys
    → IsSorted ys
    → Linked tower (insert_item x ys)
Linked-insert_item tower x [] nn new rest sorted =
    (nn, Stands-Leads tower x (λ l. null) [] new (λ l h. refl), tt)
Linked-insert_item tower x (y ∷ ys) nn new (nn', s, rest) (above, sorted) =
    elim (Bool-cases (ltz y.key x.key)) [
      | inl less ↦ rw less (
        nn',
        Stands-Leads tower y (λ l. lead (suc x.level) l x y.key ys) (insert_item x ys) s
            (λ l h. rw (less, half-insert_item l x ys)),
        Linked-insert_item tower x ys nn (rw less at new) rest sorted,
      )
      | inr more ↦ rw more (
        nn,
        Stands-Leads tower x (λ l. next_at l (drop_less x.key (y ∷ ys))) (y ∷ ys) new
            (λ l h. rw more refl),
        (
          nn',
          Stands-Leads tower y (λ l. lead (suc x.level) l x y.key ys) ys s (λ l h. rw more refl),
          Linked_behind (suc x.level) tower x y.key ys rest more above,
        ),
      )
    ]

pub IsSkipList-Splicing :
    (tower : Ptr → Option Tower) (x : Item) (xs : List Item)
    → Splicing (suc x.level) tower x xs
    → Layout x xs
    → AllLow xs
    → x.level < num_levels
    → find x.key xs ≡ none
    → IsSkipList tower (insert_item x xs)
IsSkipList-Splicing tower x xs s y low lt e = record {
  head = s.leads.here;
  found = s.leads.found;
  level = s.leads.level;
  leads = λ l h. s.leads.leads l (omega arith) ∙ ap link (half-insert_item l x xs);
  links =
      Linked-insert_item tower x xs y.not_null
        (record {
          here = s.new;
          found = s.found;
          key = s.key;
          value = s.value;
          level = s.level;
          leads = λ l h. s.links l (omega arith);
        })
        s.towers y.sorted;
  apart = ApartFrom-insert_item header x xs (ground (arith, y.not_header)) y.header_apart;
  low = AllLow-insert_item x xs lt low;
  sorted = IsSorted-insert_item x xs y.sorted e;
}
