-- ===== src/SkipList/Insert/Relink.antt =====
-- A tower gets another link at one level, seen from the towers of the skip list: `skiplist_insert` of
-- lab4/SkipList.c so links a new tower, and `fill_tables` unlinks a marked one.
use distibuted_sys.Base.{
  ℕ, ◌≤◌, ◌≡◌, refl, ◌∙◌, true, false, Option, some, List, [], ◌∷◌, inl, inr, arith, ◌==◌, leb,
  Bool-cases, ap, sym, subst,
}
use distibuted_sys.Base.Int.{ℤ, ltz, not_ltz_trans}
use distibuted_sys.SkipList.{Ptr, link, Tower, put, set_forward}
use distibuted_sys.SkipList.Items.{
  Item, ApartFrom, AllAbove, drop_less, next_at, Place, place, place_at, IsSorted,
}
use distibuted_sys.SkipList.Insert.Splice.{insert_item, place_at-EndsAt, half, lead, Leads, Halfway}

-- The tower with the link `q` at level `n`.
abbrev pub with_link : ℕ → Ptr → Tower → Option Tower
with_link n q t = some (record t { forward = set_forward t.forward n (link q) })

pub Leads-put :
    (tower : Ptr → Option Tower) (p : Ptr) (o : Option Tower) (y : Item) (f g : ℕ → Ptr)
    → (p == y.ptr) ≡ false
    → ((l : ℕ) → l ≤ y.level → f l ≡ g l)
    → Leads tower y f
    → Leads (put tower p o) y g
Leads-put tower p o y f g ne same s = record {
  here = s.here;
  found = rw (ne, s.found);
  key = s.key;
  value = s.value;
  level = s.level;
  leads = λ l h. s.leads l h ∙ ap link (same l h);
}

-- The search ends nowhere else than at its start or in `ys`.
pub place_at-ApartFrom :
    (n : ℕ) (x : Item) (p : Place) (q : Ptr) (ys : List Item)
    → n ≤ x.level
    → (q == p.at) ≡ false
    → ApartFrom q ys
    → (q == (place_at n x.key p ys).at) ≡ false
place_at-ApartFrom n x p q ys h ne apart = elim (place_at-EndsAt n x p ys h) [
  | inl (stays, next) ↦ rw stays ne
  | inr (hidden, among) ↦ among q apart
]

-- Each tower has another address than all behind it.
abbrev pub AllApart : List Item → Type 0
AllApart [] = Unit
AllApart (y ∷ ys) = ApartFrom y.ptr ys × AllApart ys

-- Behind a key that is not below that of `x` the links are the same, whatever is done of `x`.
Halfway-above :
    (a b : ℕ) (tower : Ptr → Option Tower) (x : Item) (p : Ptr) (o : Option Tower) (c : ℤ)
    (ys : List Item)
    → ltz c x.key ≡ false
    → AllAbove c ys
    → ApartFrom p ys
    → Halfway a tower x ys
    → Halfway b (put tower p o) x ys
Halfway-above a b tower x p o c [] more above apart rest = tt
Halfway-above a b tower x p o c (y ∷ ys) more (l, above) (ne, apart) (nn, s, rest) =
    let still = not_ltz_trans c y.key x.key more l in
    (
      nn,
      Leads-put tower p o y (λ i. lead a i x y.key ys) (λ i. lead b i x y.key ys) ne
          (λ i h. rw still refl) s,
      Halfway-above a b tower x p o c ys more above apart rest,
    )

-- At level `n` the tower where the search ends gets the link `q`. With it the levels below `b` lead to
-- `x`, where before it the levels below `a` did; `a` and `b` agree on all levels but `n`.
module _ (n a b : ℕ) (x : Item) (q : Ptr) (h : n ≤ x.level)
    (others : (l : ℕ) (ys : List Item) → (n == l) ≡ false → half a l x ys ≡ half b l x ys)
    (hidden : (l : ℕ) (ys : List Item)
      → next_at n (insert_item x ys) ≡ next_at n ys
      → half a l x ys ≡ half b l x ys) where
  -- The link is right for a tower at which the search ends, before `ys`.
  abbrev pub IsRight : List Item → Type 0
  IsRight ys =
      (p : Ptr)
      → place_at n x.key (place p ys) ys ≡ place p ys
      → next_at n (insert_item x ys) ≡ x.ptr
      → half b n x ys ≡ q

  Leads-link :
      (tower : Ptr → Option Tower) (y : Item) (pred : Ptr) (t : Tower) (ys : List Item)
      → pred ≡ y.ptr
      → half b n x ys ≡ q
      → tower pred ≡ some t
      → Leads tower y (λ l. half a l x ys)
      → Leads (put tower pred (with_link n q t)) y (λ l. half b l x ys)
  Leads-link tower y pred t ys mine right at s =
      let self : (pred == y.ptr) ≡ true = ground arith in
      let e : s.here ≡ t = ground (arith, s.found, at, mine) in
      record {
        here = record t { forward = set_forward t.forward n (link q) };
        found = rw self refl;
        key = sym (ap (λ r. r.key) e) ∙ s.key;
        value = sym (ap (λ r. r.value) e) ∙ s.value;
        level = sym (ap (λ r. r.level) e) ∙ s.level;
        leads = λ l i. elim (Bool-cases (n == l)) [
          | inl same ↦
              let f : n ≡ l = ground arith in
              rw same (ap link (sym right ∙ ap (λ j. half b j x ys) f))
          | inr other ↦
              rw other (sym (ap (λ r. r.forward l) e) ∙ s.leads l i ∙ ap link (others l ys other))
        ];
      }

  -- Of a tower with `ys` behind it: it gets the link if the search ends there, and else needs none.
  pub Leads-end :
      (tower : Ptr → Option Tower) (y : Item) (pred : Ptr) (t : Tower) (ys : List Item)
      → IsRight ys
      → ApartFrom y.ptr ys
      → pred ≡ (place_at n x.key (place y.ptr ys) ys).at
      → tower pred ≡ some t
      → Leads tower y (λ l. half a l x ys)
      → Leads (put tower pred (with_link n q t)) y (λ l. half b l x ys)
  Leads-end tower y pred t ys right apart e at s =
      elim (place_at-EndsAt n x (place y.ptr ys) ys h) [
        | inl (stays, next) ↦
            Leads-link tower y pred t ys (e ∙ ap (λ r. r.at) stays) (right y.ptr stays next) at s
        | inr (hides, among) ↦
            Leads-put tower pred (with_link n q t) y (λ l. half a l x ys) (λ l. half b l x ys)
              (ground (arith, e, among y.ptr apart)) (λ l i. hidden l ys hides) s
      ]

  pub Halfway-link :
      (tower : Ptr → Option Tower) (p : Place) (pred : Ptr) (t : Tower) (ys : List Item)
      → ((zs : List Item) → drop_less x.key zs ≡ drop_less x.key ys → IsRight zs)
      → Halfway a tower x ys
      → IsSorted ys
      → AllApart ys
      → ApartFrom p.at ys
      → pred ≡ (place_at n x.key p ys).at
      → tower pred ≡ some t
      → Halfway b (put tower pred (with_link n q t)) x ys
  Halfway-link tower p pred t [] right rest sorted apart ap_p e at = tt
  Halfway-link tower p pred t (y ∷ ys) right (nn, s, rest) (above, sorted) (aparty, apart)
        (ne, ap_p) e at =
      elim (Bool-cases (ltz y.key x.key)) [
        | inl less ↦
            let s' : Leads tower y (λ l. half a l x ys) = rw less at s in
            let right' : (zs : List Item) → drop_less x.key zs ≡ drop_less x.key ys → IsRight zs =
              λ zs i. right zs (rw less i) in
            elim (Bool-cases (leb n y.level)) [
              | inl high ↦
                  let e' : pred ≡ (place_at n x.key (place y.ptr ys) ys).at =
                    rw (less, high) at e in
                  (
                    nn,
                    rw less (Leads-end tower y pred t ys (right' ys refl) aparty e' at s'),
                    Halfway-link tower (place y.ptr ys) pred t ys right' rest sorted apart aparty e'
                        at,
                  )
              | inr low ↦
                  let e' : pred ≡ (place_at n x.key p ys).at = rw (less, low) at e in
                  let ne' : (y.ptr == p.at) ≡ false = ground (arith, ne) in
                  let other : (pred == y.ptr) ≡ false =
                    ground (arith, e', place_at-ApartFrom n x p y.ptr ys h ne' aparty) in
                  (
                    nn,
                    rw less (
                        Leads-put tower pred (with_link n q t) y (λ l. half a l x ys)
                          (λ l. half b l x ys) other (λ l i. others l ys (ground arith)) s'),
                    Halfway-link tower p pred t ys right' rest sorted apart ap_p e' at,
                  )
            ]
        | inr more ↦
            let e0 : pred ≡ p.at = rw more at e in
            let other : (pred == y.ptr) ≡ false = ground (arith, e0, ne) in
            let ap_pred : ApartFrom pred ys = subst (λ r. ApartFrom r ys) (sym e0) ap_p in
            (
              nn,
              Leads-put tower pred (with_link n q t) y (λ l. lead a l x y.key ys)
                  (λ l. lead b l x y.key ys) other (λ l i. rw more refl) s,
              Halfway-above a b tower x pred (with_link n q t) y.key ys more above ap_pred rest,
            )
      ]
