-- ===== src/SkipList/Remove/Levels.antt =====
-- A skip list while `skiplist_remove` of lab4/SkipList.c marks a tower and `fill_tables` unlinks it, level
-- by level.
use distibuted_sys.Base.{
  ℕ, suc, ◌≤◌, ◌≡◌, refl, ◌∙◌, true, false, Option, some, List, [], ◌∷◌, inl, inr, arith, ◌==◌,
  Bool-cases, ap, sym, ltb, if◌then◌else◌,
}
use distibuted_sys.Base.Int.{ltz}
use distibuted_sys.SkipList.{Ptr, header, Link, link, mark, Tower, put}
use distibuted_sys.SkipList.Items.{Item, ApartFrom, AllLow, next_at, drop_less, place}
use distibuted_sys.SkipList.Walk.{Linked, IsSkipList}
use distibuted_sys.SkipList.Insert.Splice.{
  insert_item, half, lead, Leads, Halfway, next_at-place_at,
}
use distibuted_sys.SkipList.Insert.Step.{half-suc, half_hidden}
use distibuted_sys.SkipList.Insert.Relink.{
  with_link, Leads-put, place_at-ApartFrom, IsRight, Leads-end, Halfway-link,
}
use distibuted_sys.SkipList.Insert.Linking.{
  Layout, header_item, Halfway-put, pred_at, succ_at, pred_at-new,
}
use distibuted_sys.SkipList.Insert.Finished.{Stands-Leads}

-- What the old tower has at level `l`, when the levels from `j` up are marked.
abbrev pub old_link : ℕ → ℕ → Item → List Item → Link
old_link j l x xs = if ltb l j then link (succ_at l x xs) else mark (link (succ_at l x xs))

-- The levels below `n` lead to the tower of `x`, and those from `j` up are marked in it. What does not
-- belong to the skip list is as in `base`.
pub record Unlinking (n j : ℕ) (base tower : Ptr → Option Tower) (x : Item) (xs : List Item)
    : Type 0 where
  pub head : Tower
  pub leads : Leads tower (header_item head) (λ l. half n l x xs)
  pub towers : Halfway n tower x xs
  pub old : Tower
  pub found : tower x.ptr ≡ some old
  pub key : old.key ≡ x.key
  pub level : old.level ≡ x.level
  pub links : (l : ℕ) → l ≤ x.level → old.forward l ≡ old_link j l x xs
  pub same :
      (a : Ptr) → (a == header) ≡ false → (a == x.ptr) ≡ false → ApartFrom a xs → tower a ≡ base a

-- The old tower is written.
pub Unlinking-put :
    (n i j : ℕ) (base tower : Ptr → Option Tower) (x : Item) (xs : List Item) (t : Tower)
    → Layout x xs
    → t.key ≡ x.key
    → t.level ≡ x.level
    → ((l : ℕ) → l ≤ x.level → t.forward l ≡ old_link j l x xs)
    → Unlinking n i base tower x xs
    → Unlinking n j base (put tower x.ptr (some t)) x xs
Unlinking-put n i j base tower x xs t y key level links s = record {
  head = s.head;
  leads =
      Leads-put tower x.ptr (some t) (header_item s.head) (λ l. half n l x xs) (λ l. half n l x xs)
        y.not_header (λ l h. refl) s.leads;
  towers = Halfway-put n tower x x.ptr (some t) xs y.new_apart s.towers;
  old = t;
  found = let self : (x.ptr == x.ptr) ≡ true = ground arith in rw self refl;
  key = key;
  level = level;
  links = links;
  same = λ a h e out. let ne : (x.ptr == a) ≡ false = ground (arith, e) in rw ne (s.same a h e out);
}

-- One level is unlinked.
pub round-Unlinking :
    (n : ℕ) (base tower : Ptr → Option Tower) (x : Item) (xs : List Item) (t : Tower)
    → Layout x xs
    → n ≤ x.level
    → tower (pred_at n x xs) ≡ some t
    → Unlinking (suc n) 0 base tower x xs
    → Unlinking n 0 base (put tower (pred_at n x xs) (with_link n (succ_at n x xs) t)) x xs
round-Unlinking n base tower x xs t y h at s =
    let others : (l : ℕ) (ys : List Item) → (n == l) ≡ false → half (suc n) l x ys ≡ half n l x ys =
      λ l ys e. sym (half-suc n l x ys e) in
    let hidden : (l : ℕ) (ys : List Item)
        → next_at n (insert_item x ys) ≡ next_at n ys
        → half (suc n) l x ys ≡ half n l x ys =
      λ l ys e. sym (half_hidden n l x ys e) in
    let not_below : ltb n n ≡ false = ground arith in
    let right : (zs : List Item)
        → drop_less x.key zs ≡ drop_less x.key xs
        → IsRight n (suc n) n x (succ_at n x xs) h others hidden zs =
      λ zs e p stays next. rw not_below (
        ap (λ q. next_at n q.behind) (sym stays)
        ∙ next_at-place_at n x.key (place p zs) zs refl
        ∙ ap (λ q. next_at n q) e) in
    let other : (pred_at n x xs == x.ptr) ≡ false = ground (arith, pred_at-new n x xs y h) in
    record {
      head = s.head;
      leads =
          Leads-end n (suc n) n x (succ_at n x xs) h others hidden tower (header_item s.head)
            (pred_at n x xs) t xs (right xs refl) y.header_apart refl at s.leads;
      towers =
          Halfway-link n (suc n) n x (succ_at n x xs) h others hidden tower (place header xs)
            (pred_at n x xs) t xs right s.towers y.sorted y.apart y.header_apart refl at;
      old = s.old;
      found = rw (other, s.found);
      key = s.key;
      level = s.level;
      links = s.links;
      same = λ a e f out.
          let away = place_at-ApartFrom n x (place header xs) a xs h e out in
          let ne : (pred_at n x xs == a) ≡ false = ground (arith, away) in rw ne (s.same a e f out);
    }

-- When no level leads to it, the skip list is that without the tower.
Linked-Halfway_zero :
    (tower : Ptr → Option Tower) (x : Item) (ys : List Item)
    → Halfway 0 tower x ys
    → Linked tower ys
Linked-Halfway_zero tower x [] half = tt
Linked-Halfway_zero tower x (y ∷ ys) (nn, s, rest) = (
  nn,
  Stands-Leads tower y (λ l. lead 0 l x y.key ys) ys s
      (λ l h. elim (Bool-cases (ltz y.key x.key)) [
        | inl less ↦ let none_below : ltb l 0 ≡ false = ground arith in rw (less, none_below) refl
        | inr more ↦ rw more refl
      ]),
  Linked-Halfway_zero tower x ys rest,
)

pub Unlinking-IsSkipList :
    (j : ℕ) (base tower : Ptr → Option Tower) (x : Item) (xs : List Item)
    → Layout x xs
    → AllLow xs
    → Unlinking 0 j base tower x xs
    → IsSkipList tower xs
Unlinking-IsSkipList j base tower x xs y low s = record {
  head = s.leads.here;
  found = s.leads.found;
  level = s.leads.level;
  leads = λ l h.
      let none_below : ltb l 0 ≡ false = ground arith in
      s.leads.leads l (omega arith) ∙ rw none_below refl;
  links = Linked-Halfway_zero tower x xs s.towers;
  apart = y.header_apart;
  low = low;
  sorted = y.sorted;
}
