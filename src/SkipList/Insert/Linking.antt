-- ===== src/SkipList/Insert/Linking.antt =====
-- The loop of `skiplist_insert` of lab4/SkipList.c that links the new tower at each of its levels.
use distibuted_sys.Base.{
  ℕ, suc, ◌-◌, ◌≤◌, ◌<◌, ◌≡◌, ◌≢◌, refl, ◌∙◌, true, false, Option, some, List, [], ◌∷◌, inl, inr,
  arith, ◌==◌, ltb, Bool-cases, ap,
}
use distibuted_sys.SkipList.{num_levels, Ptr, null, header, link, Tower, put, set_forward}
use distibuted_sys.SkipList.Items.{Item, ApartFrom, next_at, drop_less, place, place_at, IsSorted}
use distibuted_sys.SkipList.Insert.Splice.{half, lead, Leads, Halfway, next_at-place_at}
use distibuted_sys.SkipList.Insert.Step.{half-suc, half_hidden, place_at-Stop}
use distibuted_sys.SkipList.Insert.Relink.{
  with_link, Leads-put, place_at-ApartFrom, AllApart, Leads-end, Halfway-link,
}

-- The addresses of the new tower, the header and the towers `xs` are different.
pub record Layout (x : Item) (xs : List Item) : Type 0 where
  pub not_null : x.ptr ≢ null
  pub not_header : (x.ptr == header) ≡ false
  pub new_apart : ApartFrom x.ptr xs
  pub header_apart : ApartFrom header xs
  pub apart : AllApart xs
  pub sorted : IsSorted xs

abbrev pub header_item : Tower → Item
header_item t = record { ptr = header; key = t.key; value = t.value; level = num_levels - 1 }

-- The new tower is linked at the levels below `n`.
pub record Splicing (n : ℕ) (tower : Ptr → Option Tower) (x : Item) (xs : List Item) : Type 0 where
  pub head : Tower
  pub leads : Leads tower (header_item head) (λ l. half n l x xs)
  pub towers : Halfway n tower x xs
  pub new : Tower
  pub found : tower x.ptr ≡ some new
  pub key : new.key ≡ x.key
  pub value : new.value ≡ x.value
  pub level : new.level ≡ x.level
  pub links : (l : ℕ) → l < n → new.forward l ≡ link (next_at l (drop_less x.key xs))

pub Halfway-put :
    (n : ℕ) (tower : Ptr → Option Tower) (x : Item) (p : Ptr) (o : Option Tower) (ys : List Item)
    → ApartFrom p ys
    → Halfway n tower x ys
    → Halfway n (put tower p o) x ys
Halfway-put n tower x p o [] apart rest = tt
Halfway-put n tower x p o (y ∷ ys) (ne, apart) (nn, s, rest) = (
  nn,
  Leads-put tower p o y (λ l. lead n l x y.key ys) (λ l. lead n l x y.key ys) ne (λ l a. refl) s,
  Halfway-put n tower x p o ys apart rest,
)

-- Where the link of level `n` goes.
abbrev pub pred_at : ℕ → Item → List Item → Ptr
pred_at n x xs = (place_at n x.key (place header xs) xs).at

abbrev pub succ_at : ℕ → Item → List Item → Ptr
succ_at n x xs = next_at n (drop_less x.key xs)

pub pred_at-new :
    (n : ℕ) (x : Item) (xs : List Item)
    → Layout x xs
    → n ≤ x.level
    → (x.ptr == pred_at n x xs) ≡ false
pred_at-new n x xs y h =
    place_at-ApartFrom n x (place header xs) x.ptr xs h y.not_header y.new_apart

-- What is at that address: it leads to the tower that comes behind the new one.
pub pred_at-Ends :
    (n : ℕ) (tower : Ptr → Option Tower) (x : Item) (xs : List Item)
    → Splicing n tower x xs
    → n < num_levels
    → (t : Tower) × (tower (pred_at n x xs) ≡ some t)
      × (n ≤ t.level)
      × (t.forward n ≡ link (succ_at n x xs))
pred_at-Ends n tower x xs s h =
    let before : ltb n n ≡ false = ground arith in
    let stop = place_at-Stop n n tower x (place header xs) xs s.towers (record {
      here = s.leads.here;
      found = s.leads.found;
      tall = ground (arith, s.leads.level);
      leads = λ l i. s.leads.leads l (omega arith);
    }) in
    (
      stop.here,
      stop.found,
      stop.tall,
      stop.leads n (omega arith)
          ∙ rw before (ap link (next_at-place_at n x.key (place header xs) xs refl)),
    )

-- The memory after a round: the new tower has its link, and then its predecessor.
abbrev pub after_round :
    ℕ → (Ptr → Option Tower) → Item → List Item → (new pred : Tower) → Ptr → Option Tower
after_round n tower x xs new pred =
    put
      (put tower x.ptr
        (some (record new { forward = set_forward new.forward n (link (succ_at n x xs)) })))
      (pred_at n x xs) (with_link n x.ptr pred)

pub round-Splicing :
    (n : ℕ) (tower : Ptr → Option Tower) (x : Item) (xs : List Item) (s : Splicing n tower x xs)
    (t : Tower)
    → Layout x xs
    → n ≤ x.level
    → tower (pred_at n x xs) ≡ some t
    → Splicing (suc n) (after_round n tower x xs s.new t) x xs
round-Splicing n tower x xs s t y h at =
    let linked =
      some (record s.new { forward = set_forward s.new.forward n (link (succ_at n x xs)) }) in
    let tower1 = put tower x.ptr linked in
    let ne = pred_at-new n x xs y h in
    let at1 : tower1 (pred_at n x xs) ≡ some t = rw (ne, at) in
    let head1 =
      Leads-put tower x.ptr linked (header_item s.head) (λ l. half n l x xs) (λ l. half n l x xs)
        y.not_header (λ l a. refl) s.leads in
    let ne' : (pred_at n x xs == x.ptr) ≡ false = ground (arith, ne) in
    let self : (x.ptr == x.ptr) ≡ true = ground arith in
    let others = λ (l : ℕ) (ys : List Item). half-suc n l x ys in
    let hidden = λ (l : ℕ) (ys : List Item). half_hidden n l x ys in
    let now : ltb n (suc n) ≡ true = ground arith in
    record {
      head = s.head;
      leads =
          Leads-end n n (suc n) x x.ptr h others hidden tower1 (header_item s.head) (pred_at n x xs)
            t xs (λ p stays next. rw now next) y.header_apart refl at1 head1;
      towers =
          Halfway-link n n (suc n) x x.ptr h others hidden tower1 (place header xs) (pred_at n x xs)
            t xs (λ zs i p stays next. rw now next)
            (Halfway-put n tower x x.ptr linked xs y.new_apart s.towers) y.sorted y.apart
            y.header_apart refl at1;
      new = record s.new { forward = set_forward s.new.forward n (link (succ_at n x xs)) };
      found = rw (ne', self) refl;
      key = s.key;
      value = s.value;
      level = s.level;
      links = λ l a. elim (Bool-cases (n == l)) [
        | inl same ↦ let e : n ≡ l = ground arith in rw same (ap (λ i. link (succ_at i x xs)) e)
        | inr other ↦ rw other (s.links l (ground arith))
      ];
    }
