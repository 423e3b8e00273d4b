-- ===== src/SkipList/Insert/Joined.antt =====
-- The skip list of lab4/SkipList.c before the first level of a new tower is linked, and after the last.
use distibuted_sys.Base.{
  ℕ, suc, ◌<◌, ◌≡◌, ◌≢◌, refl, ◌∙◌, true, false, Option, none, some, List, [], ◌∷◌, inl, inr, arith,
  ◌==◌, leb, ltb, Bool-cases, ap,
}
use distibuted_sys.Base.Int.{ltz}
use distibuted_sys.SkipList.{Ptr, null, header, link, Tower, put}
use distibuted_sys.SkipList.Items.{Item, ApartFrom, next_at, IsSorted}
use distibuted_sys.SkipList.Walk.{Linked, IsSkipList}
use distibuted_sys.SkipList.Apart.{AllAbove-ApartFrom, Linked-put}
use distibuted_sys.SkipList.Insert.Splice.{insert_item, half, Halfway}
use distibuted_sys.SkipList.Insert.Relink.{AllApart}
use distibuted_sys.SkipList.Insert.Linking.{Layout, Splicing}

free-ApartFrom :
    (tower : Ptr → Option Tower) (p : Ptr) (ys : List Item)
    → tower p ≡ none
    → Linked tower ys
    → ApartFrom p ys
free-ApartFrom tower p [] free links = tt
free-ApartFrom tower p (y ∷ ys) free (nn, s, links) = (
  elim (Bool-cases (p == y.ptr)) [
    | inl same ↦ let e : p ≡ y.ptr = ground arith in ground (arith, e, free, s.found)
    | inr other ↦ other
  ],
  free-ApartFrom tower p ys free links,
)

pub Linked-AllApart :
    (tower : Ptr → Option Tower) (ys : List Item) → Linked tower ys → IsSorted ys → AllApart ys
Linked-AllApart tower [] links sorted = tt
Linked-AllApart tower (y ∷ ys) (nn, s, links) (above, sorted) =
    (AllAbove-ApartFrom tower y ys ys s links above, Linked-AllApart tower ys links sorted)

pub IsSkipList-Layout :
    (tower : Ptr → Option Tower) (x : Item) (xs : List Item)
    → IsSkipList tower xs
    → x.ptr ≢ null
    → tower x.ptr ≡ none
    → Layout x xs
IsSkipList-Layout tower x xs s nn free = record {
  not_null = nn;
  not_header = elim (Bool-cases (x.ptr == header)) [
    | inl same ↦ let e : x.ptr ≡ header = ground arith in ground (arith, e, free, s.found)
    | inr other ↦ other
  ];
  new_apart = free-ApartFrom tower x.ptr xs free s.links;
  header_apart = s.apart;
  apart = Linked-AllApart tower xs s.links s.sorted;
  sorted = s.sorted;
}

half_zero : (l : ℕ) (x : Item) (ys : List Item) → next_at l ys ≡ half 0 l x ys
half_zero l x ys = let none_below : ltb l 0 ≡ false = ground arith in rw none_below refl

Linked-Halfway :
    (tower : Ptr → Option Tower) (x : Item) (ys : List Item)
    → Linked tower ys
    → Halfway 0 tower x ys
Linked-Halfway tower x [] links = tt
Linked-Halfway tower x (y ∷ ys) (nn, s, links) = (
  nn,
  record {
    here = s.here;
    found = s.found;
    key = s.key;
    value = s.value;
    level = s.level;
    leads = λ l h. elim (Bool-cases (ltz y.key x.key)) [
      | inl less ↦ rw less (s.leads l h ∙ ap link (half_zero l x ys))
      | inr more ↦ rw more (s.leads l h)
    ];
  },
  Linked-Halfway tower x ys links,
)

pub Splicing-zero :
    (tower : Ptr → Option Tower) (x : Item) (xs : List Item) (new : Tower)
    → IsSkipList tower xs
    → Layout x xs
    → new.key ≡ x.key
    → new.value ≡ x.value
    → new.level ≡ x.level
    → Splicing 0 (put tower x.ptr (some new)) x xs
Splicing-zero tower x xs new s y key value level = record {
  head = s.head;
  leads = record {
    here = s.head;
    found = rw (y.not_header, s.found);
    key = refl;
    value = refl;
    level = s.level;
    leads = λ l h. s.leads l (omega arith) ∙ ap link (half_zero l x xs);
  };
  towers =
      Linked-Halfway (put tower x.ptr (some new)) x xs
        (Linked-put tower x.ptr (some new) xs y.new_apart s.links);
  new = new;
  found = let self : (x.ptr == x.ptr) ≡ true = ground arith in rw self refl;
  key = key;
  value = value;
  level = level;
  links = λ l h. absurd (omega arith);
}

next_at-insert_item :
    (l : ℕ) (x : Item) (ys : List Item) → x.level < l → next_at l ys ≡ next_at l (insert_item x ys)
next_at-insert_item l x [] h = let short : leb l x.level ≡ false = ground arith in rw short refl
next_at-insert_item l x (y ∷ ys) h =
    let short : leb l x.level ≡ false = ground arith in
    elim (Bool-cases (ltz y.key x.key)) [
      | inl less ↦ rw (less, next_at-insert_item l x ys h) refl
      | inr more ↦ rw (more, short) refl
    ]

pub half-insert_item :
    (l : ℕ) (x : Item) (ys : List Item) → half (suc x.level) l x ys ≡ next_at l (insert_item x ys)
half-insert_item l x ys = elim (Bool-cases (ltb l (suc x.level))) [
  | inl below ↦ rw below refl
  | inr above ↦ rw above (next_at-insert_item l x ys (ground arith))
]
