-- ===== src/SkipList/Remove/Ends.antt =====
-- What `skiplist_remove` of lab4/SkipList.c starts from, and what it leaves.
use distibuted_sys.Base.{
  suc, ◌≡◌, refl, ◌∙◌, true, false, Option, some, List, [], ◌∷◌, inl, inr, arith, ◌==◌, Bool-cases,
  ap, sym, ltb, length,
}
use distibuted_sys.Base.Int.{ltz}
use distibuted_sys.SkipList.{Ptr, header, link, Tower, put}
use distibuted_sys.SkipList.Items.{Item, ApartFrom, AllLow}
use distibuted_sys.SkipList.Walk.{IsSkipList}
use distibuted_sys.SkipList.Insert.Splice.{insert_item}
use distibuted_sys.SkipList.Insert.Linking.{Layout}
use distibuted_sys.SkipList.Insert.Joined.{half-insert_item, Linked-AllApart}
use distibuted_sys.SkipList.Remove.Uninsert.{
  IsSorted-uninsert, ApartFrom-uninsert, AllApart-uninsert, Linked-uninsert,
}
use distibuted_sys.SkipList.Remove.Levels.{Unlinking, Unlinking-put, Unlinking-IsSkipList}

pub insert_item-Layout :
    (tower : Ptr → Option Tower) (x : Item) (xs : List Item)
    → IsSkipList tower (insert_item x xs)
    → Layout x xs
insert_item-Layout tower x xs s =
    let sorted = IsSorted-uninsert x xs s.sorted in
    let (nn, _, _) = Linked-uninsert tower x xs s.links sorted in
    let (ne, header_apart) = ApartFrom-uninsert header x xs s.apart in
    let (new_apart, apart) =
      AllApart-uninsert x xs (Linked-AllApart tower (insert_item x xs) s.links s.sorted) in
    record {
      not_null = nn;
      not_header = ground (arith, ne);
      new_apart = new_apart;
      header_apart = header_apart;
      apart = apart;
      sorted = sorted;
    }

pub insert_item-Unlinking :
    (tower : Ptr → Option Tower) (x : Item) (xs : List Item)
    → IsSkipList tower (insert_item x xs)
    → Unlinking (suc x.level) (suc x.level) tower tower x xs
insert_item-Unlinking tower x xs s =
    let (_, stands, half) = Linked-uninsert tower x xs s.links (IsSorted-uninsert x xs s.sorted) in
    record {
      head = s.head;
      leads = record {
        here = s.head;
        found = s.found;
        key = refl;
        value = refl;
        level = s.level;
        leads = λ l h. s.leads l (omega arith) ∙ ap link (sym (half-insert_item l x xs));
      };
      towers = half;
      old = stands.here;
      found = stands.found;
      key = stands.key;
      level = stands.level;
      links = λ l h.
          let below : ltb l (suc x.level) ≡ true = ground arith in stands.leads l h ∙ rw below refl;
      same = λ a _ _ _. refl;
    }

pub length-insert_item : (x : Item) (xs : List Item) → length (insert_item x xs) ≡ suc (length xs)
length-insert_item x [] = refl
length-insert_item x (y ∷ ys) = elim (Bool-cases (ltz y.key x.key)) [
  | inl less ↦ rw less (ap suc (length-insert_item x ys))
  | inr more ↦ rw more refl
]

-- What a removal leaves: the skip list `xs`, with the tower of `x` in front of the reclamation list
-- that began at `r`, and all else as it was.
pub record Removed (before after : Ptr → Option Tower) (x : Item) (xs : List Item) (r : Ptr)
    : Type 0 where
  pub list : IsSkipList after xs
  pub old : Tower
  pub found : after x.ptr ≡ some old
  pub reclaim_next : old.reclaim_next ≡ r
  pub same :
      (a : Ptr) → (a == header) ≡ false → (a == x.ptr) ≡ false → ApartFrom a xs → after a ≡ before a

pub Unlinking-Removed :
    (before tower : Ptr → Option Tower) (x : Item) (xs : List Item) (r : Ptr)
    (u : Unlinking 0 0 before tower x xs)
    → Layout x xs
    → AllLow xs
    → Removed before (put tower x.ptr (some (record u.old { reclaim_next = r }))) x xs r
Unlinking-Removed before tower x xs r u y lows =
    let old = record u.old { reclaim_next = r } in
    let u' = Unlinking-put 0 0 0 before tower x xs old y u.key u.level u.links u in
    record {
      list = Unlinking-IsSkipList 0 before (put tower x.ptr (some old)) x xs y lows u';
      old = old;
      found = let self : (x.ptr == x.ptr) ≡ true = ground arith in rw self refl;
      reclaim_next = refl;
      same = u'.same;
    }
