-- ===== src/SkipListBenchmarks/EpochList/Others.antt =====
-- The items of lab4/SkipList.c with one key changed: every other key has what it had.
use distibuted_sys.Base.{
  ℕ, zero, suc, ◌≡◌, inl, inr, refl, arith, false, Bool-cases, some, List, [], ◌∷◌, get_elem?, set,
}
use distibuted_sys.Base.Int.{ℤ, ltz, eqz, eqz→eq}
use distibuted_sys.SkipList.{Ptr}
use distibuted_sys.SkipList.Items.{Item}
use distibuted_sys.SkipList.Lookup.{lookup}
use distibuted_sys.SkipList.Update.Values.{set_value}
use distibuted_sys.SkipList.Insert.Splice.{insert_item}
use distibuted_sys.SkipList.Remove.Uninsert.{remove_item}

pub set-get_elem? :
    (xs : List Ptr) (i p a : ℕ) → get_elem? xs i ≡ some a → get_elem? (set xs i p) i ≡ some p
set-get_elem? [] i p a h = absurd (ground arith)
set-get_elem? (x ∷ xs) zero p a h = refl
set-get_elem? (x ∷ xs) (suc i) p a h = set-get_elem? xs i p a h

pub lookup-insert_other :
    (k : ℤ) (x : Item) (xs : List Item)
    → eqz x.key k ≡ false
    → lookup k (insert_item x xs) ≡ lookup k xs
lookup-insert_other k x [] o = rw o refl
lookup-insert_other k x (y ∷ ys) o = elim (Bool-cases (ltz y.key x.key)) [
  | inl less ↦ rw (less, lookup-insert_other k x ys o) refl
  | inr more ↦ rw (more, o) refl
]

pub lookup-set_other :
    (k j v : ℤ) (xs : List Item) → eqz j k ≡ false → lookup k (set_value j v xs) ≡ lookup k xs
lookup-set_other k j v [] o = refl
lookup-set_other k j v (y ∷ ys) o = elim (Bool-cases (eqz y.key j)) [
  | inl same ↦
      let key : y.key ≡ j = eqz→eq y.key j same in
      let other : eqz y.key k ≡ false = rw key o in rw (same, other) refl
  | inr differ ↦ rw (differ, lookup-set_other k j v ys o) refl
]

pub lookup-remove_other :
    (k j : ℤ) (xs : List Item) → eqz j k ≡ false → lookup k (remove_item j xs) ≡ lookup k xs
lookup-remove_other k j [] o = refl
lookup-remove_other k j (y ∷ ys) o = elim (Bool-cases (eqz y.key j)) [
  | inl same ↦
      let key : y.key ≡ j = eqz→eq y.key j same in
      let other : eqz y.key k ≡ false = rw key o in rw (same, other) refl
  | inr differ ↦ rw (differ, lookup-remove_other k j ys o) refl
]
