-- ===== src/SkipList/Reclaim.antt =====
-- When `reclaim_nodes` of lab4/SkipList.c frees removed towers, and which.
use distibuted_sys.Base.{
  ℕ, zero, suc, ◌<◌, ◌≡◌, refl, true, false, Option, none, some, List, [], ◌∷◌, inl, inr, arith,
  ◌==◌, Bool-cases, length, get_elem?, set,
}
use distibuted_sys.Base.Int.{ℤ, eqz, eqz_refl}
use distibuted_sys.SkipList.{Ptr, null, Tower, Memory, done, put}
use distibuted_sys.SkipList.Epoch.{next_epoch, all_equal, free_list, reclaim_epoch, reclaim_nodes}

all_equal-false :
    (g e : ℤ) (epochs : List ℤ) (i : ℕ)
    → get_elem? epochs i ≡ some e
    → eqz e g ≡ false
    → all_equal g epochs ≡ false
unfolding all_equal
all_equal-false g e [] i at ne = ground arith
all_equal-false g e (x ∷ xs) zero at ne = ground arith
all_equal-false g e (x ∷ xs) (suc i) at ne = ground (arith, all_equal-false g e xs i at ne)

-- While one cell holds another epoch than the global one, a free cell as well, reclaim_nodes frees
-- nothing and changes nothing.
pub reclaim_nodes-behind :
    (m : Memory) (fuel i : ℕ) (e : ℤ)
    → get_elem? m.local_epochs i ≡ some e
    → eqz e m.global_epoch ≡ false
    → reclaim_nodes fuel m ≡ done tt m
unfolding reclaim_nodes
reclaim_nodes-behind m fuel i e at ne = elim (Bool-cases m.reclaim_lock) [
  | inl locked ↦ ground arith
  | inr unlocked ↦ ground (arith, all_equal-false m.global_epoch e m.local_epochs i at ne)
]

-- The towers `ps` are allocated, and `p` leads through them by `reclaim_next`, each once.
abbrev pub Others : Ptr → List Ptr → Type 0
Others p [] = Unit
Others p (q ∷ qs) = ((p == q) ≡ false) × Others p qs

abbrev pub Chained : (Ptr → Option Tower) → Ptr → List Ptr → Type 0
Chained tower p [] = p ≡ null
Chained tower p (q ∷ qs) =
    (p ≡ q)
    × ((q == null) ≡ false)
    × Others q qs
    × (t : Tower) × (tower q ≡ some t)
    × Chained tower t.reclaim_next qs

abbrev pub free_all : List Ptr → (Ptr → Option Tower) → Ptr → Option Tower
free_all [] tower = tower
free_all (q ∷ qs) tower = free_all qs (put tower q none)

Chained-put :
    (tower : Ptr → Option Tower) (r p : Ptr) (ps : List Ptr)
    → Others r ps
    → Chained tower p ps
    → Chained (put tower r none) p ps
Chained-put tower r p [] other c = c
Chained-put tower r p (q ∷ qs) (ne, other) (e, nn, once, t, found, c) =
    (e, nn, once, t, rw (ne, found), Chained-put tower r t.reclaim_next qs other c)

free_list-Chained :
    (fuel : ℕ) (p : Ptr) (ps : List Ptr) (m : Memory)
    → Chained m.tower p ps
    → length ps < fuel
    → free_list fuel p m ≡ done tt (record m { tower = free_all ps m.tower })
unfolding free_list
free_list-Chained zero p ps m c h = absurd (omega arith)
free_list-Chained (suc fuel) p [] m c h = ground (arith, c)
free_list-Chained (suc fuel) p (q ∷ qs) m (e, nn, once, t, found, c) h =
    let rest =
      free_list-Chained fuel t.reclaim_next qs (record m { tower = put m.tower q none })
        (Chained-put m.tower q t.reclaim_next qs once c) (omega arith) in
    ground (arith, e, nn, found, rest)

all_equal-true :
    (g : ℤ) (epochs : List ℤ)
    → ((i : ℕ) (e : ℤ) → get_elem? epochs i ≡ some e → e ≡ g)
    → all_equal g epochs ≡ true
unfolding all_equal
all_equal-true g [] h = refl
all_equal-true g (e ∷ epochs) h =
    let same : eqz e g ≡ true = rw (h 0 e refl) (eqz_refl g) in
    rw same (all_equal-true g epochs (λ i. h (suc i)))

-- Once every cell holds the global epoch, reclaim_nodes frees the towers of the list that is two
-- epochs behind, each once and no other, empties that list and moves the global epoch on.
pub reclaim_nodes-Chained :
    (m : Memory) (fuel : ℕ) (p : Ptr) (ps : List Ptr)
    → m.reclaim_lock ≡ false
    → ((i : ℕ) (e : ℤ) → get_elem? m.local_epochs i ≡ some e → e ≡ m.global_epoch)
    → get_elem? m.reclaim_lists (reclaim_epoch m.global_epoch) ≡ some p
    → Chained m.tower p ps
    → length ps < fuel
    → reclaim_nodes fuel m
      ≡ done tt (record m {
        tower = free_all ps m.tower;
        reclaim_lists = set m.reclaim_lists (reclaim_epoch m.global_epoch) null;
        global_epoch = next_epoch m.global_epoch;
      })
unfolding reclaim_nodes
reclaim_nodes-Chained m fuel p ps unlocked same at c h =
    let n = record m {
      reclaim_lock = true;
      reclaim_lists = set m.reclaim_lists (reclaim_epoch m.global_epoch) null;
    } in
    ground (
      arith,
      unlocked,
      at,
      all_equal-true m.global_epoch m.local_epochs same,
      free_list-Chained fuel p ps n c h,
    )
