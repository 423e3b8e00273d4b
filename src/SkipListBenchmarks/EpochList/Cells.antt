-- ===== src/SkipListBenchmarks/EpochList/Cells.antt =====
-- lab4/SkipList.c: which cells of the local epochs the threads get, where `malloc` leaves zeros in
-- those behind the four that `skiplist_init` sets.
use distibuted_sys.Base.{
  ℕ, suc, zero, ◌≡◌, ◌⊎◌, ap, subst, set, inl, inr, refl, ◌∙◌, none, some, List, [], ◌∷◌, get_elem?,
}
use distibuted_sys.Base.Int.{ℤ, pos, minus_one}
use distibuted_sys.SkipList.{Memory, done}
use distibuted_sys.SkipList.Epoch.{claim_cell, epoch_init, enter_epoch}
use distibuted_sys.SkipList.Lookup.{enter_epoch-HasCell}

abbrev pub row : ℤ → ℤ → List ℤ → List ℤ
row a b rest = a ∷ minus_one ∷ b ∷ minus_one ∷ pos 0 ∷ pos 0 ∷ rest

-- No thread has a cell; the first is taken; the first and the third are taken. The second stays -1
-- for ever.
abbrev pub IsRow : List ℤ → Type 0
IsRow epochs =
    (rest : List ℤ) × ((epochs ≡ row minus_one minus_one rest)
      ⊎ ((epochs ≡ row (pos 0) minus_one rest) ⊎ (epochs ≡ row (pos 0) (pos 0) rest)))

pub IsRow-second : (epochs : List ℤ) → IsRow epochs → get_elem? epochs 1 ≡ some minus_one
IsRow-second epochs (rest, inl e) = rw e refl
IsRow-second epochs (rest, inr (inl e)) = rw e refl
IsRow-second epochs (rest, inr (inr e)) = rw e refl

-- What the first access of a thread to the skip list comes to.
pub record Entered (setspecific : ℤ) (m : Memory) : Type 0 where
  pub cell : ℕ
  pub epochs : List ℤ
  pub runs :
      enter_epoch setspecific m
      ≡ done (pos 0) (record m { local_epochs = epochs; local_epoch = some cell })
  pub holds : get_elem? epochs cell ≡ some (pos 0)
  pub is_row : IsRow epochs
  pub kept : (c : ℕ) → get_elem? m.local_epochs c ≡ some (pos 0) → get_elem? epochs c ≡ some (pos 0)

set_kept :
    (xs : List ℤ) (i c : ℕ) (a : ℤ) → get_elem? xs c ≡ some a → get_elem? (set xs i a) c ≡ some a
set_kept [] i c a h = h
set_kept (x ∷ xs) zero zero a h = refl
set_kept (x ∷ xs) zero (suc c) a h = h
set_kept (x ∷ xs) (suc i) zero a h = h
set_kept (x ∷ xs) (suc i) (suc c) a h = set_kept xs i c a h

-- A thread that has its cell, and one that gets a new one.
pub enters-old :
    (m : Memory) (c : ℕ)
    → IsRow m.local_epochs
    → m.local_epoch ≡ some c
    → get_elem? m.local_epochs c ≡ some (pos 0)
    → Entered (pos 0) m
enters-old m c r mine at = record {
  cell = c;
  epochs = m.local_epochs;
  runs =
      enter_epoch-HasCell (pos 0) m c (pos 0) (record { mine = mine; holds = at })
      ∙ ap (λ l. done (pos 0) (record m { local_epoch = l })) mine;
  holds = at;
  is_row = r;
  kept = λ c e. e;
}

pub enters-new :
    (m : Memory)
    → IsRow m.local_epochs
    → m.local_epoch ≡ none
    → m.global_epoch ≡ pos 0
    → Entered (pos 0) m
unfolding enter_epoch epoch_init claim_cell
enters-new m (rest, inl e) mine g = record {
  cell = 0;
  epochs = row (pos 0) minus_one rest;
  runs = rw (mine, e, g) refl;
  holds = refl;
  is_row = (rest, inr (inl refl));
  kept = λ c h.
      set_kept (row minus_one minus_one rest) 0 c (pos 0)
        (subst (λ q. get_elem? q c ≡ some (pos 0)) e h);
}
enters-new m (rest, inr (inl e)) mine g = record {
  cell = 2;
  epochs = row (pos 0) (pos 0) rest;
  runs = rw (mine, e, g) refl;
  holds = refl;
  is_row = (rest, inr (inr refl));
  kept = λ c h.
      set_kept (row (pos 0) minus_one rest) 2 c (pos 0)
        (subst (λ q. get_elem? q c ≡ some (pos 0)) e h);
}
enters-new m (rest, inr (inr e)) mine g = record {
  cell = 5;
  epochs = row (pos 0) (pos 0) rest;
  runs = rw (mine, e, g) refl;
  holds = refl;
  is_row = (rest, inr (inr refl));
  kept = λ c h. subst (λ q. get_elem? q c ≡ some (pos 0)) e h;
}
