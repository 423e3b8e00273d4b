-- ===== src/SkipList/Cells.antt =====
-- The cells of the local epochs in lab4/SkipList.c, and when removed towers are freed.
use distibuted_sys.Base.{
  ℕ, zero, suc, ◌+◌, ◌-◌, ◌/◌, ltb, ◌≤◌, ◌<◌, ◌≡◌, ◌≢◌, refl, ap, ◌∙◌, Bool, true, false, Option,
  none, some, List, [], ◌∷◌, inl, inr, arith, Bool-cases, length, get_elem?, set,
}
use distibuted_sys.Base.Int.{ℤ, minus_one, eqz, eqz_refl}
use distibuted_sys.SkipList.{num_levels, Ptr, null, no_threads, Memory, Outcome, done, crash}
use distibuted_sys.SkipList.Search.{generate_level}
use distibuted_sys.SkipList.Epoch.{claim_cell, epoch_init, enter_epoch, leave_epoch}
use distibuted_sys.SkipList.Access.{Outside, no_tables, holds_key, skiplist_search}
use distibuted_sys.SkipList.Items.{Item, next_at, drop_less}
use distibuted_sys.SkipList.Lookup.{drop_less-Linked}
use distibuted_sys.SkipList.Find.{fill_tables-Finds}
use distibuted_sys.SkipList.Walk.{Linked, IsSkipList}

-- A level stays below NUM_LEVELS, whatever the random numbers are.
pub generate_level_bounds :
    (rand_max generated : ℕ) (rands : List ℕ)
    → generated < num_levels
    → (generated ≤ generate_level rand_max generated rands)
      × (generate_level rand_max generated rands < num_levels)
unfolding generate_level
generate_level_bounds rand_max generated [] h = (omega arith, h)
generate_level_bounds rand_max generated (rand ∷ rands) h =
    elim (Bool-cases (ltb generated (num_levels - 1))) [
      | inl low ↦
          let (ge, lt) = generate_level_bounds rand_max (generated + 1) rands (ground arith) in
          elim (Bool-cases (ltb rand (rand_max / 2))) [
            | inl up ↦ rw (low, up) (omega arith, lt)
            | inr stop ↦ rw (low, stop) (omega arith, h)
          ]
      | inr top ↦ rw top (omega arith, h)
    ]

-- Up to index `j`, no cell holds what the cell before it holds; before the first one comes `previous`.
abbrev pub Changing : ℤ → List ℤ → ℕ → Type 0
Changing previous [] j = Unit
Changing previous (epoch ∷ epochs) zero = Unit
Changing previous (epoch ∷ epochs) (suc j) = (eqz epoch previous ≡ false) × Changing epoch epochs j

claim_cell-same :
    (global_epoch previous e : ℤ) (cell j : ℕ) (epochs : List ℤ)
    → Changing previous epochs (suc j)
    → get_elem? epochs j ≡ some e
    → get_elem? epochs (suc j) ≡ some e
    → claim_cell global_epoch previous cell epochs
      ≡ (some (cell + suc j), set epochs (suc j) global_epoch)
unfolding claim_cell
claim_cell-same g previous e cell j [] c here next = absurd (ground arith)
claim_cell-same g previous e cell zero (x ∷ []) c here next = absurd (ground arith)
claim_cell-same g previous e cell zero (x ∷ y ∷ epochs) c here next =
    let first : x ≡ e = ground (arith, here) in
    let second : y ≡ e = ground (arith, next) in
    let same : eqz y x ≡ true = rw (first, second) (eqz_refl e) in
    let index : suc cell ≡ cell + 1 = omega arith in rw (c.0, same, index) refl
claim_cell-same g previous e cell (suc j) (x ∷ epochs) c here next =
    let rest = claim_cell-same g x e (suc cell) j epochs c.1 here next in
    let index : suc cell + suc j ≡ cell + suc (suc j) = omega arith in rw (c.0, rest, index) refl

abbrev claimed : Memory → Option ℕ × List ℤ → Outcome Memory (Option ℕ)
claimed m (none, epochs) = done none (record m { errno = no_threads })
claimed m (some cell, epochs) = done (some cell) (record m { local_epochs = epochs })

epoch_init-claimed :
    (m : Memory) → epoch_init m ≡ claimed m (claim_cell m.global_epoch minus_one 0 m.local_epochs)
unfolding epoch_init
epoch_init-claimed m = with_cases (claim_cell m.global_epoch minus_one 0 m.local_epochs)
  where
    with_cases :
        (q : Option ℕ × List ℤ)
        → elim q.0 [
          | none ↦ done none (record m { errno = no_threads })
          | some cell ↦ done (some cell) (record m { local_epochs = q.1 })
        ]
          ≡ claimed m q
    with_cases (none, epochs) = refl
    with_cases (some cell, epochs) = refl

-- epoch_init does not look for a free cell, which holds -1: when the cells `j` and `j + 1` hold the
-- same epoch, whatever it is, and no two neighbours before them do, nor the first cell -1, it gives a
-- new thread the cell `j + 1`, another thread's or not, and stores the global epoch there.
pub epoch_init-shared :
    (m : Memory) (j : ℕ) (e : ℤ)
    → Changing minus_one m.local_epochs (suc j)
    → get_elem? m.local_epochs j ≡ some e
    → get_elem? m.local_epochs (suc j) ≡ some e
    → epoch_init m
      ≡ done (some (suc j)) (record m { local_epochs = set m.local_epochs (suc j) m.global_epoch })
epoch_init-shared m j e changing here next =
    let index : 0 + suc j ≡ suc j = omega arith in
    epoch_init-claimed m
    ∙ ap (claimed m)
        (claim_cell-same m.global_epoch minus_one e 0 j m.local_epochs changing here next)
    ∙ rw index refl

holds_key-Linked :
    (o : Outside) (k : ℤ) (p : Ptr) (ys : List Item) (m : Memory)
    → p ≡ next_at 0 ys
    → Linked m.tower ys
    → (b : Bool) × (holds_key o k p m ≡ done b m)
unfolding holds_key
holds_key-Linked o k p [] m e links = (false, ground (arith, e))
holds_key-Linked o k p (y ∷ ys) m e (ne, s, links) = (eqz s.here.key k, ground (arith, e, s.found))

-- With no cell left for a new thread, enter_epoch records the failure as NO_THREADS, changes nothing
-- else and returns -1; skiplist_search, in a skip list with fuel for every tower, does not test that,
-- and accesses memory through NULL.
pub search-crash :
    (o : Outside) (k : ℤ) (m : Memory) (skiplist : ℕ) (epochs : List ℤ) (xs : List Item)
    → skiplist ≢ null
    → IsSkipList m.tower xs
    → m.local_epoch ≡ none
    → claim_cell m.global_epoch minus_one 0 m.local_epochs ≡ (none, epochs)
    → m.max_level < num_levels
    → 1 ≤ o.resets
    → length xs < o.fuel
    → (enter_epoch o.setspecific m ≡ done minus_one (record m { errno = no_threads }))
      × (skiplist_search o k skiplist m ≡ crash)
unfolding skiplist_search enter_epoch leave_epoch
search-crash o k m skiplist epochs xs ne s new full lt more h =
    let n = record m { errno = no_threads } in
    let fails : epoch_init m ≡ done none n = epoch_init-claimed m ∙ ap (claimed m) full in
    let (t, runs, finds, _) =
      fill_tables-Finds k n o.resets o.fuel m.max_level 0 no_tables xs s (omega arith) lt more h in
    let (b, looks) =
      holds_key-Linked o k (t.succs 0) (drop_less k xs) n (finds 0 (omega arith) (omega arith)).1
        (drop_less-Linked k m.tower xs s.links) in
    (
      ground (arith, new, fails),
      elim (Bool-cases b) [
        | inl held ↦ ground (arith, new, fails, runs, looks, held)
        | inr other ↦ ground (arith, new, fails, runs, looks, other)
      ],
    )
