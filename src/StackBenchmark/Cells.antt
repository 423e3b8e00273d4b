-- ===== src/StackBenchmark/Cells.antt =====
-- The cells of lab3/Stack.c that threads take and give back.
use distibuted_sys.Base.{
  ℕ, zero, suc, ◌+◌, ◌≤◌, ◌<◌, ◌≡◌, refl, false, some, List, [], ◌∷◌, inl, inr, arith, ◌==◌,
  if◌then◌else◌, Bool-cases, length, get_elem?, set, replicate,
}
use distibuted_sys.Stack.{null, HazardPointer}
use distibuted_sys.Stack.Hazard.{outstanding_hazard_pointers_for}
use distibuted_sys.Stack.Nodes.{Nodes}
use distibuted_sys.Stack.Retire.{keep}
use distibuted_sys.Stack.Claim.{TakenBelow}

abbrev pub mark_of : HazardPointer → ℕ
mark_of h = if h.id == 0 then 0 else 1

-- How many cells are taken.
abbrev pub taken : List HazardPointer → ℕ
taken [] = 0
taken (h ∷ hs) = mark_of h + taken hs

pub taken-set :
    (hs : List HazardPointer) (c : ℕ) (h h' : HazardPointer)
    → get_elem? hs c ≡ some h
    → taken (set hs c h') + mark_of h ≡ taken hs + mark_of h'
taken-set [] c h h' at = absurd (ground (arith, at))
taken-set (x ∷ hs) zero h h' at = let e : x ≡ h = ground (arith, at) in rw e (omega arith)
taken-set (x ∷ hs) (suc c) h h' at = omega (arith, taken-set hs c h h' at)

pub taken-replicate : (n : ℕ) → taken (replicate n (record { id = 0; pointer = null })) ≡ 0
taken-replicate zero = refl
taken-replicate (suc n) = omega (arith, taken-replicate n)

-- A list with a cell left has a first one.
pub first_free :
    (hs : List HazardPointer)
    → taken hs < length hs
    → (j : ℕ) × (h : HazardPointer) × (get_elem? hs j ≡ some h) × (h.id ≡ 0) × TakenBelow hs j
first_free [] lt = absurd (omega arith)
first_free (x ∷ hs) lt = elim (Bool-cases (x.id == 0)) [
  | inl free ↦ (0, x, refl, ground arith, λ i h l at. absurd (omega arith))
  | inr here ↦
      let (j, h, at, id, below) = first_free hs (ground arith) in
      (suc j, h, at, id, first_free_below x hs j here below)
]
  where
    first_free_below :
        (x : HazardPointer) (hs : List HazardPointer) (j : ℕ)
        → (x.id == 0) ≡ false
        → TakenBelow hs j
        → TakenBelow (x ∷ hs) (suc j)
    first_free_below x hs j here below zero h l at = ground (arith, at)
    first_free_below x hs j here below (suc i) h l at = below i h (omega arith) at

pub length-keep :
    (hz : List HazardPointer) (rs acc : Nodes) → length (keep hz rs acc) ≤ length rs + length acc
unfolding keep
length-keep hz [] acc = omega arith
length-keep hz ((p, v) ∷ rs) acc = elim (Bool-cases (outstanding_hazard_pointers_for hz p)) [
  | inl held ↦ rw held (omega (arith, length-keep hz rs ((p, v) ∷ acc)))
  | inr loose ↦ rw loose (omega (arith, length-keep hz rs acc))
]
