-- ===== src/Stack/Interleaved/Lists.antt =====
-- lab3/Stack.c: the first nodes of the lists, and the values on the stack, as the memory changes.
use distibuted_sys.Base.{ℕ, ◌≡◌, ◌≢◌, sym, ◌∙◌, refl, arith, List, [], ◌∷◌, if◌then◌else◌}
use distibuted_sys.Base.Threads.{update}
use distibuted_sys.Stack.{Ptr, null}
use distibuted_sys.Stack.Interleaved.{Place}
use distibuted_sys.Stack.Interleaved.Zones.{Zone, free, stacked, limbo, held, chained, same_zone}
use distibuted_sys.Stack.Interleaved.Knowledge.{root, chain_of, Lists}

pub root-update :
    (head to_reclaim : Ptr) (place : ℕ → Place) (i : ℕ) (P' : Place)
    → chain_of P' ≡ chain_of (place i)
    → (z : Zone) → root head to_reclaim (update place i P') z ≡ root head to_reclaim place z
root-update head to_reclaim place i P' e (chained t) = ground (arith, e)
root-update head to_reclaim place i P' e free = refl
root-update head to_reclaim place i P' e stacked = refl
root-update head to_reclaim place i P' e limbo = refl
root-update head to_reclaim place i P' e (held t) = refl

pub root-head :
    (head p to_reclaim : Ptr) (place : ℕ → Place) (i : ℕ) (P' : Place)
    → chain_of P' ≡ chain_of (place i)
    → (z : Zone)
    → root p to_reclaim (update place i P') z
      ≡ (if same_zone stacked z then p else root head to_reclaim place z)
root-head head p to_reclaim place i P' e (chained t) = ground (arith, e)
root-head head p to_reclaim place i P' e free = refl
root-head head p to_reclaim place i P' e stacked = refl
root-head head p to_reclaim place i P' e limbo = refl
root-head head p to_reclaim place i P' e (held t) = refl

pub root-reclaim :
    (head to_reclaim p : Ptr) (place : ℕ → Place) (i : ℕ) (P' : Place)
    → chain_of P' ≡ chain_of (place i)
    → (z : Zone)
    → root head p (update place i P') z
      ≡ (if same_zone limbo z then p else root head to_reclaim place z)
root-reclaim head to_reclaim p place i P' e (chained t) = ground (arith, e)
root-reclaim head to_reclaim p place i P' e free = refl
root-reclaim head to_reclaim p place i P' e stacked = refl
root-reclaim head to_reclaim p place i P' e limbo = refl
root-reclaim head to_reclaim p place i P' e (held t) = refl

pub root-chain :
    (head to_reclaim : Ptr) (place : ℕ → Place) (i : ℕ) (P' : Place) (z : Zone)
    → root head to_reclaim (update place i P') z
      ≡ (if same_zone (chained i) z then chain_of P' else root head to_reclaim place z)
root-chain head to_reclaim place i P' (chained t) = ground arith
root-chain head to_reclaim place i P' free = refl
root-chain head to_reclaim place i P' stacked = refl
root-chain head to_reclaim place i P' limbo = refl
root-chain head to_reclaim place i P' (held t) = refl

pub Lists-kept :
    (next next' : Ptr → Ptr) (value value' : Ptr → ℕ) (zone zone' : Ptr → Zone) (p : Ptr)
    (vs : List ℕ)
    → ((a : Ptr)
        → zone a ≡ stacked
        → (zone' a ≡ stacked) × (next' a ≡ next a) × (value' a ≡ value a))
    → Lists next value zone p vs
    → Lists next' value' zone' p vs
Lists-kept next next' value value' zone zone' p [] k l = l
Lists-kept next next' value value' zone zone' p (v ∷ vs) k l =
    let h = k p l.1 in
    (l.0, h.0, h.2 ∙ l.2, rw h.1 (Lists-kept next next' value value' zone zone' (next p) vs k l.3))

module _ (next : Ptr → Ptr) (value : Ptr → ℕ) (zone : Ptr → Zone) where
  pub Lists-null : (vs : List ℕ) → Lists next value zone null vs → vs ≡ []
  Lists-null [] l = refl
  Lists-null (v ∷ vs) l = absurd (l.0 refl)

  pub Lists-cons :
      (p : Ptr) (vs : List ℕ)
      → p ≢ null
      → Lists next value zone p vs
      → (v : ℕ) × (rest : List ℕ) × (vs ≡ v ∷ rest)
        × (value p ≡ v)
        × Lists next value zone (next p) rest
  Lists-cons p [] ne l = absurd (ne l)
  Lists-cons p (v ∷ vs) ne l = (v, vs, refl, l.2, l.3)

  -- The first node of the stack is not among those behind another.
  pub Lists-detach :
      (p q : Ptr) (y : Zone) (vs : List ℕ)
      → p ≢ null
      → ((a : Ptr) → zone a ≡ stacked → next a ≡ p → next a ≡ null)
      → q ≢ p
      → Lists next value zone q vs
      → Lists next value (update zone p y) q vs
  Lists-detach p q y [] ne first other l = l
  Lists-detach p q y (v ∷ vs) ne first other l = (
    l.0,
    ground (arith, l.1),
    l.2,
    Lists-detach p (next q) y vs ne first (λ e. ne (sym e ∙ first q l.1 e)) l.3,
  )
