-- ===== src/Stack/Interleaved/Finite.antt =====
-- lab3/Stack.c: the lists of nodes end, since no node stands on them twice.
use distibuted_sys.Base.{
  ℕ, zero, suc, ◌≤◌, ◌<◌, ◌≡◌, ◌≢◌, sym, refl, arith, Bool, true, false, inl, inr, Bool-cases, List,
  [], ◌∷◌, ◌==◌, ◌∙◌, subst, if◌then◌else◌,
}
use distibuted_sys.Base.Threads.{update, sum_threads, sum_threads-update}
use distibuted_sys.Stack.{Ptr, null}
use distibuted_sys.Stack.Interleaved.Zones.{
  Zone, free, stacked, limbo, chained, held, listed, same_zone, same_zone_refl, Shape, Shape-detach,
}

-- `p` is none of the nodes.
abbrev pub Off : Ptr → List Ptr → Type 0
Off p [] = Unit
Off p (q ∷ qs) = (p ≢ q) × Off p qs

-- The nodes from `p` on, each of them once.
abbrev pub Walk : (Ptr → Ptr) → Ptr → List Ptr → Type 0
Walk next p [] = p ≡ null
Walk next p (q ∷ qs) = (q ≡ p) × (p ≢ null) × Off p qs × Walk next (next p) qs

abbrev pub In : (Ptr → Zone) → Zone → List Ptr → Type 0
In zone z [] = Unit
In zone z (q ∷ qs) = (zone q ≡ z) × In zone z qs

-- A walk does not see what becomes of a node that it does not visit.
pub Walk-kept :
    (next next' : Ptr → Ptr) (c p : Ptr) (qs : List Ptr)
    → ((a : Ptr) → a ≢ c → next' a ≡ next a)
    → Off c qs
    → Walk next p qs
    → Walk next' p qs
Walk-kept next next' c p [] same off w = w
Walk-kept next next' c p (q ∷ qs) same off w =
    let here : next' p ≡ next p = same p (λ e. off.0 (sym (w.0 ∙ e))) in
    (w.0, w.1, w.2, rw here (Walk-kept next next' c (next p) qs same off.1 w.3))

pub In-Off :
    (zone : Ptr → Zone) (z : Zone) (p : Ptr) (qs : List Ptr) → zone p ≢ z → In zone z qs → Off p qs
In-Off zone z p [] ne h = tt
In-Off zone z p (q ∷ qs) ne h = (ground (arith, h.0), In-Off zone z p qs ne h.1)

In-update :
    (zone : Ptr → Zone) (z y : Zone) (p : Ptr) (qs : List Ptr)
    → y ≢ z
    → In (update zone p y) z qs
    → In zone z qs × Off p qs
In-update zone z y p [] ne h = (tt, tt)
In-update zone z y p (q ∷ qs) ne h =
    let r = In-update zone z y p qs ne h.1 in
    let other : p ≢ q = ground (arith, h.0) in ((ground (arith, h.0), r.0), (other, r.1))

abbrev weight : Zone → Zone → ℕ
weight z y = if same_zone z y then 1 else 0

count : Zone → ℕ → (Ptr → Zone) → ℕ
count z n zone = sum_threads (weight z) n zone

count-update :
    (z y : Zone) (n : ℕ) (zone : Ptr → Zone) (p : Ptr)
    → p < n
    → zone p ≡ z
    → same_zone z y ≡ false
    → suc (count z n (update zone p y)) ≡ count z n zone
unfolding count
count-update z y n zone p b e o =
    let self : same_zone z z ≡ true = same_zone_refl z in
    ground (arith, sum_threads-update (weight z) n p zone y b)

apart-held : (z : Zone) → listed z ≡ true → same_zone z (held 0) ≡ false
apart-held free l = refl
apart-held stacked l = refl
apart-held limbo l = refl
apart-held (chained i) l = refl
apart-held (held i) l = absurd (ground arith)

-- The first node goes to another zone: one less is left.
count-detach :
    (n : ℕ) (allocated : Ptr → Bool) (next : Ptr → Ptr) (root : Zone → Ptr) (zone : Ptr → Zone)
    (z : Zone)
    → Shape allocated next root zone
    → listed z ≡ true
    → ((p : Ptr) → n ≤ p → zone p ≡ free)
    → root z ≢ null
    → suc (count z n (update zone (root z) (held 0))) ≡ count z n zone
count-detach n allocated next root zone z s on limit ne =
    let here : zone (root z) ≡ z = s.root_in z on ne in
    let below : root z < n = ground (arith, limit (root z)) in
    count-update z (held 0) n zone (root z) below here (apart-held z on)

walks_from :
    (c n : ℕ) (allocated : Ptr → Bool) (next : Ptr → Ptr) (root : Zone → Ptr) (zone : Ptr → Zone)
    (z : Zone)
    → Shape allocated next root zone
    → listed z ≡ true
    → ((p : Ptr) → n ≤ p → zone p ≡ free)
    → count z n zone ≤ c
    → (qs : List Ptr) × Walk next (root z) qs × In zone z qs
walks_from zero n allocated next root zone z s on limit few = elim (Bool-cases (root z == null)) [
  | inl e ↦ ([], ground arith, tt)
  | inr e ↦ absurd (ground (arith, count-detach n allocated next root zone z s on limit))
]
walks_from (suc c) n allocated next root zone z s on limit few =
    elim (Bool-cases (root z == null)) [
      | inl e ↦ ([], ground arith, tt)
      | inr e ↦
          let ne : root z ≢ null = ground arith in
          let self : same_zone z z ≡ true = same_zone_refl z in
          let here : zone (root z) ≡ z = s.root_in z on ne in
          let other : held 0 ≢ z = ground (arith, apart-held z on) in
          let root' : Zone → Ptr = λ w. if same_zone z w then next (root z) else root w in
          let (qs, w, h) =
            walks_from c n allocated next root' (update zone (root z) (held 0)) z
              (Shape-detach allocated next root root' zone s (root z) z (held 0) (λ w. refl) on refl
                ne refl refl)
              on (λ p b. ground (arith, limit p, here, on))
              (ground (arith, count-detach n allocated next root zone z s on limit)) in
          let r = In-update zone z (held 0) (root z) qs other h in
          let start : root' z ≡ next (root z) = rw self refl in
          (root z ∷ qs, (refl, ne, r.1, subst (λ x. Walk next x qs) start w), (here, r.0))
    ]

-- The list of each zone ends.
pub Shape-Walk :
    (allocated : Ptr → Bool) (next : Ptr → Ptr) (root : Zone → Ptr) (zone : Ptr → Zone) (z : Zone)
    → Shape allocated next root zone
    → listed z ≡ true
    → (n : ℕ) × ((p : Ptr) → n ≤ p → zone p ≡ free)
    → (qs : List Ptr) × Walk next (root z) qs × In zone z qs
Shape-Walk allocated next root zone z s on limit =
    walks_from (count z limit.0 zone) limit.0 allocated next root zone z s on limit.1 (ground arith)
