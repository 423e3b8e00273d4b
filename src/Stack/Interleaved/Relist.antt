-- ===== src/Stack/Interleaved/Relist.antt =====
-- lab3/Stack.c: `add_to_reclaim_list` and `delete_nodes_with_no_hazards` end in a thread that runs alone.
use distibuted_sys.Base.{
  ℕ, zero, suc, ◌+◌, ◌≤◌, ◌<◌, ◌≡◌, ◌≢◌, ◌∙◌, refl, arith, true, false, inl, inr, Bool-cases, List,
  [], ◌∷◌, Option, some, ◌==◌, ltb,
}
use distibuted_sys.Base.Threads.{update}
use distibuted_sys.Stack.{Ptr, null}
use distibuted_sys.Stack.Hazard.{max_hazard_pointers}
use distibuted_sys.Stack.Interleaved.{
  Shared, Behind, cleaning, idle, pop_ends, loads_reclaim, links_reclaim, swaps_reclaim, cleans,
  scans, Input, step, goes_on,
}
use distibuted_sys.Stack.Interleaved.Finite.{Walk, Walk-kept}
use distibuted_sys.Stack.Interleaved.Alone.{Sound, Ends, ended, go, follows}

-- The node `p` comes on the reclamation list, and the thread goes on.
abbrev pub Then : Input → ℕ → Shared → Ptr → Behind → Type 0
Then input i s p k =
    (s' : Shared)
    → ((a : Ptr) → a ≢ p → s'.next a ≡ s.next a)
    → Sound i s' (goes_on k)
    → Ends input i s' (goes_on k)

module _ (input : Input) (i : ℕ) (bound : i < max_hazard_pointers)
    (calm : input.spurious ≡ false) where
  -- `add_to_reclaim_list`

  pub Ends-swaps_reclaim_first :
      (s : Shared) (p : Ptr) (k : Behind)
      → Sound i s (swaps_reclaim p k)
      → s.to_reclaim == s.next p ≡ true
      → Then input i s p k
      → Ends input i s (swaps_reclaim p k)
  unfolding step
  Ends-swaps_reclaim_first s p k h e rest =
      go input i bound s (record s { to_reclaim = p }) (swaps_reclaim p k) (goes_on k) h
        (follows input i bound s (swaps_reclaim p k) p _ h (rw (calm, e) refl))
        (rest _ (λ a n. refl))

  pub Ends-links_reclaim_first :
      (s : Shared) (p r : Ptr) (k : Behind)
      → Sound i s (links_reclaim p r k)
      → s.to_reclaim == r ≡ true
      → Then input i s p k
      → Ends input i s (links_reclaim p r k)
  unfolding step
  Ends-links_reclaim_first s p r k h e rest =
      go input i bound s _ (links_reclaim p r k) _ h
        (follows input i bound s (links_reclaim p r k) p _ h (refl))
        (λ h.
          Ends-swaps_reclaim_first _ p k h (ground arith)
            (λ s' same. rest s' (λ a n. same a n ∙ ground arith)))

  pub Ends-loads_reclaim :
      (s : Shared) (p : Ptr) (k : Behind)
      → Sound i s (loads_reclaim p k)
      → Then input i s p k
      → Ends input i s (loads_reclaim p k)
  unfolding step
  Ends-loads_reclaim s p k h rest =
      go input i bound s _ (loads_reclaim p k) _ h refl
        (λ h. Ends-links_reclaim_first s p s.to_reclaim k h (ground arith) rest)

  pub Ends-swaps_reclaim :
      (s : Shared) (p : Ptr) (k : Behind)
      → Sound i s (swaps_reclaim p k)
      → Then input i s p k
      → Ends input i s (swaps_reclaim p k)
  unfolding step
  Ends-swaps_reclaim s p k h rest = elim (Bool-cases (s.to_reclaim == s.next p)) [
    | inl e ↦ Ends-swaps_reclaim_first s p k h e rest
    | inr e ↦
        go input i bound s (record s { next = update s.next p s.to_reclaim }) (swaps_reclaim p k)
          (loads_reclaim p k) h
          (follows input i bound s (swaps_reclaim p k) p _ h (rw (calm, e) refl))
          (λ h. Ends-loads_reclaim _ p k h (λ s' same. rest s' (λ a n. same a n ∙ ground arith)))
  ]

  pub Ends-links_reclaim :
      (s : Shared) (p r : Ptr) (k : Behind)
      → Sound i s (links_reclaim p r k)
      → Then input i s p k
      → Ends input i s (links_reclaim p r k)
  unfolding step
  Ends-links_reclaim s p r k h rest =
      go input i bound s _ (links_reclaim p r k) _ h
        (follows input i bound s (links_reclaim p r k) p _ h (refl))
        (λ h. Ends-swaps_reclaim _ p k h (λ s' same. rest s' (λ a n. same a n ∙ ground arith)))

  -- `delete_nodes_with_no_hazards`

  pub Ends-pop_ends :
      (s : Shared) (o : Option ℕ) → Sound i s (pop_ends o) → Ends input i s (pop_ends o)
  unfolding step
  Ends-pop_ends s o h = go input i bound s _ (pop_ends o) idle h refl (λ h. ended)

  pub Ends-scans :
      (d : ℕ) (s : Shared) (current n : Ptr) (hp_i v : ℕ)
      → max_hazard_pointers ≤ hp_i + d
      → Sound i s (scans current n hp_i v)
      → Then input i s current (cleaning n v)
      → Ends input i s (scans current n hp_i v)
  unfolding step
  Ends-scans zero s current n hp_i v b h rest = elim (Bool-cases (ltb hp_i max_hazard_pointers)) [
    | inl e ↦ elim (Bool-cases (s.hazard hp_i == current)) [
      | inl f ↦
          go input i bound s s (scans current n hp_i v) (loads_reclaim current (cleaning n v)) h
            (rw (e, f) refl) (λ h. Ends-loads_reclaim s current (cleaning n v) h rest)
      | inr f ↦ absurd (ground arith)
    ]
    | inr e ↦
        go input i bound s (record s { allocated = update s.allocated current false })
          (scans current n hp_i v) (cleans n v) h
          (follows input i bound s (scans current n hp_i v) current _ h (rw e refl))
          (rest _ (λ a m. refl))
  ]
  Ends-scans (suc d) s current n hp_i v b h rest =
      elim (Bool-cases (ltb hp_i max_hazard_pointers)) [
        | inl e ↦ elim (Bool-cases (s.hazard hp_i == current)) [
          | inl f ↦
              go input i bound s s (scans current n hp_i v) (loads_reclaim current (cleaning n v)) h
                (rw (e, f) refl) (λ h. Ends-loads_reclaim s current (cleaning n v) h rest)
          | inr f ↦
              go input i bound s s (scans current n hp_i v) (scans current n (suc hp_i) v) h
                (rw (e, f) refl) (λ h. Ends-scans d s current n (suc hp_i) v (omega arith) h rest)
        ]
        | inr e ↦
            go input i bound s (record s { allocated = update s.allocated current false })
              (scans current n hp_i v) (cleans n v) h
              (follows input i bound s (scans current n hp_i v) current _ h (rw e refl))
              (rest _ (λ a m. refl))
      ]

  pub Ends-cleans :
      (qs : List Ptr) (s : Shared) (current : Ptr) (v : ℕ)
      → Sound i s (cleans current v)
      → Walk s.next current qs
      → Ends input i s (cleans current v)
  unfolding step
  Ends-cleans [] s current v h w =
      let e : current == null ≡ true = ground (arith, w) in
      go input i bound s s (cleans current v) (pop_ends (some v)) h (rw e refl)
        (λ h. Ends-pop_ends s (some v) h)
  Ends-cleans (q ∷ qs) s current v h w =
      let e : current == null ≡ false = ground (arith, w.1) in
      go input i bound s s (cleans current v) (scans current (s.next current) 0 v) h
        (follows input i bound s (cleans current v) current _ h (rw e refl))
        (λ h.
          Ends-scans max_hazard_pointers s current (s.next current) 0 v (omega arith) h
            (λ s' same h.
              Ends-cleans qs s' (s.next current) v h
                (Walk-kept s.next s'.next current (s.next current) qs same w.2 w.3)))
