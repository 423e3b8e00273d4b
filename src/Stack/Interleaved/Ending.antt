-- ===== src/Stack/Interleaved/Ending.antt =====
-- lab3/Stack.c: what is left of `stack_pop` from each of its accesses, in a thread that runs alone.
use distibuted_sys.Base.{
  ℕ, ◌+◌, ◌*◌, ◌%◌, ◌^◌, ◌<◌, ◌≡◌, subst, refl, arith, true, false, inl, inr, Bool-cases, List,
  some, none, ◌==◌, leb,
}
use distibuted_sys.Base.Threads.{update}
use distibuted_sys.Stack.{Ptr, null}
use distibuted_sys.Stack.Hazard.{max_hazard_pointers}
use distibuted_sys.Stack.Interleaved.{
  Shared, Behind, counting, cleaning, Place, idle, allocates, loads_head, links, swaps_in,
  push_ends, loads_old, protects, checks, reads_next, swaps_out, clears, fails, copies, counts,
  resets, pop_ends, loads_reclaim, links_reclaim, swaps_reclaim, takes, cleans, scans, Input, step,
}
use distibuted_sys.Stack.Interleaved.Zones.{held, chained}
use distibuted_sys.Stack.Interleaved.Knowledge.{Knows, chain_of, chain_behind, root}
use distibuted_sys.Stack.Interleaved.Finite.{Walk, Off, In, Walk-kept, In-Off, Shape-Walk}
use distibuted_sys.Stack.Interleaved.Alone.{
  Sound, Ends, ended, go, follows, Ends-push_ends, Ends-swaps_in, Ends-links, Ends-loads_head,
  Ends-allocates,
}
use distibuted_sys.Stack.Interleaved.Relist.{
  Then, Ends-pop_ends, Ends-loads_reclaim, Ends-links_reclaim, Ends-swaps_reclaim, Ends-scans,
  Ends-cleans,
}

module _ (input : Input) (i : ℕ) (bound : i < max_hazard_pointers)
    (calm : input.spurious ≡ false) where
  Sound-Walk :
      (s : Shared) (P : Place) (h : Sound i s P)
      → (qs : List Ptr) × Walk s.next (chain_of P) qs × In h.zone (chained i) qs
  Sound-Walk s P h =
      subst (λ Q. (qs : List Ptr) × Walk s.next (chain_of Q) qs × In h.zone (chained i) qs) h.at
        (Shape-Walk s.allocated s.next (root s.head s.to_reclaim h.place) h.zone (chained i)
          h.inv.shape refl h.inv.limited)

  Sound-Knows :
      (s : Shared) (P : Place) (h : Sound i s P) → Knows s.next s.hazard h.place h.zone i P
  Sound-Knows s P h = subst (λ Q. Knows s.next s.hazard h.place h.zone i Q) h.at (h.inv.knows i)

  -- The tail of `stack_pop`

  Ends-cleans_any :
      (s : Shared) (current : Ptr) (v : ℕ)
      → Sound i s (cleans current v)
      → Ends input i s (cleans current v)
  unfolding step
  Ends-cleans_any s current v h =
      let w = Sound-Walk s (cleans current v) h in
      Ends-cleans input i bound calm w.0 s current v h w.1

  Ends-takes : (s : Shared) (v : ℕ) → Sound i s (takes v) → Ends input i s (takes v)
  unfolding step
  Ends-takes s v h =
      go input i bound s _ (takes v) _ h refl (λ h. Ends-cleans_any _ s.to_reclaim v h)

  Ends-resets : (s : Shared) (v : ℕ) → Sound i s (resets v) → Ends input i s (resets v)
  unfolding step
  Ends-resets s v h = go input i bound s _ (resets v) _ h refl (λ h. Ends-takes _ v h)

  Ends-counts : (s : Shared) (v : ℕ) → Sound i s (counts v) → Ends input i s (counts v)
  unfolding step
  Ends-counts s v h =
      elim (Bool-cases (leb (2 * max_hazard_pointers) ((s.reclaim_counter + 1) % 2 ^ 32))) [
        | inl e ↦
            go input i bound s (record s { reclaim_counter = (s.reclaim_counter + 1) % 2 ^ 32 })
              (counts v) (resets v) h (rw e refl) (λ h. Ends-resets _ v h)
        | inr e ↦
            go input i bound s (record s { reclaim_counter = (s.reclaim_counter + 1) % 2 ^ 32 })
              (counts v) (pop_ends (some v)) h (rw e refl)
              (λ h. Ends-pop_ends input i bound calm _ (some v) h)
      ]

  rest_of :
      (s : Shared) (P : Place) (p : Ptr) (k : Behind) (h : Sound i s P)
      → chain_of P ≡ chain_behind k
      → h.zone p ≡ held i
      → Then input i s p k
  rest_of s P p (counting v) h e own = λ s' same h'. Ends-counts s' v h'
  rest_of s P p (cleaning n v) h e own =
      let (qs, w, z) = Sound-Walk s P h in
      let off : Off p qs = In-Off h.zone (chained i) p qs (ground (arith, own)) z in
      λ s' same h'.
        Ends-cleans input i bound calm qs s' n v h'
          (Walk-kept s.next s'.next p n qs same off (subst (λ q. Walk s.next q qs) e w))

  Ends-loads_reclaim_any :
      (s : Shared) (p : Ptr) (k : Behind)
      → Sound i s (loads_reclaim p k)
      → Ends input i s (loads_reclaim p k)
  unfolding step
  Ends-loads_reclaim_any s p k h =
      Ends-loads_reclaim input i bound calm s p k h
        (rest_of s (loads_reclaim p k) p k h refl (Sound-Knows s (loads_reclaim p k) h))

  Ends-links_reclaim_any :
      (s : Shared) (p r : Ptr) (k : Behind)
      → Sound i s (links_reclaim p r k)
      → Ends input i s (links_reclaim p r k)
  unfolding step
  Ends-links_reclaim_any s p r k h =
      Ends-links_reclaim input i bound calm s p r k h
        (rest_of s (links_reclaim p r k) p k h refl (Sound-Knows s (links_reclaim p r k) h))

  Ends-swaps_reclaim_any :
      (s : Shared) (p : Ptr) (k : Behind)
      → Sound i s (swaps_reclaim p k)
      → Ends input i s (swaps_reclaim p k)
  unfolding step
  Ends-swaps_reclaim_any s p k h =
      Ends-swaps_reclaim input i bound calm s p k h
        (rest_of s (swaps_reclaim p k) p k h refl (Sound-Knows s (swaps_reclaim p k) h))

  Ends-scans_any :
      (s : Shared) (current n : Ptr) (hp_i v : ℕ)
      → Sound i s (scans current n hp_i v)
      → Ends input i s (scans current n hp_i v)
  unfolding step
  Ends-scans_any s current n hp_i v h =
      Ends-scans input i bound calm max_hazard_pointers s current n hp_i v (omega arith) h (
        rest_of s (scans current n hp_i v) current (cleaning n v) h refl
          (Sound-Knows s (scans current n hp_i v) h))

  -- `stack_pop`

  Ends-fails : (s : Shared) → Sound i s fails → Ends input i s fails
  unfolding step
  Ends-fails s h =
      go input i bound s _ fails (pop_ends none) h refl
        (λ h. Ends-pop_ends input i bound calm _ none h)

  Ends-copies : (s : Shared) (old : Ptr) → Sound i s (copies old) → Ends input i s (copies old)
  unfolding step
  Ends-copies s old h =
      go input i bound s _ (copies old) _ h (follows input i bound s (copies old) old _ h (refl))
        (λ h. Ends-loads_reclaim_any s old _ h)

  Ends-clears : (s : Shared) (old : Ptr) → Sound i s (clears old) → Ends input i s (clears old)
  unfolding step
  Ends-clears s old h = elim (Bool-cases (old == null)) [
    | inl e ↦
        go input i bound s (record s { hazard = update s.hazard i null }) (clears old) fails h
          (rw e refl) (λ h. Ends-fails _ h)
    | inr e ↦
        go input i bound s (record s { hazard = update s.hazard i null }) (clears old) (copies old)
          h (rw e refl) (λ h. Ends-copies _ old h)
  ]

  Ends-swaps_out_top :
      (s : Shared) (old n : Ptr)
      → Sound i s (swaps_out old n)
      → s.head == old ≡ true
      → Ends input i s (swaps_out old n)
  unfolding step
  Ends-swaps_out_top s old n h e =
      go input i bound s (record s { head = n }) (swaps_out old n) (clears old) h (rw e refl)
        (λ h. Ends-clears _ old h)

  Ends-reads_next_top :
      (s : Shared) (old : Ptr)
      → Sound i s (reads_next old)
      → s.head == old ≡ true
      → Ends input i s (reads_next old)
  unfolding step
  Ends-reads_next_top s old h e =
      go input i bound s _ (reads_next old) _ h
        (follows input i bound s (reads_next old) old _ h (refl))
        (λ h. Ends-swaps_out_top s old _ h e)

  Ends-checks_top :
      (s : Shared) (tmp : Ptr)
      → Sound i s (checks tmp)
      → s.head == tmp ≡ true
      → Ends input i s (checks tmp)
  unfolding step
  Ends-checks_top s tmp h e = elim (Bool-cases (tmp == null)) [
    | inl f ↦
        go input i bound s s (checks tmp) (clears null) h (rw (e, f) refl)
          (λ h. Ends-clears s null h)
    | inr f ↦
        go input i bound s s (checks tmp) (reads_next tmp) h (rw (e, f) refl)
          (λ h. Ends-reads_next_top s tmp h e)
  ]

  Ends-protects_top :
      (s : Shared) (old : Ptr)
      → Sound i s (protects old)
      → s.head == old ≡ true
      → Ends input i s (protects old)
  unfolding step
  Ends-protects_top s old h e =
      go input i bound s _ (protects old) _ h refl (λ h. Ends-checks_top _ old h e)

  Ends-loads_old : (s : Shared) → Sound i s loads_old → Ends input i s loads_old
  unfolding step
  Ends-loads_old s h =
      go input i bound s _ loads_old _ h refl (λ h. Ends-protects_top s s.head h (ground arith))

  Ends-swaps_out :
      (s : Shared) (old n : Ptr) → Sound i s (swaps_out old n) → Ends input i s (swaps_out old n)
  unfolding step
  Ends-swaps_out s old n h = elim (Bool-cases (s.head == old)) [
    | inl e ↦ Ends-swaps_out_top s old n h e
    | inr e ↦
        go input i bound s s (swaps_out old n) loads_old h (rw e refl) (λ h. Ends-loads_old s h)
  ]

  Ends-reads_next :
      (s : Shared) (old : Ptr) → Sound i s (reads_next old) → Ends input i s (reads_next old)
  unfolding step
  Ends-reads_next s old h =
      go input i bound s _ (reads_next old) _ h
        (follows input i bound s (reads_next old) old _ h (refl)) (λ h. Ends-swaps_out s old _ h)

  Ends-checks : (s : Shared) (tmp : Ptr) → Sound i s (checks tmp) → Ends input i s (checks tmp)
  unfolding step
  Ends-checks s tmp h = elim (Bool-cases (s.head == tmp)) [
    | inl e ↦ Ends-checks_top s tmp h e
    | inr e ↦
        go input i bound s s (checks tmp) (protects s.head) h (rw e refl)
          (λ h. Ends-protects_top s s.head h (ground arith))
  ]

  Ends-protects :
      (s : Shared) (old : Ptr) → Sound i s (protects old) → Ends input i s (protects old)
  unfolding step
  Ends-protects s old h = go input i bound s _ (protects old) _ h refl (λ h. Ends-checks _ old h)

  pub Sound-Ends : (s : Shared) (P : Place) → Sound i s P → Ends input i s P
  Sound-Ends s idle h = ended
  Sound-Ends s (allocates v) h = Ends-allocates input i bound s v h
  Sound-Ends s (loads_head p c) h = Ends-loads_head input i bound s p c h
  Sound-Ends s (links p top c) h = Ends-links input i bound s p top c h
  Sound-Ends s (swaps_in p top c) h = Ends-swaps_in input i bound s p top c h
  Sound-Ends s (push_ends r) h = Ends-push_ends input i bound s r h
  Sound-Ends s loads_old h = Ends-loads_old s h
  Sound-Ends s (protects old) h = Ends-protects s old h
  Sound-Ends s (checks tmp) h = Ends-checks s tmp h
  Sound-Ends s (reads_next old) h = Ends-reads_next s old h
  Sound-Ends s (swaps_out old n) h = Ends-swaps_out s old n h
  Sound-Ends s (clears old) h = Ends-clears s old h
  Sound-Ends s fails h = Ends-fails s h
  Sound-Ends s (copies old) h = Ends-copies s old h
  Sound-Ends s (counts v) h = Ends-counts s v h
  Sound-Ends s (resets v) h = Ends-resets s v h
  Sound-Ends s (pop_ends o) h = Ends-pop_ends input i bound calm s o h
  Sound-Ends s (loads_reclaim p k) h = Ends-loads_reclaim_any s p k h
  Sound-Ends s (links_reclaim p r k) h = Ends-links_reclaim_any s p r k h
  Sound-Ends s (swaps_reclaim p k) h = Ends-swaps_reclaim_any s p k h
  Sound-Ends s (takes v) h = Ends-takes s v h
  Sound-Ends s (cleans current v) h = Ends-cleans_any s current v h
  Sound-Ends s (scans current n hp_i v) h = Ends-scans_any s current n hp_i v h
