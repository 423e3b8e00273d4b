-- ===== src/Stack/Interleaved/Pushes.antt =====
-- lab3/Stack.c: the accesses of `stack_push`, whatever the other threads do meanwhile.
use distibuted_sys.Base.{
  ℕ, ◌≡◌, ◌≢◌, sym, refl, arith, true, false, inl, inr, Bool-cases, some, List, [], ◌∷◌, ◌==◌,
}
use distibuted_sys.Base.Threads.{update}
use distibuted_sys.Stack.{Ptr, null, no_memory, Status, success, failure}
use distibuted_sys.Stack.Interleaved.{
  Shared, Place, idle, allocates, loads_head, links, swaps_in, push_ends, loads_old, event, called,
  begins, Call, push, pop, step, granted, Input,
}
use distibuted_sys.Stack.Interleaved.Zones.{
  Zone, free, stacked, held, Shape-move, Shape-attach, Shape-write,
}
use distibuted_sys.Stack.Interleaved.Atomic.{rests, takes_effect, runs_out, returns, calls}
use distibuted_sys.Stack.Interleaved.Knowledge.{root, Inv}
use distibuted_sys.Stack.Interleaved.Outcome.{
  Outcome, held_node, held_none, moving_step, own_step, quiet_step, local_step, known,
}
use distibuted_sys.Stack.Interleaved.Lists.{root-head, root-update, Lists-kept}

module _ (input : Input) (i : ℕ) (s : Shared) (place : ℕ → Place) (zone : Ptr → Zone) (vs : List ℕ)
    (inv : Inv s place zone vs) where
  takes_node :
      (v : ℕ)
      → place i ≡ allocates v
      → (p : Ptr) → p ≢ null
      → s.allocated p ≡ false
      → Outcome i [] s place vs (allocates v) (
          some (
            record s { allocated = update s.allocated p true; value = update s.value p v },
            loads_head p 0,
          ))
  takes_node v at p ne new =
      let off : zone p ≡ free = ground (arith, inv.shape.is_used p) in
      let hit : p == p ≡ true = ground arith in
      moving_step i [] s place zone vs (allocates v) at inv p (held i) (update s.allocated p true)
        (update s.value p v) s.head s.to_reclaim (loads_head p 0) vs rests (λ a ne. ground arith)
        (λ a h. absurd (held_none i [] s place zone vs (allocates v) at inv refl a h))
        (λ j h. ground arith) (λ j h. ground arith) (λ j g. absurd (ground (arith, g.is_used)))
        (Shape-move s.allocated s.next (root s.head s.to_reclaim place)
          (root s.head s.to_reclaim (update place i (loads_head p 0))) zone inv.shape p (held i)
          true (root-update s.head s.to_reclaim place i (loads_head p 0) (rw at refl)) (rw off refl)
          refl ne refl)
        (rw hit refl) (λ e. refl)
        (Lists-kept s.next s.next s.value (update s.value p v) zone (update zone p (held i)) s.head
          vs (λ a e. ground arith) inv.lists)
        (rw hit refl)

  pub step-allocates :
      (v : ℕ)
      → place i ≡ allocates v
      → Outcome i
          (event input i (allocates v))
          s
          place
          vs
          (allocates v)
          (step input i s (allocates v))
  unfolding step
  step-allocates v at = elim (Bool-cases (granted s.allocated input.fresh == null)) [
    | inl e ↦ rw e (
        quiet_step i [] s place zone vs (allocates v) at inv s.hazard s.reclaim_counter no_memory
          (push_ends failure) runs_out (λ j e. refl) (λ j e. refl) refl refl tt refl)
    | inr e ↦ rw e (takes_node v at (granted s.allocated input.fresh) (ground arith) (ground arith))
  ]

  pub step-loads_head :
      (p : Ptr) (c : ℕ)
      → place i ≡ loads_head p c
      → Outcome i [] s place vs (loads_head p c) (step input i s (loads_head p c))
  unfolding step
  step-loads_head p c at =
      local_step i [] s place zone vs (loads_head p c) at inv _ rests (λ j e. e) refl refl
        (known i [] s place zone vs _ at inv) refl

  pub step-links :
      (p top : Ptr) (c : ℕ)
      → place i ≡ links p top c
      → Outcome i [] s place vs (links p top c) (step input i s (links p top c))
  unfolding step
  step-links p top c at =
      let k : zone p ≡ held i = known i [] s place zone vs _ at inv in
      let u : s.allocated p ≡ true = ground (arith, inv.shape.is_used p) in
      rw u (
        own_step i [] s place zone vs (links p top c) at inv (update s.next p top) s.hazard
          s.reclaim_counter s.errno _ rests (λ a ne. ground (arith, k)) (λ j e. refl) (λ j h e. e)
          refl
          (Shape-write s.allocated s.next (root s.head s.to_reclaim place)
            (root s.head s.to_reclaim (update place i _)) zone inv.shape p top
            (root-update s.head s.to_reclaim place i _ (rw at refl)) (rw k refl))
          (k, ground arith) refl)

  pub step-swaps_in :
      (p top : Ptr) (c : ℕ)
      → place i ≡ swaps_in p top c
      → Outcome i [] s place vs (swaps_in p top c) (step input i s (swaps_in p top c))
  unfolding step
  step-swaps_in p top c at = elim (Bool-cases (s.head == top)) [
    | inl e ↦
        let k : (zone p ≡ held i) × (s.next p ≡ top) = known i [] s place zone vs _ at inv in
        rw e (
          let tail : s.next p ≡ s.head = ground (arith, k.1) in
          moving_step i [] s place zone vs (swaps_in p top c) at inv p stacked s.allocated s.value p
            s.to_reclaim (push_ends success) (s.value p ∷ vs) takes_effect (λ a ne. refl)
            (λ a h. sym (held_node i [] s place zone vs (swaps_in p top c) at inv a h))
            (λ j h. ground (arith, k.0)) (λ j h. absurd (ground arith))
            (λ j g. absurd (ground (arith, g.seen i k.0, at)))
            (Shape-attach s.allocated s.next (root s.head s.to_reclaim place)
              (root p s.to_reclaim (update place i (push_ends success))) zone inv.shape p stacked
              (root-head s.head p s.to_reclaim place i (push_ends success) (rw at refl))
              (rw k.0 refl) refl (ground (arith, k.0, inv.shape.null_free)) (rw k.0 refl)
              (ground (arith, k.1)))
            tt (λ h. absurd (ground arith))
            (
              ground (arith, k.0, inv.shape.null_free),
              ground arith,
              refl,
              rw tail (
                  Lists-kept s.next s.next s.value s.value zone (update zone p stacked) s.head vs
                    (λ a h. ground arith) inv.lists),
            )
            refl)
    | inr e ↦ rw e (
        local_step i [] s place zone vs (swaps_in p top c) at inv (loads_head p c) rests (λ j e. e)
          refl refl (known i [] s place zone vs _ at inv).0 refl)
  ]

  called_to :
      (c : Call) → place i ≡ idle → Outcome i (called i c ∷ []) s place vs idle (some (s, begins c))
  called_to (push v) at =
      local_step i (called i (push v) ∷ []) s place zone vs idle at inv (allocates v)
        (calls (push v)) (λ j e. refl) refl refl tt refl
  called_to pop at =
      local_step i (called i pop ∷ []) s place zone vs idle at inv loads_old (calls pop)
        (λ j e. refl) refl refl tt refl

  pub step-idle :
      place i ≡ idle → Outcome i (event input i idle) s place vs idle (step input i s idle)
  unfolding step
  step-idle at = called_to input.call at

  pub step-push_ends :
      (r : Status)
      → place i ≡ push_ends r
      → Outcome i
          (event input i (push_ends r))
          s
          place
          vs
          (push_ends r)
          (step input i s (push_ends r))
  unfolding step
  step-push_ends r at =
      local_step i (event input i (push_ends r)) s place zone vs (push_ends r) at inv idle returns
        (λ j e. refl) refl refl tt refl
