-- ===== src/Stack/Interleaved/Pops.antt =====
-- lab3/Stack.c: the accesses of `stack_pop` to the stack, whatever the other threads do meanwhile.
use distibuted_sys.Base.{
  ℕ, ◌≡◌, ◌≢◌, ◌<◌, ◌+◌, ◌*◌, ◌%◌, ◌^◌, leb, sym, ◌∙◌, refl, arith, true, false, inl, inr,
  Bool-cases, Option, some, none, List, [], ◌∷◌, ◌==◌,
}
use distibuted_sys.Base.Threads.{update}
use distibuted_sys.Stack.{Ptr, null, no_element}
use distibuted_sys.Stack.Hazard.{max_hazard_pointers}
use distibuted_sys.Stack.Interleaved.{
  Shared, Place, idle, protects, checks, reads_next, swaps_out, clears, fails, copies, counts,
  resets, takes, pop_ends, loads_reclaim, counting, loads_old, event, step, Input,
}
use distibuted_sys.Stack.Interleaved.Zones.{Zone, stacked, held, used, Shape-detach}
use distibuted_sys.Stack.Interleaved.Atomic.{rests, takes_effect, returns}
use distibuted_sys.Stack.Interleaved.Knowledge.{root, Guarded, Lists, Inv}
use distibuted_sys.Stack.Interleaved.Outcome.{
  Outcome, held_none, moving_step, quiet_step, local_step, known,
}
use distibuted_sys.Stack.Interleaved.Lists.{root-head, Lists-null, Lists-cons, Lists-detach}

module _ (input : Input) (i : ℕ) (s : Shared) (place : ℕ → Place) (zone : Ptr → Zone) (vs : List ℕ)
    (inv : Inv s place zone vs) where
  pub step-loads_old :
      place i ≡ loads_old → Outcome i [] s place vs loads_old (step input i s loads_old)
  unfolding step
  step-loads_old at =
      local_step i [] s place zone vs loads_old at inv (protects s.head) rests (λ j e. refl) refl
        refl tt refl

  pub step-protects :
      (old : Ptr)
      → place i ≡ protects old
      → Outcome i [] s place vs (protects old) (step input i s (protects old))
  unfolding step
  step-protects old at =
      quiet_step i [] s place zone vs (protects old) at inv (update s.hazard i old)
        s.reclaim_counter s.errno (checks old) rests (λ j e. ground arith) (λ j e. refl) refl refl
        (ground arith) refl

  pub step-reads_next :
      (old : Ptr)
      → place i ≡ reads_next old
      → Outcome i [] s place vs (reads_next old) (step input i s (reads_next old))
  unfolding step
  step-reads_next old at =
      let g : Guarded s.hazard place zone i old = known i [] s place zone vs _ at inv in
      let u : s.allocated old ≡ true = inv.shape.is_used old ∙ g.is_used in
      rw u (
        local_step i [] s place zone vs (reads_next old) at inv (swaps_out old (s.next old)) rests
          (λ j e. refl) refl refl
          (
            record {
              bound = g.bound;
              pointed = g.pointed;
              is_used = g.is_used;
              seen = λ u h. ground (arith, g.seen u h, at);
            },
            λ e. refl,
          )
          refl)

  -- The node that is still on top is not freed any more while the hazard pointer is on it.
  finds_top :
      (tmp : Ptr)
      → i < max_hazard_pointers
      → place i ≡ checks tmp
      → s.head ≡ tmp
      → tmp ≢ null
      → Guarded s.hazard (update place i (reads_next tmp)) zone i tmp
  finds_top tmp bound at top ne =
      let on : zone tmp ≡ stacked = ground (arith, inv.shape.root_in stacked refl) in
      record {
        bound = bound;
        pointed = known i [] s place zone vs _ at inv;
        is_used = rw on refl;
        seen = λ u h. absurd (ground arith);
      }

  pub step-checks :
      i < max_hazard_pointers
      → (tmp : Ptr) → place i ≡ checks tmp
      → Outcome i [] s place vs (checks tmp) (step input i s (checks tmp))
  unfolding step
  step-checks bound tmp at = elim (Bool-cases (s.head == tmp)) [
    | inl e ↦ elim (Bool-cases (tmp == null)) [
      | inl f ↦
          rw (e, f)
            (let top : null ≡ s.head = ground arith in
              let empty : vs ≡ [] = Lists-null s.next s.value zone vs (rw top inv.lists) in
              local_step i [] s place zone vs (checks tmp) at inv (clears null) takes_effect
                (λ j e. refl) refl refl (λ ne. absurd (ne refl)) (rw empty refl))
      | inr f ↦
          rw (e, f)
            (local_step i [] s place zone vs (checks tmp) at inv (reads_next tmp) rests
              (λ j e. refl) refl refl (finds_top tmp bound at (ground arith) (ground arith)) refl)
    ]
    | inr e ↦ rw e (
        local_step i [] s place zone vs (checks tmp) at inv (protects s.head) rests (λ j e. refl)
          refl refl tt refl)
  ]

  pub step-fails : place i ≡ fails → Outcome i [] s place vs fails (step input i s fails)
  unfolding step
  step-fails at =
      quiet_step i [] s place zone vs fails at inv s.hazard s.reclaim_counter no_element
        (pop_ends none) rests (λ j e. refl) (λ j e. refl) refl refl tt refl

  takes_first :
      (old n v : ℕ) (rest : List ℕ)
      → place i ≡ swaps_out old n
      → s.head ≡ old
      → old ≢ null
      → zone old ≡ stacked
      → s.next old ≡ n
      → vs ≡ v ∷ rest
      → s.value old ≡ v
      → Lists s.next s.value zone n rest
      → Outcome i [] s place vs (swaps_out old n) (some (record s { head = n }, clears old))
  takes_first old n v rest at top ne on tail cons first l =
      let off : old == null ≡ false = ground arith in
      let start : root s.head s.to_reclaim place stacked ≡ old = top in
      moving_step i [] s place zone vs (swaps_out old n) at inv old (held i) s.allocated s.value n
        s.to_reclaim (clears old) rest takes_effect (λ a ne. refl)
        (λ a h. absurd (held_none i [] s place zone vs (swaps_out old n) at inv refl a h))
        (λ j h. ground arith) (λ j h. ground arith)
        (λ j g. (refl, λ e. absurd (ground arith), λ e. refl))
        (Shape-detach s.allocated s.next (root s.head s.to_reclaim place)
          (root n s.to_reclaim (update place i (clears old))) zone inv.shape old stacked (held i)
          (λ w. rw tail (root-head s.head n s.to_reclaim place i (clears old) (rw at refl) w)) refl
          (sym top) ne refl refl)
        (λ e. ground arith) (λ e. refl)
        (Lists-detach s.next s.value zone old n (held i) rest ne
          (λ a h e. inv.shape.root_first a (rw h refl) (rw h (e ∙ sym top)))
          (λ e. ground (arith, inv.shape.root_first old)) l)
        (rw (cons, off, first) refl)

  takes_top :
      (old n : Ptr)
      → place i ≡ swaps_out old n
      → s.head ≡ old
      → Outcome i [] s place vs (swaps_out old n) (some (record s { head = n }, clears old))
  takes_top old n at top =
      let k : Guarded s.hazard place zone i old × (zone old ≡ stacked → s.next old ≡ n) =
        known i [] s place zone vs _ at inv in
      let u : used (zone old) ≡ true = k.0.is_used in
      let ne : old ≢ null = ground (arith, inv.shape.null_free) in
      let on : zone old ≡ stacked = ground (arith, inv.shape.root_in stacked refl) in
      let tail : s.next old ≡ n = k.1 on in
      let here : Lists s.next s.value zone old vs = rw (sym top) inv.lists in
      let (v, rest, cons, first, l) = Lists-cons s.next s.value zone old vs ne here in
      takes_first old n v rest at top ne on tail cons first (rw (sym tail) l)

  pub step-swaps_out :
      (old n : Ptr)
      → place i ≡ swaps_out old n
      → Outcome i [] s place vs (swaps_out old n) (step input i s (swaps_out old n))
  unfolding step
  step-swaps_out old n at = elim (Bool-cases (s.head == old)) [
    | inl e ↦ rw e (takes_top old n at (ground arith))
    | inr e ↦ rw e (
        local_step i [] s place zone vs (swaps_out old n) at inv loads_old rests (λ j e. refl) refl
          refl tt refl)
  ]

  pub step-clears :
      (old : Ptr)
      → place i ≡ clears old
      → Outcome i [] s place vs (clears old) (step input i s (clears old))
  unfolding step
  step-clears old at = elim (Bool-cases (old == null)) [
    | inl e ↦ rw e (
        quiet_step i [] s place zone vs (clears old) at inv (update s.hazard i null)
          s.reclaim_counter s.errno fails rests (λ j e. ground arith) (λ j e. refl) (ground arith)
          refl tt (rw e refl))
    | inr e ↦ rw e (
        quiet_step i [] s place zone vs (clears old) at inv (update s.hazard i null)
          s.reclaim_counter s.errno (copies old) rests (λ j e. ground arith) (λ j e. refl) refl refl
          (known i [] s place zone vs _ at inv (ground arith)) (rw e refl))
  ]

  pub step-copies :
      (old : Ptr)
      → place i ≡ copies old
      → Outcome i [] s place vs (copies old) (step input i s (copies old))
  unfolding step
  step-copies old at =
      let k : zone old ≡ held i = known i [] s place zone vs _ at inv in
      let u : s.allocated old ≡ true = ground (arith, inv.shape.is_used old) in
      rw u (
        local_step i [] s place zone vs (copies old) at inv
          (loads_reclaim old (counting (s.value old))) rests (λ j e. refl) refl refl k refl)

  pub step-counts :
      (v : ℕ) → place i ≡ counts v → Outcome i [] s place vs (counts v) (step input i s (counts v))
  unfolding step
  step-counts v at =
      elim (Bool-cases (leb (2 * max_hazard_pointers) ((s.reclaim_counter + 1) % 2 ^ 32))) [
        | inl e ↦ rw e (
            quiet_step i [] s place zone vs (counts v) at inv s.hazard _ s.errno (resets v) rests
              (λ j e. refl) (λ j e. refl) refl refl tt refl)
        | inr e ↦ rw e (
            quiet_step i [] s place zone vs (counts v) at inv s.hazard _ s.errno (pop_ends (some v))
              rests (λ j e. refl) (λ j e. refl) refl refl tt refl)
      ]

  pub step-resets :
      (v : ℕ) → place i ≡ resets v → Outcome i [] s place vs (resets v) (step input i s (resets v))
  unfolding step
  step-resets v at =
      quiet_step i [] s place zone vs (resets v) at inv s.hazard 0 s.errno (takes v) rests
        (λ j e. refl) (λ j e. refl) refl refl tt refl

  pub step-pop_ends :
      (o : Option ℕ)
      → place i ≡ pop_ends o
      → Outcome i (event input i (pop_ends o)) s place vs (pop_ends o) (step input i s (pop_ends o))
  unfolding step
  step-pop_ends o at =
      local_step i (event input i (pop_ends o)) s place zone vs (pop_ends o) at inv idle returns
        (λ j e. refl) refl refl tt refl
