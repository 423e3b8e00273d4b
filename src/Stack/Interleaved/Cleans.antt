-- ===== src/Stack/Interleaved/Cleans.antt =====
-- lab3/Stack.c: the accesses of `delete_nodes_with_no_hazards`, whatever the other threads do meanwhile.
use distibuted_sys.Base.{
  ℕ, suc, ltb, ◌≡◌, ◌≢◌, sym, ◌∙◌, refl, arith, ap, true, false, inl, inr, Bool-cases, some, List,
  [], ◌==◌, if◌then◌else◌,
}
use distibuted_sys.Base.Threads.{update}
use distibuted_sys.Stack.{Ptr, null}
use distibuted_sys.Stack.Hazard.{max_hazard_pointers}
use distibuted_sys.Stack.Interleaved.{
  Shared, Place, takes, pop_ends, loads_reclaim, cleans, scans, cleaning, step, Input,
}
use distibuted_sys.Stack.Interleaved.Zones.{
  Zone, free, stacked, limbo, held, chained, Shape-quiet, Shape-move, Shape-detach, same_zone,
}
use distibuted_sys.Stack.Interleaved.Capture.{Shape-capture, captured, used-captured, captured-kept}
use distibuted_sys.Stack.Interleaved.Atomic.{rests}
use distibuted_sys.Stack.Interleaved.Knowledge.{root, passed, Guarded, Inv}
use distibuted_sys.Stack.Interleaved.Outcome.{
  Outcome, held_node, held_none, moving_step, outcome, own_step, local_step, known,
}
use distibuted_sys.Stack.Interleaved.Lists.{root-chain, root-update, Lists-kept}

module _ (input : Input) (i : ℕ) (s : Shared) (place : ℕ → Place) (zone : Ptr → Zone) (vs : List ℕ)
    (inv : Inv s place zone vs) where
  root-taken :
      (v : ℕ) (y : Zone)
      → root s.head null (update place i (cleans s.to_reclaim v)) y ≡ (
          if same_zone limbo y
          then null
          else if same_zone (chained i) y
          then s.to_reclaim
          else root s.head s.to_reclaim place y)
  root-taken v free = refl
  root-taken v stacked = refl
  root-taken v limbo = refl
  root-taken v (held j) = refl
  root-taken v (chained j) = ground arith

  pub step-takes :
      (v : ℕ) → place i ≡ takes v → Outcome i [] s place vs (takes v) (step input i s (takes v))
  unfolding step
  step-takes v at =
      outcome i [] s place zone vs (takes v) at inv (record s { to_reclaim = null })
        (cleans s.to_reclaim v) (λ p. captured i (zone p)) vs rests
        (λ j ne. record {
          hazard_kept = refl;
          held_kept = λ p e. rw e refl;
          held_only = λ p e. captured-kept i (zone p) (held j) refl e;
          next_kept = λ p e. refl;
          value_kept = λ p e. refl;
          guard_kept = λ p g. record {
            bound = g.bound;
            pointed = g.pointed;
            is_used = used-captured i (zone p) ∙ g.is_used;
            seen = λ u e. ground (arith, g.seen u (captured-kept i (zone p) (held u) refl e), at);
          };
          stacked_kept = λ p g e. (captured-kept i (zone p) stacked refl e, refl);
        })
        (Shape-capture s.allocated s.next (root s.head s.to_reclaim place)
          (root s.head null (update place i (cleans s.to_reclaim v))) zone inv.shape i
          (λ y l. root-taken v y) (rw at refl))
        tt
        (λ p e. absurd (
          held_none i [] s place zone vs (takes v) at inv refl p
            (captured-kept i (zone p) (held i) refl e)))
        (inv.limited.0, λ p h. rw (inv.limited.1 p h) refl)
        (Lists-kept s.next s.next s.value s.value zone (λ p. captured i (zone p)) s.head vs
          (λ a e. (rw e refl, refl, refl)) inv.lists)
        refl

  takes_next :
      (current : Ptr) (v : ℕ)
      → place i ≡ cleans current v
      → current ≢ null
      → zone current ≡ chained i
      → Outcome i [] s place vs (cleans current v) (some (s, scans current (s.next current) 0 v))
  takes_next current v at ne on =
      let P' = scans current (s.next current) 0 v in
      moving_step i [] s place zone vs (cleans current v) at inv current (held i) s.allocated
        s.value s.head s.to_reclaim P' vs rests (λ a ne. refl)
        (λ a e. absurd (held_none i [] s place zone vs (cleans current v) at inv refl a e))
        (λ j e. absurd (ground (arith, on))) (λ j e. ground arith)
        (λ j g. (refl, λ e. absurd (ground arith), λ e. ground arith))
        (Shape-detach s.allocated s.next (root s.head s.to_reclaim place)
          (root s.head s.to_reclaim (update place i P')) zone inv.shape current (chained i) (held i)
          (root-chain s.head s.to_reclaim place i P') refl (rw at refl) ne refl refl)
        (ground arith) (λ e. refl)
        (Lists-kept s.next s.next s.value s.value zone (update zone current (held i)) s.head vs
          (λ a e. ground arith) inv.lists)
        refl

  -- What a thread has taken to clean is allocated.
  first_of_chain :
      (current : Ptr) (v : ℕ)
      → place i ≡ cleans current v
      → current ≢ null
      → zone current ≡ chained i
  first_of_chain current v at ne =
      let top : root s.head s.to_reclaim place (chained i) ≡ current = rw at refl in
      rw (sym top) (inv.shape.root_in (chained i) refl (λ e. ne (sym top ∙ e)))

  pub step-cleans :
      (current : Ptr) (v : ℕ)
      → place i ≡ cleans current v
      → Outcome i [] s place vs (cleans current v) (step input i s (cleans current v))
  unfolding step
  step-cleans current v at = elim (Bool-cases (current == null)) [
    | inl e ↦ rw e (
        local_step i [] s place zone vs (cleans current v) at inv (pop_ends (some v)) rests
          (λ j e. refl) refl (ground arith) tt refl)
    | inr e ↦
        let on : zone current ≡ chained i = first_of_chain current v at (ground arith) in
        let u : s.allocated current ≡ true = inv.shape.is_used current ∙ rw on refl in
        rw (e, u) (takes_next current v at (ground arith) on)
  ]

  -- A node is freed when no hazard pointer was found on it.
  frees :
      (current n : Ptr) (hp_i v : ℕ)
      → place i ≡ scans current n hp_i v
      → ltb hp_i max_hazard_pointers ≡ false
      → zone current ≡ held i
      → Outcome i [] s place vs
          (scans current n hp_i v)
          (some (record s { allocated = update s.allocated current false }, cleans n v))
  frees current n hp_i v at over h =
      moving_step i [] s place zone vs (scans current n hp_i v) at inv current free
        (update s.allocated current false) s.value s.head s.to_reclaim (cleans n v) vs rests
        (λ a ne. refl)
        (λ a e. sym (held_node i [] s place zone vs (scans current n hp_i v) at inv a e))
        (λ j e. ground (arith, h)) (λ j e. absurd (ground arith)) (λ j g. absurd (not_guarded j g))
        (Shape-move s.allocated s.next (root s.head s.to_reclaim place)
          (root s.head s.to_reclaim (update place i (cleans n v))) zone inv.shape current free false
          (root-update s.head s.to_reclaim place i (cleans n v) (rw at refl)) (rw h refl) refl
          (ground (arith, h, inv.shape.null_free)) refl)
        tt (λ e. absurd (ground arith))
        (Lists-kept s.next s.next s.value s.value zone (update zone current free) s.head vs
          (λ a e. ground arith) inv.lists)
        refl
    where
      not_guarded : (j : ℕ) → ¬ Guarded s.hazard place zone j current
      not_guarded j g =
          let missed : passed (scans current n hp_i v) j ≡ false =
            sym (ap (λ P. passed P j) at) ∙ g.seen i h in
          ground (arith, g.bound)

  scans_on :
      (current n : Ptr) (hp_i v : ℕ)
      → place i ≡ scans current n hp_i v
      → zone current ≡ held i
      → s.hazard hp_i == current ≡ false
      → Outcome i [] s place vs (scans current n hp_i v) (some (s, scans current n (suc hp_i) v))
  scans_on current n hp_i v at h other =
      own_step i [] s place zone vs (scans current n hp_i v) at inv s.next s.hazard
        s.reclaim_counter s.errno (scans current n (suc hp_i) v) rests (λ a ne. refl) (λ j e. refl)
        (λ j f e. ground arith) refl
        (Shape-quiet s.allocated s.next (root s.head s.to_reclaim place)
          (root s.head s.to_reclaim (update place i (scans current n (suc hp_i) v))) zone inv.shape
          (root-update s.head s.to_reclaim place i (scans current n (suc hp_i) v) (rw at refl)))
        h refl

  pub step-scans :
      (current n : Ptr) (hp_i v : ℕ)
      → place i ≡ scans current n hp_i v
      → Outcome i [] s place vs (scans current n hp_i v) (step input i s (scans current n hp_i v))
  unfolding step
  step-scans current n hp_i v at =
      let h : zone current ≡ held i = known i [] s place zone vs _ at inv in
      let u : s.allocated current ≡ true = ground (arith, inv.shape.is_used current) in
      elim (Bool-cases (ltb hp_i max_hazard_pointers)) [
        | inl e ↦ elim (Bool-cases (s.hazard hp_i == current)) [
          | inl f ↦
              rw (e, f)
                (local_step i [] s place zone vs (scans current n hp_i v) at inv
                  (loads_reclaim current (cleaning n v)) rests (λ j e. refl) refl refl h refl)
          | inr f ↦ rw (e, f) (scans_on current n hp_i v at h f)
        ]
        | inr e ↦ rw (e, u) (frees current n hp_i v at e h)
      ]
