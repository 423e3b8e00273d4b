-- ===== src/Stack/Interleaved/Reclaims.antt =====
-- lab3/Stack.c: the accesses of `add_to_reclaim_list` and `delete_nodes_with_no_hazards`, whatever the other threads do meanwhile.
use distibuted_sys.Base.{
  ℕ, ◌≡◌, sym, refl, arith, true, false, inl, inr, Bool-cases, some, List, [], ◌==◌,
}
use distibuted_sys.Base.Threads.{update}
use distibuted_sys.Stack.{Ptr}
use distibuted_sys.Stack.Interleaved.{
  Shared, Place, loads_reclaim, links_reclaim, swaps_reclaim, Behind, counting, cleaning, goes_on,
  step, Input,
}
use distibuted_sys.Stack.Interleaved.Zones.{Zone, limbo, held, Shape-attach, Shape-write}
use distibuted_sys.Stack.Interleaved.Atomic.{responded, rests}
use distibuted_sys.Stack.Interleaved.Knowledge.{
  root, chain_of, node_of, chain_behind, behind_answer, passed, Knows, stage_of, Inv,
}
use distibuted_sys.Stack.Interleaved.Outcome.{
  Outcome, held_node, moving_step, own_step, local_step, known,
}
use distibuted_sys.Stack.Interleaved.Lists.{root-reclaim, root-update, Lists-kept}

-- What comes after the node is on the list.
chain-goes_on : (k : Behind) → chain_of (goes_on k) ≡ chain_behind k
chain-goes_on (counting v) = refl
chain-goes_on (cleaning next v) = refl

stage-goes_on :
    (value : Ptr → ℕ) (k : Behind) → stage_of value (goes_on k) ≡ responded (behind_answer k)
stage-goes_on value (counting v) = refl
stage-goes_on value (cleaning next v) = refl

Knows-goes_on :
    (next : Ptr → Ptr) (hazard : ℕ → Ptr) (place : ℕ → Place) (zone : Ptr → Zone) (i : ℕ)
    (k : Behind)
    → Knows next hazard place zone i (goes_on k)
Knows-goes_on next hazard place zone i (counting v) = tt
Knows-goes_on next hazard place zone i (cleaning n v) = tt

module _ (input : Input) (i : ℕ) (s : Shared) (place : ℕ → Place) (zone : Ptr → Zone) (vs : List ℕ)
    (inv : Inv s place zone vs) where
  pub step-loads_reclaim :
      (p : Ptr) (k : Behind)
      → place i ≡ loads_reclaim p k
      → Outcome i [] s place vs (loads_reclaim p k) (step input i s (loads_reclaim p k))
  unfolding step
  step-loads_reclaim p k at =
      local_step i [] s place zone vs (loads_reclaim p k) at inv (links_reclaim p s.to_reclaim k)
        rests (λ j e. refl) refl refl (known i [] s place zone vs _ at inv) refl

  -- The node's `next` is written, and its thread goes on with the list.
  relinks :
      (p r : Ptr) (P P' : Place)
      → place i ≡ P
      → zone p ≡ held i
      → node_of P' ≡ node_of P
      → chain_of P' ≡ chain_of P
      → ((j : ℕ) → passed P' j ≡ false)
      → Knows (update s.next p r) s.hazard (update place i P') zone i P'
      → stage_of s.value P ≡ stage_of s.value P'
      → Outcome i [] s place vs P (some (record s { next = update s.next p r }, P'))
  relinks p r P P' at k same chain unpassed knows st =
      own_step i [] s place zone vs P at inv (update s.next p r) s.hazard s.reclaim_counter s.errno
        P' rests (λ a ne. ground (arith, k)) (λ j e. refl) (λ j h e. unpassed j) same
        (Shape-write s.allocated s.next (root s.head s.to_reclaim place)
          (root s.head s.to_reclaim (update place i P')) zone inv.shape p r
          (root-update s.head s.to_reclaim place i P' (rw at chain)) (rw k refl))
        knows (rw st refl)

  pub step-links_reclaim :
      (p r : Ptr) (k : Behind)
      → place i ≡ links_reclaim p r k
      → Outcome i [] s place vs (links_reclaim p r k) (step input i s (links_reclaim p r k))
  unfolding step
  step-links_reclaim p r k at =
      let h : zone p ≡ held i = known i [] s place zone vs _ at inv in
      let u : s.allocated p ≡ true = ground (arith, inv.shape.is_used p) in
      rw u (relinks p r (links_reclaim p r k) (swaps_reclaim p k) at h refl refl (λ j. refl) h refl)

  joins_list :
      (p : Ptr) (k : Behind)
      → place i ≡ swaps_reclaim p k
      → zone p ≡ held i
      → s.next p ≡ s.to_reclaim
      → Outcome i [] s place vs (swaps_reclaim p k) (some (record s { to_reclaim = p }, goes_on k))
  joins_list p k at h first =
      let chain : chain_of (goes_on k) ≡ chain_of (place i) = rw at (chain-goes_on k) in
      moving_step i [] s place zone vs (swaps_reclaim p k) at inv p limbo s.allocated s.value s.head
        p (goes_on k) vs rests (λ a ne. refl)
        (λ a e. sym (held_node i [] s place zone vs (swaps_reclaim p k) at inv a e))
        (λ j e. ground (arith, h)) (λ j e. absurd (ground arith))
        (λ j g. (refl, λ e. absurd (ground arith), λ e. absurd (ground arith)))
        (Shape-attach s.allocated s.next (root s.head s.to_reclaim place)
          (root s.head p (update place i (goes_on k))) zone inv.shape p limbo
          (root-reclaim s.head s.to_reclaim p place i (goes_on k) chain) (rw h refl) refl
          (ground (arith, h, inv.shape.null_free)) (rw h refl) first)
        (Knows-goes_on s.next s.hazard (update place i (goes_on k)) (update zone p limbo) i k)
        (λ e. absurd (ground arith))
        (Lists-kept s.next s.next s.value s.value zone (update zone p limbo) s.head vs
          (λ a e. ground arith) inv.lists)
        (rw (stage-goes_on s.value k) refl)

  pub step-swaps_reclaim :
      (p : Ptr) (k : Behind)
      → place i ≡ swaps_reclaim p k
      → Outcome i [] s place vs (swaps_reclaim p k) (step input i s (swaps_reclaim p k))
  unfolding step
  step-swaps_reclaim p k at =
      let h : zone p ≡ held i = known i [] s place zone vs _ at inv in
      let u : s.allocated p ≡ true = ground (arith, inv.shape.is_used p) in
      elim (Bool-cases input.spurious) [
        | inl e ↦
            rw (u, e)
              (relinks p s.to_reclaim (swaps_reclaim p k) (loads_reclaim p k) at h refl refl
                (λ j. refl) h refl)
        | inr e ↦ elim (Bool-cases (s.to_reclaim == s.next p)) [
          | inl f ↦ rw (u, e, f) (joins_list p k at h (ground arith))
          | inr f ↦
              rw (u, e, f)
                (relinks p s.to_reclaim (swaps_reclaim p k) (loads_reclaim p k) at h refl refl
                  (λ j. refl) h refl)
        ]
      ]
