-- ===== src/Stack/Interleaved/Alone.antt =====
-- lab3/Stack.c: a thread that nobody disturbs any more comes to the end of its call.
use distibuted_sys.Base.{
  ℕ, ◌<◌, ◌≡◌, sym, ◌∙◌, subst, refl, arith, true, inl, inr, Bool-cases, List, Option, some, none,
  ◌==◌,
}
use distibuted_sys.Base.Threads.{update}
use distibuted_sys.Stack.{Ptr, null, Status, no_memory, success, failure}
use distibuted_sys.Stack.Hazard.{max_hazard_pointers}
use distibuted_sys.Stack.Interleaved.{
  Shared, Place, idle, allocates, loads_head, links, swaps_in, push_ends, Input, step, follow,
  granted,
}
use distibuted_sys.Stack.Interleaved.Zones.{Zone}
use distibuted_sys.Stack.Interleaved.Knowledge.{Inv}
use distibuted_sys.Stack.Interleaved.Steps.{step-Outcome}

-- Thread `i` may be at `P` while the memory is `s`.
pub record Sound (i : ℕ) (s : Shared) (P : Place) : Type 0 where
  pub place : ℕ → Place
  pub zone : Ptr → Zone
  pub vs : List ℕ
  pub inv : Inv s place zone vs
  pub at : place i ≡ P

-- The thread alone goes on to the end of its call.
pub data Ends (input : Input) (i : ℕ) : Shared → Place → Type 0 where
  ended : {s : Shared} → Ends input i s idle
  goes :
      {s s' : Shared} {P P' : Place}
      → step input i s P ≡ some (s', P')
      → Ends input i s' P'
      → Ends input i s P

abbrev given : Shared → Place → Option (Shared × Place) → Shared × Place
given s P none = (s, P)
given s P (some r) = r

module _ (input : Input) (i : ℕ) (bound : i < max_hazard_pointers) where
  pub after :
      (s s' : Shared) (P P' : Place)
      → Sound i s P
      → step input i s P ≡ some (s', P')
      → Sound i s' P'
  after s s' P P' h e =
      let o = step-Outcome input i s h.place h.zone h.vs h.inv bound P h.at in
      subst (λ r. Sound i (given s P r).0 (given s P r).1) (sym o.result ∙ e)
        (record {
          place = update h.place i o.P';
          zone = o.zone';
          vs = o.vs';
          inv = o.inv;
          at = ground arith;
        })

  pub go :
      (s s' : Shared) (P P' : Place)
      → Sound i s P
      → step input i s P ≡ some (s', P')
      → (Sound i s' P' → Ends input i s' P')
      → Ends input i s P
  go s s' P P' h e k = goes e (k (after s s' P P' h e))

  pub follows :
      (s : Shared) (P : Place) (p : Ptr) (r : Shared × Place)
      → Sound i s P
      → step input i s P ≡ follow s p r
      → step input i s P ≡ some r
  follows s P p r h e =
      let o = step-Outcome input i s h.place h.zone h.vs h.inv bound P h.at in
      elim (Bool-cases (s.allocated p)) [
        | inl u ↦ e ∙ rw u refl
        | inr u ↦ absurd (ground (arith, o.result, e))
      ]

module _ (input : Input) (i : ℕ) (bound : i < max_hazard_pointers) where
  -- `stack_push`

  pub Ends-push_ends :
      (s : Shared) (r : Status) → Sound i s (push_ends r) → Ends input i s (push_ends r)
  unfolding step
  Ends-push_ends s r h = go input i bound s _ (push_ends r) idle h refl (λ h. ended)

  pub Ends-swaps_in_top :
      (s : Shared) (p top : Ptr) (c : ℕ)
      → Sound i s (swaps_in p top c)
      → s.head == top ≡ true
      → Ends input i s (swaps_in p top c)
  unfolding step
  Ends-swaps_in_top s p top c h e =
      go input i bound s (record s { head = p }) (swaps_in p top c) (push_ends success) h
        (rw e refl) (λ h. Ends-push_ends _ success h)

  pub Ends-links_top :
      (s : Shared) (p top : Ptr) (c : ℕ)
      → Sound i s (links p top c)
      → s.head == top ≡ true
      → Ends input i s (links p top c)
  unfolding step
  Ends-links_top s p top c h e =
      go input i bound s _ (links p top c) _ h
        (follows input i bound s (links p top c) p _ h (refl))
        (λ h. Ends-swaps_in_top _ p top _ h e)

  pub Ends-loads_head :
      (s : Shared) (p : Ptr) (c : ℕ) → Sound i s (loads_head p c) → Ends input i s (loads_head p c)
  unfolding step
  Ends-loads_head s p c h =
      go input i bound s _ (loads_head p c) _ h refl
        (λ h. Ends-links_top s p s.head _ h (ground arith))

  pub Ends-swaps_in :
      (s : Shared) (p top : Ptr) (c : ℕ)
      → Sound i s (swaps_in p top c)
      → Ends input i s (swaps_in p top c)
  unfolding step
  Ends-swaps_in s p top c h = elim (Bool-cases (s.head == top)) [
    | inl e ↦ Ends-swaps_in_top s p top c h e
    | inr e ↦
        go input i bound s s (swaps_in p top c) (loads_head p c) h (rw e refl)
          (λ h. Ends-loads_head s p c h)
  ]

  pub Ends-links :
      (s : Shared) (p top : Ptr) (c : ℕ)
      → Sound i s (links p top c)
      → Ends input i s (links p top c)
  unfolding step
  Ends-links s p top c h =
      go input i bound s _ (links p top c) _ h
        (follows input i bound s (links p top c) p _ h (refl)) (λ h. Ends-swaps_in _ p top _ h)

  pub Ends-allocates : (s : Shared) (v : ℕ) → Sound i s (allocates v) → Ends input i s (allocates v)
  unfolding step
  Ends-allocates s v h = elim (Bool-cases (granted s.allocated input.fresh == null)) [
    | inl e ↦
        go input i bound s (record s { errno = no_memory }) (allocates v) (push_ends failure) h
          (rw e refl) (λ h. Ends-push_ends _ failure h)
    | inr e ↦
        go input i bound s
          (record s {
            allocated = update s.allocated (granted s.allocated input.fresh) true;
            value = update s.value (granted s.allocated input.fresh) v;
          })
          (allocates v) (loads_head (granted s.allocated input.fresh) 0) h (rw e refl)
          (λ h. Ends-loads_head _ _ 0 h)
  ]
