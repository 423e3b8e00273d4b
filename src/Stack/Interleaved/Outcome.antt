-- ===== src/Stack/Interleaved/Outcome.antt =====
-- lab3/Stack.c: what one access of a thread must come to for the invariant and for the promise that
-- each call takes effect at one moment.
use distibuted_sys.Base.{
  ◌+◌, ℕ, ◌≡◌, ◌≢◌, sym, ◌∙◌, refl, arith, Bool, true, false, inl, inr, Bool-cases, Option, some,
  List, ◌==◌,
}
use distibuted_sys.Base.Threads.{update}
use distibuted_sys.Stack.{Ptr, null, StackErrno}
use distibuted_sys.Stack.Interleaved.{Shared, Place, Event}
use distibuted_sys.Stack.Interleaved.Zones.{Zone, stacked, held, used, Shape, Shape-quiet}
use distibuted_sys.Stack.Interleaved.Atomic.{Deed, act}
use distibuted_sys.Stack.Interleaved.Knowledge.{
  Limited, root, chain_of, node_of, passed, Guarded, Knows, Knows-kept, stage_of, stage_of-kept,
  Limited, Lists, Inv, Keeps,
}
use distibuted_sys.Stack.Interleaved.Lists.{root-update, Lists-kept}

pub record Outcome (i : ℕ) (seen : List Event) (s : Shared) (place : ℕ → Place) (vs : List ℕ)
    (P : Place) (r : Option (Shared × Place)) : Type 0 where
  pub s' : Shared
  pub P' : Place
  pub result : r ≡ some (s', P')
  pub zone' : Ptr → Zone
  pub vs' : List ℕ
  pub deed : Deed
  pub inv : Inv s' (update place i P') zone' vs'
  pub acts : act i deed vs (stage_of s.value P) ≡ some (vs', stage_of s'.value P', seen)
  pub others : (j : ℕ) → j ≢ i → stage_of s'.value (place j) ≡ stage_of s.value (place j)

module _ (i : ℕ) (seen : List Event) (s : Shared) (place : ℕ → Place) (zone : Ptr → Zone)
    (vs : List ℕ) (P : Place) (at : place i ≡ P) (inv : Inv s place zone vs) where
  pub outcome :
      (s' : Shared) (P' : Place) (zone' : Ptr → Zone) (vs' : List ℕ) (deed : Deed)
      → ((j : ℕ) → j ≢ i → Keeps s s' place (update place i P') zone zone' j)
      → Shape s'.allocated s'.next (root s'.head s'.to_reclaim (update place i P')) zone'
      → Knows s'.next s'.hazard (update place i P') zone' i P'
      → ((p : Ptr) → zone' p ≡ held i → node_of P' ≡ p)
      → Limited zone'
      → Lists s'.next s'.value zone' s'.head vs'
      → act i deed vs (stage_of s.value P) ≡ some (vs', stage_of s'.value P', seen)
      → Outcome i seen s place vs P (some (s', P'))
  outcome s' P' zone' vs' deed keeps shape knows holds limited lists acts = record {
    s' = s';
    P' = P';
    result = refl;
    zone' = zone';
    vs' = vs';
    deed = deed;
    inv = record {
      shape = shape;
      knows = knows_all;
      holds = holds_all;
      limited = limited;
      lists = lists;
    };
    acts = acts;
    others = λ j ne.
        stage_of-kept s s' place (update place i P') zone zone' j (keeps j ne) (place j)
          (inv.knows j);
  }
    where
      knows_all :
          (j : ℕ) → Knows s'.next s'.hazard (update place i P') zone' j (update place i P' j)
      knows_all j = elim (Bool-cases (i == j)) [
        | inl e ↦ let same : j ≡ i = ground arith in rw (e, same) knows
        | inr e ↦ rw e (
            Knows-kept s s' place (update place i P') zone zone' j (keeps j (ground arith))
              (place j) (inv.knows j))
      ]

      holds_all : (j : ℕ) (p : Ptr) → zone' p ≡ held j → node_of (update place i P' j) ≡ p
      holds_all j p h = elim (Bool-cases (i == j)) [
        | inl e ↦ let same : j ≡ i = ground arith in rw e (holds p (rw (sym same) h))
        | inr e ↦ rw e (inv.holds j p ((keeps j (ground arith)).held_only p h))
      ]

  pub known : Knows s.next s.hazard place zone i P
  known = rw (sym at) (inv.knows i)

  pub held_node : (a : Ptr) → zone a ≡ held i → node_of P ≡ a
  held_node a h = rw (sym at) (inv.holds i a h)

  pub held_none : node_of P ≡ null → (a : Ptr) → zone a ≢ held i
  held_none e a h = absurd (ground (arith, held_node a, e, inv.shape.null_free))

  -- No address changes its zone, and only the thread's own node another successor.
  pub own_step :
      (next' : Ptr → Ptr) (hazard' : ℕ → Ptr) (counter' : ℕ) (errno' : StackErrno) (P' : Place)
      (deed : Deed)
      → ((a : Ptr) → zone a ≢ held i → next' a ≡ s.next a)
      → ((j : ℕ) → j ≢ i → hazard' j ≡ s.hazard j)
      → ((j : ℕ) → s.hazard j ≡ node_of P → passed P j ≡ false → passed P' j ≡ false)
      → node_of P' ≡ node_of P
      → Shape s.allocated next' (root s.head s.to_reclaim (update place i P')) zone
      → Knows next' hazard' (update place i P') zone i P'
      → act i deed vs (stage_of s.value P) ≡ some (vs, stage_of s.value P', seen)
      → Outcome i seen s place vs P (
          some (
            record s { next = next'; hazard = hazard'; reclaim_counter = counter'; errno = errno' },
            P',
          ))
  own_step next' hazard' counter' errno' P' deed nx hz ps same shape knows acts =
      outcome
        (record s { next = next'; hazard = hazard'; reclaim_counter = counter'; errno = errno' }) P'
        zone vs deed
        (λ j ne. record {
          hazard_kept = hz j ne;
          held_kept = λ p e. e;
          held_only = λ p e. e;
          next_kept = λ p e. nx p (ground (arith, e));
          value_kept = λ p e. refl;
          guard_kept = λ p g. record {
            bound = g.bound;
            pointed = hz j ne ∙ g.pointed;
            is_used = g.is_used;
            seen = λ u e. ground (arith, g.seen u e, ps j, at, g.pointed, held_node p);
          };
          stacked_kept = λ p g e. (e, nx p (ground (arith, e)));
        })
        shape knows (λ p h. same ∙ rw (sym at) (inv.holds i p h)) inv.limited
        (Lists-kept s.next next' s.value s.value zone zone s.head vs
          (λ a e. (e, nx a (ground (arith, e)), refl)) inv.lists)
        acts

  -- Nothing of the nodes changes.
  pub quiet_step :
      (hazard' : ℕ → Ptr) (counter' : ℕ) (errno' : StackErrno) (P' : Place) (deed : Deed)
      → ((j : ℕ) → j ≢ i → hazard' j ≡ s.hazard j)
      → ((j : ℕ) → passed P j ≡ false → passed P' j ≡ false)
      → node_of P' ≡ node_of P
      → chain_of P' ≡ chain_of P
      → Knows s.next hazard' (update place i P') zone i P'
      → act i deed vs (stage_of s.value P) ≡ some (vs, stage_of s.value P', seen)
      → Outcome i seen s place vs P
          (some (record s { hazard = hazard'; reclaim_counter = counter'; errno = errno' }, P'))
  quiet_step hazard' counter' errno' P' deed hz ps same chain knows acts =
      own_step s.next hazard' counter' errno' P' deed (λ a e. refl) hz (λ j h. ps j) same
        (Shape-quiet s.allocated s.next (root s.head s.to_reclaim place)
          (root s.head s.to_reclaim (update place i P')) zone inv.shape
          (root-update s.head s.to_reclaim place i P' (rw at chain)))
        knows acts

  -- The step does not even touch the hazard pointers or the counter.
  pub local_step :
      (P' : Place) (deed : Deed)
      → ((j : ℕ) → passed P j ≡ false → passed P' j ≡ false)
      → node_of P' ≡ node_of P
      → chain_of P' ≡ chain_of P
      → Knows s.next s.hazard (update place i P') zone i P'
      → act i deed vs (stage_of s.value P) ≡ some (vs, stage_of s.value P', seen)
      → Outcome i seen s place vs P (some (s, P'))
  local_step P' deed ps same chain knows acts =
      quiet_step s.hazard s.reclaim_counter s.errno P' deed (λ j e. refl) ps same chain knows acts

  -- Node `p` goes to zone `z`.
  pub moving_step :
      (p : Ptr) (z : Zone) (allocated' : Ptr → Bool) (value' : Ptr → ℕ) (head' to_reclaim' : Ptr)
      (P' : Place) (vs' : List ℕ) (deed : Deed)
      → ((a : Ptr) → a ≢ p → value' a ≡ s.value a)
      → ((a : Ptr) → zone a ≡ held i → a ≡ p)
      → ((j : ℕ) → zone p ≡ held j → j ≡ i)
      → ((j : ℕ) → z ≡ held j → j ≡ i)
      → ((j : ℕ)
          → Guarded s.hazard place zone j p
          → (used z ≡ true) × (z ≢ stacked) × (z ≡ held i → passed P' j ≡ false))
      → Shape allocated' s.next (root head' to_reclaim' (update place i P')) (update zone p z)
      → Knows s.next s.hazard (update place i P') (update zone p z) i P'
      → (z ≡ held i → node_of P' ≡ p)
      → Lists s.next value' (update zone p z) head' vs'
      → act i deed vs (stage_of s.value P) ≡ some (vs', stage_of value' P', seen)
      → Outcome i seen s place vs P (
          some (
            record s {
              allocated = allocated';
              value = value';
              head = head';
              to_reclaim = to_reclaim';
            },
            P',
          ))
  moving_step p z allocated' value' head' to_reclaim' P' vs' deed vl only own own' gd shape knows
        here lists acts =
      outcome
        (record s {
          allocated = allocated';
          value = value';
          head = head';
          to_reclaim = to_reclaim';
        })
        P' (update zone p z) vs' deed
        (λ j ne. record {
          hazard_kept = refl;
          held_kept = λ a e. ground (arith, own j);
          held_only = λ a e. ground (arith, own' j);
          next_kept = λ a e. refl;
          value_kept = λ a e. vl a (ground (arith, own j));
          guard_kept = λ a g. record {
            bound = g.bound;
            pointed = g.pointed;
            is_used = ground (arith, at_p j a g, g.is_used);
            seen = λ u e. seen_kept j a g u e;
          };
          stacked_kept = λ a g e. (ground (arith, at_p j a g), refl);
        })
        shape knows (λ a h. ground (arith, here, only a))
        (inv.limited.0 + p + 1, λ a h. ground (arith, inv.limited.1 a)) lists acts
    where
      at_p :
          (j a : ℕ)
          → Guarded s.hazard place zone j a
          → p ≡ a
          → (used z ≡ true) × (z ≢ stacked) × (z ≡ held i → passed P' j ≡ false)
      at_p j a g e = gd j (rw e g)

      seen_kept :
          (j a : ℕ)
          → Guarded s.hazard place zone j a
          → (u : ℕ) → update zone p z a ≡ held u
          → passed (update place i P' u) j ≡ false
      seen_kept j a g u h = elim (Bool-cases (p == a)) [
        | inl e ↦
            let moved : z ≡ held u = ground arith in
            let mine : u ≡ i = own' u moved in
            let free_of : passed P' j ≡ false =
              (at_p j a g (ground arith)).2 (rw (sym mine) moved) in
            let hit : i == i ≡ true = ground arith in rw (mine, hit) free_of
        | inr e ↦
            let kept : zone a ≡ held u = ground arith in
            let other : u ≢ i = λ m. absurd (ground (arith, only a)) in
            ground (arith, g.seen u kept)
      ]
