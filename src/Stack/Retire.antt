-- ===== src/Stack/Retire.antt =====
-- The reclamation list: what is put on it, and what a clean-up frees.
use distibuted_sys.Base.{
  ℕ, zero, suc, ◌<◌, ◌≡◌, ◌≢◌, refl, ◌∙◌, Bool, true, false, Option, none, some, List, [], ◌∷◌, inl,
  inr, ◌&&◌, ◌||◌, arith, ◌==◌, Bool-cases, if◌then◌else◌, length,
}
use distibuted_sys.Stack.{Ptr, null, StackNode, node, HazardPointer, Memory, done, put}
use distibuted_sys.Stack.Hazard.{outstanding_hazard_pointers_for}
use distibuted_sys.Stack.Reclaim.{
  add_to_reclaim_list, delete_or_return, delete_loop, delete_nodes_with_no_hazards,
}
use distibuted_sys.Stack.Nodes.{Nodes, first, has, Linked, Linked-frame, IsStack}

==_refl : (p : ℕ) → (p == p) ≡ true
==_refl p = ground arith

-- After a spurious failure the loop starts again, with `p->next` set.
spurious_round :
    (k : ℕ) (p q : Ptr) (v : ℕ) (m : Memory)
    → m.cell p ≡ some (node q v)
    → add_to_reclaim_list (suc k) p m
      ≡ add_to_reclaim_list k p (record m {
        cell = put (put m.cell p (some (node m.to_reclaim v))) p (some (node m.to_reclaim v));
      })
unfolding add_to_reclaim_list
spurious_round k p q v m at = ground (arith, ==_refl p)

-- `add_to_reclaim_list` puts one node in front, however often the exchange fails spuriously.
pub add_to_reclaim_list-cons :
    (k : ℕ) (p q : Ptr) (v : ℕ) (m : Memory)
    → m.cell p ≡ some (node q v)
    → (c : Ptr → Option StackNode) × (add_to_reclaim_list k p m
        ≡ done tt (record m { cell = c; to_reclaim = p }))
      × (c p ≡ some (node m.to_reclaim v))
      × ((a : Ptr) → p ≢ a → c a ≡ m.cell a)
unfolding add_to_reclaim_list
add_to_reclaim_list-cons zero p q v m at =
    (put m.cell p (some (node m.to_reclaim v)), ground arith, ground arith, λ a ne. ground arith)
add_to_reclaim_list-cons (suc k) p q v m at =
    let c1 : Ptr → Option StackNode =
      put (put m.cell p (some (node m.to_reclaim v))) p (some (node m.to_reclaim v)) in
    let (c, e, here, same) =
      add_to_reclaim_list-cons k p m.to_reclaim v (record m { cell = c1 }) (ground arith) in
    (c, spurious_round k p q v m at ∙ e, here, λ a ne. ground (arith, same a ne))

-- What a round of the clean-up does to the node `p`: keeps it, in front of the list, or frees it.
abbrev pub Sorted : Bool → Ptr → ℕ → Memory → (Ptr → Option StackNode) → Ptr → Type 0
Sorted true p v m c t = (t ≡ p) × (c p ≡ some (node m.to_reclaim v))
Sorted false p v m c t = (t ≡ m.to_reclaim) × (c p ≡ none)

-- The nodes of `rs` that some hazard pointer protects, put one by one in front of `acc`.
unfoldable pub keep : List HazardPointer → Nodes → Nodes → Nodes
keep hz [] acc = acc
keep hz ((p, v) ∷ rs) acc =
    keep hz rs (if outstanding_hazard_pointers_for hz p then (p, v) ∷ acc else acc)

pub has-keep :
    (hz : List HazardPointer) (rs acc : Nodes) (a : Ptr)
    → has (keep hz rs acc) a ≡ ((has rs a && outstanding_hazard_pointers_for hz a) || has acc a)
unfolding keep
has-keep hz [] acc a = refl
has-keep hz ((p, v) ∷ rs) acc a =
    ground
      (arith, has-keep hz rs (if outstanding_hazard_pointers_for hz p then (p, v) ∷ acc else acc) a)

-- Every retired node that no hazard pointer protects is freed.
abbrev pub Freed : List HazardPointer → Nodes → (Ptr → Option StackNode) → Type 0
Freed hz rs c =
    (a : Ptr) → has rs a ≡ true → outstanding_hazard_pointers_for hz a ≡ false → c a ≡ none

module _ (spurious : Ptr → ℕ) where
  delete_or_return-Sorted :
      (p q : Ptr) (v : ℕ) (m : Memory)
      → m.cell p ≡ some (node q v)
      → (c : Ptr → Option StackNode) × (t : Ptr) × (delete_or_return spurious p m
          ≡ done tt (record m { cell = c; to_reclaim = t }))
        × Sorted (outstanding_hazard_pointers_for m.hazard_pointers p) p v m c t
        × ((a : Ptr) → p ≢ a → c a ≡ m.cell a)
  unfolding delete_or_return
  delete_or_return-Sorted p q v m at =
      elim (Bool-cases (outstanding_hazard_pointers_for m.hazard_pointers p)) [
        | inl hit ↦
            let (c, e, here, same) = add_to_reclaim_list-cons (spurious p) p q v m at in
            (c, p, rw hit e, rw hit (refl, here), same)
        | inr miss ↦ (
          put m.cell p none,
          m.to_reclaim,
          rw miss (ground arith),
          rw miss (refl, ground arith),
          λ a ne. ground arith,
        )
      ]

  -- The state in the middle of a clean-up: `rs` is still to do, `acc` is back on the list.
  record Between (m : Memory) (rs acc : Nodes) : Type 0 where
    todo : Linked m.cell rs
    back : Linked m.cell acc
    front : m.to_reclaim ≡ first acc
    apart : (a : Ptr) → has rs a ≡ true → has acc a ≡ false

  -- The memory after the clean-up.
  record Cleaned (m : Memory) (rs acc : Nodes) (c : Ptr → Option StackNode) (t : Ptr) : Type 0 where
    pub front : t ≡ first (keep m.hazard_pointers rs acc)
    pub linked : Linked c (keep m.hazard_pointers rs acc)
    pub freed :
        (a : Ptr)
        → has rs a ≡ true
        → outstanding_hazard_pointers_for m.hazard_pointers a ≡ false
        → c a ≡ none
    pub same : (a : Ptr) → has rs a ≡ false → c a ≡ m.cell a

  round :
      (p : Ptr) (v : ℕ) (rs acc : Nodes) (m : Memory) (c : Ptr → Option StackNode) (t : Ptr)
      (o : Bool)
      → Between m ((p, v) ∷ rs) acc
      → Sorted o p v m c t
      → ((a : Ptr) → p ≢ a → c a ≡ m.cell a)
      → Between (record m { cell = c; to_reclaim = t }) rs (if o then (p, v) ∷ acc else acc)
  round p v rs acc m c t true b sorted same =
      let (ne, at, new, l) = b.todo in
      record {
        todo = Linked-frame rs l (λ a h. same a (ground arith));
        back = (
          ne,
          ground (arith, b.front),
          b.apart p (ground arith),
          Linked-frame acc b.back (λ a h. same a (ground (arith, b.apart p))),
        );
        front = sorted.0;
        apart = λ a h. ground (arith, b.apart a);
      }
  round p v rs acc m c t false b sorted same =
      let (ne, at, new, l) = b.todo in
      record {
        todo = Linked-frame rs l (λ a h. same a (ground arith));
        back = Linked-frame acc b.back (λ a h. same a (ground (arith, b.apart p)));
        front = sorted.0 ∙ b.front;
        apart = λ a h. ground (arith, b.apart a);
      }

  loop_round :
      (fuel : ℕ) (p q : Ptr) (v : ℕ) (m m1 : Memory)
      → p ≢ null
      → m.cell p ≡ some (node q v)
      → delete_or_return spurious p m ≡ done tt m1
      → delete_loop spurious (suc fuel) p m ≡ delete_loop spurious fuel q m1
  unfolding delete_loop
  loop_round fuel p q v m m1 ne at e = ground arith

  Cleaned-cons :
      (p : Ptr) (v : ℕ) (rs acc : Nodes) (m : Memory) (c1 c : Ptr → Option StackNode) (t1 t : Ptr)
      → has rs p ≡ false
      → Sorted (outstanding_hazard_pointers_for m.hazard_pointers p) p v m c1 t1
      → ((a : Ptr) → p ≢ a → c1 a ≡ m.cell a)
      → Cleaned
          (record m { cell = c1; to_reclaim = t1 })
          rs
          (if outstanding_hazard_pointers_for m.hazard_pointers p then (p, v) ∷ acc else acc)
          c
          t
      → Cleaned m ((p, v) ∷ rs) acc c t
  unfolding keep
  Cleaned-cons p v rs acc m c1 c t1 t new sorted same d = record {
    front = d.front;
    linked = d.linked;
    freed = λ a h o. elim (Bool-cases (p == a)) [
      | inl here ↦ ground (arith, d.same p)
      | inr there ↦ d.freed a (ground arith) o
    ];
    same = λ a h. ground (arith, d.same a, same a);
  }

  delete_loop-Cleaned :
      (fuel : ℕ) (rs acc : Nodes) (m : Memory)
      → Between m rs acc
      → length rs < fuel
      → (c : Ptr → Option StackNode) × (t : Ptr) × (delete_loop spurious fuel (first rs) m
          ≡ done tt (record m { cell = c; to_reclaim = t }))
        × Cleaned m rs acc c t
  unfolding delete_loop keep
  delete_loop-Cleaned zero rs acc m b h = absurd (omega arith)
  delete_loop-Cleaned (suc fuel) [] acc m b h = (
    m.cell,
    m.to_reclaim,
    refl,
    record { front = b.front; linked = b.back; freed = λ a h. cc; same = λ a h. refl },
  )
  delete_loop-Cleaned (suc fuel) ((p, v) ∷ rs) acc m b h =
      let (ne, at, new, l) = b.todo in
      let (c1, t1, e1, sorted, same) = delete_or_return-Sorted p (first rs) v m at in
      let m1 : Memory = record m { cell = c1; to_reclaim = t1 } in
      let (c, t, e, cleaned) =
        delete_loop-Cleaned fuel rs _ m1 (round p v rs acc m c1 t1 _ b sorted same) (omega arith) in
      (
        c,
        t,
        loop_round fuel p (first rs) v m m1 ne at e1 ∙ e,
        Cleaned-cons p v rs acc m c1 c t1 t new sorted same cleaned,
      )

  pub delete_nodes-keep :
      (fuel : ℕ) (m : Memory) (xs rs : Nodes)
      → IsStack m xs rs
      → length rs < fuel
      → (c : Ptr → Option StackNode) × (t : Ptr) × (delete_nodes_with_no_hazards spurious fuel m
          ≡ done tt (record m { cell = c; to_reclaim = t }))
        × IsStack (record m { cell = c; to_reclaim = t }) xs (keep m.hazard_pointers rs [])
        × Freed m.hazard_pointers rs c
        × ((a : Ptr) → has rs a ≡ false → c a ≡ m.cell a)
  unfolding delete_nodes_with_no_hazards
  delete_nodes-keep fuel m xs rs s h =
      let start : Between (record m { to_reclaim = null }) rs [] = record {
        todo = s.reclaim_linked;
        back = tt;
        front = refl;
        apart = λ a i. refl;
      } in
      let (c, t, e, d) = delete_loop-Cleaned fuel rs [] (record m { to_reclaim = null }) start h in
      (
        c,
        t,
        rw s.to_reclaim e,
        record {
          head = s.head;
          to_reclaim = d.front;
          stack_linked = Linked-frame xs s.stack_linked (λ a i. d.same a (s.apart a i));
          reclaim_linked = d.linked;
          apart = λ a i. ground (arith, has-keep m.hazard_pointers rs [] a, s.apart a);
        },
        d.freed,
        d.same,
      )
