-- ===== src/Stack/Pop.antt =====
-- `stack_pop` takes the element on top, or reports an empty stack.
use distibuted_sys.Base.{
  ℕ, suc, ◌+◌, ◌*◌, ◌%◌, ◌^◌, ◌<◌, ◌≡◌, ◌≢◌, refl, Bool, false, Option, none, some, List, [], ◌∷◌,
  inl, inr, arith, leb, if◌then◌else◌, Bool-cases, length, get_elem?, set, get_elem?-set_self,
  set-set,
}
use distibuted_sys.Stack.{
  Ptr, null, StackNode, node, HazardPointer, no_element, Memory, done, success, failure,
}
use distibuted_sys.Stack.Hazard.{
  max_hazard_pointers, System, set_hazard, get_hazard_pointer_for_current_thread,
}
use distibuted_sys.Stack.Access.{unlink, retire, stack_pop}
use distibuted_sys.Stack.Nodes.{Nodes, first, has, Linked-frame, IsStack}
use distibuted_sys.Stack.Retire.{keep, add_to_reclaim_list-cons, delete_nodes-keep}

-- The calling thread has the hazard pointer `i`, which holds `h`, by the time it enters the loops.
pub record HasHazard (sys : System) (m : Memory) (hs : List HazardPointer) (i : ℕ)
    (h : HazardPointer) : Type 0 where
  pub got :
      get_hazard_pointer_for_current_thread sys m
      ≡ done (some i) (record m { hazard_pointers = hs; local_hazard = some i })
  pub here : get_elem? hs i ≡ some h

abbrev pub point : List HazardPointer → ℕ → HazardPointer → Ptr → List HazardPointer
point hs i h p = set hs i (record h { pointer = p })

module _ (m : Memory) (i : ℕ) (h : HazardPointer)
    (here : get_elem? m.hazard_pointers i ≡ some h) where
  set_hazard-point :
      (p : Ptr)
      → set_hazard (some i) p m
        ≡ done tt (record m { hazard_pointers = point m.hazard_pointers i h p })
  unfolding set_hazard
  set_hazard-point p = ground arith

  unlink-null :
      (fuel : ℕ)
      → m.head ≡ null
      → unlink (suc fuel) (some i) m
        ≡ done null (record m { hazard_pointers = point m.hazard_pointers i h null })
  unfolding unlink
  unlink-null fuel e = ground arith

  unlink-node :
      (fuel : ℕ) (p q : Ptr) (v : ℕ)
      → m.head ≡ p
      → p ≢ null
      → m.cell p ≡ some (node q v)
      → unlink (suc fuel) (some i) m
        ≡ done p (record m { hazard_pointers = point m.hazard_pointers i h p; head = q })
  unfolding unlink
  unlink-node fuel p q v e ne at = ground arith

abbrev pub next_counter : Memory → ℕ
next_counter m = (m.reclaim_counter + 1) % 2 ^ 32

-- Whether this pop cleans up: at every 128th.
abbrev pub cleans : Memory → Bool
cleans m = leb (2 * max_hazard_pointers) (next_counter m)

-- What the node `(p, v)` and the retired nodes `rs` come to, from the memory `m` to `m'`.
pub record Retired (m : Memory) (p : Ptr) (v : ℕ) (xs rs : Nodes) (m' : Memory) : Type 0 where
  pub stack :
      IsStack m' xs (if cleans m then keep m.hazard_pointers ((p, v) ∷ rs) [] else (p, v) ∷ rs)
  pub counter : m'.reclaim_counter ≡ (if cleans m then 0 else next_counter m)
  pub hazards : m'.hazard_pointers ≡ m.hazard_pointers
  pub errno : m'.errno ≡ m.errno
  pub local : m'.local_hazard ≡ m.local_hazard

module _ (spurious : Ptr → ℕ) where
  added :
      (p q : Ptr) (v : ℕ) (m : Memory) (xs rs : Nodes) (c : Ptr → Option StackNode)
      → IsStack m xs rs
      → p ≢ null
      → has xs p ≡ false
      → has rs p ≡ false
      → c p ≡ some (node m.to_reclaim v)
      → ((a : Ptr) → p ≢ a → c a ≡ m.cell a)
      → IsStack (record m { cell = c; to_reclaim = p }) xs ((p, v) ∷ rs)
  added p q v m xs rs c s ne out out' at same = record {
    head = s.head;
    to_reclaim = refl;
    stack_linked = Linked-frame xs s.stack_linked (λ a i. same a (ground arith));
    reclaim_linked = (
      ne,
      ground (arith, s.to_reclaim),
      out',
      Linked-frame rs s.reclaim_linked (λ a i. same a (ground arith)),
    );
    apart = λ a i. ground (arith, s.apart a);
  }

  retire-Retired :
      (fuel : ℕ) (p q : Ptr) (v : ℕ) (m : Memory) (xs rs : Nodes)
      → IsStack m xs rs
      → p ≢ null
      → has xs p ≡ false
      → has rs p ≡ false
      → m.cell p ≡ some (node q v)
      → length rs + 1 < fuel
      → (m' : Memory) × (retire spurious fuel p m ≡ done tt m') × Retired m p v xs rs m'
  unfolding retire
  retire-Retired fuel p q v m xs rs s ne out out' at enough =
      let (c, e, here, same) = add_to_reclaim_list-cons (spurious p) p q v m at in
      let s1 = added p q v m xs rs c s ne out out' here same in
      elim (Bool-cases (cleans m)) [
        | inl clean ↦
            let (d, t, e2, s2, freed, rest) =
              delete_nodes-keep spurious fuel
                (record m { cell = c; to_reclaim = p; reclaim_counter = 0 }) xs ((p, v) ∷ rs)
                (record {
                  head = s1.head;
                  to_reclaim = s1.to_reclaim;
                  stack_linked = s1.stack_linked;
                  reclaim_linked = s1.reclaim_linked;
                  apart = s1.apart;
                })
                (omega arith) in
            (
              record m { cell = d; to_reclaim = t; reclaim_counter = 0 },
              rw (e, clean) e2,
              record {
                stack = rw clean (record {
                  head = s2.head;
                  to_reclaim = s2.to_reclaim;
                  stack_linked = s2.stack_linked;
                  reclaim_linked = s2.reclaim_linked;
                  apart = s2.apart;
                });
                counter = rw clean;
                hazards = refl;
                errno = refl;
                local = refl;
              },
            )
        | inr dirty ↦ (
          record m { cell = c; to_reclaim = p; reclaim_counter = next_counter m },
          rw (e, dirty),
          record {
            stack = rw dirty (record {
              head = s1.head;
              to_reclaim = s1.to_reclaim;
              stack_linked = s1.stack_linked;
              reclaim_linked = s1.reclaim_linked;
              apart = s1.apart;
            });
            counter = rw dirty;
            hazards = refl;
            errno = refl;
            local = refl;
          },
        )
      ]

  -- The memory in which the node that `stack_pop` has unlinked is retired.
  abbrev pub unlinked : Memory → List HazardPointer → ℕ → HazardPointer → Ptr → Memory
  unlinked m hs i h q = record m {
    hazard_pointers = point hs i h null;
    local_hazard = some i;
    head = q;
  }

  -- A pop from a stack with an element on top returns it, leaves the rest, and retires its node.
  pub pop-cons :
      (sys : System) (fuel : ℕ) (stack place p : Ptr) (v : ℕ) (m : Memory) (xs rs : Nodes)
      (hs : List HazardPointer) (i : ℕ) (h : HazardPointer)
      → IsStack m ((p, v) ∷ xs) rs
      → HasHazard sys m hs i h
      → stack ≢ null
      → place ≢ null
      → length rs + 1 < suc fuel
      → (m' : Memory) × (stack_pop sys spurious (suc fuel) stack place m
          ≡ done (success, some v) m')
        × Retired (unlinked m hs i h (first xs)) p v xs rs m'
  unfolding stack_pop
  pop-cons sys fuel stack place p v m xs rs hs i h s z present there enough =
      let (ne, at, out, l) = s.stack_linked in
      let m0 : Memory = record m { hazard_pointers = hs; local_hazard = some i } in
      let m1 : Memory = record m0 { hazard_pointers = point hs i h p; head = first xs } in
      let self = get_elem?-set_self hs i h (record h { pointer = p }) z.here in
      let (m', e, r) =
        retire-Retired (suc fuel) p (first xs) v (unlinked m hs i h (first xs)) xs rs
          (record {
            head = refl;
            to_reclaim = s.to_reclaim;
            stack_linked = l;
            reclaim_linked = s.reclaim_linked;
            apart = λ a b. s.apart a (ground arith);
          })
          ne out (s.apart p (ground arith)) at enough in
      (
        m',
        ground (
          arith,
          z.got,
          unlink-node m0 i h z.here fuel p (first xs) v s.head ne at,
          set_hazard-point m1 i (record h { pointer = p }) self null,
          set-set hs i (record h { pointer = p }) (record h { pointer = null }),
          e,
        ),
        r,
      )

  -- A pop from an empty stack fails with NO_ELEMENT, and the stack stays empty.
  pub pop-nil :
      (sys : System) (fuel : ℕ) (stack place : Ptr) (m : Memory) (rs : Nodes)
      (hs : List HazardPointer) (i : ℕ) (h : HazardPointer)
      → IsStack m [] rs
      → HasHazard sys m hs i h
      → stack ≢ null
      → place ≢ null
      → stack_pop sys spurious (suc fuel) stack place m
        ≡ done
            (failure, none)
            (record m {
              hazard_pointers = point hs i h null;
              local_hazard = some i;
              errno = no_element;
            })
  unfolding stack_pop
  pop-nil sys fuel stack place m rs hs i h s z present there =
      let m0 : Memory = record m { hazard_pointers = hs; local_hazard = some i } in
      let self = get_elem?-set_self hs i h (record h { pointer = null }) z.here in
      ground (
        arith,
        z.got,
        unlink-null m0 i h z.here fuel s.head,
        set_hazard-point (record m0 { hazard_pointers = point hs i h null }) i
            (record h { pointer = null }) self null,
        set-set hs i (record h { pointer = null }) (record h { pointer = null }),
      )
