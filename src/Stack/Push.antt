-- ===== src/Stack/Push.antt =====
-- `stack_push` puts one element on top, or reports that memory is exhausted.
use distibuted_sys.Base.{ℕ, suc, ◌≡◌, ◌≢◌, refl, none, some, ◌∷◌, arith}
use distibuted_sys.Stack.{Ptr, null, node, Memory, done, success, put}
use distibuted_sys.Stack.Hazard.{System}
use distibuted_sys.Stack.Access.{stack_push}
use distibuted_sys.Stack.Nodes.{Nodes, IsStack, Linked-put, has_of_none}

-- The memory after a push of `v` at `p`.
abbrev pub pushed : Ptr → ℕ → Memory → Memory
pushed p v m = record m {
  cell = put (put m.cell p (some (node null v))) p (some (node m.head v));
  head = p;
}

pub push-pushed :
    (sys : System) (fuel : ℕ) (stack : Ptr) (v : ℕ) (m : Memory)
    → stack ≢ null
    → sys.fresh ≢ null
    → stack_push sys (suc fuel) stack v m ≡ done success (pushed sys.fresh v m)
unfolding stack_push
push-pushed sys fuel stack v m present got = ground arith

pub pushed-IsStack :
    (p : Ptr) (v : ℕ) (m : Memory) (xs rs : Nodes)
    → IsStack m xs rs
    → p ≢ null
    → m.cell p ≡ none
    → IsStack (pushed p v m) ((p, v) ∷ xs) rs
pushed-IsStack p v m xs rs s got unused =
    let out = has_of_none m.cell xs p s.stack_linked unused in
    let out' = has_of_none m.cell rs p s.reclaim_linked unused in
    record {
      head = refl;
      to_reclaim = s.to_reclaim;
      stack_linked = (
        got,
        ground arith,
        out,
        Linked-put _ xs p _ (Linked-put _ xs p _ s.stack_linked out) out,
      );
      reclaim_linked = Linked-put _ rs p _ (Linked-put _ rs p _ s.reclaim_linked out') out';
      apart = λ a h. ground (arith, s.apart a);
    }

-- With memory for a node, `stack_push` succeeds: the element stands on top of the ones there were,
-- and the retired nodes and the hazard pointers are as before.
pub push-IsStack :
    (sys : System) (fuel : ℕ) (stack : Ptr) (v : ℕ) (m : Memory) (xs rs : Nodes)
    → IsStack m xs rs
    → stack ≢ null
    → sys.fresh ≢ null
    → m.cell sys.fresh ≡ none
    → (m' : Memory) × (stack_push sys (suc fuel) stack v m ≡ done success m')
      × IsStack m' ((sys.fresh, v) ∷ xs) rs
      × (m'.hazard_pointers ≡ m.hazard_pointers)
      × (m'.errno ≡ m.errno)
push-IsStack sys fuel stack v m xs rs s present got unused = (
  pushed sys.fresh v m,
  push-pushed sys fuel stack v m present got,
  pushed-IsStack sys.fresh v m xs rs s got unused,
  refl,
  refl,
)
