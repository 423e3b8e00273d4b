-- ===== src/Stack/Dispose.antt =====
-- `stack_init` and `stack_free`: what they obtain and give back.
use mathlib.Core.List.{reverse_aux}
use distibuted_sys.Base.{
  ℕ, zero, suc, ◌<◌, ◌≡◌, ◌≢◌, refl, Bool, true, false, Option, none, List, [], ◌∷◌, ◌&&◌, arith,
  if◌then◌else◌, length, replicate,
}
use distibuted_sys.Stack.{Ptr, null, StackNode, no_error, Memory, done, success, put}
use distibuted_sys.Stack.Hazard.{max_hazard_pointers}
use distibuted_sys.Stack.Lifetime.{
  Grants, stack_init, free_stack_nodes, free_reclaim_nodes, stack_free,
}
use distibuted_sys.Stack.Nodes.{
  Nodes, first, has, values, Linked, Linked-frame, Linked-put, IsStack,
}

-- The memory after `stack_init` with everything granted.
abbrev pub initialised : Bool → Memory → Memory
initialised has_destructor m = record m {
  stack_allocated = true;
  key_created = true;
  hazard_pointers = replicate max_hazard_pointers (record { id = 0; pointer = null });
  array_allocated = true;
  to_reclaim = null;
  has_destructor = has_destructor;
  reclaim_counter = 0;
  head = null;
  errno = no_error;
}

pub init-initialised :
    (grants : Grants) (stack_ptr : Ptr) (has_destructor : Bool) (m : Memory)
    → stack_ptr ≢ null
    → (grants.stack && (grants.key && grants.array)) ≡ true
    → stack_init grants stack_ptr has_destructor m ≡ done success (initialised has_destructor m)
unfolding stack_init
init-initialised grants stack_ptr has_destructor m there all = ground arith

pub initialised-IsStack :
    (has_destructor : Bool) (m : Memory) → IsStack (initialised has_destructor m) [] []
initialised-IsStack has_destructor m = record {
  head = refl;
  to_reclaim = refl;
  stack_linked = tt;
  reclaim_linked = tt;
  apart = λ a h. refl;
}

-- The nodes of `xs` are free, and the other addresses are as before.
pub record Gone (cell : Ptr → Option StackNode) (xs : Nodes) (c : Ptr → Option StackNode)
    : Type 0 where
  pub gone : (a : Ptr) → has xs a ≡ true → c a ≡ none
  pub same : (a : Ptr) → has xs a ≡ false → c a ≡ cell a

Gone-cons :
    {cell : Ptr → Option StackNode} (p : Ptr) (v : ℕ) {xs : Nodes} {c : Ptr → Option StackNode}
    → has xs p ≡ false
    → Gone (put cell p none) xs c
    → Gone cell ((p, v) ∷ xs) c
Gone-cons p v new g = record {
  gone = λ a h. ground (arith, g.gone a, g.same a);
  same = λ a h. ground (arith, g.same a);
}

-- What the destructor has been called for, the last first.
abbrev pub destroyed_after : Memory → Nodes → List ℕ
destroyed_after m xs = if m.has_destructor then reverse_aux (values xs) m.destroyed else m.destroyed

free_stack_nodes-Gone :
    (fuel : ℕ) (xs : Nodes) (m : Memory)
    → Linked m.cell xs
    → length xs < fuel
    → (c : Ptr → Option StackNode) × (free_stack_nodes fuel (first xs) m
        ≡ done tt (record m { cell = c; destroyed = destroyed_after m xs }))
      × Gone m.cell xs c
unfolding free_stack_nodes
free_stack_nodes-Gone zero xs m l h = absurd (omega arith)
free_stack_nodes-Gone (suc fuel) [] m l h =
    (m.cell, ground arith, record { gone = λ a i. cc; same = λ a i. refl })
free_stack_nodes-Gone (suc fuel) ((p, v) ∷ xs) m (ne, at, new, l) h =
    let m1 : Memory = record m {
      cell = put m.cell p none;
      destroyed = if m.has_destructor then v ∷ m.destroyed else m.destroyed;
    } in
    let (c, e, g) =
      free_stack_nodes-Gone fuel xs m1 (Linked-put m.cell xs p none l new) (omega arith) in
    (c, ground (arith, e), Gone-cons p v new g)

free_reclaim_nodes-Gone :
    (fuel : ℕ) (rs : Nodes) (m : Memory)
    → Linked m.cell rs
    → length rs < fuel
    → (c : Ptr → Option StackNode) × (free_reclaim_nodes fuel (first rs) m
        ≡ done tt (record m { cell = c }))
      × Gone m.cell rs c
unfolding free_reclaim_nodes
free_reclaim_nodes-Gone zero rs m l h = absurd (omega arith)
free_reclaim_nodes-Gone (suc fuel) [] m l h =
    (m.cell, refl, record { gone = λ a i. cc; same = λ a i. refl })
free_reclaim_nodes-Gone (suc fuel) ((p, v) ∷ rs) m (ne, at, new, l) h =
    let (c, e, g) =
      free_reclaim_nodes-Gone fuel rs (record m { cell = put m.cell p none })
        (Linked-put m.cell rs p none l new) (omega arith) in
    (c, ground (arith, e), Gone-cons p v new g)

-- `stack_free` frees every node of the stack and of the reclamation list and no other, once each,
-- and calls the destructor for each element of the stack, from the top.
pub free-Gone :
    (fuel : ℕ) (stack : Ptr) (m : Memory) (xs rs : Nodes)
    → IsStack m xs rs
    → stack ≢ null
    → length xs < fuel
    → length rs < fuel
    → (m' : Memory) × (stack_free fuel stack m ≡ done tt m')
      × ((a : Ptr) → has xs a ≡ true → m'.cell a ≡ none)
      × ((a : Ptr) → has rs a ≡ true → m'.cell a ≡ none)
      × ((a : Ptr) → has xs a ≡ false → has rs a ≡ false → m'.cell a ≡ m.cell a)
      × (m'.destroyed ≡ destroyed_after m xs)
      × (m'.stack_allocated ≡ false)
unfolding stack_free
free-Gone fuel stack m xs rs s there enough enough' =
    let (c, e, g) = free_stack_nodes-Gone fuel xs m s.stack_linked enough in
    let m1 : Memory = record m { cell = c; destroyed = destroyed_after m xs } in
    let (d, e', g') =
      free_reclaim_nodes-Gone fuel rs m1
        (Linked-frame rs s.reclaim_linked (λ a h. g.same a (ground (arith, s.apart a)))) enough' in
    (
      record m1 {
        cell = d;
        hazard_pointers = [];
        array_allocated = false;
        key_created = false;
        stack_allocated = false;
      },
      ground (arith, e, e', s.head, s.to_reclaim),
      λ a h. ground (arith, g.gone a, g'.same a, s.apart a),
      λ a h. g'.gone a h,
      λ a h h'. ground (arith, g.same a, g'.same a),
      refl,
      refl,
    )
