-- ===== src/Stack/Nodes.antt =====
-- Linked nodes of lab3/Stack.c as sequences, and the state of a stack between two calls.
use distibuted_sys.Base.{
  ℕ, ◌≡◌, ◌≢◌, refl, Bool, true, false, Option, none, some, List, [], ◌∷◌, ◌||◌, arith, ◌==◌,
}
use distibuted_sys.Stack.{Ptr, null, StackNode, node, Memory, put}

-- Address and value of each node, in order.
abbrev pub Nodes : Type 0
Nodes = List (Ptr × ℕ)

abbrev pub first : Nodes → Ptr
first [] = null
first ((p, _) ∷ _) = p

abbrev pub has : Nodes → Ptr → Bool
has [] a = false
has ((p, _) ∷ xs) a = p == a || has xs a

abbrev pub values : Nodes → List ℕ
values [] = []
values ((_, v) ∷ xs) = v ∷ values xs

-- Each node of `xs` is allocated, leads to the next, and stands there once.
abbrev pub Linked : (Ptr → Option StackNode) → Nodes → Type 0
Linked cell [] = Unit
Linked cell ((p, v) ∷ xs) =
    (p ≢ null) × (cell p ≡ some (node (first xs) v)) × (has xs p ≡ false) × Linked cell xs

-- A change that spares the nodes of `xs` keeps them linked.
pub Linked-frame :
    {cell cell' : Ptr → Option StackNode} (xs : Nodes)
    → Linked cell xs
    → ((a : Ptr) → has xs a ≡ true → cell' a ≡ cell a)
    → Linked cell' xs
Linked-frame [] l same = tt
Linked-frame ((p, v) ∷ xs) (ne, at, new, l) same =
    (ne, ground (arith, same p), new, Linked-frame xs l (λ a h. same a (ground arith)))

pub Linked-put :
    (cell : Ptr → Option StackNode) (xs : Nodes) (p : Ptr) (o : Option StackNode)
    → Linked cell xs
    → has xs p ≡ false
    → Linked (put cell p o) xs
Linked-put cell xs p o l out = Linked-frame xs l (λ a h. ground arith)

pub has_of_none :
    (cell : Ptr → Option StackNode) (xs : Nodes) (p : Ptr)
    → Linked cell xs
    → cell p ≡ none
    → has xs p ≡ false
has_of_none cell [] p l e = refl
has_of_none cell ((q, v) ∷ xs) p l e = ground (arith, has_of_none cell xs p)

-- Between two calls: the stack holds `xs`, the first on top, and `rs` wait to be freed.
pub record IsStack (m : Memory) (xs rs : Nodes) : Type 0 where
  pub head : m.head ≡ first xs
  pub to_reclaim : m.to_reclaim ≡ first rs
  pub stack_linked : Linked m.cell xs
  pub reclaim_linked : Linked m.cell rs
  pub apart : (a : Ptr) → has xs a ≡ true → has rs a ≡ false
