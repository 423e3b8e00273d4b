-- ===== src/Stack/Lifecycle.antt =====
-- lab3/Stack.c: a stack from `stack_init` to `stack_free`.
use mathlib.Core.List.{reverse_aux}
use distibuted_sys.Base.{
  ℕ, suc, ◌+◌, ◌<◌, ◌≡◌, ◌≢◌, refl, sym, ◌∙◌, Bool, true, false, Option, none, List, [], ◌∷◌, ◌++◌,
  ◌&&◌, ◌||◌, arith, inl, inr, Bool-cases, if◌then◌else◌, length,
}
use distibuted_sys.Stack.{Ptr, null, StackNode, Memory, Code, done, ◌>>◌, return}
use distibuted_sys.Stack.Hazard.{System}
use distibuted_sys.Stack.Access.{stack_push}
use distibuted_sys.Stack.Lifetime.{Grants, stack_init, stack_free}
use distibuted_sys.Stack.Nodes.{Nodes, has, values, IsStack}
use distibuted_sys.Stack.Push.{pushed, push-pushed, pushed-IsStack}
use distibuted_sys.Stack.Dispose.{
  initialised, init-initialised, initialised-IsStack, free-Gone, destroyed_after,
}

-- What `malloc` gives: memory of the system that is not in use, for each node another.
abbrev pub Fresh : (Ptr → Option StackNode) → Nodes → Type 0
Fresh cell [] = Unit
Fresh cell ((p, v) ∷ ps) = (p ≢ null) × (cell p ≡ none) × (has ps p ≡ false) × Fresh cell ps

abbrev pub push_all : System → ℕ → Ptr → Nodes → Code (Unit {0})
push_all sys fuel stack [] = return tt
push_all sys fuel stack ((p, v) ∷ ps) = do
  stack_push (record sys { fresh = p }) (suc fuel) stack v
  push_all sys fuel stack ps

-- The pushes of `ps` onto `xs`.
abbrev stacked_on : Nodes → Nodes → Nodes
stacked_on xs [] = xs
stacked_on xs (x ∷ ps) = stacked_on (x ∷ xs) ps

abbrev pushed_all : Nodes → Memory → Memory
pushed_all [] m = m
pushed_all ((p, v) ∷ ps) m = pushed_all ps (pushed p v m)

stacked_on-has : (xs ps : Nodes) (a : Ptr) → has (stacked_on xs ps) a ≡ (has xs a || has ps a)
stacked_on-has xs [] a = ground arith
stacked_on-has xs ((p, v) ∷ ps) a = ground (arith, stacked_on-has ((p, v) ∷ xs) ps a)

stacked_on-length : (xs ps : Nodes) → length (stacked_on xs ps) ≡ length xs + length ps
stacked_on-length xs [] = omega arith
stacked_on-length xs (p ∷ ps) = omega (arith, stacked_on-length (p ∷ xs) ps)

-- The first pushed is the last that the destructor is called for.
stacked_on-values :
    (xs ps : Nodes) (d : List ℕ)
    → reverse_aux (values (stacked_on xs ps)) d ≡ reverse_aux (values xs) (values ps ++ d)
stacked_on-values xs [] d = refl
stacked_on-values xs ((p, v) ∷ ps) d = stacked_on-values ((p, v) ∷ xs) ps d

Fresh-pushed :
    (p : Ptr) (v : ℕ) (m : Memory) (ps : Nodes)
    → has ps p ≡ false
    → Fresh m.cell ps
    → Fresh (pushed p v m).cell ps
Fresh-pushed p v m [] out f = tt
Fresh-pushed p v m ((q, w) ∷ ps) out (ne, free, new, f) =
    (ne, ground arith, new, Fresh-pushed p v m ps (ground arith) f)

pushed_all-same :
    (ps : Nodes) (m : Memory) (a : Ptr) → has ps a ≡ false → (pushed_all ps m).cell a ≡ m.cell a
pushed_all-same [] m a out = refl
pushed_all-same ((p, v) ∷ ps) m a out = ground (arith, pushed_all-same ps (pushed p v m) a)

pushed_all-destroyed :
    (ps xs : Nodes) (m : Memory) → destroyed_after (pushed_all ps m) xs ≡ destroyed_after m xs
pushed_all-destroyed [] xs m = refl
pushed_all-destroyed ((p, v) ∷ ps) xs m = pushed_all-destroyed ps xs (pushed p v m)

push_all-IsStack :
    (sys : System) (fuel : ℕ) (stack : Ptr) (ps xs : Nodes) (m : Memory)
    → stack ≢ null
    → IsStack m xs []
    → Fresh m.cell ps
    → (push_all sys fuel stack ps m ≡ done tt (pushed_all ps m))
      × IsStack (pushed_all ps m) (stacked_on xs ps) []
push_all-IsStack sys fuel stack [] xs m present s f = (refl, s)
push_all-IsStack sys fuel stack ((p, v) ∷ ps) xs m present s (ne, free, new, f) =
    let once = push-pushed (record sys { fresh = p }) fuel stack v m present ne in
    let (runs, s') =
      push_all-IsStack sys fuel stack ps ((p, v) ∷ xs) (pushed p v m) present
        (pushed-IsStack p v m xs [] s ne free) (Fresh-pushed p v m ps new f) in
    (rw once runs, s')

Fresh-none :
    (cell : Ptr → Option StackNode) (ps : Nodes) (a : Ptr)
    → Fresh cell ps
    → has ps a ≡ true
    → cell a ≡ none
Fresh-none cell [] a f h = absurd (ground arith)
Fresh-none cell ((p, v) ∷ ps) a (ne, free, new, f) h = ground (arith, Fresh-none cell ps a f)

-- A program that makes a stack, pushes `ps`, in this order, and frees the stack.
abbrev pub use_stack : Grants → System → ℕ → Ptr → Bool → Nodes → Code (Unit {0})
use_stack grants sys fuel stack has_destructor ps = do
  stack_init grants stack has_destructor
  push_all sys fuel stack ps
  stack_free fuel stack

-- With everything granted, and memory for each node, a stack that is made by stack_init, gets any
-- number of elements by stack_push and is freed by stack_free leaves every address of the nodes as it
-- was before; the destructor, if there is one, has been called for each element once, from the last
-- pushed to the first, and the stack is not allocated any more.
pub use_stack_leaves_nothing :
    (grants : Grants) (sys : System) (fuel : ℕ) (stack : Ptr) (has_destructor : Bool) (ps : Nodes)
    (m : Memory)
    → stack ≢ null
    → (grants.stack && (grants.key && grants.array)) ≡ true
    → Fresh m.cell ps
    → length ps < fuel
    → (m' : Memory) × (use_stack grants sys fuel stack has_destructor ps m ≡ done tt m')
      × ((a : Ptr) → m'.cell a ≡ m.cell a)
      × (m'.destroyed ≡ (if has_destructor then values ps ++ m.destroyed else m.destroyed))
      × (m'.stack_allocated ≡ false)
use_stack_leaves_nothing grants sys fuel stack has_destructor ps m there all fresh enough =
    let start = initialised has_destructor m in
    let xs = stacked_on [] ps in
    let (runs, s) =
      push_all-IsStack sys fuel stack ps [] start there (initialised-IsStack has_destructor m)
        fresh in
    let fewer : length xs < fuel = omega (arith, stacked_on-length [] ps, enough) in
    let (m', frees, gone, _, same, destroyed, left) =
      free-Gone fuel stack (pushed_all ps start) xs [] s there fewer (omega (arith, enough)) in
    (
      m',
      rw (init-initialised grants stack has_destructor m there all, runs) frees,
      λ a. elim (Bool-cases (has ps a)) [
        | inl e ↦ gone a (stacked_on-has [] ps a ∙ e) ∙ sym (Fresh-none m.cell ps a fresh e)
        | inr e ↦ same a (stacked_on-has [] ps a ∙ e) refl ∙ pushed_all-same ps start a e
      ],
      destroyed ∙ pushed_all-destroyed ps xs start ∙ rw (stacked_on-values [] ps m.destroyed) refl,
      left,
    )
