-- ===== src/StackBenchmark/Kept.antt =====
-- The stack of lab3/Stack.c keeps the contract of the benchmark.
use distibuted_sys.Base.{
  ℕ, suc, ◌+◌, ◌≤◌, ◌<◌, ◌≡◌, refl, ap, sym, subst, Bool, true, false, none, some, List, [], ◌∷◌,
  inl, inr, arith, if◌then◌else◌, Bool-cases, length, Option-cases, replicate,
}
use distibuted_sys.Base.Threads.{update}
use distibuted_sys.Stack.{null, no_error, no_element, Memory}
use distibuted_sys.Stack.Hazard.{max_hazard_pointers, hazard_pointer_cleanup}
use distibuted_sys.Stack.Lifetime.{stack_init}
use distibuted_sys.Stack.Nodes.{Nodes, first, values, IsStack}
use distibuted_sys.Stack.Push.{push-IsStack}
use distibuted_sys.Stack.Pop.{point, pop-cons, pop-nil, cleans, unlinked}
use distibuted_sys.Stack.Retire.{keep}
use distibuted_sys.StackBenchmark.{max_threads}
use distibuted_sys.StackBenchmark.Contract.{Contract, HasRoom}
use distibuted_sys.StackBenchmark.Cells.{length-keep}
use distibuted_sys.StackBenchmark.HazardStack.{
  Shared, Answers, seen, Fits, hazard_stack, shared_init, shared_push, shared_pop, shared_leave,
}
use distibuted_sys.StackBenchmark.Owned.{
  Owned, Owned-none, Owned-out, Owned-leave, Holds, Enters, enter-old, enter-new,
}

module _ (a : Answers) (t : ℕ) (s : Shared) (inside : ℕ → Bool) (fits : Fits a s)
    (low : t ≤ max_threads) (room : HasRoom inside t) where
  enter : Owned s.memory.hazard_pointers s.local inside → Enters a (seen t s) s.local inside t
  enter o = elim (Option-cases (s.local t)) [
    | inl new ↦ enter-new a s inside t fits o low new room
    | inr (c, old) ↦ enter-old a s inside t fits o low c old
  ]

-- After `stack_init`.
abbrev pub started : Memory → Shared
started blank = record {
  memory = record blank {
    stack_allocated = true;
    key_created = true;
    hazard_pointers = replicate max_hazard_pointers (record { id = 0; pointer = null });
    array_allocated = true;
    to_reclaim = null;
    has_destructor = false;
    reclaim_counter = 0;
    head = null;
    errno = no_error;
  };
  local = λ _. none;
  pops = 0;
}

pub shared_init-started : (blank : Memory) → shared_init blank ≡ some (started blank)
unfolding shared_init stack_init
shared_init-started blank = ground arith

pub started-Holds : (blank : Memory) → Holds (started blank) [] (λ _. false)
started-Holds blank = record {
  xs = [];
  rs = [];
  stack = record {
    head = refl;
    to_reclaim = refl;
    stack_linked = tt;
    reclaim_linked = tt;
    apart = λ a h. refl;
  };
  is = refl;
  few = omega arith;
  owned = Owned-none;
}

-- The stack, whatever the thread-local value.
seen-IsStack :
    (t : ℕ) (s : Shared) (xs rs : Nodes) → IsStack s.memory xs rs → IsStack (seen t s) xs rs
seen-IsStack t s xs rs h = record {
  head = h.head;
  to_reclaim = h.to_reclaim;
  stack_linked = h.stack_linked;
  reclaim_linked = h.reclaim_linked;
  apart = h.apart;
}

pub pushes-Holds :
    (a : Answers) (t v : ℕ) (s : Shared) (vs : List ℕ) (inside : ℕ → Bool)
    → Holds s vs inside
    → Fits a s
    → (s' : Shared) × (shared_push a t v s ≡ some s') × Holds s' (v ∷ vs) inside
unfolding shared_push
pushes-Holds a t v s vs inside h fits =
    let (m, runs, stack, hazards, _) =
      push-IsStack a.system 0 1 v (seen t s) h.xs h.rs (seen-IsStack t s h.xs h.rs h.stack)
        (omega arith) fits.fresh fits.unused in
    (
      record s { memory = m },
      ground (arith, runs),
      record {
        xs = (a.system.fresh, v) ∷ h.xs;
        rs = h.rs;
        stack = stack;
        is = ap (λ ws. v ∷ ws) h.is;
        few = h.few;
        owned = subst (λ l. Owned l s.local inside) (sym hazards) h.owned;
      },
    )

-- A pop adds at most one node to the ones that wait to be freed.
length-retired :
    (m : Memory) (p v : ℕ) (rs : Nodes)
    → length (if cleans m then keep m.hazard_pointers ((p, v) ∷ rs) [] else (p, v) ∷ rs)
      ≤ suc (length rs)
length-retired m p v rs = elim (Bool-cases (cleans m)) [
  | inl clean ↦ rw clean (omega (arith, length-keep m.hazard_pointers ((p, v) ∷ rs) []))
  | inr dirty ↦ rw dirty (omega arith)
]

module _ (a : Answers) (t : ℕ) (s : Shared) (inside : ℕ → Bool) (fits : Fits a s)
    (low : t ≤ max_threads) (room : HasRoom inside t) where
  pub pops-Holds :
      (v : ℕ) (vs : List ℕ)
      → Holds s (v ∷ vs) inside
      → (s' : Shared) × (shared_pop a t s ≡ some (some v, s')) × Holds s' vs (update inside t true)
  unfolding shared_pop
  pops-Holds v vs h = take h.xs h.is h.stack
    where
      take :
          (xs : Nodes)
          → values xs ≡ v ∷ vs
          → IsStack s.memory xs h.rs
          → (s' : Shared) × (shared_pop a t s ≡ some (some v, s'))
            × Holds s' vs (update inside t true)
      take [] is stack = absurd (ground (arith, is))
      take ((p, w) ∷ xs) is stack =
          let en = enter a t s inside fits low room h.owned in
          let q : w ≡ v = ground (arith, is) in
          let short : length h.rs + 1 < suc (s.pops + 1) = omega (arith, h.few) in
          let (m, runs, r) =
            pop-cons a.spurious a.system (s.pops + 1) 1 2 p w (seen t s) xs h.rs en.hs en.c en.h
              (seen-IsStack t s ((p, w) ∷ xs) h.rs stack) en.has (omega arith) (omega arith)
              short in
          let before = unlinked a.spurious (seen t s) en.hs en.c en.h (first xs) in
          (
            record { memory = m; local = update s.local t m.local_hazard; pops = suc s.pops },
            ground (arith, runs, q),
            record {
              xs = xs;
              rs =
                  if cleans before
                  then keep before.hazard_pointers ((p, w) ∷ h.rs) []
                  else (p, w) ∷ h.rs;
              stack = r.stack;
              is = ground (arith, is);
              few = omega (arith, h.few, length-retired before p w h.rs);
              owned = rw (r.hazards, r.local) en.owned;
            },
          )

  pub finds_none-Holds :
      Holds s [] inside
      → (s' : Shared) × (shared_pop a t s ≡ some (none, s')) × Holds s' [] (update inside t true)
  unfolding shared_pop
  finds_none-Holds h = find h.xs h.is h.stack
    where
      find :
          (xs : Nodes)
          → values xs ≡ []
          → IsStack s.memory xs h.rs
          → (s' : Shared) × (shared_pop a t s ≡ some (none, s'))
            × Holds s' [] (update inside t true)
      find ((p, w) ∷ xs) is stack = absurd (ground (arith, is))
      find [] is stack =
          let en = enter a t s inside fits low room h.owned in
          let m = record s.memory {
            hazard_pointers = point en.hs en.c en.h null;
            local_hazard = some en.c;
            errno = no_element;
          } in
          let runs =
            pop-nil a.spurious a.system (s.pops + 1) 1 2 (seen t s) h.rs en.hs en.c en.h
              (seen-IsStack t s [] h.rs stack) en.has (omega arith) (omega arith) in
          (
            record { memory = m; local = update s.local t (some en.c); pops = suc s.pops },
            ground (arith, runs),
            record {
              xs = [];
              rs = h.rs;
              stack = record {
                head = stack.head;
                to_reclaim = stack.to_reclaim;
                stack_linked = stack.stack_linked;
                reclaim_linked = stack.reclaim_linked;
                apart = stack.apart;
              };
              is = refl;
              few = omega (arith, h.few);
              owned = en.owned;
            },
          )

pub leaves-Holds :
    (t : ℕ) (s : Shared) (vs : List ℕ) (inside : ℕ → Bool)
    → Holds s vs inside
    → t ≤ max_threads
    → Holds (shared_leave t s) vs (update inside t false)
unfolding shared_leave hazard_pointer_cleanup
leaves-Holds t s vs inside h low = elim (Option-cases (s.local t)) [
  | inl new ↦
      rw (shared_leave, new)
        (record {
          xs = h.xs;
          rs = h.rs;
          stack = h.stack;
          is = h.is;
          few = h.few;
          owned = Owned-out s.memory.hazard_pointers s.local inside t h.owned new;
        })
  | inr (c, old) ↦
      rw (shared_leave, old)
        (record {
          xs = h.xs;
          rs = h.rs;
          stack = record {
            head = h.stack.head;
            to_reclaim = h.stack.to_reclaim;
            stack_linked = h.stack.stack_linked;
            reclaim_linked = h.stack.reclaim_linked;
            apart = h.stack.apart;
          };
          is = h.is;
          few = h.few;
          owned = Owned-leave s.memory.hazard_pointers s.local inside t c h.owned old low;
        })
]

-- The contract of the benchmark, kept by the stack over any memory that it is put in.
abbrev pub hazard_stack-Contract : (blank : Memory) → Contract (hazard_stack blank)
hazard_stack-Contract blank = record {
  Holds = Holds;
  Fits = Fits;
  start = started blank;
  starts = shared_init-started blank;
  empty = started-Holds blank;
  pushes = pushes-Holds;
  pops = λ a t v s vs inside h fits low room. pops-Holds a t s inside fits low room v vs h;
  finds_none = λ a t s inside h fits low room. finds_none-Holds a t s inside fits low room h;
  leaves = leaves-Holds;
}
