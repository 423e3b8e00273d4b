-- ===== src/Stack/Interleaved/Knowledge.antt =====
-- lab3/Stack.c: what each thread may rely on at each place of `stack_push` and `stack_pop`, whatever
-- the others do.
use distibuted_sys.Base.{
  ℕ, ◌<◌, ◌≤◌, ◌≡◌, ◌≢◌, Bool, true, false, some, none, List, [], ◌∷◌, ltb, ◌==◌, arith, inl, inr,
  Bool-cases, refl, if◌then◌else◌,
}
use distibuted_sys.Stack.{Ptr, null}
use distibuted_sys.Stack.Hazard.{max_hazard_pointers}
use distibuted_sys.Stack.Interleaved.{
  Shared, Behind, counting, cleaning, Place, idle, allocates, loads_head, links, swaps_in,
  push_ends, loads_old, protects, checks, reads_next, swaps_out, clears, fails, copies, counts,
  resets, pop_ends, loads_reclaim, links_reclaim, swaps_reclaim, takes, cleans, scans, push, pop,
  Answer, pushed, popped,
}
use distibuted_sys.Stack.Interleaved.Zones.{Zone, free, stacked, limbo, held, chained, used, Shape}
use distibuted_sys.Stack.Interleaved.Atomic.{Stage, ready, invoked, responded}

-- The rest of the list that a thread has taken to clean.
abbrev pub chain_behind : Behind → Ptr
chain_behind (counting v) = null
chain_behind (cleaning next v) = next

abbrev pub chain_of : Place → Ptr
chain_of (loads_reclaim p k) = chain_behind k
chain_of (links_reclaim p r k) = chain_behind k
chain_of (swaps_reclaim p k) = chain_behind k
chain_of (cleans current v) = current
chain_of (scans current next hp_i v) = next
chain_of _ = null

abbrev pub root : Ptr → Ptr → (ℕ → Place) → Zone → Ptr
root head to_reclaim place stacked = head
root head to_reclaim place limbo = to_reclaim
root head to_reclaim place (chained i) = chain_of (place i)
root head to_reclaim place free = null
root head to_reclaim place (held i) = null

-- The one node that the thread works on.
abbrev pub node_of : Place → Ptr
node_of (loads_head p c) = p
node_of (links p top c) = p
node_of (swaps_in p top c) = p
node_of (clears old) = old
node_of (copies old) = old
node_of (loads_reclaim p k) = p
node_of (links_reclaim p r k) = p
node_of (swaps_reclaim p k) = p
node_of (scans current next hp_i v) = current
node_of _ = null

-- The node that the thread holds is new, or it has found that hazard pointer `i` is not on it.
abbrev pub passed : Place → ℕ → Bool
passed (loads_head p c) i = true
passed (links p top c) i = true
passed (swaps_in p top c) i = true
passed (scans current next hp_i v) i = ltb i hp_i
passed _ i = false

-- Hazard pointer `i` has been on `p` since before `p` left the stack.
pub record Guarded (hazard : ℕ → Ptr) (place : ℕ → Place) (zone : Ptr → Zone) (i : ℕ) (p : Ptr)
    : Type 0 where
  pub bound : i < max_hazard_pointers
  pub pointed : hazard i ≡ p
  pub is_used : used (zone p) ≡ true
  pub seen : (u : ℕ) → zone p ≡ held u → passed (place u) i ≡ false

abbrev pub behind_answer : Behind → Answer
behind_answer (counting v) = popped (some v)
behind_answer (cleaning next v) = popped (some v)

abbrev pub stage_of : (Ptr → ℕ) → Place → Stage
stage_of value idle = ready
stage_of value (allocates v) = invoked (push v)
stage_of value (loads_head p c) = invoked (push (value p))
stage_of value (links p top c) = invoked (push (value p))
stage_of value (swaps_in p top c) = invoked (push (value p))
stage_of value (push_ends r) = responded (pushed r)
stage_of value loads_old = invoked pop
stage_of value (protects old) = invoked pop
stage_of value (checks tmp) = invoked pop
stage_of value (reads_next old) = invoked pop
stage_of value (swaps_out old next) = invoked pop
stage_of value (clears old) = responded (popped (if old == null then none else some (value old)))
stage_of value fails = responded (popped none)
stage_of value (copies old) = responded (popped (some (value old)))
stage_of value (counts v) = responded (popped (some v))
stage_of value (resets v) = responded (popped (some v))
stage_of value (pop_ends o) = responded (popped o)
stage_of value (loads_reclaim p k) = responded (behind_answer k)
stage_of value (links_reclaim p r k) = responded (behind_answer k)
stage_of value (swaps_reclaim p k) = responded (behind_answer k)
stage_of value (takes v) = responded (popped (some v))
stage_of value (cleans current v) = responded (popped (some v))
stage_of value (scans current next hp_i v) = responded (popped (some v))

-- `P` is the place of thread `i`.
abbrev pub Knows : (Ptr → Ptr) → (ℕ → Ptr) → (ℕ → Place) → (Ptr → Zone) → ℕ → Place → Type 0
Knows next hazard place zone i (loads_head p c) = zone p ≡ held i
Knows next hazard place zone i (links p top c) = zone p ≡ held i
Knows next hazard place zone i (swaps_in p top c) = (zone p ≡ held i) × (next p ≡ top)
Knows next hazard place zone i (checks tmp) = hazard i ≡ tmp
Knows next hazard place zone i (reads_next old) = Guarded hazard place zone i old
Knows next hazard place zone i (swaps_out old n) =
    Guarded hazard place zone i old × (zone old ≡ stacked → next old ≡ n)
Knows next hazard place zone i (clears old) = old ≢ null → zone old ≡ held i
Knows next hazard place zone i (copies old) = zone old ≡ held i
Knows next hazard place zone i (loads_reclaim p k) = zone p ≡ held i
Knows next hazard place zone i (links_reclaim p r k) = zone p ≡ held i
Knows next hazard place zone i (swaps_reclaim p k) = zone p ≡ held i
Knows next hazard place zone i (scans current n hp_i v) = zone current ≡ held i
Knows next hazard place zone i _ = Unit

-- The values on the stack from `p` on.
abbrev pub Lists : (Ptr → Ptr) → (Ptr → ℕ) → (Ptr → Zone) → Ptr → List ℕ → Type 0
Lists next value zone p [] = p ≡ null
Lists next value zone p (v ∷ vs) =
    (p ≢ null) × (zone p ≡ stacked) × (value p ≡ v) × Lists next value zone (next p) vs

-- From some address on, none is in use.
abbrev pub Limited : (Ptr → Zone) → Type 0
Limited zone = (n : ℕ) × ((p : Ptr) → n ≤ p → zone p ≡ free)

pub record Inv (s : Shared) (place : ℕ → Place) (zone : Ptr → Zone) (vs : List ℕ) : Type 0 where
  pub shape : Shape s.allocated s.next (root s.head s.to_reclaim place) zone
  pub knows : (i : ℕ) → Knows s.next s.hazard place zone i (place i)
  pub holds : (i : ℕ) (p : Ptr) → zone p ≡ held i → node_of (place i) ≡ p
  pub limited : Limited zone
  pub lists : Lists s.next s.value zone s.head vs

-- What a step of thread `i` leaves as it was for thread `j`.
pub record Keeps (s s' : Shared) (place place' : ℕ → Place) (zone zone' : Ptr → Zone) (j : ℕ)
    : Type 0 where
  pub hazard_kept : s'.hazard j ≡ s.hazard j
  pub held_kept : (p : Ptr) → zone p ≡ held j → zone' p ≡ held j
  pub held_only : (p : Ptr) → zone' p ≡ held j → zone p ≡ held j
  pub next_kept : (p : Ptr) → zone p ≡ held j → s'.next p ≡ s.next p
  pub value_kept : (p : Ptr) → zone p ≡ held j → s'.value p ≡ s.value p
  pub guard_kept : (p : Ptr) → Guarded s.hazard place zone j p → Guarded s'.hazard place' zone' j p
  pub stacked_kept :
      (p : Ptr)
      → Guarded s.hazard place zone j p
      → zone' p ≡ stacked
      → (zone p ≡ stacked) × (s'.next p ≡ s.next p)

module _ (s s' : Shared) (place place' : ℕ → Place) (zone zone' : Ptr → Zone) (j : ℕ)
    (k : Keeps s s' place place' zone zone' j) where
  pub Knows-kept :
      (P : Place) → Knows s.next s.hazard place zone j P → Knows s'.next s'.hazard place' zone' j P
  Knows-kept (loads_head p c) h = k.held_kept p h
  Knows-kept (links p top c) h = k.held_kept p h
  Knows-kept (swaps_in p top c) h = (k.held_kept p h.0, rw (k.next_kept p h.0) h.1)
  Knows-kept (checks tmp) h = rw k.hazard_kept h
  Knows-kept (reads_next old) h = k.guard_kept old h
  Knows-kept (swaps_out old n) h =
      (k.guard_kept old h.0, λ e. ground (arith, k.stacked_kept old h.0 e, h.1))
  Knows-kept (clears old) h = λ e. k.held_kept old (h e)
  Knows-kept (copies old) h = k.held_kept old h
  Knows-kept (loads_reclaim p b) h = k.held_kept p h
  Knows-kept (links_reclaim p r b) h = k.held_kept p h
  Knows-kept (swaps_reclaim p b) h = k.held_kept p h
  Knows-kept (scans current n hp_i v) h = k.held_kept current h
  Knows-kept _ h = tt

  pub stage_of-kept :
      (P : Place) → Knows s.next s.hazard place zone j P → stage_of s'.value P ≡ stage_of s.value P
  stage_of-kept (loads_head p c) h = rw (k.value_kept p h) refl
  stage_of-kept (links p top c) h = rw (k.value_kept p h) refl
  stage_of-kept (swaps_in p top c) h = rw (k.value_kept p h.0) refl
  stage_of-kept (clears old) h = elim (Bool-cases (old == null)) [
    | inl e ↦ rw e refl
    | inr e ↦ rw (e, k.value_kept old (h (ground arith))) refl
  ]
  stage_of-kept (copies old) h = rw (k.value_kept old h) refl
  stage_of-kept _ h = refl
