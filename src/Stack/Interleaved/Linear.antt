-- ===== src/Stack/Interleaved/Linear.antt =====
-- lab3/Stack.c: calls of `stack_push` and `stack_pop` whose accesses interleave, against a stack on
-- which each call takes effect at one moment.
use distibuted_sys.Base.{ℕ, ◌≡◌, ◌≢◌, ◌∙◌, refl, arith, true, some, none, List, [], ◌∷◌}
use distibuted_sys.Stack.{Ptr, null}
use distibuted_sys.Stack.Interleaved.{Shared, Event, Input, System, turn, runs, start}
use distibuted_sys.Stack.Interleaved.Zones.{Zone, used}
use distibuted_sys.Stack.Interleaved.Atomic.{Deed, Atomic, atomic_turn, atomic_start}
use distibuted_sys.Stack.Interleaved.Knowledge.{Lists}
use distibuted_sys.Stack.Interleaved.Simulation.{started}

-- No schedule of pushes and pops, whatever `malloc` returns and however often a compare-exchange
-- fails, makes a thread read, write or free a node that is not allocated.
pub run_stays_in_allocated_memory : (es : List (ℕ × Input)) → runs turn es start ≢ none
run_stays_in_allocated_memory es e = absurd (ground (arith, (started es).ran))

-- The values from `p` on.
abbrev pub Holds : Shared → Ptr → List ℕ → Type 0
Holds s p [] = p ≡ null
Holds s p (v ∷ vs) = (p ≢ null) × (s.allocated p ≡ true) × (s.value p ≡ v) × Holds s (s.next p) vs

Lists-Holds :
    (s : Shared) (zone : Ptr → Zone)
    → ((p : Ptr) → s.allocated p ≡ used (zone p))
    → (p : Ptr) (vs : List ℕ) → Lists s.next s.value zone p vs
    → Holds s p vs
Lists-Holds s zone u p [] l = l
Lists-Holds s zone u p (v ∷ vs) l =
    (l.0, u p ∙ rw l.1 refl, l.2, Lists-Holds s zone u (s.next p) vs l.3)

-- Every schedule of pushes and pops is linearizable: the callers see what they see where each call
-- takes effect at one moment between its call and its return, and from `head` on the stack holds what
-- the atomic one does.
pub run_is_linearizable :
    (es : List (ℕ × Input))
    → (deeds : List (ℕ × Deed)) × (s : System) × (a : Atomic) × (seen : List Event) × (runs turn es
          start
        ≡ some (s, seen))
      × (runs atomic_turn deeds atomic_start ≡ some (a, seen))
      × Holds s.shared s.shared.head a.contents
run_is_linearizable es =
    let r = started es in
    (
      r.deeds,
      r.s',
      r.a',
      r.seen,
      r.ran,
      r.atomic,
      Lists-Holds r.s'.shared r.simulates.zone r.simulates.inv.shape.is_used r.s'.shared.head
          r.a'.contents r.simulates.inv.lists,
    )
