-- ===== src/Stack/Claim.antt =====
-- How a thread of lab3/Stack.c comes by its hazard pointer, and what happens when none is left.
use distibuted_sys.Base.{
  ℕ, zero, suc, ◌+◌, ◌%◌, ◌^◌, ◌<◌, ◌≡◌, ◌≢◌, refl, false, none, some, List, [], ◌∷◌, arith,
  if◌then◌else◌, get_elem?, set, get_elem?-set_self,
}
use distibuted_sys.Stack.{
  Ptr, null, HazardPointer, no_threads, thread_local_error, Memory, done, crash,
}
use distibuted_sys.Stack.Hazard.{System, acquire_cell, get_hazard_pointer_for_current_thread}
use distibuted_sys.Stack.Access.{stack_pop, unlink}
use distibuted_sys.Stack.Pop.{HasHazard}

-- The cells before `j` are taken.
abbrev pub TakenBelow : List HazardPointer → ℕ → Type 0
TakenBelow hs j = (i : ℕ) (h : HazardPointer) → i < j → get_elem? hs i ≡ some h → h.id ≢ 0

acquire_cell-free :
    (id k : ℕ) (hs : List HazardPointer) (j : ℕ) (h : HazardPointer)
    → get_elem? hs j ≡ some h
    → h.id ≡ 0
    → TakenBelow hs j
    → acquire_cell id k hs ≡ (some (k + j), set hs j (record h { id = id }))
unfolding acquire_cell
acquire_cell-free id k [] j h at free taken = cc
acquire_cell-free id k (x ∷ hs) zero h at free taken = ground arith
acquire_cell-free id k (x ∷ hs) (suc j) h at free taken = ground (
  arith,
  taken 0 x,
  acquire_cell-free id (suc k) hs j h at free (λ i y lt e. taken (suc i) y (omega arith) e),
)

-- Every cell is taken.
abbrev pub AllTaken : List HazardPointer → Type 0
AllTaken [] = Unit
AllTaken (h ∷ hs) = (h.id ≢ 0) × AllTaken hs

acquire_cell-full :
    (id k : ℕ) (hs : List HazardPointer) → AllTaken hs → acquire_cell id k hs ≡ (none, hs)
unfolding acquire_cell
acquire_cell-full id k [] taken = refl
acquire_cell-full id k (x ∷ hs) taken = ground (arith, acquire_cell-full id (suc k) hs)

-- A thread that has a hazard pointer keeps it.
pub HasHazard-old :
    (sys : System) (m : Memory) (i : ℕ) (h : HazardPointer)
    → sys.setspecific_fails ≡ false
    → m.local_hazard ≡ some i
    → get_elem? m.hazard_pointers i ≡ some h
    → HasHazard sys m m.hazard_pointers i h
unfolding get_hazard_pointer_for_current_thread
HasHazard-old sys m i h works own at = record { got = ground arith; here = at }

-- A new thread gets the first free cell, marked by the low 32 bits of the address of a local
-- variable.
pub HasHazard-new :
    (sys : System) (m : Memory) (j : ℕ) (h : HazardPointer)
    → sys.setspecific_fails ≡ false
    → m.local_hazard ≡ none
    → get_elem? m.hazard_pointers j ≡ some h
    → h.id ≡ 0
    → TakenBelow m.hazard_pointers j
    → HasHazard sys m
        (set m.hazard_pointers j (record h { id = sys.thread_id_address % 2 ^ 32 }))
        j
        (record h { id = sys.thread_id_address % 2 ^ 32 })
unfolding get_hazard_pointer_for_current_thread
HasHazard-new sys m j h works own at free taken = record {
  got = ground (
    arith,
    acquire_cell-free (sys.thread_id_address % 2 ^ 32) 0 m.hazard_pointers j h at free taken,
  );
  here = get_elem?-set_self m.hazard_pointers j h _ at;
}

-- With no cell left for a new thread, `get_hazard_pointer_for_current_thread` records NO_THREADS, or
-- THREAD_LOCAL_ERROR if pthread_setspecific fails, changes nothing else and returns NULL; `stack_pop`
-- goes on with the NULL pointer, and accesses memory through it.
pub pop-crash :
    (sys : System) (spurious : Ptr → ℕ) (fuel : ℕ) (stack place : Ptr) (m : Memory)
    → stack ≢ null
    → place ≢ null
    → m.local_hazard ≡ none
    → AllTaken m.hazard_pointers
    → (get_hazard_pointer_for_current_thread sys m
        ≡ done none
            (record m { errno = if sys.setspecific_fails then thread_local_error else no_threads }))
      × (stack_pop sys spurious (suc fuel) stack place m ≡ crash)
unfolding stack_pop unlink get_hazard_pointer_for_current_thread
pop-crash sys spurious fuel stack place m present there own taken =
    let full = acquire_cell-full (sys.thread_id_address % 2 ^ 32) 0 m.hazard_pointers taken in
    (ground (arith, own, full), ground (arith, full))
