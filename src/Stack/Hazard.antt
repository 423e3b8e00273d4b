-- ===== src/Stack/Hazard.antt =====
-- lab3/Stack.c: the hazard pointers.
use distibuted_sys.Base.{
  ℕ, suc, ◌%◌, ◌^◌, Bool, false, Option, none, some, List, [], ◌∷◌, ◌||◌, ◌==◌, if◌then◌else◌,
  get_elem?, set,
}
use distibuted_sys.Stack.{
  Ptr, null, HazardPointer, no_threads, thread_local_error, Code, crash, done, ◌>>=◌, ◌>>◌, return,
  read, write,
}

abbrev pub max_hazard_pointers : ℕ
max_hazard_pointers = 64

-- The loop of `hazard_pointer_init` from cell `hp_i` on: the first cell whose id is 0 gets `id`.
unfoldable pub acquire_cell : ℕ → ℕ → List HazardPointer → Option ℕ × List HazardPointer
acquire_cell id hp_i [] = (none, [])
acquire_cell id hp_i (h ∷ hs) =
    let (found, rest) = acquire_cell id (suc hp_i) hs in
    if h.id == 0 then (some hp_i, record h { id = id } ∷ hs) else (found, h ∷ rest)

-- `hazard_pointer_init` when `*hp_ptr` is NULL. The compare-exchange is given `&thread_id`, not
-- `thread_id`: what it stores is that address, converted to the 32 bits of a `pid_t`.
unfoldable pub hazard_pointer_init : ℕ → Code (Option ℕ)
hazard_pointer_init thread_id_address m =
    let (found, hs) = acquire_cell (thread_id_address % 2 ^ 32) 0 m.hazard_pointers in
    elim found [
      | none ↦ done none (record m { errno = no_threads })
      | some i ↦ done (some i) (record m { hazard_pointers = hs })
    ]

-- The destructor of the thread-local value.
unfoldable pub hazard_pointer_cleanup : ℕ → Code (Unit {0})
hazard_pointer_cleanup i m =
    done tt
      (record m { hazard_pointers = set m.hazard_pointers i (record { id = 0; pointer = null }) })

-- `hp->pointer = p`
unfoldable pub set_hazard : Option ℕ → Ptr → Code (Unit {0})
set_hazard none p m = crash
set_hazard (some i) p m = elim (get_elem? m.hazard_pointers i) [
  | none ↦ crash
  | some h ↦
      done tt (record m { hazard_pointers = set m.hazard_pointers i (record h { pointer = p }) })
]

-- What the calls into the system answer.
pub record System : Type 0 where
  pub fresh : Ptr  -- `malloc`: an address, or NULL
  pub thread_id_address : ℕ
  pub setspecific_fails : Bool

unfoldable pub get_hazard_pointer_for_current_thread : System → Code (Option ℕ)
unfolding hazard_pointer_init
get_hazard_pointer_for_current_thread sys = do
  m ← read
  hp ← elim m.local_hazard [
    | none ↦ hazard_pointer_init sys.thread_id_address
    | some i ↦ return (some i)
  ]
  n ← read
  if sys.setspecific_fails
      then (do write (record n { errno = thread_local_error }); return none)
      else (do write (record n { local_hazard = hp }); return hp)

unfoldable pub outstanding_hazard_pointers_for : List HazardPointer → Ptr → Bool
outstanding_hazard_pointers_for [] danger = false
outstanding_hazard_pointers_for (h ∷ hs) danger =
    h.pointer == danger || outstanding_hazard_pointers_for hs danger
