-- ===== src/Stack/Lifetime.antt =====
-- lab3/Stack.c: `stack_init`, `stack_free`, `stack_get_errno` and `stack_print_error`.
use distibuted_sys.Base.{
  ℕ, zero, suc, Bool, true, false, Option, none, some, [], ◌∷◌, ◌==◌, if◌then◌else◌, replicate,
}
use distibuted_sys.Stack.{
  Ptr, null, no_error, no_memory, no_element, no_threads, thread_local_error, StackErrno, Memory,
  Code, unfinished, ◌>>=◌, ◌>>◌, return, read, write, Status, success, failure, load_node, free,
  fail_with,
}
use distibuted_sys.Stack.Hazard.{max_hazard_pointers}

-- What `malloc`, `pthread_key_create` and `calloc` answer to `stack_init`: whether they succeed.
pub record Grants : Type 0 where
  pub stack : Bool
  pub key : Bool
  pub array : Bool

-- A failure leaves what was obtained before it.
unfoldable pub stack_init : Grants → Ptr → Bool → Code Status
stack_init grants stack_ptr has_destructor =
    if stack_ptr == null
    then return failure
    else if grants.stack
    then (do
      m ← read
      write (record m { stack_allocated = true })
      if grants.key
          then (do
            n ← read
            write (record n { key_created = true })
            if grants.array
                then (do
                  o ← read
                  write (record o {
                    hazard_pointers =
                        replicate max_hazard_pointers (record { id = 0; pointer = null });
                    array_allocated = true;
                    to_reclaim = null;
                    has_destructor = has_destructor;
                    reclaim_counter = 0;
                    head = null;
                    errno = no_error;
                  })
                  return success)
                else fail_with no_memory)
          else fail_with thread_local_error)
    else return failure

-- The first loop of `stack_free`, over the nodes of the stack.
unfoldable pub free_stack_nodes : ℕ → Ptr → Code (Unit {0})
free_stack_nodes zero to_delete = λ _. unfinished
free_stack_nodes (suc fuel) to_delete = if to_delete == null then return tt else do
  n ← load_node to_delete
  m ← read
  write (record m { destroyed = if m.has_destructor then n.value ∷ m.destroyed else m.destroyed })
  free to_delete
  free_stack_nodes fuel n.next

-- The second loop, over the reclamation list.
unfoldable pub free_reclaim_nodes : ℕ → Ptr → Code (Unit {0})
free_reclaim_nodes zero to_delete = λ _. unfinished
free_reclaim_nodes (suc fuel) to_delete =
    if to_delete == null
    then return tt
    else do n ← load_node to_delete; free to_delete; free_reclaim_nodes fuel n.next

unfoldable pub stack_free : ℕ → Ptr → Code (Unit {0})
stack_free fuel stack = if stack == null then return tt else do
  m ← read
  free_stack_nodes fuel m.head
  n ← read
  free_reclaim_nodes fuel n.to_reclaim
  o ← read
  write (record o {
    hazard_pointers = [];
    array_allocated = false;
    key_created = false;
    stack_allocated = false;
  })

unfoldable pub stack_get_errno : Memory → StackErrno
stack_get_errno m = m.errno

-- The messages of `stack_print_error`.
pub data Message : Type 0 where
  unable_to_allocate unable_to_pop too_many_threads unknown_error : Message

unfoldable pub stack_print_error : StackErrno → Option Message
stack_print_error no_error = none
stack_print_error no_memory = some unable_to_allocate
stack_print_error no_element = some unable_to_pop
stack_print_error no_threads = some too_many_threads
stack_print_error _ = some unknown_error
