-- ===== src/SkipList/Lifetime.antt =====
-- lab4/SkipList.c: `skiplist_init`, `skiplist_free`, `skiplist_get_errno`, `skiplist_print_error`.
use distibuted_sys.Base.{
  ℕ, zero, suc, ◌-◌, ◌^◌, Bool, false, Option, none, some, List, [], ◌∷◌, ◌==◌, if◌then◌else◌,
  replicate,
}
use distibuted_sys.Base.Int.{ℤ, pos, negsuc, minus_one}
use distibuted_sys.SkipList.{
  num_levels, num_epochs, Ptr, null, header, link, SkiplistErrno, no_error, no_memory, no_element,
  thread_local_error, Memory, Code, unfinished, ◌>>=◌, ◌>>◌, return, read, write, Status, success,
  failure, put, load_link, free,
}
use distibuted_sys.SkipList.Epoch.{free_list}

-- KEY_MIN, which is INT_MIN.
abbrev pub key_min : ℤ
key_min = negsuc (2 ^ 31 - 1)

-- The loop writes the first `n` cells; the rest is what `malloc` left there.
unfoldable pub reset_epochs : ℕ → List ℤ → List ℤ
reset_epochs zero epochs = epochs
reset_epochs (suc n) [] = []
reset_epochs (suc n) (_ ∷ epochs) = minus_one ∷ reset_epochs n epochs

-- Whether `malloc` and `pthread_key_create` succeed, and what `malloc` leaves in the cells of the
-- local epochs and in the value of the header.
pub record Grants : Type 0 where
  pub memory : Bool
  pub key : Bool
  pub raw_epochs : List ℤ
  pub raw_value : ℤ

unfoldable pub skiplist_init : Grants → Ptr → Code Status
unfolding reset_epochs
skiplist_init grants skiplist_ptr =
    if skiplist_ptr == null
    then return failure
    else if grants.memory
    then (do
      m ← read
      if grants.key
          then (do
            write (record {
              tower = put m.tower header (
                  some (record {
                    key = key_min;
                    value = grants.raw_value;
                    level = num_levels - 1;
                    reclaim_next = null;
                    forward = λ _. link null;
                  }));
              max_level = 0;
              errno = no_error;
              reclaim_lists = replicate num_epochs null;
              reclaim_lock = false;
              global_epoch = pos 0;
              local_epochs = reset_epochs num_epochs grants.raw_epochs;
              local_epoch = none;
            })
            return success)
          else (do write (record m { errno = thread_local_error }); return failure))
    else return failure

-- The towers that are still linked at the bottom, marked or not.
unfoldable pub free_towers : ℕ → Ptr → Code (Unit {0})
free_towers zero to_delete = λ _. unfinished
free_towers (suc fuel) to_delete =
    if to_delete == null
    then return tt
    else do l ← load_link to_delete 0; free to_delete; free_towers fuel l.target

unfoldable pub free_lists : ℕ → List Ptr → Code (Unit {0})
free_lists fuel [] = return tt
free_lists fuel (head ∷ heads) = do free_list fuel head; free_lists fuel heads

unfoldable pub skiplist_free : ℕ → Ptr → Code Status
skiplist_free fuel skiplist = if skiplist == null then return failure else do
  l ← load_link header 0
  free_towers fuel l.target
  m ← read
  free_lists fuel m.reclaim_lists
  n ← read
  write (record n { local_epoch = none })
  free header
  return success

unfoldable pub skiplist_get_errno : Memory → SkiplistErrno
skiplist_get_errno m = m.errno

-- The messages of `skiplist_print_error`.
pub data Message : Type 0 where
  unable_to_allocate unable_to_find unknown_error : Message

unfoldable pub skiplist_print_error : SkiplistErrno → Option Message
skiplist_print_error no_error = none
skiplist_print_error no_memory = some unable_to_allocate
skiplist_print_error no_element = some unable_to_find
skiplist_print_error _ = some unknown_error
