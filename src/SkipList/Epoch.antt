-- ===== src/SkipList/Epoch.antt =====
-- lab4/SkipList.c: the epochs, and the reclamation of removed towers.
use distibuted_sys.Base.{
  ℕ, zero, suc, ◌+◌, ◌-◌, ◌%◌, ◌^◌, Bool, true, false, Option, none, some, List, [], ◌∷◌, ◌==◌,
  if◌then◌else◌, get_elem?, set,
}
use distibuted_sys.Base.Int.{ℤ, pos, negsuc, minus_one, neg_of, eqz}
use distibuted_sys.SkipList.{
  num_epochs, Ptr, null, no_threads, thread_local_error, Code, done, crash, unfinished, ◌>>=◌, ◌>>◌,
  return, read, write, load_tower, store_tower, free,
}

-- The loop of `epoch_init` from cell `cell` on. A failed compare-exchange stores the value that it
-- found in `previous`, and the next cell is compared with that.
unfoldable pub claim_cell : (global_epoch previous : ℤ) → ℕ → List ℤ → Option ℕ × List ℤ
claim_cell global_epoch previous cell [] = (none, [])
claim_cell global_epoch previous cell (epoch ∷ epochs) =
    let (found, rest) = claim_cell global_epoch epoch (suc cell) epochs in
    if eqz epoch previous then (some cell, global_epoch ∷ epochs) else (found, epoch ∷ rest)

unfoldable pub epoch_init : Code (Option ℕ)
epoch_init m =
    let (found, epochs) = claim_cell m.global_epoch minus_one 0 m.local_epochs in
    elim found [
      | none ↦ done none (record m { errno = no_threads })
      | some cell ↦ done (some cell) (record m { local_epochs = epochs })
    ]

abbrev pub load_epoch : ℕ → Code ℤ
load_epoch cell m = elim (get_elem? m.local_epochs cell) [ none ↦ crash | some e ↦ done e m ]

-- `setspecific` is what `pthread_setspecific` returns: 0 if it has stored the value.
unfoldable pub enter_epoch : ℤ → Code ℤ
unfolding epoch_init
enter_epoch setspecific = do
  m ← read
  elim m.local_epoch [
    | some cell ↦ load_epoch cell
    | none ↦ do
      found ← epoch_init
      elim found [
        | none ↦ return minus_one
        | some cell ↦ do
          n ← read
          write (if eqz setspecific (pos 0) then record n { local_epoch = some cell } else n)
          o ← read
          if eqz setspecific minus_one
              then (do write (record o { errno = thread_local_error }); return minus_one)
              else load_epoch cell
      ]
  ]

-- `(e + 1) % NUM_EPOCHS` on a `char`: the remainder of C has the sign of the dividend.
unfoldable pub next_epoch : ℤ → ℤ
next_epoch (pos n) = pos ((n + 1) % num_epochs)
next_epoch (negsuc n) = neg_of (n % num_epochs)

unfoldable pub leave_epoch : Code (Unit {0})
leave_epoch = do
  m ← read
  elim m.local_epoch [
    | none ↦ (λ _. crash)
    | some cell ↦ do
      epoch ← load_epoch cell
      if eqz epoch m.global_epoch
          then return tt
          else write (record m { local_epochs = set m.local_epochs cell (next_epoch epoch) })
  ]

-- A `char` as an `unsigned`.
unfoldable pub to_unsigned : ℤ → ℕ
to_unsigned (pos n) = n
to_unsigned (negsuc n) = 2 ^ 32 - 1 - n

-- The compare-exchange succeeds, since no other thread moves.
unfoldable pub add_to_reclaim_list : Ptr → ℕ → Code (Unit {0})
add_to_reclaim_list to_reclaim epoch = do
  m ← read
  elim (get_elem? m.reclaim_lists epoch) [
    | none ↦ (λ _. crash)
    | some reclaim_head ↦ do
      t ← load_tower to_reclaim
      store_tower to_reclaim (record t { reclaim_next = reclaim_head })
      n ← read
      write (record n { reclaim_lists = set n.reclaim_lists epoch to_reclaim })
  ]

-- Whether every cell holds the global epoch.
unfoldable pub all_equal : ℤ → List ℤ → Bool
all_equal global_epoch [] = true
all_equal global_epoch (epoch ∷ epochs) =
    if eqz epoch global_epoch then all_equal global_epoch epochs else false

unfoldable pub free_list : ℕ → Ptr → Code (Unit {0})
free_list zero reclaim_head = λ _. unfinished
free_list (suc fuel) reclaim_head =
    if reclaim_head == null
    then return tt
    else do t ← load_tower reclaim_head; free reclaim_head; free_list fuel t.reclaim_next

-- `(global_epoch + NUM_EPOCHS - 2) % NUM_EPOCHS` as an index.
unfoldable pub reclaim_epoch : ℤ → ℕ
reclaim_epoch (pos n) = (n + num_epochs - 2) % num_epochs
reclaim_epoch (negsuc zero) = 1
reclaim_epoch (negsuc (suc zero)) = 0
reclaim_epoch (negsuc (suc (suc n))) = to_unsigned (neg_of ((n + 1) % num_epochs))

unfoldable pub reclaim_nodes : ℕ → Code (Unit {0})
unfolding all_equal next_epoch reclaim_epoch
reclaim_nodes fuel = do
  m ← read
  if m.reclaim_lock then return tt else do
    write (record m { reclaim_lock = true })
    (if all_equal m.global_epoch m.local_epochs
        then elim (get_elem? m.reclaim_lists (reclaim_epoch m.global_epoch)) [
          | none ↦ (λ _. crash)
          | some reclaim_head ↦ do
            n ← read
            write (record n {
              reclaim_lists = set n.reclaim_lists (reclaim_epoch m.global_epoch) null;
            })
            free_list fuel reclaim_head
            o ← read
            write (record o { global_epoch = next_epoch m.global_epoch })
        ]
        else return tt)
    p ← read
    write (record p { reclaim_lock = false })
