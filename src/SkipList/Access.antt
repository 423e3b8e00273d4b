-- ===== src/SkipList/Access.antt =====
-- lab4/SkipList.c: `skiplist_insert`, `skiplist_remove` and `skiplist_search`.
use distibuted_sys.Base.{
  ℕ, zero, suc, ◌+◌, ◌-◌, Bool, true, false, Option, none, some, List, ◌==◌, ltb, if◌then◌else◌,
}
use distibuted_sys.Base.Int.{ℤ, eqz}
use distibuted_sys.SkipList.{
  num_levels, Ptr, null, link, mark, no_memory, no_element, Code, done, unfinished, ◌>>=◌, ◌>>◌,
  return, read, write, Status, success, failure, put, load_tower, store_tower, load_link,
  store_link, exchange_link,
}
use distibuted_sys.SkipList.Search.{Tables, generate_level, fill_tables}
use distibuted_sys.SkipList.Epoch.{
  enter_epoch, leave_epoch, to_unsigned, add_to_reclaim_list, reclaim_nodes,
}

-- What comes from outside in one call, and the fuel of its loops.
pub record Outside : Type 0 where
  pub setspecific : ℤ  -- what `pthread_setspecific` returns
  pub fresh : Ptr  -- what `malloc` returns
  pub rand_max : ℕ
  pub rands : List ℕ  -- what the calls of `random()` return
  pub resets : ℕ  -- how often a search may start again
  pub fuel : ℕ

-- Arrays on the stack are not initialised; nothing reads an entry before `fill_tables` writes it.
abbrev pub no_tables : Tables
no_tables = record { preds = λ _. null; succs = λ _. null }

abbrev pub set_max_level : ℕ → Code (Unit {0})
set_max_level new_level m =
    done tt (record m { max_level = if ltb m.max_level new_level then new_level else m.max_level })

module _ (o : Outside) (search_key : ℤ) where
  open o use {setspecific, fresh, rand_max, rands, resets, fuel}

  abbrev pub fill : (from_level to_level : ℕ) → Tables → Code Tables
  fill = fill_tables search_key resets fuel

  -- One level of the new tower: the store, and the exchange until it succeeds.
  unfoldable pub link_level : ℕ → ℕ → Tables → Code Tables
  unfolding exchange_link
  link_level zero lvl tables = λ _. unfinished
  link_level (suc tries) lvl tables = do
    store_link fresh lvl (link (tables.succs lvl))
    (won, _) ← exchange_link (tables.preds lvl) lvl (link (tables.succs lvl)) (link fresh)
    if won
        then return tables
        else do refilled ← fill (num_levels - 1) lvl tables; link_level tries lvl refilled

  -- The levels from `lvl` up, `rounds` of them.
  unfoldable pub link_levels : (rounds lvl : ℕ) → Tables → Code (Unit {0})
  unfolding link_level
  link_levels zero lvl tables = return tt
  link_levels (suc rounds) lvl tables = do
    next_tables ← link_level resets lvl tables
    link_levels rounds (lvl + 1) next_tables

  -- `malloc` leaves the links of the new tower undefined; here they are NULL until they are stored,
  -- which `link_level` does before it links the tower at their level.
  unfoldable pub insert_tower : ℤ → Tables → Code Status
  insert_tower value tables = do
    let new_level = generate_level rand_max 0 rands
    m ← read
    if fresh == null then (do write (record m { errno = no_memory }); return failure) else do
      write (record m {
        tower = put m.tower fresh (
            some (record {
              key = search_key;
              value = value;
              level = new_level;
              reclaim_next = null;
              forward = λ _. link null;
            }));
      })
      set_max_level new_level
      link_levels (new_level + 1) 0 tables
      leave_epoch
      return success

  -- Whether the tower at `cur` holds the key.
  unfoldable pub holds_key : Ptr → Code Bool
  holds_key cur =
      if cur == null then return false else do t ← load_tower cur; return (eqz t.key search_key)

  unfoldable pub skiplist_insert : Ptr → ℤ → Code Status
  skiplist_insert skiplist value = if skiplist == null then return failure else do
    epoch ← enter_epoch setspecific
    tables ← fill (num_levels - 1) 0 no_tables
    found ← holds_key (tables.succs 0)
    if found
        then (do
          t ← load_tower (tables.succs 0)
          store_tower (tables.succs 0) (record t { value = value })
          leave_epoch
          return success)
        else insert_tower value tables

  -- The marking of one level above the bottom.
  unfoldable pub mark_level : ℕ → Ptr → ℕ → Code (Unit {0})
  mark_level zero cur lvl = λ _. unfinished
  mark_level (suc tries) cur lvl = do
    next ← load_link cur lvl
    (won, _) ← exchange_link cur lvl next (mark next)
    if won then return tt else mark_level tries cur lvl

  -- The levels from `lvl` down to 1.
  unfoldable pub mark_levels : ℕ → Ptr → Code (Unit {0})
  mark_levels zero cur = return tt
  mark_levels (suc lvl) cur = do mark_level resets cur (suc lvl); mark_levels lvl cur

  -- The bottom: whether this thread has marked it.
  unfoldable pub mark_bottom : ℕ → Ptr → Code Bool
  mark_bottom zero cur = λ _. unfinished
  mark_bottom (suc tries) cur = do
    l ← load_link cur 0
    (won, found) ← exchange_link cur 0 (link l.target) (mark (link l.target))
    if won then return true else if found.marked then return false else mark_bottom tries cur

  unfoldable pub skiplist_remove : Ptr → Code Status
  skiplist_remove skiplist = if skiplist == null then return failure else do
    epoch ← enter_epoch setspecific
    tables ← fill (num_levels - 1) 0 no_tables
    let cur = tables.succs 0
    found ← holds_key cur
    if found
        then (do
          t ← load_tower cur
          mark_levels t.level cur
          i_marked_it ← mark_bottom resets cur
          if i_marked_it
              then (do
                again ← fill (num_levels - 1) 0 tables
                add_to_reclaim_list cur (to_unsigned epoch)
                leave_epoch
                reclaim_nodes fuel
                return success)
              else (do leave_epoch; return success))
        else (do leave_epoch; return success)

  -- With what is stored at `value_ptr`, if anything is.
  unfoldable pub skiplist_search : Ptr → Code (Status × Option ℤ)
  skiplist_search skiplist = if skiplist == null then return (failure, none) else do
    epoch ← enter_epoch setspecific
    m ← read
    tables ← fill m.max_level 0 no_tables
    found ← holds_key (tables.succs 0)
    if found
        then (do t ← load_tower (tables.succs 0); leave_epoch; return (success, some t.value))
        else (do
          leave_epoch
          n ← read
          write (record n { errno = no_element })
          return (failure, none))
