-- ===== src/SkipListBenchmarks/EpochList/Tests.antt =====
-- A run of the correctness test of lab4/SkipListBenchmarks.c over the skip list of lab4/SkipList.c.
use distibuted_sys.Base.{
  ℕ, zero, suc, ◌≡◌, ◌+◌, ◌*◌, ◌-◌, ◌<◌, ◌≤◌, refl, subst, arith, true, false, Option, none, some,
  List, [], ◌∷◌, replicate,
}
use distibuted_sys.Base.Int.{pos, minus_one}
use distibuted_sys.Base.Threads.{turns, update}
use distibuted_sys.SkipList.{
  Memory, Tower, Link, Ptr, null, header, num_levels, num_epochs, link, mark, put, set_forward,
  no_error, no_element, SkiplistErrno, exchange_link, load_link, store_link,
}
use distibuted_sys.SkipList.Lifetime.{key_min}
use distibuted_sys.SkipList.Search.{walk, fill_tables, fill_levels, generate_level}
use distibuted_sys.SkipList.Epoch.{
  claim_cell, epoch_init, enter_epoch, leave_epoch, next_epoch, to_unsigned, reclaim_epoch,
  add_to_reclaim_list, all_equal, reclaim_nodes,
}
use distibuted_sys.SkipList.Access.{
  Outside, skiplist_insert, skiplist_remove, skiplist_search, holds_key, insert_tower, link_levels,
  link_level, mark_levels, mark_level, mark_bottom,
}
use distibuted_sys.SkipListBenchmarks.{
  SharedMap, Bench, Thread, Job, Round, inserting, searching, removing, searching_again, finished,
  turn, work, run, spawn, rounds, correctness_test_printout,
}
use distibuted_sys.SkipListBenchmarks.Contract.{Contract}
use distibuted_sys.SkipListBenchmarks.Contract.{Contract}
use distibuted_sys.SkipListBenchmarks.Rounds.{AllFit, run-finished}
use distibuted_sys.SkipListBenchmarks.EpochList.{
  Shared, epoch_list, Fits, shared_insert, shared_remove, shared_search,
}
use distibuted_sys.SkipListBenchmarks.EpochList.Cells.{row}
use distibuted_sys.SkipListBenchmarks.EpochList.Passed.{
  zeroed, started, epoch_list-Contract, epoch_list-passed,
}

abbrev blank : Memory
blank = record {
  tower = λ p. none;
  max_level = 0;
  errno = no_error;
  reclaim_lists = [];
  reclaim_lock = false;
  global_epoch = pos 0;
  local_epochs = [];
  local_epoch = none;
}

abbrev map : SharedMap
map = epoch_list (zeroed (pos 0) []) blank

-- `malloc` gives the address `p`.
abbrev gives : ℕ → Outside
gives p = record {
  setspecific = pos 0;
  fresh = p;
  rand_max = 100;
  rands = [];
  resets = 0;
  fuel = 0;
}

-- One thread, one element: it inserts, searches, removes, and searches again.
abbrev schedule : List (ℕ × Outside)
schedule = (0, gives 8) ∷ replicate 7 (0, gives 16)

abbrev s0 : Shared
s0 = started (pos 0) [] blank

-- The header with the link `l`, and the only other tower.
abbrev head_to : (ℕ → Link) → Tower
head_to f = record {
  key = key_min;
  value = pos 0;
  level = num_levels - 1;
  reclaim_next = null;
  forward = f;
}

abbrev only : (ℕ → Link) → Tower
only f = record { key = pos 0; value = pos 0; level = 0; reclaim_next = null; forward = f }

abbrev nowhere : ℕ → Link
nowhere _ = link null

abbrev to_only : ℕ → Link
to_only = set_forward nowhere 0 (link 8)

abbrev to_end : ℕ → Link
to_end = set_forward nowhere 0 (link null)

-- The cell of the first thread is the first.
abbrev entered : SkiplistErrno → (ℕ → Option Tower) → List Ptr → (ℕ → Option ℕ) → ℕ → Shared
entered errno towers retired local n = record {
  memory = record {
    tower = towers;
    max_level = 0;
    errno = errno;
    reclaim_lists = retired;
    reclaim_lock = false;
    global_epoch = pos 0;
    local_epochs = row (pos 0) minus_one [];
    local_epoch = some 0;
  };
  local = update local 0 (some 0);
  insertions = n;
}

abbrev inserted : ℕ → Option Tower
inserted =
    put (put (put s0.memory.tower 8 (some (only nowhere))) 8 (some (only to_end))) header
      (some (head_to to_only))

abbrev removed : ℕ → Option Tower
removed =
    put
      (put (put inserted 8 (some (only (set_forward to_end 0 (mark (link null)))))) header
        (some (head_to (set_forward to_only 0 (link null)))))
      8 (some (only (set_forward to_end 0 (mark (link null)))))

abbrev no_lists : List Ptr
no_lists = replicate num_epochs null

abbrev retired : List Ptr
retired = 8 ∷ null ∷ null ∷ null ∷ []

abbrev s1 : Shared
s1 = entered no_error inserted no_lists (λ _. none) 1

abbrev s2 : Shared
s2 = entered no_error inserted no_lists s1.local 1

abbrev s3 : Shared
s3 = entered no_error removed retired s2.local 1

abbrev s4 : Shared
s4 = entered no_element removed retired s3.local 1

inserts : shared_insert (gives 8) 0 0 0 s0 ≡ some s1
unfolding shared_insert shared_search shared_remove skiplist_insert skiplist_search skiplist_remove
    enter_epoch epoch_init claim_cell leave_epoch next_epoch fill_tables fill_levels walk holds_key
    insert_tower generate_level link_levels link_level mark_levels mark_level mark_bottom
    add_to_reclaim_list to_unsigned reclaim_epoch reclaim_nodes all_equal exchange_link load_link
    store_link
inserts = refl

searches : shared_search (gives 16) 0 0 s1 ≡ some (some 0, s2)
unfolding shared_insert shared_search shared_remove skiplist_insert skiplist_search skiplist_remove
    enter_epoch epoch_init claim_cell leave_epoch next_epoch fill_tables fill_levels walk holds_key
    insert_tower generate_level link_levels link_level mark_levels mark_level mark_bottom
    add_to_reclaim_list to_unsigned reclaim_epoch reclaim_nodes all_equal exchange_link load_link
    store_link
searches = refl

removes : shared_remove (gives 16) 0 0 s2 ≡ some s3
unfolding shared_insert shared_search shared_remove skiplist_insert skiplist_search skiplist_remove
    enter_epoch epoch_init claim_cell leave_epoch next_epoch fill_tables fill_levels walk holds_key
    insert_tower generate_level link_levels link_level mark_levels mark_level mark_bottom
    add_to_reclaim_list to_unsigned reclaim_epoch reclaim_nodes all_equal exchange_link load_link
    store_link
removes = refl

searches_again : shared_search (gives 16) 0 0 s3 ≡ some (none, s4)
unfolding shared_insert shared_search shared_remove skiplist_insert skiplist_search skiplist_remove
    enter_epoch epoch_init claim_cell leave_epoch next_epoch fill_tables fill_levels walk holds_key
    insert_tower generate_level link_levels link_level mark_levels mark_level mark_bottom
    add_to_reclaim_list to_unsigned reclaim_epoch reclaim_nodes all_equal exchange_link load_link
    store_link
searches_again = refl

abbrev contract : Contract map
contract = epoch_list-Contract (pos 0) [] blank

abbrev Fitting : List (ℕ × Outside) → Bench map → Type 0
Fitting = AllFit 1 1 map contract

abbrev at : Shared → Job → (ℕ → Thread) → Bench map
at s j th = record {
  store = s;
  thread = update th 0 (record { thread_i = 0; executed_correctly = true; job = j });
}

-- A turn that is known, and then the rest of the schedule.
turn-Fitting :
    (a : Outside) (es : List (ℕ × Outside)) (b b' : Bench map)
    → turn map 1 1 (0, a) b ≡ some b'
    → Fits a b.store
    → Fitting es b'
    → Fitting ((0, a) ∷ es) b
turn-Fitting a es b b1 e fits rest =
    (fits, λ b' e'. let q : b1 ≡ b' = ground (arith, e, e') in subst (Fitting es) q rest)

work-Fitting :
    (a : Outside) (es : List (ℕ × Outside)) (s s' : Shared) (j j' : Job) (th : ℕ → Thread)
    → work map 1 1 a s 0 true j ≡ some (s', true, j')
    → Fits a s
    → Fitting es (at s' j' (at s j th).thread)
    → Fitting ((0, a) ∷ es) (at s j th)
unfolding turn
work-Fitting a es s s' j j' th e =
    turn-Fitting a es (at s j th) (at s' j' (at s j th).thread) (rw e refl)

abbrev b0 : Bench map
b0 = spawn map 1 1 s0

fits : (s : Shared) → s.memory.tower 16 ≡ none → Fits (gives 16) s
fits s e = record { fresh = omega arith; unused = e; works = refl }

abbrev at_start : ℕ → Thread
at_start = b0.thread

abbrev at_inserted : ℕ → Thread
at_inserted = (at s1 (inserting 1) at_start).thread

abbrev at_searching : ℕ → Thread
at_searching = (at s1 (searching 0) at_inserted).thread

abbrev at_searched : ℕ → Thread
at_searched = (at s2 (searching 1) at_searching).thread

abbrev at_removing : ℕ → Thread
at_removing = (at s2 (removing 0) at_searched).thread

abbrev at_removed : ℕ → Thread
at_removed = (at s3 (removing 1) at_removing).thread

abbrev at_searching_again : ℕ → Thread
at_searching_again = (at s3 (searching_again 0) at_removed).thread

abbrev left : ℕ → List (ℕ × Outside)
left n = replicate n (0, gives 16)

schedule-Fitting : Fitting schedule b0
unfolding turn work spawn
schedule-Fitting =
    turn-Fitting (gives 8) (left 7) b0 (at s1 (inserting 1) at_start) (rw inserts refl)
      (record { fresh = omega arith; unused = refl; works = refl })
      (work-Fitting (gives 16) (left 6) s1 s1 (inserting 1) (searching 0) at_start refl
        (fits s1 refl)
        (work-Fitting (gives 16) (left 5) s1 s2 (searching 0) (searching 1) at_inserted
          (rw searches refl) (fits s1 refl)
          (work-Fitting (gives 16) (left 4) s2 s2 (searching 1) (removing 0) at_searching refl
            (fits s2 refl)
            (work-Fitting (gives 16) (left 3) s2 s3 (removing 0) (removing 1) at_searched
              (rw removes refl) (fits s2 refl)
              (work-Fitting (gives 16) (left 2) s3 s3 (removing 1) (searching_again 0) at_removing
                refl (fits s3 refl)
                (work-Fitting (gives 16) (left 1) s3 s4 (searching_again 0) (searching_again 1)
                  at_removed (rw searches_again refl) (fits s3 refl)
                  (work-Fitting (gives 16) (left 0) s4 s4 (searching_again 1) finished
                    at_searching_again refl (fits s4 refl) tt)))))))

schedule-turns : (i : ℕ) → i < 1 → 4 * 1 + 4 ≤ turns i schedule
schedule-turns zero l = omega arith
schedule-turns (suc i) l = absurd (omega arith)

run-finished_example :
    (b : Bench map) × (run map 1 1 schedule (spawn map 1 1 s0) ≡ some b)
    × ((i : ℕ) → i < 1 → (b.thread i).job ≡ finished)
    × (correctness_test_printout map 1 1 b ≡ true)
run-finished_example =
    run-finished 1 map contract 1 schedule (omega arith) schedule-Fitting schedule-turns

-- There is no thread in a round of none.
abbrev answers : ℕ → Round map
answers zero = record { before = λ _. gives 8; schedule = [] }
answers (suc n) = record { before = λ _. gives 8; schedule = schedule }

answers-Fitting :
    (n : ℕ) → n < 1 + 1 → AllFit 1 n map contract (answers n).schedule (spawn map 1 n s0)
answers-Fitting zero l = tt
answers-Fitting (suc zero) l = schedule-Fitting
answers-Fitting (suc (suc n)) l = absurd (omega arith)

answers-turns : (n i : ℕ) → n < 1 + 1 → i < n → 4 * 1 + 4 ≤ turns i (answers n).schedule
answers-turns zero i low l = absurd (omega arith)
answers-turns (suc zero) i low l = schedule-turns i l
answers-turns (suc (suc n)) i low l = absurd (omega arith)

epoch_list-passed_example :
    (rounds map 1 0 answers 1 1 ≡ some (replicate 1 true))
    × ((n : ℕ)
        → n < 1 + 1
        → (b : Bench map) × (run map 1 n (answers n).schedule (spawn map 1 n s0) ≡ some b)
          × ((i : ℕ) → i < n → (b.thread i).job ≡ finished))
epoch_list-passed_example =
    epoch_list-passed (pos 0) [] blank 1 1 answers (omega arith) answers-Fitting answers-turns
