-- ===== src/SkipListBenchmarks/EpochList/Passed.antt =====
-- The correctness test of lab4/SkipListBenchmarks.c over the skip list of lab4/SkipList.c.
use native.Mathlib.Nat.{mul-le-mul_right}
use distibuted_sys.Base.{
  ◌≤◌, ℕ, ◌+◌, ◌-◌, ◌*◌, ◌^◌, ◌≡◌, ◌<◌, refl, arith, true, false, none, some, List, [], ◌∷◌,
  replicate, inl,
}
use distibuted_sys.Base.Int.{ℤ, pos, minus_one}
use distibuted_sys.Base.Threads.{turns}
use distibuted_sys.SkipList.{
  num_levels, num_epochs, null, header, link, no_error, Tower, Memory, put,
}
use distibuted_sys.SkipList.Lifetime.{Grants, key_min, reset_epochs, skiplist_init}
use distibuted_sys.SkipListBenchmarks.{Bench, Round, finished, run, spawn, rounds}
use distibuted_sys.SkipListBenchmarks.Contract.{Contract}
use distibuted_sys.SkipListBenchmarks.Rounds.{AllFit, rounds-passed, run-finished}
use distibuted_sys.SkipListBenchmarks.EpochList.{Shared, shared_init, epoch_list, Fits}
use distibuted_sys.SkipListBenchmarks.EpochList.Cells.{row}
use distibuted_sys.SkipListBenchmarks.EpochList.Inside.{Holds}
use distibuted_sys.SkipListBenchmarks.EpochList.Kept.{inserts, removes, searches}

-- The system grants everything, and leaves zeros in the first cells that it gives.
abbrev pub zeroed : ℤ → List ℤ → Grants
zeroed raw_value rest = record {
  memory = true;
  key = true;
  raw_epochs = pos 0 ∷ pos 0 ∷ pos 0 ∷ pos 0 ∷ pos 0 ∷ pos 0 ∷ rest;
  raw_value = raw_value;
}

module _ (raw_value : ℤ) (rest : List ℤ) (blank : Memory) where
  abbrev pub head : Tower
  head = record {
    key = key_min;
    value = raw_value;
    level = num_levels - 1;
    reclaim_next = null;
    forward = λ _. link null;
  }

  -- After `skiplist_init`.
  abbrev pub started : Shared
  started = record {
    memory = record {
      tower = put blank.tower header (some head);
      max_level = 0;
      errno = no_error;
      reclaim_lists = replicate num_epochs null;
      reclaim_lock = false;
      global_epoch = pos 0;
      local_epochs = row minus_one minus_one rest;
      local_epoch = none;
    };
    local = λ _. none;
    insertions = 0;
  }

  pub init-started : shared_init (zeroed raw_value rest) blank ≡ some started
  unfolding shared_init skiplist_init reset_epochs
  init-started = refl

  pub started-Holds : Holds started (λ _. none)
  started-Holds = record {
    items = [];
    list = record {
      head = head;
      found = refl;
      level = refl;
      leads = λ l h. refl;
      links = tt;
      apart = tt;
      low = tt;
      sorted = tt;
    };
    level = omega arith;
    epoch = refl;
    retired_head = null;
    retires = refl;
    is_row = (rest, inl refl);
    cells = λ t c own. absurd (ground arith);
    short = omega arith;
    agrees = λ key. refl;
  }

  abbrev pub epoch_list-Contract : Contract (epoch_list (zeroed raw_value rest) blank)
  epoch_list-Contract = record {
    Holds = Holds;
    Fits = Fits;
    start = started;
    starts = init-started;
    empty = started-Holds;
    inserts = λ a t key value s content h f. inserts t s content h a f key value;
    removes = λ a t key s content h f. removes t s content h a f key;
    searches = λ a t key s content h f. searches t s content h a f key;
  }

-- The correctness test of the skip list of lab4/SkipList.c prints PASSED for each number of threads
-- from 1 to `m`, with `num` elements for each thread, and every thread comes to the end of its job, in
-- every order of the operations of the threads, each of which is one step, in which each thread gets
-- four turns for each of its elements and four more, if malloc gives memory that no tower has and
-- leaves zeros in the cells of the local epochs, pthread_setspecific works and the keys are below 2^32.
pub epoch_list-passed :
    (raw_value : ℤ) (rest : List ℤ) (blank : Memory) (num m : ℕ)
    (answers : ℕ → Round (epoch_list (zeroed raw_value rest) blank))
    → (1 + m) * num < 2 ^ 32
    → ((n : ℕ)
        → n < 1 + m
        → AllFit num n
            (epoch_list (zeroed raw_value rest) blank)
            (epoch_list-Contract raw_value rest blank)
            (answers n).schedule
            (spawn (epoch_list (zeroed raw_value rest) blank) num n (started raw_value rest blank)))
    → ((n i : ℕ) → n < 1 + m → i < n → 4 * num + 4 ≤ turns i (answers n).schedule)
    → (rounds (epoch_list (zeroed raw_value rest) blank) num 0 answers m 1
        ≡ some (replicate m true))
      × ((n : ℕ)
          → n < 1 + m
          → (b : Bench (epoch_list (zeroed raw_value rest) blank)) × (run
                (epoch_list (zeroed raw_value rest) blank)
                num
                n
                (answers n).schedule
                (spawn
                  (epoch_list (zeroed raw_value rest) blank)
                  num
                  n
                  (started raw_value rest blank))
              ≡ some b)
            × ((i : ℕ) → i < n → (b.thread i).job ≡ finished))
epoch_list-passed raw_value rest blank num m answers small fit enough =
    let shared = epoch_list (zeroed raw_value rest) blank in
    let keeps = epoch_list-Contract raw_value rest blank in
    (
      rounds-passed num shared keeps answers m 1 small fit,
      λ n lt.
          let fewer : n * num < 2 ^ 32 =
            let le : n ≤ 1 + m = omega arith in omega (arith, mul-le-mul_right num le) in
          let (b, runs, ends, _) =
            run-finished num shared keeps n (answers n).schedule fewer (fit n lt)
              (λ i l. enough n i lt l) in
          (b, runs, ends),
    )
