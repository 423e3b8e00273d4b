-- ===== src/StackBenchmark/Rounds.antt =====
-- The rounds of the correctness test of lab3/StackBenchmark.c, over a stack that keeps its contract.
use native.Mathlib.Nat.{mul-le-mul_left}
use distibuted_sys.Base.{
  ℕ, zero, suc, ◌+◌, ◌*◌, ◌%◌, ◌^◌, ◌≤◌, ◌<◌, ◌≡◌, refl, ap, subst, true, false, some, List, [],
  ◌∷◌, inl, inr, arith, ◌==◌, ltb, if◌then◌else◌, Bool-cases, length, replicate, ◌≢◌,
}
use distibuted_sys.Base.Threads.{sum_threads, sum_threads-const, sum_threads_mono}
use distibuted_sys.StackBenchmark.{
  max_threads, SharedStack, Job, pushing, popping, logging, finished, Bench, Round, spawn, all_one,
  pre_push, correctness_test_printout, round, rounds,
}
use distibuted_sys.StackBenchmark.Tally.{count, in_range, in_range-ranges}
use distibuted_sys.StackBenchmark.Contract.{Contract, HasRoom-main}
use distibuted_sys.StackBenchmark.Counted.{
  checked, thread, balance, flight, made, turns_left, Counted,
}
use distibuted_sys.StackBenchmark.Turns.{run-Counted, Fitting}

-- A thread with no turns left has finished.
turns_left-finished : (num : ℕ) (j : Job) → turns_left num j ≡ 0 → j ≡ finished
turns_left-finished num (pushing i) e = absurd (omega (arith, e))
turns_left-finished num (popping i) e = absurd (omega (arith, e))
turns_left-finished num (logging i v) e = absurd (omega (arith, e))
turns_left-finished num finished e = refl

module _ (k : SharedStack) (x : Contract k) (num : ℕ) (small : num * max_threads < 2 ^ 32) where
  open k use {Store, Answer}
  open x use {Holds, Fits}

  -- The log after `memset`.
  abbrev pub cleared : ℕ → (ℕ → ℕ) → ℕ → ℕ
  cleared n log v = if ltb v (num * n) then 0 else log v

  all_one-true :
      (log : ℕ → ℕ) (m i : ℕ)
      → ((v : ℕ) → v < i + m → log v ≡ 1)
      → all_one k (checked num) log m i ≡ true
  unfolding all_one
  all_one-true log zero i h = refl
  all_one-true log (suc m) i h =
      let e : (log i == 1) ≡ true = ground (arith, h i (omega arith)) in
      rw e (all_one-true log m (i + 1) (λ v l. h v (omega arith)))

  module _ (n : ℕ) (few : n ≤ max_threads) (log : ℕ → ℕ) where
    pub clear : (v : ℕ) → v < num * n → cleared n log v ≡ 0
    clear v h = ground arith

    abbrev Ends : Bench k → Type 0
    Ends b = Counted num n k x (cleared n log) few small clear b.store b.pop_log_array b.thread

    pub spawn-Counted : (s : Store) → Holds s [] (λ _. false) → Ends (spawn k (checked num) n log s)
    unfolding spawn
    spawn-Counted s holds = record {
      vs = [];
      inside = λ _. false;
      holds = holds;
      size =
          omega
            (arith, sum_threads-const (balance num) n 0 (λ t. thread t (pushing 0)) (λ i l. refl));
      logged = λ _. 0;
      log_is = λ v. omega arith;
      placed = λ v. omega (
        arith,
        sum_threads-const (flight num v) n 0 (λ t. thread t (pushing 0)) (λ i l. refl),
        sum_threads-const (made num v) n 0 (λ t. thread t (pushing 0)) (λ i l. ground arith),
      );
      thread_is = λ i l. refl;
      bounded = λ i l. omega arith;
      others = λ i l. refl;
      gone = λ i e. refl;
    }

    -- When every thread has finished, each value was logged once.
    logged_once :
        (b : Bench k) (c : Ends b)
        → ((i : ℕ) → i < n → (b.thread i).job ≡ finished)
        → c.vs ≡ []
        → (v : ℕ) → v < num * n
        → b.pop_log_array v ≡ 1
    logged_once b c all e v lt =
        let none_left : count v c.vs ≡ 0 = ap (count v) e in
        let none_flies =
          sum_threads-const (flight num v) n 0 b.thread
            (λ i l. ap (λ j. flight num v (thread 0 j)) (all i l)) in
        let ranges : sum_threads (λ i. in_range v (num * i) num) n (λ i. i) ≡ 1 =
          ground (arith, in_range-ranges v num n) in
        let most =
          sum_threads_mono (made num v) (λ i. in_range v (num * i) num) n b.thread (λ i. i)
            (λ i l. rw (all i l, c.thread_is i l) (omega arith)) in
        let least =
          sum_threads_mono (λ i. in_range v (num * i) num) (made num v) n (λ i. i) b.thread
            (λ i l. rw (all i l, c.thread_is i l) (omega arith)) in
        omega
          (arith, c.log_is v, c.placed v, none_left, none_flies, ranges, most, least, clear v lt)

    -- When every thread has finished, the printout finds what it looks for.
    printout-Counted :
        (b : Bench k) (a : Answer)
        → Ends b
        → Fits a b.store
        → ((i : ℕ) → i < n → (b.thread i).job ≡ finished)
        → correctness_test_printout k (checked num) a n b ≡ some true
    unfolding correctness_test_printout
    printout-Counted b a c fits all = go c.vs refl
      where
        go : (vs : List ℕ) → c.vs ≡ vs → correctness_test_printout k (checked num) a n b ≡ some true
        go (v ∷ vs) e =
            let l : length c.vs ≡ suc (length vs) = ap length e in
            absurd (
              omega (
                arith,
                c.size,
                l,
                sum_threads-const (balance num) n 0 b.thread
                    (λ i h. ap (λ j. balance num (thread 0 j)) (all i h)),
              ))
        go [] e =
            let gone : (t : ℕ) → t < max_threads → c.inside t ≡ false = λ t lt.
              elim (Bool-cases (ltb t n)) [
                | inl below ↦ c.gone t (all t (ground arith))
                | inr above ↦ c.others t (ground arith)
              ] in
            let (s, runs, _) =
              x.finds_none a max_threads b.store c.inside
                (subst (λ vs. Holds b.store vs c.inside) e c.holds) fits (omega arith)
                (HasRoom-main c.inside gone) in
            let wrap : n * num % 2 ^ 32 ≡ num * n = omega (arith, mul-le-mul_left num few) in
            let ones : all_one k (checked num) b.pop_log_array (num * n) 0 ≡ true =
              all_one-true b.pop_log_array (num * n) 0
                (λ v lt. logged_once b c all e v (omega arith)) in
            ground (arith, runs, wrap, ones)

  spawn-job :
      (n : ℕ) (log : ℕ → ℕ) (s : Store) (i : ℕ)
      → ((spawn k (checked num) n log s).thread i).job ≡ pushing 0
  unfolding spawn
  spawn-job n log s i = refl

  -- The correctness test pops no more than it pushes.
  no_pre_push :
      (answers : ℕ → Answer) (s : Store) → pre_push k (checked num) answers (suc num) 0 s ≡ some s
  unfolding pre_push
  no_pre_push answers s = let no : ltb ((0 + num) % 2 ^ 32) num ≡ false = ground arith in rw no refl

  round-passed :
      (n : ℕ) (log : ℕ → ℕ) (r : Round k)
      → n ≤ max_threads
      → Fitting k x num n log r
      → (log' : ℕ → ℕ) × (round k (checked num) n log r ≡ some (true, log'))
  unfolding round
  round-passed n log r few fit =
      let s = x.start in
      let b = spawn k (checked num) n log s in
      let (b', runs, keeps, fewer) =
        run-Counted k x num n (cleared n log) few small (clear n few log) r.schedule b
          (spawn-Counted n few log s x.empty) fit.steps in
      let all : (i : ℕ) → i < n → (b'.thread i).job ≡ finished = λ i lt.
        turns_left-finished num (b'.thread i).job
          (omega (arith, fewer i lt, fit.enough i lt, ap (turns_left num) (spawn-job n log s i))) in
      let prints = printout-Counted n few log b' r.after keeps (fit.last b' runs) all in
      let pushes : pre_push k (checked num) r.before (suc num) 0 s ≡ some s =
        no_pre_push r.before s in
      (b'.pop_log_array, ground (arith, x.starts, pushes, runs, prints))

  -- Whatever the order of the steps, every round of the correctness test prints PASSED.
  pub rounds-passed :
      (ns : List ℕ) (log : ℕ → ℕ) (answers : ℕ → Round k)
      → ((n : ℕ) → count n ns ≢ 0 → n ≤ max_threads)
      → ((n : ℕ) (log : ℕ → ℕ) → count n ns ≢ 0 → Fitting k x num n log (answers n))
      → rounds k (checked num) ns log answers ≡ some (replicate (length ns) true)
  unfolding rounds
  rounds-passed [] log answers few fit = refl
  rounds-passed (n ∷ ns) log answers few fit =
      let (log', runs) =
        round-passed n log (answers n) (few n (ground arith)) (fit n log (ground arith)) in
      let rest =
        rounds-passed ns log' answers (λ m h. few m (ground arith))
          (λ m l h. fit m l (ground arith)) in
      ground (arith, runs, rest)
