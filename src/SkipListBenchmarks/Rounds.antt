-- ===== src/SkipListBenchmarks/Rounds.antt =====
-- What the correctness test of lab4/SkipListBenchmarks.c prints, over a map that keeps its contract.
use native.Mathlib.Nat.{mul-le-mul_right}
use distibuted_sys.Base.{
  ℕ, zero, suc, ◌+◌, ◌-◌, ◌*◌, ◌^◌, ◌≤◌, ◌<◌, ◌≡◌, refl, ◌∙◌, ap, true, false, none, some, List, [],
  ◌∷◌, inl, inr, arith, ◌==◌, ltb, if◌then◌else◌, Bool-cases, replicate,
}
use distibuted_sys.Base.Threads.{update, turns}
use distibuted_sys.SkipListBenchmarks.{
  max_threads, correctness_num_elements, SharedMap, inserting, finished, Bench, Round, work, turn,
  run, spawn, insert_elements, all_correct, correctness_test_printout, round, rounds,
  run_test_correctness,
}
use distibuted_sys.SkipListBenchmarks.Contract.{Contract}
use distibuted_sys.SkipListBenchmarks.Expected.{turns_left, turns_left-finished}
use distibuted_sys.SkipListBenchmarks.Works.{fine, Kept, work-Kept}

module _ (num n : ℕ) (k : SharedMap) (x : Contract k) where
  open k use {Store, Answer}
  open x use {Holds, Fits}

  -- The system answers every step of a schedule as the map needs it.
  abbrev pub AllFit : List (ℕ × Answer) → Bench k → Type 0
  AllFit [] b = Unit
  AllFit ((i, a) ∷ es) b =
      Fits a b.store × ((b' : Bench k) → turn k num n (i, a) b ≡ some b' → AllFit es b')

  module _ (small : n * num < 2 ^ 32) where
    abbrev pub Keeps : Bench k → Type 0
    Keeps b = Kept num n k x small b.store b.thread

    abbrev Progress : ℕ → Bench k → Bench k → ℕ → Type 0
    Progress j b b' got = turns_left num (b'.thread j).job ≤ turns_left num (b.thread j).job - got

    turn-Kept :
        (i : ℕ) (a : Answer) (b : Bench k)
        → Keeps b
        → Fits a b.store
        → (b' : Bench k) × (turn k num n (i, a) b ≡ some b')
          × Keeps b'
          × ((j : ℕ) → j < n → Progress j b b' (if i == j then 1 else 0))
    unfolding turn
    turn-Kept i a b c fits = elim (Bool-cases (ltb i n)) [
      | inl low ↦
          let lt : i < n = ground arith in
          let now = b.thread i in
          let (s, j, runs, keeps, fewer) =
            work-Kept num n k x small a b.store b.thread i lt c fits now.job refl in
          let is : now ≡ fine i now.job = c.is_fine i lt in
          let runs' : work k num n a b.store now.thread_i now.executed_correctly now.job
              ≡ some (s, true, j) =
            ap (λ th. work k num n a b.store th.thread_i th.executed_correctly now.job) is ∙ runs in
          let same : now.thread_i ≡ i = ap (λ th. th.thread_i) is in
          (
            record { store = s; thread = update b.thread i (fine i j) },
            ground (arith, runs', same),
            keeps,
            λ t l. elim (Bool-cases (i == t)) [
              | inl e ↦ let h : i ≡ t = ground arith in rw (e, ← h) fewer
              | inr e ↦ rw e (omega arith)
            ],
          )
      | inr out ↦
          (b, rw out refl, c, λ t l. let e : (i == t) ≡ false = ground arith in rw e (omega arith))
    ]

    run-Kept :
        (es : List (ℕ × Answer)) (b : Bench k)
        → Keeps b
        → AllFit es b
        → (b' : Bench k) × (run k num n es b ≡ some b')
          × Keeps b'
          × ((j : ℕ) → j < n → Progress j b b' (turns j es))
    unfolding run
    run-Kept [] b c fit = (b, refl, c, λ j l. omega arith)
    run-Kept ((i, a) ∷ es) b c (fits, rest) =
        let (b1, runs, c1, fewer) = turn-Kept i a b c fits in
        let (b2, runs', c2, fewer') = run-Kept es b1 c1 (rest b1 runs) in
        (
          b2,
          ground (arith, runs, runs'),
          c2,
          λ j l. elim (Bool-cases (i == j)) [
            | inl e ↦ let f = fewer j l in let f' = fewer' j l in ground (arith, f, f')
            | inr e ↦ let f = fewer j l in let f' = fewer' j l in ground (arith, f, f')
          ],
        )

    all_correct-Kept :
        (b : Bench k) → Keeps b → (m i : ℕ) → i + m ≤ n → all_correct k num n b.thread m i ≡ true
    unfolding all_correct
    all_correct-Kept b c zero i h = refl
    all_correct-Kept b c (suc m) i h =
        let e : (b.thread i).executed_correctly ≡ true =
          ap (λ th. th.executed_correctly) (c.is_fine i (omega arith)) in
        rw e (all_correct-Kept b c m (i + 1) (omega arith))

module _ (num : ℕ) (k : SharedMap) (x : Contract k) where
  open k use {Store, Answer}

  spawn-Kept : (n : ℕ) (small : n * num < 2 ^ 32) → Keeps num n k x small (spawn k num n x.start)
  unfolding spawn
  spawn-Kept n small = record {
    content = λ _. none;
    holds = x.empty;
    is_fine = λ t l. refl;
    expects = λ t l. (omega arith, λ i h. absurd (omega arith));
  }

  spawn-job : (n : ℕ) (s : Store) (i : ℕ) → ((spawn k num n s).thread i).job ≡ inserting 0
  unfolding spawn
  spawn-job n s i = refl

  -- Over a map that keeps the contract, in every order of the operations of the threads, each thread
  -- that gets turns enough, four times its elements and four, comes to the end of its job, and if
  -- all do the printout of the correctness test is PASSED, for keys below 2^32.
  pub run-finished :
      (n : ℕ) (es : List (ℕ × Answer))
      → n * num < 2 ^ 32
      → AllFit num n k x es (spawn k num n x.start)
      → ((i : ℕ) → i < n → 4 * num + 4 ≤ turns i es)
      → (b : Bench k) × (run k num n es (spawn k num n x.start) ≡ some b)
        × ((i : ℕ) → i < n → (b.thread i).job ≡ finished)
        × (correctness_test_printout k num n b ≡ true)
  unfolding correctness_test_printout
  run-finished n es small fit enough =
      let (b, runs, c, fewer) =
        run-Kept num n k x small es (spawn k num n x.start) (spawn-Kept n small) fit in
      (
        b,
        runs,
        λ i l.
            turns_left-finished num (b.thread i).job
              (omega (arith, fewer i l, enough i l, ap (turns_left num) (spawn-job n x.start i))),
        all_correct-Kept num n k x small b c n 0 (omega arith),
      )

  round-passed :
      (n : ℕ) (r : Round k)
      → n * num < 2 ^ 32
      → AllFit num n k x r.schedule (spawn k num n x.start)
      → round k num 0 n r ≡ some true
  unfolding round correctness_test_printout insert_elements
  round-passed n r small fit =
      let (b, runs, c, _) =
        run-Kept num n k x small r.schedule (spawn k num n x.start) (spawn-Kept n small) fit in
      let correct = all_correct-Kept num n k x small b c n 0 (omega arith) in
      let no_elements : 0 * n ≡ 0 = omega arith in
      ground (arith, x.starts, runs, correct, no_elements)

  pub rounds-passed :
      (answers : ℕ → Round k) (m n : ℕ)
      → (n + m) * num < 2 ^ 32
      → ((i : ℕ) → i < n + m → AllFit num i k x (answers i).schedule (spawn k num i x.start))
      → rounds k num 0 answers m n ≡ some (replicate m true)
  unfolding rounds
  rounds-passed answers zero n small fit = refl
  rounds-passed answers (suc m) n small fit =
      let first =
        round-passed n (answers n)
          (let h : n ≤ n + suc m = omega arith in omega (arith, mul-le-mul_right num h))
          (fit n (omega arith)) in
      let e : n + 1 + m ≡ n + suc m = omega arith in
      let rest = rounds-passed answers m (n + 1) (rw e small) (λ i l. fit i (omega arith)) in
      ground (arith, first, rest)

-- Over a map that keeps the contract, run_test_correctness prints PASSED in each of its 100 rounds,
-- in every order of the operations of the threads, if the system answers as the map needs it.
run_test_correctness-Contract :
    (k : SharedMap) (x : Contract k) (answers : ℕ → Round k)
    → ((n : ℕ)
        → n ≤ max_threads
        → AllFit correctness_num_elements n k x
            (answers n).schedule
            (spawn k correctness_num_elements n x.start))
    → run_test_correctness k answers ≡ some (replicate max_threads true)
unfolding run_test_correctness
run_test_correctness-Contract k x answers fit =
    rounds-passed correctness_num_elements k x answers max_threads 1 (omega arith)
      (λ i l. fit i (omega arith))
