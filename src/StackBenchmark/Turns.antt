-- ===== src/StackBenchmark/Turns.antt =====
-- The threads of a correctness round of lab3/StackBenchmark.c keep the count, and come to their ends.
use distibuted_sys.Base.{
  ℕ, ◌+◌, ◌-◌, ◌*◌, ◌^◌, ◌≤◌, ◌<◌, ◌≡◌, refl, false, some, List, [], ◌∷◌, inl, inr, arith, ◌==◌,
  ltb, if◌then◌else◌, Bool-cases,
}
use distibuted_sys.Base.Threads.{turns, update}
use distibuted_sys.StackBenchmark.{max_threads, SharedStack, Bench, Round, turn, run, spawn}
use distibuted_sys.StackBenchmark.Tally.{in_range}
use distibuted_sys.StackBenchmark.Contract.{Contract}
use distibuted_sys.StackBenchmark.Works.{work-Counted}
use distibuted_sys.StackBenchmark.Counted.{checked, turns_left, Counted}

module _ (k : SharedStack) (x : Contract k) (num n : ℕ) where
  open k use {Store, Answer}
  open x use {Holds, Fits}

  -- The system answers every step of a schedule as the stack needs it.
  abbrev pub AllFit : List (ℕ × Answer) → Bench k → Type 0
  AllFit [] b = Unit
  AllFit ((i, a) ∷ es) b =
      Fits a b.store × ((b' : Bench k) → turn k (checked num) n (i, a) b ≡ some b' → AllFit es b')

  module _ (old : ℕ → ℕ) (few : n ≤ max_threads) (small : num * max_threads < 2 ^ 32)
      (clear : (v : ℕ) → v < num * n → old v ≡ 0) where
    abbrev pub Keeps : Bench k → Type 0
    Keeps b = Counted num n k x old few small clear b.store b.pop_log_array b.thread

    -- The turns that thread `j` still needs after it got some.
    abbrev pub Progress : ℕ → Bench k → Bench k → ℕ → Type 0
    Progress j b b' got = turns_left num (b'.thread j).job ≤ turns_left num (b.thread j).job - got

    turn-Counted :
        (i : ℕ) (a : Answer) (b : Bench k)
        → Keeps b
        → Fits a b.store
        → (b' : Bench k) × (turn k (checked num) n (i, a) b ≡ some b')
          × Keeps b'
          × ((j : ℕ) → j < n → Progress j b b' (if i == j then 1 else 0))
    unfolding turn
    turn-Counted i a b c fits = elim (Bool-cases (ltb i n)) [
      | inl in_range ↦
          let (s, log, j, runs, keeps, fewer) =
            work-Counted num n k x old few small clear a b.store b.pop_log_array b.thread i
              (ground arith) c fits (b.thread i).job refl in
          (
            record {
              store = s;
              pop_log_array = log;
              thread = update b.thread i (record { thread_i = (b.thread i).thread_i; job = j });
            },
            rw (in_range, runs) refl,
            keeps,
            λ t lt. elim (Bool-cases (i == t)) [
              | inl e ↦ let h : i ≡ t = ground arith in rw (e, ← h) fewer
              | inr e ↦ rw e (omega arith)
            ],
          )
      | inr out ↦
          (b, rw out refl, c, λ t lt. let e : (i == t) ≡ false = ground arith in rw e (omega arith))
    ]

    pub run-Counted :
        (es : List (ℕ × Answer)) (b : Bench k)
        → Keeps b
        → AllFit es b
        → (b' : Bench k) × (run k (checked num) n es b ≡ some b')
          × Keeps b'
          × ((j : ℕ) → j < n → Progress j b b' (turns j es))
    unfolding run
    run-Counted [] b c fit = (b, refl, c, λ j lt. omega arith)
    run-Counted ((i, a) ∷ es) b c (fits, rest) =
        let (b1, runs, c1, fewer) = turn-Counted i a b c fits in
        let (b2, runs', c2, fewer') = run-Counted es b1 c1 (rest b1 runs) in
        (
          b2,
          ground (arith, runs, runs'),
          c2,
          λ j lt. elim (Bool-cases (i == j)) [
            | inl e ↦ let f = fewer j lt in let f' = fewer' j lt in ground (arith, f, f')
            | inr e ↦ let f = fewer j lt in let f' = fewer' j lt in ground (arith, f, f')
          ],
        )

module _ (k : SharedStack) (x : Contract k) (num : ℕ) where
  open x use {Fits}

  -- What the system has to answer in a round, and the turns that the threads have to get.
  pub record Fitting (n : ℕ) (log : ℕ → ℕ) (r : Round k) : Type 0 where
    pub steps : AllFit k x num n r.schedule (spawn k (checked num) n log x.start)
    pub last :
        (b : Bench k)
        → run k (checked num) n r.schedule (spawn k (checked num) n log x.start) ≡ some b
        → Fits r.after b.store
    pub enough : (i : ℕ) → i < n → 3 * num + 2 ≤ turns i r.schedule
