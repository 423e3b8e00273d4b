-- ===== src/SkipListBenchmarks/Inserted.antt =====
-- What the insertions of the performance test of lab4/SkipListBenchmarks.c leave in the map.
use distibuted_sys.Base.{
  ℕ, suc, ◌+◌, ◌-◌, ◌*◌, ◌^◌, ◌≤◌, ◌<◌, ◌≡◌, refl, sym, ◌∙◌, subst, Option, none, some, List, [],
  ◌∷◌, inl, inr, false, arith, ◌==◌, ltb, if◌then◌else◌, Bool-cases,
}
use distibuted_sys.Base.Threads.{update, turns}
use distibuted_sys.SkipListBenchmarks.{
  insert_elements, SharedMap, Round, max_threads, inserting, Thread, key_of,
}
use distibuted_sys.SkipListBenchmarks.Contract.{Contract}
use distibuted_sys.SkipListBenchmarks.Expected.{Expects}
use distibuted_sys.SkipListBenchmarks.Works.{fine, Kept, key_number, advance-Kept, spared, written}
use distibuted_sys.SkipListBenchmarks.Performance.{
  insertion, insertions, Race, race, race_turn, next_operation, insert_performance_num_elements,
  insert_performance_thread_job, performance_round,
}

insertions-suc :
    (m i step shift : ℕ)
    → insertions (suc m) i step shift
      ≡ insertion (key_of step i shift) (key_of step i shift) ∷ insertions m (i + 1) step shift
unfolding insertions
insertions-suc m i step shift = refl

insertions-zero : (i step shift : ℕ) → insertions 0 i step shift ≡ []
unfolding insertions
insertions-zero i step shift = refl

module _ (n : ℕ) (k : SharedMap) (x : Contract k) where
  open k use {Answer}
  open x use {Fits}

  -- The system answers every step of the threads as the map needs it.
  abbrev pub RaceFits : List (ℕ × Answer) → Race k → Type 0
  RaceFits [] r = Unit
  RaceFits ((t, a) ∷ es) r =
      Fits a r.0 × ((r' : Race k) → race_turn k n (t, a) r ≡ some r' → RaceFits es r')

module _ (num n : ℕ) (k : SharedMap) (x : Contract k) (small : n * num < 2 ^ 32) where
  open k use {Store, Answer}
  open x use {Holds, Fits}

  -- Thread `t` has made its insertions up to the index `b t`.
  record Racing (r : Race k) : Type 0 where
    f : ℕ → Thread
    b : ℕ → ℕ
    kept : Kept num n k x small r.0 f
    job : (t : ℕ) → t < n → (f t).job ≡ inserting (b t)
    left : (t : ℕ) → t < n → r.1 t ≡ insertions (num - b t) (b t) n t

  abbrev Raced : Option (Race k) → (b : ℕ → ℕ) → (ℕ → ℕ) → Type 0
  Raced o b got =
      (r' : Race k) × (o ≡ some r')
      × (c : Racing r') × ((j : ℕ) → j < n → num - c.b j ≤ (num - b j) - got j)

  next_operation-Racing :
      (r : Race k) (t : ℕ) (a : Answer) (c : Racing r)
      → t < n
      → Fits a r.0
      → Raced (next_operation k a t r (r.1 t)) c.b (λ j. if t == j then 1 else 0)
  next_operation-Racing r t a c lt fits =
      let (most, done) =
        subst (λ j. Expects num j (λ i. n * i + t) (λ i. c.kept.content (n * i + t))) (c.job t lt)
          (c.kept.expects t lt) in
      let b = c.b t in
      elim (Bool-cases (ltb b num)) [
        | inl more ↦
            let key = n * b + t in
            let below : b < num = ground arith in
            let (s', runs, holds) = x.inserts a t key key r.0 c.kept.content c.kept.holds fits in
            let step : num - b ≡ suc (num - (b + 1)) = omega arith in
            let todo : r.1 t ≡ insertion key key ∷ insertions (num - (b + 1)) (b + 1) n t =
              c.left t lt
              ∙ rw
                  (
                    step,
                    insertions-suc (num - (b + 1)) b n t,
                    key_number num n k x small b t lt below,
                  )
                  refl in
            (
              (s', update r.1 t (insertions (num - (b + 1)) (b + 1) n t)),
              subst
                  (λ l.
                    next_operation k a t r l
                    ≡ some (s', update r.1 t (insertions (num - (b + 1)) (b + 1) n t)))
                  (sym todo) (rw (next_operation, runs) refl),
              record {
                f = update c.f t (fine t (inserting (b + 1)));
                b = update c.b t (b + 1);
                kept =
                    advance-Kept num n k x small r.0 s' c.f t (inserting (b + 1))
                      (update c.kept.content key (some key)) lt c.kept holds
                      (λ u l ne. spared num n k x small c.kept.content (some key) t b u lt l ne)
                      (ground arith, written num n k x small c.kept.content some t b lt done);
                job = λ j l. elim (Bool-cases (t == j)) [
                  | inl e ↦ let h : t ≡ j = ground arith in rw e refl
                  | inr e ↦ rw e (c.job j l)
                ];
                left = λ j l. elim (Bool-cases (t == j)) [
                  | inl e ↦ let h : t ≡ j = ground arith in rw (e, ← h) refl
                  | inr e ↦ rw e (c.left j l)
                ];
              },
              λ j l. elim (Bool-cases (t == j)) [
                | inl e ↦ let h : t ≡ j = ground arith in rw (e, ← h) (omega arith)
                | inr e ↦ rw e (omega arith)
              ],
            )
        | inr end ↦
            let all : num - b ≡ 0 = ground arith in
            let todo : r.1 t ≡ [] = c.left t lt ∙ rw all (insertions-zero b n t) in
            (
              r,
              subst (λ l. next_operation k a t r l ≡ some r) (sym todo) refl,
              c,
              λ j l. elim (Bool-cases (t == j)) [
                | inl e ↦ let h : t ≡ j = ground arith in rw (e, ← h) (omega (arith, all))
                | inr e ↦ rw e (omega arith)
              ],
            )
      ]

  race_turn-Racing :
      (t : ℕ) (a : Answer) (r : Race k) (c : Racing r)
      → Fits a r.0
      → Raced (race_turn k n (t, a) r) c.b (λ j. if t == j then 1 else 0)
  unfolding race_turn
  race_turn-Racing t a r c fits = elim (Bool-cases (ltb t n)) [
    | inl e ↦
        let (r', runs, c', fewer) = next_operation-Racing r t a c (ground arith) fits in
        (r', rw (e, runs) refl, c', fewer)
    | inr e ↦
        (r, rw e refl, c, λ j l. let o : (t == j) ≡ false = ground arith in rw o (omega arith))
  ]

  race-Racing :
      (es : List (ℕ × Answer)) (r : Race k) (c : Racing r)
      → RaceFits n k x es r
      → Raced (race k n es r) c.b (λ j. turns j es)
  unfolding race
  race-Racing [] r c fits = (r, refl, c, λ j l. omega arith)
  race-Racing ((t, a) ∷ es) r c (fits, rest) =
      let (r1, runs, c1, fewer) = race_turn-Racing t a r c fits in
      let (r2, runs', c2, fewer') = race-Racing es r1 c1 (rest r1 runs) in
      (
        r2,
        rw (race, runs, runs') refl,
        c2,
        λ j l. elim (Bool-cases (t == j)) [
          | inl e ↦ let g = fewer j l in let g' = fewer' j l in ground (arith, g, g')
          | inr e ↦ let g = fewer j l in let g' = fewer' j l in ground (arith, g, g')
        ],
      )

  start-Racing : Racing (x.start, λ t. insertions num 0 n t)
  start-Racing = record {
    f = λ t. fine t (inserting 0);
    b = λ t. 0;
    kept = record {
      content = λ _. none;
      holds = x.empty;
      is_fine = λ t l. refl;
      expects = λ t l. (omega arith, λ i h. absurd (omega arith));
    };
    job = λ t l. refl;
    left = λ t l. let all : num - 0 ≡ num = omega arith in rw all refl;
  }

  -- Over a map that keeps the contract, in every order of the insertions of the threads in which each
  -- of them gets turns enough, the map has all keys of all threads at the end, each with itself for
  -- its value, for keys below 2^32.
  race-inserted :
      (es : List (ℕ × Answer))
      → RaceFits n k x es (x.start, λ t. insertions num 0 n t)
      → ((t : ℕ) → t < n → num ≤ turns t es)
      → (r : Race k) × (content : ℕ → Option ℕ) × (race k n es (x.start, λ t. insertions num 0 n t)
          ≡ some r)
        × Holds r.0 content
        × ((t i : ℕ) → t < n → i < num → content (n * i + t) ≡ some (n * i + t))
  race-inserted es fits enough =
      let (r, runs, c, fewer) =
        race-Racing es (x.start, λ t. insertions num 0 n t) start-Racing fits in
      (
        r,
        c.kept.content,
        runs,
        c.kept.holds,
        λ t i lt l.
            let (most, done) =
              subst (λ j. Expects num j (λ i. n * i + t) (λ i. c.kept.content (n * i + t)))
                (c.job t lt) (c.kept.expects t lt) in
            done i (omega (arith, fewer t lt, enough t lt, l)),
      )

-- Over a map that keeps the contract, a round of run_test_insert_performance with up to 100 threads,
-- in every order of their insertions in which each of them gets its 10000 turns, leaves in the map
-- all keys of all threads, each with itself for its value, if the system answers as the map needs it.
pub performance_round-inserted :
    (k : SharedMap) (x : Contract k) (n : ℕ) (r : Round k)
    → n ≤ max_threads
    → RaceFits n k x r.schedule (x.start, insert_performance_thread_job n)
    → ((t : ℕ) → t < n → insert_performance_num_elements ≤ turns t r.schedule)
    → (left : Race k) × (content : ℕ → Option ℕ) × (performance_round k 0
          insert_performance_thread_job n r
        ≡ some left)
      × x.Holds left.0 content
      × ((t i : ℕ)
          → t < n
          → i < insert_performance_num_elements
          → content (n * i + t) ≡ some (n * i + t))
unfolding performance_round insert_elements
performance_round-inserted k x n r few fits enough =
    let (left, content, runs, holds, all) =
      race-inserted insert_performance_num_elements n k x (omega arith) r.schedule fits enough in
    let no_elements : 0 * n ≡ 0 = omega arith in
    (left, content, rw (performance_round, x.starts, no_elements, runs) refl, holds, all)
