-- ===== src/StackBenchmark/Works.antt =====
-- Each operation of a thread of lab3/StackBenchmark.c keeps the count.
use native.Mathlib.Nat.{mul-le-mul_left}
use distibuted_sys.Base.{
  ℕ, suc, ◌+◌, ◌-◌, ◌*◌, ◌%◌, ◌^◌, ◌≤◌, ◌<◌, ◌≡◌, refl, ◌∙◌, ap, subst, true, false, List, [], ◌∷◌,
  inl, inr, arith, ◌==◌, ltb, if◌then◌else◌, Bool-cases, length,
}
use distibuted_sys.Base.Threads.{mul-lt, update, sum_threads, sum_threads-ge, sum_threads_mono}
use distibuted_sys.StackBenchmark.{
  max_threads, SharedStack, Job, pushing, popping, logging, finished, Thread, work,
}
use distibuted_sys.StackBenchmark.Tally.{count, in_range, in_range-suc, in_range-ranges}
use distibuted_sys.StackBenchmark.Contract.{Contract, HasRoom-thread}
use distibuted_sys.StackBenchmark.Counted.{
  balance_of, balance, flight_of, flight, made, made_of-le, Bounded, Counted, Keeps,
  advance-Counted,
}

module _ (num n : ℕ) (k : SharedStack) (x : Contract k) (old : ℕ → ℕ) (few : n ≤ max_threads)
    (small : num * max_threads < 2 ^ 32) (clear : (v : ℕ) → v < num * n → old v ≡ 0) where
  open k use {Store, Answer}
  open x use {Holds, Fits}

  -- A number that a thread pushes, without its wrap-around.
  push_number : (i b : ℕ) → i < n → b < num → (num * i + b) % 2 ^ 32 ≡ num * i + b
  push_number i b lt h = omega (arith, mul-lt num i max_threads (omega arith))

  next_number : (b : ℕ) → b < num → (b + 1) % 2 ^ 32 ≡ b + 1
  next_number b h = omega arith

  -- No value is pushed twice, and none from the number of threads on.
  made-le :
      (f : ℕ → Thread) (v : ℕ)
      → ((i : ℕ) → i < n → (f i).thread_i ≡ i)
      → ((i : ℕ) → i < n → Bounded num (f i).job)
      → sum_threads (made num v) n f ≤ (if ltb v (num * n) then 1 else 0)
  made-le f v is bounded =
      let each =
        sum_threads_mono (made num v) (λ i. in_range v (num * i) num) n f (λ i. i)
          (λ i l. rw (is i l) (made_of-le num v i (f i).job (bounded i l))) in
      omega (arith, each, in_range-ranges v num n)

  module _ (a : Answer) (s : Store) (log : ℕ → ℕ) (f : ℕ → Thread) (i : ℕ) (lt : i < n)
      (c : Counted num n k x old few small clear s log f) (fits : Fits a s) where
    work-pushing :
        (b : ℕ)
        → (f i).job ≡ pushing b
        → Keeps num n k x old few small clear a s log f i (pushing b)
    unfolding work
    work-pushing b at =
        let most : b ≤ num = subst (Bounded num) at (c.bounded i lt) in
        let same = c.thread_is i lt in
        elim (Bool-cases (ltb b num)) [
          | inl more ↦
              let v = num * i + b in
              let below : b < num = ground arith in
              let (s', runs, holds) = x.pushes a i v s c.vs c.inside c.holds fits in
              (
                s',
                log,
                pushing (b + 1),
                rw (more, same, push_number i b lt below, runs, next_number b below) refl,
                advance-Counted num n k x old few small clear s log f i lt (pushing b) c at s' log
                    (pushing (b + 1)) (v ∷ c.vs) c.inside c.logged holds (omega arith) c.log_is
                    (λ w. ground (arith, in_range-suc w (num * i) b)) (omega arith) (λ t _. refl)
                    (λ e. cc),
                omega arith,
              )
          | inr end ↦ (
            s,
            log,
            popping 0,
            rw end refl,
            let full : b ≡ num = ground arith in
                advance-Counted num n k x old few small clear s log f i lt (pushing b) c at s log
                  (popping 0) c.vs c.inside c.logged c.holds (omega arith) c.log_is
                  (λ w. ground (arith, full)) (omega arith) (λ t _. refl) (λ e. cc),
            omega arith,
          )
        ]

    -- A pop in the pop cycle finds a value: there are more pushes than pops.
    work-takes :
        (b : ℕ)
        → (f i).job ≡ popping b
        → b < num
        → (vs : List ℕ) → c.vs ≡ vs
        → Keeps num n k x old few small clear a s log f i (popping b)
    unfolding work
    work-takes b at below [] e =
        let here : balance num (f i) ≡ num - b = ap (balance_of num) at in
        let none_left : length c.vs ≡ 0 = ap length e in
        absurd (omega (arith, c.size, here, none_left, sum_threads-ge (balance num) n i f lt))
    work-takes b at below (v ∷ vs) e =
        let low : i ≤ max_threads = omega arith in
        let room = HasRoom-thread c.inside i (omega arith) (c.others max_threads few) in
        let (s', runs, holds) =
          x.pops a i v s vs c.inside (subst (λ ws. Holds s ws c.inside) e c.holds) fits low room in
        let same = c.thread_is i lt in
        let more : ltb b num ≡ true = ground arith in
        (
          s',
          log,
          logging b v,
          rw (more, same, runs) refl,
          advance-Counted num n k x old few small clear s log f i lt (popping b) c at s' log
              (logging b v) vs (update c.inside i true) c.logged holds
              (let l : length c.vs ≡ suc (length vs) = ap length e in omega (arith, l)) c.log_is
              (λ w. let l : count w c.vs ≡ count w (v ∷ vs) = ap (count w) e in ground (arith, l))
              (omega arith) (λ t ne. rw ne refl) (λ q. cc),
          omega arith,
        )

    work-popping :
        (b : ℕ)
        → (f i).job ≡ popping b
        → Keeps num n k x old few small clear a s log f i (popping b)
    unfolding work
    work-popping b at =
        let most : b ≤ num = subst (Bounded num) at (c.bounded i lt) in
        let same = c.thread_is i lt in
        elim (Bool-cases (ltb b num)) [
          | inl more ↦ work-takes b at (ground arith) c.vs refl
          | inr end ↦ (
            k.leave i s,
            log,
            finished,
            rw (end, same) refl,
            let full : b ≡ num = ground arith in
                advance-Counted num n k x old few small clear s log f i lt (popping b) c at
                  (k.leave i s) log finished c.vs (update c.inside i false) c.logged
                  (x.leaves i s c.vs c.inside c.holds (omega arith)) (omega arith) c.log_is
                  (λ w. ground (arith, full)) tt (λ t ne. rw ne refl) (λ _. ground arith),
            omega arith,
          )
        ]

    -- What is between a pop and the log was pushed in this round, and not logged yet.
    flight-fresh : (b v : ℕ) → (f i).job ≡ logging b v → (v < num * n) × (c.logged v ≡ 0)
    flight-fresh b v at =
        let here : flight num v (f i) ≡ 1 = ap (flight_of num v) at ∙ ground arith in
        let all = made-le f v c.thread_is c.bounded in
        let one = sum_threads-ge (flight num v) n i f lt in
        (ground (arith, here, all, one, c.placed v), ground (arith, here, all, one, c.placed v))

    work-logging :
        (b v : ℕ)
        → (f i).job ≡ logging b v
        → Keeps num n k x old few small clear a s log f i (logging b v)
    unfolding work
    work-logging b v at =
        let most : b < num = subst (Bounded num) at (c.bounded i lt) in
        let (inside, new) = flight-fresh b v at in
        let one : (log v + 1) % 2 ^ 8 ≡ 1 = omega (arith, c.log_is v, clear v inside, new) in
        let big : v < num * max_threads % 2 ^ 32 = omega (arith, mul-le-mul_left num few) in
        let low : ltb v (num * max_threads % 2 ^ 32) ≡ true = ground arith in
        (
          s,
          update log v 1,
          popping (b + 1),
          rw (low, next_number b most, one) refl,
          advance-Counted num n k x old few small clear s log f i lt (logging b v) c at s
              (update log v 1) (popping (b + 1)) c.vs c.inside (update c.logged v 1) c.holds
              (omega arith)
              (λ w. elim (Bool-cases (v == w)) [
                | inl e ↦
                    let h : v ≡ w = ground arith in rw e (omega (arith, clear v inside, ap old h))
                | inr e ↦ rw e (c.log_is w)
              ])
              (λ w. elim (Bool-cases (v == w)) [
                | inl e ↦ let h : v ≡ w = ground arith in rw e (omega (arith, new, ap c.logged h))
                | inr e ↦ rw e (omega arith)
              ])
              (omega arith) (λ t _. refl) (λ q. cc),
          omega arith,
        )

    pub work-Counted : (j : Job) → (f i).job ≡ j → Keeps num n k x old few small clear a s log f i j
    unfolding work
    work-Counted (pushing b) at = work-pushing b at
    work-Counted (popping b) at = work-popping b at
    work-Counted (logging b v) at = work-logging b v at
    work-Counted finished at = (
      s,
      log,
      finished,
      refl,
      advance-Counted num n k x old few small clear s log f i lt finished c at s log finished c.vs
          c.inside c.logged c.holds refl c.log_is (λ w. refl) tt (λ t _. refl) (λ _. c.gone i at),
      omega arith,
    )
