-- ===== src/StackBenchmark/Counted.antt =====
-- The invariant of a correctness round of lab3/StackBenchmark.c: every value that a thread has pushed
-- is on the stack, between a pop and the log, or in the log, once.
use distibuted_sys.Base.{
  ℕ, suc, ◌+◌, ◌-◌, ◌*◌, ◌^◌, ◌≤◌, ◌<◌, ◌≡◌, ◌∙◌, ap, Bool, true, false, some, List, inl, inr,
  arith, ◌==◌, if◌then◌else◌, Bool-cases, length,
}
use distibuted_sys.Base.Threads.{update, sum_threads, sum_threads-update}
use distibuted_sys.StackBenchmark.{
  max_threads, SharedStack, Common, Job, pushing, popping, logging, finished, Thread, work,
}
use distibuted_sys.StackBenchmark.Tally.{count, in_range, in_range-le}
use distibuted_sys.StackBenchmark.Contract.{Contract}

-- The correctness test pops as often as it pushes.
abbrev pub checked : ℕ → Common
checked num = record { check_correctness = true; num_to_push = num; num_to_pop = num }

abbrev pub thread : ℕ → Job → Thread
thread t j = record { thread_i = t; job = j }

module _ (num : ℕ) where
  -- The pushes of a thread less its pops.
  abbrev pub balance_of : Job → ℕ
  balance_of (pushing i) = i
  balance_of (popping i) = num - i
  balance_of (logging i _) = num - suc i
  balance_of finished = 0

  abbrev pub balance : Thread → ℕ
  balance t = balance_of t.job

  abbrev pub flight_of : ℕ → Job → ℕ
  flight_of v (logging _ w) = if w == v then 1 else 0
  flight_of v _ = 0

  -- Whether a thread is about to log `v`.
  abbrev pub flight : ℕ → Thread → ℕ
  flight v t = flight_of v t.job

  abbrev pub made_of : ℕ → ℕ → Job → ℕ
  made_of v t (pushing i) = in_range v (num * t) i
  made_of v t (popping _) = in_range v (num * t) num
  made_of v t (logging _ _) = in_range v (num * t) num
  made_of v t finished = in_range v (num * t) num

  -- Whether a thread has pushed `v`.
  abbrev pub made : ℕ → Thread → ℕ
  made v t = made_of v t.thread_i t.job

  abbrev pub Bounded : Job → Type 0
  Bounded (pushing i) = i ≤ num
  Bounded (popping i) = i ≤ num
  Bounded (logging i _) = i < num
  Bounded finished = Unit

  pub made_of-le : (v t : ℕ) (j : Job) → Bounded j → made_of v t j ≤ in_range v (num * t) num
  made_of-le v t (pushing i) h = in_range-le v (num * t) i num h
  made_of-le v t (popping i) h = omega arith
  made_of-le v t (logging i w) h = omega arith
  made_of-le v t finished h = omega arith

  -- More turns than these a thread does not need.
  abbrev pub turns_left : Job → ℕ
  turns_left (pushing i) = (num - i) + 2 * num + 2
  turns_left (popping i) = 2 * (num - i) + 1
  turns_left (logging i _) = 2 * (num - suc i) + 2
  turns_left finished = 0

module _ (num n : ℕ) (k : SharedStack) (x : Contract k) (old : ℕ → ℕ) (few : n ≤ max_threads)
    (small : num * max_threads < 2 ^ 32) (clear : (v : ℕ) → v < num * n → old v ≡ 0) where
  open k use {Store, Answer}
  open x use {Holds, Fits}

  pub record Counted (s : Store) (log : ℕ → ℕ) (f : ℕ → Thread) : Type 0 where
    pub vs : List ℕ
    pub inside : ℕ → Bool
    pub holds : Holds s vs inside
    pub size : length vs ≡ sum_threads (balance num) n f
    pub logged : ℕ → ℕ  -- how often a value was logged in this round
    pub log_is : (v : ℕ) → log v ≡ old v + logged v
    pub placed :
        (v : ℕ)
        → count v vs + sum_threads (flight num v) n f + logged v ≡ sum_threads (made num v) n f
    pub thread_is : (i : ℕ) → i < n → (f i).thread_i ≡ i
    pub bounded : (i : ℕ) → i < n → Bounded num (f i).job
    pub others : (i : ℕ) → n ≤ i → inside i ≡ false
    pub gone : (i : ℕ) → (f i).job ≡ finished → inside i ≡ false

  -- The work of thread `i` at `j` keeps the count, and takes one of its turns.
  abbrev pub Keeps : Answer → Store → (ℕ → ℕ) → (ℕ → Thread) → ℕ → Job → Type 0
  Keeps a s log f i j =
      (s' : Store) × (log' : ℕ → ℕ) × (j' : Job) × (work k (checked num) a s log (f i).thread_i j
        ≡ some (s', log', j'))
      × Counted s' log' (update f i (thread (f i).thread_i j'))
      × (turns_left num j' ≤ turns_left num j - 1)

  module _ (s : Store) (log : ℕ → ℕ) (f : ℕ → Thread) (i : ℕ) (lt : i < n) (j : Job)
      (c : Counted s log f) (at : (f i).job ≡ j) where
    -- What one thread changes, for the whole.
    pub advance-Counted :
        (s' : Store) (log' : ℕ → ℕ) (j' : Job) (vs' : List ℕ) (inside' : ℕ → Bool) (logged' : ℕ → ℕ)
        → Holds s' vs' inside'
        → length vs' + balance_of num j ≡ length c.vs + balance_of num j'
        → ((v : ℕ) → log' v ≡ old v + logged' v)
        → ((v : ℕ)
            → (count v vs' + flight_of num v j' + logged' v) + made_of num v i j
              ≡ (count v c.vs + flight_of num v j + c.logged v) + made_of num v i j')
        → Bounded num j'
        → ((t : ℕ) → (i == t) ≡ false → inside' t ≡ c.inside t)
        → (j' ≡ finished → inside' i ≡ false)
        → Counted s' log' (update f i (thread (f i).thread_i j'))
    advance-Counted s' log' j' vs' inside' logged' holds size log_is placed bounded others gone =
        let new = thread (f i).thread_i j' in
        let same : (f i).thread_i ≡ i = c.thread_is i lt in
        record {
          vs = vs';
          inside = inside';
          holds = holds;
          size =
              let b : balance num (f i) ≡ balance_of num j = ap (balance_of num) at in
              omega (arith, c.size, size, sum_threads-update (balance num) n i f new lt, b);
          logged = logged';
          log_is = log_is;
          placed = λ v.
              let b : flight num v (f i) ≡ flight_of num v j = ap (flight_of num v) at in
              let d : made num v (f i) ≡ made_of num v i j =
                ap (made_of num v (f i).thread_i) at ∙ ap (λ t. made_of num v t j) same in
              let d' : made num v new ≡ made_of num v i j' = ap (λ t. made_of num v t j') same in
              omega (
                arith,
                c.placed v,
                placed v,
                sum_threads-update (flight num v) n i f new lt,
                sum_threads-update (made num v) n i f new lt,
                b,
                d,
                d',
              );
          thread_is = λ t l. ground (arith, c.thread_is t l, same);
          bounded = λ t l. elim (Bool-cases (i == t)) [
            | inl e ↦ rw e bounded
            | inr e ↦ rw e (c.bounded t l)
          ];
          others = λ t l. others t (ground arith) ∙ c.others t l;
          gone = λ t. elim (Bool-cases (i == t)) [
            | inl e ↦ let here : i ≡ t = ground arith in rw (e, ← here) gone
            | inr e ↦ rw e (λ done. others t e ∙ c.gone t done)
          ];
        }
