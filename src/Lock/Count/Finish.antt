-- ===== src/Lock/Count/Finish.antt =====
-- The counting job never gets stuck: from every state some schedule finishes all the threads.
use distibuted_sys.Base.{
  ℕ, zero, suc, ◌+◌, ◌-◌, ◌*◌, ◌%◌, ◌^◌, ◌<◌, ◌≡◌, ◌⊎◌, refl, ap, subst, Bool, true, false, List,
  [], ◌∷◌, ◌++◌, ◌∙◌, inl, inr, arith, ltb, Bool-cases,
}
use distibuted_sys.Base.Threads.{update, sum_threads, sum_threads-update}
use distibuted_sys.Lock.{waiting, holding, Lock, Exclusive, Live, Gets, now, later}
use distibuted_sys.Lock.Count.{
  Common, Job, outside, acquiring, inside, loaded, finished, stand, acquired, Bench, work, spawn,
  turn, run,
}
use distibuted_sys.Lock.Count.Keep.{IsFresh}
use distibuted_sys.Lock.Count.Correct.{Keeps, spawn-Keeps, run-Keeps}

-- The steps left to a thread, rounds of waiting not counted.
abbrev todo : {L : Type 0} → Common → Job L → ℕ
todo c (outside a) = (c.num_lock_acquisitions - a) * (2 * c.num_cycles_per_thread + 3) + 1
todo c (acquiring a _) = (c.num_lock_acquisitions - a) * (2 * c.num_cycles_per_thread + 3)
todo c (inside a cycle) =
    (c.num_lock_acquisitions - (a + 1)) * (2 * c.num_cycles_per_thread + 3)
    + 2 * (c.num_cycles_per_thread - cycle)
    + 2
todo c (loaded a cycle _) =
    (c.num_lock_acquisitions - (a + 1)) * (2 * c.num_cycles_per_thread + 3)
    + 2 * (c.num_cycles_per_thread - cycle)
    + 1
todo c finished = 0

-- Threads that a step brings nearer to the end.
abbrev runnable : {L : Type 0} → Job L → Bool
runnable (acquiring _ _) = false
runnable finished = false
runnable _ = true

abbrev queuing : {L : Type 0} → Job L → Bool
queuing (acquiring _ _) = true
queuing _ = false

finished_of : {L : Type 0} (p : Job L) → runnable p ≡ false → queuing p ≡ false → p ≡ finished
finished_of (acquiring a l) r q = cc
finished_of finished r q = refl
finished_of (outside a) r q = cc
finished_of (inside a cycle) r q = cc
finished_of (loaded a cycle value) r q = cc

runnable_of_holding : {L : Type 0} (p : Job L) → stand p ≡ holding → runnable p ≡ true
runnable_of_holding (inside a cycle) e = refl
runnable_of_holding (loaded a cycle value) e = refl
runnable_of_holding (acquiring a l) e = cc
runnable_of_holding (outside a) e = cc
runnable_of_holding finished e = cc

acquiring_of_waiting :
    {L : Type 0} (p : Job L) (l : L) → stand p ≡ waiting l → (a : ℕ) × (p ≡ acquiring a l)
acquiring_of_waiting (acquiring a m) l e = (a, cc)
acquiring_of_waiting (outside a) l e = cc
acquiring_of_waiting (inside a cycle) l e = cc
acquiring_of_waiting (loaded a cycle value) l e = cc
acquiring_of_waiting finished l e = cc

waiting_of_queuing : {L : Type 0} (p : Job L) → queuing p ≡ true → (l : L) × (stand p ≡ waiting l)
waiting_of_queuing (acquiring a l) e = (l, refl)
waiting_of_queuing (outside a) e = cc
waiting_of_queuing (inside a cycle) e = cc
waiting_of_queuing (loaded a cycle value) e = cc
waiting_of_queuing finished e = cc

update_here : {A : Type 0} (f : ℕ → A) (i : ℕ) (a : A) → update f i a i ≡ a
update_here f i a = ground arith

-- Getting the lock is a step forward.
acquire-todo :
    (c : Common) (a : ℕ)
    → a < c.num_lock_acquisitions
    → (c.num_lock_acquisitions - (a + 1)) * (2 * c.num_cycles_per_thread + 3)
        + 2 * (c.num_cycles_per_thread - 0)
        + 2
      < (c.num_lock_acquisitions - a) * (2 * c.num_cycles_per_thread + 3)
acquire-todo c a more =
    let e : c.num_lock_acquisitions - a ≡ c.num_lock_acquisitions - (a + 1) + 1 = omega arith in
    rw e (omega arith)

find : (n : ℕ) (f : ℕ → Bool) → ((i : ℕ) × (i < n) × (f i ≡ true)) ⊎ ((i : ℕ) → i < n → f i ≡ false)
find zero f = inr (λ i h. absurd (omega arith))
find (suc n) f = elim (Bool-cases (f n)) [
  | inl here ↦ inl (n, omega arith, here)
  | inr not_here ↦ elim (find n f) [
    | inl (i, lt, e) ↦ inl (i, omega arith, e)
    | inr none_below ↦ inr (λ i lt. ground (arith, none_below i))
  ]
]

run-append :
    (k : Lock) (c : Common) (n : ℕ) (es fs : List (ℕ × ℕ)) (s : Bench k)
    → run k c n (es ++ fs) s ≡ run k c n fs (run k c n es s)
unfolding run
run-append k c n [] fs s = refl
run-append k c n (e ∷ es) fs s = run-append k c n es fs (turn k c n e s)

module _ (n : ℕ) (k : Lock) (c : Common) (x : Exclusive n k) (live : Live n k x)
    (small : (c.num_lock_acquisitions < 2 ^ 32) × (c.num_cycles_per_thread < 2 ^ 32)) where
  open k use {Word, Local}

  abbrev Good : Bench k → Type 0
  Good = Keeps n k c x small

  total : Bench k → ℕ
  total s = sum_threads (todo c) n s.job

  work-todo :
      (w : Word) (number : ℕ) (p : Job Local)
      → IsFresh c number p
      → runnable p ≡ true
      → todo c (work k c 0 w number p).2 < todo c p
  unfolding work
  work-todo w number (outside a) f r = ground arith
  work-todo w number (acquiring a l) f r = cc
  work-todo w number (inside a cycle) f r =
      let e : (a + 1) % 2 ^ 64 ≡ a + 1 = omega arith in rw e (ground arith)
  work-todo w number (loaded a cycle value) f r = ground arith
  work-todo w number finished f r = cc

  turn-below :
      (i : ℕ) (s : Bench k)
      → i < n
      → turn k c n (i, 0) s ≡ (
          let r = work k c 0 s.word s.number_to_increment (s.job i) in
          record { word = r.0; number_to_increment = r.1; job = update s.job i r.2 })
  unfolding turn
  turn-below i s lt = let e : ltb i n ≡ true = ground arith in rw e

  total-turn :
      (i : ℕ) (s : Bench k)
      → i < n
      → total (turn k c n (i, 0) s) + todo c (s.job i)
        ≡ total s + todo c (work k c 0 s.word s.number_to_increment (s.job i)).2
  unfolding total
  total-turn i s lt = rw (turn-below i s lt) (sum_threads-update (todo c) n i s.job _ lt)

  -- A schedule that brings the threads nearer to the end.
  Nearer : Bench k → Type 0
  Nearer s = (fs : List (ℕ × ℕ)) × (total (run k c n fs s) < total s)

  step-Nearer : (i : ℕ) (s : Bench k) → i < n → Good s → runnable (s.job i) ≡ true → Nearer s
  unfolding Nearer run
  step-Nearer i s lt good r = (
    (i, 0) ∷ [],
    omega (
      arith,
      total-turn i s lt,
      work-todo s.word s.number_to_increment (s.job i) (good.fresh i) r,
    ),
  )

  polled :
      {w : Word} {l : Local} {a j : ℕ} (s : Bench k)
      → s.word ≡ w
      → s.job j ≡ acquiring a l
      → work k c 0 s.word s.number_to_increment (s.job j)
        ≡ ((k.poll 0 w l).0, s.number_to_increment, acquired a (k.poll 0 w l).1)
  unfolding work
  polled s at here = rw (at, here)

  Gets-Nearer :
      (w : Word) (l : Local) (j a : ℕ) (s : Bench k)
      → Gets k w l
      → s.word ≡ w
      → j < n
      → s.job j ≡ acquiring a l
      → a < c.num_lock_acquisitions
      → Nearer s
  unfolding Nearer run
  Gets-Nearer w l j a s (now _ _ e) at lt here more =
      let got : (work k c 0 s.word s.number_to_increment (s.job j)).2 ≡ inside a 0 =
        ap (λ r. r.2) (polled s at here) ∙ ap (acquired a) e in
      (
        (j, 0) ∷ [],
        omega (arith, total-turn j s lt, ap (todo c) got, ap (todo c) here, acquire-todo c a more),
      )
  Gets-Nearer w l j a s (later _ _ m e g) at lt here more =
      let got : (work k c 0 s.word s.number_to_increment (s.job j)).2 ≡ acquiring a m =
        ap (λ r. r.2) (polled s at here) ∙ ap (acquired a) e in
      let (fs, nearer) =
        Gets-Nearer (k.poll 0 w l).0 m j a (turn k c n (j, 0) s) g
          (ap (λ t. t.word) (turn-below j s lt) ∙ ap (λ r. r.0) (polled s at here)) lt
          (ap (λ t. t.job j) (turn-below j s lt) ∙ update_here s.job j _ ∙ got) more in
      ((j, 0) ∷ fs, omega (arith, nearer, total-turn j s lt, ap (todo c) got, ap (todo c) here))

  progress : (s : Bench k) → Good s → Nearer s ⊎ ((i : ℕ) → i < n → s.job i ≡ finished)
  progress s good = elim (find n (λ i. runnable (s.job i))) [
    | inl (i, lt, e) ↦ inl (step-Nearer i s lt good e)
    | inr none_runs ↦ elim (find n (λ i. queuing (s.job i))) [
      | inl (i, lt, e) ↦ inl (
          let (l, at) = waiting_of_queuing (s.job i) e in
          let (j, m, below, here, g) =
            live s.word (λ j. stand (s.job j)) i l good.locked lt at
              (λ j b h. cc (runnable_of_holding (s.job j) h, none_runs j b)) in
          let (a, job) = acquiring_of_waiting (s.job j) m here in
          Gets-Nearer s.word m j a s g refl below job (subst (IsFresh c _) job (good.fresh j)))
      | inr none_waits ↦ inr (λ i lt. finished_of (s.job i) (none_runs i lt) (none_waits i lt))
    ]
  ]

  -- Running on within a fuel that exceeds the steps left.
  run-on :
      (fuel : ℕ) (s : Bench k)
      → total s < fuel
      → Good s
      → (fs : List (ℕ × ℕ)) × ((i : ℕ) → i < n → (run k c n fs s).job i ≡ finished)
  unfolding run Nearer
  run-on zero s h good = absurd (omega arith)
  run-on (suc fuel) s h good = elim (progress s good) [
    | inr done ↦ ([], done)
    | inl (fs, nearer) ↦
        let (gs, done) =
          run-on fuel (run k c n fs s) (omega arith) (run-Keeps n k c x small fs s good) in
        (fs ++ gs, λ i lt. rw (run-append k c n fs gs s) (done i lt))
  ]

  -- Whatever the threads have done so far, some schedule lets all of them finish the job.
  pub can_finish :
      (es : List (ℕ × ℕ))
      → (fs : List (ℕ × ℕ)) × ((i : ℕ)
          → i < n
          → (run k c n (es ++ fs) (spawn k c)).job i ≡ finished)
  can_finish es =
      let s = run k c n es (spawn k c) in
      let (fs, done) =
        run-on (suc (total s)) s (omega arith)
          (run-Keeps n k c x small es (spawn k c) (spawn-Keeps n k c x small)) in
      (fs, λ i lt. rw (run-append k c n es fs (spawn k c)) (done i lt))
