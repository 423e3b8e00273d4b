-- ===== src/SkipListBenchmarks/Works.antt =====
-- Each operation of a thread of lab4/SkipListBenchmarks.c finds what the thread expects.
use distibuted_sys.Base.{
  ℕ, ◌+◌, ◌-◌, ◌*◌, ◌^◌, ◌≤◌, ◌<◌, ◌≡◌, ◌≢◌, refl, subst, true, false, Option, none, some, inl, inr,
  arith, ◌==◌, ltb, Bool-cases,
}
use distibuted_sys.Base.Threads.{update, mul-lt}
use distibuted_sys.SkipListBenchmarks.{
  SharedMap, Job, inserting, searching, removing, searching_again, finished, Thread, key_of, work,
}
use distibuted_sys.SkipListBenchmarks.Contract.{Contract}
use distibuted_sys.SkipListBenchmarks.Expected.{
  Expects, Expects-same, turns_left, key-apart, key-distinct,
}

abbrev pub fine : ℕ → Job → Thread
fine t j = record { thread_i = t; executed_correctly = true; job = j }

module _ (num n : ℕ) (k : SharedMap) (x : Contract k) (small : n * num < 2 ^ 32) where
  open k use {Store, Answer}
  open x use {Holds, Fits}

  -- Every thread is correct so far, and the map has what each expects.
  pub record Kept (s : Store) (f : ℕ → Thread) : Type 0 where
    pub content : ℕ → Option ℕ
    pub holds : Holds s content
    pub is_fine : (t : ℕ) → t < n → f t ≡ fine t (f t).job
    pub expects :
        (t : ℕ) → t < n → Expects num (f t).job (λ i. n * i + t) (λ i. content (n * i + t))

  abbrev pub Keeps : Answer → Store → (ℕ → Thread) → ℕ → Job → Type 0
  Keeps a s f t j =
      (s' : Store) × (j' : Job) × (work k num n a s t true j ≡ some (s', true, j'))
      × Kept s' (update f t (fine t j'))
      × (turns_left num j' ≤ turns_left num j - 1)

  pub key_number : (i t : ℕ) → t < n → i < num → key_of n i t ≡ n * i + t
  key_number i t lt h = omega (arith, mul-lt n i num h)

  -- What thread `t` does, for the whole: no key of another thread changes.
  pub advance-Kept :
      (s s' : Store) (f : ℕ → Thread) (t : ℕ) (j' : Job) (content' : ℕ → Option ℕ)
      → t < n
      → (c : Kept s f) → Holds s' content'
      → ((u : ℕ) → u < n → t ≢ u → (i : ℕ) → content' (n * i + u) ≡ c.content (n * i + u))
      → Expects num j' (λ i. n * i + t) (λ i. content' (n * i + t))
      → Kept s' (update f t (fine t j'))
  advance-Kept s s' f t j' content' lt c holds same now = record {
    content = content';
    holds = holds;
    is_fine = λ u l. elim (Bool-cases (t == u)) [
      | inl e ↦ let h : t ≡ u = ground arith in rw (e, ← h) refl
      | inr e ↦ rw e (c.is_fine u l)
    ];
    expects = λ u l. elim (Bool-cases (t == u)) [
      | inl e ↦ let h : t ≡ u = ground arith in rw (e, ← h) now
      | inr e ↦ rw e (
          Expects-same num (f u).job (λ i. n * i + u) (λ i. c.content (n * i + u))
            (λ i. content' (n * i + u)) (same u l (ground arith)) (c.expects u l))
    ];
  }

  -- Writing a key of thread `t` spares the keys of the others,
  pub spared :
      (content : ℕ → Option ℕ) (o : Option ℕ) (t b u : ℕ)
      → t < n
      → u < n
      → t ≢ u
      → (i : ℕ) → update content (n * b + t) o (n * i + u) ≡ content (n * i + u)
  spared content o t b u lt lu ne i = ground (arith, key-apart n t u b i lt lu ne)

  -- and adds to what was written at its own before.
  pub written :
      (content value : ℕ → Option ℕ) (t b : ℕ)
      → t < n
      → ((i : ℕ) → i < b → content (n * i + t) ≡ value (n * i + t))
      → (i : ℕ) → i < b + 1
      → update content (n * b + t) (value (n * b + t)) (n * i + t) ≡ value (n * i + t)
  written content value t b lt before i l = elim (Bool-cases (b == i)) [
    | inl e ↦
        let h : b ≡ i = ground arith in
        let self : (n * i + t == n * i + t) ≡ true = ground arith in rw (h, self) refl
    | inr e ↦
        let ne : (n * b + t == n * i + t) ≡ false =
          ground (arith, key-distinct n t b i lt (ground arith)) in
        rw ne (before i (ground arith))
  ]

  module _ (a : Answer) (s : Store) (f : ℕ → Thread) (t : ℕ) (lt : t < n) (c : Kept s f)
      (fits : Fits a s) where
    work-inserting : (b : ℕ) → (f t).job ≡ inserting b → Keeps a s f t (inserting b)
    unfolding work
    work-inserting b at =
        let (most, done) =
          subst (λ j. Expects num j (λ i. n * i + t) (λ i. c.content (n * i + t))) at
            (c.expects t lt) in
        elim (Bool-cases (ltb b num)) [
          | inl more ↦
              let key = n * b + t in
              let below : b < num = ground arith in
              let (s', runs, holds) = x.inserts a t key key s c.content c.holds fits in
              (
                s',
                inserting (b + 1),
                rw (more, key_number b t lt below, runs) refl,
                advance-Kept s s' f t (inserting (b + 1)) (update c.content key (some key)) lt c
                    holds (λ u l ne. spared c.content (some key) t b u lt l ne)
                    (ground arith, written c.content some t b lt done),
                omega arith,
              )
          | inr end ↦ (
            s,
            searching 0,
            rw end refl,
            advance-Kept s s f t (searching 0) c.content lt c c.holds (λ u l ne i. refl)
                (λ i l. done i (ground arith)),
            omega arith,
          )
        ]

    work-searching : (b : ℕ) → (f t).job ≡ searching b → Keeps a s f t (searching b)
    unfolding work
    work-searching b at =
        let there =
          subst (λ j. Expects num j (λ i. n * i + t) (λ i. c.content (n * i + t))) at
            (c.expects t lt) in
        elim (Bool-cases (ltb b num)) [
          | inl more ↦
              let key = n * b + t in
              let below : b < num = ground arith in
              let (s', runs, holds) = x.searches a t key s c.content c.holds fits in
              let self : (key == key) ≡ true = ground arith in
              (
                s',
                searching (b + 1),
                ground (arith, key_number b t lt below, runs, there b below),
                advance-Kept s s' f t (searching (b + 1)) c.content lt c holds (λ u l ne i. refl)
                    there,
                omega arith,
              )
          | inr end ↦ (
            s,
            removing 0,
            rw end refl,
            advance-Kept s s f t (removing 0) c.content lt c c.holds (λ u l ne i. refl)
                (omega arith, λ i l. absurd (omega arith)),
            omega arith,
          )
        ]

    work-removing : (b : ℕ) → (f t).job ≡ removing b → Keeps a s f t (removing b)
    unfolding work
    work-removing b at =
        let (most, done) =
          subst (λ j. Expects num j (λ i. n * i + t) (λ i. c.content (n * i + t))) at
            (c.expects t lt) in
        elim (Bool-cases (ltb b num)) [
          | inl more ↦
              let key = n * b + t in
              let below : b < num = ground arith in
              let (s', runs, holds) = x.removes a t key s c.content c.holds fits in
              (
                s',
                removing (b + 1),
                rw (more, key_number b t lt below, runs) refl,
                advance-Kept s s' f t (removing (b + 1)) (update c.content key none) lt c holds
                    (λ u l ne. spared c.content none t b u lt l ne)
                    (ground arith, written c.content (λ _. none) t b lt done),
                omega arith,
              )
          | inr end ↦ (
            s,
            searching_again 0,
            rw end refl,
            advance-Kept s s f t (searching_again 0) c.content lt c c.holds (λ u l ne i. refl)
                (λ i l. done i (ground arith)),
            omega arith,
          )
        ]

    work-searching_again :
        (b : ℕ) → (f t).job ≡ searching_again b → Keeps a s f t (searching_again b)
    unfolding work
    work-searching_again b at =
        let gone =
          subst (λ j. Expects num j (λ i. n * i + t) (λ i. c.content (n * i + t))) at
            (c.expects t lt) in
        elim (Bool-cases (ltb b num)) [
          | inl more ↦
              let key = n * b + t in
              let below : b < num = ground arith in
              let (s', runs, holds) = x.searches a t key s c.content c.holds fits in
              (
                s',
                searching_again (b + 1),
                rw (more, key_number b t lt below, runs, gone b below) refl,
                advance-Kept s s' f t (searching_again (b + 1)) c.content lt c holds
                    (λ u l ne i. refl) gone,
                omega arith,
              )
          | inr end ↦ (
            s,
            finished,
            rw end refl,
            advance-Kept s s f t finished c.content lt c c.holds (λ u l ne i. refl) tt,
            omega arith,
          )
        ]

    pub work-Kept : (j : Job) → (f t).job ≡ j → Keeps a s f t j
    unfolding work
    work-Kept (inserting b) at = work-inserting b at
    work-Kept (searching b) at = work-searching b at
    work-Kept (removing b) at = work-removing b at
    work-Kept (searching_again b) at = work-searching_again b at
    work-Kept finished at = (
      s,
      finished,
      refl,
      advance-Kept s s f t finished c.content lt c c.holds (λ u l ne i. refl) tt,
      omega arith,
    )
