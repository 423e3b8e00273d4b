-- ===== src/Lock/Count/Keep.antt =====
-- The invariant of the counting job: the number is what the threads have stored so far.
use mathlib.Core.Path.{fun_ext}
use distibuted_sys.Base.{
  ℕ, ◌+◌, ◌*◌, ◌%◌, ◌^◌, ◌≤◌, ◌<◌, ◌≡◌, refl, sym, ap, subst, false, Option, none, some, inl, inr,
  arith, ltb, ◌==◌, Bool-cases,
}
use distibuted_sys.Base.Threads.{update, sum_threads, sum_threads-update}
use distibuted_sys.Lock.{holding, Lock, after, Exclusive}
use distibuted_sys.Lock.Count.{
  Common, Job, outside, acquiring, inside, loaded, finished, stand, acquired, work,
}

-- The increments that a thread has stored.
abbrev pub credit : {L : Type 0} → Common → Job L → ℕ
credit c (outside a) = a * c.num_cycles_per_thread
credit c (acquiring a _) = a * c.num_cycles_per_thread
credit c (inside a cycle) = a * c.num_cycles_per_thread + cycle
credit c (loaded a cycle _) = a * c.num_cycles_per_thread + cycle
credit c finished = c.num_lock_acquisitions * c.num_cycles_per_thread

-- The loop counters stay in range, and what was loaded under the lock is still there.
abbrev pub IsFresh : {L : Type 0} → Common → ℕ → Job L → Type 0
IsFresh c number (outside a) = a ≤ c.num_lock_acquisitions
IsFresh c number (acquiring a _) = a < c.num_lock_acquisitions
IsFresh c number (inside a cycle) =
    (a < c.num_lock_acquisitions) × (cycle ≤ c.num_cycles_per_thread)
IsFresh c number (loaded a cycle value) =
    (a < c.num_lock_acquisitions) × (cycle < c.num_cycles_per_thread) × (value ≡ number)
IsFresh c number finished = Unit

stand-update :
    {L : Type 0} (job : ℕ → Job L) (i : ℕ) (p : Job L)
    → update (λ j. stand (job j)) i (stand p) ≡ (λ j. stand (update job i p j))
stand-update job i p = fun_ext λ j. ground arith

update_self : {A : Type 0} (f : ℕ → A) (i : ℕ) (a : A) → a ≡ f i → update f i a ≡ f
update_self f i a e = fun_ext λ j. ground arith

after-acquired : {L : Type 0} (a : ℕ) (o : Option L) → after o ≡ stand (acquired a o)
after-acquired a none = refl
after-acquired a (some l) = refl

credit-acquired :
    {L : Type 0} (c : Common) (a : ℕ) (o : Option L)
    → credit c (acquired a o) ≡ a * c.num_cycles_per_thread
credit-acquired c a none = omega arith
credit-acquired c a (some l) = refl

acquired-IsFresh :
    {L : Type 0} (c : Common) (number a : ℕ) (o : Option L)
    → a < c.num_lock_acquisitions
    → IsFresh c number (acquired a o)
acquired-IsFresh c number a none h = (h, omega arith)
acquired-IsFresh c number a (some l) h = h

IsFresh-other :
    {L : Type 0} (c : Common) (number number' : ℕ) (p : Job L)
    → (stand p ≡ holding → ⊥)
    → IsFresh c number p
    → IsFresh c number' p
IsFresh-other c number number' (loaded a cycle value) h f = absurd (h refl)
IsFresh-other c number number' p h f = f

module _ (n : ℕ) (k : Lock) (c : Common) (x : Exclusive n k)
    (small : (c.num_lock_acquisitions < 2 ^ 32) × (c.num_cycles_per_thread < 2 ^ 32)) where
  open k use {Word, Local}

  pub record Counted (w : Word) (number : ℕ) (job : ℕ → Job Local) : Type 0 where
    pub locked : x.Inv w (λ i. stand (job i))
    pub counted : number ≡ sum_threads (credit c) n job % 2 ^ 64
    pub fresh : (i : ℕ) → IsFresh c number (job i)

  module _ (rand : ℕ) (w : Word) (number : ℕ) (job : ℕ → Job Local) (i : ℕ) (lt : i < n)
      (inv : Counted w number job) where
    open inv use {locked, counted, fresh}

    -- A step that leaves the number alone.
    quiet :
        (w' : Word) (p : Job Local)
        → x.Inv w' (update (λ j. stand (job j)) i (stand p))
        → credit c p ≡ credit c (job i)
        → IsFresh c number p
        → Counted w' number (update job i p)
    quiet w' p still same ok = record {
      locked = subst (x.Inv w') (stand-update job i p) still;
      counted = ground (arith, sum_threads-update (credit c) n i job p lt);
      fresh = λ j. ground (arith, fresh j);
    }

    own : (p : Job Local) → job i ≡ p → IsFresh c number p
    own p e = subst (IsFresh c number) e (fresh i)

    -- A thread that stays where it stands towards the lock.
    unmoved :
        (p : Job Local)
        → stand p ≡ stand (job i)
        → x.Inv w (update (λ j. stand (job j)) i (stand p))
    unmoved p e = subst (x.Inv w) (sym (update_self (λ j. stand (job j)) i (stand p) e)) locked

    store :
        (a cycle value : ℕ)
        → job i ≡ loaded a cycle value
        → Counted w ((value + 1) % 2 ^ 64) (update job i (inside a ((cycle + 1) % 2 ^ 64)))
    store a cycle value e = record {
      locked =
          subst (x.Inv w) (stand-update job i (inside a ((cycle + 1) % 2 ^ 64)))
            (unmoved (inside a ((cycle + 1) % 2 ^ 64)) (sym (ap stand e)));
      counted =
          ground
            (arith, mine, next, sum_threads-update (credit c) n i job (inside a (cycle + 1)) lt);
      fresh = λ j. elim (Bool-cases (i == j)) [
        | inl same ↦ rw (same, next) (mine.0, omega (arith, mine))
        | inr other ↦ rw other (IsFresh-other c _ _ (job j) (λ h. apart j h other) (fresh j))
      ];
    }
      where
        mine : (a < c.num_lock_acquisitions) × (cycle < c.num_cycles_per_thread) × (value ≡ number)
        mine = own _ e

        next : (cycle + 1) % 2 ^ 64 ≡ cycle + 1
        next = omega (arith, mine)

        apart : (j : ℕ) → stand (job j) ≡ holding → (i == j) ≡ false → ⊥
        apart j h other =
            ground (arith, x.excludes w (λ j. stand (job j)) i j locked (ap stand e) h)

    step : (a cycle : ℕ) → job i ≡ inside a cycle → (a + 1) % 2 ^ 64 ≡ a + 1
    step a cycle e = omega (arith, own (inside a cycle) e)

    pub work-Counted :
        (p : Job Local)
        → job i ≡ p
        → Counted
            (work k c rand w number p).0
            (work k c rand w number p).1
            (update job i (work k c rand w number p).2)
    unfolding work
    work-Counted (outside a) e = elim (Bool-cases (ltb a c.num_lock_acquisitions)) [
      | inl more ↦
          rw more (quiet _ _ (x.entered w _ i lt locked (ap stand e)) (rw e) (ground arith))
      | inr done ↦ rw done (
          quiet w finished (unmoved finished (rw e))
            (rw e (ap (λ t. t * c.num_cycles_per_thread) (ground (arith, own (outside a) e)))) tt)
    ]
    work-Counted (acquiring a l) e =
        quiet _ _
          (subst (λ q. x.Inv (k.poll rand w l).0 (update (λ j. stand (job j)) i q))
            (after-acquired a (k.poll rand w l).1) (x.polled rand w _ i l lt locked (ap stand e)))
          (rw e (credit-acquired c a (k.poll rand w l).1))
          (acquired-IsFresh c number a (k.poll rand w l).1 (own (acquiring a l) e))
    work-Counted (inside a cycle) e = elim (Bool-cases (ltb cycle c.num_cycles_per_thread)) [
      | inl more ↦ rw more (
          quiet w (loaded a cycle number) (unmoved (loaded a cycle number) (rw e)) (rw e)
            (ground (arith, own (inside a cycle) e)))
      | inr done ↦ rw done (
          quiet _ _ (x.released w _ i lt locked (ap stand e))
            (rw (e, step a cycle e) (ground (arith, own (inside a cycle) e)))
            (ground (arith, own (inside a cycle) e)))
    ]
    work-Counted (loaded a cycle value) e = store a cycle value e
    work-Counted finished e = quiet w finished (unmoved finished (rw e)) (rw e) tt
