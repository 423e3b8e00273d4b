-- ===== src/Lock/Count/Correct.antt =====
-- No increment is lost under an exclusive lock: the correctness test prints CORRECT.
use native.Mathlib.Nat.{div-add-mod}
use distibuted_sys.Base.{
  ℕ, ◌+◌, ◌*◌, ◌/◌, ◌%◌, ◌^◌, ◌<◌, ◌≡◌, refl, ap, true, List, [], ◌∷◌, inl, inr, arith, ltb,
  Bool-cases,
}
use distibuted_sys.Base.Threads.{sum_threads-const}
use distibuted_sys.Lock.{Lock, Exclusive}
use distibuted_sys.Lock.Count.{Common, Job, finished, Bench, spawn, turn, run, prints_correct}
use distibuted_sys.Lock.Count.Keep.{credit, Counted, work-Counted}

mod-mul : (a b : ℕ) → (a % 2 ^ 64) * b % 2 ^ 64 ≡ a * b % 2 ^ 64
mod-mul a b =
    let e : (2 ^ 64 * (a / 2 ^ 64) + a % 2 ^ 64) * b ≡ a * b =
      ap (λ t. t * b) (div-add-mod a (2 ^ 64)) in
    omega (arith, e)

module _ (n : ℕ) (k : Lock) (c : Common) (x : Exclusive n k)
    (small : (c.num_lock_acquisitions < 2 ^ 32) × (c.num_cycles_per_thread < 2 ^ 32)) where
  abbrev pub Keeps : Bench k → Type 0
  Keeps s = Counted n k c x small s.word s.number_to_increment s.job

  pub spawn-Keeps : Keeps (spawn k c)
  unfolding spawn
  spawn-Keeps = record {
    locked = x.start;
    counted = omega (
      arith,
      sum_threads-const (credit {L = k.Local} c) n 0 (λ _. Job.outside 0) (λ i _. omega arith),
    );
    fresh = λ i. omega arith;
  }

  pub turn-Keeps : (e : ℕ × ℕ) (s : Bench k) → Keeps s → Keeps (turn k c n e s)
  unfolding turn
  turn-Keeps (i, rand) s inv = elim (Bool-cases (ltb i n)) [
    | inl below ↦
        rw below (work-Counted n k c x small rand _ _ s.job i (ground arith) inv (s.job i) refl)
    | inr above ↦ rw above inv
  ]

  pub run-Keeps : (es : List (ℕ × ℕ)) (s : Bench k) → Keeps s → Keeps (run k c n es s)
  unfolding run
  run-Keeps [] s inv = inv
  run-Keeps (e ∷ es) s inv = run-Keeps es (turn k c n e s) (turn-Keeps e s inv)

  -- Whatever the schedule, once every thread has finished its job under an exclusive lock the
  -- correctness test prints CORRECT. The two counts of the test are below 2^32, as `unsigned` is.
  pub finished-prints_correct :
      (es : List (ℕ × ℕ))
      → ((i : ℕ) → i < n → (run k c n es (spawn k c)).job i ≡ finished)
      → prints_correct k c n (run k c n es (spawn k c)) ≡ true
  unfolding prints_correct
  finished-prints_correct es all =
      let total =
        sum_threads-const (credit c) n (c.num_lock_acquisitions * c.num_cycles_per_thread) _
          (λ i l. ap (credit c) (all i l)) in
      let sum = (run-Keeps es (spawn k c) spawn-Keeps).counted in
      ground (arith, total, sum, mod-mul (n * c.num_lock_acquisitions) c.num_cycles_per_thread)
