-- ===== src/Lock/Run.antt =====
-- `n` threads that acquire and release one lock, in any order and any number of times.
use distibuted_sys.Base.{
  ℕ, ◌<◌, ◌≡◌, List, [], ◌∷◌, inl, inr, arith, ltb, if◌then◌else◌, Bool-cases,
}
use distibuted_sys.Base.Threads.{update}
use distibuted_sys.Lock.{Status, idle, waiting, holding, Lock, after, Exclusive}

pub record Locked (k : Lock) : Type 0 where
  pub word : k.Word
  pub status : ℕ → Status k.Local

module _ (k : Lock) where
  open k use {Word, Local, init, enter, poll, release}

  unfoldable pub start : Locked k
  start = record { word = init; status = λ _. idle }

  -- The next step of a thread; one that stands idle begins to acquire, one that holds releases.
  unfoldable pub advance : ℕ → Word → Status Local → Word × Status Local
  advance rand w idle = let (w', l) = enter w in (w', waiting l)
  advance rand w (waiting l) = let (w', o) = poll rand w l in (w', after o)
  advance rand w holding = (release w, idle)

  unfoldable pub turn : ℕ → ℕ × ℕ → Locked k → Locked k
  unfolding advance
  turn n (i, rand) s =
      if ltb i n
      then (let (w, p) = advance rand s.word (s.status i) in
          record { word = w; status = update s.status i p })
      else s

  -- A schedule names the thread that moves next, and what `rand()` returns if it is called.
  unfoldable pub run : ℕ → List (ℕ × ℕ) → Locked k → Locked k
  unfolding turn
  run n [] s = s
  run n (e ∷ es) s = run n es (turn n e s)

module _ (n : ℕ) (k : Lock) (x : Exclusive n k) where
  open k use {Word, Local}
  open x use {Inv}

  advance-Inv :
      (rand : ℕ) (w : Word) (st : ℕ → Status Local) (i : ℕ) (p : Status Local)
      → i < n
      → st i ≡ p
      → Inv w st
      → Inv (advance k rand w p).0 (update st i (advance k rand w p).1)
  unfolding advance
  advance-Inv rand w st i idle lt e inv = x.entered w st i lt inv e
  advance-Inv rand w st i (waiting l) lt e inv = x.polled rand w st i l lt inv e
  advance-Inv rand w st i holding lt e inv = x.released w st i lt inv e

  turn-Inv :
      (e : ℕ × ℕ) (s : Locked k)
      → Inv s.word s.status
      → Inv (turn k n e s).word (turn k n e s).status
  unfolding turn
  turn-Inv (i, rand) s inv = elim (Bool-cases (ltb i n)) [
    | inl below ↦
        rw below
          (advance-Inv rand s.word s.status i (s.status i) (ground arith) (λ _. s.status i) inv)
    | inr above ↦ rw above inv
  ]

  run-Inv :
      (es : List (ℕ × ℕ)) (s : Locked k)
      → Inv s.word s.status
      → Inv (run k n es s).word (run k n es s).status
  unfolding run
  run-Inv [] s inv = inv
  run-Inv (e ∷ es) s inv = run-Inv es (turn k n e s) (turn-Inv e s inv)

  -- In every schedule of the threads, no two hold an exclusive lock together.
  pub mutual_exclusion :
      (es : List (ℕ × ℕ)) (i j : ℕ)
      → (run k n es (start k)).status i ≡ holding
      → (run k n es (start k)).status j ≡ holding
      → i ≡ j
  unfolding start
  mutual_exclusion es i j = x.excludes _ _ i j (run-Inv es (start k) x.start)
