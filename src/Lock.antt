-- ===== src/Lock.antt =====
-- lab2/SpinLocks.c and lab2/SpinLockBenchmarks.c: spin locks and the job that counts under a lock.
-- A lock is what a thread does to the shared word, one access at a time.
pub mod Backoff
mod Flag
pub mod Run
pub mod Count
pub mod Guarantees
mod Tests
pub mod Tas
pub mod Ttas
pub mod Ticket
use distibuted_sys.Base.{ℕ, ◌<◌, ◌≡◌, ◌≢◌, Option, none, some}
use distibuted_sys.Base.Threads.{update}

-- Where a thread stands towards one lock; `L` holds the local variables of the acquire function.
pub data Status (L : Type 0) : Type 0 where
  idle : Status L
  waiting : L → Status L
  holding : Status L

-- The parts of a lock: `enter` is the acquire function up to its first loop, `poll` one round of
-- its loops (`none` means that the function returns), and `release` the release function. The
-- number given to `poll` is what `rand()` returns, if that round calls it.
pub record Lock : Type 1 where
  pub Word : Type 0
  pub Local : Type 0
  pub init : Word
  pub enter : Word → Word × Local
  pub poll : ℕ → Word → Local → Word × Option Local
  pub release : Word → Word

abbrev pub after : {L : Type 0} → Option L → Status L
after none = holding
after (some l) = waiting l

module _ (k : Lock) where
  open k use {Word, Local, poll}

  -- Polling alone, the thread at `l` gets the lock.
  pub data Gets : Word → Local → Type 0 where
    now : (w : Word) (l : Local) → (poll 0 w l).1 ≡ none → Gets w l
    later : (w : Word) (l m : Local) → (poll 0 w l).1 ≡ some m → Gets (poll 0 w l).0 m → Gets w l

-- What a lock promises to `n` threads: an invariant of the shared word and of where the threads
-- stand that holds at the start, that no step of a thread breaks, and under which no two hold.
module _ (n : ℕ) (k : Lock) where
  open k use {Word, Local, init, enter, poll, release}

  pub record Exclusive : Type 1 where
    pub Inv : Word → (ℕ → Status Local) → Type 0
    pub start : Inv init (λ _. idle)
    pub entered :
        (w : Word) (st : ℕ → Status Local) (i : ℕ)
        → i < n
        → Inv w st
        → st i ≡ idle
        → Inv (enter w).0 (update st i (waiting (enter w).1))
    pub polled :
        (rand : ℕ) (w : Word) (st : ℕ → Status Local) (i : ℕ) (l : Local)
        → i < n
        → Inv w st
        → st i ≡ waiting l
        → Inv (poll rand w l).0 (update st i (after (poll rand w l).1))
    pub released :
        (w : Word) (st : ℕ → Status Local) (i : ℕ)
        → i < n
        → Inv w st
        → st i ≡ holding
        → Inv (release w) (update st i idle)
    pub excludes :
        (w : Word) (st : ℕ → Status Local) (i j : ℕ)
        → Inv w st
        → st i ≡ holding
        → st j ≡ holding
        → i ≡ j

  -- A lock that nobody holds can be had by a waiting thread.
  abbrev pub Live : Exclusive → Type 0
  Live x =
      (w : Word) (st : ℕ → Status Local) (i : ℕ) (l : Local)
      → x.Inv w st
      → i < n
      → st i ≡ waiting l
      → ((j : ℕ) → j < n → st j ≢ holding)
      → (j : ℕ) × (m : Local) × (j < n) × (st j ≡ waiting m) × Gets k w m
