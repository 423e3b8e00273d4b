-- ===== src/Lock/Tas/Exclusion.antt =====
-- `struct TAS_Lock` as a `Lock`: any number of threads exclude one another.
use distibuted_sys.Base.{ℕ, ◌<◌, ◌≢◌, refl, inl, inr, arith, ◌==◌, Bool-cases}
use distibuted_sys.Base.Threads.{update}
use distibuted_sys.Lock.{Status, holding, Lock, after, Exclusive, Live, now}
use distibuted_sys.Lock.Flag.{Flag, Flag-wait, Flag-take, Flag-drop, Flag-free}
use distibuted_sys.Lock.Tas.{TasLock, init, Spin, start, poll, release}

abbrev pub tas : Lock
tas = record {
  Word = TasLock;
  Local = Spin;
  init = init;
  enter = λ lock. (lock, start);
  poll = poll;
  release = release;
}

poll-Flag :
    (n rand : ℕ) (w : TasLock) (st : ℕ → Status Spin) (i : ℕ) (l : Spin)
    → i < n
    → st i ≢ holding
    → Flag n w.lock_taken st
    → Flag n (poll rand w l).0.lock_taken (update st i (after (poll rand w l).1))
unfolding poll
poll-Flag n rand w st i l lt out f = elim (Bool-cases (w.lock_taken == 0)) [
  | inl free ↦ rw free (Flag-take f i lt (ground arith) (omega arith))
  | inr busy ↦ rw busy (Flag-wait f i out ((λ _. omega arith), (λ _. ground arith)) _)
]

-- The TAS lock is a mutual exclusion lock for any number of threads.
pub tas-Exclusive : (n : ℕ) → Exclusive n tas
unfolding init release
tas-Exclusive n = record {
  Inv = λ w st. Flag n w.lock_taken st;
  start = record { taken = λ i h. cc; held = λ h. absurd (h refl); one = λ i j h k. cc };
  entered = λ w st i _ f e. Flag-wait f i (ground arith) (λ h. h, λ h. h) start;
  polled = λ rand w st i l lt f e. poll-Flag n rand w st i l lt (ground arith) f;
  released = λ w st i _ f e. Flag-drop f i refl e;
  excludes = λ w st i j f. f.one i j;
}

-- A waiting thread gets a free TAS lock at its next round.
pub tas-Live : (n : ℕ) → Live n tas (tas-Exclusive n)
unfolding tas-Exclusive poll
tas-Live n w st i l f lt e none_holds = (i, l, lt, e, now w l (rw (Flag-free f none_holds)))
