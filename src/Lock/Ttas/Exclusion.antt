-- ===== src/Lock/Ttas/Exclusion.antt =====
-- `struct TTAS_Lock` as a `Lock`: any number of threads exclude one another.
use distibuted_sys.Base.{ℕ, ◌<◌, ◌≡◌, ◌≢◌, refl, inl, inr, arith, ◌==◌, Bool-cases}
use distibuted_sys.Base.Threads.{update}
use distibuted_sys.Lock.{Status, holding, Lock, after, Exclusive, Live, Gets, now, later}
use distibuted_sys.Lock.Backoff.{min_backoff_nanoseconds}
use distibuted_sys.Lock.Flag.{Flag, Flag-wait, Flag-take, Flag-drop, Flag-free}
use distibuted_sys.Lock.Ttas.{TtasLock, init, Place, spinning, loading, setting, poll, release}

abbrev pub ttas : Lock
ttas = record {
  Word = TtasLock;
  Local = Place;
  init = init;
  enter = λ lock. (lock, spinning 0);
  poll = poll;
  release = release;
}

poll-Flag :
    (n rand : ℕ) (w : TtasLock) (st : ℕ → Status Place) (i : ℕ) (l : Place)
    → i < n
    → st i ≢ holding
    → Flag n w.lock_taken st
    → Flag n (poll rand w l).0.lock_taken (update st i (after (poll rand w l).1))
unfolding poll
poll-Flag n rand w st i (spinning c) lt out f = Flag-wait f i out (λ h. h, λ h. h) _
poll-Flag n rand w st i (loading b) lt out f = Flag-wait f i out (λ h. h, λ h. h) _
poll-Flag n rand w st i (setting b) lt out f = elim (Bool-cases (w.lock_taken == 0)) [
  | inl free ↦ rw free (Flag-take f i lt (ground arith) (omega arith))
  | inr busy ↦ rw busy (Flag-wait f i out ((λ _. omega arith), (λ _. ground arith)) _)
]

-- The TTAS lock is a mutual exclusion lock for any number of threads.
pub ttas-Exclusive : (n : ℕ) → Exclusive n ttas
unfolding init release
ttas-Exclusive n = record {
  Inv = λ w st. Flag n w.lock_taken st;
  start = record { taken = λ i h. cc; held = λ h. absurd (h refl); one = λ i j h k. cc };
  entered = λ w st i _ f e. Flag-wait f i (ground arith) (λ h. h, λ h. h) (spinning 0);
  polled = λ rand w st i l lt f e. poll-Flag n rand w st i l lt (ground arith) f;
  released = λ w st i _ f e. Flag-drop f i refl e;
  excludes = λ w st i j f. f.one i j;
}

set-Gets : (w : TtasLock) (b : ℕ) → w.lock_taken ≡ 0 → Gets ttas w (setting b)
unfolding poll
set-Gets w b free = now w (setting b) (rw free)

load-Gets : (w : TtasLock) (b : ℕ) → w.lock_taken ≡ 0 → Gets ttas w (loading b)
unfolding poll
load-Gets w b free = later w (loading b) (setting b) (rw free) (set-Gets w b free)

place-Gets : (w : TtasLock) (l : Place) → w.lock_taken ≡ 0 → Gets ttas w l
unfolding poll
place-Gets w (spinning c) free =
    later w (spinning c) (loading min_backoff_nanoseconds) (rw free)
      (load-Gets w min_backoff_nanoseconds free)
place-Gets w (loading b) free = load-Gets w b free
place-Gets w (setting b) free = set-Gets w b free

-- A waiting thread gets a free TTAS lock in three rounds at most.
pub ttas-Live : (n : ℕ) → Live n ttas (ttas-Exclusive n)
unfolding ttas-Exclusive
ttas-Live n w st i l f lt e none_holds = (i, l, lt, e, place-Gets w l (Flag-free f none_holds))
