-- ===== src/Lock/Guarantees.antt =====
-- What lab2 promises of each lock: at most one thread holds it, and the correctness test of
-- lab2/SpinLockBenchmarks.c prints CORRECT.
use distibuted_sys.Base.{ℕ, ◌^◌, ◌≤◌, ◌<◌, ◌≡◌, true, List, ◌++◌}
use distibuted_sys.Lock.{holding, Lock, Exclusive, Live}
use distibuted_sys.Lock.Run
use distibuted_sys.Lock.Run.{mutual_exclusion}
use distibuted_sys.Lock.Count.{Common, finished, Bench, spawn, run, prints_correct}
use distibuted_sys.Lock.Count.Correct.{finished-prints_correct}
use distibuted_sys.Lock.Count.Finish.{can_finish}
use distibuted_sys.Lock.Tas.Exclusion.{tas, tas-Exclusive, tas-Live}
use distibuted_sys.Lock.Ttas.Exclusion.{ttas, ttas-Exclusive, ttas-Live}
use distibuted_sys.Lock.Ticket.Exclusion.{ticket, ticket-Exclusive, ticket-Live}
use distibuted_sys.Lock.Ticket.Fifo.{max_threads}

-- In every schedule of `n` threads, two that hold the lock are one.
abbrev pub OneHolder : Lock → ℕ → Type 0
OneHolder k n =
    (es : List (ℕ × ℕ)) (i j : ℕ)
    → (Run.run k n es (Run.start k)).status i ≡ holding
    → (Run.run k n es (Run.start k)).status j ≡ holding
    → i ≡ j

abbrev pub AllFinished : (k : Lock) → ℕ → Bench k → Type 0
AllFinished k n s = (i : ℕ) → i < n → s.job i ≡ finished

-- Every schedule of the counting job goes on to one that finishes it, and every schedule that
-- finishes it prints CORRECT.
abbrev pub CountsCorrectly : Lock → Common → ℕ → Type 0
CountsCorrectly k c n =
    ((es : List (ℕ × ℕ)) → (fs : List (ℕ × ℕ)) × AllFinished k n (run k c n (es ++ fs) (spawn k c)))
    × ((es : List (ℕ × ℕ))
        → AllFinished k n (run k c n es (spawn k c))
        → prints_correct k c n (run k c n es (spawn k c)) ≡ true)

abbrev pub IsUnsigned : Common → Type 0
IsUnsigned c = (c.num_lock_acquisitions < 2 ^ 32) × (c.num_cycles_per_thread < 2 ^ 32)

counts :
    (n : ℕ) (k : Lock) (c : Common) (x : Exclusive n k)
    → Live n k x
    → IsUnsigned c
    → CountsCorrectly k c n
counts n k c x live small = (can_finish n k c x live small, finished-prints_correct n k c x small)

-- In every schedule of any number of threads, at most one thread holds the TAS lock.
pub tas-OneHolder : (n : ℕ) → OneHolder tas n
tas-OneHolder n = mutual_exclusion n tas (tas-Exclusive n)

-- In every schedule of any number of threads, at most one thread holds the TTAS lock.
pub ttas-OneHolder : (n : ℕ) → OneHolder ttas n
ttas-OneHolder n = mutual_exclusion n ttas (ttas-Exclusive n)

-- In every schedule of up to 65536 threads, at most one thread holds the ticket lock.
pub ticket-OneHolder : (n : ℕ) → n ≤ max_threads → OneHolder ticket n
ticket-OneHolder n few = mutual_exclusion n ticket (ticket-Exclusive n few)

-- Any number of threads count correctly under the TAS lock, for counts of the test below 2^32:
-- every schedule goes on to one that finishes, and whenever all have finished CORRECT is printed.
pub tas-CountsCorrectly : (n : ℕ) (c : Common) → IsUnsigned c → CountsCorrectly tas c n
tas-CountsCorrectly n c = counts n tas c (tas-Exclusive n) (tas-Live n)

-- Any number of threads count correctly under the TTAS lock, for counts of the test below 2^32:
-- every schedule goes on to one that finishes, and whenever all have finished CORRECT is printed.
pub ttas-CountsCorrectly : (n : ℕ) (c : Common) → IsUnsigned c → CountsCorrectly ttas c n
ttas-CountsCorrectly n c = counts n ttas c (ttas-Exclusive n) (ttas-Live n)

-- Up to 65536 threads count correctly under the ticket lock, for counts of the test below 2^32:
-- every schedule goes on to one that finishes, and whenever all have finished CORRECT is printed.
pub ticket-CountsCorrectly :
    (n : ℕ) (c : Common) → n ≤ max_threads → IsUnsigned c → CountsCorrectly ticket c n
ticket-CountsCorrectly n c few = counts n ticket c (ticket-Exclusive n few) (ticket-Live n few)
