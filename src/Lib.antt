-- ===== src/Lib.antt =====
-- Verification of the multithreading labs: the matrix product of lab1, the spin locks of lab2, the
-- lock-free stack of lab3 and the lock-free skip list of lab4, with the correctness tests that
-- drive them.
--
-- Base: tests, arrays, integers, code over a memory, families of threads.
--
-- Matrix (lab1/ConsoleApplication3.cpp). The loops of `Many_threads`, `Multiply` and
-- `MultiplyWithOutAMP` over any type of numbers; the threads of `Multiply` run one after another,
-- in any order. Cells follows the loops, Product compares with the sums.
--
-- Lock (lab2/SpinLocks.c, lab2/SpinLocks.h, lab2/SpinLockBenchmarks.c). `Lock` is the interface of
-- a lock: a shared word, and the accesses that a thread makes to it. Lock/Tas, Lock/Ttas and
-- Lock/Ticket model TAS_*, TTAS_* and TicketLock_*; `enter` and `poll` cut the acquire function at
-- its accesses. Lock/Run interleaves any threads over a lock, Lock/Count interleaves the job
-- `one_thread_job` of the benchmarks, whose `+= 1` is a load and a store. `Exclusive` and `Live`
-- are what a lock promises to its clients. A schedule is a list: who moves next, and what `rand()`
-- returns. The threads are sequentially consistent; pauses, yields and sleeps have no effect but
-- the local variables of the backoff. Counters keep their width: `short` tickets wrap at 2^16.
--
-- Stack (lab3/Stack.c, lab3/Stack.h). An explicit heap of nodes, the fields of `struct Stack`, and
-- the thread-local hazard pointer of the calling thread. The functions run while the other threads
-- stand still; their hazard pointers stay where they are. Hazard, Reclaim, Access and Lifetime hold
-- the functions. A loop on a compare-exchange takes fuel, and one round is enough; the weak
-- exchange of `add_to_reclaim_list` may fail spuriously any number of times. A walk over a list
-- takes more fuel than the list has nodes. What `malloc`, `pthread_key_create`,
-- `pthread_setspecific` answer is an argument. Lifecycle follows a stack from `stack_init` to
-- `stack_free`.
--
-- Stack/Interleaved (lab3/Stack.c) has `stack_push` and `stack_pop` once more, cut at each access
-- to what the threads share, for 64 threads at most, each with its hazard pointer. `Place` is the
-- access that comes next, with the local variables, `step` makes it, a schedule says who moves,
-- what `malloc` returns and whether the weak exchange fails. An access to a node that is not
-- allocated is `none`. Atomic is the abstract stack, on which a call is one deed. Zones says
-- whose each node is, Capture, Lists and Knowledge what the threads may rely on, Outcome what a
-- step keeps; Pushes, Pops, Reclaims and Cleans go through the accesses, Steps, Simulation and Linear
-- put them together. Finite shows that the lists end, Alone, Relist, Ending and Returns follow a thread
-- that runs alone. The memory orders are taken for sequentially consistent, although most of them
-- are relaxed.
--
-- StackBenchmark (lab3/StackBenchmark.c). `one_thread_job`, `run_test` and the printout of the
-- correctness test, over the interface `SharedStack`, with any interleaving of the threads; every
-- call of the stack is one step. Contract says what the benchmark relies on, Counted that each
-- value pushed is on the stack, in flight or in the log, Turns, Rounds and Conserved that the threads finish
-- and what they leave. HazardStack is the interface filled by the model of lab3/Stack.c with the
-- thread-local cells of all threads, Owned who has which cell, Kept that it keeps the contract. Its
-- fuel for the walks grows with the pops, each of which retires one node.
--
-- SkipList (lab4/SkipList.c, lab4/SkipList.h). An explicit heap of towers with tagged pointers, the
-- fields of `struct SkipList`, and the thread-local epoch cell of the calling thread; again the
-- other threads stand still. Search has `fill_tables`, Epoch the epochs and the reclamation, Access
-- the three operations, Lifetime the constructor and the destructor. Items views the towers as one
-- sorted list, in which no tower is marked; Walk and Find follow `fill_tables` through it, Lookup
-- `skiplist_search`. Update has the `skiplist_insert` of a key that is there; Insert and its
-- modules that of a new key, one level after another; Remove and its modules the `skiplist_remove`
-- of a key that is there, down the levels and then through the second `fill_tables`, which unlinks
-- the tower; Missing `skiplist_remove` of a key that is not there and the lack of memory; RoundTrip
-- a search behind an insertion or a removal. Reclaim is about `reclaim_nodes`, Cells about the
-- cells of the epochs. The loops of a search take more fuel than there are towers, and each
-- exchange succeeds in its first round. What `malloc`, `random` and `pthread_setspecific` answer is
-- in the record `Outside`.
--
-- SkipListBenchmarks (lab4/SkipListBenchmarks.c). `correctness_thread_job`, `run_test` and the
-- printout of the correctness test, over the interface `SharedMap`, with any interleaving of the
-- threads; every call of the map is one step. Contract says what the benchmark relies on, Expected
-- what a thread may expect of its own keys, Works and Rounds that it finds that. Performance has
-- the jobs of the performance tests, without the times, Inserted follows the insertions. EpochList
-- is the interface filled by the model of lab4/SkipList.c with the thread-local cells of all
-- threads; its Cells says which cells the threads get where `malloc` leaves zeros in those that
-- `skiplist_init` does not set, Inside and Others what a call changes, Kept that it keeps the
-- contract, Passed is the test over it. Its fuel
-- grows with the insertions, each of which makes one tower at most.
--
-- Not modelled: printing, time measurement, thread creation, weak memory orders, the arithmetic of
-- floating-point numbers, the main functions, and the printouts of the other tests of the benchmarks,
-- which average and compare times. A round of a benchmark ends before `stack_free` or
-- `skiplist_free`, and each run over a lock starts from one that has been initialised.
pub mod Base
pub mod Matrix
pub mod Lock
pub mod Stack
pub mod SkipList
pub mod StackBenchmark
pub mod SkipListBenchmarks
