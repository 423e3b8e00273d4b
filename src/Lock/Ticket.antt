-- ===== src/Lock/Ticket.antt =====
-- lab2/SpinLocks.c: `struct TicketLock`, `TicketLock_init`, `TicketLock_acquire`,
-- `TicketLock_release`. A `short` is its 16-bit pattern; the code only adds 1 and tests equality.
pub mod Fifo
pub mod Exclusion
use distibuted_sys.Base.{ℕ, ◌+◌, ◌%◌, ◌^◌, Option, none, some, ◌==◌, ltb, if◌then◌else◌}
use distibuted_sys.Lock.Backoff.{cycles_to_spin}

pub record TicketLock : Type 0 where
  pub next_ticket : ℕ
  pub now_serving : ℕ

unfoldable pub init : TicketLock
init = record { next_ticket = 0; now_serving = 0 }

-- The two loops of `TicketLock_acquire`, with the ticket drawn before them.
pub data Place : Type 0 where
  spinning : (ticket cycle_no : ℕ) → Place
  yielding : (ticket : ℕ) → Place

-- `__atomic_fetch_add` on `next_ticket`.
unfoldable pub draw : TicketLock → TicketLock × Place
draw lock =
    (record lock { next_ticket = (lock.next_ticket + 1) % 2 ^ 16 }, spinning lock.next_ticket 0)

-- One load of `now_serving`. The first loop is bounded by TTAS_CYCLES_TO_SPIN.
unfoldable pub poll : ℕ → TicketLock → Place → TicketLock × Option Place
poll _ lock (spinning ticket cycle_no) = (
  lock,
  some (
      if lock.now_serving == ticket
      then yielding ticket
      else if ltb cycle_no cycles_to_spin
      then spinning ticket ((cycle_no + 1) % 2 ^ 32)
      else yielding ticket),
)
poll _ lock (yielding ticket) =
    (lock, if lock.now_serving == ticket then none else some (yielding ticket))

unfoldable pub release : TicketLock → TicketLock
release lock = record lock { now_serving = (lock.now_serving + 1) % 2 ^ 16 }
