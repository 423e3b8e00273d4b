-- ===== src/Lock/Ticket/Exclusion.antt =====
-- `struct TicketLock` as a `Lock`: up to 65536 threads exclude one another.
use distibuted_sys.Base.{
  ℕ, ◌≤◌, ◌<◌, ◌≡◌, ◌≢◌, refl, subst, ◌∙◌, some, List, [], ◌∷◌, arith, get_elem?,
}
use distibuted_sys.Base.Threads.{sum_threads-const}
use distibuted_sys.Lock.{Status, idle, waiting, holding, Lock, Exclusive, Live, Gets, now, later}
use distibuted_sys.Lock.Ticket.{TicketLock, Place, spinning, yielding, init, draw, poll, release}
use distibuted_sys.Lock.Ticket.Fifo.{
  max_threads, ticket_of, Stands, busy, Queued, draw-join, poll-keep, release-leave,
}

abbrev pub ticket : Lock
ticket = record {
  Word = TicketLock;
  Local = Place;
  init = init;
  enter = draw;
  poll = poll;
  release = release;
}

pub init-Queued : (n : ℕ) → Queued n init (λ _. idle) []
unfolding init
init-Queued n = record {
  small = omega arith;
  next = refl;
  count = omega (arith, sum_threads-const busy n 0 (λ _. idle) (λ i _. refl));
  below = λ k i h. cc;
  stands = λ k i h. cc;
  queued = λ i h. absurd (h refl);
  distinct = λ k j i h. cc;
}

one_first :
    (n : ℕ) (w : TicketLock) (st : ℕ → Status Place) {q : _} (i j : ℕ)
    → Queued n w st q
    → st i ≡ holding
    → st j ≡ holding
    → i ≡ j
one_first n w st i j inv e f =
    let (k, at) = inv.queued i (ground arith) in
    let (m, by) = inv.queued j (ground arith) in
    ground (arith, inv.stands k i at, inv.stands m j by)

-- The ticket lock is a mutual exclusion lock for up to 65536 threads.
pub ticket-Exclusive : (n : ℕ) → n ≤ max_threads → Exclusive n ticket
ticket-Exclusive n few = record {
  Inv = λ w st. (q : _) × Queued n w st q;
  start = (_, init-Queued n);
  entered = λ w st i lt (q, inv) e. (_, draw-join few inv i lt e);
  polled = λ rand w st i l lt (q, inv) e. (_, poll-keep few inv i lt rand l e);
  released =
      λ w st i lt (q, inv) e. let (r, at, left) = release-leave n w st q i lt inv e in (r, left);
  excludes = λ w st i j (q, inv). one_first n w st i j inv;
}

serve-Gets : (w : TicketLock) (l : Place) → ticket_of l ≡ w.now_serving → Gets ticket w l
unfolding poll
serve-Gets w (yielding t) e = now w (yielding t) (rw e (ground arith))
serve-Gets w (spinning t c) e =
    later w (spinning t c) (yielding t) (rw e (ground arith))
      (now w (yielding t) (rw e (ground arith)))

-- If a thread waits and none holds, the first in line gets the ticket lock in two rounds at most.
pub ticket-Live : (n : ℕ) (few : n ≤ max_threads) → Live n ticket (ticket-Exclusive n few)
unfolding ticket-Exclusive
ticket-Live n few w st i l (q, inv) lt e none_holds =
    let (j, at) = head q i inv (ground arith) in served j (st j) refl at
  where
    head : (q : List ℕ) (i : ℕ) → Queued n w st q → st i ≢ idle → (j : ℕ) × (get_elem? q 0 ≡ some j)
    head [] i inv busy = let (k, at) = inv.queued i busy in absurd (ground arith)
    head (j ∷ r) i inv busy = (j, refl)

    served :
        (j : ℕ) (s : Status Place)
        → st j ≡ s
        → get_elem? q 0 ≡ some j
        → (j : ℕ) × (m : Place) × (j < n) × (st j ≡ waiting m) × Gets ticket w m
    served j idle f at = absurd (subst (Stands w 0) f (inv.stands 0 j at))
    served j holding f at = absurd (none_holds j (inv.below 0 j at) f)
    served j (waiting m) f at = (
      j,
      m,
      inv.below 0 j at,
      f,
      serve-Gets w m (subst (Stands w 0) f (inv.stands 0 j at) ∙ omega (arith, inv.small)),
    )
