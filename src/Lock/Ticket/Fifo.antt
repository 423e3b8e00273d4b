-- ===== src/Lock/Ticket/Fifo.antt =====
-- The ticket lock against a queue of threads: the first in line holds or may take the lock.
use distibuted_sys.Base.{
  ℕ, zero, suc, ◌+◌, ◌%◌, ◌^◌, ◌≤◌, ◌<◌, ◌≡◌, ◌≢◌, refl, none, some, List, [], ◌∷◌, ◌++◌, ◌⊎◌, ◌↔◌,
  subst, inl, inr, true, false, ◌∙◌, arith, ◌==◌, Bool-cases, length, get_elem?, length-append,
  get_elem?-append_left, get_elem?-lt,
}
use distibuted_sys.Base.Threads.{update, sum_threads, sum_threads-update, sum_threads-le}
use distibuted_sys.Lock.{Status, idle, waiting, holding, after}
use distibuted_sys.Lock.Ticket.{TicketLock, Place, spinning, yielding, draw, poll, release}

abbrev pub max_threads : ℕ
max_threads = 2 ^ 16

abbrev pub ticket_of : Place → ℕ
ticket_of (spinning t _) = t
ticket_of (yielding t) = t

-- What the thread at place `k` of the queue does: the first holds, or waits for the ticket served.
abbrev pub Stands : TicketLock → ℕ → Status Place → Type 0
Stands w k idle = ⊥
Stands w k (waiting l) = ticket_of l ≡ (w.now_serving + k) % 2 ^ 16
Stands w k holding = k ≡ 0

abbrev pub busy : Status Place → ℕ
busy idle = 0
busy _ = 1

pub record Queued (n : ℕ) (w : TicketLock) (st : ℕ → Status Place) (q : List ℕ) : Type 0 where
  pub small : w.now_serving < 2 ^ 16
  pub next : w.next_ticket ≡ (w.now_serving + length q) % 2 ^ 16
  pub count : length q ≡ sum_threads busy n st
  pub below : (k i : ℕ) → get_elem? q k ≡ some i → i < n
  pub stands : (k i : ℕ) → get_elem? q k ≡ some i → Stands w k (st i)
  pub queued : (i : ℕ) → st i ≢ idle → (k : ℕ) × (get_elem? q k ≡ some i)
  pub distinct : (k j i : ℕ) → get_elem? q k ≡ some i → get_elem? q j ≡ some i → k ≡ j

get_elem?-snoc :
    (q : List ℕ) (i k a : ℕ)
    → get_elem? (q ++ (i ∷ [])) k ≡ some a
    → ((k ≡ length q) × (a ≡ i)) ⊎ (get_elem? q k ≡ some a)
get_elem?-snoc [] i zero a e = ground arith
get_elem?-snoc [] i (suc k) a e = ground arith
get_elem?-snoc (x ∷ q) i zero a e = ground arith
get_elem?-snoc (x ∷ q) i (suc k) a e = ground (arith, get_elem?-snoc q i k a)

get_elem?-last : (q : List ℕ) (i : ℕ) → get_elem? (q ++ (i ∷ [])) (length q) ≡ some i
get_elem?-last [] i = refl
get_elem?-last (x ∷ q) i = get_elem?-last q i

module _ {n : ℕ} {w : TicketLock} {st : ℕ → Status Place} {q : List ℕ} (few : n ≤ max_threads)
    (inv : Queued n w st q) (i : ℕ) (lt : i < n) where
  open inv use {small, next, count, below, stands, queued, distinct}

  room : length q ≤ n
  room = omega (arith, sum_threads-le busy (λ s. ground arith) n st)

  -- Drawing a ticket is joining the queue at its end.
  pub draw-join :
      st i ≡ idle → Queued n (draw w).0 (update st i (waiting (draw w).1)) (q ++ (i ∷ []))
  unfolding draw
  draw-join e = record {
    small = small;
    next = omega (arith, length-append q (i ∷ []));
    count =
        ground
          (arith, length-append q (i ∷ []), sum_threads-update busy n i st (waiting (draw w).1) lt);
    below = λ k a h. ground (arith, get_elem?-snoc q i k a, below k a);
    stands = λ k a h. ground (arith, get_elem?-snoc q i k a, stands k a);
    queued = λ a h. joined a h (Bool-cases (i == a));
    distinct = λ k j a h g. ground (
      arith,
      get_elem?-snoc q i k a,
      get_elem?-snoc q i j a,
      stands k a,
      stands j a,
      distinct k j a,
      get_elem?-lt q k,
      get_elem?-lt q j,
    );
  }
    where
      joined :
          (a : ℕ)
          → update st i (waiting (draw w).1) a ≢ idle
          → ((i == a) ≡ true) ⊎ ((i == a) ≡ false)
          → (k : ℕ) × (get_elem? (q ++ (i ∷ [])) k ≡ some a)
      joined a h (inl same) = (length q, ground (arith, get_elem?-last q i))
      joined a h (inr other) =
          let (k, here) = queued a (ground arith) in
          (k, get_elem?-append_left q (i ∷ []) k (get_elem?-lt q k here) ∙ here)

  -- A waiting thread may change its place in the code as long as its place in line allows it.
  Queued-move :
      (s : Status Place)
      → busy (st i) ≡ 1
      → busy s ≡ 1
      → ((k : ℕ) → get_elem? q k ≡ some i → Stands w k s)
      → Queued n w (update st i s) q
  Queued-move s was is fits = record {
    small = small;
    next = next;
    count = ground (arith, sum_threads-update busy n i st s lt);
    below = below;
    stands = λ k a h. ground (arith, stands k a, fits k);
    queued = λ a h. queued a (ground arith);
    distinct = distinct;
  }

  -- A round of the loops keeps the word and the queue.
  pub poll-keep :
      (rand : ℕ) (l : Place)
      → st i ≡ waiting l
      → Queued n (poll rand w l).0 (update st i (after (poll rand w l).1)) q
  unfolding poll
  poll-keep rand (spinning t c) e =
      Queued-move _ (ground arith) (ground arith) (λ k h. ground (arith, stands k i))
  poll-keep rand (yielding t) e =
      Queued-move _ (ground arith) (ground arith)
        (λ k h. ground (arith, stands k i, get_elem?-lt q k h, room))

leave :
    (n : ℕ) (w : TicketLock) (st : ℕ → Status Place) (i : ℕ) (r : List ℕ)
    → i < n
    → Queued n w st (i ∷ r)
    → st i ≡ holding
    → Queued n (release w) (update st i idle) r
unfolding release
leave n w st i r lt inv e = record {
  small = omega arith;
  next = omega arith;
  count = ground (arith, sum_threads-update busy n i st idle lt);
  below = λ k a. below (suc k) a;
  stands = λ k a h. ground (arith, stands (suc k) a, distinct (suc k) 0 a);
  queued = λ a h. behind a (ground arith) (queued a (ground arith));
  distinct = λ k j a h g. ground (arith, distinct (suc k) (suc j) a);
}
  where
    open inv use {small, next, count, below, stands, queued, distinct}

    behind :
        (a : ℕ)
        → i ≢ a
        → (k : ℕ) × (get_elem? (i ∷ r) k ≡ some a)
        → (k : ℕ) × (get_elem? r k ≡ some a)
    behind a ne (zero, h) = absurd (ground arith)
    behind a ne (suc k, h) = (k, h)

first :
    {n : ℕ} {w : TicketLock} {st : ℕ → Status Place} (q : List ℕ) (i : ℕ)
    → Queued n w st q
    → st i ≡ holding
    → (r : List ℕ) × (q ≡ i ∷ r)
first [] i inv e = let (k, h) = inv.queued i (ground arith) in absurd (ground arith)
first (x ∷ r) i inv e =
    let (k, h) = inv.queued i (ground arith) in (r, ground (arith, inv.stands k i))

-- Releasing is leaving the queue, whose first was the thread that releases.
pub release-leave :
    (n : ℕ) (w : TicketLock) (st : ℕ → Status Place) (q : List ℕ) (i : ℕ)
    → i < n
    → Queued n w st q
    → st i ≡ holding
    → (r : List ℕ) × (q ≡ i ∷ r) × Queued n (release w) (update st i idle) r
release-leave n w st q i lt inv e =
    let (r, at) = first q i inv e in (r, at, leave n w st i r lt (subst (Queued n w st) at inv) e)

-- Only the first in line gets past the loops, and it does as soon as it loads `now_serving` there.
pub first-enters :
    (n : ℕ) (w : TicketLock) (st : ℕ → Status Place) (q : List ℕ) (i rand t : ℕ)
    → n ≤ max_threads
    → i < n
    → Queued n w st q
    → st i ≡ waiting (yielding t)
    → ((poll rand w (yielding t)).1 ≡ none) ↔ (get_elem? q 0 ≡ some i)
unfolding poll
first-enters n w st q i rand t few lt inv e = (
  λ got.
      let (k, at) = inv.queued i (ground arith) in
      let mine : t ≡ (w.now_serving + k) % 2 ^ 16 = subst (Stands w k) e (inv.stands k i at) in
      let here : k ≡ 0 = ground (arith, get_elem?-lt q k at, room few inv i lt) in
      subst (λ j. get_elem? q j ≡ some i) here at,
  λ head. ground (arith, inv.stands 0 i),
)
