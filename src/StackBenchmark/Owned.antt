-- ===== src/StackBenchmark/Owned.antt =====
-- Which thread has which cell of lab3/Stack.c.
use distibuted_sys.Base.{
  ℕ, suc, ◌%◌, ◌^◌, ◌≤◌, ◌<◌, ◌≡◌, ◌≢◌, refl, ◌∙◌, ap, sym, subst, Bool, true, false, Option, none,
  some, List, inl, inr, arith, ◌==◌, Bool-cases, length, get_elem?, get_elem?-set_self,
  get_elem?-set_other, set-set, Option-cases, set, replicate, length-set, length-replicate,
}
use distibuted_sys.Base.Threads.{update, sum_threads, sum_threads-update, sum_threads_mono}
use distibuted_sys.Stack.{null, HazardPointer, Memory}
use distibuted_sys.Stack.Hazard.{max_hazard_pointers}
use distibuted_sys.Stack.Nodes.{Nodes, values, IsStack}
use distibuted_sys.Stack.Pop.{HasHazard, point}
use distibuted_sys.Stack.Claim.{HasHazard-old, HasHazard-new}
use distibuted_sys.StackBenchmark.{max_threads}
use distibuted_sys.StackBenchmark.Contract.{HasRoom, bit}
use distibuted_sys.StackBenchmark.Cells.{mark_of, taken, taken-set, taken-replicate, first_free}
use distibuted_sys.StackBenchmark.HazardStack.{Shared, Answers, seen, Fits}

abbrev pub has_cell : Option ℕ → ℕ
has_cell none = 0
has_cell (some _) = 1

-- Each thread that has a cell is inside, and the cell is taken, by no other thread; no other cell is
-- taken.
pub record Owned (hs : List HazardPointer) (local : ℕ → Option ℕ) (inside : ℕ → Bool) : Type 0 where
  pub cells : length hs ≡ max_hazard_pointers
  pub own :
      (t c : ℕ) → local t ≡ some c → (h : HazardPointer) × (get_elem? hs c ≡ some h) × (h.id ≢ 0)
  pub apart : (t u c : ℕ) → local t ≡ some c → local u ≡ some c → t ≡ u
  pub counts : taken hs ≤ sum_threads has_cell (suc max_threads) local
  pub enters : (t c : ℕ) → local t ≡ some c → inside t ≡ true

pub record Holds (s : Shared) (vs : List ℕ) (inside : ℕ → Bool) : Type 0 where
  pub xs : Nodes
  pub rs : Nodes
  pub stack : IsStack s.memory xs rs
  pub is : values xs ≡ vs
  pub few : length rs ≤ s.pops
  pub owned : Owned s.memory.hazard_pointers s.local inside

-- Thread `t` takes the cell `c`, or has it already.
pub Owned-take :
    (hs : List HazardPointer) (local : ℕ → Option ℕ) (inside : ℕ → Bool) (t c : ℕ)
    (h h' : HazardPointer)
    → Owned hs local inside
    → get_elem? hs c ≡ some h
    → h'.id ≢ 0
    → ((u : ℕ) → local u ≡ some c → t ≡ u)
    → has_cell (local t) ≤ mark_of h
    → t ≤ max_threads
    → Owned (set hs c h') (update local t (some c)) (update inside t true)
Owned-take hs local inside t c h h' o here marked alone less low = record {
  cells = length-set hs c h' ∙ o.cells;
  own = λ u d. elim (Bool-cases (t == u)) [
    | inl e ↦ rw e (λ at.
        let q : c ≡ d = ground (arith, at) in
        (h', ap (get_elem? (set hs c h')) (sym q) ∙ get_elem?-set_self hs c h h' here, marked))
    | inr e ↦ rw e (λ at.
        let (g, is, id) = o.own u d at in
        let other : (c == d) ≡ false = ground (arith, alone u, at) in
        (g, get_elem?-set_other hs c d h' other ∙ is, id))
  ];
  apart = λ u w d. elim (Bool-cases (t == u)) [
    | inl e ↦ elim (Bool-cases (t == w)) [
      | inl e' ↦ ground (arith, e, e')
      | inr e' ↦ rw (e, e') (λ at at'. ground (arith, alone w, at, at', e))
    ]
    | inr e ↦ elim (Bool-cases (t == w)) [
      | inl e' ↦ rw (e, e') (λ at at'. ground (arith, alone u, at, at', e'))
      | inr e' ↦ rw (e, e') (o.apart u w d)
    ]
  ];
  counts =
      let mark : mark_of h' ≡ 1 = ground (arith, marked) in
      omega (
        arith,
        o.counts,
        taken-set hs c h h' here,
        mark,
        less,
        sum_threads-update has_cell (suc max_threads) t local (some c) (omega arith),
      );
  enters =
      λ u d. elim (Bool-cases (t == u)) [ inl e ↦ rw e (λ at. refl) | inr e ↦ rw e (o.enters u d) ];
}

-- At the start no thread has a cell.
pub Owned-none :
    Owned
      (replicate max_hazard_pointers (record { id = 0; pointer = null }))
      (λ _. none)
      (λ _. false)
Owned-none = record {
  cells =
      length-replicate {A = HazardPointer} max_hazard_pointers (record { id = 0; pointer = null });
  own = λ t c e. absurd (ground (arith, e));
  apart = λ t u c e f. absurd (ground (arith, e));
  counts = omega (arith, taken-replicate max_hazard_pointers);
  enters = λ t c e. absurd (ground (arith, e));
}

-- A thread without a cell need not be inside.
pub Owned-out :
    (hs : List HazardPointer) (local : ℕ → Option ℕ) (inside : ℕ → Bool) (t : ℕ)
    → Owned hs local inside
    → local t ≡ none
    → Owned hs local (update inside t false)
Owned-out hs local inside t o at = record {
  cells = o.cells;
  own = o.own;
  apart = o.apart;
  counts = o.counts;
  enters = λ u c q. elim (Bool-cases (t == u)) [
    | inl e ↦ absurd (ground (arith, at, q, e))
    | inr e ↦ rw e (o.enters u c q)
  ];
}

-- Thread `t` gives its cell back.
pub Owned-leave :
    (hs : List HazardPointer) (local : ℕ → Option ℕ) (inside : ℕ → Bool) (t c : ℕ)
    → Owned hs local inside
    → local t ≡ some c
    → t ≤ max_threads
    → Owned
        (set hs c (record { id = 0; pointer = 0 }))
        (update local t none)
        (update inside t false)
Owned-leave hs local inside t c o at low =
    let (h, here, marked) = o.own t c at in
    let clear : HazardPointer = record { id = 0; pointer = 0 } in
    record {
      cells = length-set hs c clear ∙ o.cells;
      own = λ u d. elim (Bool-cases (t == u)) [
        | inl e ↦ rw e (λ q. absurd (ground (arith, q)))
        | inr e ↦ rw e (λ q.
            let (g, is, id) = o.own u d q in
            let other : (c == d) ≡ false = ground (arith, o.apart t u c at, q, e) in
            (g, get_elem?-set_other hs c d clear other ∙ is, id))
      ];
      apart = λ u w d. elim (Bool-cases (t == u)) [
        | inl e ↦ rw e (λ q. absurd (ground (arith, q)))
        | inr e ↦ elim (Bool-cases (t == w)) [
          | inl e' ↦ rw (e, e') (λ q q'. absurd (ground (arith, q')))
          | inr e' ↦ rw (e, e') (o.apart u w d)
        ]
      ];
      counts =
          let mark : mark_of h ≡ 1 = ground (arith, marked) in
          let has : has_cell (local t) ≡ 1 = ap has_cell at in
          omega (
            arith,
            o.counts,
            taken-set hs c h clear here,
            mark,
            has,
            sum_threads-update has_cell (suc max_threads) t local none (omega arith),
          );
      enters = λ u d. elim (Bool-cases (t == u)) [
        | inl e ↦ rw e (λ q. absurd (ground (arith, q)))
        | inr e ↦ rw e (o.enters u d)
      ];
    }

-- A thread comes by a cell.
pub record Enters (a : Answers) (m : Memory) (local : ℕ → Option ℕ) (inside : ℕ → Bool) (t : ℕ)
    : Type 0 where
  pub hs : List HazardPointer
  pub c : ℕ
  pub h : HazardPointer
  pub has : HasHazard a.system m hs c h
  pub owned : Owned (point hs c h null) (update local t (some c)) (update inside t true)

module _ (a : Answers) (s : Shared) (inside : ℕ → Bool) (t : ℕ) (fits : Fits a s)
    (o : Owned s.memory.hazard_pointers s.local inside) (low : t ≤ max_threads) where
  -- Its own,
  pub enter-old : (c : ℕ) → s.local t ≡ some c → Enters a (seen t s) s.local inside t
  enter-old c at =
      let (h, here, marked) = o.own t c at in
      let hs = s.memory.hazard_pointers in
      record {
        hs = hs;
        c = c;
        h = h;
        has = HasHazard-old a.system (seen t s) c h fits.works at here;
        owned =
            Owned-take hs s.local inside t c h (record h { pointer = null }) o here marked
              (λ u q. o.apart t u c at q)
              (let mark : mark_of h ≡ 1 = ground (arith, marked) in
                let has : has_cell (s.local t) ≡ 1 = ap has_cell at in omega (arith, mark, has))
              low;
      }

  room_left :
      s.local t ≡ none
      → HasRoom inside t
      → taken s.memory.hazard_pointers < length s.memory.hazard_pointers
  room_left at room =
      let has : has_cell (s.local t) ≡ 0 = ap has_cell at in
      let each =
        sum_threads_mono has_cell bit (suc max_threads) (update s.local t (some 0))
          (update inside t true) (λ u _. cell_bit u) in
      omega (
        arith,
        o.counts,
        o.cells,
        room,
        each,
        has,
        sum_threads-update has_cell (suc max_threads) t s.local (some 0) (omega arith),
      )
    where
      cell_bit : (u : ℕ) → has_cell (update s.local t (some 0) u) ≤ bit (update inside t true u)
      cell_bit u = elim (Bool-cases (t == u)) [
        | inl e ↦ rw e (omega arith)
        | inr e ↦ rw e (elim (Option-cases (s.local u)) [
          | inl q ↦ rw q (omega arith)
          | inr (c, q) ↦ rw (q, o.enters u c q) (omega arith)
        ])
      ]

  -- or a free one.
  pub enter-new : s.local t ≡ none → HasRoom inside t → Enters a (seen t s) s.local inside t
  enter-new at room =
      let hs = s.memory.hazard_pointers in
      let (c, h, here, free, below) = first_free hs (room_left at room) in
      let h' = record h { id = a.system.thread_id_address % 2 ^ 32 } in
      record {
        hs = set hs c h';
        c = c;
        h = h';
        has = HasHazard-new a.system (seen t s) c h fits.works at here free below;
        owned =
            subst (λ l. Owned l (update s.local t (some c)) (update inside t true))
              (sym (set-set hs c h' (record h' { pointer = null })))
              (Owned-take hs s.local inside t c h (record h' { pointer = null }) o here fits.marks
                (λ u q.
                  let (g, is, id) = o.own u c q in absurd (ground (arith, here, is, id, free)))
                (let has : has_cell (s.local t) ≡ 0 = ap has_cell at in omega (arith, has)) low);
      }
