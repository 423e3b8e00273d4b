-- ===== src/Stack/Interleaved/Zones.antt =====
-- Whose each address is while threads run the functions of lab3/Stack.c, and how the lists of nodes
-- keep apart.
use distibuted_sys.Base.{ℕ, ◌≡◌, ◌≢◌, refl, Bool, true, false, arith, ◌==◌, if◌then◌else◌}
use distibuted_sys.Stack.{Ptr, null}
use distibuted_sys.Base.Threads.{update}

-- Nobody's; on the stack; on the reclamation list; the node that a thread works on; on the list that
-- a thread has taken to clean.
pub data Zone : Type 0 where
  free stacked limbo : Zone
  held chained : ℕ → Zone

abbrev pub used : Zone → Bool
used free = false
used stacked = true
used limbo = true
used (held i) = true
used (chained i) = true

-- The zones whose nodes stand in a list.
abbrev pub listed : Zone → Bool
listed free = false
listed stacked = true
listed limbo = true
listed (held i) = false
listed (chained i) = true

abbrev pub same_zone : Zone → Zone → Bool
same_zone free free = true
same_zone stacked stacked = true
same_zone limbo limbo = true
same_zone (held i) (held j) = i == j
same_zone (chained i) (chained j) = i == j
same_zone _ _ = false

pub same_zone→eq : (a b : Zone) → same_zone a b ≡ true → a ≡ b
same_zone→eq free free e = refl
same_zone→eq stacked stacked e = refl
same_zone→eq limbo limbo e = refl
same_zone→eq (held i) (held j) e = ground arith
same_zone→eq (chained i) (chained j) e = ground arith
same_zone→eq _ _ e = ground arith

pub same_zone_refl : (a : Zone) → same_zone a a ≡ true
same_zone_refl free = refl
same_zone_refl stacked = refl
same_zone_refl limbo = refl
same_zone_refl (held i) = ground arith
same_zone_refl (chained i) = ground arith

pub listed-used : (z : Zone) → listed z ≡ true → used z ≡ true
listed-used free l = l
listed-used stacked l = refl
listed-used limbo l = refl
listed-used (held i) l = refl
listed-used (chained i) l = refl

-- The first node of the list of each zone is `root`: no node is on two lists, nor twice on one.
pub record Shape (allocated : Ptr → Bool) (next : Ptr → Ptr) (root : Zone → Ptr) (zone : Ptr → Zone)
    : Type 0 where
  pub is_used : (p : Ptr) → allocated p ≡ used (zone p)
  pub null_free : zone null ≡ free
  pub next_in : (p : Ptr) → listed (zone p) ≡ true → next p ≢ null → zone (next p) ≡ zone p
  pub inj :
      (p q : Ptr)
      → listed (zone p) ≡ true
      → zone q ≡ zone p
      → next p ≡ next q
      → next p ≢ null
      → p ≡ q
  pub root_in : (z : Zone) → listed z ≡ true → root z ≢ null → zone (root z) ≡ z
  pub root_first : (p : Ptr) → listed (zone p) ≡ true → next p ≡ root (zone p) → next p ≡ null

module _ (allocated : Ptr → Bool) (next : Ptr → Ptr) (root root' : Zone → Ptr) (zone : Ptr → Zone)
    (s : Shape allocated next root zone) where
  -- Nothing but local variables changes.
  pub Shape-quiet : ((z : Zone) → root' z ≡ root z) → Shape allocated next root' zone
  Shape-quiet same = record {
    is_used = s.is_used;
    null_free = s.null_free;
    next_in = s.next_in;
    inj = s.inj;
    root_in = λ z l. rw (same z) (s.root_in z l);
    root_first = λ p l. rw (same (zone p)) (s.root_first p l);
  }

  -- A node that is on no list gets another successor.
  pub Shape-write :
      (p q : Ptr)
      → ((z : Zone) → root' z ≡ root z)
      → listed (zone p) ≡ false
      → Shape allocated (update next p q) root' zone
  Shape-write p q same off = record {
    is_used = s.is_used;
    null_free = s.null_free;
    next_in = λ a l. ground (arith, s.next_in a);
    inj = λ a b l e f ne. ground (arith, s.inj a b, off, e);
    root_in = λ z l. rw (same z) (s.root_in z l);
    root_first = λ a l. rw (same (zone a)) (ground (arith, s.root_first a l));
  }

  -- A node that is on no list goes from one zone to another without a list.
  pub Shape-move :
      (p : Ptr) (z : Zone) (b : Bool)
      → ((z : Zone) → root' z ≡ root z)
      → listed (zone p) ≡ false
      → listed z ≡ false
      → p ≢ null
      → b ≡ used z
      → Shape (update allocated p b) next root' (update zone p z)
  Shape-move p z b same off off' ne u = record {
    is_used = λ a. ground (arith, s.is_used a, u);
    null_free = ground (arith, s.null_free);
    next_in = λ a l f. ground (arith, s.next_in a);
    inj = λ a c l e f g. ground (arith, s.inj a c);
    root_in = λ y l f. ground (arith, s.root_in y l, same y);
    root_first = λ a l f. ground (arith, s.root_first a, same (zone a));
  }

  -- A node that is on no list becomes the first of the list of zone `z`.
  pub Shape-attach :
      (p : Ptr) (z : Zone)
      → ((y : Zone) → root' y ≡ (if same_zone z y then p else root y))
      → listed (zone p) ≡ false
      → listed z ≡ true
      → p ≢ null
      → used (zone p) ≡ true
      → next p ≡ root z
      → Shape allocated next root' (update zone p z)
  Shape-attach p z new off on ne u first = record {
    is_used = λ a. ground (arith, s.is_used a, listed-used z on, u);
    null_free = ground (arith, s.null_free);
    next_in = λ a l f. ground (arith, s.next_in a, s.root_in z on, off);
    inj = λ a c l e f g. ground (arith, s.inj a c, s.root_first a, s.root_first c, off, on, first);
    root_in =
        λ y l f. ground (arith, new y, s.root_in y l, same_zone→eq z y, same_zone_refl z, off, on);
    root_first = λ a l f. ground (
      arith,
      new (zone a),
      new z,
      same_zone_refl z,
      same_zone→eq z (zone a),
      s.root_first a,
      s.next_in a,
      s.root_in z on,
      off,
      first,
    );
  }

  -- The first node of the list of zone `z` leaves it.
  pub Shape-detach :
      (p : Ptr) (z y : Zone)
      → ((w : Zone) → root' w ≡ (if same_zone z w then next p else root w))
      → listed z ≡ true
      → p ≡ root z
      → p ≢ null
      → listed y ≡ false
      → used y ≡ true
      → Shape allocated next root' (update zone p y)
  Shape-detach p z y new on first ne off u =
      let here : zone p ≡ z = ground (arith, s.root_in z on, first) in
      record {
        is_used = λ a. ground (arith, s.is_used a, listed-used z on, u, here);
        null_free = ground (arith, s.null_free);
        next_in = λ a l f. ground (arith, s.next_in a, s.root_first a, here, first, off);
        inj = λ a c l e f g. ground (arith, s.inj a c, off);
        root_in = λ w l f. ground (
          arith,
          new w,
          s.root_in w l,
          s.root_first p,
          s.next_in p,
          same_zone→eq z w,
          same_zone_refl z,
          here,
          first,
          on,
        );
        root_first = λ a l f. ground (
          arith,
          new (zone a),
          s.root_first a,
          s.inj a p,
          same_zone→eq z (zone a),
          same_zone_refl z,
          here,
          off,
          on,
        );
      }
