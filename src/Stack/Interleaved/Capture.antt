-- ===== src/Stack/Interleaved/Capture.antt =====
-- lab3/Stack.c: what the exchange in `delete_nodes_with_no_hazards` does to the lists of nodes.
use distibuted_sys.Base.{
  ◌∙◌, sym, ap, ℕ, ◌≡◌, ◌≢◌, refl, Bool, true, false, inl, inr, arith, ◌==◌, Bool-cases,
  if◌then◌else◌, ◌⊎◌,
}
use distibuted_sys.Stack.{Ptr, null}
use distibuted_sys.Stack.Interleaved.Zones.{
  Zone, free, stacked, limbo, held, chained, used, listed, same_zone, same_zone_refl, Shape,
}

-- The reclamation list becomes that of thread `i`.
abbrev pub captured : ℕ → Zone → Zone
captured i limbo = chained i
captured i z = z

pub listed-captured : (i : ℕ) (z : Zone) → listed (captured i z) ≡ listed z
listed-captured i free = refl
listed-captured i stacked = refl
listed-captured i limbo = refl
listed-captured i (held j) = refl
listed-captured i (chained j) = refl

pub used-captured : (i : ℕ) (z : Zone) → used (captured i z) ≡ used z
used-captured i free = refl
used-captured i stacked = refl
used-captured i limbo = refl
used-captured i (held j) = refl
used-captured i (chained j) = refl

-- Taking the reclamation list changes no other zone.
pub captured-kept :
    (i : ℕ) (z y : Zone) → same_zone (chained i) y ≡ false → captured i z ≡ y → z ≡ y
captured-kept i free y o e = e
captured-kept i stacked y o e = e
captured-kept i (held j) y o e = e
captured-kept i (chained j) y o e = e
captured-kept i limbo y o e = ground (arith, same_zone_refl y)

-- Two zones that become one.
captured-eq :
    (i : ℕ) (a b : Zone)
    → captured i a ≡ captured i b
    → (a ≡ b) ⊎ (((a ≡ limbo) × (b ≡ chained i)) ⊎ ((a ≡ chained i) × (b ≡ limbo)))
captured-eq i free free e = inl refl
captured-eq i free stacked e = absurd (ground (arith, e))
captured-eq i free limbo e = absurd (ground (arith, e))
captured-eq i free (held k) e = absurd (ground (arith, e))
captured-eq i free (chained k) e = absurd (ground (arith, e))
captured-eq i stacked free e = absurd (ground (arith, e))
captured-eq i stacked stacked e = inl refl
captured-eq i stacked limbo e = absurd (ground (arith, e))
captured-eq i stacked (held k) e = absurd (ground (arith, e))
captured-eq i stacked (chained k) e = absurd (ground (arith, e))
captured-eq i limbo free e = absurd (ground (arith, e))
captured-eq i limbo stacked e = absurd (ground (arith, e))
captured-eq i limbo limbo e = inl refl
captured-eq i limbo (held k) e = absurd (ground (arith, e))
captured-eq i limbo (chained k) e = inr (inl (refl, ground (arith, e)))
captured-eq i (held j) free e = absurd (ground (arith, e))
captured-eq i (held j) stacked e = absurd (ground (arith, e))
captured-eq i (held j) limbo e = absurd (ground (arith, e))
captured-eq i (held j) (held k) e = inl e
captured-eq i (held j) (chained k) e = absurd (ground (arith, e))
captured-eq i (chained j) free e = absurd (ground (arith, e))
captured-eq i (chained j) stacked e = absurd (ground (arith, e))
captured-eq i (chained j) limbo e = inr (inr (ground (arith, e), refl))
captured-eq i (chained j) (held k) e = absurd (ground (arith, e))
captured-eq i (chained j) (chained k) e = inl e

module _ (allocated : Ptr → Bool) (next : Ptr → Ptr) (root root' : Zone → Ptr) (zone : Ptr → Zone)
    (s : Shape allocated next root zone) where
  -- Thread `i`, whose own list is empty, takes the reclamation list.
  pub Shape-capture :
      (i : ℕ)
      → ((y : Zone)
          → listed y ≡ true
          → root' y ≡ (
              if same_zone limbo y
              then null
              else (if same_zone (chained i) y then root limbo else root y)))
      → root (chained i) ≡ null
      → Shape allocated next root' (λ p. captured i (zone p))
  Shape-capture i new empty = record {
    is_used = λ a. s.is_used a ∙ sym (used-captured i (zone a));
    null_free = rw s.null_free refl;
    next_in = λ a l f. ap (captured i) (s.next_in a (sym (listed-captured i (zone a)) ∙ l) f);
    inj = λ a b l e f g.
        let la = sym (listed-captured i (zone a)) ∙ l in
        let lb = sym (listed-captured i (zone b)) ∙ ap listed e ∙ l in
        elim (captured-eq i (zone b) (zone a) e) [
          | inl same ↦ s.inj a b la same f g
          | inr (inl (x, y)) ↦ absurd (ground (arith, s.next_in a la, s.next_in b lb))
          | inr (inr (x, y)) ↦ absurd (ground (arith, s.next_in a la, s.next_in b lb))
        ];
    root_in = root_in;
    root_first = λ a l. root_first (zone a) a refl (sym (listed-captured i (zone a)) ∙ l);
  }
    where
      root_in : (y : Zone) → listed y ≡ true → root' y ≢ null → captured i (zone (root' y)) ≡ y
      root_in stacked l f =
          rw (new stacked refl, s.root_in stacked refl (λ e. f (new stacked refl ∙ e))) refl
      root_in limbo l f = absurd (f (new limbo refl))
      root_in (chained j) l f = elim (Bool-cases (i == j)) [
        | inl e ↦ ground (
          arith,
          new (chained j) refl,
          ap (captured i) (s.root_in limbo refl (ground (arith, new (chained j) refl))),
        )
        | inr e ↦ ground (
          arith,
          new (chained j) refl,
          ap (captured i) (s.root_in (chained j) refl (ground (arith, new (chained j) refl))),
        )
      ]
      root_in free l f = absurd (ground arith)
      root_in (held j) l f = absurd (ground arith)

      root_first :
          (z : Zone) (a : Ptr)
          → zone a ≡ z
          → listed (zone a) ≡ true
          → next a ≡ root' (captured i (zone a))
          → next a ≡ null
      root_first free a e l f = absurd (ground arith)
      root_first (held j) a e l f = absurd (ground arith)
      root_first stacked a e l f = ground (arith, s.root_first a l, new stacked refl)
      root_first limbo a e l f = ground (
        arith,
        s.root_first a l,
        s.next_in a l,
        s.root_in (chained i) refl,
        new (chained i) refl,
        s.root_in limbo refl,
      )
      root_first (chained j) a e l f = elim (Bool-cases (i == j)) [
        | inl h ↦
            ground
              (arith, s.root_first a l, s.next_in a l, s.root_in limbo refl, new (chained j) refl)
        | inr h ↦ ground (arith, s.root_first a l, new (chained j) refl)
      ]
