-- ===== src/Matrix/Cells.antt =====
-- What the loops of lab1/ConsoleApplication3.cpp make of each cell.
use distibuted_sys.Base.{
  ℕ, zero, suc, ◌+◌, ◌≤◌, ◌<◌, ◌≡◌, refl, ◌∙◌, ap, true, false, inl, inr, arith, ◌==◌, Bool-cases,
  ◌⊎◌,
}
use distibuted_sys.Matrix.{Matrix, Scalar, add_terms, add_row, add_rows, sum}

module _ {ℓ} {A : Type ℓ} (s : Scalar A) where
  add_terms-here :
      (term : ℕ → A) (i j n : ℕ) (m : Matrix A)
      → add_terms s term i j n m i j ≡ sum s term n (m i j)
  unfolding add_terms
  add_terms-here term i j zero m = refl
  add_terms-here term i j (suc n) m =
      let a : (i == i) ≡ true = ground arith in
      let b : (j == j) ≡ true = ground arith in rw (a, b, add_terms-here term i j n m) refl

  add_terms-other :
      (term : ℕ → A) (i j n r c : ℕ) (m : Matrix A)
      → ((i == r) ≡ false) ⊎ ((j == c) ≡ false)
      → add_terms s term i j n m r c ≡ m r c
  unfolding add_terms
  add_terms-other term i j zero r c m e = refl
  add_terms-other term i j (suc n) r c m (inl e) = rw e (add_terms-other term i j n r c m (inl e))
  add_terms-other term i j (suc n) r c m (inr e) = elim (Bool-cases (i == r)) [
    | inl same ↦ rw (same, e) (add_terms-other term i j n r c m (inr e))
    | inr other ↦ rw other (add_terms-other term i j n r c m (inr e))
  ]

  add_row-above :
      (term : ℕ → ℕ → A) (i terms n c : ℕ) (m : Matrix A)
      → n ≤ c
      → add_row s term i terms n m i c ≡ m i c
  unfolding add_row
  add_row-above term i terms zero c m h = refl
  add_row-above term i terms (suc n) c m h =
      add_terms-other (term n) i n terms i c (add_row s term i terms n m) (inr (ground arith))
      ∙ add_row-above term i terms n c m (omega arith)

  add_row-here :
      (term : ℕ → ℕ → A) (i terms n c : ℕ) (m : Matrix A)
      → c < n
      → add_row s term i terms n m i c ≡ sum s (term c) terms (m i c)
  unfolding add_row
  add_row-here term i terms zero c m h = absurd (omega arith)
  add_row-here term i terms (suc n) c m h = elim (Bool-cases (n == c)) [
    | inl e ↦
        let h' : n ≡ c = ground arith in
        rw (← h') (
          add_terms-here (term n) i n terms (add_row s term i terms n m)
          ∙ ap (sum s (term n) terms) (add_row-above term i terms n n m (omega arith)))
    | inr e ↦
        add_terms-other (term n) i n terms i c (add_row s term i terms n m) (inr e)
        ∙ add_row-here term i terms n c m (ground arith)
  ]

  add_row-other :
      (term : ℕ → ℕ → A) (i terms n r c : ℕ) (m : Matrix A)
      → (i == r) ≡ false
      → add_row s term i terms n m r c ≡ m r c
  unfolding add_row
  add_row-other term i terms zero r c m e = refl
  add_row-other term i terms (suc n) r c m e =
      add_terms-other (term n) i n terms r c (add_row s term i terms n m) (inl e)
      ∙ add_row-other term i terms n r c m e

  -- Rows outside of the loop keep their cells,
  pub add_rows-outside :
      (term : ℕ → ℕ → ℕ → A) (size terms left n r c : ℕ) (m : Matrix A)
      → (r < left) ⊎ (left + n ≤ r)
      → add_rows s term size terms left n m r c ≡ m r c
  unfolding add_rows
  add_rows-outside term size terms left zero r c m h = refl
  add_rows-outside term size terms left (suc n) r c m h =
      let e : (left + n == r) ≡ false = ground (arith, h) in
      add_row-other (term (left + n)) (left + n) terms size r c
        (add_rows s term size terms left n m) e
      ∙ add_rows-outside term size terms left n r c m (outside h)
    where
      outside : (r < left) ⊎ (left + suc n ≤ r) → (r < left) ⊎ (left + n ≤ r)
      outside (inl a) = inl a
      outside (inr b) = inr (omega arith)

  -- and those of the loop get their sums.
  pub add_rows-inside :
      (term : ℕ → ℕ → ℕ → A) (size terms left n r c : ℕ) (m : Matrix A)
      → left ≤ r
      → r < left + n
      → c < size
      → add_rows s term size terms left n m r c ≡ sum s (term r c) terms (m r c)
  unfolding add_rows
  add_rows-inside term size terms left zero r c m ge lt h = absurd (omega arith)
  add_rows-inside term size terms left (suc n) r c m ge lt h = elim (Bool-cases (left + n == r)) [
    | inl e ↦
        let h' : left + n ≡ r = ground arith in
        rw (← h') (
          add_row-here (term (left + n)) (left + n) terms size c
            (add_rows s term size terms left n m) h
          ∙ ap (sum s (term (left + n) c) terms)
              (add_rows-outside term size terms left n (left + n) c m (inr (omega arith))))
    | inr e ↦
        add_row-other (term (left + n)) (left + n) terms size r c
          (add_rows s term size terms left n m) e
        ∙ add_rows-inside term size terms left n r c m ge (ground arith) h
  ]
