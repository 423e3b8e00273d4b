-- ===== src/Base/Code.antt =====
-- Code over a memory: it ends with a value, crashes, or runs out of fuel.
-- `crash` is an access through `NULL`, to freed memory or out of bounds.
pub data Outcome (M A : Type 0) : Type 0 where
  done : A → M → Outcome M A
  crash : Outcome M A
  unfinished : Outcome M A

abbrev pub Code : Type 0 → Type 0 → Type 0
Code M A = M → Outcome M A

module _ {M : Type 0} where
  abbrev pub continue : {A B : Type 0} → Outcome M A → (A → Code M B) → Outcome M B
  continue (done a m) f = f a m
  continue crash f = crash
  continue unfinished f = unfinished

  infixl 5 ◌>>=◌ ◌>>◌
  abbrev pub ◌>>=◌ : {A B : Type 0} → Code M A → (A → Code M B) → Code M B
  ◌>>=◌ c f m = continue (c m) f

  abbrev pub ◌>>◌ : {A B : Type 0} → Code M A → Code M B → Code M B
  ◌>>◌ c d m = continue (c m) (λ _. d)

  abbrev pub return : {A : Type 0} → A → Code M A
  return = done

  abbrev pub read : Code M M
  read m = done m m

  abbrev pub write : M → Code M (Unit {0})
  write m _ = done tt m
