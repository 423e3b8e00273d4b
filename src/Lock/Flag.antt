-- ===== src/Lock/Flag.antt =====
-- What TAS and TTAS share: one byte that is set while a thread holds the lock.
use distibuted_sys.Base.{ℕ, ◌<◌, ◌≡◌, ◌≢◌, ◌↔◌, inl, inr, arith, ◌==◌, Bool-cases}
use distibuted_sys.Base.Threads.{update}
use distibuted_sys.Lock.{Status, idle, waiting, holding}

-- The byte is not 0 exactly while a thread holds the lock, and one thread holds it at most.
pub record Flag {L : Type 0} (n byte : ℕ) (st : ℕ → Status L) : Type 0 where
  pub taken : (i : ℕ) → st i ≡ holding → byte ≢ 0
  pub held : byte ≢ 0 → (i : ℕ) × (i < n) × (st i ≡ holding)
  pub one : (i j : ℕ) → st i ≡ holding → st j ≡ holding → i ≡ j

module _ {L : Type 0} {n byte : ℕ} {st : ℕ → Status L} (f : Flag n byte st) (i : ℕ) where
  open f use {taken, held, one}

  -- A byte that is set anew stays set, whoever waits.
  pub Flag-wait :
      {byte' : ℕ}
      → st i ≢ holding
      → (byte ≢ 0 ↔ byte' ≢ 0)
      → (l : L) → Flag n byte' (update st i (waiting l))
  Flag-wait out keep l = record {
    taken = λ a h. keep.0 (taken a (ground arith));
    held = λ h. let (a, lt, e) = held (keep.1 h) in (a, lt, ground arith);
    one = λ a b h k. ground (arith, one a b);
  }

  pub Flag-take : {byte' : ℕ} → i < n → byte ≡ 0 → byte' ≢ 0 → Flag n byte' (update st i holding)
  Flag-take lt free set = record {
    taken = λ a h. set;
    held = λ h. (i, lt, ground arith);
    one = λ a b h k. ground (arith, taken a, taken b);
  }

  pub Flag-drop : {byte' : ℕ} → byte' ≡ 0 → st i ≡ holding → Flag n byte' (update st i idle)
  Flag-drop clear e = record {
    taken = λ a h. ground (arith, one a i);
    held = λ h. absurd (h clear);
    one = λ a b h k. ground (arith, one a b);
  }

pub Flag-free :
    {L : Type 0} {n byte : ℕ} {st : ℕ → Status L}
    → Flag n byte st
    → ((i : ℕ) → i < n → st i ≢ holding)
    → byte ≡ 0
Flag-free {byte = b} f none_holds = elim (Bool-cases (b == 0)) [
  | inl free ↦ ground arith
  | inr busy ↦ let (i, lt, e) = f.held (ground arith) in absurd (none_holds i lt e)
]
