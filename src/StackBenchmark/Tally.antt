-- ===== src/StackBenchmark/Tally.antt =====
-- How often the values of lab3/StackBenchmark.c stand on the stack, and who has pushed them.
use distibuted_sys.Base.{
  ℕ, zero, suc, ◌+◌, ◌*◌, ◌≤◌, ◌≡◌, List, [], ◌∷◌, arith, ◌==◌, ltb, leb, if◌then◌else◌,
}
use distibuted_sys.Base.Threads.{sum_threads}

abbrev pub count : ℕ → List ℕ → ℕ
count v [] = 0
count v (w ∷ ws) = if w == v then suc (count v ws) else count v ws

-- Whether `v` is one of the `len` numbers from `s` on.
abbrev pub in_range : ℕ → ℕ → ℕ → ℕ
in_range v s len = if leb s v then (if ltb v (s + len) then 1 else 0) else 0

pub in_range-suc :
    (v s len : ℕ) → in_range v s (len + 1) ≡ in_range v s len + (if s + len == v then 1 else 0)
in_range-suc v s len = ground arith

pub in_range-le : (v s a len : ℕ) → a ≤ len → in_range v s a ≤ in_range v s len
in_range-le v s a len h = ground arith

-- `n` ranges of `len` numbers, one after another.
pub in_range-ranges :
    (v len n : ℕ)
    → sum_threads (λ i. in_range v (len * i) len) n (λ i. i) ≡ (if ltb v (len * n) then 1 else 0)
unfolding sum_threads
in_range-ranges v len zero = ground arith
in_range-ranges v len (suc n) =
    let e : len * suc n ≡ len * n + len = omega arith in
    let r = in_range-ranges v len n in ground (arith, e, r)

pub count-pos : (v : ℕ) (vs : List ℕ) → count v (v ∷ vs) ≡ suc (count v vs)
count-pos v vs = ground arith
