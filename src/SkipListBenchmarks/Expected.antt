-- ===== src/SkipListBenchmarks/Expected.antt =====
-- What a thread of lab4/SkipListBenchmarks.c may expect of its own keys.
use distibuted_sys.Base.{
  ℕ, ◌+◌, ◌-◌, ◌*◌, ◌≤◌, ◌<◌, ◌≡◌, ◌≢◌, refl, ◌∙◌, ap, Option, none, some, inl, inr, arith, ltb,
  Bool-cases,
}
use distibuted_sys.Base.Threads.{mul-lt}
use distibuted_sys.SkipListBenchmarks.{
  Job, inserting, searching, removing, searching_again, finished,
}

-- `own i` is what the map has at the thread's key of index `i`, which is `key i`.
abbrev pub Expects : ℕ → Job → (ℕ → ℕ) → (ℕ → Option ℕ) → Type 0
Expects num (inserting b) key own = (b ≤ num) × ((i : ℕ) → i < b → own i ≡ some (key i))
Expects num (searching b) key own = (i : ℕ) → i < num → own i ≡ some (key i)
Expects num (removing b) key own = (b ≤ num) × ((i : ℕ) → i < b → own i ≡ none)
Expects num (searching_again b) key own = (i : ℕ) → i < num → own i ≡ none
Expects num finished key own = Unit

pub Expects-same :
    (num : ℕ) (j : Job) (key : ℕ → ℕ) (own own' : ℕ → Option ℕ)
    → ((i : ℕ) → own' i ≡ own i)
    → Expects num j key own
    → Expects num j key own'
Expects-same num (inserting b) key own own' same (h, e) = (h, λ i l. same i ∙ e i l)
Expects-same num (searching b) key own own' same e = λ i l. same i ∙ e i l
Expects-same num (removing b) key own own' same (h, e) = (h, λ i l. same i ∙ e i l)
Expects-same num (searching_again b) key own own' same e = λ i l. same i ∙ e i l
Expects-same num finished key own own' same e = tt

-- More turns than these a thread does not need.
abbrev pub turns_left : ℕ → Job → ℕ
turns_left num (inserting i) = (num - i) + 3 * num + 4
turns_left num (searching i) = (num - i) + 2 * num + 3
turns_left num (removing i) = (num - i) + num + 2
turns_left num (searching_again i) = (num - i) + 1
turns_left num finished = 0

pub turns_left-finished : (num : ℕ) (j : Job) → turns_left num j ≡ 0 → j ≡ finished
turns_left-finished num (inserting i) e = absurd (omega (arith, e))
turns_left-finished num (searching i) e = absurd (omega (arith, e))
turns_left-finished num (removing i) e = absurd (omega (arith, e))
turns_left-finished num (searching_again i) e = absurd (omega (arith, e))
turns_left-finished num finished e = refl

-- Two threads have no key in common,
pub key-apart : (n t u i j : ℕ) → t < n → u < n → t ≢ u → n * i + t ≢ n * j + u
key-apart n t u i j lt lu ne same = elim (Bool-cases (ltb i j)) [
  | inl below ↦ let b : i < j = ground arith in absurd (omega (arith, mul-lt n i j b, same))
  | inr above ↦ elim (Bool-cases (ltb j i)) [
    | inl below ↦ let b : j < i = ground arith in absurd (omega (arith, mul-lt n j i b, same))
    | inr neither ↦
        let e : i ≡ j = ground arith in absurd (ne (omega (arith, same, ap (λ x. n * x) e)))
  ]
]

-- and one thread has no key twice.
pub key-distinct : (n t i j : ℕ) → t < n → i ≢ j → n * i + t ≢ n * j + t
key-distinct n t i j lt ne same = elim (Bool-cases (ltb i j)) [
  | inl below ↦ let b : i < j = ground arith in omega (arith, mul-lt n i j b, same)
  | inr above ↦ let b : j < i = ground arith in omega (arith, mul-lt n j i b, same)
]
