-- ===== src/SkipListBenchmarks/Contract.antt =====
-- What lab4/SkipListBenchmarks.c relies on in a skip list: it is a map from keys to values.
use distibuted_sys.Base.{ℕ, ◌≡◌, Option, none, some}
use distibuted_sys.Base.Threads.{update}
use distibuted_sys.SkipListBenchmarks.{SharedMap}

-- `Holds s content`: the map has the content. `Fits` is what the system has to answer.
pub record Contract (k : SharedMap) : Type 1 where
  pub Holds : k.Store → (ℕ → Option ℕ) → Type 0
  pub Fits : k.Answer → k.Store → Type 0
  pub start : k.Store
  pub starts : k.init ≡ some start
  pub empty : Holds start (λ _. none)
  pub inserts :
      (a : k.Answer) (t key value : ℕ) (s : k.Store) (content : ℕ → Option ℕ)
      → Holds s content
      → Fits a s
      → (s' : k.Store) × (k.insert a t key value s ≡ some s')
        × Holds s' (update content key (some value))
  pub removes :
      (a : k.Answer) (t key : ℕ) (s : k.Store) (content : ℕ → Option ℕ)
      → Holds s content
      → Fits a s
      → (s' : k.Store) × (k.remove a t key s ≡ some s') × Holds s' (update content key none)
  pub searches :
      (a : k.Answer) (t key : ℕ) (s : k.Store) (content : ℕ → Option ℕ)
      → Holds s content
      → Fits a s
      → (s' : k.Store) × (k.search a t key s ≡ some (content key, s')) × Holds s' content
