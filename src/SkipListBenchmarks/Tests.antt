-- ===== src/SkipListBenchmarks/Tests.antt =====
-- Runs of the correctness test of lab4/SkipListBenchmarks.c.
use distibuted_sys.Base.{ℕ, zero, suc, ◌≡◌, refl, Option, some, none, List, [], ◌∷◌, ◌++◌}
use distibuted_sys.Base.Threads.{update}
use distibuted_sys.SkipListBenchmarks.{SharedMap}
use distibuted_sys.SkipListBenchmarks.Performance.{
  insertions, removals, searches, aggressive_cycles, race_turn, race, Operation, removal, search_of,
  Race,
}

-- A map that is a function, and asks nothing of the system.
abbrev plain_map : SharedMap
plain_map = record {
  Store = ℕ → Option ℕ;
  Answer = Unit {0};
  init = some (λ _. none);
  insert = λ _ t key value f. some (update f key (some value));
  remove = λ _ t key f. some (update f key none);
  search = λ _ t key f. some (f key, f);
}

-- Two threads insert two keys each, and one of them removes its own.
abbrev mixed_up : List (ℕ × Unit {0})
mixed_up = (1, tt) ∷ (0, tt) ∷ (0, tt) ∷ (1, tt) ∷ (0, tt) ∷ (0, tt) ∷ (0, tt) ∷ []

abbrev jobs : ℕ → List Operation
jobs zero = insertions 2 0 2 0 ++ removals 2 0 2 0
jobs (suc t) = insertions 2 0 2 (suc t)

abbrev looks_up : List ℕ → Option (Race plain_map) → List (Option ℕ)
looks_up keys none = []
looks_up [] (some r) = []
looks_up (key ∷ keys) (some r) = r.0 key ∷ looks_up keys (some r)

mixed_up_left :
    looks_up (0 ∷ 1 ∷ 2 ∷ 3 ∷ []) (race plain_map 2 mixed_up ((λ _. none), jobs))
    ≡ none ∷ some 1 ∷ none ∷ some 3 ∷ []
unfolding race race_turn insertions removals
mixed_up_left = refl

-- Thread 0 searches in its last cycle the keys of the thread that follows it.
abbrev last_two : List Operation → List Operation
last_two [] = []
last_two (a ∷ []) = a ∷ []
last_two (a ∷ b ∷ []) = a ∷ b ∷ []
last_two (a ∷ b ∷ c ∷ ops) = last_two (b ∷ c ∷ ops)

aggressive_end : last_two (aggressive_cycles 2 0 3 0) ≡ search_of 351 ∷ removal 300 ∷ []
unfolding aggressive_cycles insertions searches
aggressive_end = refl
