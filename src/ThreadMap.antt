-- ===== src/ThreadMap.antt =====
-- `thread_map` of include/core/thread_map.h. `_map` is an association list from thread identifiers
-- to numbers, in which a key stands at most once; `size_bits` is the width of `data_size_t`. Each
-- call holds `_mtx` from its start to its end, so that calls do not overlap.
pub mod Laws
use lock_free.Common.{
  ℕ, ◌+◌, ◌%◌, ◌^◌, Bool, true, false, Option, none, some, List, [], ◌∷◌, ◌==◌, if◌then◌else◌,
}

pub record ThreadMap : Type 0 where
  pub map : List (ℕ × ℕ)
  pub counter : ℕ

abbrev pub lookup : ℕ → List (ℕ × ℕ) → Option ℕ
lookup tid [] = none
lookup tid ((t, id) ∷ xs) = if t == tid then some id else lookup tid xs

abbrev pub erase : ℕ → List (ℕ × ℕ) → List (ℕ × ℕ)
erase tid [] = []
erase tid ((t, id) ∷ xs) = let rest = erase tid xs in if t == tid then rest else (t, id) ∷ rest

unfoldable pub create : (base : ℕ) → ThreadMap
create base = record { map = []; counter = base }

module _ (size_bits : ℕ) where
  unfoldable pub add : (tid : ℕ) → ThreadMap → ℕ × ThreadMap
  add tid m = elim (lookup tid m.map) [
    | some id ↦ (id, m)
    | none ↦
        let counter = (m.counter + 1) % 2 ^ size_bits in
        (counter, record { map = (tid, counter) ∷ m.map; counter = counter })
  ]

unfoldable pub del : (tid : ℕ) → ThreadMap → Bool × ThreadMap
del tid m = elim (lookup tid m.map) [
  | none ↦ (false, m)
  | some id ↦ (true, record m { map = erase tid m.map })
]
