-- ===== src/LookupTable.antt =====
-- include/core/fixed_lookup_table.h: an array of a fixed number of values, one of which is null.
-- The table is the list of its entries; a value is compared by `==`, as a pointer is.
pub mod Laws
use lock_free.Common.{
  ℕ, zero, suc, ◌+◌, Bool, true, false, Option, none, some, List, [], ◌∷◌, ltb, ◌==◌, if◌then◌else◌,
  length, set, replicate, ◌||◌,
}

module _ (null_value : ℕ) where
  -- The constructor, `reset` included.
  unfoldable pub create : (items : ℕ) → List ℕ
  create items = replicate items null_value

  -- The loop of `add` from `ndx` on; the list is the rest of the array.
  unfoldable pub add_from : (ndx index value : ℕ) → List ℕ → Bool × ℕ × List ℕ
  add_from ndx index value [] = (false, index, [])
  add_from ndx index value (x ∷ xs) =
      let rest = add_from (ndx + 1) index value xs in
      if x == null_value then (true, ndx, value ∷ xs) else (rest.0, rest.1, x ∷ rest.2)

  -- `add`: whether there was room, the `index` that goes out, and the new table.
  unfoldable pub add : (index value : ℕ) → List ℕ → Bool × ℕ × List ℕ
  unfolding add_from
  add index value t = add_from 0 index value t

  unfoldable pub reset_at : ℕ → List ℕ → Bool × List ℕ
  reset_at index t = if ltb index (length t) then (true, set t index null_value) else (false, t)

  unfoldable pub reset_value : ℕ → List ℕ → Bool × List ℕ
  reset_value value [] = (false, [])
  reset_value value (x ∷ xs) =
      let (found, ys) = reset_value value xs in
      if x == value then (true, null_value ∷ ys) else (found, x ∷ ys)

  unfoldable pub reset : List ℕ → List ℕ
  reset [] = []
  reset (x ∷ xs) = null_value ∷ reset xs

-- `operator[]`; `none` is the failed assertion.
unfoldable pub at : List ℕ → ℕ → Option ℕ
at [] ndx = none
at (x ∷ xs) zero = some x
at (x ∷ xs) (suc ndx) = at xs ndx
