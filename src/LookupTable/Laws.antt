-- ===== src/LookupTable/Laws.antt =====
-- What `add` and `reset_value` do to every entry of the table.
use lock_free.Common.{
  ℕ, zero, suc, ◌+◌, ◌<◌, ◌≡◌, refl, ◌≢◌, inl, inr, true, false, some, List, [], ◌∷◌, arith, ltb,
  ◌==◌, if◌then◌else◌, length, set, has, ◌∈◌, ◌∉◌, Bool-cases, ap, map, ◌&&◌,
}
use lock_free.LookupTable.{add_from, add, reset_at, reset_value, reset, at, create}

at-set :
    (t : List ℕ) (index i v : ℕ)
    → at (set t index v) i ≡ (if ltb index (length t) && (i == index) then some v else at t i)
unfolding at
at-set [] index i v = ground arith
at-set (x ∷ xs) zero zero v = ground arith
at-set (x ∷ xs) zero (suc i) v = ground arith
at-set (x ∷ xs) (suc index) zero v = ground arith
at-set (x ∷ xs) (suc index) (suc i) v = ground (arith, at-set xs index i v)

module _ (null_value : ℕ) where
  -- `out` is the table `t` with `value` in its first null entry, at `pos`.
  pub record Added (value : ℕ) (t out : List ℕ) (pos : ℕ) : Type 0 where
    pub was_null : at t pos ≡ some null_value
    pub first : (i : ℕ) → i < pos → at t i ≢ some null_value
    pub stored : at out pos ≡ some value
    pub same : (i : ℕ) → i ≢ pos → at out i ≡ at t i
    pub size : length out ≡ length t

  Added-head : (value : ℕ) (xs : List ℕ) → Added value (null_value ∷ xs) (value ∷ xs) 0
  unfolding at
  Added-head value xs = record {
    was_null = refl;
    first = λ i h. absurd (omega arith);
    stored = refl;
    same = elim [ zero ↦ λ ne. absurd (ne refl) | suc i ↦ λ ne. refl ];
    size = refl;
  }

  Added-tail :
      (value x pos : ℕ) (xs ys : List ℕ)
      → x ≢ null_value
      → Added value xs ys pos
      → Added value (x ∷ xs) (x ∷ ys) (suc pos)
  unfolding at
  Added-tail value x pos xs ys ne a = record {
    was_null = a.was_null;
    first = elim [ zero ↦ λ h. ground arith | suc i ↦ λ h. a.first i (omega arith) ];
    stored = a.stored;
    same = elim [ zero ↦ λ h. refl | suc i ↦ λ h. a.same i (λ e. h (ap suc e)) ];
    size = ap suc a.size;
  }

  add_from-Added :
      (base index value : ℕ) (t : List ℕ)
      → null_value ∈ t
      → (pos : ℕ) × (out : List ℕ) × (add_from null_value base index value t
          ≡ (true, base + pos, out))
        × Added value t out pos
  unfolding add_from
  add_from-Added base index value [] h = cc
  add_from-Added base index value (x ∷ xs) h = elim (Bool-cases (x == null_value)) [
    | inl hit ↦
        let e : x ≡ null_value = ground arith in
        (0, value ∷ xs, ground arith, rw e (Added-head value xs))
    | inr miss ↦
        let (pos, out, e, a) = add_from-Added (base + 1) index value xs (ground arith) in
        (suc pos, x ∷ out, ground arith, Added-tail value x pos xs out (ground arith) a)
  ]

  add_from_full :
      (base index value : ℕ) (t : List ℕ)
      → null_value ∉ t
      → add_from null_value base index value t ≡ (false, index, t)
  unfolding add_from
  add_from_full base index value [] h = refl
  add_from_full base index value (x ∷ xs) h =
      ground (arith, add_from_full (base + 1) index value xs)

  -- On a table with a null entry, `add` returns true and the index of the first null entry, stores
  -- the value there, and leaves the other entries and the size as they were.
  pub add-Added :
      (index value : ℕ) (t : List ℕ)
      → null_value ∈ t
      → (pos : ℕ) × (out : List ℕ) × (add null_value index value t ≡ (true, pos, out))
        × Added value t out pos
  unfolding add
  add-Added index value t h =
      let (pos, out, e, a) = add_from-Added 0 index value t h in (pos, out, ground arith, a)

  -- On a table without a null entry, `add` returns false, and changes neither the index nor the
  -- table.
  pub add_full :
      (index value : ℕ) (t : List ℕ)
      → null_value ∉ t
      → add null_value index value t ≡ (false, index, t)
  unfolding add
  add_full index value t h = add_from_full 0 index value t h

  -- `reset_value` returns whether the value occurs in the table, and replaces its occurrences by
  -- null and no other entry.
  pub reset_value_lem :
      (value : ℕ) (t : List ℕ)
      → reset_value null_value value t
        ≡ (has value t, map (λ x. if x == value then null_value else x) t)
  unfolding reset_value
  reset_value_lem value [] = refl
  reset_value_lem value (x ∷ xs) = ground (arith, reset_value_lem value xs)

  -- `reset_at` returns whether the index lies inside the table, and makes the entry at it null
  -- where it does; the other entries stay.
  pub reset_at_lem :
      (index : ℕ) (t : List ℕ)
      → ((reset_at null_value index t).0 ≡ ltb index (length t))
        × ((i : ℕ)
            → at (reset_at null_value index t).1 i
              ≡ (if ltb index (length t) && (i == index) then some null_value else at t i))
  unfolding reset_at
  reset_at_lem index t = (ground arith, λ i. ground (arith, at-set t index i null_value))

  -- `reset` leaves the table that the constructor makes for the same number of entries.
  pub reset-eq-create : (t : List ℕ) → reset null_value t ≡ create null_value (length t)
  unfolding reset create
  reset-eq-create [] = refl
  reset-eq-create (x ∷ xs) = ap (λ ys. null_value ∷ ys) (reset-eq-create xs)
