-- ===== src/ThreadMap/Laws.antt =====
-- What `add` and `del` of `thread_map`, include/core/thread_map.h, promise.
use native.Mathlib.Nat.{mod-eq_of_lt}
use lock_free.Common.{
  ℕ, suc, ◌+◌, ◌%◌, ◌^◌, ◌<◌, ◌≤◌, ◌≡◌, refl, ◌≢◌, ◌⊎◌, inl, inr, Bool, true, false, Option, none,
  some, List, [], ◌∷◌, Bool-cases, ◌==◌, arith, ap, sym, ◌↔◌, ◌∙◌, subst,
}
use lock_free.ThreadMap.{ThreadMap, lookup, erase, add, del}

-- No two threads have the same number, and no number is above the counter.
pub record IsMap (m : ThreadMap) : Type 0 where
  pub distinct : (s t id : ℕ) → lookup s m.map ≡ some id → lookup t m.map ≡ some id → s ≡ t
  pub below : (t id : ℕ) → lookup t m.map ≡ some id → id ≤ m.counter

-- The thread has the number that was returned, and the other threads have theirs; a second call
-- returns the same number and changes nothing.
pub record Registered (size_bits tid : ℕ) (m : ThreadMap) (id : ℕ) (m' : ThreadMap) : Type 0 where
  pub is_map : IsMap m'
  pub present : lookup tid m'.map ≡ some id
  pub others : (t : ℕ) → t ≢ tid → lookup t m'.map ≡ lookup t m.map
  pub again : add size_bits tid m' ≡ (id, m')

some_injective : (x y : ℕ) → some x ≡ some y → x ≡ y
some_injective x y e = ap (λ (o : Option ℕ). elim o [ none ↦ x | some z ↦ z ]) e

lookup-cases :
    (t : ℕ) (xs : List (ℕ × ℕ)) → (lookup t xs ≡ none) ⊎ ((id : ℕ) × (lookup t xs ≡ some id))
lookup-cases t [] = inl refl
lookup-cases t ((s, id) ∷ xs) = elim (Bool-cases (s == t)) [
  | inl e ↦ inr (id, rw e refl)
  | inr n ↦ rw n (lookup-cases t xs)
]

lookup-cons_ne :
    (t tid id : ℕ) (xs : List (ℕ × ℕ)) → t ≢ tid → lookup t ((tid, id) ∷ xs) ≡ lookup t xs
lookup-cons_ne t tid id xs n = ground (arith, n)

lookup-cons_self : (tid id : ℕ) (xs : List (ℕ × ℕ)) → lookup tid ((tid, id) ∷ xs) ≡ some id
lookup-cons_self tid id xs = ground arith

module _ (size_bits tid : ℕ) (m : ThreadMap) where
  -- `add` on a thread with a number, and on one without.
  add_known : (id : ℕ) → lookup tid m.map ≡ some id → add size_bits tid m ≡ (id, m)
  unfolding add
  add_known id e = rw (add, e) refl

  add_new :
      suc m.counter < 2 ^ size_bits
      → lookup tid m.map ≡ none
      → add size_bits tid m
        ≡ (suc m.counter, record { map = (tid, suc m.counter) ∷ m.map; counter = suc m.counter })
  unfolding add
  add_new room e =
      let next : (m.counter + 1) % 2 ^ size_bits ≡ suc m.counter =
        mod-eq_of_lt (omega arith) ∙ omega arith in
      rw (add, e, next) refl

module _ (tid new s id : ℕ) (xs : List (ℕ × ℕ)) (a : lookup s ((tid, new) ∷ xs) ≡ some id) where
  first_entry : (tid == s) ≡ true → new ≡ id
  first_entry p = some_injective new id (sym (rw p refl) ∙ a)

  later_entry : (tid == s) ≡ false → lookup s xs ≡ some id
  later_entry p = sym (rw p refl) ∙ a

new-IsMap :
    (tid : ℕ) (m : ThreadMap)
    → IsMap m
    → IsMap (record { map = (tid, suc m.counter) ∷ m.map; counter = suc m.counter })
new-IsMap tid m i = record {
  distinct = λ s t id a b. elim (Bool-cases (tid == s)) [
    | inl p ↦ elim (Bool-cases (tid == t)) [
      | inl q ↦ ground (arith, p, q)
      | inr q ↦
          let e = first_entry tid (suc m.counter) s id m.map a p in
          let l = i.below t id (later_entry tid (suc m.counter) t id m.map b q) in
          absurd (omega arith)
    ]
    | inr p ↦ elim (Bool-cases (tid == t)) [
      | inl q ↦
          let e = first_entry tid (suc m.counter) t id m.map b q in
          let l = i.below s id (later_entry tid (suc m.counter) s id m.map a p) in
          absurd (omega arith)
      | inr q ↦
          i.distinct s t id (later_entry tid (suc m.counter) s id m.map a p)
            (later_entry tid (suc m.counter) t id m.map b q)
    ]
  ];
  below = λ t id a. elim (Bool-cases (tid == t)) [
    | inl p ↦ let e = first_entry tid (suc m.counter) t id m.map a p in omega arith
    | inr p ↦ let l = i.below t id (later_entry tid (suc m.counter) t id m.map a p) in omega arith
  ];
}

-- On a map in which no two threads have the same number and none is above the counter, and whose
-- counter does not wrap, `add` returns the number that the thread has afterwards; the other
-- threads keep theirs, the numbers stay distinct and at most the counter, and a second `add`
-- returns the same number and changes nothing.
pub add-Registered :
    (size_bits tid : ℕ) (m : ThreadMap)
    → IsMap m
    → suc m.counter < 2 ^ size_bits
    → Registered size_bits tid m (add size_bits tid m).0 (add size_bits tid m).1
add-Registered size_bits tid m i room = elim (lookup-cases tid m.map) [
  | inr (id, e) ↦
      let known = add_known size_bits tid m id e in
      subst (λ r. Registered size_bits tid m r.0 r.1) (sym known)
        (record { is_map = i; present = e; others = λ t n. refl; again = known })
  | inl e ↦
      let m' : ThreadMap = record { map = (tid, suc m.counter) ∷ m.map; counter = suc m.counter } in
      let present = lookup-cons_self tid (suc m.counter) m.map in
      subst (λ r. Registered size_bits tid m r.0 r.1) (sym (add_new size_bits tid m room e))
        (record {
          is_map = new-IsMap tid m i;
          present = present;
          others = λ t n. lookup-cons_ne t tid (suc m.counter) m.map n;
          again = add_known size_bits tid m' (suc m.counter) present;
        })
]

lookup-erase_self : (tid : ℕ) (xs : List (ℕ × ℕ)) → lookup tid (erase tid xs) ≡ none
lookup-erase_self tid [] = refl
lookup-erase_self tid ((s, id) ∷ xs) = ground (arith, lookup-erase_self tid xs)

lookup-erase_ne : (tid t : ℕ) (xs : List (ℕ × ℕ)) → t ≢ tid → lookup t (erase tid xs) ≡ lookup t xs
lookup-erase_ne tid t [] n = refl
lookup-erase_ne tid t ((s, id) ∷ xs) n = ground (arith, lookup-erase_ne tid t xs n, n)

-- The thread has no number, the other threads have theirs, and the counter stays.
pub record Unregistered (tid : ℕ) (m : ThreadMap) (done : Bool) (m' : ThreadMap) : Type 0 where
  pub is_map : IsMap m'
  pub answer : (done ≡ false) ↔ (lookup tid m.map ≡ none)
  pub absent : lookup tid m'.map ≡ none
  pub others : (t : ℕ) → t ≢ tid → lookup t m'.map ≡ lookup t m.map
  pub counter : m'.counter ≡ m.counter

module _ (tid : ℕ) (m : ThreadMap) where
  del_unknown : lookup tid m.map ≡ none → del tid m ≡ (false, m)
  unfolding del
  del_unknown e = rw (del, e) refl

  del_known :
      (id : ℕ) → lookup tid m.map ≡ some id → del tid m ≡ (true, record m { map = erase tid m.map })
  unfolding del
  del_known id e = rw (del, e) refl

-- An entry that is left was there before.
found_before_erase :
    (tid t id : ℕ) (xs : List (ℕ × ℕ)) → lookup t (erase tid xs) ≡ some id → lookup t xs ≡ some id
found_before_erase tid t id xs a = elim (Bool-cases (t == tid)) [
  | inl p ↦
      let e : t ≡ tid = ground arith in
      let gone = subst (λ u. lookup u (erase tid xs) ≡ none) (sym e) (lookup-erase_self tid xs) in
      ground (arith, gone, a)
  | inr p ↦ sym (lookup-erase_ne tid t xs (ground arith)) ∙ a
]

-- On a map in which no two threads have the same number and none is above the counter, `del`
-- returns false where the thread had no number and else true; afterwards it has none, the other
-- threads keep theirs, and the counter and the properties of the map stay.
pub del-Unregistered :
    (tid : ℕ) (m : ThreadMap) → IsMap m → Unregistered tid m (del tid m).0 (del tid m).1
del-Unregistered tid m i = elim (lookup-cases tid m.map) [
  | inl e ↦
      subst (λ r. Unregistered tid m r.0 r.1) (sym (del_unknown tid m e))
        (record {
          is_map = i;
          answer = (λ _. e, λ _. refl);
          absent = e;
          others = λ t n. refl;
          counter = refl;
        })
  | inr (id, e) ↦
      subst (λ r. Unregistered tid m r.0 r.1) (sym (del_known tid m id e))
        (record {
          is_map = record {
            distinct = λ s t k a b.
                i.distinct s t k (found_before_erase tid s k m.map a)
                  (found_before_erase tid t k m.map b);
            below = λ t k a. i.below t k (found_before_erase tid t k m.map a);
          };
          answer = (λ z. cc, λ z. ground (arith, e, z));
          absent = lookup-erase_self tid m.map;
          others = λ t n. lookup-erase_ne tid t m.map n;
          counter = refl;
        })
]
