-- ===== src/Factory/Lookup.antt =====
-- Which factory `create` of include/core/abstract_factory.h calls.
use lock_free.Common.{
  ℕ, ◌+◌, ◌≡◌, refl, ap, ◌∙◌, inl, inr, Bool, true, Option, none, some, List, [], ◌∷◌, ◌++◌, ◌==◌,
  if◌then◌else◌, arith, Bool-cases,
}
use mathlib.Core.Option.{map}
use lock_free.Factory.{
  count_if, all_of, same_name, ConcreteFactory, is_named, all_names_once, apply_all, or_default,
  create,
}

same_name_self : (n : List ℕ) → same_name n n ≡ true
unfolding same_name
same_name_self [] = refl
same_name_self (a ∷ n) = ground (arith, same_name_self n)

module _ {A : Type 0} where
  count_if-append :
      (xs ys : List A) (f : A → Bool) → count_if (xs ++ ys) f ≡ count_if xs f + count_if ys f
  unfolding count_if
  count_if-append [] ys f = omega arith
  count_if-append (x ∷ xs) ys f = ground (arith, count_if-append xs ys f)

  all_of-middle :
      (xs ys : List A) (y : A) (f : A → Bool) → all_of (xs ++ (y ∷ ys)) f ≡ true → f y ≡ true
  unfolding all_of
  all_of-middle [] ys y f h = ground (arith, h)
  all_of-middle (x ∷ xs) ys y f h = all_of-middle xs ys y f (ground (arith, h))

module _ {Args Base : Type 0} where
  apply_all-append :
      (xs ys : List (ConcreteFactory Args Base)) (id : List ℕ) (args : Args) (r : Option Base)
      → apply_all (xs ++ ys) id args r ≡ apply_all ys id args (apply_all xs id args r)
  unfolding apply_all
  apply_all-append [] ys id args r = refl
  apply_all-append (x ∷ xs) ys id args r =
      apply_all-append xs ys id args (if is_named id x then some (x.make args) else r)

  -- Without a factory of the name the result stays.
  apply_all_none :
      (xs : List (ConcreteFactory Args Base)) (id : List ℕ) (args : Args) (r : Option Base)
      → count_if xs (is_named id) ≡ 0
      → apply_all xs id args r ≡ r
  unfolding apply_all count_if
  apply_all_none [] id args r h = refl
  apply_all_none (x ∷ xs) id args r h = elim (Bool-cases (is_named id x)) [
    | inl yes_it ↦ absurd (ground (arith, yes_it, h))
    | inr no_it ↦ rw no_it (apply_all_none xs id args r (ground (arith, no_it, h)))
  ]

  apply_all_own :
      (x : ConcreteFactory Args Base) (ys : List (ConcreteFactory Args Base)) (args : Args)
      (r : Option Base)
      → count_if ys (is_named x.name) ≡ 0
      → apply_all (x ∷ ys) x.name args r ≡ some (x.make args)
  unfolding apply_all
  apply_all_own x ys args r h =
      rw (same_name_self x.name) (apply_all_none ys x.name args (some (x.make args)) h)

  -- Without a result the default type is made, if there is one.
  or_default-none :
      (fallback : Option (Args → Base)) (args : Args)
      → or_default none fallback args ≡ map (λ make. make args) fallback
  unfolding or_default
  or_default-none none args = refl
  or_default-none (some make) args = refl

  -- On factories whose names each occur once: `create` with the name of a factory gives what this
  -- factory makes of the arguments, and with a name that no factory has it gives what the default
  -- type makes of them, or nothing where the default is `std::nullptr_t`.
  pub create-Named :
      (xs ys : List (ConcreteFactory Args Base)) (x : ConcreteFactory Args Base)
      (fallback : Option (Args → Base)) (args : Args)
      → all_names_once (xs ++ (x ∷ ys)) ≡ true
      → (create (xs ++ (x ∷ ys)) fallback x.name args ≡ some (x.make args))
        × ((id : List ℕ)
            → count_if (xs ++ (x ∷ ys)) (is_named id) ≡ 0
            → create (xs ++ (x ∷ ys)) fallback id args ≡ map (λ make. make args) fallback)
  unfolding create all_names_once
  create-Named xs ys x fallback args once =
      let fs = xs ++ (x ∷ ys) in
      let one = all_of-middle xs ys x (λ item. count_if fs (is_named item.name) == 1) once in
      let all_ = count_if-append xs (x ∷ ys) (is_named x.name) in
      let self = same_name_self x.name in
      let others : (count_if xs (is_named x.name) ≡ 0) × (count_if ys (is_named x.name) ≡ 0) =
        unfold count_if in (ground (arith, one, all_, self)) in
      let found : apply_all fs x.name args none ≡ some (x.make args) =
        apply_all-append xs (x ∷ ys) x.name args none
        ∙ ap (apply_all (x ∷ ys) x.name args) (apply_all_none xs x.name args none others.0)
        ∙ apply_all_own x ys args none others.1 in
      (
        rw found (unfold or_default in refl),
        λ id h.
            ap (λ r. or_default r fallback args) (apply_all_none fs id args none h)
            ∙ or_default-none fallback args,
      )
