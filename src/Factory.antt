-- ===== src/Factory.antt =====
-- `abstract_factory` of include/core/abstract_factory.h, with the helpers on tuples of
-- include/core/types.h that its constructor calls. A name is the list of its bytes, the tuple of the
-- concrete factories a list; `make` stands for `std::make_unique` of the derived type.
pub mod Lookup
use lock_free.Common.{
  ℕ, zero, suc, ◌+◌, Bool, true, false, ◌&&◌, Option, none, some, List, [], ◌∷◌, ◌==◌,
  if◌then◌else◌,
}

module _ {A : Type 0} where
  unfoldable pub count_if : List A → (A → Bool) → ℕ
  count_if [] func = 0
  count_if (x ∷ xs) func = (if func x then 1 else 0) + count_if xs func

  unfoldable pub all_of : List A → (A → Bool) → Bool
  all_of [] func = true
  all_of (x ∷ xs) func = func x && all_of xs func

-- `==` on `std::string_view`
unfoldable pub same_name : List ℕ → List ℕ → Bool
same_name [] [] = true
same_name [] (b ∷ bs) = false
same_name (a ∷ as') [] = false
same_name (a ∷ as') (b ∷ bs) = (a == b) && same_name as' bs

-- `concrete_factory`
pub record ConcreteFactory (Args Base : Type 0) : Type 0 where
  pub name : List ℕ
  pub make : Args → Base

module _ {Args Base : Type 0} where
  abbrev pub is_named : List ℕ → ConcreteFactory Args Base → Bool
  is_named id item = same_name item.name id

  -- What the constructor asserts: every name occurs once.
  unfoldable pub all_names_once : List (ConcreteFactory Args Base) → Bool
  all_names_once factories =
      all_of factories (λ tuple_item. count_if factories (is_named tuple_item.name) == 1)

  -- The fold over the tuple: each factory with the name replaces the result.
  unfoldable pub apply_all :
      List (ConcreteFactory Args Base) → (id : List ℕ) → Args → (result : Option Base) → Option Base
  apply_all [] id args result = result
  apply_all (tuple_item ∷ items) id args result =
      apply_all items id args
        (if is_named id tuple_item then some (tuple_item.make args) else result)

  -- `if ( result == nullptr )`, and what follows. Without a `fallback` the default type is
  -- `std::nullptr_t`.
  unfoldable pub or_default :
      (result : Option Base) (fallback : Option (Args → Base)) → Args → Option Base
  or_default (some object) fallback args = some object
  or_default none none args = none
  or_default none (some make) args = some (make args)

  unfoldable pub create :
      List (ConcreteFactory Args Base)
      → (fallback : Option (Args → Base)) → (id : List ℕ) → Args
      → Option Base
  create factories fallback id args = or_default (apply_all factories id args none) fallback args
