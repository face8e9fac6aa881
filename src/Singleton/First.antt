-- ===== src/Singleton/First.antt =====
-- The instance of include/core/singleton.h is the first object that could be made.
use lock_free.Common.{◌≡◌, refl, ap, Bool, true, false, Option, none, some, List, [], ◌∷◌, ◌++◌}
use lock_free.Singleton.{
  Singleton, create, initialize, get_instance, finalize, Call, call_initialize, call_finalize, run,
}

module _ {D : Type 0} where
  -- The first object that a call of `initialize` could make.
  abbrev pub first_made : List (Call D) → Option D
  first_made [] = none
  first_made (call_initialize none ∷ calls) = first_made calls
  first_made (call_initialize (some object) ∷ calls) = some object
  first_made (call_finalize object ∷ calls) = first_made calls

  abbrev pub as_list : Option D → List D
  as_list none = []
  as_list (some object) = object ∷ []

  -- The answers of the calls of `initialize`: true for the first that could make an object.
  abbrev pub first_true : (done : Bool) → List (Call D) → List Bool
  first_true done [] = []
  first_true done (call_initialize none ∷ calls) = false ∷ first_true done calls
  first_true true (call_initialize (some object) ∷ calls) = false ∷ first_true true calls
  first_true false (call_initialize (some object) ∷ calls) = true ∷ first_true true calls
  first_true done (call_finalize object ∷ calls) = first_true done calls

  abbrev having : Option D → List D → List D → Singleton D
  having i l f = record { instance_ = i; initialized = l; finalized = f }

  -- Once there is an instance, it stays, and no call makes another.
  after_first :
      (calls : List (Call D)) (object : D) (l f : List D)
      → ((run calls (having (some object) l f)).0 ≡ first_true true calls)
        × ((run calls (having (some object) l f)).1.instance_ ≡ some object)
        × ((run calls (having (some object) l f)).1.initialized ≡ l)
  unfolding run initialize finalize
  after_first [] object l f = (refl, refl, refl)
  after_first (call_initialize none ∷ calls) object l f =
      let (a, i, m) = after_first calls object l f in (ap (λ bs. false ∷ bs) a, i, m)
  after_first (call_initialize (some other) ∷ calls) object l f =
      let (a, i, m) = after_first calls object l f in (ap (λ bs. false ∷ bs) a, i, m)
  after_first (call_finalize other ∷ calls) object l f =
      after_first calls object l (f ++ (other ∷ []))

  before_first :
      (calls : List (Call D)) (f : List D)
      → ((run calls (having none [] f)).0 ≡ first_true false calls)
        × ((run calls (having none [] f)).1.instance_ ≡ first_made calls)
        × ((run calls (having none [] f)).1.initialized ≡ as_list (first_made calls))
  unfolding run initialize finalize
  before_first [] f = (refl, refl, refl)
  before_first (call_initialize none ∷ calls) f =
      let (a, i, m) = before_first calls f in (ap (λ bs. false ∷ bs) a, i, m)
  before_first (call_initialize (some object) ∷ calls) f =
      let (a, i, m) = after_first calls object (object ∷ []) f in (ap (λ bs. true ∷ bs) a, i, m)
  before_first (call_finalize other ∷ calls) f = before_first calls (f ++ (other ∷ []))

  -- However often `initialize` and `finalize` are called from the start of the program, one call
  -- after the other, and whether or not there is memory: `initialize` answers true for the first
  -- object that could be made and false otherwise, this object is the instance from then on, and
  -- `on_initialize` runs on it alone, once.
  pub run-First :
      (calls : List (Call D))
      → ((run calls create).0 ≡ first_true false calls)
        × (get_instance (run calls create).1 ≡ first_made calls)
        × ((run calls create).1.initialized ≡ as_list (first_made calls))
  unfolding get_instance
  run-First calls = before_first calls []
