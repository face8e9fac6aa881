-- ===== src/Tests/Factories.antt =====
-- The factory and the singleton at concrete names and calls.
use lock_free.Common.{ℕ, ◌+◌, ◌≡◌, refl, true, false, none, some, List, [], ◌∷◌}
use lock_free.Factory.{
  ConcreteFactory, count_if, all_of, same_name, is_named, all_names_once, create,
}
use lock_free.Factory.Lookup.{create-Named}
use lock_free.Singleton as Single
use lock_free.Singleton.{Call, call_initialize, call_finalize, get_instance}
use lock_free.Singleton.First.{run-First}

-- "a" adds one, "b" doubles.
abbrev add_one : ConcreteFactory ℕ ℕ
add_one = record { name = 0x61 ∷ []; make = λ n. n + 1 }

abbrev double : ConcreteFactory ℕ ℕ
double = record { name = 0x62 ∷ []; make = λ n. n + n }

abbrev factories : List (ConcreteFactory ℕ ℕ)
factories = add_one ∷ double ∷ []

once : all_names_once factories ≡ true
unfolding all_names_once all_of count_if same_name
once = refl

create-Named_example :
    (create factories (some (λ n. n)) double.name 4 ≡ some 8)
    × ((id : List ℕ)
        → count_if factories (is_named id) ≡ 0
        → create factories (some (λ n. n)) id 4 ≡ some 4)
create-Named_example = create-Named (add_one ∷ []) [] double (some (λ n. n)) 4 once

-- No memory, the object 7, a call too many, and the end.
abbrev calls : List (Call ℕ)
calls =
    call_initialize none
    ∷ call_initialize (some 7)
    ∷ call_initialize (some 8)
    ∷ call_finalize 7
    ∷ []

run-First_example :
    ((Single.run calls Single.create).0 ≡ false ∷ true ∷ false ∷ [])
    × (get_instance (Single.run calls Single.create).1 ≡ some 7)
    × ((Single.run calls Single.create).1.initialized ≡ 7 ∷ [])
run-First_example = run-First calls
