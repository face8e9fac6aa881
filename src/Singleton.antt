-- ===== src/Singleton.antt =====
-- `singleton_t` of include/core/singleton.h: the pointer to the instance, and the calls of
-- `on_initialize` and `on_finalize` with the objects that they are made on.
pub mod First
use lock_free.Common.{ℕ, Bool, true, false, Option, none, some, List, [], ◌∷◌, ◌++◌}

pub record Singleton (D : Type 0) : Type 0 where
  pub instance_ : Option D
  pub initialized : List D
  pub finalized : List D

-- The calls of a program, one after the other.
pub data Call (D : Type 0) : Type 0 where
  call_initialize : (made : Option D) → Call D
  call_finalize : (object : D) → Call D

module _ {D : Type 0} where
  -- `m_instance` at the start of the program.
  abbrev pub create : Singleton D
  create = record { instance_ = none; initialized = []; finalized = [] }

  -- `initialize`; `made` is what `new(std::nothrow)` gives, none where there is no memory.
  unfoldable pub initialize : (made : Option D) → Singleton D → Bool × Singleton D
  initialize made s = elim s.instance_ [
    | some object ↦ (false, s)
    | none ↦ elim made [
      | none ↦ (false, record s { instance_ = none })
      | some object ↦
          (true, record s { instance_ = some object; initialized = s.initialized ++ (object ∷ []) })
    ]
  ]

  unfoldable pub is_valid : Singleton D → Bool
  is_valid s = elim s.instance_ [ none ↦ false | some object ↦ true ]

  unfoldable pub get_instance : Singleton D → Option D
  get_instance s = s.instance_

  -- `finalize`, called on the object.
  unfoldable pub finalize : D → Singleton D → Singleton D
  finalize object s = record s { finalized = s.finalized ++ (object ∷ []) }

  -- The answers of the calls of `initialize`, and the state after the calls.
  unfoldable pub run : List (Call D) → Singleton D → List Bool × Singleton D
  unfolding initialize finalize
  run [] s = ([], s)
  run (call_initialize made ∷ calls) s =
      let (done, s1) = initialize made s in let (answers, s2) = run calls s1 in (done ∷ answers, s2)
  run (call_finalize object ∷ calls) s = run calls (finalize object s)
