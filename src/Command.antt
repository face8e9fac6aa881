-- ===== src/Command.antt =====
-- Calls on a state that may have no result: a loop that spins for ever, a failed assertion, a step
-- through a null pointer.
use lock_free.Common.{Option, none, some}

abbrev pub Command : Type 0 → Type 0 → Type 0
Command S B = S → Option (B × S)

module _ {S : Type 0} where
  abbrev pub pure : {B : Type 0} → B → Command S B
  pure b s = some (b, s)

  infixl 5 ◌>>=◌ ◌>>◌
  abbrev pub ◌>>=◌ : {B C : Type 0} → Command S B → (B → Command S C) → Command S C
  ◌>>=◌ m f s = elim (m s) [ none ↦ none | some (b, s') ↦ f b s' ]

  abbrev pub ◌>>◌ : {B : Type 0} → Command S (Unit {0}) → Command S B → Command S B
  m >> k = m >>= λ _. k

-- The call returns, with a result and a state of which `P` holds.
pub data Returns {S B : Type 0} (P : B → S → Type 0) : Option (B × S) → Type 0 where
  returns : {b : B} {s : S} → P b s → Returns P (some (b, s))

-- A call followed by another.
module _ {S B C : Type 0} {P : B → S → Type 0} {Q : C → S → Type 0} (f : B → Command S C) where
  bind_option :
      {r : Option (B × S)}
      → Returns P r
      → ((b : B) (s' : S) → P b s' → Returns Q (f b s'))
      → Returns Q (elim r [ none ↦ none | some (b, s') ↦ f b s' ])
  bind_option (returns {b} {s} h) k = k b s h

  pub bind :
      (m : Command S B) (s : S)
      → Returns P (m s)
      → ((b : B) (s' : S) → P b s' → Returns Q (f b s'))
      → Returns Q ((m >>= f) s)
  bind m s h k = bind_option h k

pub mono :
    {S B : Type 0} {P Q : B → S → Type 0} {r : Option (B × S)}
    → Returns P r
    → ((b : B) (s : S) → P b s → Returns Q (some (b, s)))
    → Returns Q r
mono (returns {b} {s} h) k = k b s h

-- A result of a call on a part of the state, put back into the whole.
pub through :
    {S T B C : Type 0} {P : B → S → Type 0} {Q : C → T → Type 0} {r : Option (B × S)}
    (k : B → S → Option (C × T))
    → Returns P r
    → ((b : B) (s : S) → P b s → Returns Q (k b s))
    → Returns Q (elim r [ none ↦ none | some (b, s) ↦ k b s ])
through k (returns {b} {s} h) f = f b s h
