-- ===== src/RingBuffer/Contents.antt =====
-- The items that the slots of a `ring_buffer`, include/ring_buffer.h, hold.

use lock_free.Common.{
  ℕ, zero, suc, ◌<◌, ◌≤◌, ◌≡◌, refl, Bool, true, false, Option, none, some, List, [], ◌∷◌,
  if◌then◌else◌, set, length, replicate, Bool-cases, inl, inr, arith, ◌∙◌, ap,
}
use lock_free.RingBuffer.Ops.{
  SlotStatus, empty, busy_for_read, busy_for_write, full, is_empty, is_full, RingSlot, slot_at,
}

-- The items in the slots that are full, in the order of the slots.
abbrev pub contents : {V : Type 0} → List (RingSlot V) → List V
contents [] = []
contents (s ∷ xs) = if is_full s.status then s.content ∷ contents xs else contents xs

-- `ys` is `xs` with `v` somewhere in it.
pub data Inserted {V : Type 0} (v : V) : List V → List V → Type 0 where
  here : {xs : List V} → Inserted v xs (v ∷ xs)
  there : {x : V} {xs ys : List V} → Inserted v xs ys → Inserted v (x ∷ xs) (x ∷ ys)

pub length-Inserted :
    {V : Type 0} {v : V} {xs ys : List V} → Inserted v xs ys → length ys ≡ suc (length xs)
length-Inserted here = refl
length-Inserted (there i) = ap suc (length-Inserted i)

module _ {V : Type 0} where
  pub length-contents : (xs : List (RingSlot V)) → length (contents xs) ≤ length xs
  length-contents [] = omega arith
  length-contents (s ∷ xs) =
      let rest = length-contents xs in
      elim (Bool-cases (is_full s.status)) [
        | inl f ↦ rw f (omega arith)
        | inr e ↦ rw e (omega arith)
      ]

  -- The slot that is looked up is inside the array.
  pub slot_found :
      (xs : List (RingSlot V)) (i : ℕ) → i < length xs → (s : RingSlot V) × (slot_at xs i ≡ some s)
  slot_found [] i h = absurd (omega arith)
  slot_found (s ∷ xs) zero h = (s, refl)
  slot_found (s ∷ xs) (suc i) h = slot_found xs i (omega arith)

  pub set-set :
      (xs : List (RingSlot V)) (i : ℕ) (s t : RingSlot V) → set (set xs i s) i t ≡ set xs i t
  set-set [] i s t = refl
  set-set (x ∷ xs) zero s t = refl
  set-set (x ∷ xs) (suc i) s t = ap (λ ys. x ∷ ys) (set-set xs i s t)

  some_injective : (x s : RingSlot V) → some x ≡ some s → x ≡ s
  some_injective x s e = ap (λ (o : Option (RingSlot V)). elim o [ none ↦ x | some y ↦ y ]) e

  -- A slot that is not full gets an item.
  pub fill :
      (xs : List (RingSlot V)) (i : ℕ) (s : RingSlot V) (v : V)
      → slot_at xs i ≡ some s
      → is_full s.status ≡ false
      → Inserted v (contents xs) (contents (set xs i (record { status = full; content = v })))
  fill [] i s v e f = cc
  fill (x ∷ xs) zero s v e f =
      let same = ap (λ (y : RingSlot V). is_full y.status) (some_injective x s e) in
      rw (same ∙ f) here
  fill (x ∷ xs) (suc i) s v e f = elim (Bool-cases (is_full x.status)) [
    | inl k ↦ rw k (there (fill xs i s v e f))
    | inr k ↦ rw k (fill xs i s v e f)
  ]

  -- A full slot loses its item.
  pub drain :
      (xs : List (RingSlot V)) (i : ℕ) (s : RingSlot V)
      → slot_at xs i ≡ some s
      → is_full s.status ≡ true
      → Inserted s.content (contents (set xs i (record s { status = empty }))) (contents xs)
  drain [] i s e f = cc
  drain (x ∷ xs) zero s e f =
      let same = some_injective x s e in
      rw
        (
          ap (λ (y : RingSlot V). is_full y.status) same ∙ f,
          ap (λ (y : RingSlot V). y.content) same,
        )
        here
  drain (x ∷ xs) (suc i) s e f = elim (Bool-cases (is_full x.status)) [
    | inl k ↦ rw k (there (drain xs i s e f))
    | inr k ↦ rw k (drain xs i s e f)
  ]

-- Is the slot of that index inside the array, and does its status pass the test?
abbrev pub slot_is : {V : Type 0} → (SlotStatus → Bool) → List (RingSlot V) → ℕ → Bool
slot_is test [] i = false
slot_is test (s ∷ xs) zero = test s.status
slot_is test (s ∷ xs) (suc i) = slot_is test xs i

pub slot_is_lem :
    {V : Type 0} (test : SlotStatus → Bool) (xs : List (RingSlot V)) (i : ℕ) (s : RingSlot V)
    → slot_at xs i ≡ some s
    → slot_is test xs i ≡ test s.status
slot_is_lem test [] i s e = cc
slot_is_lem test (x ∷ xs) zero s e = ap (λ (y : RingSlot _). test y.status) (some_injective x s e)
slot_is_lem test (x ∷ xs) (suc i) s e = slot_is_lem test xs i s e

pub contents-replicate :
    {V : Type 0} (n : ℕ) (v : V)
    → contents (replicate n (record { status = empty; content = v })) ≡ []
contents-replicate zero v = refl
contents-replicate (suc n) v = contents-replicate n v

pub not_both : (st : SlotStatus) → is_empty st ≡ true → is_full st ≡ false
not_both empty e = refl
not_both busy_for_read e = refl
not_both busy_for_write e = refl
not_both full e = cc
