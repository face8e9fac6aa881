-- ===== src/RingBuffer/Replays.antt =====
-- An array of places that hold an item or none, against which the threads of the ring buffer,
-- include/ring_buffer.h, are set.
use mathlib.Core.Path.{fun_ext}
use lock_free.Common.{
  ℕ, ◌≡◌, refl, sym, ap, subst, ◌∙◌, inl, inr, true, Option, none, some, List, [], ◌∷◌, ◌==◌,
  update, arith, Bool-cases,
}
use lock_free.RingBuffer.Ops.{
  SlotStatus, empty, busy_for_read, busy_for_write, full, is_empty, is_full, RingSlot,
}
use lock_free.RingBuffer.Threads.{Event, stored, fetched, gave_up, log}
use lock_free.RingBuffer.Owned.{held}

pub empty_is : (x : SlotStatus) → is_empty x ≡ true → x ≡ empty
empty_is empty h = refl
empty_is busy_for_read h = cc
empty_is busy_for_write h = cc
empty_is full h = cc

pub full_is : (x : SlotStatus) → is_full x ≡ true → x ≡ full
full_is full h = refl
full_is busy_for_read h = cc
full_is busy_for_write h = cc
full_is empty h = cc

module _ {V : Type 0} where
  -- The item in each slot.
  abbrev pub items_of : (ℕ → RingSlot V) → ℕ → Option V
  items_of slot i = held (slot i)

  -- What a step may do to the places: an item goes into an empty place, or the item of a place goes
  -- out and leaves it empty.
  abbrev pub Effect : Option (Event V) → (ℕ → Option V) → (ℕ → Option V) → Type 0
  Effect none f g = f ≡ g
  Effect (some gave_up) f g = f ≡ g
  Effect (some (stored i v)) f g = (f i ≡ none) × (update f i (some v) ≡ g)
  Effect (some (fetched i v)) f g = (f i ≡ some v) × (update f i none ≡ g)

  -- The events are those of an array of places used by one thread, from `f` to `g`.
  abbrev pub Replays : (ℕ → Option V) → List (Event V) → (ℕ → Option V) → Type 0
  Replays f [] g = f ≡ g
  Replays f (gave_up ∷ es) g = Replays f es g
  Replays f (stored i v ∷ es) g = (f i ≡ none) × Replays (update f i (some v)) es g
  Replays f (fetched i v ∷ es) g = (f i ≡ some v) × Replays (update f i none) es g

  pub Replays-log :
      (e : Option (Event V)) (f g h : ℕ → Option V) (es : List (Event V))
      → Effect e f g
      → Replays g es h
      → Replays f (log e es) h
  unfolding log
  Replays-log none f g h es p r = subst (λ x. Replays x es h) (sym p) r
  Replays-log (some gave_up) f g h es p r = subst (λ x. Replays x es h) (sym p) r
  Replays-log (some (stored i v)) f g h es (a, p) r = (a, subst (λ x. Replays x es h) (sym p) r)
  Replays-log (some (fetched i v)) f g h es (a, p) r = (a, subst (λ x. Replays x es h) (sym p) r)

  pub items_of-update :
      (slot : ℕ → RingSlot V) (i : ℕ) (x : RingSlot V)
      → update (items_of slot) i (held x) ≡ items_of (update slot i x)
  items_of-update slot i x =
      fun_ext
        (λ j. elim (Bool-cases (j == i)) [ inl here ↦ rw here refl | inr there ↦ rw there refl ])

  pub update_same : (f : ℕ → Option V) (i : ℕ) (x : Option V) → f i ≡ x → f ≡ update f i x
  update_same f i x h = fun_ext (λ j. elim (Bool-cases (j == i)) [
    | inl here ↦ let e : j ≡ i = ground arith in rw here (ap f e ∙ h)
    | inr there ↦ rw there refl
  ])
