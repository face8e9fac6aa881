-- ===== src/Mailbox/Events.antt =====
-- What the events of a run of the mailbox, include/mailbox.h, say of the items and of the threads.
use lock_free.Common.{
  ℕ, ◌≡◌, refl, Bool, true, false, ◌&&◌, ◌||◌, if◌then◌else◌, Option, none, some, List, [], ◌∷◌,
}
use lock_free.Mailbox.{
  Place, outside, before_wait, waiting, before_pop, before_notify, Move, Event, written, refused,
  got, found_empty, timed_out, notified, wake, add_event,
}

module _ {V : Type 0} where
  -- The items that writes have put in, and those that reads have taken, in their order.
  abbrev pub items_in : List (Event V) → List V
  items_in [] = []
  items_in (written v ∷ es) = v ∷ items_in es
  items_in (refused v ∷ es) = items_in es
  items_in (got v ∷ es) = items_in es
  items_in (found_empty ∷ es) = items_in es
  items_in (timed_out ∷ es) = items_in es
  items_in (notified ∷ es) = items_in es

  abbrev pub items_out : List (Event V) → List V
  items_out [] = []
  items_out (got v ∷ es) = v ∷ items_out es
  items_out (refused v ∷ es) = items_out es
  items_out (written v ∷ es) = items_out es
  items_out (found_empty ∷ es) = items_out es
  items_out (timed_out ∷ es) = items_out es
  items_out (notified ∷ es) = items_out es

  -- Has a write notified?
  abbrev pub rings : List (Event V) → Bool
  rings [] = false
  rings (notified ∷ es) = true
  rings (got v ∷ es) = rings es
  rings (refused v ∷ es) = rings es
  rings (written v ∷ es) = rings es
  rings (found_empty ∷ es) = rings es
  rings (timed_out ∷ es) = rings es

abbrev pub is_waiting : Place → Bool
is_waiting waiting = true
is_waiting outside = false
is_waiting before_wait = false
is_waiting before_pop = false
is_waiting before_notify = false

-- Where a thread stands after a run in which it does not move.
abbrev pub place_after : {V : Type 0} → List (Event V) → Place → Place
place_after es p = if rings es && is_waiting p then before_pop else p

-- The threads that move.
abbrev pub movers : {V : Type 0} → List (ℕ × Move V) → List ℕ
movers [] = []
movers ((t, move) ∷ moves) = t ∷ movers moves

pub wake_lem : (p : Place) → wake p ≡ (if is_waiting p then before_pop else p)
wake_lem outside = refl
wake_lem before_wait = refl
wake_lem waiting = refl
wake_lem before_pop = refl
wake_lem before_notify = refl

module _ {V : Type 0} where
  rings-add :
      (e : Option (Event V)) (es : List (Event V))
      → rings (add_event e es) ≡ (rings (add_event e []) || rings es)
  unfolding add_event
  rings-add none es = refl
  rings-add (some (written v)) es = refl
  rings-add (some (refused v)) es = refl
  rings-add (some (got v)) es = refl
  rings-add (some found_empty) es = refl
  rings-add (some timed_out) es = refl
  rings-add (some notified) es = refl

  -- One notification wakes a thread, and the next one finds it awake.
  pub place_after-add :
      (e : Option (Event V)) (es : List (Event V)) (p : Place)
      → place_after es (place_after (add_event e []) p) ≡ place_after (add_event e es) p
  place_after-add e es p = rw (rings-add e es) (twice (rings (add_event e [])) (rings es) p)
    where
      twice :
          (a b : Bool) (p : Place)
          → (if b && is_waiting (if a && is_waiting p then before_pop else p)
              then before_pop
              else (if a && is_waiting p then before_pop else p))
            ≡ (if (a || b) && is_waiting p then before_pop else p)
      twice true true waiting = refl
      twice true false waiting = refl
      twice false b p = refl
      twice true true outside = refl
      twice true true before_wait = refl
      twice true true before_pop = refl
      twice true true before_notify = refl
      twice true false outside = refl
      twice true false before_wait = refl
      twice true false before_pop = refl
      twice true false before_notify = refl
