-- ===== src/Mailbox/Order.antt =====
-- What goes into the mailbox of include/mailbox.h comes out in its order, a `write` that succeeds
-- wakes whoever waits, and a `read` waits if it finds nothing.
use lock_free.Common.{ℕ, ◌≡◌, ◌==◌, if◌then◌else◌, length, Option, some, List, [], ◌∷◌, ◌++◌}
use lock_free.Command.{Command, Returns}
use lock_free.Mailbox.{
  Fifo, Place, outside, before_wait, waiting, before_pop, before_notify, Move, call_read, go_on,
  time_out, call_write, Event, Mailbox, step, add_event,
}
use lock_free.Mailbox.Events.{items_in, items_out, place_after}

module _ {V : Type 0} (fifo : Fifo V) where
  open fifo use {State, Holds}

  -- The items held before, with those written, are the items taken, with those held after.
  abbrev pub InOrder : List V → List (Event V) → Mailbox State → Type 0
  InOrder vs es mb = (ws : List V) × Holds mb.queue ws × (vs ++ items_in es ≡ items_out es ++ ws)

module _ {V : Type 0} (fifo : Fifo V) (unset : V) where
  open fifo use {State, push, pop, is_empty, Holds, Ready, push_law, pop_law, is_empty_law}

  -- A thread outside a call that is to write finds memory that may be asked for.
  abbrev pub MayWrite : Move V → Place → Mailbox State → Type 0
  MayWrite (call_write v) outside mb = Ready mb.queue
  MayWrite (call_write v) before_wait mb = Unit {0}
  MayWrite (call_write v) waiting mb = Unit {0}
  MayWrite (call_write v) before_pop mb = Unit {0}
  MayWrite (call_write v) before_notify mb = Unit {0}
  MayWrite call_read p mb = Unit {0}
  MayWrite go_on p mb = Unit {0}
  MayWrite time_out p mb = Unit {0}

  -- Steps of other threads than `u`.
  module _ (u : ℕ) where
    -- What a step leaves if `u` stood at `p`.
    abbrev Stepped : Place → List V → Option (Event V) → Mailbox State → Type 0
    Stepped p vs e mb =
        InOrder fifo vs (add_event e []) mb × (mb.place u ≡ place_after (add_event e []) p)

  -- Wherever the run lets a thread write, memory may be asked for.
  abbrev pub MayRun : List (ℕ × Move V) → Mailbox State → Type 0
  MayRun [] mb = Unit {0}
  MayRun ((t, move) ∷ moves) mb =
      MayWrite move (mb.place t) mb
      × ((e : Option (Event V)) (mb' : Mailbox State)
          → step fifo unset t move (mb.place t) mb ≡ some (e, mb')
          → MayRun moves mb')

  -- What a run leaves, where `u` stood at `p` and does not move: the items are in their order, `u`
  -- goes on if it waited and a write has notified, and else stands where it stood, and a `read` that
  -- `u` starts then waits if and only if nothing is held.
  abbrev pub Delivered : (u : ℕ) → Place → List V → List (Event V) → Mailbox State → Type 0
  Delivered u p vs es mb =
      (ws : List V) × Holds mb.queue ws
      × (vs ++ items_in es ≡ items_out es ++ ws)
      × (mb.place u ≡ place_after es p)
      × Returns (λ _ mb'. mb'.place u ≡ (if length ws == 0 then before_wait else before_pop))
          (step fifo unset u call_read outside mb)
