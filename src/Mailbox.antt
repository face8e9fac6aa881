-- ===== src/Mailbox.antt =====
-- `mailbox` of include/mailbox.h over its queue, and `event` of include/core/event.h: threads that
-- interleave, each in a call of `read` or of `write`. Every call on the queue is one step, as are
-- the start of a wait, its end, and `notify`. The queue is an interface, `Fifo`; a call on it is atomic,
-- as on a queue with a lock. The name of the
-- mailbox and the lengths of the timeouts are not modelled: a wait ends when the moves say so.
pub mod Events
pub mod Order
pub mod OverQueue
use lock_free.Common.{
  ℕ, ◌≡◌, ◌⊎◌, Bool, true, false, Option, none, some, List, [], ◌∷◌, ◌++◌, ◌==◌, if◌then◌else◌,
  update, length,
}
use lock_free.Types.{
  Result, failure, success, empty, null_pointer, double_free, not_implemented, timeout, signaled,
}
use lock_free.Command.{Command, pure, ◌>>=◌, ◌>>◌, Returns}

-- What the mailbox asks of the queue that it extends. `Holds s vs` says that `s` holds `vs`, the
-- first to come out first, `Ready s` that a push may ask for memory.
pub record Fifo (V : Type 0) : Type 1 where
  pub State : Type 0
  pub push : V → Command State Result
  pub pop : V → Command State (Result × V)
  pub is_empty : Command State Bool
  pub Holds : State → List V → Type 0
  pub Ready : State → Type 0
  pub push_law :
      (v : V) (s : State) (vs : List V)
      → Holds s vs
      → Ready s
      → Returns
          (λ code s'.
            ((code ≡ failure) × Holds s' vs) ⊎ ((code ≡ success) × Holds s' (vs ++ (v ∷ []))))
          (push v s)
  pub pop_law :
      (v : V) (s : State) (vs : List V)
      → Holds s vs
      → Returns {B = Result × V}
          (λ r s'.
            ((vs ≡ []) × (r ≡ (empty, v)) × Holds s' vs)
            ⊎ ((x : V) × (ws : List V) × (vs ≡ x ∷ ws) × (r ≡ (success, x)) × Holds s' ws))
          (pop v s)
  pub is_empty_law :
      (s : State) (vs : List V)
      → Holds s vs
      → Returns (λ b s'. (b ≡ (length vs == 0)) × Holds s' vs) (is_empty s)

abbrev pub is_success : Result → Bool
is_success success = true
is_success failure = false
is_success empty = false
is_success null_pointer = false
is_success double_free = false
is_success not_implemented = false
is_success timeout = false
is_success signaled = false

-- Where a thread stands: in no call; in `read`, before the wait, in it, or before the pop; in
-- `write`, before `notify`.
pub data Place : Type 0 where
  outside before_wait waiting before_pop before_notify : Place

-- What a thread does next, and what the wait of a reader comes to: a wait may end without a reason.
pub data Move (V : Type 0) : Type 0 where
  call_read go_on time_out : Move V
  call_write : V → Move V

-- How a call ends, with the item. A `write` that succeeds is `written` at its push and `notified` at
-- its end.
pub data Event (V : Type 0) : Type 0 where
  written refused got : V → Event V
  found_empty timed_out notified : Event V

pub record Mailbox (Q : Type 0) : Type 0 where
  pub queue : Q
  pub place : ℕ → Place

-- `notify_all`: every thread that waits goes on.
abbrev pub wake : Place → Place
wake waiting = before_pop
wake outside = outside
wake before_wait = before_wait
wake before_pop = before_pop
wake before_notify = before_notify

module _ {V : Type 0} where
  unfoldable pub add_event : Option (Event V) → List (Event V) → List (Event V)
  add_event none es = es
  add_event (some e) es = e ∷ es

module _ {Q : Type 0} where
  abbrev pub on_queue : {B : Type 0} → Command Q B → Command (Mailbox Q) B
  on_queue m mb = elim (m mb.queue) [
    | none ↦ none
    | some (b, q) ↦ some (b, record mb { queue = q })
  ]

  abbrev pub goto : ℕ → Place → Command (Mailbox Q) (Unit {0})
  goto t p mb = some (tt, record mb { place = update mb.place t p })

  unfoldable pub notify : Command (Mailbox Q) (Unit {0})
  notify mb = some (tt, record mb { place = λ u. wake (mb.place u) })

module _ {V : Type 0} (fifo : Fifo V) (unset : V) where
  open fifo use {State, push, pop, is_empty}

  -- The first step of `write`, and its end if the push fails.
  unfoldable pub write_push : (t : ℕ) → V → Command (Mailbox State) (Option (Event V))
  write_push t item = do
    result ← on_queue (push item)
    if is_success result
        then (goto t before_notify >> pure (some (written item)))
        else pure (some (refused item))

  -- The first step of `read`.
  unfoldable pub read_check : (t : ℕ) → Command (Mailbox State) (Option (Event V))
  read_check t = do b ← on_queue is_empty; goto t (if b then before_wait else before_pop); pure none

  -- The last step of `read`; `data` holds `unset` before.
  unfoldable pub read_pop : (t : ℕ) → Command (Mailbox State) (Option (Event V))
  read_pop t = do
    (result, item) ← on_queue (pop unset)
    goto t outside
    pure (some (if is_success result then got item else found_empty))

  -- The step of thread `t` from its place; a move that does not fit the place does nothing.
  unfoldable pub step : (t : ℕ) → Move V → Place → Command (Mailbox State) (Option (Event V))
  step t (call_write item) outside = write_push t item
  step t call_read outside = read_check t
  step t go_on outside = pure none
  step t time_out outside = pure none
  step t move before_wait = goto t waiting >> pure none
  step t go_on waiting = goto t before_pop >> pure none
  step t time_out waiting = goto t outside >> pure (some timed_out)
  step t call_read waiting = pure none
  step t (call_write item) waiting = pure none
  step t move before_pop = read_pop t
  step t move before_notify = do notify; goto t outside; pure (some notified)

  -- A run: which thread moves, and how.
  unfoldable pub run : List (ℕ × Move V) → Command (Mailbox State) (List (Event V))
  run [] mb = some ([], mb)
  run ((t, move) ∷ moves) mb = elim (step t move (mb.place t) mb) [
    | none ↦ none
    | some (e, mb1) ↦ elim (run moves mb1) [
      | none ↦ none
      | some (es, mb2) ↦ some (add_event e es, mb2)
    ]
  ]
