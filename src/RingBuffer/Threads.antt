-- ===== src/RingBuffer/Threads.antt =====
-- `push` and `pop` of `ring_buffer`, include/ring_buffer.h, run by any number of threads that
-- interleave step by step: each call on an atomic is a step, and so is each access to the content of
-- a slot. `items`, one at least, is the number of slots and `size_bits` the width of `data_size_t`;
-- a slot has an index, and `Range` is about the indices that the steps compute. Memory orders are
-- not modelled.
use lock_free.Common.{
  ℕ, ◌+◌, ◌-◌, ◌%◌, ◌^◌, Bool, not, ◌&&◌, Option, none, some, List, [], ◌∷◌, ltb, ◌==◌,
  if◌then◌else◌, update,
}
use lock_free.RingBuffer.Ops.{
  empty, busy_for_read, busy_for_write, full, is_empty, is_full, RingSlot,
}

-- Where a thread stands, with what it has read and the item it pushes.
pub data Worker (V : Type 0) : Type 0 where
  outside : Worker V
  push_wrap : V → Worker V
  push_claim push_write push_publish : (ndx : ℕ) → V → Worker V
  push_count : Worker V
  pop_wrap : Worker V
  pop_claim pop_read : (ndx : ℕ) → Worker V
  pop_release : (ndx : ℕ) → V → Worker V
  pop_count : V → Worker V

-- A call begins or goes on; then `spurious` says whether a weak exchange fails although the status is
-- the expected one.
pub data Move (V : Type 0) : Type 0 where
  call_push : V → Move V
  call_pop : Move V
  go_on : (spurious : Bool) → Move V

-- An item goes into a slot or out of one; a call gives up.
pub data Event (V : Type 0) : Type 0 where
  stored fetched : (ndx : ℕ) → V → Event V
  gave_up : Event V

pub record SharedRing (V : Type 0) : Type 0 where
  pub slot : ℕ → RingSlot V
  pub ndx_write : ℕ
  pub ndx_read : ℕ
  pub counter : ℕ
  pub worker : ℕ → Worker V

module _ {V : Type 0} where
  abbrev pub goto : ℕ → Worker V → SharedRing V → SharedRing V
  goto t w s = record s { worker = update s.worker t w }

  abbrev pub set_slot : (ndx : ℕ) → RingSlot V → SharedRing V → SharedRing V
  set_slot ndx x s = record s { slot = update s.slot ndx x }

  unfoldable pub log : Option (Event V) → List (Event V) → List (Event V)
  log none es = es
  log (some e) es = e ∷ es

  -- `ring_buffer()`: `default` is the value that a slot is built with.
  unfoldable pub create : (default : V) → SharedRing V
  create default = record {
    slot = λ _. record { status = empty; content = default };
    ndx_write = 0;
    ndx_read = 0;
    counter = 0;
    worker = λ _. outside;
  }

module _ {V : Type 0} (items size_bits : ℕ) where
  -- `fetch_add` on `m_ndxWrite`, and the tests of what it returns.
  unfoldable pub start_push : (t : ℕ) → V → SharedRing V → Option (Event V) × SharedRing V
  start_push t item s =
      let ndx = s.ndx_write in
      let s1 = record s { ndx_write = (ndx + 1) % 2 ^ size_bits } in
      if ltb items ndx
      then (some gave_up, s1)
      else (if ndx == items
          then (none, goto t (push_wrap item) s1)
          else (none, goto t (push_claim ndx item) s1))

  -- `fetch_add` on `m_ndxRead`, and the tests of what it returns.
  unfoldable pub start_pop : (t : ℕ) → SharedRing V → Option (Event V) × SharedRing V
  start_pop t s =
      let ndx = s.ndx_read in
      let s1 = record s { ndx_read = (ndx + 1) % 2 ^ size_bits } in
      if ltb items ndx
      then (some gave_up, s1)
      else (if ndx == items then (none, goto t pop_wrap s1) else (none, goto t (pop_claim ndx) s1))

  -- The next step of a call of thread `t`, which stands at the last argument.
  unfoldable pub go_step :
      (spurious : Bool) (t : ℕ) (s : SharedRing V) → Worker V → Option (Event V) × SharedRing V
  go_step spurious t s outside = (none, s)
  go_step spurious t s (push_wrap item) =
      (none, goto t (push_claim 0 item) (record s { ndx_write = 1 }))
  go_step spurious t s (push_claim ndx item) =
      if is_empty (s.slot ndx).status && not spurious
      then (
        none,
        goto t (push_write ndx item)
            (set_slot ndx (record (s.slot ndx) { status = busy_for_write }) s),
      )
      else (some gave_up, goto t outside s)
  go_step spurious t s (push_write ndx item) = (
    none,
    goto t (push_publish ndx item) (set_slot ndx (record (s.slot ndx) { content = item }) s),
  )
  go_step spurious t s (push_publish ndx item) = (
    some (stored ndx item),
    goto t push_count (set_slot ndx (record (s.slot ndx) { status = full }) s),
  )
  go_step spurious t s push_count =
      (none, goto t outside (record s { counter = (s.counter + 1) % 2 ^ size_bits }))
  go_step spurious t s pop_wrap = (none, goto t (pop_claim 0) (record s { ndx_read = 1 }))
  go_step spurious t s (pop_claim ndx) =
      if is_full (s.slot ndx).status && not spurious
      then (
        none,
        goto t (pop_read ndx) (set_slot ndx (record (s.slot ndx) { status = busy_for_read }) s),
      )
      else (some gave_up, goto t outside s)
  go_step spurious t s (pop_read ndx) = (none, goto t (pop_release ndx (s.slot ndx).content) s)
  go_step spurious t s (pop_release ndx item) = (
    some (fetched ndx item),
    goto t (pop_count item) (set_slot ndx (record (s.slot ndx) { status = empty }) s),
  )
  go_step spurious t s (pop_count item) = (
    none,
    goto t outside (record s { counter = (s.counter + 2 ^ size_bits - 1) % 2 ^ size_bits }),
  )

  -- A thread begins a call only outside one.
  unfoldable pub step : (t : ℕ) → Move V → Worker V → SharedRing V → Option (Event V) × SharedRing V
  step t (call_push item) outside s = start_push t item s
  step t call_pop outside s = start_pop t s
  step t (go_on spurious) w s = go_step spurious t s w
  step t move w s = (none, s)

  unfoldable pub run : List (ℕ × Move V) → SharedRing V → List (Event V) × SharedRing V
  run [] s = ([], s)
  run ((t, move) ∷ moves) s =
      let (e, s1) = step t move (s.worker t) s in let (es, s2) = run moves s1 in (log e es, s2)
