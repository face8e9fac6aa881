-- ===== src/RingBuffer/Ops.antt =====
-- The operations of `ring_buffer`, include/ring_buffer.h. `items` and `size_bits` are the number of
-- slots and the width of `data_size_t`; `spurious` says whether the call's `compare_exchange_weak`
-- fails although the status is the expected one. A slot out of range has no result.
use lock_free.Common.{
  ℕ, zero, suc, ◌+◌, ◌-◌, ◌%◌, ◌^◌, Bool, true, false, not, ◌&&◌, Option, none, some, List, [], ◌∷◌,
  ltb, ◌==◌, if◌then◌else◌, set, replicate,
}
use lock_free.Command.{Command, pure, ◌>>=◌, ◌>>◌}

-- `slot_status_t`
pub data SlotStatus : Type 0 where
  empty busy_for_read busy_for_write full : SlotStatus

abbrev pub is_empty : SlotStatus → Bool
is_empty empty = true
is_empty busy_for_read = false
is_empty busy_for_write = false
is_empty full = false

abbrev pub is_full : SlotStatus → Bool
is_full empty = false
is_full busy_for_read = false
is_full busy_for_write = false
is_full full = true

-- `slot_t`
pub record RingSlot (V : Type 0) : Type 0 where
  pub status : SlotStatus
  pub content : V

pub record RingBuffer (V : Type 0) : Type 0 where
  pub array : List (RingSlot V)
  pub ndx_write : ℕ
  pub ndx_read : ℕ
  pub counter : ℕ

abbrev pub slot_at : {V : Type 0} → List (RingSlot V) → ℕ → Option (RingSlot V)
slot_at [] ndx = none
slot_at (s ∷ xs) zero = some s
slot_at (s ∷ xs) (suc ndx) = slot_at xs ndx

module _ {V : Type 0} where
  abbrev pub get_slot : ℕ → Command (RingBuffer V) (RingSlot V)
  get_slot ndx rb = elim (slot_at rb.array ndx) [ none ↦ none | some s ↦ some (s, rb) ]

  abbrev pub put_slot : ℕ → RingSlot V → Command (RingBuffer V) (Unit {0})
  put_slot ndx s rb = some (tt, record rb { array = set rb.array ndx s })

module _ (items size_bits : ℕ) where
  -- The index a call works on, from the one that `fetch_add` returns.
  abbrev pub index_of : ℕ → ℕ
  index_of ndx = if ndx == items then 0 else ndx

  -- What `fetch_add`, and the store of 1 at the end of the array, leave in the index.
  abbrev pub next_index : ℕ → ℕ
  next_index ndx = if ndx == items then 1 else (ndx + 1) % 2 ^ size_bits

  -- `default` is the value that a slot is built with.
  unfoldable pub create : {V : Type 0} → V → RingBuffer V
  create default = record {
    array = replicate items (record { status = empty; content = default });
    ndx_write = 0;
    ndx_read = 0;
    counter = 0;
  }

  module _ {V : Type 0} where
    unfoldable pub size : Command (RingBuffer V) ℕ
    size rb = some (rb.counter, rb)

    abbrev pub advance_write : Command (RingBuffer V) ℕ
    advance_write rb = some (rb.ndx_write, record rb { ndx_write = next_index rb.ndx_write })

    abbrev pub advance_read : Command (RingBuffer V) ℕ
    advance_read rb = some (rb.ndx_read, record rb { ndx_read = next_index rb.ndx_read })

    -- The branch of `_push` in which the slot has become `eBusyForWrite`.
    unfoldable pub write_slot : ℕ → RingSlot V → V → Command (RingBuffer V) Bool
    write_slot ndx s item = do
      put_slot ndx (record s { status = busy_for_write })
      put_slot ndx (record { status = busy_for_write; content = item })
      put_slot ndx (record { status = full; content = item })
      (λ rb. some (tt, record rb { counter = (rb.counter + 1) % 2 ^ size_bits }))
      pure true

    unfoldable pub push : (spurious : Bool) → V → Command (RingBuffer V) Bool
    push spurious item = do
      ndx ← advance_write
      if ltb items ndx then pure false else do
        s ← get_slot (index_of ndx)
        if is_empty s.status && not spurious then write_slot (index_of ndx) s item else pure false

    -- The branch of `pop` in which the slot has become `eBusyForRead`.
    unfoldable pub read_slot : ℕ → RingSlot V → Command (RingBuffer V) (Bool × V)
    read_slot ndx s = do
      put_slot ndx (record s { status = busy_for_read })
      put_slot ndx (record s { status = empty })
      (λ rb. some (tt, record rb { counter = (rb.counter + 2 ^ size_bits - 1) % 2 ^ size_bits }))
      pure (true, s.content)

    -- The parameter `data` is handed in and out.
    unfoldable pub pop : (spurious : Bool) → V → Command (RingBuffer V) (Bool × V)
    pop spurious item = do
      ndx ← advance_read
      if ltb items ndx then pure (false, item) else do
        s ← get_slot (index_of ndx)
        if is_full s.status && not spurious then read_slot (index_of ndx) s else pure (false, item)
