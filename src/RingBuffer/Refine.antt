-- ===== src/RingBuffer/Refine.antt =====
-- What the operations of `ring_buffer`, include/ring_buffer.h, do to the items held: calls that run
-- alone.
use lock_free.Common.{
  ℕ, suc, ◌^◌, ◌<◌, ◌≡◌, Bool, true, false, not, ◌&&◌, [], leb, length, length-replicate, ap, sym,
}
use lock_free.RingBuffer.Ops.{is_empty, is_full, RingBuffer, index_of, next_index, create}
use lock_free.RingBuffer.Contents.{contents, Inserted, slot_is, contents-replicate}

module _ (items size_bits : ℕ) where
  -- There are `items` slots, the counter is the number of the items, and the counts do not wrap.
  pub record IsRing {V : Type 0} (rb : RingBuffer V) : Type 0 where
    pub slots : length rb.array ≡ items
    pub count : rb.counter ≡ length (contents rb.array)
    pub bound : suc items < 2 ^ size_bits

  -- A push adds the item to the items if it says so, and else leaves the slots alone; it says so
  -- where the index has a slot that is empty.
  pub record Stored {V : Type 0} (spurious : Bool) (item : V) (rb : RingBuffer V) (done : Bool)
      (rb' : RingBuffer V) : Type 0 where
    pub ring : IsRing rb'
    pub answer : done ≡ (
        leb rb.ndx_write items
        && (slot_is is_empty rb.array (index_of items size_bits rb.ndx_write) && not spurious))
    pub added : done ≡ true → Inserted item (contents rb.array) (contents rb'.array)
    pub kept : done ≡ false → rb'.array ≡ rb.array
    pub index : rb'.ndx_write ≡ next_index items size_bits rb.ndx_write

  -- A pop takes an item out of the items if it says so, and else leaves the slots and `data` alone;
  -- it says so where the index has a slot that is full.
  pub record Fetched {V : Type 0} (spurious : Bool) (item : V) (rb : RingBuffer V) (out : Bool × V)
      (rb' : RingBuffer V) : Type 0 where
    pub ring : IsRing rb'
    pub answer : out.0 ≡ (
        leb rb.ndx_read items
        && (slot_is is_full rb.array (index_of items size_bits rb.ndx_read) && not spurious))
    pub removed : out.0 ≡ true → Inserted out.1 (contents rb'.array) (contents rb.array)
    pub kept : out.0 ≡ false → (rb'.array ≡ rb.array) × (out.1 ≡ item)
    pub index : rb'.ndx_read ≡ next_index items size_bits rb.ndx_read

  -- If one more than the number of slots does not wrap, the constructor makes a buffer of that
  -- number of slots that holds no items, and its counter is their number.
  pub create-IsRing :
      {V : Type 0} (default : V)
      → suc items < 2 ^ size_bits
      → IsRing (create items size_bits default)
        × (contents (create items size_bits default).array ≡ [])
  unfolding create
  create-IsRing default b =
      let none_full = contents-replicate items default in
      (
        record { slots = length-replicate items _; count = sym (ap length none_full); bound = b },
        none_full,
      )
