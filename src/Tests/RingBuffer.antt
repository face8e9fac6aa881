-- ===== src/Tests/RingBuffer.antt =====
-- The theorems on the ring buffer at buffers of three slots.
use lock_free.Common.{ℕ, [], ◌∷◌}
use lock_free.RingBuffer.Ops.{RingBuffer, empty, full, create}

-- Two items; the write index is at the end of the array.
abbrev two_items : RingBuffer ℕ
two_items = record {
  array =
      record { status = empty; content = 0 }
      ∷ record { status = full; content = 8 }
      ∷ record { status = full; content = 9 }
      ∷ [];
  ndx_write = 3;
  ndx_read = 1;
  counter = 2;
}

abbrev no_items : RingBuffer ℕ
no_items = create 3 32 0
