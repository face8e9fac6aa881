-- ===== src/RingBuffer.antt =====
-- `ring_buffer` of include/ring_buffer.h. Calls that run alone: `Ops` has the operations, `Contents`
-- the items in the slots, `Refine` what the operations do to them. Calls of threads that interleave:
-- `Threads` has the steps, `Range` the indices of the array, `Owned` the thread that a busy slot belongs to, `Replays` an array of
-- places for items, `Linear` what the steps do to both, `Runs` the runs.
pub mod Ops
pub mod Contents
pub mod Refine
pub mod Threads
pub mod Range
pub mod Owned
pub mod Replays
pub mod Linear
pub mod Runs
