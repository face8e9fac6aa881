-- ===== src/Queue.antt =====
-- `queue` of include/queue.h over an arena of nodes. `Ops` has what `raw`, `mutex` and `spinlock`
-- run and what all kinds share, `Locks` what calls on the lock and on the arena leave, `Contents`
-- the sequence of the items, `Refine` what those operations do to it. `LockFree` has the loops of
-- `lockfree`, about which `Progress` and `PopProgress` are; `Threads` has them as steps of threads
-- that interleave. `Tidy` has the invariant of those steps, `Stores` and `Taken` what the stores of
-- pushes and of pops leave of it, `Once` the runs.
pub mod Ops
pub mod Locks
pub mod Contents
pub mod Refine
pub mod LockFree
pub mod Progress
pub mod PopProgress
pub mod Threads
pub mod Tidy
pub mod Stores
pub mod Taken
pub mod Once
