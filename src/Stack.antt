-- ===== src/Stack.antt =====
-- `stack` of include/stack.h over an arena of nodes. `Ops` has what `raw`, `mutex` and `spinlock`
-- run and what all kinds share, `Locks` what calls on the lock and on the arena leave, `Refine` what
-- those operations do to the sequence of the items. `LockFree` has the loops of `lockfree`, about
-- which `Progress` is; `Threads` has them as steps of threads, about which `Consistent` and
-- `Linear` are.
pub mod Ops
pub mod Locks
pub mod Refine
pub mod LockFree
pub mod Progress
pub mod Threads
pub mod Consistent
pub mod Linear
