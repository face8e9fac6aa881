-- ===== src/LockFreeArena.antt =====
-- `lock_free::arena_allocator` of include/arena_allocator.h, calls that run alone. Its slots and its
-- fields are those of Arena; `mtx_next` stands for `_mtx_mem_chunks`. `Ops` has the operations,
-- `Lifecycle` the life of the object; `Same` is about its loops, `ChunkSame` and `AsCore` set the
-- operations beside those of `core::arena_allocator`, `Refine` says what they do.
pub mod Ops
pub mod Same
pub mod ChunkSame
pub mod AsCore
pub mod Refine
pub mod Lifecycle
pub mod Threads
pub mod Held
pub mod Linear
pub mod Runs
