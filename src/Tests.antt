-- ===== src/Tests.antt =====
-- Concrete states of the allocator and of the containers on it, and the theorems at them.
pub mod Common
pub mod Arena
pub mod Containers
pub mod LockFree
pub mod Lifecycle
pub mod RingBuffer
pub mod RingThreads
pub mod ArenaThreads
pub mod ThreadMap
pub mod SpinLock
pub mod Semaphore
pub mod UniquePtr
pub mod Utils
pub mod Mailbox
pub mod Factories
pub mod Threads
pub mod QueueThreads
pub mod MultiQueue
