-- ===== src/Lib.antt =====
-- A library of lock-free and thread safe data structures: what it does, modelled and proved.
--
-- The program is a set of C++ headers under include/. An arena allocator hands out objects of one
-- type from chunks of slots, a queue and a stack keep their nodes in such an arena, and every type
-- of object has a table of the arenas that live, so that an object finds its arena by the index in
-- its slot.
--
-- How the parts correspond to the code:
--   * Types: include/core/types.h, `result_t`, `ds_impl_t`, `conditional`, `node_t`.
--   * PlugMutex: `plug_mutex` of include/core/types.h and the loop on `try_lock` in the containers.
--   * MemoryAddress: include/core/memory_address.h, a pointer, flags and a counter in bit fields.
--     Each field keeps what is stored in it modulo its width, on 32-bit and on 64-bit machines.
--   * LookupTable: include/core/fixed_lookup_table.h, the table as the list of its entries.
--   * Arena: include/core/arena_allocator.h. `World` is the memory (slots by address), the table of
--     the instances, the arenas by address, and the answers that the system allocator will give.
--     Arena.Slot has the slots, Arena.Core the operations, Arena.Inv the invariant. Counts of type
--     `data_size_t` wrap at its width.
--   * NodeArena: what the containers ask of their arena (the template parameter `arena_t`), as a
--     record of operations and laws. NodeArena.Nodes has the nodes as objects of an allocator;
--     NodeArena.FromCore and NodeArena.FromLockFree fill the record for the two allocators.
--   * Arena.Lifecycle: the constructor, the destructor, the service thread and `is_valid` of
--     include/core/arena_allocator.h; Arena.GrowLoop and Arena.Start are about the constructor,
--     Arena.Finish, Arena.Service and Arena.Valid about the others in this order.
--   * LockFreeArena: include/arena_allocator.h, on the same memory; Ops has the operations,
--     Lifecycle the life of the object, and Threads the loops of `allocate` and `deallocate` as
--     steps of threads that interleave.
--   * Queue, Stack: include/queue.h and include/stack.h; Ops has what `raw`, `mutex` and `spinlock`
--     run and what all kinds share, LockFree what `lockfree` runs.
--   * Stack.Threads, Queue.Threads: the `lockfree` loops of include/stack.h and include/queue.h as
--     steps of threads that interleave.
--   * MultiQueue: include/multi_queue.h, an array of lock-free queues.
--   * UniquePtr: include/core/unique_ptr.h, with the deleted objects as a list.
--   * RingBuffer: include/ring_buffer.h; Ops has the calls that run alone, where the exchange of a
--     slot's status may fail spuriously, which is a parameter of each call, and Threads the steps of
--     threads that interleave.
--   * Mailbox: include/mailbox.h and include/core/event.h, threads that interleave, over a record of
--     the operations and laws of the queue; Mailbox.OverQueue fills it with what
--     `raw`, `mutex` and `spinlock` run. A call on the queue is one step there, which those of the
--     lock-free queue are not.
--   * Factory: include/core/abstract_factory.h, with the tuple helpers of include/core/types.h.
--   * Singleton: include/core/singleton.h, calls one after the other.
--   * Utils: `strtok` of include/core/utils.h on the bytes of the buffer.
--   * ThreadMap: include/core/thread_map.h, the map as an association list.
--   * SpinLock: include/core/mutex.h, threads that interleave step by step.
--   * Semaphore: include/core/semaphore.h, calls in any order; Semaphore.Waiters has the threads that
--     wait.
--   * Tests: the theorems at concrete states.
--
-- A call is a function from a state to a result and a state, or to nothing: a loop on a lock that
-- is held, a failed assertion, a null pointer. A loop of weak exchanges runs over a list, or a
-- count, that says in which rounds an exchange fails for no reason; the list is long enough when
-- it has one round that does not fail so, and two for the push of a queue. The loop of an arena's
-- constructor runs on fuel, which is enough when it exceeds the number of answers the system has
-- left. Every other loop runs over a list or a count of the state.
--
-- The system allocator is a parameter: its next answer is null or a block that overlaps no slot
-- and whose addresses fit the bit field, and one chunk more must still be counted without a wrap
-- (the predicate `Ready`). The compiler's layout is a parameter, too: `Layout` says that an object
-- lies right behind the address word of its slot, as `slot_from_user_data` takes it to. A
-- destructor is recorded, its effects are not modelled. A call through a null entry of the table of
-- the instances has no result. The semaphore of the service thread is a count, for a
-- `std::binary_semaphore` whose `max()`, 1 at least by the standard, is not reached.
--
-- The theorems outside SpinLock, Semaphore, Stack.Linear, Queue.Once, RingBuffer.Runs,
-- LockFreeArena.Runs and Mailbox are about calls that run alone: one thread runs the operation from
-- its start to its end. In Stack.Threads and Queue.Threads no node is given back to the arena, so
-- that no address comes twice; the runs in which the queue loses an item are in Tests.QueueThreads.
-- Each queue of a multi queue has memory of its own.
--
-- Not modelled: chunks that the lock-free allocator adds while other threads allocate, the reuse of
-- nodes under interleaved calls, the clocks and `format` of the utilities, which only call the
-- standard library, the benchmarks and the examples.
pub mod Common
pub mod Types
pub mod Command
pub mod MemoryAddress
pub mod Mailbox
pub mod LookupTable
pub mod Arena
pub mod LockFreeArena
pub mod NodeArena
pub mod PlugMutex
pub mod Queue
pub mod Stack
pub mod Factory
pub mod Singleton
pub mod RingBuffer
pub mod ThreadMap
pub mod SpinLock
pub mod Semaphore
pub mod UniquePtr
pub mod Utils
pub mod MultiQueue
pub mod Tests
