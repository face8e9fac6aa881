-- ===== src/Tests/LockFree.antt =====
-- The theorems on the lock-free allocator, queue and stack at an allocator with one node in use.
use mathlib.Core.Option.{some-injective}
use lock_free.Common.{ℕ, ◌≡◌, ◌≢◌, sym, ◌∙◌, some, refl, true, false, [], ◌∷◌, arith}
use lock_free.Types.{Node}
use lock_free.Command.{Returns}
use lock_free.MemoryAddress.{null}
use lock_free.LookupTable
use lock_free.Arena.{World}
use lock_free.Arena.Slot.{get_index, slot_from_user_data}
use lock_free.Arena.Deallocate.{guards}
use lock_free.Arena.Core
use lock_free.Arena.Allocate.{Allocated}
use lock_free.NodeArena.{NodeArena}
use lock_free.NodeArena.Chain.{nil, cons, live_of}
use lock_free.NodeArena.FromLockFree.{lock_free_arena}
use lock_free.NodeArena.Nodes.{Valid, node}
use lock_free.LockFreeArena.Ops as LockFreeOps
use lock_free.LockFreeArena.AsCore.{deallocate-same}
use lock_free.LockFreeArena.Refine.{lock_free_allocate-Allocated}
use lock_free.Queue.Ops.{Queue}
use lock_free.Queue.LockFree as QueueLockFree
use lock_free.Queue.Progress.{HoldsLoose, EnqueuedLoose, push_imp_lockfree-EnqueuedLoose}
use lock_free.Queue.PopProgress.{DequeuedLoose, pop_imp_lockfree-DequeuedLoose}
use lock_free.Stack.Ops.{Stack}
use lock_free.Stack.LockFree as StackLockFree
use lock_free.Stack.Refine.{Stacks, Pushed, Popped}
use lock_free.Stack.Progress.{push_imp_lockfree-Pushed, pop_imp_lockfree-Popped}
use lock_free.Tests.Common.{
  config, config-Layout, this, busy_world, cells, busy-Inv, empty_world, empty-Inv, empty-Ready,
}

abbrev pub loose_nodes : NodeArena ℕ
loose_nodes = lock_free_arena (config 0) (config-Layout 0) (omega arith) 1 2 3 this

loose-Valid : Valid (config 0) this busy_world (live_of cells) 1
unfolding Valid
loose-Valid = (busy-Inv, λ a l. ground arith)

-- The tail of an empty queue may be left over.
abbrev pub loose_queue : Queue (World (Node ℕ))
loose_queue = record { nodes = busy_world; head = 4104; tail = 4104; mtx = false }

pub loose_queue-Holds : HoldsLoose loose_nodes loose_queue (7 ∷ [])
unfolding node Valid
loose_queue-Holds = (
  cells,
  record {
    mutex = refl;
    valid = loose-Valid;
    chain = cons (omega arith) refl refl nil;
    last = λ _. refl;
  },
  refl,
)

empty-Valid : Valid (config 0) this empty_world (live_of {V = ℕ} []) 0
unfolding Valid
empty-Valid = (empty-Inv 0, λ a l. cc)

abbrev pub stale_queue : Queue (World (Node ℕ))
stale_queue = record { nodes = empty_world; head = 0; tail = 9000; mtx = false }

pub stale_queue-Holds : HoldsLoose loose_nodes stale_queue []
stale_queue-Holds = (
  [],
  record { mutex = refl; valid = empty-Valid; chain = nil; last = λ n. absurd (n refl) },
  refl,
)

push_imp_lockfree-EnqueuedLoose_example :
    Returns
      (EnqueuedLoose loose_nodes 8 [])
      (QueueLockFree.push_imp_lockfree loose_nodes (true ∷ false ∷ false ∷ []) 8 stale_queue)
push_imp_lockfree-EnqueuedLoose_example =
    push_imp_lockfree-EnqueuedLoose loose_nodes (true ∷ false ∷ false ∷ []) stale_queue [] 8
      (omega arith) stale_queue-Holds (empty-Ready 0)

pop_imp_lockfree-DequeuedLoose_example :
    Returns
      (DequeuedLoose loose_nodes 0 (7 ∷ []))
      (QueueLockFree.pop_imp_lockfree loose_nodes (true ∷ false ∷ []) 0 loose_queue)
pop_imp_lockfree-DequeuedLoose_example =
    pop_imp_lockfree-DequeuedLoose loose_nodes (true ∷ false ∷ []) loose_queue (7 ∷ []) 0
      (omega arith) loose_queue-Holds

abbrev loose_stack : Stack (World (Node ℕ))
loose_stack = record { nodes = busy_world; head = 4104; mtx = false }

loose_stack-Stacks : Stacks loose_nodes loose_stack (7 ∷ [])
unfolding node Valid
loose_stack-Stacks = (
  cells,
  record { mutex = refl; valid = loose-Valid; chain = cons (omega arith) refl refl nil },
  refl,
)

push_imp_lockfree-Pushed_example :
    Returns
      (Pushed loose_nodes 8 (7 ∷ []))
      (StackLockFree.push_imp_lockfree loose_nodes (true ∷ false ∷ []) 8 loose_stack)
push_imp_lockfree-Pushed_example =
    push_imp_lockfree-Pushed loose_nodes (true ∷ false ∷ []) loose_stack (7 ∷ []) 8 (omega arith)
      loose_stack-Stacks tt

pop_imp_lockfree-Popped_example :
    Returns
      (Popped loose_nodes 0 (7 ∷ []))
      (StackLockFree.pop_imp_lockfree loose_nodes (true ∷ false ∷ []) 0 loose_stack)
pop_imp_lockfree-Popped_example =
    pop_imp_lockfree-Popped loose_nodes (true ∷ false ∷ []) loose_stack (7 ∷ []) 0 (omega arith)
      loose_stack-Stacks

lock_free_allocate-Allocated_example :
    Returns
      (Allocated (config 0) this false (λ _. false) 0 (record { value = 5; next = 0 }) empty_world)
      (LockFreeOps.allocate (config 0) 1 2 this (record { value = 5; next = 0 }) empty_world)
lock_free_allocate-Allocated_example =
    lock_free_allocate-Allocated (config 0) (config-Layout 0) this 1 2
      (record { value = 5; next = 0 }) (empty-Inv 0) (empty-Ready 0)

-- The entry of the allocator of the slot 4096, whose object is at 4104.
busy_entry :
    LookupTable.at busy_world.instances_table
      (get_index (busy_world.mem (slot_from_user_data 4104)))
    ≢ some null
busy_entry e =
    let (_, _, _, found) = guards (config 0) (config-Layout 0) this busy-Inv 4096 refl in
    let at_null : this ≡ null = some-injective this null (sym found ∙ e) in absurd (omega arith)

deallocate-same_example :
    (LockFreeOps.deallocate (config 0) 3 4104 busy_world
      ≡ Core.unsafe_deallocate (config 0) 4104 busy_world)
    × (LockFreeOps.unsafe_deallocate (config 0) 4104 busy_world
        ≡ Core.unsafe_deallocate (config 0) 4104 busy_world)
deallocate-same_example = deallocate-same (config 0) 3 4104 busy_world busy_entry
