-- ===== src/Tests/Containers.antt =====
-- The theorems on the queue and the stack at an allocator with one node in use, and without nodes.
use lock_free.Common.{ℕ, refl, false, [], ◌∷◌, arith}
use lock_free.Types.{Node, spinlock}
use lock_free.Command.{Returns}
use lock_free.Arena.{World}
use lock_free.NodeArena.{NodeArena}
use lock_free.NodeArena.Chain.{nil, cons, live_of}
use lock_free.NodeArena.FromCore.{core_arena}
use lock_free.NodeArena.Nodes.{Valid, node}
use lock_free.Queue.Ops.{Queue}
use lock_free.Queue.Ops as QueueOps
use lock_free.Stack.Ops.{Stack}
use lock_free.Stack.Ops as StackOps
use lock_free.Queue.Contents.{Holds}
use lock_free.Queue.Refine.{Enqueued, Dequeued, push_imp_default-Enqueued, pop_imp_default-Dequeued}
use lock_free.Stack.Refine.{Stacks, Pushed, Popped, push_imp_default-Pushed, pop_imp_default-Popped}
use lock_free.Tests.Common.{config, config-Layout, this, busy_world, cells, busy-Inv}

abbrev pub nodes : NodeArena ℕ
nodes = core_arena (config 0) (config-Layout 0) this

busy-Valid : Valid (config 0) this busy_world (live_of cells) 1
unfolding Valid
busy-Valid = (busy-Inv, λ a l. ground arith)

abbrev pub one_item : Queue (World (Node ℕ))
one_item = record { nodes = busy_world; head = 4104; tail = 4104; mtx = false }

pub one_item-Holds : Holds nodes one_item (7 ∷ [])
unfolding node Valid
one_item-Holds = (
  cells,
  record {
    mutex = refl;
    valid = busy-Valid;
    chain = cons (omega arith) refl refl nil;
    last = refl;
  },
  refl,
)

pub one_item-Ready : nodes.Ready busy_world
one_item-Ready = tt

push_imp_default-Enqueued_example :
    Returns (Enqueued nodes 8 (7 ∷ [])) (QueueOps.push_imp_default nodes spinlock 8 one_item)
push_imp_default-Enqueued_example =
    push_imp_default-Enqueued nodes spinlock one_item (7 ∷ []) 8 one_item-Holds one_item-Ready

pop_imp_default-Dequeued_example :
    Returns (Dequeued nodes 0 (7 ∷ [])) (QueueOps.pop_imp_default nodes spinlock 0 one_item)
pop_imp_default-Dequeued_example =
    pop_imp_default-Dequeued nodes spinlock one_item (7 ∷ []) 0 one_item-Holds

abbrev one_stacked : Stack (World (Node ℕ))
one_stacked = record { nodes = busy_world; head = 4104; mtx = false }

one_stacked-Stacks : Stacks nodes one_stacked (7 ∷ [])
unfolding node Valid
one_stacked-Stacks = (
  cells,
  record { mutex = refl; valid = busy-Valid; chain = cons (omega arith) refl refl nil },
  refl,
)

push_imp_default-Pushed_example :
    Returns (Pushed nodes 8 (7 ∷ [])) (StackOps.push_imp_default nodes spinlock 8 one_stacked)
push_imp_default-Pushed_example =
    push_imp_default-Pushed nodes spinlock one_stacked (7 ∷ []) 8 one_stacked-Stacks one_item-Ready

pop_imp_default-Popped_example :
    Returns (Popped nodes 0 (7 ∷ [])) (StackOps.pop_imp_default nodes spinlock 0 one_stacked)
pop_imp_default-Popped_example =
    pop_imp_default-Popped nodes spinlock one_stacked (7 ∷ []) 0 one_stacked-Stacks
