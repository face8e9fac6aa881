-- ===== src/Stack/LockFree.antt =====
-- `push` and `pop` of `stack`, include/stack.h, for `lockfree`, as calls with no other thread
-- between. A list says for every round of a loop whether its weak exchange fails although the value
-- is the expected one; a loop that uses the list up has no result.
use lock_free.Common.{ℕ, Bool, true, false, not, ◌&&◌, none, List, [], ◌∷◌, ◌==◌, if◌then◌else◌}
use lock_free.Types.{Result, failure, success, empty, DsImpl, raw, mutex, spinlock, lockfree}
use lock_free.Command.{Command, pure, ◌>>=◌, ◌>>◌}
use lock_free.MemoryAddress.{null}
use lock_free.NodeArena.{NodeArena}
use lock_free.Stack.Ops.{
  Stack, get, put, create_node, destroy_node, push_imp_default, pop_imp_default,
}

module _ {S : Type 0} where
  -- The exchange of `_head`, with whether it stored.
  unfoldable pub exchange_head : (spurious : Bool) (old_head desired : ℕ) → Command (Stack S) Bool
  exchange_head spurious old_head desired = do
    q ← get
    if q.head == old_head && not spurious
        then put (record q { head = desired }) >> pure true
        else pure false

module _ {V : Type 0} (arena : NodeArena V) where
  open arena use {State, node, set_next}

  -- A round of the loop of `_push_imp_lockfree`: whether it ends the loop. `_next` is not written
  -- where the stack is empty.
  unfoldable pub push_round : (spurious : Bool) (new_node : ℕ) → Command (Stack State) Bool
  push_round spurious new_node = do
    q ← get
    (if q.head == null
        then pure tt
        else put (record q { nodes = set_next new_node q.head q.nodes }))
    exchange_head spurious q.head new_node

  unfoldable pub push_loop : List Bool → (new_node : ℕ) → Command (Stack State) (Unit {0})
  push_loop [] new_node = λ q. none
  push_loop (spurious ∷ rounds) new_node = do
    done ← push_round spurious new_node
    if done then pure tt else push_loop rounds new_node

  unfoldable pub push_imp_lockfree : List Bool → V → Command (Stack State) Result
  push_imp_lockfree rounds item = do
    new_node ← create_node arena item
    if new_node == null then pure failure else do push_loop rounds new_node; pure success

  -- What follows the loop of `_pop_imp_lockfree`.
  unfoldable pub take_head : (old_head : ℕ) → Command (Stack State) (Result × V)
  take_head old_head = do
    q ← get
    ret_value ← destroy_node arena old_head
    pure (ret_value, (node q.nodes old_head).value)

  unfoldable pub pop_imp_lockfree : List Bool → V → Command (Stack State) (Result × V)
  pop_imp_lockfree [] item = λ q. none
  pop_imp_lockfree (spurious ∷ rounds) item = do
    q ← get
    if q.head == null then pure (empty, item) else do
      stored ← exchange_head spurious q.head (node q.nodes q.head).next
      if stored then take_head q.head else pop_imp_lockfree rounds item

  unfoldable pub push : DsImpl → List Bool → V → Command (Stack State) Result
  push lockfree rounds item = push_imp_lockfree rounds item
  push raw rounds item = push_imp_default arena raw item
  push mutex rounds item = push_imp_default arena mutex item
  push spinlock rounds item = push_imp_default arena spinlock item

  unfoldable pub pop : DsImpl → List Bool → V → Command (Stack State) (Result × V)
  pop lockfree rounds item = pop_imp_lockfree rounds item
  pop raw rounds item = pop_imp_default arena raw item
  pop mutex rounds item = pop_imp_default arena mutex item
  pop spinlock rounds item = pop_imp_default arena spinlock item
