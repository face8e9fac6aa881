-- ===== src/Stack/Ops.antt =====
-- The operations of `stack`, include/stack.h, for `raw`, `mutex` and `spinlock`, and those that all share.
use lock_free.Common.{ℕ, Bool, false, none, some, ◌==◌, if◌then◌else◌}
use lock_free.Types.{Result, failure, success, empty, DsImpl}
use lock_free.Command.{Command, pure, ◌>>=◌, ◌>>◌}
use lock_free.MemoryAddress.{null}
use lock_free.PlugMutex
use lock_free.NodeArena.{NodeArena}

-- `_arena`, `_head` and `_mtx[0]`
pub record Stack (S : Type 0) : Type 0 where
  pub nodes : S
  pub head : ℕ
  pub mtx : Bool

module _ {S : Type 0} where
  abbrev pub in_arena : {B : Type 0} → Command S B → Command (Stack S) B
  in_arena m q = elim (m q.nodes) [ none ↦ none | some (b, s) ↦ some (b, record q { nodes = s }) ]

  abbrev pub on_mutex : {B : Type 0} → Command Bool B → Command (Stack S) B
  on_mutex m q = elim (m q.mtx) [ none ↦ none | some (b, h) ↦ some (b, record q { mtx = h }) ]

  abbrev pub get : Command (Stack S) (Stack S)
  get q = some (q, q)

  abbrev pub put : Stack S → Command (Stack S) (Unit {0})
  put q' q = some (tt, q')

  unfoldable pub lock : DsImpl → Command (Stack S) Result
  lock imp = on_mutex (PlugMutex.lock imp)

  unfoldable pub unlock : DsImpl → Command (Stack S) Result
  unlock imp = on_mutex (PlugMutex.unlock imp)

module _ {V : Type 0} (arena : NodeArena V) where
  open arena use {State, node, set_next, allocate, deallocate}

  -- `stack()` on a fresh arena.
  unfoldable pub create : State → Stack State
  create s = record { nodes = s; head = null; mtx = false }

  unfoldable pub create_node : V → Command (Stack State) ℕ
  create_node item = in_arena (allocate item)

  unfoldable pub destroy_node : ℕ → Command (Stack State) Result
  destroy_node a = in_arena (deallocate a)

  -- The branch of `_push_imp_default` with a node.
  unfoldable pub link : ℕ → Command (Stack State) (Unit {0})
  link new_node q =
      some (tt, record q { nodes = set_next new_node q.head q.nodes; head = new_node })

  unfoldable pub push_imp_default : DsImpl → V → Command (Stack State) Result
  push_imp_default imp item = do
    _ ← lock imp
    new_node ← create_node item
    ret_value ← (if new_node == null then pure failure else do link new_node; pure success)
    _ ← unlock imp
    pure ret_value

  -- The branch of `_pop_imp_default` with a head: the code of `destroy_node` and the value.
  unfoldable pub unlink : Command (Stack State) (Result × V)
  unlink = do
    q ← get
    let first_node = q.head
    put (record q { head = (node q.nodes first_node).next })
    ret_value ← destroy_node first_node
    pure (ret_value, (node q.nodes first_node).value)

  -- The parameter `data` is handed in and out.
  unfoldable pub pop_imp_default : DsImpl → V → Command (Stack State) (Result × V)
  pop_imp_default imp item = do
    _ ← lock imp
    q ← get
    ret ← (if q.head == null then pure (empty, item) else unlink)
    _ ← unlock imp
    pure ret

  unfoldable pub size_imp : DsImpl → Command (Stack State) ℕ
  size_imp imp = do _ ← lock imp; ret_value ← in_arena arena.length; _ ← unlock imp; pure ret_value

  unfoldable pub empty_imp : DsImpl → Command (Stack State) Bool
  unfolding size_imp
  empty_imp imp = do n ← size_imp imp; pure (n == 0)

  unfoldable pub clear : Command (Stack State) (Unit {0})
  clear = do q ← get; put (record q { head = null }); in_arena arena.clear
