-- ===== src/Stack/Threads.antt =====
-- The loops of the `lockfree` stack, include/stack.h, run by any number of threads that interleave
-- step by step: a load, a store or an exchange at a time. A thread does one `push` of a node that
-- it has allocated, or one `pop`. Nodes are not given back in a run, so that no address comes
-- twice; memory orders are not modelled.
use lock_free.Common.{
  ℕ, Bool, not, ◌&&◌, Option, none, some, List, [], ◌∷◌, ◌==◌, if◌then◌else◌, update,
}
use lock_free.MemoryAddress.{null}
use lock_free.Types.{Node}

-- Where a thread stands, with what it has read.
pub data Thread : Type 0 where
  push_load : Thread
  push_link push_swap : (old_head : ℕ) → Thread
  pop_load : Thread
  pop_next : (old_head : ℕ) → Thread
  pop_swap : (old_head new_head : ℕ) → Thread
  finished : Thread

-- The calls in the order in which they take effect.
pub data Event (V : Type 0) : Type 0 where
  pushed popped : V → Event V
  found_empty : Event V

-- `own` is the node that a thread pushes.
pub record Shared (V : Type 0) : Type 0 where
  pub head : ℕ
  pub node : ℕ → Node V
  pub own : ℕ → ℕ
  pub thread : ℕ → Thread

module _ {V : Type 0} where
  abbrev pub goto : (t : ℕ) → Thread → Shared V → Shared V
  goto t th s = record s { thread = update s.thread t th }

  -- `new_node->_next.store( old_head )`, unless there is no head.
  unfoldable pub link_own : (t old_head : ℕ) → Shared V → ℕ → Node V
  link_own t old_head s =
      if old_head == null
      then s.node
      else update s.node (s.own t) (record (s.node (s.own t)) { next = old_head })

  -- The next step of thread `t`, which stands at the last argument; `spurious` says whether a weak
  -- exchange fails although the value is the expected one.
  unfoldable pub act :
      (spurious : Bool) (t : ℕ) (s : Shared V) → Thread → Option (Event V) × Shared V
  act spurious t s push_load = (none, goto t (push_link s.head) s)
  act spurious t s (push_link old_head) =
      (none, record (goto t (push_swap old_head) s) { node = link_own t old_head s })
  act spurious t s (push_swap old_head) =
      if s.head == old_head && not spurious
      then (some (pushed (s.node (s.own t)).value), record (goto t finished s) { head = s.own t })
      else (none, goto t push_load s)
  act spurious t s pop_load =
      if s.head == null
      then (some found_empty, goto t finished s)
      else (none, goto t (pop_next s.head) s)
  act spurious t s (pop_next old_head) = (none, goto t (pop_swap old_head (s.node old_head).next) s)
  act spurious t s (pop_swap old_head new_head) =
      if s.head == old_head && not spurious
      then (some (popped (s.node old_head).value), record (goto t finished s) { head = new_head })
      else (none, goto t pop_load s)
  act spurious t s finished = (none, s)

  unfoldable pub log : Option (Event V) → List (Event V) → List (Event V)
  log none es = es
  log (some e) es = e ∷ es

  -- A run: which thread moves next, and whether its exchange fails for no reason.
  unfoldable pub run : List (ℕ × Bool) → Shared V → List (Event V) × Shared V
  unfolding act log
  run [] s = ([], s)
  run ((t, spurious) ∷ moves) s =
      let (e, s1) = act spurious t s (s.thread t) in let (es, s2) = run moves s1 in (log e es, s2)
