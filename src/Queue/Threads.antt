-- ===== src/Queue/Threads.antt =====
-- The loops of the `lockfree` queue, include/queue.h, run by any number of threads that interleave
-- step by step: a load, a store or an exchange at a time. A thread does one `push` of a node that
-- it has allocated, or one `pop`. Nodes are not given back in a run, so that no address comes
-- twice; memory orders are not modelled.
use lock_free.Common.{
  ℕ, Bool, not, ◌&&◌, Option, none, some, List, [], ◌∷◌, ◌==◌, if◌then◌else◌, update,
}
use lock_free.MemoryAddress.{null}
use lock_free.Types.{Node}

-- Where a thread stands, with what it has read.
pub data Caller : Type 0 where
  push_load_tail : Caller
  push_load_head push_clear push_next push_append : (old_tail : ℕ) → Caller
  push_install : (old_head : ℕ) → Caller
  push_set_head push_set_tail : Caller
  pop_load : Caller
  pop_next pop_clear : (old_head : ℕ) → Caller
  pop_swap : (old_head old_head_next : ℕ) → Caller
  finished : Caller

-- The calls, in the order in which they return; a `pop` with the node that it took.
pub data Returned (V : Type 0) : Type 0 where
  pushed : V → Returned V
  popped : (node : ℕ) → V → Returned V
  found_empty : Returned V

-- `own` is the node that a thread pushes.
pub record SharedQueue (V : Type 0) : Type 0 where
  pub head : ℕ
  pub tail : ℕ
  pub node : ℕ → Node V
  pub own : ℕ → ℕ
  pub caller : ℕ → Caller

-- What a `push` does after it has loaded the tail and the head.
unfoldable pub push_branch : (old_tail old_head : ℕ) → Caller
push_branch old_tail old_head =
    if old_head == null && not (old_tail == null)
    then push_clear old_tail
    else (if old_tail == null then push_install old_head else push_next old_tail)

module _ {V : Type 0} where
  abbrev pub goto : (t : ℕ) → Caller → SharedQueue V → SharedQueue V
  goto t c q = record q { caller = update q.caller t c }

  unfoldable pub set_next : (p next : ℕ) → SharedQueue V → ℕ → Node V
  set_next p next q = update q.node p (record (q.node p) { next = next })

  unfoldable pub own_value : ℕ → SharedQueue V → V
  own_value t q = (q.node (q.own t)).value

  -- The next step of thread `t`, which stands at the last argument; `spurious` says whether a weak
  -- exchange fails although the value is the expected one.
  unfoldable pub caller_step :
      (spurious : Bool) (t : ℕ) (q : SharedQueue V) → Caller → Option (Returned V) × SharedQueue V
  caller_step spurious t q push_load_tail = (none, goto t (push_load_head q.tail) q)
  caller_step spurious t q (push_load_head old_tail) =
      (none, goto t (push_branch old_tail q.head) q)
  caller_step spurious t q (push_clear old_tail) =
      if q.tail == old_tail && not spurious
      then (none, record (goto t push_load_tail q) { tail = null })
      else (none, goto t push_load_tail q)
  caller_step spurious t q (push_install old_head) =
      if q.tail == null && not spurious
      then (if old_head == null
          then (none, record (goto t push_set_head q) { tail = q.own t })
          else (some (pushed (own_value t q)), record (goto t finished q) { tail = q.own t }))
      else (none, goto t push_load_tail q)
  caller_step spurious t q push_set_head =
      if q.head == null
      then (some (pushed (own_value t q)), record (goto t finished q) { head = q.own t })
      else (some (pushed (own_value t q)), goto t finished q)
  caller_step spurious t q (push_next old_tail) =
      if (q.node old_tail).next == null
      then (none, goto t (push_append old_tail) q)
      else (none, goto t push_load_tail q)
  caller_step spurious t q (push_append old_tail) =
      if (q.node old_tail).next == null && not spurious
      then (none, record (goto t push_set_tail q) { node = set_next old_tail (q.own t) q })
      else (none, goto t push_load_tail q)
  caller_step spurious t q push_set_tail =
      (some (pushed (own_value t q)), record (goto t finished q) { tail = q.own t })
  caller_step spurious t q pop_load =
      if q.head == null
      then (some found_empty, goto t finished q)
      else (none, goto t (pop_next q.head) q)
  caller_step spurious t q (pop_next old_head) =
      (none, goto t (pop_swap old_head (q.node old_head).next) q)
  caller_step spurious t q (pop_swap old_head old_head_next) =
      if q.head == old_head && not spurious
      then (none, record (goto t (pop_clear old_head) q) { head = old_head_next })
      else (none, goto t pop_load q)
  caller_step spurious t q (pop_clear old_head) = (
    some (popped old_head (q.node old_head).value),
    record (goto t finished q) { node = set_next old_head null q },
  )
  caller_step spurious t q finished = (none, q)

  unfoldable pub add_return : Option (Returned V) → List (Returned V) → List (Returned V)
  add_return none rs = rs
  add_return (some r) rs = r ∷ rs

  -- A run: which thread moves next, and whether its exchange fails for no reason.
  unfoldable pub run_callers : List (ℕ × Bool) → SharedQueue V → List (Returned V) × SharedQueue V
  unfolding caller_step add_return
  run_callers [] q = ([], q)
  run_callers ((t, spurious) ∷ moves) q =
      let (r, q1) = caller_step spurious t q (q.caller t) in
      let (rs, q2) = run_callers moves q1 in (add_return r rs, q2)
