-- ===== src/Queue/PopProgress.antt =====
-- `pop` of the `lockfree` queue, include/queue.h, ends and keeps the sequence of the items,
-- for every arena that keeps the laws of `NodeArena`, with no other thread between.
use lock_free.Common.{
  ℕ, suc, ◌≤◌, ◌≡◌, refl, ◌≢◌, Bool, true, false, some, List, [], ◌∷◌, arith, ◌==◌, ne→==, length,
  ◌∙◌, sym, count_calm,
}
use lock_free.Types.{Result, success, empty}
use lock_free.Command.{◌>>=◌, Returns, returns, bind, mono}
use lock_free.MemoryAddress.{null}
use lock_free.NodeArena.{NodeArena, Valid-live}
use lock_free.NodeArena.Chain.{Cells, live_of, last_ptr, Chain, frame, Chain-null, Chain-cons}
use lock_free.Queue.Ops.{Queue, in_arena, destroy_node}
use lock_free.Queue.Locks.{lift}
use lock_free.Queue.LockFree.{exchange_head, take_head, pop_imp_lockfree}
use lock_free.Queue.Progress.{Linked, HoldsLoose}

module _ {V : Type 0} (arena : NodeArena V) where
  open arena use {State, node, Valid, Ready}

  abbrev pub DequeuedLoose : V → List V → Result × V → Queue State → Type 0
  DequeuedLoose v [] r q' = (r ≡ (empty, v)) × HoldsLoose arena q' []
  DequeuedLoose v (x ∷ vs) r q' = (r ≡ (success, x)) × HoldsLoose arena q' vs

  -- The tail when the first node is gone.
  tail_left :
      (p : ℕ) (v : V) (xs : Cells V) (q q' : Queue State)
      → Linked arena q ((p, v) ∷ xs)
      → q'.tail ≡ q.tail
      → Chain (node q'.nodes) q'.head xs
      → q'.head ≢ null
      → q'.tail ≡ last_ptr xs
  tail_left p v [] q q' i t ch n = absurd (n (Chain-null ch))
  tail_left p v (c ∷ xs) q q' i t ch n =
      let (h, p_ne, _, _, _) = Chain-cons i.chain in t ∙ i.last (λ z. p_ne (sym h ∙ z))

  exchange_head-fails : (q : Queue State) (d : ℕ) → exchange_head true q.head d q ≡ some (false, q)
  unfolding exchange_head
  exchange_head-fails q d = let e : (q.head == q.head) ≡ true = ground arith in rw e refl

  exchange_head-stores :
      (q : Queue State) (d : ℕ)
      → exchange_head false q.head d q ≡ some (true, record q { head = d })
  unfolding exchange_head
  exchange_head-stores q d = let e : (q.head == q.head) ≡ true = ground arith in rw e refl

  take_head_lem :
      (p : ℕ) (v : V) (xs : Cells V) (q : Queue State)
      → Linked arena q ((p, v) ∷ xs)
      → Returns {B = Result × V}
          (λ r q'. (r ≡ (success, v)) × Linked arena q' xs)
          (take_head arena p (record q { head = (node q.nodes p).next }))
  unfolding take_head destroy_node
  take_head_lem p v xs q i =
      let (_, _, at_v, out, rest) = Chain-cons i.chain in
      let on = live_of ((p, v) ∷ xs) in
      let s0 = arena.set_next p null q.nodes in
      let q1 = record q { head = (node q.nodes p).next; nodes = s0 } in
      let (val0, _, same0) =
        arena.set_next_law q.nodes on (suc (length xs)) p null i.valid (ground arith) in
      bind _ (in_arena (arena.deallocate p)) q1
        (lift (arena.deallocate p) q1
          (arena.deallocate_law p s0 on (length xs) val0 (ground arith)))
        (λ code q2 (s, (ok, val, same), at).
          let answer : ((code, (node q.nodes p).value) ≡ (success, v)) = rw (ok, at_v) refl in
          let q3 = record q1 { nodes = s } in
          let ch : Chain (node s) q1.head xs = frame rest (λ b l.
            same b (ground (arith, l, out))
            ∙ same0 b (ground (arith, l)) (ground (arith, l, out))) in
          let i3 : Linked arena q3 xs = record {
            mutex = i.mutex;
            valid = Valid-live arena (λ b. ground (arith, out)) val;
            chain = ch;
            last = tail_left p v xs q q3 i refl ch;
          } in
          rw at (returns (answer, i3)))

  -- Over any arena of nodes that keeps the laws of `NodeArena`, with no other thread between: on a
  -- queue that holds `vs`, whose `_tail` may lead to a node that is gone when `vs` is empty, the
  -- lock-free `pop` returns when one round of its loop at least does not fail for no reason; if
  -- `vs` is empty, the code is empty and `data` is as it was, and otherwise the code is success,
  -- `data` is the first item and the queue holds the rest.
  pub pop_imp_lockfree-DequeuedLoose :
      (rounds : List Bool) (q : Queue State) (vs : List V) (v : V)
      → 1 ≤ count_calm rounds
      → HoldsLoose arena q vs
      → Returns (DequeuedLoose v vs) (pop_imp_lockfree arena rounds v q)
  unfolding pop_imp_lockfree
  pop_imp_lockfree-DequeuedLoose [] q vs v enough _ = absurd (omega arith)
  pop_imp_lockfree-DequeuedLoose (b ∷ rounds) q vs v enough ([], i, e) =
      let test : ((q.head == null) ≡ true) = rw (Chain-null i.chain) refl in
      rw (test, sym e) (returns (refl, ([], i, refl)))
  pop_imp_lockfree-DequeuedLoose (true ∷ rounds) q vs v enough ((p, u) ∷ xs, i, e) =
      let (h, p_ne, _, _, _) = Chain-cons i.chain in
      rw
        (
          ne→== q.head null (λ z. p_ne (sym h ∙ z)),
          ◌>>=◌,
          exchange_head-fails q (node q.nodes q.head).next,
        )
        (pop_imp_lockfree-DequeuedLoose rounds q vs v enough ((p, u) ∷ xs, i, e))
  pop_imp_lockfree-DequeuedLoose (false ∷ rounds) q vs v enough ((p, u) ∷ xs, i, e) =
      let (h, p_ne, _, _, _) = Chain-cons i.chain in
      rw
        (
          ne→== q.head null (λ z. p_ne (sym h ∙ z)),
          ◌>>=◌,
          exchange_head-stores q (node q.nodes q.head).next,
          h,
          sym e,
        )
        (mono (take_head_lem p u xs q i) (λ r q' (answer, i'). returns (answer, (xs, i', refl))))
