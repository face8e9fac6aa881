-- ===== src/Stack/Progress.antt =====
-- `push` and `pop` of the `lockfree` stack, include/stack.h, end and keep the sequence of the items,
-- for every arena that keeps the laws of `NodeArena`, with no other thread between.
use lock_free.Common.{
  ℕ, suc, ◌≤◌, ◌≡◌, refl, ◌≢◌, ◌⊎◌, inl, inr, Bool, true, false, some, List, [], ◌∷◌, arith, ◌==◌,
  ne→==, if◌then◌else◌, length, update, ◌∙◌, ap, sym, Bool-cases, count_calm,
}
use lock_free.Types.{Result, failure, success, Node}
use lock_free.Command.{pure, ◌>>=◌, Returns, returns, bind, mono}
use lock_free.MemoryAddress.{null}
use lock_free.NodeArena.{NodeArena, Valid-live, SameNodes}
use lock_free.NodeArena.Chain.{Cells, values, live_of, Chain, cons, frame, Chain-null, Chain-cons}
use lock_free.Stack.Ops.{Stack, in_arena, create_node, destroy_node}
use lock_free.Stack.Locks.{lift}
use lock_free.Stack.Refine.{IsStack, Stacks, Pushed, Popped, rest-IsStack}
use lock_free.Stack.LockFree.{
  exchange_head, push_round, push_loop, push_imp_lockfree, take_head, pop_imp_lockfree,
}

module _ {S : Type 0} (q : Stack S) (desired : ℕ) where
  exchange_head-fails : exchange_head true q.head desired q ≡ some (false, q)
  unfolding exchange_head
  exchange_head-fails = let e : (q.head == q.head) ≡ true = ground arith in rw e refl

  exchange_head-stores :
      exchange_head false q.head desired q ≡ some (true, record q { head = desired })
  unfolding exchange_head
  exchange_head-stores = let e : (q.head == q.head) ≡ true = ground arith in rw e refl

module _ {V : Type 0} (arena : NodeArena V) where
  open arena use {State, node, Valid, Ready}

  -- The stack holds `xs`, and the node `a`, which no chain has yet, may be the next one.
  record Offered (q : Stack State) (xs : Cells V) (a : ℕ) (v : V) : Type 0 where
    mutex : q.mtx ≡ false
    valid : Valid q.nodes (update (live_of xs) a true) (suc (length xs))
    chain : Chain (node q.nodes) q.head xs
    ne_null : a ≢ null
    out : live_of xs a ≡ false
    value : (node q.nodes a).value ≡ v
    bare : q.head ≡ null → (node q.nodes a).next ≡ null

  -- What the write of `_next` makes of it.
  Offered-next :
      (q : Stack State) (xs : Cells V) (a : ℕ) (v : V)
      → Offered q xs a v
      → q.head ≢ null
      → let q' = record q { nodes = arena.set_next a q.head q.nodes } in
        Offered q' xs a v × ((node q'.nodes a).next ≡ q.head)
  Offered-next q xs a v o ne =
      let (val, at_a, same) =
        arena.set_next_law q.nodes (update (live_of xs) a true) (suc (length xs)) a q.head o.valid
          (ground arith) in
      let next_a = ap (λ (n : Node V). n.next) at_a in
      (
        record {
          mutex = o.mutex;
          valid = val;
          chain = frame o.chain (λ b l. same b (ground (arith, l)) (ground (arith, l, o.out)));
          ne_null = o.ne_null;
          out = o.out;
          value = ap (λ (n : Node V). n.value) at_a ∙ o.value;
          bare = λ e. absurd (ne e);
        },
        next_a,
      )

  -- The node becomes the head.
  Offered-head :
      (q : Stack State) (xs : Cells V) (a : ℕ) (v : V)
      → Offered q xs a v
      → (node q.nodes a).next ≡ q.head
      → IsStack arena false (record q { head = a }) ((a, v) ∷ xs)
  Offered-head q xs a v o e = record {
    mutex = o.mutex;
    valid = Valid-live arena (λ b. ground arith) o.valid;
    chain =
        cons o.ne_null
          (ap (λ x. record { value = x; next = (node q.nodes a).next }) o.value
            ∙ ap (λ n. record { value = v; next = n }) e)
          o.out o.chain;
  }

  push_round-fails :
      (q : Stack State) (xs : Cells V) (a : ℕ) (v : V)
      → Offered q xs a v
      → Returns (λ done q'. (done ≡ false) × Offered q' xs a v) (push_round arena true a q)
  unfolding push_round
  push_round-fails q xs a v o = elim (Bool-cases (q.head == null)) [
    | inl e ↦ rw (e, ◌>>=◌, exchange_head-fails q a) (returns (refl, o))
    | inr n ↦
        let q' = record q { nodes = arena.set_next a q.head q.nodes } in
        rw (n, ◌>>=◌, exchange_head-fails q' a)
          (returns (refl, (Offered-next q xs a v o (ground (arith, n))).0))
  ]

  push_round-stores :
      (q : Stack State) (xs : Cells V) (a : ℕ) (v : V)
      → Offered q xs a v
      → Returns
          (λ done q'. (done ≡ true) × IsStack arena false q' ((a, v) ∷ xs))
          (push_round arena false a q)
  unfolding push_round
  push_round-stores q xs a v o = elim (Bool-cases (q.head == null)) [
    | inl e ↦
        let h : q.head ≡ null = ground (arith, e) in
        rw (e, ◌>>=◌, exchange_head-stores q a)
          (returns (refl, Offered-head q xs a v o (o.bare h ∙ sym h)))
    | inr n ↦
        let q' = record q { nodes = arena.set_next a q.head q.nodes } in
        let (o', e) = Offered-next q xs a v o (ground (arith, n)) in
        rw (n, ◌>>=◌, exchange_head-stores q' a) (returns (refl, Offered-head q' xs a v o' e))
  ]

  push_loop-IsStack :
      (rounds : List Bool) (q : Stack State) (xs : Cells V) (a : ℕ) (v : V)
      → 1 ≤ count_calm rounds
      → Offered q xs a v
      → Returns (λ _ q'. IsStack arena false q' ((a, v) ∷ xs)) (push_loop arena rounds a q)
  unfolding push_loop
  push_loop-IsStack [] q xs a v some_calm o = absurd (omega arith)
  push_loop-IsStack (true ∷ rounds) q xs a v some_calm o =
      bind _ (push_round arena true a) q (push_round-fails q xs a v o)
        (λ done q' (e, o'). rw e (push_loop-IsStack rounds q' xs a v some_calm o'))
  push_loop-IsStack (false ∷ rounds) q xs a v some_calm o =
      bind _ (push_round arena false a) q (push_round-stores q xs a v o)
        (λ done q' (e, i). rw e (returns i))

  -- `push` after the node is asked for.
  lockfree_push_rest :
      (rounds : List Bool) (q : Stack State) (xs : Cells V) (v : V) (a : ℕ) (s : State)
      → 1 ≤ count_calm rounds
      → IsStack arena false q xs
      → ((a ≡ null) × Valid s (live_of xs) (length xs) × SameNodes node (live_of xs) q.nodes s)
        ⊎ ((a ≢ null)
            × (live_of xs a ≡ false)
            × Valid s (update (live_of xs) a true) (suc (length xs))
            × (node s a ≡ record { value = v; next = null })
            × SameNodes node (live_of xs) q.nodes s)
      → Returns (Pushed arena v (values xs)) (
          (if a == null then pure failure else (push_loop arena rounds a >>= λ _. pure success))
            (record q { nodes = s }))
  lockfree_push_rest rounds q xs v a s enough i (inl (e, val, same)) = rw e (
      returns (
        inl
          (refl, (xs, record { mutex = i.mutex; valid = val; chain = frame i.chain same }, refl))))
  lockfree_push_rest rounds q xs v a s enough i (inr (ne, out, val, at_a, same)) =
      rw (ne→== a null ne) (
        bind _ (push_loop arena rounds a) (record q { nodes = s })
          (push_loop-IsStack rounds (record q { nodes = s }) xs a v enough
            (record {
              mutex = i.mutex;
              valid = val;
              chain = frame i.chain same;
              ne_null = ne;
              out = out;
              value = ap (λ (n : Node V). n.value) at_a;
              bare = λ _. ap (λ (n : Node V). n.next) at_a;
            }))
          (λ _ q' i'. returns (inr (refl, ((a, v) ∷ xs, i', refl)))))

  -- Over any arena of nodes that keeps the laws of `NodeArena`, with no other thread between: on
  -- an unlocked stack that holds `vs`, and with an arena that is ready to hand out memory, the
  -- lock-free `push` returns when one round of its loop at least does not fail for no reason;
  -- either the code is failure and the stack still holds `vs`, or it is success and the stack
  -- holds `vs` with the item in front.
  pub push_imp_lockfree-Pushed :
      (rounds : List Bool) (q : Stack State) (vs : List V) (v : V)
      → 1 ≤ count_calm rounds
      → Stacks arena q vs
      → Ready q.nodes
      → Returns (Pushed arena v vs) (push_imp_lockfree arena rounds v q)
  unfolding push_imp_lockfree create_node
  push_imp_lockfree-Pushed rounds q vs v enough (xs, i, e) ready =
      bind _ (create_node arena v) q
        (lift (arena.allocate v) q
          (arena.allocate_law v q.nodes (live_of xs) (length xs) i.valid ready))
        (λ a q2 (s, h, at). rw (at, sym e) (lockfree_push_rest rounds q xs v a s enough i h))

  take_head_lem :
      (p : ℕ) (v : V) (xs : Cells V) (q : Stack State)
      → IsStack arena false q ((p, v) ∷ xs)
      → Returns {B = Result × V}
          (λ r q'. (r ≡ (success, v)) × IsStack arena false q' xs)
          (take_head arena p (record q { head = (node q.nodes p).next }))
  unfolding take_head destroy_node
  take_head_lem p v xs q i =
      let (_, _, at_v, _, _) = Chain-cons i.chain in
      let q1 = record q { head = (node q.nodes p).next } in
      bind _ (in_arena (arena.deallocate p)) q1
        (lift (arena.deallocate p) q1 (
          arena.deallocate_law p q.nodes (live_of ((p, v) ∷ xs)) (length xs) i.valid
            (ground arith)))
        (λ code q2 (s, (ok, val, same), at).
          let answer : ((code, (node q.nodes p).value) ≡ (success, v)) = rw (ok, at_v) refl in
          let i' = rest-IsStack arena p v xs q s i val same in
          rw at (returns (answer, record { mutex = i.mutex; valid = i'.valid; chain = i'.chain })))

  -- Over any arena of nodes that keeps the laws of `NodeArena`, with no other thread between: on
  -- an unlocked stack that holds `vs`, the lock-free `pop` returns when one round of its loop at
  -- least does not fail for no reason; if `vs` is empty, the code is empty, `data` is as it was
  -- and the stack holds nothing, and otherwise the code is success, `data` is the first item and
  -- the stack holds the rest.
  pub pop_imp_lockfree-Popped :
      (rounds : List Bool) (q : Stack State) (vs : List V) (v : V)
      → 1 ≤ count_calm rounds
      → Stacks arena q vs
      → Returns (Popped arena v vs) (pop_imp_lockfree arena rounds v q)
  unfolding pop_imp_lockfree
  pop_imp_lockfree-Popped [] q vs v enough _ = absurd (omega arith)
  pop_imp_lockfree-Popped (b ∷ rounds) q vs v enough ([], i, e) =
      let test : ((q.head == null) ≡ true) = rw (Chain-null i.chain) refl in
      rw (test, sym e) (returns (refl, ([], i, refl)))
  pop_imp_lockfree-Popped (true ∷ rounds) q vs v enough ((p, u) ∷ xs, i, e) =
      let (h, p_ne, _, _, _) = Chain-cons i.chain in
      rw
        (
          ne→== q.head null (λ z. p_ne (sym h ∙ z)),
          ◌>>=◌,
          exchange_head-fails q (node q.nodes q.head).next,
        )
        (pop_imp_lockfree-Popped rounds q vs v enough ((p, u) ∷ xs, i, e))
  pop_imp_lockfree-Popped (false ∷ rounds) q vs v enough ((p, u) ∷ xs, i, e) =
      let (h, p_ne, _, _, _) = Chain-cons i.chain in
      rw
        (
          ne→== q.head null (λ z. p_ne (sym h ∙ z)),
          ◌>>=◌,
          exchange_head-stores q (node q.nodes q.head).next,
          h,
          sym e,
        )
        (mono (take_head_lem p u xs q i) (λ r q' (answer, i'). returns (answer, (xs, i', refl))))
