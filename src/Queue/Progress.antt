-- ===== src/Queue/Progress.antt =====
-- `push` of the `lockfree` queue, include/queue.h, ends and keeps the sequence of the items,
-- for every arena that keeps the laws of `NodeArena`, with no other thread between.
use lock_free.Common.{
  ℕ, suc, ◌≤◌, ◌≡◌, refl, ◌≢◌, ◌⊎◌, inl, inr, Bool, true, false, some, List, [], ◌∷◌, ◌++◌, arith,
  ◌==◌, ne→==, if◌then◌else◌, length, update, ◌∙◌, sym, Bool-cases, count_calm,
}
use lock_free.Types.{Result, failure, success}
use lock_free.Command.{pure, ◌>>=◌, Returns, returns, bind}
use lock_free.MemoryAddress.{null}
use lock_free.NodeArena.{NodeArena, SameNodes}
use lock_free.NodeArena.Chain.{
  Cells, values, live_of, last_ptr, values-snoc, Chain, frame, Chain-null, Chain-cons, Chain-last,
}
use lock_free.Queue.Ops.{Queue, create_node, link}
use lock_free.Queue.Locks.{lift}
use lock_free.Queue.Contents.{IsQueue, link_lem}
use lock_free.Queue.LockFree.{
  exchange_tail, exchange_head, exchange_next, install, append_node, push_round, push_loop,
  push_imp_lockfree,
}

module _ {V : Type 0} (arena : NodeArena V) where
  open arena use {State, node, Valid, Ready}

  -- The queue holds `xs`; without an item, `_tail` may still lead to a node that is gone.
  pub record Linked (q : Queue State) (xs : Cells V) : Type 0 where
    pub mutex : q.mtx ≡ false
    pub valid : Valid q.nodes (live_of xs) (length xs)
    pub chain : Chain (node q.nodes) q.head xs
    pub last : q.head ≢ null → q.tail ≡ last_ptr xs

  abbrev pub HoldsLoose : Queue State → List V → Type 0
  HoldsLoose q vs = (xs : Cells V) × Linked q xs × (values xs ≡ vs)

  IsQueue-Linked : (q : Queue State) (xs : Cells V) → IsQueue arena false q xs → Linked q xs
  IsQueue-Linked q xs i = record {
    mutex = i.mutex;
    valid = i.valid;
    chain = i.chain;
    last = λ _. i.last;
  }

  -- The queue holds `xs`, and the node `a`, which the chain does not have yet, may be the next one.
  record Offered (q : Queue State) (xs : Cells V) (a : ℕ) (v : V) : Type 0 where
    mutex : q.mtx ≡ false
    valid : Valid q.nodes (update (live_of xs) a true) (suc (length xs))
    chain : Chain (node q.nodes) q.head xs
    last : q.head ≢ null → q.tail ≡ last_ptr xs
    ne_null : a ≢ null
    out : live_of xs a ≡ false
    at_a : node q.nodes a ≡ record { value = v; next = null }

  -- A round whose exchange fails for no reason changes nothing.
  push_round-fails : (q : Queue State) (a : ℕ) → push_round arena true a q ≡ some (false, q)
  unfolding push_round exchange_tail install append_node exchange_next
  push_round-fails q a =
      let self : (q.tail == q.tail) ≡ true = ground arith in
      elim (Bool-cases (q.head == null)) [
        | inl h ↦ elim (Bool-cases (q.tail == null)) [
          | inl t ↦ rw (h, t, ◌>>=◌, t) refl
          | inr t ↦ rw (h, t, ◌>>=◌, self) refl
        ]
        | inr h ↦ elim (Bool-cases (q.tail == null)) [
          | inl t ↦ rw (h, t, ◌>>=◌, t) refl
          | inr t ↦
              rw (h, t)
                (elim (Bool-cases ((node q.nodes q.tail).next == null)) [
                  | inl n ↦ rw (n, ◌>>=◌, n) refl
                  | inr n ↦ rw n refl
                ])
        ]
      ]

  -- A round that finds a tail without a head removes it.
  push_round-resets :
      (q : Queue State) (a : ℕ)
      → q.head ≡ null
      → q.tail ≢ null
      → push_round arena false a q ≡ some (false, record q { tail = null })
  unfolding push_round exchange_tail
  push_round-resets q a h ne =
      let self : (q.tail == q.tail) ≡ true = ground arith in
      let empty_head : (q.head == null) ≡ true = ground arith in
      rw (empty_head, ne→== q.tail null ne, ◌>>=◌, self) refl

  -- Any other round does what the default `push` does with a node.
  push_round-links :
      (q : Queue State) (xs : Cells V) (a : ℕ)
      → Chain (node q.nodes) q.head xs
      → q.tail ≡ last_ptr xs
      → push_round arena false a q ≡ (link arena a >>= λ _. pure true) q
  unfolding push_round exchange_tail exchange_head install append_node exchange_next link
  push_round-links q [] a ch t = let h = Chain-null ch in rw (h, t) refl
  push_round-links q (c ∷ xs) a ch t =
      let (e, p_ne, _, _, _) = Chain-cons ch in
      let (last_next, l_ne) = Chain-last c xs ch in
      let head_on : (q.head == null) ≡ false = ne→== q.head null (λ z. p_ne (sym e ∙ z)) in
      let tail_on : (q.tail == null) ≡ false = ne→== q.tail null (λ z. l_ne (sym t ∙ z)) in
      let no_next : ((node q.nodes q.tail).next == null) ≡ true = ground (arith, t, last_next) in
      rw (head_on, tail_on, no_next, ◌>>=◌, no_next) refl

  link_rest :
      (rounds : List Bool) (q : Queue State) (xs : Cells V) (a : ℕ) (v : V)
      → Offered q xs a v
      → q.tail ≡ last_ptr xs
      → Returns (λ _ q'. Linked q' (xs ++ ((a, v) ∷ []))) (push_loop arena (false ∷ rounds) a q)
  unfolding push_loop
  link_rest rounds q xs a v o t =
      rw (◌>>=◌, push_round-links q xs a o.chain t)
        (bind {P = λ done q'. (done ≡ true) × Linked q' (xs ++ ((a, v) ∷ []))}
          (λ done. if done then pure tt else push_loop arena rounds a)
          (link arena a >>= λ _. pure true) q
          (bind _ (link arena a) q
            (link_lem arena q xs a v o.mutex o.valid o.chain t o.ne_null o.out o.at_a)
            (λ _ q' i. returns (refl, IsQueue-Linked q' (xs ++ ((a, v) ∷ [])) i)))
          (λ done q' (e, i). rw e (returns i)))

  -- Without a tail that is left over, one round that does not fail is enough.
  push_loop-settled :
      (rounds : List Bool) (q : Queue State) (xs : Cells V) (a : ℕ) (v : V)
      → 1 ≤ count_calm rounds
      → Offered q xs a v
      → q.tail ≡ last_ptr xs
      → Returns (λ _ q'. Linked q' (xs ++ ((a, v) ∷ []))) (push_loop arena rounds a q)
  unfolding push_loop
  push_loop-settled [] q xs a v enough o t = absurd (omega arith)
  push_loop-settled (true ∷ rounds) q xs a v enough o t =
      rw (◌>>=◌, push_round-fails q a) (push_loop-settled rounds q xs a v enough o t)
  push_loop-settled (false ∷ rounds) q xs a v enough o t = link_rest rounds q xs a v o t

  -- The tail of an empty queue may be any address.
  push_loop-Linked :
      (rounds : List Bool) (q : Queue State) (xs : Cells V) (a : ℕ) (v : V)
      → 2 ≤ count_calm rounds
      → Offered q xs a v
      → Returns (λ _ q'. Linked q' (xs ++ ((a, v) ∷ []))) (push_loop arena rounds a q)
  unfolding push_loop
  push_loop-Linked rounds q ((p, u) ∷ xs) a v enough o =
      let (e, p_ne, _, _, _) = Chain-cons o.chain in
      push_loop-settled rounds q ((p, u) ∷ xs) a v (omega arith) o (o.last (λ z. p_ne (sym e ∙ z)))
  push_loop-Linked [] q [] a v enough o = absurd (omega arith)
  push_loop-Linked (true ∷ rounds) q [] a v enough o =
      rw (◌>>=◌, push_round-fails q a) (push_loop-Linked rounds q [] a v enough o)
  push_loop-Linked (false ∷ rounds) q [] a v enough o = elim (Bool-cases (q.tail == null)) [
    | inl t ↦ link_rest rounds q [] a v o (ground arith)
    | inr t ↦
        let h = Chain-null o.chain in
        rw (◌>>=◌, push_round-resets q a h (ground (arith, t)))
          (push_loop-settled rounds (record q { tail = null }) [] a v (omega arith)
            (record {
              mutex = o.mutex;
              valid = o.valid;
              chain = o.chain;
              last = λ n. absurd (n h);
              ne_null = o.ne_null;
              out = o.out;
              at_a = o.at_a;
            })
            refl)
  ]

  abbrev pub EnqueuedLoose : V → List V → Result → Queue State → Type 0
  EnqueuedLoose v vs code q' =
      ((code ≡ failure) × HoldsLoose q' vs) ⊎ ((code ≡ success) × HoldsLoose q' (vs ++ (v ∷ [])))

  -- `push` after the node is asked for.
  lockfree_push_rest :
      (rounds : List Bool) (q : Queue State) (xs : Cells V) (v : V) (a : ℕ) (s : State)
      → 2 ≤ count_calm rounds
      → Linked q xs
      → ((a ≡ null) × Valid s (live_of xs) (length xs) × SameNodes node (live_of xs) q.nodes s)
        ⊎ ((a ≢ null)
            × (live_of xs a ≡ false)
            × Valid s (update (live_of xs) a true) (suc (length xs))
            × (node s a ≡ record { value = v; next = null })
            × SameNodes node (live_of xs) q.nodes s)
      → Returns (EnqueuedLoose v (values xs)) (
          (if a == null then pure failure else (push_loop arena rounds a >>= λ _. pure success))
            (record q { nodes = s }))
  lockfree_push_rest rounds q xs v a s enough i (inl (e, val, same)) = rw e (
      returns (
        inl (
          refl,
          (
            xs,
            record { mutex = i.mutex; valid = val; chain = frame i.chain same; last = i.last },
            refl,
          ),
        )))
  lockfree_push_rest rounds q xs v a s enough i (inr (ne, out, val, at_a, same)) =
      rw (ne→== a null ne) (
        bind _ (push_loop arena rounds a) (record q { nodes = s })
          (push_loop-Linked rounds (record q { nodes = s }) xs a v enough
            (record {
              mutex = i.mutex;
              valid = val;
              chain = frame i.chain same;
              last = i.last;
              ne_null = ne;
              out = out;
              at_a = at_a;
            }))
          (λ _ q' i'. returns (inr (refl, (xs ++ ((a, v) ∷ []), i', values-snoc xs a v)))))

  -- Over any arena of nodes that keeps the laws of `NodeArena`, with no other thread between: on a
  -- queue that holds `vs`, whose `_tail` may lead to a node that is gone when `vs` is empty, and
  -- with an arena that is ready to hand out memory, the lock-free `push` returns when two rounds
  -- of its loop at least do not fail for no reason; either the code is failure and the queue still
  -- holds `vs`, or it is success and the queue holds `vs` with the item behind it.
  pub push_imp_lockfree-EnqueuedLoose :
      (rounds : List Bool) (q : Queue State) (vs : List V) (v : V)
      → 2 ≤ count_calm rounds
      → HoldsLoose q vs
      → Ready q.nodes
      → Returns (EnqueuedLoose v vs) (push_imp_lockfree arena rounds v q)
  unfolding push_imp_lockfree create_node
  push_imp_lockfree-EnqueuedLoose rounds q vs v enough (xs, i, e) ready =
      bind _ (create_node arena v) q
        (lift (arena.allocate v) q
          (arena.allocate_law v q.nodes (live_of xs) (length xs) i.valid ready))
        (λ a q2 (s, h, at). rw (at, sym e) (lockfree_push_rest rounds q xs v a s enough i h))
