-- ===== src/Queue/Refine.antt =====
-- What the operations of `queue`, include/queue.h, do to the sequence of its items, for every arena
-- that keeps the laws of `NodeArena`.
use lock_free.Common.{
  ℕ, suc, ◌≡◌, refl, ◌≢◌, ◌⊎◌, inl, inr, true, false, List, [], ◌∷◌, ◌++◌, arith, ◌==◌, ne→==,
  if◌then◌else◌, length, update, ◌∙◌, ap, sym, subst,
}
use lock_free.Types.{Result, failure, success, empty, DsImpl}
use lock_free.Command.{pure, ◌>>=◌, Returns, returns, bind, mono}
use lock_free.MemoryAddress.{null}
use lock_free.NodeArena.{NodeArena, Valid-live, SameNodes}
use lock_free.NodeArena.Chain.{
  Cells, values, live_of, values-snoc, length-values, last_ptr, nil, frame, Chain-null, Chain-cons,
}
use lock_free.Queue.Ops.{
  Queue, in_arena, lock, unlock, create_node, destroy_node, link, push_imp_default, unlink,
  pop_imp_default, size_imp, empty_imp, clear, put,
}
use lock_free.Queue.Locks.{lift, take_lock}
use lock_free.Queue.Contents.{IsQueue, Holds, link_lem, release}

module _ {V : Type 0} (arena : NodeArena V) where
  open arena use {State, node, Valid, Ready}

  -- What `push` does: there is no node and the queue is as it was, or the item is the last.
  abbrev pub Enqueued : V → List V → Result → Queue State → Type 0
  Enqueued v vs code q' =
      ((code ≡ failure) × Holds arena q' vs) ⊎ ((code ≡ success) × Holds arena q' (vs ++ (v ∷ [])))

  -- `push` after the node is asked for.
  push_rest :
      (imp : DsImpl) (q : Queue State) (xs : Cells V) (v : V) (a : ℕ) (s : State)
      → IsQueue arena false q xs
      → ((a ≡ null) × Valid s (live_of xs) (length xs) × SameNodes node (live_of xs) q.nodes s)
        ⊎ ((a ≢ null)
            × (live_of xs a ≡ false)
            × Valid s (update (live_of xs) a true) (suc (length xs))
            × (node s a ≡ record { value = v; next = null })
            × SameNodes node (live_of xs) q.nodes s)
      → Returns (Enqueued v (values xs)) (
          ((if a == null then pure failure else (link arena a >>= λ _. pure success)) >>= λ code.
          (unlock imp >>= λ _. pure code))
            (record q { mtx = true; nodes = s }))
  push_rest imp q xs v a s i (inl (e, val, same)) = rw e (
      mono
        (release arena imp failure (record q { mtx = true; nodes = s }) xs
          (record { mutex = refl; valid = val; chain = frame i.chain same; last = i.last }))
        (λ c q' (ec, i'). returns (inl (ec, (xs, i', refl)))))
  push_rest imp q xs v a s i (inr (ne, out, val, at_a, same)) = rw (ne→== a null ne) (
      bind {P = λ c q'. (c ≡ success) × IsQueue arena true q' (xs ++ ((a, v) ∷ []))} _
        (link arena a >>= λ _. pure success) (record q { mtx = true; nodes = s })
        (bind _ (link arena a) (record q { mtx = true; nodes = s })
          (link_lem arena (record q { mtx = true; nodes = s }) xs a v refl val (frame i.chain same)
            i.last ne out at_a)
          (λ _ q' i'. returns (refl, i')))
        (λ c q' (ec, i').
          mono (release arena imp c q' (xs ++ ((a, v) ∷ [])) i') (λ c' q'' (ec', i'').
            returns (inr (ec' ∙ ec, (xs ++ ((a, v) ∷ []), i'', values-snoc xs a v))))))

  -- Over any arena of nodes that keeps the laws of `NodeArena`: on an unlocked queue that holds
  -- the sequence `vs`, and with an arena that is ready to hand out memory, the default `push`
  -- returns, and the queue is unlocked again; either the code is failure and the queue still holds
  -- `vs`, or it is success and the queue holds `vs` with the item behind it.
  pub push_imp_default-Enqueued :
      (imp : DsImpl) (q : Queue State) (vs : List V) (v : V)
      → Holds arena q vs
      → Ready q.nodes
      → Returns (Enqueued v vs) (push_imp_default arena imp v q)
  unfolding push_imp_default create_node
  push_imp_default-Enqueued imp q vs v (xs, i, e) ready =
      let q1 = record q { mtx = true } in
      bind _ (lock imp) q (take_lock imp q i.mutex) (λ _ q' at'. rw at' (
        bind _ (create_node arena v) q1
          (lift (arena.allocate v) q1
            (arena.allocate_law v q.nodes (live_of xs) (length xs) i.valid ready))
          (λ a q2 (s, h, at). rw (at, sym e) (push_rest imp q xs v a s i h))))

  -- What `pop` does: the queue is empty and `data` is as it was, or it gets the first item.
  abbrev pub Dequeued : V → List V → Result × V → Queue State → Type 0
  Dequeued v [] r q' = (r ≡ (empty, v)) × Holds arena q' []
  Dequeued v (x ∷ vs) r q' = (r ≡ (success, x)) × Holds arena q' vs

  -- The rest of the list after the first node.
  pub rest-IsQueue :
      (p : ℕ) (v : V) (xs : Cells V) (q : Queue State) (s : State)
      → IsQueue arena false q ((p, v) ∷ xs)
      → Valid s (update (live_of ((p, v) ∷ xs)) p false) (length xs)
      → SameNodes node (update (live_of ((p, v) ∷ xs)) p false) q.nodes s
      → (t : ℕ) → t ≡ last_ptr xs
      → IsQueue arena true
          (record { nodes = s; head = (node q.nodes p).next; tail = t; mtx = true })
          xs
  rest-IsQueue p v xs q s i val same t e =
      let (_, _, _, out, rest) = Chain-cons i.chain in
      record {
        mutex = refl;
        valid = Valid-live arena (λ b. ground (arith, out)) val;
        chain = frame rest (λ a l. same a (ground (arith, l, out)));
        last = e;
      }

  -- What `unlink` makes of the tail.
  unlink_rest :
      (p : ℕ) (v : V) (xs : Cells V) (q : Queue State) (s : State) (code : Result)
      → IsQueue arena false q ((p, v) ∷ xs)
      → code ≡ success
      → Valid s (update (live_of ((p, v) ∷ xs)) p false) (length xs)
      → SameNodes node (update (live_of ((p, v) ∷ xs)) p false) q.nodes s
      → Returns {B = Result × V}
          (λ r q'. (r ≡ (success, v)) × IsQueue arena true q' xs)
          (((if (node q.nodes p).next == null
                then put
                    (record { nodes = s; head = (node q.nodes p).next; tail = null; mtx = true })
                else pure tt)
              >>= λ _. pure (code, (node q.nodes p).value))
            (record { nodes = s; head = (node q.nodes p).next; tail = q.tail; mtx = true }))
  unlink_rest p v [] q s code i ok val same =
      let (_, _, at_v, _, rest) = Chain-cons i.chain in
      let h = Chain-null rest in
      let t = rest-IsQueue p v [] q s i val same null refl in
      let answer : ((code, (node q.nodes p).value) ≡ (success, v)) = rw (ok, at_v) refl in
      rw h (
        returns (
          answer,
          subst
              (λ n. IsQueue arena true (record { nodes = s; head = n; tail = null; mtx = true }) [])
              h t,
        ))
  unlink_rest p v ((p', v') ∷ xs) q s code i ok val same =
      let (_, _, at_v, _, rest) = Chain-cons i.chain in
      let (h, h_ne, _, _, _) = Chain-cons rest in
      let t = rest-IsQueue p v ((p', v') ∷ xs) q s i val same q.tail i.last in
      let answer : ((code, (node q.nodes p).value) ≡ (success, v)) = rw (ok, at_v) refl in
      rw (ne→== (node q.nodes p).next null (λ z. h_ne (sym h ∙ z))) (returns (answer, t))

  unlink_lem :
      (p : ℕ) (v : V) (xs : Cells V) (q : Queue State)
      → IsQueue arena false q ((p, v) ∷ xs)
      → Returns {B = Result × V}
          (λ r q'. (r ≡ (success, v)) × IsQueue arena true q' xs)
          (unlink arena (record q { mtx = true }))
  unfolding unlink destroy_node
  unlink_lem p v xs q i =
      let (h, _, _, _, _) = Chain-cons i.chain in
      let q1 = record q { mtx = true; head = (node q.nodes p).next } in
      rw h (
        bind _ (in_arena (arena.deallocate p)) q1
          (lift (arena.deallocate p) q1 (
            arena.deallocate_law p q.nodes (live_of ((p, v) ∷ xs)) (length xs) i.valid
              (ground arith)))
          (λ code q2 (s, (ok, val, same), at). rw at (unlink_rest p v xs q s code i ok val same)))

  pop_rest :
      (imp : DsImpl) (q : Queue State) (xs : Cells V) (v : V)
      → IsQueue arena false q xs
      → Returns (Dequeued v (values xs)) (
          ((if q.head == null then pure (empty, v) else unlink arena) >>= λ ret.
          (unlock imp >>= λ _. pure ret))
            (record q { mtx = true }))
  pop_rest imp q [] v i =
      let q1 = record q { mtx = true } in
      let i1 : IsQueue arena true q1 [] = record {
        mutex = refl;
        valid = i.valid;
        chain = i.chain;
        last = i.last;
      } in
      let test : ((q.head == null) ≡ true) = rw (Chain-null i.chain) refl in
      rw test
        (mono (release arena imp (empty, v) q1 [] i1) (λ r q' (e, i'). returns (e, ([], i', refl))))
  pop_rest imp q ((p, u) ∷ xs) v i =
      let (h, p_ne, _, _, _) = Chain-cons i.chain in
      rw (ne→== q.head null (λ z. p_ne (sym h ∙ z))) (
        bind _ (unlink arena) (record q { mtx = true }) (unlink_lem p u xs q i)
          (λ r q' (e, i').
            mono (release arena imp r q' xs i')
              (λ r' q'' (e', i''). returns (e' ∙ e, (xs, i'', refl)))))

  -- Over any arena of nodes that keeps the laws of `NodeArena`: on an unlocked queue that holds
  -- `vs`, the default `pop` returns, and the queue is unlocked again; if `vs` is empty, the code
  -- is empty, `data` is as it was and the queue holds nothing, and otherwise the code is success,
  -- `data` is the first item and the queue holds the rest.
  pub pop_imp_default-Dequeued :
      (imp : DsImpl) (q : Queue State) (vs : List V) (v : V)
      → Holds arena q vs
      → Returns (Dequeued v vs) (pop_imp_default arena imp v q)
  unfolding pop_imp_default
  pop_imp_default-Dequeued imp q vs v (xs, i, e) =
      bind _ (lock imp) q (take_lock imp q i.mutex)
        (λ _ q' at. rw (at, sym e) (pop_rest imp q xs v i))

  -- Over any arena of nodes that keeps the laws of `NodeArena`: on an unlocked queue that holds
  -- `vs`, `size` returns the length of `vs`, and the queue is unlocked and holds `vs` afterwards.
  pub size_imp-Holds :
      (imp : DsImpl) (q : Queue State) (vs : List V)
      → Holds arena q vs
      → Returns (λ n q'. (n ≡ length vs) × Holds arena q' vs) (size_imp arena imp q)
  unfolding size_imp
  size_imp-Holds imp q vs (xs, i, e) =
      let q1 = record q { mtx = true } in
      bind _ (lock imp) q (take_lock imp q i.mutex) (λ _ q' at'. rw at' (
        bind _ (in_arena arena.length) q1
          (lift arena.length q1 (arena.length_law q.nodes (live_of xs) (length xs) i.valid))
          (λ n q2 (s, (count, val, same), at). rw at (
            mono
              (release arena imp n (record q1 { nodes = s }) xs
                (record { mutex = refl; valid = val; chain = frame i.chain same; last = i.last }))
              (λ n' q3 (e', i').
                returns (e' ∙ count ∙ sym (length-values xs) ∙ ap length e, (xs, i', e)))))))

  -- `empty` on a queue that is not locked says whether there are no items.
  pub empty_imp-Holds :
      (imp : DsImpl) (q : Queue State) (vs : List V)
      → Holds arena q vs
      → Returns (λ b q'. (b ≡ (length vs == 0)) × Holds arena q' vs) (empty_imp arena imp q)
  unfolding empty_imp
  empty_imp-Holds imp q vs h =
      bind _ (size_imp arena imp) q (size_imp-Holds imp q vs h)
        (λ n q' (e, h'). returns (ap (λ k. k == 0) e, h'))

  -- Over any arena of nodes that keeps the laws of `NodeArena`: on an unlocked queue, `clear`
  -- returns and leaves an unlocked queue that holds nothing.
  pub clear-Holds :
      (q : Queue State) (vs : List V)
      → Holds arena q vs
      → Returns (λ _ q'. Holds arena q' []) (clear arena q)
  unfolding clear
  clear-Holds q vs (xs, i, e) =
      let q1 = record q { tail = null; head = null } in
      mono (lift arena.clear q1 (arena.clear_law q.nodes (live_of xs) (length xs) i.valid))
        (λ _ q2 (s, val, at).
          rw at
            (returns ([], record { mutex = i.mutex; valid = val; chain = nil; last = refl }, refl)))
