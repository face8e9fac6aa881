-- ===== src/Stack/Refine.antt =====
-- What the operations of `stack`, include/stack.h, do to the sequence of its items, for every arena
-- that keeps the laws of `NodeArena`.
use lock_free.Common.{
  ℕ, suc, ◌≡◌, refl, ◌≢◌, ◌⊎◌, inl, inr, Bool, true, false, List, [], ◌∷◌, arith, ◌==◌, ne→==,
  if◌then◌else◌, length, update, ◌∙◌, ap, sym,
}
use lock_free.Types.{Result, failure, success, empty, DsImpl, Node}
use lock_free.Command.{pure, ◌>>=◌, Returns, returns, bind, mono}
use lock_free.MemoryAddress.{null}
use lock_free.NodeArena.{NodeArena, Valid-live, SameNodes}
use lock_free.NodeArena.Chain.{
  length-values, Cells, values, live_of, Chain, nil, cons, frame, Chain-null, Chain-cons,
}
use lock_free.Stack.Ops.{
  Stack, in_arena, lock, unlock, create_node, destroy_node, link, push_imp_default, unlink,
  pop_imp_default, size_imp, empty_imp, clear,
}
use lock_free.Stack.Locks.{lift, take_lock, drop_lock}

module _ {V : Type 0} (arena : NodeArena V) where
  open arena use {State, node, Valid, Ready}

  -- The arena's nodes in use are those of the list that starts at `_head`.
  pub record IsStack (held : Bool) (q : Stack State) (xs : Cells V) : Type 0 where
    pub mutex : q.mtx ≡ held
    pub valid : Valid q.nodes (live_of xs) (length xs)
    pub chain : Chain (node q.nodes) q.head xs

  -- The stack is unlocked and holds `vs`, the first item at the head.
  abbrev pub Stacks : Stack State → List V → Type 0
  Stacks q vs = (xs : Cells V) × IsStack false q xs × (values xs ≡ vs)

  -- A new node goes to the front.
  link_lem :
      (q : Stack State) (xs : Cells V) (a : ℕ) (v : V)
      → q.mtx ≡ true
      → Valid q.nodes (update (live_of xs) a true) (suc (length xs))
      → Chain (node q.nodes) q.head xs
      → a ≢ null
      → live_of xs a ≡ false
      → node q.nodes a ≡ record { value = v; next = null }
      → Returns (λ _ q'. IsStack true q' ((a, v) ∷ xs)) (link arena a q)
  unfolding link
  link_lem q xs a v m val ch ne out at_a =
      let on = update (live_of xs) a true in
      let (val', at_new, same) =
        arena.set_next_law q.nodes on (suc (length xs)) a q.head val (ground arith) in
      let in_use : (b : ℕ) → live_of xs b ≡ true → on b ≡ true = λ b l. ground (arith, l) in
      let apart : (b : ℕ) → live_of xs b ≡ true → b ≢ a = λ b l. ground (arith, l, out) in
      returns (record {
        mutex = m;
        valid = Valid-live arena (λ b. ground arith) val';
        chain =
            cons ne (at_new ∙ ap (λ (n : Node V). record { value = n.value; next = q.head }) at_a)
              out (frame ch (λ b l. same b (in_use b l) (apart b l)));
      })

  -- What `push` does: there is no node and the stack is as it was, or the item is the first.
  abbrev pub Pushed : V → List V → Result → Stack State → Type 0
  Pushed v vs code q' = ((code ≡ failure) × Stacks q' vs) ⊎ ((code ≡ success) × Stacks q' (v ∷ vs))

  release :
      {B : Type 0} (imp : DsImpl) (b : B) (q : Stack State) (xs : Cells V)
      → IsStack true q xs
      → Returns (λ c q'. (c ≡ b) × IsStack false q' xs) ((unlock imp >>= λ _. pure b) q)
  release imp b q xs i =
      bind _ (unlock imp) q (drop_lock imp q) (λ _ q' at.
        rw at (returns (refl, record { mutex = refl; valid = i.valid; chain = i.chain })))

  -- `push` after the node is asked for.
  push_rest :
      (imp : DsImpl) (q : Stack State) (xs : Cells V) (v : V) (a : ℕ) (s : State)
      → IsStack false q xs
      → ((a ≡ null) × Valid s (live_of xs) (length xs) × SameNodes node (live_of xs) q.nodes s)
        ⊎ ((a ≢ null)
            × (live_of xs a ≡ false)
            × Valid s (update (live_of xs) a true) (suc (length xs))
            × (node s a ≡ record { value = v; next = null })
            × SameNodes node (live_of xs) q.nodes s)
      → Returns (Pushed v (values xs)) (
          ((if a == null then pure failure else (link arena a >>= λ _. pure success)) >>= λ code.
          (unlock imp >>= λ _. pure code))
            (record q { mtx = true; nodes = s }))
  push_rest imp q xs v a s i (inl (e, val, same)) = rw e (
      mono
        (release imp failure (record q { mtx = true; nodes = s }) xs
          (record { mutex = refl; valid = val; chain = frame i.chain same }))
        (λ c q' (ec, i'). returns (inl (ec, (xs, i', refl)))))
  push_rest imp q xs v a s i (inr (ne, out, val, at_a, same)) = rw (ne→== a null ne) (
      bind {P = λ c q'. (c ≡ success) × IsStack true q' ((a, v) ∷ xs)} _
        (link arena a >>= λ _. pure success) (record q { mtx = true; nodes = s })
        (bind _ (link arena a) (record q { mtx = true; nodes = s })
          (link_lem (record q { mtx = true; nodes = s }) xs a v refl val (frame i.chain same) ne out
            at_a)
          (λ _ q' i'. returns (refl, i')))
        (λ c q' (ec, i').
          mono (release imp c q' ((a, v) ∷ xs) i')
            (λ c' q'' (ec', i''). returns (inr (ec' ∙ ec, ((a, v) ∷ xs, i'', refl))))))

  -- Over any arena of nodes that keeps the laws of `NodeArena`: on an unlocked stack that holds
  -- `vs`, and with an arena that is ready to hand out memory, the default `push` returns, and the
  -- stack is unlocked again; either the code is failure and the stack still holds `vs`, or it is
  -- success and the stack holds `vs` with the item in front.
  pub push_imp_default-Pushed :
      (imp : DsImpl) (q : Stack State) (vs : List V) (v : V)
      → Stacks q vs
      → Ready q.nodes
      → Returns (Pushed v vs) (push_imp_default arena imp v q)
  unfolding push_imp_default create_node
  push_imp_default-Pushed imp q vs v (xs, i, e) ready =
      let q1 = record q { mtx = true } in
      bind _ (lock imp) q (take_lock imp q i.mutex) (λ _ q' at'. rw at' (
        bind _ (create_node arena v) q1
          (lift (arena.allocate v) q1
            (arena.allocate_law v q.nodes (live_of xs) (length xs) i.valid ready))
          (λ a q2 (s, h, at). rw (at, sym e) (push_rest imp q xs v a s i h))))

  -- What `pop` does: the stack is empty and `data` is as it was, or it gets the first item.
  abbrev pub Popped : V → List V → Result × V → Stack State → Type 0
  Popped v [] r q' = (r ≡ (empty, v)) × Stacks q' []
  Popped v (x ∷ vs) r q' = (r ≡ (success, x)) × Stacks q' vs

  -- The rest of the list after the first node.
  pub rest-IsStack :
      (p : ℕ) (v : V) (xs : Cells V) (q : Stack State) (s : State)
      → IsStack false q ((p, v) ∷ xs)
      → Valid s (update (live_of ((p, v) ∷ xs)) p false) (length xs)
      → SameNodes node (update (live_of ((p, v) ∷ xs)) p false) q.nodes s
      → IsStack true (record { nodes = s; head = (node q.nodes p).next; mtx = true }) xs
  rest-IsStack p v xs q s i val same =
      let (_, _, _, out, rest) = Chain-cons i.chain in
      record {
        mutex = refl;
        valid = Valid-live arena (λ b. ground (arith, out)) val;
        chain = frame rest (λ a l. same a (ground (arith, l, out)));
      }

  unlink_lem :
      (p : ℕ) (v : V) (xs : Cells V) (q : Stack State)
      → IsStack false q ((p, v) ∷ xs)
      → Returns {B = Result × V}
          (λ r q'. (r ≡ (success, v)) × IsStack true q' xs)
          (unlink arena (record q { mtx = true }))
  unfolding unlink destroy_node
  unlink_lem p v xs q i =
      let (h, _, at_v, out, rest) = Chain-cons i.chain in
      let q1 = record q { mtx = true; head = (node q.nodes p).next } in
      rw h (
        bind _ (in_arena (arena.deallocate p)) q1
          (lift (arena.deallocate p) q1 (
            arena.deallocate_law p q.nodes (live_of ((p, v) ∷ xs)) (length xs) i.valid
              (ground arith)))
          (λ code q2 (s, (ok, val, same), at).
            let answer : ((code, (node q.nodes p).value) ≡ (success, v)) = rw (ok, at_v) refl in
            rw at (returns (answer, rest-IsStack p v xs q s i val same))))

  pop_rest :
      (imp : DsImpl) (q : Stack State) (xs : Cells V) (v : V)
      → IsStack false q xs
      → Returns (Popped v (values xs)) (
          ((if q.head == null then pure (empty, v) else unlink arena) >>= λ ret.
          (unlock imp >>= λ _. pure ret))
            (record q { mtx = true }))
  pop_rest imp q [] v i =
      let q1 = record q { mtx = true } in
      let i1 : IsStack true q1 [] = record { mutex = refl; valid = i.valid; chain = i.chain } in
      let test : ((q.head == null) ≡ true) = rw (Chain-null i.chain) refl in
      rw test (mono (release imp (empty, v) q1 [] i1) (λ r q' (e, i'). returns (e, ([], i', refl))))
  pop_rest imp q ((p, u) ∷ xs) v i =
      let (h, p_ne, _, _, _) = Chain-cons i.chain in
      rw (ne→== q.head null (λ z. p_ne (sym h ∙ z))) (
        bind _ (unlink arena) (record q { mtx = true }) (unlink_lem p u xs q i)
          (λ r q' (e, i').
            mono (release imp r q' xs i') (λ r' q'' (e', i''). returns (e' ∙ e, (xs, i'', refl)))))

  -- Over any arena of nodes that keeps the laws of `NodeArena`: on an unlocked stack that holds
  -- `vs`, the default `pop` returns, and the stack is unlocked again; if `vs` is empty, the code
  -- is empty, `data` is as it was and the stack holds nothing, and otherwise the code is success,
  -- `data` is the first item and the stack holds the rest.
  pub pop_imp_default-Popped :
      (imp : DsImpl) (q : Stack State) (vs : List V) (v : V)
      → Stacks q vs
      → Returns (Popped v vs) (pop_imp_default arena imp v q)
  unfolding pop_imp_default
  pop_imp_default-Popped imp q vs v (xs, i, e) =
      bind _ (lock imp) q (take_lock imp q i.mutex)
        (λ _ q' at. rw (at, sym e) (pop_rest imp q xs v i))

  -- Over any arena of nodes that keeps the laws of `NodeArena`: on an unlocked stack that holds
  -- `vs`, `size` returns the length of `vs`, and the stack is unlocked and holds `vs` afterwards.
  pub size_imp-Stacks :
      (imp : DsImpl) (q : Stack State) (vs : List V)
      → Stacks q vs
      → Returns (λ n q'. (n ≡ length vs) × Stacks q' vs) (size_imp arena imp q)
  unfolding size_imp
  size_imp-Stacks imp q vs (xs, i, e) =
      let q1 = record q { mtx = true } in
      bind _ (lock imp) q (take_lock imp q i.mutex) (λ _ q' at'. rw at' (
        bind _ (in_arena arena.length) q1
          (lift arena.length q1 (arena.length_law q.nodes (live_of xs) (length xs) i.valid))
          (λ n q2 (s, (count, val, same), at). rw at (
            mono
              (release imp n (record q1 { nodes = s }) xs
                (record { mutex = refl; valid = val; chain = frame i.chain same }))
              (λ n' q3 (e', i').
                returns (e' ∙ count ∙ sym (length-values xs) ∙ ap length e, (xs, i', e)))))))

  -- `empty` on a stack that is not locked says whether there are no items.
  pub empty_imp-Stacks :
      (imp : DsImpl) (q : Stack State) (vs : List V)
      → Stacks q vs
      → Returns (λ b q'. (b ≡ (length vs == 0)) × Stacks q' vs) (empty_imp arena imp q)
  unfolding empty_imp
  empty_imp-Stacks imp q vs h =
      bind _ (size_imp arena imp) q (size_imp-Stacks imp q vs h)
        (λ n q' (e, h'). returns (ap (λ k. k == 0) e, h'))

  -- Over any arena of nodes that keeps the laws of `NodeArena`: on an unlocked stack, `clear`
  -- returns and leaves an unlocked stack that holds nothing.
  pub clear-Stacks :
      (q : Stack State) (vs : List V) → Stacks q vs → Returns (λ _ q'. Stacks q' []) (clear arena q)
  unfolding clear
  clear-Stacks q vs (xs, i, e) =
      let q1 = record q { head = null } in
      mono (lift arena.clear q1 (arena.clear_law q.nodes (live_of xs) (length xs) i.valid))
        (λ _ q2 (s, val, at).
          rw at (returns ([], record { mutex = i.mutex; valid = val; chain = nil }, refl)))
