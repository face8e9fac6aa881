-- ===== src/Stack/Consistent.antt =====
-- When the threads of the `lockfree` stack, include/stack.h, are consistent with the chain of nodes.
use lock_free.Common.{
  ℕ, ◌≡◌, refl, ◌≢◌, inl, inr, Bool, true, false, arith, Bool-cases, ◌==◌, update, ◌∙◌, ap, sym,
  subst,
}
use lock_free.MemoryAddress.{null}
use lock_free.Types.{Node}
use lock_free.NodeArena.Chain.{Cells, live_of, Chain}
use lock_free.Stack.Threads.{
  Thread, push_load, push_link, push_swap, pop_load, pop_next, pop_swap, finished, Shared,
}

-- Whether a thread has a node that the stack does not have yet.
abbrev pub pending : Thread → Bool
pending push_load = true
pending (push_link h) = true
pending (push_swap h) = true
pending pop_load = false
pending (pop_next h) = false
pending (pop_swap h n) = false
pending finished = false

-- No thread is about to push the node at `p`.
abbrev pub Published : (ℕ → Thread) → (ℕ → ℕ) → ℕ → Type 0
Published thread own p = (u : ℕ) → pending (thread u) ≡ true → own u ≢ p

module _ {V : Type 0} where
  -- What a thread has read is still true where it matters.
  unfoldable pub ThreadOk : (node : ℕ → Node V) (Pub : ℕ → Type 0) (mine : ℕ) → Thread → Type 0
  ThreadOk node Pub mine push_load = Unit
  ThreadOk node Pub mine (push_link h) = h ≡ null → (node mine).next ≡ null
  ThreadOk node Pub mine (push_swap h) = (node mine).next ≡ h
  ThreadOk node Pub mine pop_load = Unit
  ThreadOk node Pub mine (pop_next h) = (h ≢ null) × Pub h
  ThreadOk node Pub mine (pop_swap h n) = (h ≢ null) × Pub h × ((node h).next ≡ n)
  ThreadOk node Pub mine finished = Unit

  ThreadOk-mono :
      {node node' : ℕ → Node V} {Pub Pub' : ℕ → Type 0} (mine : ℕ) (th : Thread)
      → (pending th ≡ true → node' mine ≡ node mine)
      → ((p : ℕ) → Pub p → Pub' p × (node' p ≡ node p))
      → ThreadOk node Pub mine th
      → ThreadOk node' Pub' mine th
  unfolding ThreadOk
  ThreadOk-mono mine push_load own shared ok = ok
  ThreadOk-mono mine (push_link h) own shared ok =
      λ z. ap (λ (n : Node V). n.next) (own refl) ∙ ok z
  ThreadOk-mono mine (push_swap h) own shared ok = ap (λ (n : Node V). n.next) (own refl) ∙ ok
  ThreadOk-mono mine pop_load own shared ok = ok
  ThreadOk-mono mine (pop_next h) own shared (ne, p) = (ne, (shared h p).0)
  ThreadOk-mono mine (pop_swap h n) own shared (ne, p, e) =
      (ne, (shared h p).0, ap (λ (n : Node V). n.next) (shared h p).1 ∙ e)
  ThreadOk-mono mine finished own shared ok = ok

  -- The stack is the chain of `xs`, and every thread's node is its own until it is pushed.
  pub record Consistent (s : Shared V) (xs : Cells V) : Type 0 where
    pub chain : Chain s.node s.head xs
    pub bare :
        (t : ℕ) → pending (s.thread t) ≡ true → (s.own t ≢ null) × (live_of xs (s.own t) ≡ false)
    pub distinct :
        (t u : ℕ)
        → pending (s.thread t) ≡ true
        → pending (s.thread u) ≡ true
        → t ≢ u
        → s.own t ≢ s.own u
    pub ok : (t : ℕ) → ThreadOk s.node (Published s.thread s.own) (s.own t) (s.thread t)

  module _ (s : Shared V) (xs : Cells V) (i : Consistent s xs) (t : ℕ) (th : Thread)
      (less : pending th ≡ true → pending (s.thread t) ≡ true) where
    at_t : update s.thread t th t ≡ th
    at_t = ground arith

    at_other : (u : ℕ) → u ≢ t → update s.thread t th u ≡ s.thread u
    at_other u n = ground arith

    pub still : (u : ℕ) → pending (update s.thread t th u) ≡ true → pending (s.thread u) ≡ true
    still u p = elim (Bool-cases (u == t)) [
      | inl same ↦
          let e : u ≡ t = ground arith in
          subst (λ x. pending (s.thread x) ≡ true) (sym e)
            (less (subst (λ x. pending x ≡ true) (ap (update s.thread t th) e ∙ at_t) p))
      | inr other ↦ subst (λ x. pending x ≡ true) (at_other u (ground arith)) p
    ]

    pub shown : (p : ℕ) → Published s.thread s.own p → Published (update s.thread t th) s.own p
    shown p h u k = h u (still u k)

    -- A step of thread `t`.
    pub Consistent-step :
        (head : ℕ) (node : ℕ → Node V) (ys : Cells V)
        → ((u : ℕ) → u ≢ t → pending (s.thread u) ≡ true → node (s.own u) ≡ s.node (s.own u))
        → ((p : ℕ) → Published s.thread s.own p → node p ≡ s.node p)
        → Chain node head ys
        → ((u : ℕ) → pending (update s.thread t th u) ≡ true → live_of ys (s.own u) ≡ false)
        → ThreadOk node (Published (update s.thread t th) s.own) (s.own t) th
        → Consistent (record s { head = head; node = node; thread = update s.thread t th }) ys
    Consistent-step head node ys owns pubs ch bare ok = record {
      chain = ch;
      bare = λ u p. ((i.bare u (still u p)).0, bare u p);
      distinct = λ u v p q n. i.distinct u v (still u p) (still v q) n;
      ok = λ u. elim (Bool-cases (u == t)) [
        | inl same ↦
            let e : u ≡ t = ground arith in
            subst
              (λ x.
                ThreadOk node (Published (update s.thread t th) s.own) (s.own x)
                  (update s.thread t th x))
              (sym e)
              (subst (ThreadOk node (Published (update s.thread t th) s.own) (s.own t)) (sym at_t)
                ok)
        | inr other ↦
            let n : u ≢ t = ground arith in
            subst (ThreadOk node (Published (update s.thread t th) s.own) (s.own u))
              (sym (at_other u n))
              (ThreadOk-mono (s.own u) (s.thread u) (owns u n) (λ p h. (shown p h, pubs p h))
                (i.ok u))
      ];
    }
