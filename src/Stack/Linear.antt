-- ===== src/Stack/Linear.antt =====
-- Runs of the `lockfree` stack by interleaved threads, include/stack.h, against the stack of one
-- thread.
use lock_free.Common.{
  ℕ, ◌≡◌, refl, ◌≢◌, inl, inr, Bool, true, false, not, ◌&&◌, Option, none, some, List, [], ◌∷◌,
  arith, Bool-cases, ◌==◌, update, ◌∙◌, ap, sym, subst,
}
use lock_free.MemoryAddress.{null}
use lock_free.Types.{Node}
use lock_free.NodeArena.Chain.{Cells, values, live_of, Chain, nil, cons, frame}
use lock_free.Stack.Threads.{
  Thread, push_load, push_link, push_swap, pop_load, pop_next, pop_swap, finished, Event, pushed,
  popped, found_empty, Shared, goto, link_own, act, log, run,
}
use lock_free.Stack.Consistent.{
  pending, Published, ThreadOk, Consistent, still, shown, Consistent-step,
}

-- The effect of an event on the stack of one thread; a pop must give the first item.
pub data Effect {V : Type 0} : Option (Event V) → List V → List V → Type 0 where
  nothing : {vs : List V} → Effect none vs vs
  put_first : {v : V} {vs : List V} → Effect (some (pushed v)) vs (v ∷ vs)
  got_first : {v : V} {vs : List V} → Effect (some (popped v)) (v ∷ vs) vs
  got_none : Effect (some found_empty) [] []

-- The first node of a stack that is not empty.
record First {V : Type 0} (node : ℕ → Node V) (h : ℕ) (xs : Cells V) : Type 0 where
  value : V
  rest : Cells V
  whole : xs ≡ (h, value) ∷ rest
  stored : (node h).value ≡ value
  chain : Chain node (node h).next rest

module _ {V : Type 0} {node : ℕ → Node V} where
  null-nil : {h : ℕ} {xs : Cells V} → Chain node h xs → h ≡ null → xs ≡ []
  null-nil nil e = refl
  null-nil (cons ne f out c) e = absurd (ne e)

  Chain-First : {h : ℕ} {xs : Cells V} → Chain node h xs → h ≢ null → First node h xs
  Chain-First nil ne = absurd (ne refl)
  Chain-First (cons {p} {q} {v} {xs} ne e out c) _ = record {
    value = v;
    rest = xs;
    whole = refl;
    stored = ap (λ (n : Node V). n.value) e;
    chain = rw e c;
  }

module _ {V : Type 0} where
  -- What a step leaves.
  pub record Stepped (xs : Cells V) (r : Option (Event V) × Shared V) : Type 0 where
    pub left : Cells V
    pub effect : Effect r.0 (values xs) (values left)
    pub consistent : Consistent r.1 left

  -- A thread that finds the stack empty in a push has not written `_next` before.
  abbrev pub Clean : (t : ℕ) → Shared V → Type 0
  Clean t s = s.thread t ≡ push_load → s.head ≡ null → (s.node (s.own t)).next ≡ null

  module _ (s : Shared V) (xs : Cells V) (i : Consistent s xs) (t : ℕ) where
    -- Steps that change nothing but where the thread stands.
    moved :
        (th : Thread)
        → (pending th ≡ true → pending (s.thread t) ≡ true)
        → ThreadOk s.node (Published (update s.thread t th) s.own) (s.own t) th
        → Stepped xs (none, goto t th s)
    moved th less ok = record {
      left = xs;
      effect = nothing;
      consistent =
          Consistent-step s xs i t th less s.head s.node xs (λ u n p. refl) (λ p h. refl) i.chain
            (λ u p. (i.bare u (still s xs i t th less u p)).1) ok;
    }

    -- A node in the chain is nobody's own.
    in_chain : (p : ℕ) → live_of xs p ≡ true → Published s.thread s.own p
    in_chain p l u k e =
        let f = subst (λ x. live_of xs x ≡ false) e (i.bare u k).1 in ground (arith, l, f)

    mine : (th : Thread) → s.thread t ≡ th → ThreadOk s.node (Published s.thread s.own) (s.own t) th
    mine th e = subst (ThreadOk s.node (Published s.thread s.own) (s.own t)) e (i.ok t)

    -- Only the thread's own node is written.
    link-Stepped :
        (h : ℕ)
        → s.thread t ≡ push_link h
        → Stepped xs (none, record (goto t (push_swap h) s) { node = link_own t h s })
    unfolding link_own ThreadOk
    link-Stepped h e = elim (Bool-cases (h == null)) [
      | inl z ↦
          let n : h ≡ null = ground (arith, z) in
          rw z (moved (push_swap h) (λ _. rw e refl) (mine (push_link h) e n ∙ sym n))
      | inr nz ↦ rw nz (
          let mine_on : pending (s.thread t) ≡ true = rw e refl in
          let own_node : Node V = record (s.node (s.own t)) { next = h } in
          let node' = update s.node (s.own t) own_node in
          let away : (p : ℕ) → p ≢ s.own t → node' p ≡ s.node p = λ p n. ground arith in
          record {
            left = xs;
            effect = nothing;
            consistent =
                Consistent-step s xs i t (push_swap h) (λ _. mine_on) s.head node' xs
                  (λ u n p. away (s.own u) (i.distinct u t p mine_on n))
                  (λ p pub_p. away p (λ z. pub_p t mine_on (sym z)))
                  (frame i.chain (λ p l. away p (λ z. in_chain p l t mine_on (sym z))))
                  (λ u p. (i.bare u (still s xs i t (push_swap h) (λ _. mine_on) u p)).1)
                  (let here : node' (s.own t) ≡ own_node = ground arith in
                    ap (λ (n : Node V). n.next) here);
          })
    ]

    push-Stepped :
        (h : ℕ)
        → s.thread t ≡ push_swap h
        → s.head ≡ h
        → Stepped xs
            (some (pushed (s.node (s.own t)).value), record (goto t finished s) { head = s.own t })
    unfolding ThreadOk
    push-Stepped h e at_h =
        let mine_on : pending (s.thread t) ≡ true = rw e refl in
        let (ne, out) = i.bare t mine_on in
        let v = (s.node (s.own t)).value in
        let linked : s.node (s.own t) ≡ record { value = v; next = s.head } =
          ap (λ n. record { value = v; next = n }) (mine (push_swap h) e ∙ sym at_h) in
        record {
          left = (s.own t, v) ∷ xs;
          effect = put_first;
          consistent =
              Consistent-step s xs i t finished (λ k. cc) (s.own t) s.node ((s.own t, v) ∷ xs)
                (λ u n p. refl) (λ p h. refl) (cons ne linked out i.chain)
                (λ u p.
                  let k = still s xs i t finished (λ k. cc) u p in
                  let n : u ≢ t = λ z. ended u z p in
                  let (f, g) : (s.own u ≢ s.own t) × (live_of xs (s.own u) ≡ false) =
                    (i.distinct u t k mine_on n, (i.bare u k).1) in
                  ground arith)
                tt;
        }
      where
        ended : (u : ℕ) → u ≡ t → pending (update s.thread t finished u) ≢ true
        ended u z p = ground arith

    empty-Stepped : s.head ≡ null → Stepped xs (some found_empty, goto t finished s)
    unfolding ThreadOk
    empty-Stepped z =
        let none_there : xs ≡ [] = null-nil i.chain z in
        record {
          left = xs;
          effect =
              subst (λ ys. Effect (some found_empty) (values ys) (values ys)) (sym none_there)
                got_none;
          consistent =
              Consistent-step s xs i t finished (λ k. cc) s.head s.node xs (λ u n p. refl)
                (λ p h. refl) i.chain (λ u p. (i.bare u (still s xs i t finished (λ k. cc) u p)).1)
                tt;
        }

    pop-Stepped :
        (h n : ℕ)
        → s.thread t ≡ pop_swap h n
        → s.head ≡ h
        → Stepped xs (some (popped (s.node h).value), record (goto t finished s) { head = n })
    unfolding ThreadOk
    pop-Stepped h n e at_h =
        let (ne, _, at_n) = mine (pop_swap h n) e in
        let f = Chain-First (subst (λ x. Chain s.node x xs) at_h i.chain) ne in
        record {
          left = f.rest;
          effect =
              subst (λ ys. Effect (some (popped (s.node h).value)) (values ys) (values f.rest))
                (sym f.whole)
                (subst (λ v. Effect (some (popped v)) (f.value ∷ values f.rest) (values f.rest))
                  (sym f.stored) got_first);
          consistent =
              Consistent-step s xs i t finished (λ k. cc) n s.node f.rest (λ u n p. refl)
                (λ p h. refl) (subst (λ x. Chain s.node x f.rest) at_n f.chain)
                (λ u p.
                  let g =
                    subst (λ ys. live_of ys (s.own u) ≡ false) f.whole
                      (i.bare u (still s xs i t finished (λ k. cc) u p)).1 in
                  ground (arith, g))
                tt;
        }

    next-Stepped : s.head ≢ null → Stepped xs (none, goto t (pop_next s.head) s)
    unfolding ThreadOk
    next-Stepped ne =
        let f = Chain-First i.chain ne in
        let l : live_of xs s.head ≡ true =
          subst (λ ys. live_of ys s.head ≡ true) (sym f.whole) (ground arith) in
        moved (pop_next s.head) (λ k. cc)
          (ne, shown s xs i t (pop_next s.head) (λ k. cc) s.head (in_chain s.head l))

    act-Stepped : (b : Bool) (th : Thread) → s.thread t ≡ th → Clean t s → Stepped xs (act b t s th)
    unfolding act ThreadOk
    act-Stepped b push_load e clean = moved (push_link s.head) (λ _. rw e refl) (clean e)
    act-Stepped b (push_link h) e clean = link-Stepped h e
    act-Stepped b (push_swap h) e clean = elim (Bool-cases (s.head == h && not b)) [
      | inl yes_h ↦ rw yes_h (push-Stepped h e (ground (arith, yes_h)))
      | inr no_h ↦ rw no_h (moved push_load (λ _. rw e refl) tt)
    ]
    act-Stepped b pop_load e clean = elim (Bool-cases (s.head == null)) [
      | inl z ↦ rw z (empty-Stepped (ground (arith, z)))
      | inr n ↦ rw n (next-Stepped (ground (arith, n)))
    ]
    act-Stepped b (pop_next h) e clean =
        let mine = subst (ThreadOk s.node (Published s.thread s.own) (s.own t)) e (i.ok t) in
        moved (pop_swap h (s.node h).next) (λ k. cc)
          (mine.0, shown s xs i t (pop_swap h (s.node h).next) (λ k. cc) h mine.1, refl)
    act-Stepped b (pop_swap h n) e clean = elim (Bool-cases (s.head == h && not b)) [
      | inl yes_h ↦ rw yes_h (pop-Stepped h n e (ground (arith, yes_h)))
      | inr no_h ↦ rw no_h (moved pop_load (λ k. cc) tt)
    ]
    act-Stepped b finished e clean = record { left = xs; effect = nothing; consistent = i }

  -- The events of a run, replayed on the stack of one thread.
  pub data Replays : List (Event V) → List V → List V → Type 0 where
    ended : {vs : List V} → Replays [] vs vs
    then_event :
        {e : Event V} {es : List (Event V)} {us vs ws : List V}
        → Effect (some e) us vs
        → Replays es vs ws
        → Replays (e ∷ es) us ws

  Effect-Replays :
      (e : Option (Event V)) (es : List (Event V)) (us vs ws : List V)
      → Effect e us vs
      → Replays es vs ws
      → Replays (log e es) us ws
  unfolding log
  Effect-Replays none es us _ ws nothing r = r
  Effect-Replays (some e) es us vs ws f r = then_event f r

  -- No push of the run that finds the stack empty has found it otherwise before.
  unfoldable pub CleanRun : List (ℕ × Bool) → Shared V → Type 0
  CleanRun [] s = Unit
  CleanRun ((t, b) ∷ moves) s = Clean t s × CleanRun moves (act b t s (s.thread t)).1

  -- Every run of threads that each do one lock-free `push` or `pop` on a stack, step by step in
  -- any order and with exchanges that fail for no reason anywhere, from a state in which the head
  -- leads to a chain of nodes, no node to be pushed is null, in the chain or another thread's, and
  -- what a thread has read holds: if no `push` of the run that finds the stack empty has written
  -- `_next` before, the head leads to a chain of nodes at the end, too, and the events of the run,
  -- in the order of the exchanges that stored and of the loads that found nothing, are those of a
  -- stack used by one thread, from the items at the start to the items at the end.
  pub run-Replays :
      (moves : List (ℕ × Bool)) (s : Shared V) (xs : Cells V)
      → Consistent s xs
      → CleanRun moves s
      → (ys : Cells V) × Consistent (run moves s).1 ys
        × Replays (run moves s).0 (values xs) (values ys)
  unfolding run CleanRun
  run-Replays [] s xs i clean = (xs, i, ended)
  run-Replays ((t, b) ∷ moves) s xs i (first, later) =
      let st = act-Stepped s xs i t b (s.thread t) refl first in
      let (ys, j, r) = run-Replays moves (act b t s (s.thread t)).1 st.left st.consistent later in
      (ys, j, Effect-Replays (act b t s (s.thread t)).0 _ _ _ _ st.effect r)
