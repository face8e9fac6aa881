-- ===== src/Queue/Once.antt =====
-- Runs of threads on the `lockfree` queue, include/queue.h: what their pops take.
use lock_free.Common.{
  ℕ, ◌≡◌, refl, inl, inr, Bool, true, false, not, ◌&&◌, Option, none, some, List, [], ◌∷◌, ◌==◌,
  update, arith, Bool-cases,
}
use lock_free.MemoryAddress.{null}
use lock_free.Queue.Threads.{
  Caller, push_load_tail, push_load_head, push_clear, push_next, push_append, push_install,
  push_set_head, push_set_tail, pop_load, pop_next, pop_clear, pop_swap, finished, Returned, pushed,
  popped, found_empty, SharedQueue, goto, set_next, own_value, push_branch, caller_step, add_return,
  run_callers,
}
use lock_free.Queue.Tidy.{pending, clears, Knows, Tidy}
use lock_free.Queue.Stores.{known, moved, set_head, append}
use lock_free.Queue.Taken.{clear, swap}

module _ {V : Type 0} (value : ℕ → V) where
  -- Each pop takes a node that no pop before it has taken (`out`), and returns its value.
  abbrev pub OnceEach : (out : ℕ → Bool) → List (Returned V) → Type 0
  OnceEach out [] = Unit {0}
  OnceEach out (pushed v ∷ rs) = OnceEach out rs
  OnceEach out (found_empty ∷ rs) = OnceEach out rs
  OnceEach out (popped p v ∷ rs) = (out p ≡ false) × (v ≡ value p) × OnceEach (update out p true) rs

  -- What a step leaves.
  pub record StepOnce (out : ℕ → Bool) (r : Option (Returned V) × SharedQueue V) : Type 0 where
    pub gone_after : ℕ → Bool
    pub out_after : ℕ → Bool
    pub once : (rs : List (Returned V)) → OnceEach out_after rs → OnceEach out (add_return r.0 rs)
    pub tidy : Tidy value gone_after out_after r.1.head r.1.node r.1.own r.1.caller

  -- The tail plays no part in it.
  with_tail :
      {out : ℕ → Bool} {r : Option (Returned V)} {q : SharedQueue V} (p : ℕ)
      → StepOnce out (r, q)
      → StepOnce out (r, record q { tail = p })
  with_tail p s = record {
    gone_after = s.gone_after;
    out_after = s.out_after;
    once = s.once;
    tidy = s.tidy;
  }

  module _ (q : SharedQueue V) (gone out : ℕ → Bool)
      (i : Tidy value gone out q.head q.node q.own q.caller) (t : ℕ) where
    -- A thread goes on.
    went :
        (c : Caller)
        → (pending c ≡ true → pending (q.caller t) ≡ true)
        → Knows gone out q.node c
        → ((h : ℕ) → clears c h ≡ false)
        → StepOnce out (none, goto t c q)
    unfolding add_return
    went c less k quiet = record {
      gone_after = gone;
      out_after = out;
      once = λ rs h. h;
      tidy = moved value q gone out i t c less k quiet;
    }

    -- A thread that has a node to push tries again.
    again : pending (q.caller t) ≡ true → StepOnce out (none, goto t push_load_tail q)
    again mine = went push_load_tail (λ _. mine) tt (λ h. refl)

    -- A push returns, and its node is in the list or lost.
    ended : (v : V) → StepOnce out (some (pushed v), goto t finished q)
    unfolding add_return
    ended v = record {
      gone_after = gone;
      out_after = out;
      once = λ rs h. h;
      tidy = moved value q gone out i t finished (λ p. absurd cc) tt (λ h. refl);
    }

    -- A pop finds no head.
    found_none : StepOnce out (some found_empty, goto t finished q)
    unfolding add_return
    found_none = record {
      gone_after = gone;
      out_after = out;
      once = λ rs h. h;
      tidy = moved value q gone out i t finished (λ p. absurd cc) tt (λ h. refl);
    }

    branched :
        (p h : ℕ) → pending (q.caller t) ≡ true → StepOnce out (none, goto t (push_branch p h) q)
    unfolding push_branch
    branched p h mine = elim (Bool-cases (h == null && not (p == null))) [
      | inl tail_only ↦ rw tail_only (went (push_clear p) (λ _. mine) tt (λ k. refl))
      | inr both ↦ rw both (elim (Bool-cases (p == null)) [
        | inl no_tail ↦ rw no_tail (went (push_install h) (λ _. mine) tt (λ k. refl))
        | inr has_tail ↦ rw has_tail (went (push_next p) (λ _. mine) tt (λ k. refl))
      ])
    ]

    taken :
        (b : Bool) (h : ℕ)
        → q.caller t ≡ pop_clear h
        → StepOnce out (caller_step b t q (pop_clear h))
    unfolding caller_step add_return
    taken b h e =
        let (_, not_out) = known value q gone out i t (pop_clear h) e in
        record {
          gone_after = gone;
          out_after = update out h true;
          once = λ rs k. (not_out, i.values h, k);
          tidy = clear value q gone out i t h e;
        }

    swapped :
        (h n : ℕ)
        → q.caller t ≡ pop_swap h n
        → q.head ≡ h
        → StepOnce out (none, record (goto t (pop_clear h) q) { head = n })
    unfolding add_return
    swapped h n e at_h = record {
      gone_after = update gone h true;
      out_after = out;
      once = λ rs k. k;
      tidy = swap value q gone out i t h n e at_h;
    }

    appended :
        (p : ℕ)
        → q.caller t ≡ push_append p
        → (q.node p).next ≡ null
        → StepOnce out (none, record (goto t push_set_tail q) { node = set_next p (q.own t) q })
    unfolding add_return
    appended p e last = record {
      gone_after = gone;
      out_after = out;
      once = λ rs k. k;
      tidy = append value q gone out i t p e last;
    }

    headed :
        (v : V)
        → q.caller t ≡ push_set_head
        → StepOnce out (some (pushed v), record (goto t finished q) { head = q.own t })
    unfolding add_return
    headed v e = record {
      gone_after = gone;
      out_after = out;
      once = λ rs k. k;
      tidy = set_head value q gone out i t finished refl tt (λ k. refl) (rw e refl);
    }

    caller_step-StepOnce :
        (b : Bool) (c : Caller) → q.caller t ≡ c → StepOnce out (caller_step b t q c)
    unfolding caller_step add_return
    caller_step-StepOnce b push_load_tail e =
        went (push_load_head q.tail) (λ _. rw e refl) tt (λ h. refl)
    caller_step-StepOnce b (push_load_head p) e = branched p q.head (rw e refl)
    caller_step-StepOnce b (push_clear p) e = elim (Bool-cases (q.tail == p && not b)) [
      | inl stored ↦ rw stored (with_tail null (again (rw e refl)))
      | inr failed ↦ rw failed (again (rw e refl))
    ]
    caller_step-StepOnce b (push_install h) e = elim (Bool-cases (q.tail == null && not b)) [
      | inl stored ↦ rw stored (elim (Bool-cases (h == null)) [
        | inl empty ↦
            rw empty (with_tail (q.own t) (went push_set_head (λ _. rw e refl) tt (λ k. refl)))
        | inr full ↦ rw full (with_tail (q.own t) (ended (own_value t q)))
      ])
      | inr failed ↦ rw failed (again (rw e refl))
    ]
    caller_step-StepOnce b push_set_head e = elim (Bool-cases (q.head == null)) [
      | inl empty ↦ rw empty (headed (own_value t q) e)
      | inr full ↦ rw full (ended (own_value t q))
    ]
    caller_step-StepOnce b (push_next p) e = elim (Bool-cases ((q.node p).next == null)) [
      | inl last ↦ rw last (went (push_append p) (λ _. rw e refl) tt (λ h. refl))
      | inr more ↦ rw more (again (rw e refl))
    ]
    caller_step-StepOnce b (push_append p) e =
        elim (Bool-cases ((q.node p).next == null && not b)) [
          | inl stored ↦ rw stored (appended p e (ground (arith, stored)))
          | inr failed ↦ rw failed (again (rw e refl))
        ]
    caller_step-StepOnce b push_set_tail e = with_tail (q.own t) (ended (own_value t q))
    caller_step-StepOnce b pop_load e = elim (Bool-cases (q.head == null)) [
      | inl none_left ↦ rw none_left (found_none)
      | inr some_left ↦
          rw some_left
            (went (pop_next q.head) (λ p. absurd cc) (λ z. cc (rw z at some_left)) (λ k. refl))
    ]
    caller_step-StepOnce b (pop_next h) e =
        went (pop_swap h (q.node h).next) (λ p. absurd cc)
          (known value q gone out i t (pop_next h) e, inr (inl refl)) (λ k. refl)
    caller_step-StepOnce b (pop_swap h n) e = elim (Bool-cases (q.head == h && not b)) [
      | inl stored ↦ rw stored (swapped h n e (ground (arith, stored)))
      | inr failed ↦ rw failed (went pop_load (λ p. absurd cc) tt (λ k. refl))
    ]
    caller_step-StepOnce b (pop_clear h) e = taken b h e
    caller_step-StepOnce b finished e = record {
      gone_after = gone;
      out_after = out;
      once = λ rs k. k;
      tidy = i;
    }

  -- Every run of threads that push and pop on the lock-free queue, step by step in any order and
  -- with exchanges that fail for no reason anywhere, from a state in which each node has the value
  -- that `value` gives it, no node is the next one of two, the nodes to push are distinct and
  -- nothing leads to them, what leads to the head or to a node that is gone is gone and the head
  -- is not, and what the threads have read holds: each pop that returns an item has taken a node
  -- that no pop before it took, neither in the run nor in `out`, and the item is the value of the
  -- node.
  pub run_callers-OnceEach :
      (moves : List (ℕ × Bool)) (q : SharedQueue V) (gone out : ℕ → Bool)
      → Tidy value gone out q.head q.node q.own q.caller
      → OnceEach out (run_callers moves q).0
  unfolding run_callers
  run_callers-OnceEach [] q gone out i = tt
  run_callers-OnceEach ((t, b) ∷ moves) q gone out i =
      let c = q.caller t in
      let s = caller_step-StepOnce q gone out i t b c refl in
      let q1 = (caller_step b t q c).1 in
      s.once (run_callers moves q1).0
        (run_callers-OnceEach moves q1 s.gone_after s.out_after s.tidy)
