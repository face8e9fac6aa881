-- ===== src/Queue/Tidy.antt =====
-- What holds of the nodes of the `lockfree` queue, include/queue.h, in whatever order threads step.
use lock_free.Common.{
  ℕ, ◌≡◌, ◌≢◌, sym, subst, ◌⊎◌, inl, inr, Bool, true, false, ◌==◌, update, arith, Bool-cases,
  ==_self, eq_of_==,
}
use lock_free.MemoryAddress.{null}
use lock_free.Types.{Node}
use lock_free.Queue.Threads.{
  Caller, push_load_tail, push_load_head, push_clear, push_next, push_append, push_install,
  push_set_head, push_set_tail, pop_load, pop_next, pop_clear, pop_swap, finished,
}

-- Has the thread a node that neither the head nor another node leads to yet?
abbrev pub pending : Caller → Bool
pending push_load_tail = true
pending (push_load_head p) = true
pending (push_clear p) = true
pending (push_next p) = true
pending (push_append p) = true
pending (push_install p) = true
pending push_set_head = true
pending push_set_tail = false
pending pop_load = false
pending (pop_next h) = false
pending (pop_clear h) = false
pending (pop_swap h n) = false
pending finished = false

-- Has the thread taken the node, and not returned?
abbrev pub clears : Caller → ℕ → Bool
clears (pop_clear h) i = i == h
clears push_load_tail i = false
clears (push_load_head p) i = false
clears (push_clear p) i = false
clears (push_next p) i = false
clears (push_append p) i = false
clears (push_install p) i = false
clears push_set_head i = false
clears push_set_tail i = false
clears pop_load i = false
clears (pop_next h) i = false
clears (pop_swap h n) i = false
clears finished i = false

module _ {V : Type 0} where
  -- What a thread knows of the node that it pops: what it has read as the next node is still there,
  -- or was null, or the node is gone.
  abbrev pub Knows : (gone out : ℕ → Bool) → (ℕ → Node V) → Caller → Type 0
  Knows gone out node (pop_next h) = h ≢ null
  Knows gone out node (pop_swap h n) =
      (h ≢ null) × ((n ≡ null) ⊎ ((node h).next ≡ n) ⊎ (gone h ≡ true))
  Knows gone out node (pop_clear h) = (gone h ≡ true) × (out h ≡ false)
  Knows gone out node push_load_tail = Unit {0}
  Knows gone out node (push_load_head p) = Unit {0}
  Knows gone out node (push_clear p) = Unit {0}
  Knows gone out node (push_next p) = Unit {0}
  Knows gone out node (push_append p) = Unit {0}
  Knows gone out node (push_install p) = Unit {0}
  Knows gone out node push_set_head = Unit {0}
  Knows gone out node push_set_tail = Unit {0}
  Knows gone out node pop_load = Unit {0}
  Knows gone out node finished = Unit {0}

  -- Nothing leads to the node, and it has not been taken.
  abbrev pub Fresh : (gone : ℕ → Bool) (head : ℕ) → (ℕ → Node V) → ℕ → Type 0
  Fresh gone head node w =
      (w ≢ null) × (w ≢ head) × (gone w ≡ false) × ((a : ℕ) → (node a).next ≢ w)

  module _ (gone out gone' out' : ℕ → Bool) (node node' : ℕ → Node V) where
    -- A thread's knowledge outlives what other threads do.
    pub Knows-step :
        (c : Caller)
        → ((h : ℕ) → gone h ≡ true → gone' h ≡ true)
        → ((h : ℕ) → clears c h ≡ true → out h ≡ false → out' h ≡ false)
        → ((h n : ℕ) → (node h).next ≡ n → (n ≡ null) ⊎ ((node' h).next ≡ n) ⊎ (gone' h ≡ true))
        → Knows gone out node c
        → Knows gone' out' node' c
    Knows-step (pop_next h) grow same link k = k
    Knows-step (pop_swap h n) grow same link (ne, inl z) = (ne, inl z)
    Knows-step (pop_swap h n) grow same link (ne, inr (inl l)) = (ne, link h n l)
    Knows-step (pop_swap h n) grow same link (ne, inr (inr g)) = (ne, inr (inr (grow h g)))
    Knows-step (pop_clear h) grow same link (g, o) = (grow h g, same h (==_self h) o)
    Knows-step push_load_tail grow same link k = tt
    Knows-step (push_load_head p) grow same link k = tt
    Knows-step (push_clear p) grow same link k = tt
    Knows-step (push_next p) grow same link k = tt
    Knows-step (push_append p) grow same link k = tt
    Knows-step (push_install p) grow same link k = tt
    Knows-step push_set_head grow same link k = tt
    Knows-step push_set_tail grow same link k = tt
    Knows-step pop_load grow same link k = tt
    Knows-step finished grow same link k = tt

  pub clears-gone :
      (gone out : ℕ → Bool) (node : ℕ → Node V) (c : Caller) (h : ℕ)
      → Knows gone out node c
      → clears c h ≡ true
      → gone h ≡ true
  clears-gone gone out node (pop_clear p) h (g, o) e =
      subst (λ x. gone x ≡ true) (sym (eq_of_== h p e)) g
  clears-gone gone out node push_load_tail h k e = absurd cc
  clears-gone gone out node (push_load_head p) h k e = absurd cc
  clears-gone gone out node (push_clear p) h k e = absurd cc
  clears-gone gone out node (push_next p) h k e = absurd cc
  clears-gone gone out node (push_append p) h k e = absurd cc
  clears-gone gone out node (push_install p) h k e = absurd cc
  clears-gone gone out node push_set_head h k e = absurd cc
  clears-gone gone out node push_set_tail h k e = absurd cc
  clears-gone gone out node pop_load h k e = absurd cc
  clears-gone gone out node finished h k e = absurd cc
  clears-gone gone out node (pop_next n) h k e = absurd cc
  clears-gone gone out node (pop_swap n m) h k e = absurd cc

  -- `gone` are the nodes that pops have taken, `out` those of the pops that have returned. The head
  -- is not gone, and what leads to the head or to a node that is gone is gone; no node is led to
  -- twice.
  pub record Tidy (value : ℕ → V) (gone out : ℕ → Bool) (head : ℕ) (node : ℕ → Node V) (own : ℕ → ℕ)
      (caller : ℕ → Caller) : Type 0 where
    pub values : (p : ℕ) → (node p).value ≡ value p
    pub present : head ≢ null → gone head ≡ false
    pub order :
        (a : ℕ)
        → (node a).next ≢ null
        → ((node a).next ≡ head) ⊎ (gone (node a).next ≡ true)
        → gone a ≡ true
    pub unique : (a b : ℕ) → (node a).next ≢ null → (node a).next ≡ (node b).next → a ≡ b
    pub fresh : (t : ℕ) → pending (caller t) ≡ true → Fresh gone head node (own t)
    pub distinct :
        (t u : ℕ) → pending (caller t) ≡ true → pending (caller u) ≡ true → t ≢ u → own t ≢ own u
    pub knows : (t : ℕ) → Knows gone out node (caller t)
    pub alone : (t u h : ℕ) → clears (caller t) h ≡ true → clears (caller u) h ≡ true → t ≡ u
    pub returned : (p : ℕ) → out p ≡ true → gone p ≡ true

  -- The part of it that speaks of no thread.
  pub record Nodes (value : ℕ → V) (gone out : ℕ → Bool) (head : ℕ) (node : ℕ → Node V)
      : Type 0 where
    pub values : (p : ℕ) → (node p).value ≡ value p
    pub present : head ≢ null → gone head ≡ false
    pub order :
        (a : ℕ)
        → (node a).next ≢ null
        → ((node a).next ≡ head) ⊎ (gone (node a).next ≡ true)
        → gone a ≡ true
    pub unique : (a b : ℕ) → (node a).next ≢ null → (node a).next ≡ (node b).next → a ≡ b
    pub returned : (p : ℕ) → out p ≡ true → gone p ≡ true

  module _ {value : ℕ → V} {gone out : ℕ → Bool} {head : ℕ} {node : ℕ → Node V} {own : ℕ → ℕ}
      {caller : ℕ → Caller} (i : Tidy value gone out head node own caller) (t : ℕ) (c : Caller)
      (less : pending c ≡ true → pending (caller t) ≡ true) where
    still : (u : ℕ) → pending (update caller t c u) ≡ true → pending (caller u) ≡ true
    still u p = elim (Bool-cases (u == t)) [
      | inl here ↦
          let e : u ≡ t = ground arith in
          subst (λ x. pending (caller x) ≡ true) (sym e) (less (rw here at p))
      | inr there ↦ rw there at p
    ]

    pub Tidy-step :
        {gone' out' : ℕ → Bool} {head' : ℕ} {node' : ℕ → Node V}
        → Nodes value gone' out' head' node'
        → ((u : ℕ)
            → pending (caller u) ≡ true
            → (u ≢ t) ⊎ (pending c ≡ true)
            → Fresh gone' head' node' (own u))
        → ((u : ℕ) → u ≢ t → Knows gone' out' node' (caller u))
        → Knows gone' out' node' c
        → ((h : ℕ) → clears c h ≡ true → (u : ℕ) → u ≢ t → clears (caller u) h ≡ false)
        → Tidy value gone' out' head' node' own (update caller t c)
    Tidy-step ns fresh others k only = record {
      values = ns.values;
      present = ns.present;
      order = ns.order;
      unique = ns.unique;
      returned = ns.returned;
      fresh = λ u p. fresh u (still u p) (elim (Bool-cases (u == t)) [
        | inl here ↦ inr (rw here at p)
        | inr there ↦ inl (ground (arith, there))
      ]);
      distinct = λ u v p q n. i.distinct u v (still u p) (still v q) n;
      knows = λ u. elim (Bool-cases (u == t)) [
        | inl here ↦ rw here k
        | inr there ↦ rw there (others u (ground (arith, there)))
      ];
      alone = λ u x h p q. elim (Bool-cases (u == t)) [
        | inl u_t ↦ elim (Bool-cases (x == t)) [
          | inl x_t ↦ ground (arith, u_t, x_t)
          | inr x_n ↦
              let hw = rw u_t at p in
              let hx = rw x_n at q in absurd (cc (only h hw x (ground (arith, x_n)), hx))
        ]
        | inr u_n ↦ elim (Bool-cases (x == t)) [
          | inl x_t ↦
              let hw = rw x_t at q in
              let hu = rw u_n at p in absurd (cc (only h hw u (ground (arith, u_n)), hu))
          | inr x_n ↦ i.alone u x h (rw u_n at p) (rw x_n at q)
        ]
      ];
    }

    pub nodes : Nodes value gone out head node
    nodes = record {
      values = i.values;
      present = i.present;
      order = i.order;
      unique = i.unique;
      returned = i.returned;
    }
