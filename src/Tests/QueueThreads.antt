-- ===== src/Tests/QueueThreads.antt =====
-- Runs of threads on the lock-free queue: two in which an item is lost, and one in which none is.
use lock_free.Common.{
  ℕ, zero, suc, ◌<◌, ◌≡◌, ◌≢◌, refl, sym, inl, inr, Bool, true, false, List, [], ◌∷◌, ltb,
  if◌then◌else◌, ◌==◌, arith, Bool-cases,
}
use lock_free.Queue.Tidy.{pending, clears, Knows, Tidy}
use lock_free.Queue.Once.{OnceEach, run_callers-OnceEach}
use lock_free.Queue.Threads.{
  Caller, push_load_tail, pop_load, finished, pushed, popped, found_empty, SharedQueue, caller_step,
  add_return, push_branch, own_value, set_next, run_callers,
}

-- Threads 1 and 2 push 7 and 8 in the nodes 20 and 30; threads 3 and 4 pop.
abbrev callers : ℕ → Caller
callers t = if ltb t 3 then push_load_tail else (if ltb t 5 then pop_load else finished)

-- The values of the nodes that are there from the start.
abbrev value_of : ℕ → ℕ
value_of p = if p == 20 then 7 else (if p == 30 then 8 else 5)

abbrev empty_queue : SharedQueue ℕ
empty_queue = record {
  head = 0;
  tail = 0;
  node = λ p. record { value = value_of p; next = 0 };
  own = λ t. if t == 1 then 20 else (if t == 2 then 30 else 40);
  caller = callers;
}

-- The queue with 5 in the node 10.
abbrev one_item : SharedQueue ℕ
one_item = record empty_queue { head = 10; tail = 10 }

abbrev moves_of : (t n : ℕ) → List (ℕ × Bool) → List (ℕ × Bool)
moves_of t zero rest = rest
moves_of t (suc k) rest = (t, false) ∷ moves_of t k rest

-- Thread 1 stores the tail, thread 2 clears it and pushes, and thread 1 finds a head: 7 is lost.
abbrev two_pushes : List (ℕ × Bool)
two_pushes = moves_of 1 3 (moves_of 2 7 (moves_of 1 1 (moves_of 3 4 (moves_of 4 1 []))))

two_pushes_test :
    (run_callers two_pushes empty_queue).0 ≡ pushed 8 ∷ pushed 7 ∷ popped 30 8 ∷ found_empty ∷ []
unfolding run_callers caller_step add_return push_branch own_value set_next
two_pushes_test = refl

-- Thread 3 loads the head and its successor, thread 1 appends behind it, and the exchange of
-- thread 3 makes the successor loaded before the head: 7 is lost.
abbrev push_in_pop : List (ℕ × Bool)
push_in_pop = moves_of 3 2 (moves_of 1 5 (moves_of 3 2 (moves_of 4 1 [])))

push_in_pop_test : (run_callers push_in_pop one_item).0 ≡ pushed 7 ∷ popped 10 5 ∷ found_empty ∷ []
unfolding run_callers caller_step add_return push_branch own_value set_next
push_in_pop_test = refl

-- The same calls, one after the other, with an exchange of thread 1 that fails once for no reason.
abbrev in_turn : List (ℕ × Bool)
in_turn = moves_of 1 3 ((1, true) ∷ moves_of 1 5 (moves_of 3 4 (moves_of 4 4 [])))

in_turn_test : (run_callers in_turn one_item).0 ≡ pushed 7 ∷ popped 10 5 ∷ popped 20 7 ∷ []
unfolding run_callers caller_step add_return push_branch own_value set_next
in_turn_test = refl

pushes_below : (t : ℕ) → pending (callers t) ≡ true → t < 3
pushes_below t p = elim (Bool-cases (ltb t 3)) [
  | inl low ↦ ground (arith, low)
  | inr high ↦ elim (Bool-cases (ltb t 5)) [
    | inl mid ↦ absurd (cc (rw (high, mid) at p))
    | inr top ↦ absurd (cc (rw (high, top) at p))
  ]
]

own_bounds : (t : ℕ) → (one_item.own t ≢ 0) × (one_item.own t ≢ 10)
own_bounds t = ((λ e. ground (arith, e)), (λ e. ground (arith, e)))

callers_quiet : (t h : ℕ) → clears (callers t) h ≡ false
callers_quiet t h = elim (Bool-cases (ltb t 3)) [
  | inl low ↦ rw low refl
  | inr high ↦ elim (Bool-cases (ltb t 5)) [
    | inl mid ↦ rw (high, mid) refl
    | inr top ↦ rw (high, top) refl
  ]
]

callers-Knows : (t : ℕ) → Knows (λ p. false) (λ p. false) one_item.node (callers t)
callers-Knows t = elim (Bool-cases (ltb t 3)) [
  | inl low ↦ rw low tt
  | inr high ↦ elim (Bool-cases (ltb t 5)) [
    | inl mid ↦ rw (high, mid) tt
    | inr top ↦ rw (high, top) tt
  ]
]

one_item-Tidy :
    Tidy value_of (λ p. false) (λ p. false) 10 one_item.node one_item.own one_item.caller
one_item-Tidy = record {
  values = λ p. refl;
  present = λ ne. refl;
  order = λ a ne l. absurd (ne refl);
  unique = λ a b ne e. absurd (ne refl);
  fresh = λ t p. let (nz, n10) = own_bounds t in (nz, n10, refl, (λ a l. nz (sym l)));
  distinct = λ t u p q ne e. ground (arith, pushes_below t p, pushes_below u q, ne, e);
  knows = callers-Knows;
  alone = λ t u h p q. absurd (cc (p, callers_quiet t h));
  returned = λ p o. absurd cc;
}

run_callers-OnceEach_example : OnceEach value_of (λ p. false) (run_callers push_in_pop one_item).0
run_callers-OnceEach_example =
    run_callers-OnceEach value_of push_in_pop one_item (λ p. false) (λ p. false) one_item-Tidy
