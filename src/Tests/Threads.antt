-- ===== src/Tests/Threads.antt =====
-- Runs of threads on the lock-free stack: one in which it keeps its order, and one in which an item
-- comes out twice.
use lock_free.Common.{
  ℕ, ◌≡◌, refl, sym, ◌∙◌, Bool, true, false, List, [], ◌∷◌, arith, ltb, if◌then◌else◌, ◌==◌,
  Bool-cases, inl, inr,
}
use lock_free.NodeArena.Chain.{Cells, values, nil, cons}
use lock_free.Stack.Threads.{
  Thread, push_load, pop_load, finished, pushed, popped, Shared, act, log, link_own, run,
}
use lock_free.Stack.Consistent.{Consistent, ThreadOk, pending}
use lock_free.Stack.Linear.{Replays, CleanRun, run-Replays}

-- Thread 1 pushes 7 in the node 20; threads 2, 3 and 4 pop; the stack has 5 in the node 10.
abbrev threads : ℕ → Thread
threads t = if t == 1 then push_load else (if ltb t 5 then pop_load else finished)

abbrev start : Shared ℕ
start = record {
  head = 10;
  node = λ p. if p == 10 then record { value = 5; next = 0 } else record { value = 7; next = 0 };
  own = λ t. 20;
  thread = threads;
}

abbrev start_cells : Cells ℕ
start_cells = (10, 5) ∷ []

-- Thread 1 loads and links, thread 2 takes the item, thread 1 tries again and finds the stack empty:
-- its node still leads to the node that is gone, and threads 3 and 4 take two items.
abbrev stale_moves : List (ℕ × Bool)
stale_moves =
    (1, false)
    ∷ (1, false)
    ∷ (2, false)
    ∷ (2, false)
    ∷ (2, false)
    ∷ (1, false)
    ∷ (1, false)
    ∷ (1, false)
    ∷ (1, false)
    ∷ (3, false)
    ∷ (3, false)
    ∷ (3, false)
    ∷ (4, false)
    ∷ (4, false)
    ∷ (4, false)
    ∷ []

popped_twice_test : (run stale_moves start).0 ≡ popped 5 ∷ pushed 7 ∷ popped 7 ∷ popped 5 ∷ []
unfolding run act log link_own
popped_twice_test = refl

only_pusher : (t : ℕ) → pending (threads t) ≡ true → t ≡ 1
only_pusher t p = elim (Bool-cases (t == 1)) [
  | inl here ↦ ground arith
  | inr other ↦ elim (Bool-cases (ltb t 5)) [ inl below ↦ cc | inr above ↦ cc ]
]

start-Consistent : Consistent start start_cells
unfolding ThreadOk
start-Consistent = record {
  chain = cons (omega arith) refl refl nil;
  bare = λ t p. (omega arith, refl);
  distinct = λ t u p q n. λ e. n (only_pusher t p ∙ sym (only_pusher u q));
  ok = λ t. elim (Bool-cases (t == 1)) [
    | inl here ↦ rw here tt
    | inr other ↦
        rw other (elim (Bool-cases (ltb t 5)) [ inl below ↦ rw below tt | inr above ↦ rw above tt ])
  ];
}

-- Thread 2 pops while thread 1 pushes, and the exchange of thread 1 fails once for no reason.
abbrev clean_moves : List (ℕ × Bool)
clean_moves =
    (2, false)
    ∷ (1, false)
    ∷ (1, false)
    ∷ (2, false)
    ∷ (1, true)
    ∷ (1, false)
    ∷ (1, false)
    ∷ (1, false)
    ∷ (2, false)
    ∷ (3, false)
    ∷ []

clean_moves-CleanRun : CleanRun clean_moves start
unfolding CleanRun act link_own
clean_moves-CleanRun = (
  λ e z. refl,
  (
    λ e z. refl,
    (
      λ e z. refl,
      (
        λ e z. z,
        (
          λ e z. z,
          (
            λ e z. z,
            (
              λ e z. z,
              (λ e z. z, (λ e z. absurd (omega arith), (λ e z. absurd (omega arith), tt))),
            ),
          ),
        ),
      ),
    ),
  ),
)

run-Replays_example :
    (ys : Cells ℕ) × Consistent (run clean_moves start).1 ys
    × Replays (run clean_moves start).0 (values start_cells) (values ys)
run-Replays_example =
    run-Replays clean_moves start start_cells start-Consistent clean_moves-CleanRun
