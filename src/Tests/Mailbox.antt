-- ===== src/Tests/Mailbox.antt =====
-- A mailbox on a queue with one item: its order in a run, and a reader that misses a `notify`.
use lock_free.Common.{
  ℕ, ◌≡◌, refl, ◌⊎◌, inl, inr, some, Option, none, List, [], ◌∷◌, ◌++◌, ◌==◌, if◌then◌else◌, length,
}
use lock_free.Types.{Node, Result, success, empty}
use lock_free.Command.{Returns, returns}
use lock_free.Arena.{World}
use lock_free.Queue.Ops.{Queue}
use lock_free.Mailbox.{
  Fifo, Mailbox, outside, Move, call_read, go_on, time_out, call_write, Event, written, got,
  timed_out, notified, waiting, run, step, read_check, read_pop, write_push, notify, add_event,
}
use lock_free.Tests.Containers.{one_item}

-- A queue that is a list.
append-Fifo :
    (v : ℕ) (vs ws : List ℕ)
    → vs ≡ ws
    → Returns {B = Result × ℕ}
        (λ r s'.
          ((ws ≡ []) × (r ≡ (empty, v)) × (s' ≡ ws))
          ⊎ ((x : ℕ) × (ys : List ℕ) × (ws ≡ x ∷ ys) × (r ≡ (success, x)) × (s' ≡ ys)))
        (elim vs [ [] ↦ some ((empty, v), []) | x ∷ ys ↦ some ((success, x), ys) ])
append-Fifo v [] ws e = returns (inl (cc, refl, e))
append-Fifo v (x ∷ ys) ws e = returns (inr (x, ys, cc, refl, refl))

abbrev list_fifo : Fifo ℕ
list_fifo = record {
  State = List ℕ;
  push = λ v vs. some (success, vs ++ (v ∷ []));
  pop = λ v vs. elim vs [ [] ↦ some ((empty, v), []) | x ∷ ys ↦ some ((success, x), ys) ];
  is_empty = λ vs. some (length vs == 0, vs);
  Holds = λ vs ws. vs ≡ ws;
  Ready = λ _. Unit {0};
  push_law = λ v s vs h _. returns (inr (refl, rw h refl));
  pop_law = λ v s vs h. append-Fifo v s vs h;
  is_empty_law = λ s vs h. returns (rw h refl, h);
}

abbrev no_letters : Mailbox (List ℕ)
no_letters = record { queue = []; place = λ _. outside }

abbrev events : {S : Type 0} → Option (List (Event ℕ) × S) → Option (List (Event ℕ))
events none = none
events (some (es, mb)) = some es

-- Thread 1 finds the queue empty, thread 2 writes 8 and notifies, and only then thread 1 waits: its
-- time is up while 8 is in the queue. A second read takes it at once.
abbrev missed_moves : List (ℕ × Move ℕ)
missed_moves =
    (1, call_read)
    ∷ (2, call_write 8)
    ∷ (2, go_on)
    ∷ (1, go_on)
    ∷ (1, time_out)
    ∷ (1, call_read)
    ∷ (1, go_on)
    ∷ []

missed_test :
    events (run list_fifo 0 missed_moves no_letters)
    ≡ some (written 8 ∷ notified ∷ timed_out ∷ got 8 ∷ [])
unfolding run step read_check read_pop write_push notify add_event
missed_test = refl

-- Thread 1 waits, and the `notify` of thread 2 wakes it up.
abbrev woken_moves : List (ℕ × Move ℕ)
woken_moves = (1, call_read) ∷ (1, go_on) ∷ (2, call_write 8) ∷ (2, go_on) ∷ (1, go_on) ∷ []

woken_test :
    events (run list_fifo 0 woken_moves no_letters) ≡ some (written 8 ∷ notified ∷ got 8 ∷ [])
unfolding run step read_check read_pop write_push notify add_event
woken_test = refl

-- Thread 5 waits.
abbrev one_letter : Mailbox (Queue (World (Node ℕ)))
one_letter = record { queue = one_item; place = λ t. if t == 5 then waiting else outside }

abbrev letter_moves : List (ℕ × Move ℕ)
letter_moves =
    (2, call_write 8) ∷ (1, call_read) ∷ (2, go_on) ∷ (1, go_on) ∷ (3, call_read) ∷ (3, go_on) ∷ []
