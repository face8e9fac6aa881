-- ===== src/Tests/ArenaThreads.antt =====
-- Runs of threads on the lock-free allocator: one that keeps the list of the free slots, and one that
-- hands a slot out twice.
use lock_free.Common.{
  ℕ, zero, suc, ◌≡◌, refl, Bool, false, List, [], ◌∷◌, ◌==◌, if◌then◌else◌, arith,
}
use lock_free.MemoryAddress.{ptr64, fresh, set_address, set_flag, unset_flag, test_flag}
use lock_free.Arena.Slot.{MemorySlot, set_free, set_in_use, set_free_lem}
use lock_free.Arena.FreeList.{nil, cons}
use lock_free.LockFreeArena.Threads.{
  idle, taken, given, SharedArena, client_step, add_event, run_clients,
}
use lock_free.LockFreeArena.Held.{Shares}
use lock_free.LockFreeArena.Runs.{SlotReplays, CurrentRun, run_clients-SlotReplays}

abbrev leading_to : ℕ → MemorySlot ℕ
leading_to q = set_free ptr64 (record { ptr_next = fresh; user_data = 0 }) q

-- The free slots 8, 16 and 24.
abbrev three_free : SharedArena ℕ
three_free = record {
  mem = λ p. if p == 8 then leading_to 16 else (if p == 16 then leading_to 24 else leading_to 0);
  next_free = 8;
  free_slots = 3;
  client = λ t. idle;
}

abbrev moves_of : (t n : ℕ) → List (ℕ × Bool) → List (ℕ × Bool)
moves_of t zero rest = rest
moves_of t (suc k) rest = (t, false) ∷ moves_of t k rest

-- Thread 1 has read that 8 is the first slot and 16 the next. Threads 2 and 3 take both, and thread 2
-- gives 8 back, which leads to 24 now. The exchange of thread 1 finds 8 again and makes 16 the first
-- slot; thread 4 gets it while thread 3 has it.
abbrev stale_moves : List (ℕ × Bool)
stale_moves =
    moves_of 1 3 (moves_of 2 6 (moves_of 3 6 (moves_of 2 5 (moves_of 1 1 (moves_of 4 4 [])))))

taken_twice_test :
    (run_clients ptr64 32 stale_moves three_free).0
    ≡ taken 8 ∷ taken 16 ∷ given 8 ∷ taken 8 ∷ taken 16 ∷ []
unfolding run_clients client_step add_event set_free set_in_use set_address set_flag unset_flag
    test_flag
taken_twice_test = refl

-- Thread 2 takes 8 before the exchange of thread 1, which begins again and takes 16.
abbrev clean_moves : List (ℕ × Bool)
clean_moves = moves_of 1 3 (moves_of 2 4 (moves_of 1 4 []))

three_free-Shares :
    Shares ptr64 three_free.mem three_free.next_free three_free.client (8 ∷ 16 ∷ 24 ∷ [])
three_free-Shares =
    let blank : MemorySlot ℕ = record { ptr_next = fresh; user_data = 0 } in
    let to_16 = set_free_lem ptr64 blank 16 (omega arith) in
    let to_24 = set_free_lem ptr64 blank 24 (omega arith) in
    let to_0 = set_free_lem ptr64 blank 0 (omega arith) in
    record {
      free =
          cons (omega arith) to_16.0 to_16.2 refl
            (cons (omega arith) to_24.0 to_24.2 refl (cons (omega arith) to_0.0 to_0.2 refl nil));
      fits = λ a h. grind arith;
      knows = λ t. tt;
      alone = λ t u i h h'. cc;
      away = λ t i h. cc;
    }

clean_moves-CurrentRun : CurrentRun ptr64 32 clean_moves three_free
unfolding client_step set_free set_in_use set_address set_flag unset_flag test_flag
clean_moves-CurrentRun =
    (tt, (tt, (tt, (tt, (tt, (tt, (λ e. refl, (λ e. refl, (tt, (tt, (λ e. refl, tt)))))))))))

run_clients-SlotReplays_example :
    let (es, s') = run_clients ptr64 32 clean_moves three_free in
    (ys : List ℕ) × SlotReplays (8 ∷ 16 ∷ 24 ∷ []) es ys
    × Shares ptr64 s'.mem s'.next_free s'.client ys
run_clients-SlotReplays_example =
    run_clients-SlotReplays ptr64 32 clean_moves three_free (8 ∷ 16 ∷ 24 ∷ []) three_free-Shares
      clean_moves-CurrentRun
