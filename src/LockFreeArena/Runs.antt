-- ===== src/LockFreeArena/Runs.antt =====
-- Runs of threads on the lock-free allocator, include/arena_allocator.h.
use lock_free.Common.{
  ℕ, ◌≡◌, refl, subst, sym, ◌∙◌, inl, inr, Bool, true, not, ◌&&◌, Option, none, some, List, [], ◌∷◌,
  ◌==◌, arith, Bool-cases, ==_self, eq_of_==,
}
use lock_free.MemoryAddress.{Arch, null}
use lock_free.Arena.Slot.{next, set_free, set_in_use, set_free_lem, set_in_use_lem}
use lock_free.LockFreeArena.Threads.{
  Client, idle, alloc_load, alloc_next, alloc_swap, alloc_mark, alloc_count, holding, free_load,
  free_test, free_link, free_swap, free_count, SlotEvent, SharedArena, client_step, add_event,
  run_clients,
}
use lock_free.LockFreeArena.Held.{has_slot, Shares}
use lock_free.LockFreeArena.Linear.{
  SlotEffect, Stepped, Current, knows, head_fits, moved, moved-Stepped, none-Stepped, wrote-Stepped,
  taken-Stepped, given-Stepped,
}

-- The events, in their order, take slots from the front of the list and put them there.
abbrev pub SlotReplays : List ℕ → List SlotEvent → List ℕ → Type 0
SlotReplays xs [] zs = xs ≡ zs
SlotReplays xs (e ∷ es) zs = (ys : List ℕ) × SlotEffect (some e) xs ys × SlotReplays ys es zs

SlotReplays-add :
    (e : Option SlotEvent) (xs ys zs : List ℕ) (es : List SlotEvent)
    → SlotEffect e xs ys
    → SlotReplays ys es zs
    → SlotReplays xs (add_event e es) zs
unfolding add_event
SlotReplays-add none xs ys zs es p r = subst (λ x. SlotReplays x es zs) (sym p) r
SlotReplays-add (some e) xs ys zs es p r = (ys, p, r)

module _ {A : Type 0} (arch : Arch) (size_bits : ℕ) where
  module _ (s : SharedArena A) (xs : List ℕ) (i : Shares arch s.mem s.next_free s.client xs)
      (t : ℕ) where
    same :
        (c c' : Client)
        → s.client t ≡ c
        → ((p : ℕ) → has_slot c' p ≡ has_slot c p)
        → (p : ℕ) → has_slot c' p ≡ true
        → has_slot (s.client t) p ≡ true
    same c c' e h p k = rw e (sym (h p) ∙ k)

    client_step-Stepped :
        (b : Bool) (c : Client)
        → s.client t ≡ c
        → Current s.mem s.next_free c
        → Stepped arch xs (client_step arch size_bits b t s c)
    unfolding client_step
    client_step-Stepped b idle e current = moved-Stepped arch s xs i t alloc_load tt (λ p h. cc)
    client_step-Stepped b alloc_load e current = elim (Bool-cases (s.next_free == null)) [
      | inl z ↦ rw z (none-Stepped arch s xs i t (eq_of_== s.next_free null z))
      | inr nz ↦ rw nz (
          moved-Stepped arch s xs i t (alloc_next s.next_free)
            ((λ z. cc (rw z at nz)), head_fits arch s xs i t) (λ p h. cc))
    ]
    client_step-Stepped b (alloc_next p) e current =
        moved-Stepped arch s xs i t (alloc_swap p (next (s.mem p)))
          (knows arch s xs i t (alloc_next p) e) (λ p h. cc)
    client_step-Stepped b (alloc_swap p n) e current =
        elim (Bool-cases (s.next_free == p && not b)) [
          | inl stored ↦
              let at_p : s.next_free ≡ p = ground (arith, stored) in
              rw stored (taken-Stepped arch s xs i t p n e at_p (current at_p))
          | inr failed ↦ rw failed (moved-Stepped arch s xs i t alloc_load tt (λ p h. cc))
        ]
    client_step-Stepped b (alloc_mark p) e current =
        wrote-Stepped arch s xs i t p (set_in_use arch (s.mem p)) (alloc_count p) (rw e (==_self p))
          (knows arch s xs i t (alloc_mark p) e, rw (==_self p) ((set_in_use_lem arch (s.mem p)).1))
          (λ q. eq_of_== q p)
    client_step-Stepped b (alloc_count p) e current = record {
      left = xs;
      effect = refl;
      shares =
          moved arch s xs i t (holding p) (knows arch s xs i t (alloc_count p) e)
            (same (alloc_count p) (holding p) e (λ q. refl));
    }
    client_step-Stepped b (holding p) e current =
        moved-Stepped arch s xs i t (free_load p) (knows arch s xs i t (holding p) e)
          (same (holding p) (free_load p) e (λ q. refl))
    client_step-Stepped b (free_load p) e current =
        let (is_slot, used) = knows arch s xs i t (free_load p) e in
        moved-Stepped arch s xs i t (free_test p s.next_free)
          (is_slot, used, head_fits arch s xs i t)
          (same (free_load p) (free_test p s.next_free) e (λ q. refl))
    client_step-Stepped b (free_test p n) e current =
        let (is_slot, used, fit) = knows arch s xs i t (free_test p n) e in
        rw used (
          moved-Stepped arch s xs i t (free_link p n) (is_slot, fit)
            (same (free_test p n) (free_link p n) e (λ q. refl)))
    client_step-Stepped b (free_link p n) e current =
        let (is_slot, fit) = knows arch s xs i t (free_link p n) e in
        let freed = set_free_lem arch (s.mem p) n fit in
        wrote-Stepped arch s xs i t p (set_free arch (s.mem p) n) (free_swap p n) (rw e (==_self p))
          (is_slot, rw (==_self p) freed.0, rw (==_self p) freed.2) (λ q. eq_of_== q p)
    client_step-Stepped b (free_swap p n) e current =
        elim (Bool-cases (s.next_free == n && not b)) [
          | inl stored ↦ rw stored (given-Stepped arch s xs i t p n e (ground (arith, stored)))
          | inr failed ↦ rw failed (
              moved-Stepped arch s xs i t (free_link p s.next_free)
                ((knows arch s xs i t (free_swap p n) e).0, head_fits arch s xs i t)
                (same (free_swap p n) (free_link p s.next_free) e (λ q. refl)))
        ]
    client_step-Stepped b free_count e current = record {
      left = xs;
      effect = refl;
      shares = moved arch s xs i t idle tt (λ p h. cc);
    }

  -- Wherever a thread of the run exchanges the head, the successor it has read is the one of now.
  abbrev pub CurrentRun : List (ℕ × Bool) → SharedArena A → Type 0
  CurrentRun [] s = Unit {0}
  CurrentRun ((t, b) ∷ moves) s =
      Current s.mem s.next_free (s.client t)
      × CurrentRun moves (client_step arch size_bits b t s (s.client t)).1

  -- Every run of threads that allocate slots of the lock-free allocator and give them back, step
  -- by step in any order and with exchanges that fail for no reason anywhere, from a state in
  -- which `_next_free` leads to a list of distinct free slots, each slot that a thread holds is
  -- its alone, in use and not in the list, and what the threads have read holds: if a thread whose
  -- exchange takes a slot has read the successor that the slot has then, so it is at the end, too,
  -- and the events of the run, in the order of the exchanges that stored, take slots from the
  -- front of the list and put them there; no slot that is given back is refused as free.
  pub run_clients-SlotReplays :
      (moves : List (ℕ × Bool)) (s : SharedArena A) (xs : List ℕ)
      → Shares arch s.mem s.next_free s.client xs
      → CurrentRun moves s
      → let (es, s') = run_clients arch size_bits moves s in
        (ys : List ℕ) × SlotReplays xs es ys × Shares arch s'.mem s'.next_free s'.client ys
  unfolding run_clients
  run_clients-SlotReplays [] s xs i _ = (xs, refl, i)
  run_clients-SlotReplays ((t, b) ∷ moves) s xs i (now, later) =
      let st = client_step-Stepped s xs i t b (s.client t) refl now in
      let s1 = (client_step arch size_bits b t s (s.client t)).1 in
      let (ys, r, i2) = run_clients-SlotReplays moves s1 st.left st.shares later in
      (
        ys,
        SlotReplays-add (client_step arch size_bits b t s (s.client t)).0 xs st.left ys
            (run_clients arch size_bits moves s1).0 st.effect r,
        i2,
      )
