-- ===== src/RingBuffer/Linear.antt =====
-- Runs of the ring buffer by interleaved threads, include/ring_buffer.h, against an array of places
-- that hold an item or none.

use lock_free.Common.{
  ℕ, ◌≡◌, ◌≢◌, refl, sym, ap, subst, ◌∙◌, inl, inr, true, false, Option, none, some, ◌==◌, update,
  arith, Bool-cases, ==_self, eq_of_==,
}
use lock_free.RingBuffer.Ops.{
  empty, busy_for_read, busy_for_write, full, is_empty, is_full, RingSlot,
}
use lock_free.RingBuffer.Threads.{
  Worker, push_write, push_publish, push_count, pop_read, pop_release, pop_count, Event, stored,
  fetched, gave_up, SharedRing, goto, set_slot,
}
use lock_free.RingBuffer.Owned.{held, has_slot, Knows, is_busy, Owned, nobody, Owned-step}
use lock_free.RingBuffer.Replays.{empty_is, full_is, items_of, Effect, items_of-update, update_same}

module _ {V : Type 0} where
  -- What a step leaves.
  pub record Stepped (s : SharedRing V) (r : Option (Event V) × SharedRing V) : Type 0 where
    pub effect : Effect r.0 (items_of s.slot) (items_of r.1.slot)
    pub owned : Owned r.1.slot r.1.worker

  module _ (s : SharedRing V) (o : Owned s.slot s.worker) (t : ℕ) where
    -- A thread goes on, and has no slot that it did not have.
    moved :
        (w : Worker V)
        → Knows s.slot w
        → ((i : ℕ) → has_slot w i ≡ true → has_slot (s.worker t) i ≡ true)
        → Owned s.slot (update s.worker t w)
    moved w k less =
        Owned-step s.slot s.worker o t w s.slot (λ u i n h. refl) k
          (λ i h u n. elim (Bool-cases (has_slot (s.worker u) i)) [
            | inl both ↦ absurd (n (o.alone u t i both (less i h)))
            | inr not_it ↦ not_it
          ])

    -- A thread changes a slot that nobody else has, and goes on.
    changed :
        (i : ℕ) (x : RingSlot V) (w : Worker V)
        → ((u : ℕ) → u ≢ t → has_slot (s.worker u) i ≡ false)
        → Knows (update s.slot i x) w
        → ((j : ℕ) → has_slot w j ≡ true → j ≡ i)
        → Owned (update s.slot i x) (update s.worker t w)
    changed i x w others k only =
        Owned-step s.slot s.worker o t w (update s.slot i x)
          (λ u j n h. elim (Bool-cases (j == i)) [
            | inl here ↦
                let e : j ≡ i = ground arith in
                absurd (cc (others u n, subst (λ y. has_slot (s.worker u) y ≡ true) e h))
            | inr there ↦ rw there refl
          ])
          k (λ j h u n. rw (only j h) (others u n))

    others :
        (i : ℕ) → has_slot (s.worker t) i ≡ true → (u : ℕ) → u ≢ t → has_slot (s.worker u) i ≡ false
    others i mine u n = elim (Bool-cases (has_slot (s.worker u) i)) [
      | inl both ↦ absurd (n (o.alone u t i both mine))
      | inr not_it ↦ not_it
    ]

    knows : (w : Worker V) → s.worker t ≡ w → Knows s.slot w
    knows w e = subst (Knows s.slot) e (o.knows t)

    -- A step that leaves the slots and changes counts only.
    pub idle :
        (s1 : SharedRing V) (w : Worker V)
        → s1.slot ≡ s.slot
        → s1.worker ≡ s.worker
        → ((i : ℕ) → has_slot w i ≡ false)
        → Knows s.slot w
        → Stepped s (none, goto t w s1)
    idle s1 w e e' less k = record {
      effect = ap items_of (sym e);
      owned = rw (e, e') (moved w k (λ i h. absurd (cc (less i, h))));
    }

    pub gave_up-Stepped :
        (s1 : SharedRing V) (w : Worker V)
        → s1.slot ≡ s.slot
        → s1.worker ≡ s.worker
        → ((i : ℕ) → has_slot w i ≡ false)
        → Knows s.slot w
        → Stepped s (some gave_up, goto t w s1)
    gave_up-Stepped s1 w e e' less k = record {
      effect = ap items_of (sym e);
      owned = rw (e, e') (moved w k (λ i h. absurd (cc (less i, h))));
    }

    -- The item of the slot stays.
    kept :
        (i : ℕ) (x : RingSlot V)
        → held (s.slot i) ≡ held x
        → items_of s.slot ≡ items_of (update s.slot i x)
    kept i x h = update_same (items_of s.slot) i (held x) h ∙ items_of-update s.slot i x

    at_i : (i : ℕ) (x : RingSlot V) → update s.slot i x i ≡ x
    at_i i x = ground arith

    pub push_claim-Stepped :
        (i : ℕ) (v : V)
        → is_empty (s.slot i).status ≡ true
        → Stepped s (
          none,
          goto t (push_write i v) (set_slot i (record (s.slot i) { status = busy_for_write }) s),
        )
    push_claim-Stepped i v h =
        let e = empty_is (s.slot i).status h in
        let x : RingSlot V = record (s.slot i) { status = busy_for_write } in
        let free : is_busy (s.slot i).status ≡ false = rw e refl in
        record {
          effect = kept i x (rw e refl);
          owned =
              changed i x (push_write i v) (λ u n. nobody s.slot s.worker o i free u)
                (rw (at_i i x) refl) (λ j. eq_of_== j i);
        }

    pub pop_claim-Stepped :
        (i : ℕ)
        → is_full (s.slot i).status ≡ true
        → Stepped s (
          none,
          goto t (pop_read i) (set_slot i (record (s.slot i) { status = busy_for_read }) s),
        )
    pop_claim-Stepped i h =
        let e = full_is (s.slot i).status h in
        let x : RingSlot V = record (s.slot i) { status = busy_for_read } in
        let free : is_busy (s.slot i).status ≡ false = rw e refl in
        record {
          effect = kept i x (rw e refl);
          owned =
              changed i x (pop_read i) (λ u n. nobody s.slot s.worker o i free u)
                (rw (at_i i x) refl) (λ j. eq_of_== j i);
        }

    pub push_write-Stepped :
        (i : ℕ) (v : V)
        → s.worker t ≡ push_write i v
        → Stepped s
            (none, goto t (push_publish i v) (set_slot i (record (s.slot i) { content = v }) s))
    push_write-Stepped i v e =
        let k : (s.slot i).status ≡ busy_for_write = knows (push_write i v) e in
        let x : RingSlot V = record (s.slot i) { content = v } in
        record {
          effect = kept i x (rw k refl);
          owned =
              changed i x (push_publish i v) (others i (rw e (==_self i))) (rw (at_i i x) (k, refl))
                (λ j. eq_of_== j i);
        }

    pub push_publish-Stepped :
        (i : ℕ) (v : V)
        → s.worker t ≡ push_publish i v
        → Stepped s (
          some (stored i v),
          goto t push_count (set_slot i (record (s.slot i) { status = full }) s),
        )
    push_publish-Stepped i v e =
        let (k, at_v) : ((s.slot i).status ≡ busy_for_write) × ((s.slot i).content ≡ v) =
          knows (push_publish i v) e in
        let x : RingSlot V = record (s.slot i) { status = full } in
        record {
          effect = (
            rw k refl,
            subst (λ y. update (items_of s.slot) i (some y) ≡ items_of (update s.slot i x)) at_v
                (items_of-update s.slot i x),
          );
          owned = changed i x push_count (others i (rw e (==_self i))) tt (λ j h. cc);
        }

    pub pop_read-Stepped :
        (i : ℕ)
        → s.worker t ≡ pop_read i
        → Stepped s (none, goto t (pop_release i (s.slot i).content) s)
    pop_read-Stepped i e =
        let k : (s.slot i).status ≡ busy_for_read = knows (pop_read i) e in
        record {
          effect = refl;
          owned = moved (pop_release i (s.slot i).content) (k, refl) (λ j h. rw e h);
        }

    pub pop_release-Stepped :
        (i : ℕ) (v : V)
        → s.worker t ≡ pop_release i v
        → Stepped s (
          some (fetched i v),
          goto t (pop_count v) (set_slot i (record (s.slot i) { status = empty }) s),
        )
    pop_release-Stepped i v e =
        let (k, at_v) : ((s.slot i).status ≡ busy_for_read) × ((s.slot i).content ≡ v) =
          knows (pop_release i v) e in
        let x : RingSlot V = record (s.slot i) { status = empty } in
        record {
          effect = (rw (k, at_v) refl, items_of-update s.slot i x);
          owned = changed i x (pop_count v) (others i (rw e (==_self i))) tt (λ j h. cc);
        }
