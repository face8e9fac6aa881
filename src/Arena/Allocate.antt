-- ===== src/Arena/Allocate.antt =====
-- `unsafe_allocate` and `allocate` of `core::arena_allocator`.
use lock_free.Common.{
  ℕ, ◌≡◌, refl, ◌⊎◌, inl, inr, Bool, true, false, ◌&&◌, arith, Bool-cases, ◌==◌, update, ◌∙◌, ap,
  if◌then◌else◌,
}
use lock_free.MemoryAddress.{null}
use lock_free.Arena.{Config, Arena, World, Cmd, pure, ◌>>=◌, ◌>>◌, get_arena}
use lock_free.Arena.Slot.{next}
use lock_free.Arena.Core.{
  unsafe_add_mem_chuck, take_slot, construct, refill, unsafe_allocate, allocate, lock, unlock,
}
use lock_free.Arena.Take.{NoSlot, Took, NoSlot-now, take_construct-Took, Took-world, taken_arena}
use lock_free.Arena.Refill.{
  Refilled, add-Refilled, lock-Ready, refill-Refilled, unchanged-Refilled, Refilled-signalled,
  signalled,
}
use lock_free.Arena.Inv.{
  Layout, Inv, Ready, Returns, returns, bind, mono, Frame-trans, update_self, update_ne,
}

-- A call that allocates returns null where no slot is free, or a slot that was not in use.
abbrev pub Allocated :
    {A : Type 0} → Config → ℕ → Bool → (ℕ → Bool) → ℕ → A → World A → ℕ → World A → Type 0
Allocated c this held live used v w out w' =
    NoSlot c this held live used w out w' ⊎ Took c this held live used v w out w'

pub after-Refilled :
    {A : Type 0} (c : Config) (this : ℕ) {h1 h2 : Bool} {live : ℕ → Bool} {used out : ℕ} (v : A)
    {w w1 w2 : World A}
    → Refilled c this h1 live used w w1
    → Allocated c this h2 live used v w1 out w2
    → Allocated c this h2 live used v w out w2
after-Refilled c this v r (inl n) = inl (record {
  is_null = n.is_null;
  inv = n.inv;
  frame = Frame-trans c this r.frame n.frame;
  same = λ x b. n.same x b ∙ r.same x b;
  empty = n.empty;
  was_empty = r.shut n.was_empty;
})
after-Refilled c this v r (inr t) = inr (record {
  slot = t.slot;
  ne_null = t.ne_null;
  points = t.points;
  was_free = t.was_free;
  inv = t.inv;
  stored = t.stored;
  frame = Frame-trans c this r.frame t.frame;
  same = λ x b. t.same x b ∙ r.same x b;
})

-- The second half of `unsafe_allocate`.
unfoldable pub take_first : {A : Type 0} → Config → ℕ → A → Cmd A ℕ
take_first c this v = do
  a ← get_arena this
  if a.next_free == null
      then pure null
      else do take_slot c this a.next_free; construct c a.next_free v

-- The second half of `allocate`.
take_locked : {A : Type 0} → Config → ℕ → A → Cmd A ℕ
take_locked c this v = do
  a ← get_arena this
  if a.next_free == null
      then unlock this >> pure null
      else do take_slot c this a.next_free; unlock this; construct c a.next_free v

module _ {A : Type 0} (c : Config) (lay : Layout c) (this : ℕ) {live : ℕ → Bool} {used : ℕ}
    (v : A) where
  pub take_first-Allocated :
      {held : Bool} {w : World A}
      → Inv c this held live used w
      → Returns (Allocated c this held live used v w) (take_first c this v w)
  unfolding take_first
  take_first-Allocated {w} inv = elim (Bool-cases ((w.arena this).next_free == null)) [
    | inl e ↦ rw e (returns (inl (NoSlot-now c this w inv v (ground arith))))
    | inr ne ↦
        rw ne
          (mono (take_construct-Took c this w inv v (ground arith)) (λ out w' t. returns (inr t)))
  ]

  take_locked-Allocated :
      {w : World A}
      → Inv c this true live used w
      → Returns (Allocated c this false live used v w) (take_locked c this v w)
  unfolding take_locked take_slot unlock construct
  take_locked-Allocated {w} inv = elim (Bool-cases ((w.arena this).next_free == null)) [
    | inl e ↦
        let n = (w.arena this).sem_th_alloc in
        let r = Refilled-signalled c this inv false n in
        let shut : (w.arena this).next_free ≡ null = ground arith in
        rw e (
          returns (
            inl (record {
              is_null = refl;
              inv = r.inv;
              frame = r.frame;
              same = r.same;
              empty = rw (update_self w.arena this (signalled (w.arena this) false n)) shut;
              was_empty = shut;
            })))
    | inr ne ↦
        let a1 =
          taken_arena c (w.arena this) (next (w.mem (w.arena this).next_free))
            (w.arena this).mtx_next in
        let f = update w.arena this a1 in
        let release : Arena → Arena = λ b. record b { mtx_next = false } in
        rw ne (
          returns (
            inr (
              Took-world c this w inv v false (update f this (release (f this))) (ground arith)
                (update_self f this (release (f this)) ∙ ap release (update_self w.arena this a1))
                (λ q n. update_ne f this q (release (f this)) n ∙ update_ne w.arena this q a1 n))))
  ]

  -- On a well-formed allocator whose object lies right behind the address word of its slot, with a
  -- next block of the system that is null or fresh, `unsafe_allocate` returns and leaves the lock
  -- as it was: it returns null where the free list is empty and was empty, or the object of a slot
  -- that was not in use, which is in use now and holds the value. Either way the allocator stays
  -- well-formed, the objects in use keep their contents, and nothing outside its slots changes.
  pub unsafe_allocate-Allocated :
      {held : Bool} {w : World A}
      → Inv c this held live used w
      → Ready c this w
      → Returns (Allocated c this held live used v w) (unsafe_allocate c this v w)
  unfolding unsafe_allocate take_first
  unsafe_allocate-Allocated {held} {w} inv ready =
      bind {P = λ _. Refilled c this held live used w} (λ _. take_first c this v)
        (if (w.arena this).next_free == null && c.alloc_threshold == 0
          then unsafe_add_mem_chuck c this
          else pure true)
        w
        (elim (Bool-cases ((w.arena this).next_free == null && c.alloc_threshold == 0)) [
          | inl more ↦ rw more (add-Refilled c lay this inv ready)
          | inr enough ↦ rw enough (returns (unchanged-Refilled c this inv))
        ])
        (λ _ w1 r.
          mono (take_first-Allocated r.inv) (λ out w2 t. returns (after-Refilled c this v r t)))

  -- On a well-formed allocator whose object lies right behind the address word of its slot, with a
  -- lock that is free and a next block of the system that is null or fresh, `allocate` returns,
  -- and the lock is free again: it returns null where the free list is empty and was empty, or the
  -- object of a slot that was not in use, which is in use now and holds the value. Either way the
  -- allocator stays well-formed, the objects in use keep their contents, and nothing outside its
  -- slots changes.
  pub allocate-Allocated :
      {w : World A}
      → Inv c this false live used w
      → Ready c this w
      → Returns (Allocated c this false live used v w) (allocate c this v w)
  unfolding allocate take_locked
  allocate-Allocated {w} inv ready =
      bind {P = λ _ w1. Refilled c this true live used w w1 × Ready c this w1}
        (λ _. refill c this >>= λ _. take_locked c this v) (lock this) w
        (lock-Ready c lay this inv ready)
        λ _ w1 (r1, ready1).
          bind {P = λ _. Refilled c this true live used w1} (λ _. take_locked c this v)
            (refill c this) w1 (refill-Refilled c lay this r1.inv ready1)
            λ _ w2 r2.
              mono (take_locked-Allocated r2.inv)
                (λ out w3 t. returns (after-Refilled c this v r1 (after-Refilled c this v r2 t)))
