-- ===== src/LockFreeArena/AsCore.antt =====
-- `lock_free::arena_allocator`, called with no other thread between, does what
-- `core::arena_allocator` does without its lock, however often a weak exchange fails.
use mathlib.Core.Path.{fun_ext}
use lock_free.Common.{
  ℕ, ◌+◌, ◌-◌, ◌^◌, ◌≡◌, ◌≢◌, ◌∙◌, ne→==, refl, inl, inr, false, ◌&&◌, none, some, Option, ◌∷◌,
  arith, Bool-cases, ◌==◌, ltb, update, ap, if◌then◌else◌,
}
use lock_free.Types.{Result, success, double_free}
use lock_free.MemoryAddress.{null}
use lock_free.LookupTable
use lock_free.Command.{Command}
use lock_free.Arena.{
  Config, Arena, World, Cmd, get_arena, get_slot, put_arena, put_slot, pure, ◌>>=◌, ◌>>◌, wrap, prt,
  check_instance,
}
use lock_free.Arena.Slot.{next, is_free, get_index, slot_from_user_data, set_free, set_in_use}
use lock_free.Arena.Core.{
  lock, unlock, last_of, init_chunk, construct, link_chunk, put_back, take_slot,
}
use lock_free.Arena.Core
use lock_free.Arena.Allocate.{take_first}
use lock_free.Arena.Locked.{update-modify}
use lock_free.LockFreeArena.Ops.{
  take_loop, give_loop, add_free, sub_free, refill, finish, allocate, unsafe_allocate, deallocate,
  unsafe_deallocate,
}
use lock_free.LockFreeArena.Same.{given, give_loop-given, take_loop-null, take_loop-taken}
use lock_free.LockFreeArena.ChunkSame.{add_mem_chuck-same}

module _ {S B C : Type 0} (m : Command S B) (f g : B → Command S C) where
  bind_same : ((b : B) (s : S) → f b s ≡ g b s) → (s : S) → (m >>= f) s ≡ (m >>= g) s
  bind_same h s = ap (λ k. (m >>= k) s) (fun_ext (λ b. fun_ext (λ t. h b t)))

-- What follows a lookup of the table.
looked_up :
    {S B : Type 0} (r : Option ℕ) (f g : ℕ → Command S B) (w : S)
    → ((this : ℕ) → r ≡ some this → f this w ≡ g this w)
    → ◌≡◌ {A = Option (B × S)}
        (elim (elim r as (λ _. Option (ℕ × S)) [ none ↦ none | some this ↦ some (this, w) ]) [
          | none ↦ none
          | some (b, s) ↦ f b s
        ])
        (elim (elim r as (λ _. Option (ℕ × S)) [ none ↦ none | some this ↦ some (this, w) ]) [
          | none ↦ none
          | some (b, s) ↦ g b s
        ])
looked_up none f g w h = refl
looked_up (some this) f g w h = h this refl

module _ {A : Type 0} (c : Config) where
  -- A freed slot comes back in the same way.
  put_back-same :
      (this slot fails : ℕ) (code : Result) (w : World A)
      → (give_loop c this slot slot fails (w.arena this).next_free
            >> (add_free c this 1 >> pure code))
          w
        ≡ (put_back c this slot >> pure code) w
  unfolding add_free put_back
  put_back-same this slot fails code w =
      rw (◌>>=◌, give_loop-given c this slot slot fails w)
        (ap (λ a. some (code, record (given c this slot slot w) { arena = a }))
          (update-modify w.arena this (record (w.arena this) { next_free = slot })
            (λ b. record b { free_slots = wrap c (b.free_slots + 1) })))

  -- What follows the lookup of the allocator.
  freed_rest :
      (slot fails this : ℕ) (w : World A)
      → this ≢ null
      → (check_instance this
            >> (get_arena this >>= λ a.
                (if is_free (w.mem slot)
                  then pure double_free
                  else (give_loop c this slot slot fails a.next_free
                      >> (add_free c this 1 >> pure success)))))
          w
        ≡ (if is_free (w.mem slot)
              then pure double_free
              else (check_instance this >> (put_back c this slot >> pure success)))
            w
  freed_rest slot fails this w ne = elim (Bool-cases (is_free (w.mem slot))) [
    | inl e ↦ rw (◌>>◌, ne→== this null ne, ◌>>=◌, e) refl
    | inr e ↦ rw (◌>>◌, ne→== this null ne, ◌>>=◌, e) (put_back-same this slot fails success w)
  ]

  freed_at_once :
      (slot this : ℕ) (w : World A)
      → (if is_free (w.mem slot)
            then pure double_free
            else (check_instance this
                >> (get_arena this >>= λ a.
                    (put_slot slot (set_free c.arch (w.mem slot) a.next_free)
                      >> (put_arena this (record a { next_free = slot })
                          >> (add_free c this 1 >> pure success))))))
          w
        ≡ (if is_free (w.mem slot)
              then pure double_free
              else (check_instance this >> (put_back c this slot >> pure success)))
            w
  unfolding add_free put_back
  freed_at_once slot this w = elim (Bool-cases (is_free (w.mem slot))) [
    | inl e ↦ rw e refl
    | inr e ↦ elim (Bool-cases (this == null)) [
      | inl z ↦ rw (e, ◌>>◌, z, ◌>>=◌) refl
      | inr nz ↦
          rw (e, ◌>>◌, nz, ◌>>=◌)
            (ap (λ a. some (success, record (given c this slot slot w) { arena = a }))
              (update-modify w.arena this (record (w.arena this) { next_free = slot })
                (λ b. record b { free_slots = wrap c (b.free_slots + 1) })))
    ]
  ]

  -- With no other thread between, on every pointer and in every state where the entry of the table
  -- at the index that stands in the pointer's slot is not null, `deallocate` of the lock-free
  -- allocator, however often its exchange fails for no reason, does what
  -- `core::arena_allocator::unsafe_deallocate` does, and so does its `unsafe_deallocate`.
  pub deallocate-same :
      (fails userdata : ℕ) (w : World A)
      → LookupTable.at w.instances_table (get_index (w.mem (slot_from_user_data userdata)))
        ≢ some null
      → (deallocate c fails userdata w ≡ Core.unsafe_deallocate c userdata w)
        × (unsafe_deallocate c userdata w ≡ Core.unsafe_deallocate c userdata w)
  unfolding deallocate unsafe_deallocate Core.unsafe_deallocate
  deallocate-same fails userdata w entry = elim (Bool-cases (userdata == null)) [
    | inl z ↦ rw z (refl, refl)
    | inr nz ↦
        let slot = slot_from_user_data userdata in
        let w1 = record w { destroyed = userdata ∷ w.destroyed } in
        rw nz (
          looked_up (LookupTable.at w.instances_table (get_index (w.mem slot))) _ _ w1
              (λ this e. freed_rest slot fails this w1 (λ z. entry (e ∙ ap some z))),
          looked_up (LookupTable.at w.instances_table (get_index (w.mem slot))) _ _ w1
              (λ this e. freed_at_once slot this w1),
        )
  ]

  refill-same :
      (fails this : ℕ) (w : World A)
      → (w.arena this).mtx_next ≡ false
      → refill c fails this w ≡ Core.refill c this w
  unfolding refill Core.refill
  refill-same fails this w free = elim (Bool-cases (ltb 0 c.alloc_threshold)) [
    | inl th ↦ rw th refl
    | inr no_th ↦ rw no_th (elim (Bool-cases ((w.arena this).next_free == null)) [
      | inl empty ↦ rw empty (add_mem_chuck-same c fails this w free).0
      | inr some_left ↦ rw some_left refl
    ])
  ]

  -- The stores that take the first slot, apart or together.
  abbrev taken_apart : ℕ → World A → ℕ → Arena
  taken_apart this w =
      let m1 =
        update w.arena this
          (record (w.arena this) { next_free = next (w.mem (w.arena this).next_free) }) in
      update m1 this
        (record (m1 this) { free_slots = wrap c ((m1 this).free_slots + 2 ^ c.size_bits - 1) })

  abbrev taken_together : ℕ → World A → ℕ → Arena
  taken_together this w = update w.arena this (record (w.arena this) {
    next_free = next (w.mem (w.arena this).next_free);
    free_slots = wrap c ((w.arena this).free_slots + 2 ^ c.size_bits - 1);
  })

  taken-same : (this : ℕ) (w : World A) → taken_apart this w ≡ taken_together this w
  taken-same this w =
      update-modify w.arena this
        (record (w.arena this) { next_free = next (w.mem (w.arena this).next_free) })
        (λ a. record a { free_slots = wrap c (a.free_slots + 2 ^ c.size_bits - 1) })

  -- The first slot of a world with an object in it.
  abbrev with_object : A → ℕ → World A → (ℕ → Arena) → Option (ℕ × World A)
  with_object v this w arenas =
      let p = (w.arena this).next_free in
      some (
        prt c p,
        record w {
          mem = update w.mem p (record (set_in_use c.arch (w.mem p)) { user_data = v });
          arena = arenas;
        },
      )

  take-same :
      (fails this : ℕ) (v : A) (w : World A)
      → (take_loop this fails >>= λ slot. finish c this slot v) w ≡ take_first c this v w
  unfolding take_first take_slot finish sub_free construct
  take-same fails this v w = elim (Bool-cases ((w.arena this).next_free == null)) [
    | inl e ↦ rw (◌>>=◌, take_loop-null this fails w (ground arith), e) refl
    | inr e ↦
        rw (◌>>=◌, take_loop-taken this fails w (ground arith), e)
          (ap (with_object v this w) (taken-same this w))
  ]

  -- The second half of `unsafe_allocate`.
  take_at_once : (this : ℕ) → A → Cmd A ℕ
  take_at_once this v = do
    a ← get_arena this
    if a.next_free == null then pure null else do
      s ← get_slot a.next_free
      put_arena this (record a { next_free = next s })
      sub_free c this 1
      construct c a.next_free v

  take_at_once-same :
      (this : ℕ) (v : A) (w : World A) → take_at_once this v w ≡ take_first c this v w
  unfolding take_first take_slot take_at_once sub_free construct
  take_at_once-same this v w = elim (Bool-cases ((w.arena this).next_free == null)) [
    | inl e ↦ rw e refl
    | inr e ↦ rw e (ap (with_object v this w) (taken-same this w))
  ]

  -- With the lock free, however often the exchanges fail for no reason, `allocate` does what the
  -- refill of `core::arena_allocator::allocate` does and then the end of its `unsafe_allocate`;
  -- `unsafe_allocate` does what `core::arena_allocator::unsafe_allocate` does.
  pub allocate-same :
      (add_fails take_fails this : ℕ) (v : A) (w : World A)
      → (w.arena this).mtx_next ≡ false
      → (allocate c add_fails take_fails this v w
          ≡ (Core.refill c this >>= λ _. take_first c this v) w)
        × (unsafe_allocate c this v w ≡ Core.unsafe_allocate c this v w)
  unfolding allocate unsafe_allocate Core.unsafe_allocate take_at_once take_first
  allocate-same add_fails take_fails this v w free = (
    rw (◌>>=◌, refill-same add_fails this w free)
        (bind_same (Core.refill c this)
          (λ _. take_loop this take_fails >>= λ slot. finish c this slot v)
          (λ _. take_first c this v) (λ _ s. take-same take_fails this v s) w),
    elim (Bool-cases ((w.arena this).next_free == null && c.alloc_threshold == 0)) [
      | inl more ↦ rw more (
          rw (◌>>=◌, (add_mem_chuck-same c 0 this w free).1)
            (bind_same (Core.unsafe_add_mem_chuck c this) (λ _. take_at_once this v)
              (λ _. take_first c this v) (λ _ s. take_at_once-same this v s) w))
      | inr enough ↦ rw enough (take_at_once-same this v w)
    ],
  )
