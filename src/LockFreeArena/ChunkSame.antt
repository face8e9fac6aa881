-- ===== src/LockFreeArena/ChunkSame.antt =====
-- A chunk that `lock_free::arena_allocator` adds, called with no other thread between, is the chunk
-- that `core::arena_allocator` adds, include/arena_allocator.h and include/core/arena_allocator.h.

use lock_free.Common.{
  ℕ, ◌+◌, ◌*◌, ◌≡◌, refl, inl, inr, true, false, some, List, [], ◌∷◌, ◌++◌, Bool-cases, ◌==◌,
  update, ◌∙◌, ap, sym, length,
}
use lock_free.MemoryAddress.{null}
use lock_free.Arena.{
  Config, Arena, World, pure, init_slots, ◌>>=◌, ◌>>◌, wrap, memory_required_per_chunk,
}
use lock_free.Arena.Core.{
  lock, unlock, last_of, init_chunk, construct, link_chunk, put_back, take_slot,
}
use lock_free.Arena.Core
use lock_free.Arena.AddChunk.{sys_allocate-nil, sys_allocate-cons}
use lock_free.Arena.Inv.{update_self}
use lock_free.Arena.Locked.{update-modify, modify_thrice, lock-free}
use lock_free.LockFreeArena.Ops.{store_chunk, add_mem_chuck, unsafe_add_mem_chuck}
use lock_free.LockFreeArena.Same.{given, give_loop-given}

-- The counts with a chunk more.
abbrev chunk_counted : (c : Config) (p : ℕ) → Arena → Arena
chunk_counted c p a =
    let chunks = a.mem_chunks ++ record { first_slot = p; last_slot = last_of c p } ∷ [] in
    record a {
      mem_chunks = chunks;
      max_length = wrap c (c.chunk_size * length chunks);
      free_slots = wrap c (a.free_slots + c.chunk_size);
      capacity = wrap c (memory_required_per_chunk c * length chunks);
    }

module _ {A : Type 0} (c : Config) where
  -- The store of a chunk, under the lock or not.
  chunk_stored :
      (this p : ℕ) (w : World A)
      → (store_chunk c this p (last_of c p) >> pure true) (given c this p (last_of c p) w)
        ≡ (link_chunk c this p (last_of c p) >> pure true) w
  unfolding store_chunk link_chunk
  chunk_stored this p w =
      ap (λ a. some (true, record (given c this p (last_of c p) w) { arena = a }))
        (update-modify w.arena this (record (w.arena this) { next_free = p }) (chunk_counted c p))

  chunk_stored_locked :
      (this p : ℕ) (w : World A)
      → (w.arena this).mtx_next ≡ false
      → (lock this >> (store_chunk c this p (last_of c p) >> (unlock this >> pure true)))
          (given c this p (last_of c p) w)
        ≡ (link_chunk c this p (last_of c p) >> pure true) w
  unfolding unlock store_chunk link_chunk
  chunk_stored_locked this p w free =
      let a1 : Arena = record (w.arena this) { next_free = p } in
      let here : update w.arena this a1 this ≡ a1 = update_self w.arena this a1 in
      let lock_on : Arena → Arena = λ a. record a { mtx_next = true } in
      let lock_off : Arena → Arena = λ a. record a { mtx_next = false } in
      rw
        (
          ◌>>=◌,
          lock-free this (given c this p (last_of c p) w)
              (ap (λ (a : Arena). a.mtx_next) here ∙ free),
        )
        (ap (λ a. some (true, record (given c this p (last_of c p) w) { arena = a }))
          (modify_thrice w.arena this a1 lock_on (chunk_counted c p) lock_off
            ∙ ap (λ b. update w.arena this (record (chunk_counted c p a1) { mtx_next = b }))
                (sym free)))

  -- With the lock free, however often the exchange fails for no reason, `add_mem_chuck` does what
  -- `core::arena_allocator::unsafe_add_mem_chuck` does, and so does `unsafe_add_mem_chuck`.
  pub add_mem_chuck-same :
      (fails this : ℕ) (w : World A)
      → (w.arena this).mtx_next ≡ false
      → (add_mem_chuck c fails this w ≡ Core.unsafe_add_mem_chuck c this w)
        × (unsafe_add_mem_chuck c this w ≡ Core.unsafe_add_mem_chuck c this w)
  unfolding add_mem_chuck unsafe_add_mem_chuck Core.unsafe_add_mem_chuck init_chunk
  add_mem_chuck-same fails this w free = go w.answers refl
    where
      go :
          (ps : List ℕ)
          → w.answers ≡ ps
          → (add_mem_chuck c fails this w ≡ Core.unsafe_add_mem_chuck c this w)
            × (unsafe_add_mem_chuck c this w ≡ Core.unsafe_add_mem_chuck c this w)
      go [] e = rw (sys_allocate-nil w e, ◌>>=◌) (refl, refl)
      go (p ∷ ps) e = elim (Bool-cases (p == null)) [
        | inl z ↦ rw (sys_allocate-cons w p ps e, ◌>>=◌, z) (refl, refl)
        | inr nz ↦
            let w1 = record w {
              answers = ps;
              mem = init_slots c (w.arena this).ndx_instance c.chunk_size p w.mem;
            } in
            rw
              (
                sys_allocate-cons w p ps e,
                ◌>>=◌,
                nz,
                give_loop-given c this p (last_of c p) fails w1,
              )
              (chunk_stored_locked this p w1 free, chunk_stored this p w1)
      ]
