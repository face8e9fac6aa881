-- ===== src/Arena/Locked.antt =====
-- Calls of `core::arena_allocator`, include/core/arena_allocator.h, whose lock is free: what they do
-- under the lock, and nothing else.
use mathlib.Core.Path.{fun_ext}
use lock_free.Common.{
  ℕ, ◌≡◌, refl, inl, inr, true, false, some, List, [], ◌∷◌, arith, Bool-cases, ◌==◌, update, ◌∙◌,
  ap, sym,
}
use lock_free.MemoryAddress.{null}
use lock_free.Arena.{Config, Arena, World, pure, init_slots, ◌>>=◌, ◌>>◌}
use lock_free.Arena.Slot.{set_free}
use lock_free.Arena.Core.{
  lock, unlock, max_length, add_mem_chuck, unsafe_add_mem_chuck, init_chunk, link_chunk, last_of,
}
use lock_free.Arena.AddChunk.{sys_allocate-nil, sys_allocate-cons}
use lock_free.Arena.Grow.{linked_arena}
use lock_free.Arena.Inv.{update_self}

-- A second store into the same entry.
pub update-update :
    {A : Type 0} (m : ℕ → A) (p : ℕ) (v u : A) → update (update m p v) p u ≡ update m p u
update-update m p v u =
    fun_ext (λ q. elim (Bool-cases (q == p)) [ inl same ↦ ground arith | inr other ↦ ground arith ])

-- A store computed from what the entry before holds.
pub update-modify :
    {A : Type 0} (m : ℕ → A) (p : ℕ) (v : A) (f : A → A)
    → update (update m p v) p (f (update m p v p)) ≡ update m p (f v)
update-modify m p v f =
    let here : update m p v p ≡ v = ground arith in
    ap (λ x. update (update m p v) p (f x)) here ∙ update-update m p v (f v)

pub modify_thrice :
    {A : Type 0} (m : ℕ → A) (p : ℕ) (v : A) (f g h : A → A)
    → let m1 = update m p v in
      let m2 = update m1 p (f (m1 p)) in
      let m3 = update m2 p (g (m2 p)) in update m3 p (h (m3 p)) ≡ update m p (h (g (f v)))
modify_thrice m p v f g h =
    ap (λ n. let k = update n p (g (n p)) in update k p (h (k p))) (update-modify m p v f)
    ∙ ap (λ n. update n p (h (n p))) (update-modify m p (f v) g)
    ∙ update-modify m p (g (f v)) h

-- A store of what is there.
update-same : {A : Type 0} (m : ℕ → A) (p : ℕ) → update m p (m p) ≡ m
update-same m p =
    fun_ext (λ q. elim (Bool-cases (q == p)) [ inl same ↦ ground arith | inr other ↦ ground arith ])

module _ {A : Type 0} where
  -- A lock that is free is taken.
  pub lock-free :
      (this : ℕ) (w : World A)
      → (w.arena this).mtx_next ≡ false
      → lock this w
        ≡ some (
          tt,
          record w { arena = update w.arena this (record (w.arena this) { mtx_next = true }) },
        )
  unfolding lock
  lock-free this w free = rw free refl

module _ {A : Type 0} (this : ℕ) (w : World A) (free : (w.arena this).mtx_next ≡ false) where
  abbrev locked_arena : Arena
  locked_arena = record (w.arena this) { mtx_next = true }

  now_locked : update w.arena this locked_arena this ≡ locked_arena
  now_locked = update_self w.arena this locked_arena

  -- The lock, taken and given back.
  lock_unlock :
      update
        (update w.arena this locked_arena)
        this
        (record (update w.arena this locked_arena this) { mtx_next = false })
      ≡ w.arena
  lock_unlock =
      update-modify w.arena this locked_arena (λ a. record a { mtx_next = false })
      ∙ ap (λ b. update w.arena this (record (w.arena this) { mtx_next = b })) (sym free)
      ∙ update-same w.arena this

  pub max_length-same : (c : Config) → max_length c this w ≡ some ((w.arena this).max_length, w)
  unfolding max_length unlock
  max_length-same c =
      rw (◌>>=◌, lock-free this w free)
        (ap
            (λ (a : Arena). some (
              a.max_length,
              record w {
                arena =
                    update (update w.arena this locked_arena) this
                      (record (update w.arena this locked_arena this) { mtx_next = false });
              },
            ))
            now_locked
          ∙ ap (λ f. some ((w.arena this).max_length, record w { arena = f })) lock_unlock)

module _ {A : Type 0} (c : Config) (this : ℕ) where
  link_locked :
      (w : World A) (free : (w.arena this).mtx_next ≡ false) (p : ℕ)
      → (lock this >> (link_chunk c this p (last_of c p) >> (unlock this >> pure true))) w
        ≡ (link_chunk c this p (last_of c p) >> pure true) w
  unfolding link_chunk unlock last_of
  link_locked w free p =
      let locked = locked_arena this w free in
      let link : Arena → Arena = λ a. linked_arena c a p in
      let off : Arena → Arena = λ a. record a { mtx_next = false } in
      let l = last_of c p in
      rw (◌>>=◌, lock-free this w free)
        (ap
            (λ (a : Arena). some (
              true,
              record w {
                mem = update w.mem l (set_free c.arch (w.mem l) a.next_free);
                arena =
                    let m = update w.arena this locked in
                    let n = update m this (link (m this)) in update n this (off (n this));
              },
            ))
            (now_locked this w free)
          ∙ ap
              (λ f. some (
                true,
                record w {
                  mem = update w.mem l (set_free c.arch (w.mem l) (w.arena this).next_free);
                  arena = f;
                },
              ))
              (ap (λ n. update n this (off (n this))) (update-modify w.arena this locked link)
                ∙ update-modify w.arena this (link locked) off
                ∙ ap (λ b. update w.arena this (record (link locked) { mtx_next = b })) (sym free)))

  -- With the lock free, `add_mem_chuck` does what `unsafe_add_mem_chuck` does.
  pub add_mem_chuck-unsafe :
      (w : World A)
      → (w.arena this).mtx_next ≡ false
      → add_mem_chuck c this w ≡ unsafe_add_mem_chuck c this w
  unfolding add_mem_chuck unsafe_add_mem_chuck init_chunk
  add_mem_chuck-unsafe w free = go w.answers refl
    where
      go : (ps : List ℕ) → w.answers ≡ ps → add_mem_chuck c this w ≡ unsafe_add_mem_chuck c this w
      go [] e = rw (sys_allocate-nil w e, ◌>>=◌) refl
      go (p ∷ ps) e = elim (Bool-cases (p == null)) [
        | inl z ↦ rw (sys_allocate-cons w p ps e, ◌>>=◌, z) refl
        | inr nz ↦
            rw (sys_allocate-cons w p ps e, ◌>>=◌, nz)
              (link_locked
                (record w {
                  answers = ps;
                  mem = init_slots c (w.arena this).ndx_instance c.chunk_size p w.mem;
                })
                free p)
      ]
