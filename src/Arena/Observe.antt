-- ===== src/Arena/Observe.antt =====
-- `length`, `max_length`, `capacity` and `clear` of `core::arena_allocator`.
use native.Mathlib.Nat.{mod-eq_of_lt, add-mod_right}
use lock_free.Common.{
  ℕ, ◌+◌, ◌-◌, ◌%◌, ◌^◌, ◌<◌, ◌≡◌, refl, Bool, true, false, [], arith, ◌∙◌, ap, update, length, ◌∈◌,
  ◌⊎◌, inl, inr, Bool-cases, ◌≢◌,
}
use lock_free.MemoryAddress.{null}
use lock_free.Arena.{Config, Arena, World, ◌>>=◌, prt}
use lock_free.Arena.Slot.{MemorySlot, in_use}
use lock_free.Arena.Core.{unsafe_length, clear, release_chunks, lock, unlock}
use lock_free.Arena.Core.{length as arena_length}
use lock_free.Arena.FreeList.{nil, all_free}
use lock_free.Arena.Inv.{Layout, Good, Inv, slots, Returns, returns, update_self, update_ne}
use lock_free.Arena.Release.{release_chunks-all, release_chunks-only, release_chunks-frame}

-- `unsafe_length` is the number of the slots in use.
unsafe_length_lem :
    {A : Type 0} (c : Config) {live : ℕ → Bool} {used : ℕ} {m : ℕ → MemorySlot A} {a : Arena}
    → Good c live used m a
    → unsafe_length c a ≡ used
unfolding unsafe_length
unsafe_length_lem c {used} {a} g =
    let (f, n, b) : (a.free_slots ≡ length g.free)
        × (a.max_length ≡ length g.free + used)
        × (a.max_length < 2 ^ c.size_bits) =
      (g.free_count, g.max_count, g.bound) in
    let e : a.max_length + 2 ^ c.size_bits - a.free_slots ≡ used + 2 ^ c.size_bits = omega arith in
    ap (λ n. n % 2 ^ c.size_bits) e
    ∙ add-mod_right used (2 ^ c.size_bits)
    ∙ mod-eq_of_lt (omega arith)

-- All slots are gone; the objects that were in use have been destroyed and no others.
pub record Cleared {A : Type 0} (c : Config) (this : ℕ) (held : Bool) (live : ℕ → Bool)
    (w w' : World A) : Type 0 where
  pub inv : Inv c this held (λ _. false) 0 w'
  pub table : w'.instances_table ≡ w.instances_table
  pub others : (q : ℕ) → q ≢ this → w'.arena q ≡ w.arena q
  pub memory : w'.mem ≡ w.mem
  pub all : (p : ℕ) → live p ≡ true → prt c p ∈ w'.destroyed
  pub only :
      (u : ℕ) → u ∈ w'.destroyed → (u ∈ w.destroyed) ⊎ ((p : ℕ) × (live p ≡ true) × (u ≡ prt c p))

module _ {A : Type 0} (c : Config) (lay : Layout c) (this : ℕ) {held : Bool} {live : ℕ → Bool}
    {used : ℕ} {w : World A} (inv : Inv c this held live used w) where
  -- A slot in use is live.
  pub busy-live : (x : ℕ) → x ∈ slots c (w.arena this) → in_use (w.mem x) ≡ true → live x ≡ true
  busy-live x i b = elim (Bool-cases (live x)) [
    | inl l ↦ l
    | inr f ↦ ground (arith, inv.good.cover x, all_free x inv.good.chain)
  ]

  cleared_arena : Arena
  cleared_arena = record (w.arena this) {
    mem_chunks = [];
    max_length = 0;
    free_slots = 0;
    capacity = 0;
    next_free = null;
  }

  cleared-Good : (m : ℕ → MemorySlot A) → Good c (λ _. false) 0 m cleared_arena
  unfolding cleared_arena
  cleared-Good m = record {
    free = [];
    chain = nil;
    free_count = refl;
    max_count = refl;
    chunk_count = omega arith;
    bound = let b = inv.good.bound in omega arith;
    cover = λ p. refl;
    busy = λ p b. cc;
    owned = λ p i. cc;
    index_fits = inv.good.index_fits;
  }

  -- On a well-formed allocator whose object lies right behind the address word of its slot,
  -- `clear` returns and leaves a well-formed allocator without slots; the destructor has run on
  -- every object that was in use and, beyond the objects destroyed before, on no other; memory,
  -- the table of the instances and the other allocators are as they were.
  pub clear-Cleared : Returns (λ _ w'. Cleared c this held live w w') (clear c this w)
  unfolding clear cleared_arena
  clear-Cleared =
      let chunks = (w.arena this).mem_chunks in
      let w1 = release_chunks c chunks w in
      let (same_arena, same_mem, same_table) = release_chunks-frame c chunks w in
      let here = update_self w1.arena this cleared_arena in
      returns (record {
        inv = record {
          mutex = rw here inv.mutex;
          good = rw here (cleared-Good w1.mem);
          placed = inv.placed;
          registered = rw (here, same_table) inv.registered;
        };
        table = same_table;
        others = λ q n. update_ne w1.arena this q cleared_arena n ∙ ap (λ f. f q) same_arena;
        memory = same_mem;
        all = λ p l.
            release_chunks-all c chunks w p (ground (arith, inv.good.cover p)) (inv.good.busy p l);
        only = λ u i. elim (release_chunks-only c chunks w u i) [
          | inl before ↦ inl before
          | inr (x, k, b, e) ↦ inr (x, busy-live x k b, e)
        ];
      })

locked-Good :
    {A : Type 0} (c : Config) {live : ℕ → Bool} {used : ℕ} {m : ℕ → MemorySlot A} {a : Arena}
    (held : Bool)
    → Good c live used m a
    → Good c live used m (record a { mtx_next = held })
locked-Good c held g = record {
  free = g.free;
  chain = g.chain;
  free_count = g.free_count;
  max_count = g.max_count;
  chunk_count = g.chunk_count;
  bound = g.bound;
  cover = g.cover;
  busy = g.busy;
  owned = g.owned;
  index_fits = g.index_fits;
}

module _ {A : Type 0} (c : Config) (this : ℕ) {live : ℕ → Bool} {used : ℕ} {w : World A}
    (inv : Inv c this false live used w) where
  -- On a well-formed allocator whose lock is free, `length` returns the number of the slots in
  -- use, although the difference is taken in a type that wraps; the allocator stays well-formed,
  -- its lock is free again, and memory is as it was.
  pub length_lem :
      Returns
        (λ n w'.
          (n ≡ used) × Inv c this false live used w' × (w'.mem ≡ w.mem) × (w'.answers ≡ w.answers))
        (arena_length c this w)
  unfolding arena_length lock unlock
  length_lem =
      let a1 : Arena = record (w.arena this) { mtx_next = true } in
      let f1 = update w.arena this a1 in
      let release : Arena → Arena = λ b. record b { mtx_next = false } in
      let first : f1 this ≡ a1 = update_self w.arena this a1 in
      let second = update_self f1 this (release (f1 this)) ∙ ap release first in
      rw (inv.mutex, ◌>>=◌)
        (returns (
          ap (unsafe_length c) first ∙ unsafe_length_lem c (locked-Good c true inv.good),
          record {
            mutex = ap (λ (b : Arena). b.mtx_next) second;
            good = rw second (locked-Good c false inv.good);
            placed = inv.placed;
            registered = rw second inv.registered;
          },
          refl,
          refl,
        ))
