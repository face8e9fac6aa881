-- ===== src/Arena/AddChunk.antt =====
-- `unsafe_add_mem_chuck` and `add_mem_chuck` of `core::arena_allocator` keep it well-formed.
use lock_free.Common.{
  ℕ, ◌≡◌, refl, ◌≢◌, inl, inr, Bool, true, false, some, List, [], ◌∷◌, arith, Bool-cases, ◌==◌, ◌∉◌,
  subst, sym, ◌∈◌,
}
use lock_free.MemoryAddress.{null}
use lock_free.Arena.{Config, Arena, World, ◌>>=◌, sys_allocate}
use lock_free.Arena.Core.{init_chunk, link_chunk, last_of, unsafe_add_mem_chuck}
use lock_free.Arena.Grow.{
  linked_arena, linked_mem, link-Good, link-SameData, slots-linked, old_same,
}
use lock_free.Arena.Inv.{
  Layout, Inv, Fresh, Frame, SameData, Ready, ReadyFor, slots, Returns, returns, update_self,
  update_ne,
}

-- What a call that adds a chunk leaves: on success there is a free slot, and on failure the
-- allocator is as it was.
pub record Grown {A : Type 0} (c : Config) (this : ℕ) (held : Bool) (live : ℕ → Bool) (used : ℕ)
    (w : World A) (done : Bool) (w' : World A) : Type 0 where
  pub inv : Inv c this held live used w'
  pub frame : Frame c this w w'
  pub same : SameData live w.mem w'.mem
  pub room : done ≡ true → (w'.arena this).next_free ≢ null
  pub unchanged : done ≡ false → w'.arena this ≡ w.arena this
  pub destroyed : w'.destroyed ≡ w.destroyed

module _ {A : Type 0} (w : World A) where
  pub sys_allocate-nil : w.answers ≡ [] → sys_allocate w ≡ some (null, w)
  unfolding sys_allocate
  sys_allocate-nil e = rw e

  pub sys_allocate-cons :
      (p : ℕ) (ps : List ℕ)
      → w.answers ≡ p ∷ ps
      → sys_allocate w ≡ some (p, record w { answers = ps })
  unfolding sys_allocate
  sys_allocate-cons p ps e = rw e

module _ {A : Type 0} (c : Config) (lay : Layout c) (this : ℕ) {held : Bool} {live : ℕ → Bool}
    {used : ℕ} (w : World A) (inv : Inv c this held live used w) where
  -- The allocator with the chunk at `p`, however the store came about.
  pub add_chunk-Grown :
      (p : ℕ) (ps : List ℕ) (arenas : ℕ → Arena)
      → p ≢ null
      → Fresh c (w.arena this) p
      → arenas this ≡ linked_arena c (w.arena this) p
      → ((q : ℕ) → q ≢ this → arenas q ≡ w.arena q)
      → Grown c this held live used w true
          (record w { mem = linked_mem c (w.arena this) w.mem p; arena = arenas; answers = ps })
  add_chunk-Grown p ps arenas ne fresh here others =
      let a' = linked_arena c (w.arena this) p in
      record {
        inv = record {
          mutex = rw here inv.mutex;
          good = rw here (link-Good c lay inv.good p ne fresh);
          placed = inv.placed;
          registered = rw here inv.registered;
        };
        frame = record {
          table = refl;
          index = rw here;
          others = others;
          outside = λ x o.
              let o' : x ∉ slots c a' = subst (λ b. x ∉ slots c b) here o in
              old_same c lay inv.good p ne fresh x
                (ground (arith, slots-linked c lay inv.good p ne fresh x));
          grows = λ x i.
              subst (λ b. x ∈ slots c b) (sym here)
                (ground (arith, slots-linked c lay inv.good p ne fresh x));
        };
        same = link-SameData c lay inv.good p ne fresh;
        room = λ _. rw here ne;
        unchanged = λ e. cc;
        destroyed = refl;
      }

  pub unchanged-Grown :
      (ps : List ℕ) → Grown c this held live used w false (record w { answers = ps })
  unchanged-Grown ps = record {
    inv = record {
      mutex = inv.mutex;
      good = inv.good;
      placed = inv.placed;
      registered = inv.registered;
    };
    frame = record {
      table = refl;
      index = refl;
      others = λ q h. refl;
      outside = λ x o. refl;
      grows = λ x i. i;
    };
    same = λ x b. refl;
    room = λ e. cc;
    unchanged = λ e. refl;
    destroyed = refl;
  }

  answer-Grown :
      (ps : List ℕ)
      → w.answers ≡ ps
      → ReadyFor c (w.arena this) ps
      → Returns (Grown c this held live used w) (unsafe_add_mem_chuck c this w)
  unfolding unsafe_add_mem_chuck init_chunk link_chunk last_of
  answer-Grown [] e ready = rw (sys_allocate-nil w e, ◌>>=◌) (returns (unchanged-Grown w.answers))
  answer-Grown (p ∷ ps) e ready = elim (Bool-cases (p == null)) [
    | inl z ↦ rw (sys_allocate-cons w p ps e, ◌>>=◌, z) (returns (unchanged-Grown ps))
    | inr nz ↦
        let ne : p ≢ null = ground arith in
        rw (sys_allocate-cons w p ps e, ◌>>=◌, nz)
          (returns (
            add_chunk-Grown p ps _ ne (ready ne) (update_self w.arena this _)
              (λ q n. update_ne w.arena this q _ n)))
  ]

  -- On a well-formed allocator whose object lies right behind the address word of its slot, with a
  -- next block of the system that is null or fresh, `unsafe_add_mem_chuck` returns and keeps the
  -- allocator well-formed with the same slots in use and their contents; if it returns true, a
  -- slot is free, and if it returns false, the allocator is as it was.
  pub unsafe_add_mem_chuck-Grown :
      Ready c this w → Returns (Grown c this held live used w) (unsafe_add_mem_chuck c this w)
  unsafe_add_mem_chuck-Grown ready = answer-Grown w.answers refl ready
