-- ===== src/Arena/Refill.antt =====
-- What `allocate` does before it takes a slot: it locks, and it adds a chunk or wakes the service
-- thread.
use lock_free.Common.{
  ℕ, ◌+◌, ◌≡◌, refl, inl, inr, Bool, true, false, List, [], ◌∷◌, Bool-cases, ◌==◌, ltb, leb, update,
  ◌∈◌, subst, sym,
}
use lock_free.MemoryAddress.{null}
use lock_free.Arena.{Config, Arena, World}
use lock_free.Arena.Slot.{MemorySlot}
use lock_free.Arena.Core.{unsafe_add_mem_chuck, refill, lock, unlock}
use lock_free.Arena.AddChunk.{Grown, unsafe_add_mem_chuck-Grown}
use lock_free.Arena.Inv.{
  Layout, Good, Inv, Frame, SameData, Ready, ReadyFor, slots, Returns, returns, mono, update_self,
  update_ne,
}

-- The slots in use are as they were, and a free slot there was is still there.
pub record Refilled {A : Type 0} (c : Config) (this : ℕ) (held : Bool) (live : ℕ → Bool) (used : ℕ)
    (w w' : World A) : Type 0 where
  pub inv : Inv c this held live used w'
  pub frame : Frame c this w w'
  pub same : SameData live w.mem w'.mem
  pub shut : (w'.arena this).next_free ≡ null → (w.arena this).next_free ≡ null

-- The lock and the semaphore alone are changed.
abbrev pub signalled : Arena → Bool → ℕ → Arena
signalled a held n = record a { mtx_next = held; sem_th_alloc = n }

Good-signalled :
    {A : Type 0} (c : Config) {live : ℕ → Bool} {used : ℕ} {m : ℕ → MemorySlot A} {a : Arena}
    (held : Bool) (n : ℕ)
    → Good c live used m a
    → Good c live used m (signalled a held n)
Good-signalled c held n g = record {
  free = g.free;
  chain = g.chain;
  free_count = g.free_count;
  max_count = g.max_count;
  chunk_count = g.chunk_count;
  bound = g.bound;
  cover = g.cover;
  busy = g.busy;
  owned = g.owned;
  index_fits = g.index_fits;
}

ReadyFor-signalled :
    (c : Config) (a : Arena) (held : Bool) (n : ℕ) (ps : List ℕ)
    → ReadyFor c a ps
    → ReadyFor c (signalled a held n) ps
ReadyFor-signalled c a held n [] r = r
ReadyFor-signalled c a held n (p ∷ ps) r =
    λ ne. let f = r ne in record { fits = f.fits; apart = f.apart; countable = f.countable }

module _ {A : Type 0} (c : Config) (this : ℕ) {held : Bool} {live : ℕ → Bool} {used : ℕ}
    {w : World A} (inv : Inv c this held live used w) where
  pub Refilled-signalled :
      (held' : Bool) (n : ℕ)
      → Refilled c this held' live used w
          (record w { arena = update w.arena this (signalled (w.arena this) held' n) })
  Refilled-signalled held' n =
      let a' = signalled (w.arena this) held' n in
      let here : update w.arena this a' this ≡ a' = update_self w.arena this a' in
      record {
        inv = record {
          mutex = rw here refl;
          good = rw here (Good-signalled c held' n inv.good);
          placed = inv.placed;
          registered = rw here inv.registered;
        };
        frame = record {
          table = refl;
          index = rw here refl;
          others = λ q h. update_ne w.arena this q a' h;
          outside = λ x o. refl;
          grows = λ x i. subst (λ b. x ∈ slots c b) (sym here) i;
        };
        same = λ x b. refl;
        shut = λ e. subst (λ (b : Arena). b.next_free ≡ null) here e;
      }

  pub unchanged-Refilled : Refilled c this held live used w w
  unchanged-Refilled = record {
    inv = inv;
    frame = record {
      table = refl;
      index = refl;
      others = λ q h. refl;
      outside = λ x o. refl;
      grows = λ x i. i;
    };
    same = λ x b. refl;
    shut = λ e. e;
  }

module _ {A : Type 0} (c : Config) (lay : Layout c) (this : ℕ) {live : ℕ → Bool} {used : ℕ}
    {w : World A} where
  pub Grown-Refilled :
      {held : Bool} (done : Bool) {w' : World A}
      → Grown c this held live used w done w'
      → Refilled c this held live used w w'
  Grown-Refilled true g = record {
    inv = g.inv;
    frame = g.frame;
    same = g.same;
    shut = λ e. absurd (g.room refl e);
  }
  Grown-Refilled false g = record {
    inv = g.inv;
    frame = g.frame;
    same = g.same;
    shut =
        subst (λ (a : Arena). a.next_free ≡ null → (w.arena this).next_free ≡ null)
          (sym (g.unchanged refl)) (λ e. e);
  }

  pub add-Refilled :
      {held : Bool}
      → Inv c this held live used w
      → Ready c this w
      → Returns (λ _. Refilled c this held live used w) (unsafe_add_mem_chuck c this w)
  add-Refilled inv ready =
      mono (unsafe_add_mem_chuck-Grown c lay this w inv ready)
        (λ done w' g. returns (Grown-Refilled done g))

  -- The lock leaves the next answer of the system as it was.
  pub lock-Ready :
      Inv c this false live used w
      → Ready c this w
      → Returns (λ _ w'. Refilled c this true live used w w' × Ready c this w') (lock this w)
  unfolding lock
  lock-Ready inv ready =
      let a' = signalled (w.arena this) true (w.arena this).sem_th_alloc in
      rw inv.mutex (
        returns (
          Refilled-signalled c this inv true (w.arena this).sem_th_alloc,
          subst (λ b. ReadyFor c b w.answers) (sym (update_self w.arena this a'))
              (ReadyFor-signalled c (w.arena this) true (w.arena this).sem_th_alloc w.answers
                ready),
        ))

  pub lock-Refilled :
      Inv c this false live used w → Returns (λ _. Refilled c this true live used w) (lock this w)
  unfolding lock
  lock-Refilled inv =
      rw inv.mutex (returns (Refilled-signalled c this inv true (w.arena this).sem_th_alloc))

  pub unlock-Refilled :
      Inv c this true live used w → Returns (λ _. Refilled c this false live used w) (unlock this w)
  unfolding unlock
  unlock-Refilled inv = returns (Refilled-signalled c this inv false (w.arena this).sem_th_alloc)

  pub refill-Refilled :
      {held : Bool}
      → Inv c this held live used w
      → Ready c this w
      → Returns (λ _. Refilled c this held live used w) (refill c this w)
  unfolding refill
  refill-Refilled inv ready = elim (Bool-cases (ltb 0 c.alloc_threshold)) [
    | inl th ↦ rw th (elim (Bool-cases (leb (w.arena this).free_slots c.alloc_threshold)) [
      | inl low ↦ rw low (
          returns (
            subst
              (λ b. Refilled c this b live used w (record w {
                arena = update w.arena this (
                    signalled (w.arena this) (w.arena this).mtx_next
                      ((w.arena this).sem_th_alloc + 1));
              }))
              inv.mutex
              (Refilled-signalled c this inv (w.arena this).mtx_next
                ((w.arena this).sem_th_alloc + 1))))
      | inr high ↦ rw high (returns (unchanged-Refilled c this inv))
    ])
    | inr no_th ↦ rw no_th (elim (Bool-cases ((w.arena this).next_free == null)) [
      | inl empty ↦ rw empty (add-Refilled inv ready)
      | inr some_left ↦ rw some_left (returns (unchanged-Refilled c this inv))
    ])
  ]
