-- ===== src/Arena/Service.antt =====
-- What a round of the service thread does, include/core/arena_allocator.h.
use lock_free.Common.{
  ℕ, ◌+◌, ◌*◌, ◌≡◌, refl, inl, inr, Bool, true, false, not, ◌&&◌, ◌||◌, Option, none, some, List,
  [], ◌∷◌, ◌++◌, arith, Bool-cases, ◌==◌, ltb, if◌then◌else◌, length, ap, ◌∙◌, sym,
}
use lock_free.MemoryAddress.{null}
use lock_free.Arena.{Config, Arena, World, pure, ◌>>=◌}
use lock_free.Arena.Core.{unsafe_add_mem_chuck, add_mem_chuck, max_length}
use lock_free.Arena.Grow.{linked_arena}
use lock_free.Arena.GrowLoop.{unsafe_add-none, unsafe_add-refused, unsafe_add-answered}
use lock_free.Arena.Refill.{Refilled, unchanged-Refilled, add-Refilled}
use lock_free.Arena.Locked.{max_length-same, add_mem_chuck-unsafe}
use lock_free.Arena.Lifecycle.{service_round}
use lock_free.Arena.Inv.{Layout, Inv, Ready, Returns, returns, bind, mono, update_self}

-- A statement about what a call returns, as a type that computes.
abbrev After : {S B : Type 0} → (B → S → Type 0) → Option (B × S) → Type 0
After R none = ⊥
After R (some (b, s)) = R b s

Returns-After : {S B : Type 0} (R : B → S → Type 0) (r : Option (B × S)) → Returns R r → After R r
Returns-After R r (returns p) = p

-- What two theorems say of the same call.
both :
    {S B : Type 0} (P Q : B → S → Type 0) (r : Option (B × S))
    → After P r
    → After Q r
    → Returns (λ b s. P b s × Q b s) r
both P Q none p q = absurd p
both P Q (some (b, s)) p q = returns (p, q)

-- Whether the system hands out a block next, and what it answers then.
abbrev pub granted : List ℕ → Bool
granted [] = false
granted (p ∷ ps) = not (p == null)

abbrev pub later : List ℕ → List ℕ
later [] = []
later (p ∷ ps) = ps

-- Whether the thread is to add a chunk.
abbrev pub wants_chunk : Config → Arena → Bool
wants_chunk c a = not a.th_alloc_exit && (c.size_limit == 0 || ltb a.max_length c.size_limit)

length-snoc : {B : Type 0} (xs : List B) (x : B) → length (xs ++ (x ∷ [])) ≡ length xs + 1
length-snoc [] x = refl
length-snoc (y ∷ xs) x = let rest = length-snoc xs x in omega arith

module _ {A : Type 0} (c : Config) (this : ℕ) where
  -- The chunks and the answers that are left when the system has been asked, or not.
  abbrev Counted : (asked : Bool) (w w' : World A) → Type 0
  Counted asked w w' =
      (length (w'.arena this).mem_chunks
        ≡ length (w.arena this).mem_chunks + (if asked && granted w.answers then 1 else 0))
      × (w'.answers ≡ (if asked then later w.answers else w.answers))

  add-Counted :
      (w : World A) (ps : List ℕ)
      → w.answers ≡ ps
      → Returns (λ _. Counted true w) (unsafe_add_mem_chuck c this w)
  add-Counted w [] e = rw (unsafe_add-none c this w e) (returns (rw e (omega arith), rw e refl))
  add-Counted w (p ∷ ps) e = elim (Bool-cases (p == null)) [
    | inl z ↦
        rw (unsafe_add-refused c this w p ps e (ground arith))
          (returns (rw (e, z) (omega arith), rw e refl))
    | inr nz ↦ rw (unsafe_add-answered c this w p ps e (ground arith)) (
        returns (
          rw (e, nz)
              (ap (λ (a : Arena). length a.mem_chunks)
                  (update_self w.arena this (linked_arena c (w.arena this) p))
                ∙ length-snoc (w.arena this).mem_chunks _),
          rw e refl,
        ))
  ]

module _ {A : Type 0} (c : Config) (lay : Layout c) (this : ℕ) where
  -- What a round does, as a call that asks the system for a chunk or not.
  abbrev pub Served : (live : ℕ → Bool) (used : ℕ) (asked : Bool) (w w' : World A) → Type 0
  Served live used asked w w' =
      Refilled c this false live used w w'
      × ((w'.arena this).max_length
          ≡ (w.arena this).max_length + (if asked && granted w.answers then c.chunk_size else 0))
      × (w'.answers ≡ (if asked then later w.answers else w.answers))

  module _ {live : ℕ → Bool} {used : ℕ} (w : World A) (inv : Inv c this false live used w) where
    more_slots :
        (b : Bool) (m n : ℕ)
        → m ≡ n + (if b then 1 else 0)
        → c.chunk_size * m ≡ c.chunk_size * n + (if b then c.chunk_size else 0)
    more_slots true m n e = rw e (grind arith)
    more_slots false m n e = rw e (grind arith)

    unasked : Served live used false w w
    unasked = (unchanged-Refilled c this inv, omega arith, refl)

    asked-Served :
        Ready c this w → Returns (λ _. Served live used true w) (unsafe_add_mem_chuck c this w)
    asked-Served ready =
        mono
          (both (λ _. Refilled c this false live used w) (λ _. Counted c this true w)
            (unsafe_add_mem_chuck c this w) (Returns-After _ _ (add-Refilled c lay this inv ready))
            (Returns-After _ _ (add-Counted c this w w.answers refl)))
          (λ _ w' (r, (n, left)). returns (
            r,
            r.inv.good.chunk_count
                ∙ more_slots (granted w.answers) (length (w'.arena this).mem_chunks)
                    (length (w.arena this).mem_chunks) n
                ∙ ap (λ k. k + (if granted w.answers then c.chunk_size else 0))
                    (sym inv.good.chunk_count),
            left,
          ))

  -- On a well-formed allocator whose object lies right behind the address word of its slot, with
  -- its lock free and a next block of the system that is null or fresh, a round of the service
  -- thread returns and goes on exactly if the thread is not told to exit. It asks the system for a
  -- block if and only if it goes on and the slots are fewer than `size_limit`, or `size_limit` is
  -- 0; the slots are more by `chunk_size` if the system gives a block then, and else as many as
  -- they were. The allocator stays well-formed with the same slots in use and their contents, and
  -- a free slot there was is still there.
  pub service_round-Served :
      {live : ℕ → Bool} {used : ℕ} (w : World A)
      → Inv c this false live used w
      → Ready c this w
      → Returns
          (λ more w'.
            (more ≡ not (w.arena this).th_alloc_exit)
            × Served live used (wants_chunk c (w.arena this)) w w')
          (service_round c (max_length c) (add_mem_chuck c) this w)
  unfolding service_round
  service_round-Served {live} {used} w inv ready = elim (Bool-cases (w.arena this).th_alloc_exit) [
    | inl stop ↦ rw stop (returns (refl, unasked w inv))
    | inr go ↦
        rw (go, ◌>>=◌, max_length-same this w inv.mutex c)
          (elim (Bool-cases (ltb (w.arena this).max_length c.size_limit || c.size_limit == 0)) [
            | inl more ↦
                let wants : (c.size_limit == 0 || ltb (w.arena this).max_length c.size_limit)
                    ≡ true =
                  ground (arith, more) in
                rw (more, wants, ◌>>=◌, add_mem_chuck-unsafe c this w inv.mutex)
                  (bind {P = λ _. Served live used true w} (λ _. pure true)
                    (unsafe_add_mem_chuck c this) w (asked-Served w inv ready)
                    (λ _ w' r. returns (refl, r)))
            | inr full ↦
                let enough : (c.size_limit == 0 || ltb (w.arena this).max_length c.size_limit)
                    ≡ false =
                  ground (arith, full) in
                rw (full, enough) (returns (refl, unasked w inv))
          ])
  ]
