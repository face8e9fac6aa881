-- ===== src/LockFreeArena/Refine.antt =====
-- The operations of `lock_free::arena_allocator`, called with no other thread between, keep the
-- allocator well-formed.
use native.Mathlib.Nat.{mod-eq_of_lt}
use lock_free.Common.{
  ℕ, suc, ◌+◌, ◌^◌, ◌<◌, ◌≡◌, Bool, true, false, some, arith, Bool-cases, inl, inr, ◌∙◌, ap, sym,
  subst, leb,
}
use mathlib.Core.Option.{some-injective}
use lock_free.MemoryAddress.{null}
use lock_free.Arena.{Config, World, prt, wrap}
use lock_free.Arena.Core
use lock_free.Arena.Refill.{Refilled, refill-Refilled}
use lock_free.Arena.Allocate.{Allocated, after-Refilled, take_first, take_first-Allocated}
use lock_free.Arena.Deallocate.{Deallocated, unsafe_deallocate-Deallocated, guards}
use lock_free.Arena.Inv.{Layout, Inv, Ready, Returns, returns, bind, mono}
use lock_free.LockFreeArena.Ops.{signed, distance, allocate, deallocate}
use lock_free.LockFreeArena.Ops.{length as arena_length}
use lock_free.LockFreeArena.AsCore.{allocate-same, deallocate-same}

signed_lem : (n : ℕ) → n < 2 ^ 63 → signed n ≡ n + 2 ^ 63
signed_lem n h = omega arith

distance_lem : (m n : ℕ) → distance (m + n) n ≡ m
distance_lem m n = elim (Bool-cases (leb n (m + n))) [
  | inl e ↦ rw e (omega arith)
  | inr e ↦ ground arith
]

-- The difference of two counts in signed numbers that do not overflow.
distance-signed : (m f n : ℕ) → m ≡ f + n → m < 2 ^ 63 → distance (signed m) (signed f) ≡ n
distance-signed m f n e h =
    let (first, second) : (signed m ≡ n + (f + 2 ^ 63)) × (signed f ≡ f + 2 ^ 63) =
      (signed_lem m h ∙ omega arith, signed_lem f (omega arith)) in
    rw (first, second) (distance_lem n (f + 2 ^ 63))

module _ {A : Type 0} (c : Config) (lay : Layout c) (this : ℕ) {live : ℕ → Bool} {used : ℕ}
    {w : World A} where
  -- On a well-formed allocator whose object lies right behind the address word of its slot, with a
  -- lock that is free, a next block of the system that is null or fresh, and no other thread
  -- between, `allocate` of the lock-free allocator returns, however often its exchanges fail for
  -- no reason: it returns null where the free list is empty and was empty, or the object of a slot
  -- that was not in use, which is in use now and holds the value. Either way the allocator stays
  -- well-formed, the objects in use keep their contents, and nothing outside its slots changes.
  pub lock_free_allocate-Allocated :
      (add_fails take_fails : ℕ) (v : A)
      → Inv c this false live used w
      → Ready c this w
      → Returns (Allocated c this false live used v w) (allocate c add_fails take_fails this v w)
  lock_free_allocate-Allocated add_fails take_fails v inv ready =
      subst (Returns (Allocated c this false live used v w))
        (sym (allocate-same c add_fails take_fails this v w inv.mutex).0)
        (bind {P = λ _. Refilled c this false live used w} (λ _. take_first c this v)
          (Core.refill c this) w (refill-Refilled c lay this inv ready)
          (λ _ w1 r.
            mono (take_first-Allocated c lay this v r.inv)
              (λ out w2 t. returns (after-Refilled c this v r t))))

  -- `deallocate` of the object of a slot in use, as for `core::arena_allocator`.
  pub lock_free_deallocate-Deallocated :
      (fails p : ℕ)
      → Inv c this false live (suc used) w
      → live p ≡ true
      → Returns (Deallocated c this false live used p w) (deallocate c fails (prt c p) w)
  lock_free_deallocate-Deallocated fails p inv busy =
      subst (Returns (Deallocated c this false live used p w))
        (sym
          (deallocate-same c fails (prt c p) w (
            let (_, g1, _, g3) = guards c lay this inv p busy in
            λ e. inv.placed (some-injective this null (sym g3 ∙ rw g1 at e)))).0)
        (unsafe_deallocate-Deallocated c lay this inv p busy)

  -- `length` is the number of the slots in use, as long as the counts fit a signed number.
  pub lock_free_length_lem :
      Inv c this false live used w
      → (w.arena this).max_length < 2 ^ 63
      → arena_length c this w ≡ some (used, w)
  unfolding arena_length
  lock_free_length_lem inv small =
      let g = inv.good in
      let total : (w.arena this).max_length ≡ (w.arena this).free_slots + used =
        g.max_count ∙ ap (λ k. k + used) (sym g.free_count) in
      let fits : used < 2 ^ c.size_bits = let b = g.bound in omega arith in
      ap (λ k. some (k, w))
        (ap (wrap c)
            (distance-signed (w.arena this).max_length (w.arena this).free_slots used total small)
          ∙ mod-eq_of_lt fits)
