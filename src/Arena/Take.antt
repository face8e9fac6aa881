-- ===== src/Arena/Take.antt =====
-- The first free slot of `core::arena_allocator` is taken and an object is built in it.

use lock_free.Common.{
  ℕ, suc, ◌+◌, ◌-◌, ◌^◌, ◌%◌, ◌≡◌, refl, ◌≢◌, inl, inr, Bool, true, false, arith, update, ◌∈◌, ◌∉◌,
  subst, sym, length, ap, ◌∙◌, ◌<◌,
}
use lock_free.MemoryAddress.{null}
use lock_free.Arena.{Config, Arena, World, ◌>>◌, wrap, prt}
use lock_free.Arena.Slot.{MemorySlot, next, set_in_use, set_in_use_lem}
use lock_free.Arena.Core.{take_slot, construct}
use lock_free.Arena.FreeList.{frame, head_cases, all_free}
use lock_free.Arena.Inv.{
  Good, Inv, Frame, SameData, slots, Returns, returns, update_self, update_ne,
}

-- The slot at `p` with a new object in it.
abbrev pub constructed : {A : Type 0} → Config → MemorySlot A → A → MemorySlot A
constructed c s v = record (set_in_use c.arch s) { user_data = v }

-- The allocator when the first free slot, which leads to `q`, has been taken.
abbrev pub taken_arena : Config → Arena → (q : ℕ) (held : Bool) → Arena
taken_arena c a q held = record a {
  next_free = q;
  free_slots = wrap c (a.free_slots + 2 ^ c.size_bits - 1);
  mtx_next = held;
}

pred_wrap : (n k : ℕ) → suc n < k → (suc n + k - 1) % k ≡ n
pred_wrap n k h = grind arith

module _ {A : Type 0} (c : Config) {live : ℕ → Bool} {used : ℕ} {m : ℕ → MemorySlot A} {a : Arena}
    (good : Good c live used m a) (v : A) where
  open a use {next_free as p}

  head_mem : p ≢ null → p ∈ good.free
  head_mem ne = elim (head_cases good.chain) [
    | inl (e, _) ↦ absurd (ne e)
    | inr (_, ys, e, out, rest) ↦ ground arith
  ]

  pub not_live : p ≢ null → live p ≡ false
  not_live ne =
      let i : p ∈ good.free = head_mem ne in ground (arith, all_free p good.chain i, good.busy p)

  pub take-Good :
      (held : Bool)
      → p ≢ null
      → Good c
          (update live p true)
          (suc used)
          (update m p (constructed c (m p) v))
          (taken_arena c a (next (m p)) held)
  take-Good held ne = elim (head_cases good.chain) [
    | inl (e, _) ↦ absurd (ne e)
    | inr (_, ys, e, out, rest) ↦ record {
      free = ys;
      chain = frame rest (λ x i. ground arith);
      free_count =
          let n = ap length e in
          let b : suc (length ys) < 2 ^ c.size_bits =
            let (g, h) : (a.max_length ≡ length good.free + used)
                × (a.max_length < 2 ^ c.size_bits) =
              (good.max_count, good.bound) in
            omega arith in
          let f : a.free_slots ≡ suc (length ys) = good.free_count ∙ n in
          rw f (pred_wrap (length ys) (2 ^ c.size_bits) b);
      max_count =
          let (n, g) : (length good.free ≡ suc (length ys))
              × (a.max_length ≡ length good.free + used) =
            (ap length e, good.max_count) in
          omega arith;
      chunk_count = good.chunk_count;
      bound = good.bound;
      cover = λ x. ground (arith, good.cover x);
      busy = λ x b. ground (arith, set_in_use_lem c.arch (m p), good.busy x);
      owned = λ x i.
          let o = good.owned x i in
          record {
            named = let h = o.named in ground (arith, set_in_use_lem c.arch (m p));
            fits = o.fits;
            ne_null = o.ne_null;
          };
      index_fits = good.index_fits;
    }
  ]

-- A call found no slot: nothing has changed but, perhaps, the answers of the system and the
-- semaphore of the service thread.
pub record NoSlot {A : Type 0} (c : Config) (this : ℕ) (held : Bool) (live : ℕ → Bool) (used : ℕ)
    (w : World A) (out : ℕ) (w' : World A) : Type 0 where
  pub is_null : out ≡ null
  pub inv : Inv c this held live used w'
  pub frame : Frame c this w w'
  pub same : SameData live w.mem w'.mem
  pub empty : (w'.arena this).next_free ≡ null
  pub was_empty : (w.arena this).next_free ≡ null

-- A call returned a slot that was not in use, and it is in use now and holds `v`.
pub record Took {A : Type 0} (c : Config) (this : ℕ) (held : Bool) (live : ℕ → Bool) (used : ℕ)
    (v : A) (w : World A) (out : ℕ) (w' : World A) : Type 0 where
  pub slot : ℕ
  pub ne_null : slot ≢ null
  pub points : out ≡ prt c slot
  pub was_free : live slot ≡ false
  pub inv : Inv c this held (update live slot true) (suc used) w'
  pub stored : (w'.mem slot).user_data ≡ v
  pub frame : Frame c this w w'
  pub same : SameData live w.mem w'.mem

module _ {A : Type 0} (c : Config) (this : ℕ) {held : Bool} {live : ℕ → Bool} {used : ℕ}
    (w : World A) (inv : Inv c this held live used w) (v : A) where
  -- The slot at the head of the free list, taken; the lock is left as `held'`.
  pub Took-world :
      (held' : Bool) (arenas : ℕ → Arena)
      → let p = (w.arena this).next_free in
        p ≢ null
        → arenas this ≡ taken_arena c (w.arena this) (next (w.mem p)) held'
        → ((q : ℕ) → q ≢ this → arenas q ≡ w.arena q)
        → Took c this held' live used v w
            (prt c p)
            (record w { mem = update w.mem p (constructed c (w.mem p) v); arena = arenas })
  Took-world held' arenas ne here others =
      let p = (w.arena this).next_free in
      let i = head_mem c inv.good v ne in
      record {
        slot = p;
        ne_null = ne;
        points = refl;
        was_free = not_live c inv.good v ne;
        inv = record {
          mutex = rw here refl;
          good = rw here (take-Good c inv.good v held' ne);
          placed = inv.placed;
          registered = rw here inv.registered;
        };
        stored = ground arith;
        frame = record {
          table = refl;
          index = rw here refl;
          others = others;
          outside =
              λ x o. let o' = subst (λ b. x ∉ slots c b) here o in ground (arith, inv.good.cover p);
          grows = λ x o. subst (λ b. x ∈ slots c b) (sym here) o;
        };
        same = λ x b. ground (arith, not_live c inv.good v ne);
      }

  arena_now :
      (q : ℕ)
      → update w.arena this (taken_arena c (w.arena this) q (w.arena this).mtx_next) this
        ≡ taken_arena c (w.arena this) q held
  arena_now q = update_self w.arena this _ ∙ ap (taken_arena c (w.arena this) q) inv.mutex

  pub take_construct-Took :
      (w.arena this).next_free ≢ null
      → Returns
          (Took c this held live used v w)
          ((take_slot c this (w.arena this).next_free >> construct c (w.arena this).next_free v) w)
  unfolding take_slot construct
  take_construct-Took ne = returns (
      Took-world held _ ne (arena_now (next (w.mem (w.arena this).next_free)))
        (λ q n. update_ne w.arena this q _ n))

  pub NoSlot-now : (w.arena this).next_free ≡ null → NoSlot c this held live used w null w
  NoSlot-now e = record {
    is_null = refl;
    inv = inv;
    frame = record {
      table = refl;
      index = refl;
      others = λ q h. refl;
      outside = λ x o. refl;
      grows = λ x i. i;
    };
    same = λ x b. refl;
    empty = e;
    was_empty = e;
  }
