-- ===== src/LockFreeArena/Same.antt =====
-- A weak exchange that fails for no reason only makes `lock_free::arena_allocator` repeat a step:
-- its loops leave what one successful round leaves.
use Prim.Native.Nat.{bit_and}
use mathlib.Core.Path.{fun_ext}
use lock_free.Common.{
  ℕ, zero, suc, ◌+◌, ◌-◌, ◌%◌, ◌^◌, ◌<◌, ◌≡◌, refl, ◌∙◌, ap, Bool, true, false, ◌&&◌, inl, inr,
  some, arith, ◌==◌, update, Bool-cases, ◌/◌, subst, ne→==, ◌≢◌,
}
use lock_free.MemoryAddress.{
  Arch, ptr32, ptr64, base_bits, flag_bits, destroy, unset_flag, set_address, null,
}
use lock_free.MemoryAddress.Laws.{parity_unset}
use lock_free.Arena.{Config, World, ◌>>=◌}
use lock_free.Arena.Slot.{MemorySlot, set_free, next}
use lock_free.LockFreeArena.Ops.{exchange_next_free, take_loop, give_loop}

mask : Arch → ℕ
mask arch = 2 ^ base_bits arch - 1 - destroy

below : (ℕ → Bool) → ℕ → Bool
below test zero = true
below test (suc n) = test n && below test n

below-true : (test : ℕ → Bool) (n x : ℕ) → below test n ≡ true → x < n → test x ≡ true
unfolding below
below-true test zero x e h = absurd (omega arith)
below-true test (suc n) x e h = elim (Bool-cases (x == n)) [
  | inl same ↦ ground arith
  | inr other ↦ below-true test n x (ground arith) (ground arith)
]

mask_keeps_even :
    (arch : Arch) (x : ℕ) → x < 8 → bit_and (x + x) (mask arch) % 2 ^ flag_bits arch ≡ x + x
unfolding mask below
mask_keeps_even ptr32 x h =
    let t =
      below-true (λ k. bit_and (k + k) (mask ptr32) % 2 ^ flag_bits ptr32 == k + k) 8 x refl h in
    ground arith
mask_keeps_even ptr64 x h =
    let t =
      below-true (λ k. bit_and (k + k) (mask ptr64) % 2 ^ flag_bits ptr64 == k + k) 8 x refl h in
    ground arith

flags_small : (arch : Arch) (x : ℕ) → x % 2 ^ flag_bits arch < 16
flags_small ptr32 x = omega arith
flags_small ptr64 x = omega arith

-- A flag that is cleared stays cleared.
mask_twice :
    (arch : Arch) (f : ℕ)
    → let once = bit_and f (mask arch) % 2 ^ flag_bits arch in
      bit_and once (mask arch) % 2 ^ flag_bits arch ≡ once
unfolding mask unset_flag
mask_twice arch f =
    let once = bit_and f (mask arch) % 2 ^ flag_bits arch in
    let small = flags_small arch (bit_and f (mask arch)) in
    let even : once % 2 ≡ 0 = parity_unset arch (record { addr = 0; flags = f; counter = 0 }) in
    let twice : once / 2 + once / 2 ≡ once = omega arith in
    subst (λ x. bit_and x (mask arch) % 2 ^ flag_bits arch ≡ x) twice
      (mask_keeps_even arch (once / 2) (omega arith))

module _ {A : Type 0} (arch : Arch) (s : MemorySlot A) (p : ℕ) where
  -- A slot that is freed again is the same.
  pub set_free-set_free : set_free arch (set_free arch s p) p ≡ set_free arch s p
  unfolding set_free unset_flag set_address mask
  set_free-set_free =
      ap
        (λ (f : ℕ). record (set_free arch s p) {
          ptr_next = record ((set_free arch s p).ptr_next) { flags = f };
        })
        (mask_twice arch s.ptr_next.flags)

update_again :
    {A : Type 0} (m : ℕ → A) (p : ℕ) (f : A → A)
    → f (f (m p)) ≡ f (m p)
    → update (update m p (f (m p))) p (f (update m p (f (m p)) p)) ≡ update m p (f (m p))
update_again m p f e =
    fun_ext
      (λ q. elim (Bool-cases (q == p)) [ inl same ↦ ground (arith, e) | inr other ↦ ground arith ])

module _ {A : Type 0} (this : ℕ) (w : World A) where
  pub exchange-spurious :
      (expected desired : ℕ)
      → exchange_next_free true this expected desired w
        ≡ some ((false, (w.arena this).next_free), w)
  unfolding exchange_next_free
  exchange-spurious expected desired = elim (Bool-cases ((w.arena this).next_free == expected)) [
    | inl e ↦ rw e refl
    | inr n ↦ rw n refl
  ]

  -- The exchange when nothing comes between.
  pub exchange-taken :
      (desired : ℕ)
      → exchange_next_free false this (w.arena this).next_free desired w
        ≡ some (
          (true, (w.arena this).next_free),
          record w { arena = update w.arena this (record (w.arena this) { next_free = desired }) },
        )
  unfolding exchange_next_free
  exchange-taken desired =
      let e : ((w.arena this).next_free == (w.arena this).next_free) ≡ true = ground arith in
      rw e refl

module _ {A : Type 0} (c : Config) (this first last : ℕ) where
  -- What the loops of `deallocate` and `add_mem_chuck` leave.
  abbrev pub given : World A → World A
  given w = record w {
    mem = update w.mem last (set_free c.arch (w.mem last) (w.arena this).next_free);
    arena = update w.arena this (record (w.arena this) { next_free = first });
  }

  -- However often the exchange fails for no reason, the loop ends, and nothing tells how often.
  pub give_loop-given :
      (fails : ℕ) (w : World A)
      → give_loop c this first last fails (w.arena this).next_free w ≡ some (tt, given w)
  unfolding give_loop
  give_loop-given zero w =
      let w1 = record w {
        mem = update w.mem last (set_free c.arch (w.mem last) (w.arena this).next_free);
      } in
      rw (◌>>=◌, exchange-taken this w1 first) refl
  give_loop-given (suc fails) w =
      let w1 = record w {
        mem = update w.mem last (set_free c.arch (w.mem last) (w.arena this).next_free);
      } in
      rw (◌>>=◌, exchange-spurious this w1 (w.arena this).next_free first)
        (give_loop-given fails w1
          ∙ ap (λ m. some (tt, record (given w) { mem = m }))
              (update_again w.mem last (λ s. set_free c.arch s (w.arena this).next_free)
                (set_free-set_free c.arch (w.mem last) (w.arena this).next_free)))

-- What the loop of `allocate` leaves: without a free slot nothing changes, and otherwise the first
-- one leaves the list.
pub take_loop-null :
    {A : Type 0} (this : ℕ) (fails : ℕ) (w : World A)
    → (w.arena this).next_free ≡ null
    → take_loop this fails w ≡ some (null, w)
unfolding take_loop
take_loop-null this zero w e = rw e refl
take_loop-null this (suc fails) w e = rw e refl

pub take_loop-taken :
    {A : Type 0} (this : ℕ) (fails : ℕ) (w : World A)
    → (w.arena this).next_free ≢ null
    → take_loop this fails w
      ≡ some (
        (w.arena this).next_free,
        record w {
          arena =
              update w.arena this
                (record (w.arena this) { next_free = next (w.mem (w.arena this).next_free) });
        },
      )
unfolding take_loop
take_loop-taken this zero w ne =
    rw (ne→== _ _ ne, ◌>>=◌, exchange-taken this w (next (w.mem (w.arena this).next_free))) refl
take_loop-taken this (suc fails) w ne =
    rw
      (
        ne→== _ _ ne,
        ◌>>=◌,
        exchange-spurious this w (w.arena this).next_free (next (w.mem (w.arena this).next_free)),
      )
      (take_loop-taken this fails w ne)
