-- ===== src/Arena/Valid.antt =====
-- Which pointers `is_valid` accepts, include/core/arena_allocator.h.
use lock_free.Common.{
  ℕ, zero, suc, ne→==, has, has-append, ◌+◌, ◌-◌, ◌*◌, ◌%◌, ◌^◌, ◌≤◌, ◌<◌, ◌≡◌, refl, ◌⊎◌, inl, inr,
  Bool, true, false, leb, ◌&&◌, some, List, [], ◌∷◌, arith, Bool-cases, ◌==◌, ltb, ◌∈◌, ◌∙◌, sym,
}
use native.Mathlib.Nat.{mod-eq_of_lt}
use lock_free.MemoryAddress.{null, base_bits}
use lock_free.Arena.{Config, MemoryChunk, World, prt}
use lock_free.Arena.Slot.{memory_address_size}
use lock_free.Arena.Run.{run, run_bounds}
use lock_free.Arena.Grow.{last}
use lock_free.Arena.Lifecycle.{in_chunks, unsafe_is_valid}
use lock_free.Arena.Inv.{Layout, Inv, slots, slots_of}

-- The last slot of each chunk is the one that its first slot says, and it does not wrap.
abbrev pub Ends : Config → List MemoryChunk → Type 0
Ends c [] = Unit
Ends c (mc ∷ mcs) =
    (mc.last_slot ≡ last c mc.first_slot)
    × (mc.last_slot + memory_address_size < 2 ^ base_bits c.arch)
    × Ends c mcs

chunk_end : (n size : ℕ) → 0 < n → n * size ≡ (n - 1) * size + size
chunk_end zero size h = absurd (omega arith)
chunk_end (suc n) size h = grind arith

module _ (c : Config) (lay : Layout c) where
  in_chunks-slot :
      (p : ℕ) (mcs : List MemoryChunk)
      → Ends c mcs
      → p ∈ slots_of c mcs
      → in_chunks c (prt c p) mcs ≡ true
  unfolding in_chunks
  in_chunks-slot p [] ends i = cc
  in_chunks-slot p (mc ∷ mcs) (at_last, room, ends) i =
      elim (Bool-cases (has p (run c.memory_slot_size mc.first_slot c.chunk_size))) [
        | inl here ↦
            let (low, high) = run_bounds c.memory_slot_size mc.first_slot c.chunk_size p here in
            let b = lay.behind in
            let total = chunk_end c.chunk_size c.memory_slot_size lay.some_slots in
            let first : (mc.first_slot + memory_address_size) % 2 ^ base_bits c.arch
                ≡ mc.first_slot + memory_address_size =
              mod-eq_of_lt (omega arith) in
            let final : (mc.last_slot + memory_address_size) % 2 ^ base_bits c.arch
                ≡ mc.last_slot + memory_address_size =
              mod-eq_of_lt room in
            rw (first, final) (ground (arith, b, low, high, total, at_last))
        | inr later ↦
            let rest = in_chunks-slot p mcs ends (
              ground (
                arith,
                later,
                sym (
                      has-append p (run c.memory_slot_size mc.first_slot c.chunk_size)
                        (slots_of c mcs))
                    ∙ i,
              )) in
            ground (arith, rest)
      ]

-- A slot that an address lies in, behind its first byte.
abbrev SlotAt : (size v : ℕ) (ps : List ℕ) → Type 0
SlotAt size v ps = (p : ℕ) × (p ∈ ps) × (p ≤ v) × (v < p + size)

run_slot :
    (size first n v : ℕ) → first ≤ v → v < first + n * size → SlotAt size v (run size first n)
run_slot size first zero v low high = absurd (omega arith)
run_slot size first (suc n) v low high = elim (Bool-cases (ltb v (first + size))) [
  | inl here ↦ (first, ground arith, low, ground (arith, here))
  | inr beyond ↦
      let (p, i, l, h) =
        run_slot size (first + size) n v (ground (arith, beyond)) (grind (arith, high)) in
      (p, ground (arith, i), l, h)
]

-- A slot whose object starts at the address or before it, while the object of the slot behind it
-- would start after it.
abbrev pub ObjectAt : Config → (userdata : ℕ) → List ℕ → Type 0
ObjectAt c userdata ps =
    (p : ℕ) × (p ∈ ps) × (prt c p ≤ userdata) × (userdata < prt c p + c.memory_slot_size)

module _ (c : Config) (lay : Layout c) where
  chunk-ObjectAt :
      (userdata first : ℕ)
      → first + memory_address_size ≤ userdata
      → userdata ≤ last c first + memory_address_size
      → ObjectAt c userdata (run c.memory_slot_size first c.chunk_size)
  chunk-ObjectAt userdata first low high =
      let total = chunk_end c.chunk_size c.memory_slot_size lay.some_slots in
      let (bytes, b) : (0 < c.memory_slot_size) × (c.user_data_offset ≡ memory_address_size) =
        (lay.some_bytes, lay.behind) in
      let (p, i, l, h) =
        run_slot c.memory_slot_size first c.chunk_size (userdata - memory_address_size)
          (omega arith) (omega arith) in
      (p, i, omega arith, omega arith)

  in_chunks-ObjectAt :
      (userdata : ℕ) (mcs : List MemoryChunk)
      → Ends c mcs
      → in_chunks c userdata mcs ≡ true
      → ObjectAt c userdata (slots_of c mcs)
  unfolding in_chunks
  in_chunks-ObjectAt userdata [] ends i = absurd cc
  in_chunks-ObjectAt userdata (mc ∷ mcs) (at_last, room, ends) i =
      let first : (mc.first_slot + memory_address_size) % 2 ^ base_bits c.arch
          ≡ mc.first_slot + memory_address_size =
        mod-eq_of_lt (omega arith) in
      let final : (mc.last_slot + memory_address_size) % 2 ^ base_bits c.arch
          ≡ mc.last_slot + memory_address_size =
        mod-eq_of_lt room in
      let j = rw (first, final) at i in
      elim (Bool-cases (
        leb (mc.first_slot + memory_address_size) userdata
        && leb userdata (mc.last_slot + memory_address_size))) [
          | inl here ↦
              let (p, k, l, h) =
                chunk-ObjectAt userdata mc.first_slot (ground (arith, here))
                  (ground (arith, here, at_last)) in
              (
                p,
                has-append p (run c.memory_slot_size mc.first_slot c.chunk_size) (slots_of c mcs)
                    ∙ ground (arith, k),
                l,
                h,
              )
          | inr later ↦
              let (p, k, l, h) = in_chunks-ObjectAt userdata mcs ends (ground (arith, later, j)) in
              (
                p,
                has-append p (run c.memory_slot_size mc.first_slot c.chunk_size) (slots_of c mcs)
                    ∙ ground (arith, k),
                l,
                h,
              )
        ]

module _ {A : Type 0} (c : Config) (lay : Layout c) (this : ℕ) {held : Bool} {live : ℕ → Bool}
    {used : ℕ} {w : World A} (inv : Inv c this held live used w) where
  -- On a well-formed allocator whose object lies right behind the address word of its slot, where
  -- each chunk ends at the slot that its first slot and its size say, and the end does not wrap,
  -- `unsafe_is_valid` returns and changes nothing: it returns true for the object of every slot of
  -- the allocator, false for a null pointer, and on any pointer false, or true where the pointer
  -- lies between the object of a slot of the allocator and where the object of the slot behind it
  -- would start.
  pub unsafe_is_valid-ObjectAt :
      Ends c (w.arena this).mem_chunks
      → ((p : ℕ) → p ∈ slots c (w.arena this) → unsafe_is_valid c this (prt c p) w ≡ some (true, w))
        × (unsafe_is_valid c this null w ≡ some (false, w))
        × ((userdata : ℕ)
            → (unsafe_is_valid c this userdata w ≡ some (false, w))
              ⊎ ((unsafe_is_valid c this userdata w ≡ some (true, w))
                  × ObjectAt c userdata (slots c (w.arena this))))
  unfolding unsafe_is_valid
  unsafe_is_valid-ObjectAt ends = (
    λ p i.
        let o = inv.good.owned p i in
        let ne = o.ne_null in
        let nz : (prt c p == null) ≡ false = ne→== _ _ (λ e. ne (omega arith)) in
        rw (nz, in_chunks-slot c lay p (w.arena this).mem_chunks ends i) refl,
    refl,
    λ userdata. elim (Bool-cases (userdata == null)) [
      | inl z ↦ inl (rw z refl)
      | inr nz ↦ elim (Bool-cases (in_chunks c userdata (w.arena this).mem_chunks)) [
        | inl i ↦
            inr
              (rw (nz, i) refl, in_chunks-ObjectAt c lay userdata (w.arena this).mem_chunks ends i)
        | inr o ↦ inl (rw (nz, o) refl)
      ]
    ],
  )
