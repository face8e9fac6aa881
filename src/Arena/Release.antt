-- ===== src/Arena/Release.antt =====
-- The loops of `clear` of `core::arena_allocator`, include/core/arena_allocator.h.

use lock_free.Common.{
  ℕ, zero, suc, ◌+◌, ◌≡◌, refl, true, List, [], ◌∷◌, arith, if◌then◌else◌, ◌==◌, has, ◌∈◌,
  has-append, ◌⊎◌, inl, inr, Bool-cases,
}
use lock_free.Arena.{Config, MemoryChunk, World, prt}
use lock_free.Arena.Slot.{MemorySlot, in_use}
use lock_free.Arena.Core.{release_chunks, destroy_slots}
use lock_free.Arena.Run.{run}
use lock_free.Arena.Inv.{slots_of}

module _ {A : Type 0} (c : Config) (m : ℕ → MemorySlot A) where
  open c use {memory_slot_size, chunk_size}

  -- The object of a slot in use among `ps`.
  abbrev pub InUse : List ℕ → ℕ → Type 0
  InUse ps u = (x : ℕ) × (x ∈ ps) × (in_use (m x) ≡ true) × (u ≡ prt c x)

  InUse-more : (ps qs : List ℕ) (u : ℕ) → ((x : ℕ) → x ∈ ps → x ∈ qs) → InUse ps u → InUse qs u
  InUse-more ps qs u more (x, i, b, e) = (x, more x i, b, e)

  destroy_slots-keeps : (n p : ℕ) (d : List ℕ) (u : ℕ) → u ∈ d → u ∈ destroy_slots c n p m d
  unfolding destroy_slots
  destroy_slots-keeps zero p d u i = i
  destroy_slots-keeps (suc n) p d u i =
      destroy_slots-keeps n (p + memory_slot_size) (if in_use (m p) then prt c p ∷ d else d) u
        (ground (arith, i))

  destroy_slots-all :
      (n p : ℕ) (d : List ℕ) (x : ℕ)
      → x ∈ run memory_slot_size p n
      → in_use (m x) ≡ true
      → prt c x ∈ destroy_slots c n p m d
  unfolding destroy_slots
  destroy_slots-all zero p d x i b = cc
  destroy_slots-all (suc n) p d x i b = elim (Bool-cases (x == p)) [
    | inl here ↦
        destroy_slots-keeps n (p + memory_slot_size) (if in_use (m p) then prt c p ∷ d else d)
          (prt c x) (ground (arith, here, b))
    | inr other ↦
        destroy_slots-all n (p + memory_slot_size) (if in_use (m p) then prt c p ∷ d else d) x
          (ground (arith, i, other)) b
  ]

  destroy_slots-only :
      (n p : ℕ) (d : List ℕ) (u : ℕ)
      → u ∈ destroy_slots c n p m d
      → (u ∈ d) ⊎ InUse (run memory_slot_size p n) u
  unfolding destroy_slots
  destroy_slots-only zero p d u i = inl i
  destroy_slots-only (suc n) p d u i =
      elim (destroy_slots-only n (p + memory_slot_size) (if in_use (m p) then prt c p ∷ d else d) u
        i) [
          | inl j ↦ elim (Bool-cases (in_use (m p))) [
            | inl b ↦ elim (Bool-cases (u == prt c p)) [
              | inl here ↦ inr (p, ground arith, b, ground arith)
              | inr other ↦ inl (ground (arith, j, b, other))
            ]
            | inr f ↦ inl (ground (arith, j, f))
          ]
          | inr more ↦ inr (
              InUse-more (run memory_slot_size (p + memory_slot_size) n)
                (run memory_slot_size p (suc n)) u (λ x k. ground (arith, k)) more)
        ]

module _ {A : Type 0} (c : Config) where
  open c use {memory_slot_size, chunk_size}

  release_chunks-keeps :
      (mcs : List MemoryChunk) (w : World A) (u : ℕ)
      → u ∈ w.destroyed
      → u ∈ (release_chunks c mcs w).destroyed
  unfolding release_chunks
  release_chunks-keeps [] w u i = i
  release_chunks-keeps (mc ∷ mcs) w u i =
      release_chunks-keeps mcs _ u
        (destroy_slots-keeps c w.mem chunk_size mc.first_slot w.destroyed u i)

  pub release_chunks-all :
      (mcs : List MemoryChunk) (w : World A) (x : ℕ)
      → x ∈ slots_of c mcs
      → in_use (w.mem x) ≡ true
      → prt c x ∈ (release_chunks c mcs w).destroyed
  unfolding release_chunks
  release_chunks-all [] w x i b = cc
  release_chunks-all (mc ∷ mcs) w x i b =
      let first = run memory_slot_size mc.first_slot chunk_size in
      let split = has-append x first (slots_of c mcs) in
      elim (Bool-cases (has x first)) [
        | inl here ↦
            release_chunks-keeps mcs _ (prt c x)
              (destroy_slots-all c w.mem chunk_size mc.first_slot w.destroyed x here b)
        | inr other ↦ release_chunks-all mcs _ x (ground (arith, split, i, other)) b
      ]

  pub release_chunks-only :
      (mcs : List MemoryChunk) (w : World A) (u : ℕ)
      → u ∈ (release_chunks c mcs w).destroyed
      → (u ∈ w.destroyed) ⊎ InUse c w.mem (slots_of c mcs) u
  unfolding release_chunks
  release_chunks-only [] w u i = inl i
  release_chunks-only (mc ∷ mcs) w u i =
      let first = run memory_slot_size mc.first_slot chunk_size in
      elim (release_chunks-only mcs _ u i) [
        | inl j ↦ elim (destroy_slots-only c w.mem chunk_size mc.first_slot w.destroyed u j) [
          | inl k ↦ inl k
          | inr here ↦ inr (
              InUse-more c w.mem first (slots_of c (mc ∷ mcs)) u
                (λ x k. ground (arith, k, has-append x first (slots_of c mcs))) here)
        ]
        | inr more ↦ inr (
            InUse-more c w.mem (slots_of c mcs) (slots_of c (mc ∷ mcs)) u
              (λ x k. ground (arith, k, has-append x first (slots_of c mcs))) more)
      ]

  -- Nothing else that the allocator stands on has changed.
  pub release_chunks-frame :
      (mcs : List MemoryChunk) (w : World A)
      → ((release_chunks c mcs w).arena ≡ w.arena)
        × ((release_chunks c mcs w).mem ≡ w.mem)
        × ((release_chunks c mcs w).instances_table ≡ w.instances_table)
  unfolding release_chunks
  release_chunks-frame [] w = (refl, refl, refl)
  release_chunks-frame (mc ∷ mcs) w = release_chunks-frame mcs _
