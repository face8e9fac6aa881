-- ===== src/RingBuffer/Owned.antt =====
-- Which thread owns a slot of the ring buffer, include/ring_buffer.h.
use lock_free.Common.{
  ℕ, ◌≡◌, ◌≢◌, refl, inl, inr, Bool, true, false, Option, none, some, ◌==◌, update, arith,
  Bool-cases, ==_self,
}
use lock_free.RingBuffer.Ops.{SlotStatus, empty, busy_for_read, busy_for_write, full, RingSlot}
use lock_free.RingBuffer.Threads.{
  Worker, outside, push_wrap, push_claim, push_write, push_publish, push_count, pop_wrap, pop_claim,
  pop_read, pop_release, pop_count,
}

abbrev pub is_busy : SlotStatus → Bool
is_busy empty = false
is_busy busy_for_read = true
is_busy busy_for_write = true
is_busy full = false

module _ {V : Type 0} where
  -- The item of a slot: from the store that makes it full to the one that makes it empty.
  abbrev pub held : RingSlot V → Option V
  held x = elim x.status [
    | empty ↦ none
    | busy_for_write ↦ none
    | busy_for_read ↦ some x.content
    | full ↦ some x.content
  ]

  -- Has the thread made the slot busy?
  abbrev pub has_slot : Worker V → ℕ → Bool
  has_slot outside i = false
  has_slot (push_wrap v) i = false
  has_slot (push_claim ndx v) i = false
  has_slot (push_write ndx v) i = i == ndx
  has_slot (push_publish ndx v) i = i == ndx
  has_slot push_count i = false
  has_slot pop_wrap i = false
  has_slot (pop_claim ndx) i = false
  has_slot (pop_read ndx) i = i == ndx
  has_slot (pop_release ndx v) i = i == ndx
  has_slot (pop_count v) i = false

  -- What a thread knows of the slot that it has.
  abbrev pub Knows : (ℕ → RingSlot V) → Worker V → Type 0
  Knows slot outside = Unit {0}
  Knows slot (push_wrap v) = Unit {0}
  Knows slot (push_claim ndx v) = Unit {0}
  Knows slot (push_write ndx v) = (slot ndx).status ≡ busy_for_write
  Knows slot (push_publish ndx v) = ((slot ndx).status ≡ busy_for_write) × ((slot ndx).content ≡ v)
  Knows slot push_count = Unit {0}
  Knows slot pop_wrap = Unit {0}
  Knows slot (pop_claim ndx) = Unit {0}
  Knows slot (pop_read ndx) = (slot ndx).status ≡ busy_for_read
  Knows slot (pop_release ndx v) = ((slot ndx).status ≡ busy_for_read) × ((slot ndx).content ≡ v)
  Knows slot (pop_count v) = Unit {0}

  Knows-busy :
      (slot : ℕ → RingSlot V) (w : Worker V) (i : ℕ)
      → Knows slot w
      → has_slot w i ≡ true
      → is_busy (slot i).status ≡ true
  Knows-busy slot outside i k h = cc
  Knows-busy slot (push_wrap v) i k h = cc
  Knows-busy slot (push_claim ndx v) i k h = cc
  Knows-busy slot (push_write ndx v) i k h = rw (let e : i ≡ ndx = ground arith in e, k) refl
  Knows-busy slot (push_publish ndx v) i (k, _) h = rw (let e : i ≡ ndx = ground arith in e, k) refl
  Knows-busy slot push_count i k h = cc
  Knows-busy slot pop_wrap i k h = cc
  Knows-busy slot (pop_claim ndx) i k h = cc
  Knows-busy slot (pop_read ndx) i k h = rw (let e : i ≡ ndx = ground arith in e, k) refl
  Knows-busy slot (pop_release ndx v) i (k, _) h = rw (let e : i ≡ ndx = ground arith in e, k) refl
  Knows-busy slot (pop_count v) i k h = cc

  Knows-same :
      (slot slot' : ℕ → RingSlot V) (w : Worker V)
      → ((i : ℕ) → has_slot w i ≡ true → slot' i ≡ slot i)
      → Knows slot w
      → Knows slot' w
  Knows-same slot slot' outside same k = tt
  Knows-same slot slot' (push_wrap v) same k = tt
  Knows-same slot slot' (push_claim ndx v) same k = tt
  Knows-same slot slot' (push_write ndx v) same k = rw (same ndx (==_self ndx)) k
  Knows-same slot slot' (push_publish ndx v) same k = rw (same ndx (==_self ndx)) k
  Knows-same slot slot' push_count same k = tt
  Knows-same slot slot' pop_wrap same k = tt
  Knows-same slot slot' (pop_claim ndx) same k = tt
  Knows-same slot slot' (pop_read ndx) same k = rw (same ndx (==_self ndx)) k
  Knows-same slot slot' (pop_release ndx v) same k = rw (same ndx (==_self ndx)) k
  Knows-same slot slot' (pop_count v) same k = tt

  -- A slot is busy for one thread only, and as this thread takes it to be.
  pub record Owned (slot : ℕ → RingSlot V) (worker : ℕ → Worker V) : Type 0 where
    pub knows : (t : ℕ) → Knows slot (worker t)
    pub alone : (t u i : ℕ) → has_slot (worker t) i ≡ true → has_slot (worker u) i ≡ true → t ≡ u

  module _ (slot : ℕ → RingSlot V) (worker : ℕ → Worker V) (o : Owned slot worker) where
    -- Nobody has a slot that is not busy.
    pub nobody : (i : ℕ) → is_busy (slot i).status ≡ false → (u : ℕ) → has_slot (worker u) i ≡ false
    nobody i h u = elim (Bool-cases (has_slot (worker u) i)) [
      | inl yes_it ↦ absurd (cc (Knows-busy slot (worker u) i (o.knows u) yes_it, h))
      | inr no_it ↦ no_it
    ]

    module _ (t : ℕ) (w : Worker V) where
      -- A step of thread `t`, which leaves the slots of the others alone.
      pub Owned-step :
          (slot' : ℕ → RingSlot V)
          → ((u i : ℕ) → u ≢ t → has_slot (worker u) i ≡ true → slot' i ≡ slot i)
          → Knows slot' w
          → ((i : ℕ) → has_slot w i ≡ true → (u : ℕ) → u ≢ t → has_slot (worker u) i ≡ false)
          → Owned slot' (update worker t w)
      Owned-step slot' same k own = record {
        knows = λ u. elim (Bool-cases (u == t)) [
          | inl here ↦ rw here k
          | inr there ↦
              rw there
                (Knows-same slot slot' (worker u) (λ i h. same u i (ground arith) h) (o.knows u))
        ];
        alone = λ u x i h h'. elim (Bool-cases (u == t)) [
          | inl u_t ↦ elim (Bool-cases (x == t)) [
            | inl x_t ↦ ground (arith, u_t, x_t)
            | inr x_n ↦
                let hw = rw u_t at h in
                let hx = rw x_n at h' in absurd (cc (own i hw x (ground (arith, x_n)), hx))
          ]
          | inr u_n ↦ elim (Bool-cases (x == t)) [
            | inl x_t ↦
                let hw = rw x_t at h' in
                let hu = rw u_n at h in absurd (cc (own i hw u (ground (arith, u_n)), hu))
            | inr x_n ↦ o.alone u x i (rw u_n at h) (rw x_n at h')
          ]
        ];
      }
