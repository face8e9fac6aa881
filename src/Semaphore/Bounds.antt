-- ===== src/Semaphore/Bounds.antt =====
-- What the calls on a semaphore, include/core/semaphore.h, can do to its count.
use lock_free.Common.{
  ℕ, ◌+◌, ◌-◌, ◌≤◌, ◌≡◌, refl, Option, none, some, ltb, ◌==◌, arith, Bool-cases, inl, inr, ap, sym,
  ◌∙◌,
}
use lock_free.Semaphore.{Semaphore, create, release, acquire, Calls, begin, released, acquired}

release_count :
    (max_count : ℕ) (s : Semaphore)
    → s.count ≤ max_count
    → ((release max_count s).count ≤ max_count) × ((release max_count s).count ≤ s.count + 1)
unfolding release
release_count max_count s h = elim (Bool-cases (ltb s.count max_count)) [
  | inl l ↦ rw l (ground (arith, l), omega arith)
  | inr n ↦ rw n (h, omega arith)
]

acquire_count : (s s' : Semaphore) → acquire s ≡ some s' → s'.count + 1 ≡ s.count
unfolding acquire
acquire_count s s' e = elim (Bool-cases (s.count == 0)) [
  | inl z ↦ ground (arith, z, e)
  | inr n ↦
      let taken : some (record s { count = s.count - 1 }) ≡ some s' = sym (rw n refl) ∙ e in
      let same : s.count - 1 ≡ s'.count =
        ap (λ (o : Option Semaphore). elim o [ none ↦ 0 | some y ↦ y.count ]) taken in
      ground (arith, n, same)
]

-- However the calls of threads on a semaphore are ordered, from a start that is not above the
-- maximum: the count never exceeds the maximum, and the count and the number of acquires that have
-- returned together never exceed the start and the number of releases.
pub Calls-bound :
    {max_count start r a : ℕ} {s : Semaphore}
    → Calls max_count start r a s
    → start ≤ max_count
    → (s.count ≤ max_count) × (s.count + a ≤ start + r)
unfolding create
Calls-bound begin h = (h, omega arith)
Calls-bound (released {s} k) h =
    let (low, fair) = Calls-bound k h in
    let (below, grown) = release_count _ s low in (below, omega arith)
Calls-bound (acquired {s} {s'} k e) h =
    let (low, fair) = Calls-bound k h in
    let taken = acquire_count s s' e in (omega arith, omega arith)
