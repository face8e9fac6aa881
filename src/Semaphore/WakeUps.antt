-- ===== src/Semaphore/WakeUps.antt =====
-- No wake-up of include/core/semaphore.h is lost.
use lock_free.Common.{
  ℕ, zero, suc, ◌+◌, ◌≤◌, ◌≡◌, refl, ◌⊎◌, inl, inr, ap, Option, none, some, List, [], ◌∷◌, ltb,
  ◌==◌, length, arith, Bool-cases,
}
use lock_free.Semaphore.Waiters.{
  WaitingRoom, create, pick, wake_up, release, acquire, resume, Part, releases, acquires, wakes_up,
  resumes, part, run,
}

-- The count is in its range, and while a thread waits there is a woken one for each release that
-- has not been used.
pub record IsAwake (max_count : ℕ) (s : WaitingRoom) : Type 0 where
  pub bound : s.count ≤ max_count
  pub served : (s.waiting ≡ []) ⊎ (s.count ≤ length s.woken)

data Picked (xs : List ℕ) : Option (ℕ × List ℕ) → Type 0 where
  nobody : xs ≡ [] → Picked xs none
  somebody : {t : ℕ} {rest : List ℕ} → length xs ≡ suc (length rest) → Picked xs (some (t, rest))

pick-Picked : (k : ℕ) (xs : List ℕ) → Picked xs (pick k xs)
unfolding pick
pick-Picked k [] = nobody refl
pick-Picked k (t ∷ []) = somebody refl
pick-Picked zero (t ∷ u ∷ us) = somebody refl
pick-Picked (suc k) (t ∷ u ∷ us) = further (pick k (u ∷ us)) (pick-Picked k (u ∷ us))
  where
    further :
        (r : Option (ℕ × List ℕ))
        → Picked (u ∷ us) r
        → Picked (t ∷ u ∷ us) (elim r [ none ↦ none | some (v, vs) ↦ some (v, t ∷ vs) ])
    further none (nobody e) = absurd (cc)
    further (some (v, vs)) (somebody e) = somebody (omega (arith, e))

module _ (max_count : ℕ) where
  -- A thread takes one, or waits; before it there may have been one woken thread more.
  acquire-IsAwake :
      (t : ℕ) (s : WaitingRoom)
      → s.count ≤ max_count
      → (s.waiting ≡ []) ⊎ (s.count ≤ suc (length s.woken))
      → IsAwake max_count (acquire t s)
  unfolding acquire
  acquire-IsAwake t s b h = elim (Bool-cases (s.count == 0)) [
    | inl none_left ↦ rw none_left (record { bound = b; served = inr (ground (arith, none_left)) })
    | inr some_left ↦ rw some_left (record {
      bound = omega arith;
      served = elim h [ inl e ↦ inl e | inr le ↦ inr (omega arith) ];
    })
  ]

  -- A thread is woken up; before it there may have been one woken thread too few.
  wake_up-IsAwake :
      (k : ℕ) (s : WaitingRoom)
      → s.count ≤ max_count
      → (s.waiting ≡ []) ⊎ (s.count ≤ suc (length s.woken))
      → IsAwake max_count (wake_up k s)
  unfolding wake_up
  wake_up-IsAwake k s b h = by_pick (pick k s.waiting) (pick-Picked k s.waiting)
    where
      by_pick :
          (r : Option (ℕ × List ℕ))
          → Picked s.waiting r
          → IsAwake max_count (elim r [
            | none ↦ s
            | some (t, rest) ↦ record s { waiting = rest; woken = t ∷ s.woken }
          ])
      by_pick none (nobody e) = record { bound = b; served = inl e }
      by_pick (some (t, rest)) (somebody e) = record {
        bound = b;
        served = elim h [
          | inl n ↦ absurd (let z = ap length n in omega (arith, e, z))
          | inr le ↦ inr (omega arith)
        ];
      }

  part-IsAwake :
      (p : Part) (s : WaitingRoom) → IsAwake max_count s → IsAwake max_count (part max_count p s)
  unfolding part release resume
  part-IsAwake (releases k) s a = elim (Bool-cases (ltb s.count max_count)) [
    | inl below ↦ rw below (
        wake_up-IsAwake k (record s { count = s.count + 1 }) (ground (arith, below))
          (elim a.served [ inl e ↦ inl e | inr le ↦ inr (omega arith) ]))
    | inr full ↦ rw full a
  ]
  part-IsAwake (acquires t) s a =
      acquire-IsAwake t s a.bound (elim a.served [ inl e ↦ inl e | inr le ↦ inr (omega arith) ])
  part-IsAwake (wakes_up k) s a =
      wake_up-IsAwake k s a.bound (elim a.served [ inl e ↦ inl e | inr le ↦ inr (omega arith) ])
  part-IsAwake (resumes k) s a = by_pick (pick k s.woken) (pick-Picked k s.woken)
    where
      by_pick :
          (r : Option (ℕ × List ℕ))
          → Picked s.woken r
          → IsAwake max_count
              (elim r [ none ↦ s | some (t, rest) ↦ acquire t (record s { woken = rest }) ])
      by_pick none (nobody e) = a
      by_pick (some (t, rest)) (somebody e) =
          acquire-IsAwake t (record s { woken = rest }) a.bound
            (elim a.served [ inl n ↦ inl n | inr le ↦ inr (omega (arith, e)) ])

  run-IsAwake :
      (parts : List Part) (s : WaitingRoom)
      → IsAwake max_count s
      → IsAwake max_count (run max_count parts s)
  unfolding run
  run-IsAwake [] s a = a
  run-IsAwake (p ∷ parts) s a = run-IsAwake parts (part max_count p s) (part-IsAwake p s a)

  -- In every state that threads reach by releases, acquires, wake-ups by `notify_one` of whichever
  -- thread or for no reason, and woken threads that look at the count again, in any order and from
  -- a start that is not above the maximum: the count is not above the maximum, and either no
  -- thread waits or the count is at most the number of the woken threads that have yet to look at
  -- it, so that no thread is left waiting beside a count that nobody is about to take.
  pub run-create-IsAwake :
      (parts : List Part) (start : ℕ)
      → start ≤ max_count
      → IsAwake max_count (run max_count parts (create start))
  unfolding create
  run-create-IsAwake parts start h =
      run-IsAwake parts (create start) (record { bound = h; served = inl refl })
