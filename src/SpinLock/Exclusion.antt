-- ===== src/SpinLock/Exclusion.antt =====
-- Mutual exclusion of the spin lock, include/core/mutex.h.
use lock_free.Common.{
  ℕ, ◌≡◌, refl, Bool, true, false, if◌then◌else◌, update, arith, Bool-cases, inl, inr, ap,
}
use lock_free.SpinLock.{
  Place, outside, spinning, holding, System, exchange, lock_round, try_lock, unlock, Step, lock,
  spin, try_, release, Reachable, start, more,
}

abbrev pub holds : Place → Bool
holds outside = false
holds spinning = false
holds holding = true

-- A thread that holds the lock has set it, and is the only one.
record Exclusive (s : System) : Type 0 where
  set_by : (t : ℕ) → holds (s.place t) ≡ true → s.locked ≡ true
  only : (t u : ℕ) → holds (s.place t) ≡ true → holds (s.place u) ≡ true → t ≡ u
  held : s.locked ≡ true → (t : ℕ) × (holds (s.place t) ≡ true)

update_here : (f : ℕ → Place) (t : ℕ) (p : Place) → update f t p t ≡ p
update_here f t p = ground arith

-- A thread takes the lock, or goes to a place without it.
attempt-Exclusive :
    (s : System) (t : ℕ) (away : Place)
    → holds away ≡ false
    → holds (s.place t) ≡ false
    → Exclusive s
    → Exclusive
        (record { locked = true; place = update s.place t (if s.locked then away else holding) })
attempt-Exclusive s t away h free e = elim (Bool-cases s.locked) [
  | inl k ↦ rw k (record {
    set_by = λ u i. refl;
    only = λ u v i j. ground (arith, i, j, h, e.only u v);
    held = λ _. let (u, i) = e.held k in (u, ground (arith, i, free));
  })
  | inr k ↦ rw k (record {
    set_by = λ u i. refl;
    only = λ u v i j. ground (arith, i, j, k, e.set_by u, e.set_by v);
    held = λ _. (t, ground arith);
  })
]

unlock-Exclusive :
    (s : System) (t : ℕ)
    → holds (s.place t) ≡ true
    → Exclusive s
    → Exclusive (record { locked = false; place = update s.place t outside })
unlock-Exclusive s t h e = record {
  set_by = λ u i. ground (arith, i, h, e.only u t);
  only = λ u v i j. ground (arith, i, j, h, e.only u t, e.only v t);
  held = λ z. cc;
}

step-Exclusive : {s s' : System} → Step s s' → Exclusive s → Exclusive s'
unfolding lock_round try_lock unlock exchange
step-Exclusive (lock {s} t p) e = attempt-Exclusive s t spinning refl (ap holds p) e
step-Exclusive (spin {s} t p) e = attempt-Exclusive s t spinning refl (ap holds p) e
step-Exclusive (try_ {s} t p) e = attempt-Exclusive s t outside refl (ap holds p) e
step-Exclusive (release {s} t p) e = unlock-Exclusive s t (ap holds p) e

all-Exclusive : {s : System} → Reachable s → Exclusive s
all-Exclusive start = record { set_by = λ t i. cc; only = λ t u i j. cc; held = λ z. cc }
all-Exclusive (more r st) = step-Exclusive st (all-Exclusive r)

-- In every state that threads reach by interleaved steps of `lock`, `try_lock` and `unlock`, where
-- only a holder unlocks and no holder locks again, two threads that hold the lock are the same
-- thread, and the flag of the lock is set.
pub mutual_exclusion :
    {s : System}
    → Reachable s
    → (t u : ℕ) → s.place t ≡ holding
    → s.place u ≡ holding
    → (t ≡ u) × (s.locked ≡ true)
mutual_exclusion r t u p q =
    let e = all-Exclusive r in (e.only t u (ap holds p) (ap holds q), e.set_by t (ap holds p))

-- In every state that threads reach by interleaved steps of `lock`, `try_lock` and `unlock`, where
-- only a holder unlocks and no holder locks again: if no thread holds the lock, the next round of
-- the loop of `lock` takes it, and `try_lock` returns true.
pub lock_round_progress :
    {s : System}
    → Reachable s
    → ((u : ℕ) → holds (s.place u) ≡ false)
    → (t : ℕ) → ((lock_round t s).place t ≡ holding) × ((try_lock t s).0 ≡ true)
unfolding lock_round try_lock exchange
lock_round_progress {s} r none_holds t = elim (Bool-cases s.locked) [
  | inl k ↦
      let (u, i) = (all-Exclusive r).held k in let n = none_holds u in absurd (ground (arith, i, n))
  | inr k ↦ rw (k, update_here s.place t holding) (refl, refl)
]
