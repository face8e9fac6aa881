-- ===== src/LockFreeArena/Linear.antt =====
-- What the steps of threads on the lock-free allocator, include/arena_allocator.h, do to the list of
-- the free slots.
use lock_free.Common.{
  ℕ, ◌^◌, ◌<◌, ◌≡◌, ◌≢◌, refl, sym, ap, subst, ◌∙◌, inl, inr, true, false, Option, none, some, List,
  [], ◌∷◌, ◌==◌, update, arith, Bool-cases, ◌∈◌, ◌∉◌, ==_self, eq_of_==, pos_pow,
}
use lock_free.MemoryAddress.{Arch, addr_bits, null}
use lock_free.Arena.Slot.{MemorySlot, next, is_free}
use lock_free.Arena.FreeList.{FreeSeg, cons, frame, head_cases}
use lock_free.LockFreeArena.Threads.{
  Client, idle, alloc_load, alloc_next, alloc_swap, alloc_mark, alloc_count, holding, free_load,
  free_test, free_link, free_swap, free_count, SlotEvent, taken, given, refused, found_none,
  SharedArena, goto, put_slot,
}
use lock_free.LockFreeArena.Held.{has_slot, IsSlot, Knows, Shares, Shares-step}

-- What an event does to the list of the free slots: the first one is taken, a slot becomes the first
-- one, or there is none. No call is refused.
abbrev pub SlotEffect : Option SlotEvent → List ℕ → List ℕ → Type 0
SlotEffect none xs ys = xs ≡ ys
SlotEffect (some (taken p)) xs ys = xs ≡ p ∷ ys
SlotEffect (some (given p)) xs ys = p ∷ xs ≡ ys
SlotEffect (some (refused p)) xs ys = ⊥
SlotEffect (some found_none) xs ys = (xs ≡ []) × (xs ≡ ys)

module _ {A : Type 0} where
  -- A thread whose exchange is about to take a slot has read the successor that it has now.
  abbrev pub Current : (ℕ → MemorySlot A) → (next_free : ℕ) → Client → Type 0
  Current m q (alloc_swap p n) = q ≡ p → next (m p) ≡ n
  Current m q idle = Unit {0}
  Current m q alloc_load = Unit {0}
  Current m q (alloc_next p) = Unit {0}
  Current m q (alloc_mark p) = Unit {0}
  Current m q (alloc_count p) = Unit {0}
  Current m q (holding p) = Unit {0}
  Current m q (free_load p) = Unit {0}
  Current m q (free_test p n) = Unit {0}
  Current m q (free_link p n) = Unit {0}
  Current m q (free_swap p n) = Unit {0}
  Current m q free_count = Unit {0}

module _ {A : Type 0} (arch : Arch) where
  -- What a step leaves.
  pub record Stepped (xs : List ℕ) (r : Option SlotEvent × SharedArena A) : Type 0 where
    pub left : List ℕ
    pub effect : SlotEffect r.0 xs left
    pub shares : Shares arch r.1.mem r.1.next_free r.1.client left

  module _ (s : SharedArena A) (xs : List ℕ) (i : Shares arch s.mem s.next_free s.client xs)
      (t : ℕ) where
    pub knows : (c : Client) → s.client t ≡ c → Knows arch s.mem c
    knows c e = subst (Knows arch s.mem) e (i.knows t)

    others :
        (p : ℕ) → has_slot (s.client t) p ≡ true → (u : ℕ) → u ≢ t → has_slot (s.client u) p ≡ false
    others p mine u n = elim (Bool-cases (has_slot (s.client u) p)) [
      | inl both ↦ absurd (n (i.alone u t p both mine))
      | inr not_it ↦ not_it
    ]

    -- The list starts with a pointer that fits, or is empty.
    pub head_fits : s.next_free < 2 ^ addr_bits arch
    head_fits = elim (head_cases i.free) [
      | inl (z, _) ↦ rw z (pos_pow (addr_bits arch))
      | inr (ne, ys, e, out, seg) ↦ i.fits s.next_free (rw e (ground arith))
    ]

    -- A thread goes on, and has no slot that it did not have.
    pub moved :
        (c : Client)
        → Knows arch s.mem c
        → ((p : ℕ) → has_slot c p ≡ true → has_slot (s.client t) p ≡ true)
        → Shares arch s.mem s.next_free (update s.client t c) xs
    moved c k less =
        Shares-step arch s.mem s.next_free s.client xs i t c s.mem s.next_free xs i.free i.fits
          (λ u p n h. (refl, i.away u p h)) k (λ p h. (i.away t p (less p h), others p (less p h)))

    pub moved-Stepped :
        (c : Client)
        → Knows arch s.mem c
        → ((p : ℕ) → has_slot c p ≡ true → has_slot (s.client t) p ≡ true)
        → Stepped xs (none, goto t c s)
    moved-Stepped c k less = record { left = xs; effect = refl; shares = moved c k less }

    pub none-Stepped : s.next_free ≡ null → Stepped xs (some found_none, goto t idle s)
    none-Stepped z = record {
      left = xs;
      effect = elim (head_cases i.free) [
        | inl (_, e) ↦ (e, refl)
        | inr (ne, _, _, _, _) ↦ absurd (ne z)
      ];
      shares = moved idle tt (λ p h. cc);
    }

    -- A thread writes a slot that it has.
    pub wrote-Stepped :
        (p : ℕ) (x : MemorySlot A) (c : Client)
        → has_slot (s.client t) p ≡ true
        → Knows arch (update s.mem p x) c
        → ((q : ℕ) → has_slot c q ≡ true → q ≡ p)
        → Stepped xs (none, goto t c (put_slot p x s))
    wrote-Stepped p x c mine k only =
        let away_p = i.away t p mine in
        record {
          left = xs;
          effect = refl;
          shares =
              Shares-step arch s.mem s.next_free s.client xs i t c (update s.mem p x) s.next_free xs
                (frame i.free (λ a h. elim (Bool-cases (a == p)) [
                  | inl here ↦ absurd (cc (subst (λ y. y ∈ xs) (eq_of_== a p here) h, away_p))
                  | inr there ↦ rw there refl
                ]))
                i.fits
                (λ u q n h. elim (Bool-cases (q == p)) [
                  | inl here ↦ absurd (
                      cc (
                        subst (λ y. has_slot (s.client u) y ≡ true) (eq_of_== q p here) h,
                        others p mine u n,
                      ))
                  | inr there ↦ (rw there refl, i.away u q h)
                ])
                k (λ q h. rw (only q h) (away_p, others p mine));
        }

    -- The first slot of the list is taken.
    pub taken-Stepped :
        (p n : ℕ)
        → s.client t ≡ alloc_swap p n
        → s.next_free ≡ p
        → next (s.mem p) ≡ n
        → Stepped xs (some (taken p), record (goto t (alloc_mark p) s) { next_free = n })
    taken-Stepped p n e at_p at_n =
        let (ne, fit) : IsSlot arch p = knows (alloc_swap p n) e in
        elim (head_cases i.free) [
          | inl (z, _) ↦ absurd (ne (sym at_p ∙ z))
          | inr (_, ys, whole, out, seg) ↦
              let whole_p : xs ≡ p ∷ ys = whole ∙ ap (λ q. q ∷ ys) at_p in
              let out_p : p ∉ ys = subst (λ q. q ∉ ys) at_p out in
              let seg_n : FreeSeg s.mem null n ys =
                subst (λ q. FreeSeg s.mem null q ys) (ap (λ q. next (s.mem q)) at_p ∙ at_n) seg in
              let not_held : (u : ℕ) → has_slot (s.client u) p ≡ false = λ u.
                elim (Bool-cases (has_slot (s.client u) p)) [
                  | inl h ↦ absurd (cc (subst (λ zs. p ∉ zs) whole_p (i.away u p h), ==_self p))
                  | inr h ↦ h
                ] in
              record {
                left = ys;
                effect = whole_p;
                shares =
                    Shares-step arch s.mem s.next_free s.client xs i t (alloc_mark p) s.mem n ys
                      seg_n (λ a h. i.fits a (rw whole_p (ground (arith, h))))
                      (λ u q m h. (
                        refl,
                        (let f = subst (λ zs. q ∉ zs) whole_p (i.away u q h) in ground (arith, f)),
                      ))
                      (ne, fit) (λ q h. rw (eq_of_== q p h) (out_p, λ u m. not_held u));
              }
        ]

    -- A slot that a thread has linked becomes the first one.
    pub given-Stepped :
        (p n : ℕ)
        → s.client t ≡ free_swap p n
        → s.next_free ≡ n
        → Stepped xs (some (given p), record (goto t free_count s) { next_free = p })
    given-Stepped p n e at_n =
        let ((ne, fit), free, linked) : IsSlot arch p
            × (is_free (s.mem p) ≡ true)
            × (next (s.mem p) ≡ n) =
          knows (free_swap p n) e in
        let mine : has_slot (s.client t) p ≡ true = rw e (==_self p) in
        record {
          left = p ∷ xs;
          effect = refl;
          shares =
              Shares-step arch s.mem s.next_free s.client xs i t free_count s.mem p (p ∷ xs)
                (cons ne free (linked ∙ sym at_n) (i.away t p mine) i.free)
                (λ a h. elim (Bool-cases (a == p)) [
                  | inl here ↦ rw (eq_of_== a p here) fit
                  | inr there ↦ i.fits a (ground (arith, h, there))
                ])
                (λ u q m h. (
                  refl,
                  elim (Bool-cases (q == p)) [
                    | inl here ↦ absurd (
                        cc (
                          subst (λ y. has_slot (s.client u) y ≡ true) (eq_of_== q p here) h,
                          others p mine u m,
                        ))
                    | inr there ↦ (let f = i.away u q h in ground (arith, f, there))
                  ],
                ))
                tt (λ q h. cc);
        }
