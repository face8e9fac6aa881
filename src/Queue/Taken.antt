-- ===== src/Queue/Taken.antt =====
-- What the stores of pops on the `lockfree` queue, include/queue.h, leave of its nodes.
use lock_free.Common.{
  ℕ, ◌≡◌, ◌≢◌, refl, sym, ap, subst, ◌∙◌, ◌⊎◌, inl, inr, Bool, true, false, ◌==◌, update, arith,
  Bool-cases, ==_self, eq_of_==, ne→==,
}
use lock_free.MemoryAddress.{null}
use lock_free.Queue.Threads.{pop_clear, pop_swap, finished, SharedQueue, set_next}
use lock_free.Queue.Tidy.{clears, Tidy, Nodes, Tidy-step, Knows-step, clears-gone}
use lock_free.Queue.Stores.{known, set_next_there, set_next_here, set_next_value}

module _ {V : Type 0} (value : ℕ → V) where
  module _ (q : SharedQueue V) (gone out : ℕ → Bool)
      (i : Tidy value gone out q.head q.node q.own q.caller) (t : ℕ) where
    -- The node of a pop is cleared.
    clear-Nodes :
        (h : ℕ) → gone h ≡ true → Nodes value gone (update out h true) q.head (set_next h null q)
    clear-Nodes h taken = record {
      values = λ a. set_next_value q h null a ∙ i.values a;
      present = i.present;
      order = λ a n l. elim (Bool-cases (a == h)) [
        | inl here ↦ absurd (n (set_next_here q h null a here))
        | inr there ↦
            let same = set_next_there q h null a there in
            i.order a (λ z. n (same ∙ z)) (subst (λ x. (x ≡ q.head) ⊎ (gone x ≡ true)) same l)
      ];
      unique = λ a b n e. elim (Bool-cases (a == h)) [
        | inl a_h ↦ absurd (n (set_next_here q h null a a_h))
        | inr a_n ↦ elim (Bool-cases (b == h)) [
          | inl b_h ↦ absurd (n (e ∙ set_next_here q h null b b_h))
          | inr b_n ↦
              let same = set_next_there q h null a a_n in
              i.unique a b (λ z. n (same ∙ z)) (sym same ∙ e ∙ set_next_there q h null b b_n)
        ]
      ];
      returned = λ p o. elim (Bool-cases (p == h)) [
        | inl here ↦ ap gone (eq_of_== p h here) ∙ taken
        | inr there ↦ i.returned p (rw there at o)
      ];
    }

    pub clear :
        (h : ℕ)
        → q.caller t ≡ pop_clear h
        → Tidy value gone
            (update out h true)
            q.head
            (set_next h null q)
            q.own
            (update q.caller t finished)
    clear h e =
        let (taken, not_out) = known value q gone out i t (pop_clear h) e in
        let mine : clears (q.caller t) h ≡ true = rw e (==_self h) in
        Tidy-step i t finished (λ p. absurd cc) (clear-Nodes h taken)
          (λ u pu _.
            let (u_ne, u_head, u_gone, u_led) = i.fresh u pu in
            (
              u_ne,
              u_head,
              u_gone,
              (λ a l. elim (Bool-cases (a == h)) [
                | inl here ↦ u_ne (sym l ∙ set_next_here q h null a here)
                | inr there ↦ u_led a (sym (set_next_there q h null a there) ∙ l)
              ]),
            ))
          (λ u other.
            Knows-step gone out gone (update out h true) q.node (set_next h null q) (q.caller u)
              (λ _ g. g)
              (λ k theirs o. elim (Bool-cases (k == h)) [
                | inl here ↦ absurd (
                    other (
                      i.alone u t h
                        (subst (λ x. clears (q.caller u) x ≡ true) (eq_of_== k h here) theirs)
                        mine))
                | inr there ↦ rw there o
              ])
              (λ k n l. elim (Bool-cases (k == h)) [
                | inl here ↦ inr (inr (ap gone (eq_of_== k h here) ∙ taken))
                | inr there ↦ inr (inl (set_next_there q h null k there ∙ l))
              ])
              (i.knows u))
          tt (λ k theirs. absurd cc)

    grow : (h a : ℕ) → gone a ≡ true → update gone h true a ≡ true
    grow h a g = elim (Bool-cases (a == h)) [ inl here ↦ rw here refl | inr there ↦ rw there g ]

    -- The exchange of the head stores what comes next, or null.
    swap-Nodes :
        (h n : ℕ)
        → q.head ≡ h
        → gone h ≡ false
        → (n ≢ null → (q.node h).next ≡ n)
        → Nodes value (update gone h true) out n q.node
    swap-Nodes h n at_h kept link =
        let led : n ≢ null → gone h ≢ true = λ _ g. cc (g, kept) in
        record {
          values = i.values;
          present = λ ne. elim (Bool-cases (n == h)) [
            | inl here ↦
                let at : (q.node h).next ≡ q.head = link ne ∙ eq_of_== n h here ∙ sym at_h in
                absurd (led ne (i.order h (λ z. ne (sym (link ne) ∙ z)) (inl at)))
            | inr there ↦ rw there (elim (Bool-cases (gone n)) [
              | inl g ↦
                  absurd
                    (led ne (i.order h (λ z. ne (sym (link ne) ∙ z)) (inr (ap gone (link ne) ∙ g))))
              | inr kept_n ↦ kept_n
            ])
          ];
          order = λ a ne l. elim l [
            | inl at ↦
                let n_ne : n ≢ null = λ z. ne (at ∙ z) in
                let e : a ≡ h = i.unique a h ne (at ∙ sym (link n_ne)) in ground (arith, e)
            | inr g ↦ grow h a (elim (Bool-cases ((q.node a).next == h)) [
              | inl here ↦ i.order a ne (inl (eq_of_== (q.node a).next h here ∙ sym at_h))
              | inr there ↦ i.order a ne (inr (rw there at g))
            ])
          ];
          unique = i.unique;
          returned = λ p o. grow h p (i.returned p o);
        }

    pub swap :
        (h n : ℕ)
        → q.caller t ≡ pop_swap h n
        → q.head ≡ h
        → Tidy value (update gone h true) out n q.node q.own (update q.caller t (pop_clear h))
    swap h n e at_h =
        let (ne, read) = known value q gone out i t (pop_swap h n) e in
        let kept : gone h ≡ false =
          subst (λ x. gone x ≡ false) at_h (i.present (λ z. ne (sym at_h ∙ z))) in
        let link : n ≢ null → (q.node h).next ≡ n = λ n_ne. elim read [
          | inl z ↦ absurd (n_ne z)
          | inr (inl l) ↦ l
          | inr (inr g) ↦ absurd (cc (g, kept))
        ] in
        Tidy-step i t (pop_clear h) (λ p. absurd cc) (swap-Nodes h n at_h kept link)
          (λ u pu _.
            let (u_ne, u_head, u_gone, u_led) = i.fresh u pu in
            let u_h : q.own u ≢ h = λ z. u_head (z ∙ sym at_h) in
            (
              u_ne,
              (λ z. u_led h (link (λ y. u_ne (z ∙ y)) ∙ sym z)),
              rw (ne→== (q.own u) h u_h) u_gone,
              u_led,
            ))
          (λ u _.
            Knows-step gone out (update gone h true) out q.node q.node (q.caller u) (grow h)
              (λ _ _ o. o) (λ _ _ l. inr (inl l)) (i.knows u))
          (
            rw (==_self h) refl,
            elim (Bool-cases (out h)) [ inl o ↦ absurd (cc (i.returned h o, kept)) | inr o ↦ o ],
          )
          (λ k mine u other. elim (Bool-cases (clears (q.caller u) k)) [
            | inl theirs ↦ absurd (
                cc (
                  clears-gone gone out q.node (q.caller u) k (i.knows u) theirs,
                  ap gone (eq_of_== k h mine),
                  kept,
                ))
            | inr not_it ↦ not_it
          ])
