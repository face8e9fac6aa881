-- ===== src/Queue/Stores.antt =====
-- What the stores of pushes on the `lockfree` queue, include/queue.h, leave of its nodes.
use lock_free.Common.{
  ℕ, ◌≡◌, refl, sym, ap, subst, ◌∙◌, ◌⊎◌, inl, inr, Bool, true, false, ◌==◌, update, arith,
  Bool-cases, eq_of_==,
}
use lock_free.MemoryAddress.{null}
use lock_free.Queue.Threads.{Caller, push_append, push_set_tail, SharedQueue, set_next}
use lock_free.Queue.Tidy.{pending, clears, Knows, Tidy, Nodes, Tidy-step, nodes, Knows-step}

module _ {V : Type 0} (q : SharedQueue V) where
  pub set_next_there : (p w a : ℕ) → (a == p) ≡ false → (set_next p w q a).next ≡ (q.node a).next
  unfolding set_next
  set_next_there p w a there = rw there refl

  pub set_next_here : (p w a : ℕ) → (a == p) ≡ true → (set_next p w q a).next ≡ w
  unfolding set_next
  set_next_here p w a here = rw here refl

  pub set_next_value : (p w a : ℕ) → (set_next p w q a).value ≡ (q.node a).value
  unfolding set_next
  set_next_value p w a = elim (Bool-cases (a == p)) [
    | inl here ↦ rw here (ap (λ x. (q.node x).value) (sym (eq_of_== a p here)))
    | inr there ↦ rw there refl
  ]

module _ {V : Type 0} (value : ℕ → V) where
  module _ (q : SharedQueue V) (gone out : ℕ → Bool)
      (i : Tidy value gone out q.head q.node q.own q.caller) (t : ℕ) where
    pub known : (c : Caller) → q.caller t ≡ c → Knows gone out q.node c
    known c e = subst (Knows gone out q.node) e (i.knows t)

    -- A thread goes on, and no node changes.
    pub moved :
        (c : Caller)
        → (pending c ≡ true → pending (q.caller t) ≡ true)
        → Knows gone out q.node c
        → ((h : ℕ) → clears c h ≡ false)
        → Tidy value gone out q.head q.node q.own (update q.caller t c)
    moved c less k quiet =
        Tidy-step i t c less (nodes i t c less) (λ u p _. i.fresh u p) (λ u _. i.knows u) k
          (λ h clear. absurd (cc (clear, quiet h)))

    -- The node of a thread becomes the head of an empty list.
    pub set_head :
        (c : Caller)
        → pending c ≡ false
        → Knows gone out q.node c
        → ((h : ℕ) → clears c h ≡ false)
        → pending (q.caller t) ≡ true
        → Tidy value gone out (q.own t) q.node q.own (update q.caller t c)
    set_head c done k quiet p =
        let (ne, not_head, not_gone, alone_led) = i.fresh t p in
        let less : pending c ≡ true → pending (q.caller t) ≡ true = λ _. p in
        Tidy-step i t c less
          (record {
            values = i.values;
            present = λ _. not_gone;
            order = λ a n h. elim h [
              | inl here ↦ absurd (alone_led a here)
              | inr g ↦ i.order a n (inr g)
            ];
            unique = i.unique;
            returned = i.returned;
          })
          (λ u pu why.
            let (u_ne, _, u_gone, u_led) = i.fresh u pu in
            elim why [
              | inl other ↦ (u_ne, i.distinct u t pu p other, u_gone, u_led)
              | inr again ↦ absurd (cc (again, done))
            ])
          (λ u _. i.knows u) k (λ h clear. absurd (cc (clear, quiet h)))

    -- The node of a thread becomes the next one of a node that had none.
    append-Nodes :
        (p : ℕ) → pending (q.caller t) ≡ true → Nodes value gone out q.head (set_next p (q.own t) q)
    append-Nodes p mine =
        let w = q.own t in
        let (ne, not_head, not_gone, alone_led) = i.fresh t mine in
        record {
          values = λ a. set_next_value q p w a ∙ i.values a;
          present = i.present;
          order = λ a n h. elim (Bool-cases (a == p)) [
            | inl here ↦ absurd (elim h [
              | inl at_head ↦ not_head (sym (set_next_here q p w a here) ∙ at_head)
              | inr g ↦ cc (sym (ap gone (set_next_here q p w a here)) ∙ g, not_gone)
            ])
            | inr there ↦
                let same = set_next_there q p w a there in
                i.order a (λ z. n (same ∙ z)) (subst (λ x. (x ≡ q.head) ⊎ (gone x ≡ true)) same h)
          ];
          unique = λ a b n e. elim (Bool-cases (a == p)) [
            | inl a_p ↦ elim (Bool-cases (b == p)) [
              | inl b_p ↦ ground (arith, a_p, b_p)
              | inr b_n ↦ absurd (
                  alone_led b
                    (sym (set_next_there q p w b b_n) ∙ sym e ∙ set_next_here q p w a a_p))
            ]
            | inr a_n ↦ elim (Bool-cases (b == p)) [
              | inl b_p ↦
                  absurd
                    (alone_led a (sym (set_next_there q p w a a_n) ∙ e ∙ set_next_here q p w b b_p))
              | inr b_n ↦
                  let same = set_next_there q p w a a_n in
                  i.unique a b (λ z. n (same ∙ z)) (sym same ∙ e ∙ set_next_there q p w b b_n)
            ]
          ];
          returned = i.returned;
        }

    pub append :
        (p : ℕ)
        → q.caller t ≡ push_append p
        → (q.node p).next ≡ null
        → Tidy value gone out q.head
            (set_next p (q.own t) q)
            q.own
            (update q.caller t push_set_tail)
    append p e last =
        let w = q.own t in
        let mine : pending (q.caller t) ≡ true = rw e refl in
        Tidy-step i t push_set_tail (λ _. mine) (append-Nodes p mine)
          (λ u pu why.
            let (u_ne, u_head, u_gone, u_led) = i.fresh u pu in
            (
              u_ne,
              u_head,
              u_gone,
              (λ a l. elim (Bool-cases (a == p)) [
                | inl here ↦ elim why [
                  | inl other ↦ i.distinct u t pu mine other (sym l ∙ set_next_here q p w a here)
                  | inr again ↦ cc
                ]
                | inr there ↦ u_led a (sym (set_next_there q p w a there) ∙ l)
              ]),
            ))
          (λ u _.
            Knows-step gone out gone out q.node (set_next p w q) (q.caller u) (λ _ g. g)
              (λ _ _ o. o)
              (λ h n l. elim (Bool-cases (h == p)) [
                | inl here ↦ inl (sym l ∙ ap (λ x. (q.node x).next) (eq_of_== h p here) ∙ last)
                | inr there ↦ inr (inl (set_next_there q p w h there ∙ l))
              ])
              (i.knows u))
          tt (λ h clear. absurd cc)
