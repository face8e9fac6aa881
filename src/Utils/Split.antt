-- ===== src/Utils/Split.antt =====
-- The tokens that `strtok` of include/core/utils.h finds are the words of the text.
use lock_free.Common.{
  ℕ, zero, suc, ◌≤◌, ◌<◌, ◌≡◌, ◌≢◌, refl, true, false, ◌⊎◌, ◌||◌, List, [], ◌∷◌, ◌++◌, arith,
  Bool-cases, inl, inr, ◌∙◌, length, ◌∉◌, ◌==◌, if◌then◌else◌, append_assoc, append-nil,
}
use lock_free.Utils.{
  Reading, read, overrun, ◌>>=◌, is_nil, strchr, skip, scan, step_over, token, round, strtok_loop,
  strtok,
}
use lock_free.Utils.Fields.{
  push_first, fields, fields-delimiter, fields-inside, words, two_empty_last, all_nil,
  two_empty_last-all_nil, two_empty_last-nil, two_empty_last-cons,
}

abbrev ended : List ℕ → List ℕ
ended s = s ++ (0 ∷ [])

module _ (delimiters : List ℕ) where
  skip-nul : skip delimiters (0 ∷ []) ≡ overrun
  unfolding skip strchr
  skip-nul = refl

  scan-nul : scan delimiters (0 ∷ []) ≡ read ([], 0 ∷ [])
  unfolding scan strchr
  scan-nul = refl

  module _ (c : ℕ) (cs : List ℕ) (h : strchr delimiters c ≡ true) where
    skip-delimiter : skip delimiters (c ∷ cs) ≡ skip delimiters cs
    unfolding skip
    skip-delimiter = rw (h, skip) refl

    scan-delimiter : scan delimiters (c ∷ cs) ≡ read ([], c ∷ cs)
    unfolding scan
    scan-delimiter = rw (h, scan) refl

  module _ (c : ℕ) (cs : List ℕ) (h : strchr delimiters c ≡ false) where
    skip-inside : skip delimiters (c ∷ cs) ≡ read (c ∷ cs)
    unfolding skip
    skip-inside = rw (h, skip) refl

    scan-inside :
        scan delimiters (c ∷ cs)
        ≡ (scan delimiters cs >>= λ (bytes, cursor). read (c ∷ bytes, cursor))
    unfolding scan
    scan-inside = rw (h, scan) refl

  -- What the loop over delimiters finds: none but they are left, or a word.
  data Skipped (s : List ℕ) : Type 0 where
    none_left :
        skip delimiters (ended s) ≡ overrun → all_nil (fields delimiters s) ≡ true → Skipped s
    at_word :
        (c : ℕ) (cs : List ℕ)
        → skip delimiters (ended s) ≡ read (c ∷ ended cs)
        → strchr delimiters c ≡ false
        → length (c ∷ cs) ≤ length s
        → 0 ∉ cs
        → all_nil (fields delimiters s) ≡ false
        → words delimiters s ≡ words delimiters (c ∷ cs)
        → two_empty_last (fields delimiters s) ≡ two_empty_last (fields delimiters (c ∷ cs))
        → Skipped s

  all_nil-push_first : (c : ℕ) (ps : List (List ℕ)) → all_nil (push_first c ps) ≡ false
  all_nil-push_first c [] = refl
  all_nil-push_first c (p ∷ ps) = refl

  skip-Skipped : (s : List ℕ) → 0 ∉ s → Skipped s
  skip-Skipped [] h = none_left skip-nul (unfold fields in refl)
  skip-Skipped (c ∷ cs) h = elim (Bool-cases (strchr delimiters c)) [
    | inl delimiter ↦ elim (skip-Skipped cs (ground (arith, h))) [
      | none_left e nils ↦
          none_left (skip-delimiter c (ended cs) delimiter ∙ e)
            (rw (fields-delimiter delimiters c cs delimiter) nils)
      | at_word c' cs' e word shorter clean some_word same last ↦
          at_word c' cs' (skip-delimiter c (ended cs) delimiter ∙ e) word (omega arith) clean
            (rw (fields-delimiter delimiters c cs delimiter) some_word)
            (rw (fields-delimiter delimiters c cs delimiter) same)
            (rw (fields-delimiter delimiters c cs delimiter)
              (two_empty_last-nil (fields delimiters cs) some_word ∙ last))
    ]
    | inr word ↦
        at_word c cs (skip-inside c (ended cs) word) word (omega arith) (ground (arith, h))
          (rw (fields-inside delimiters c cs word) (all_nil-push_first c (fields delimiters cs)))
          refl refl
  ]

  -- What the loop over a token finds, and where the round ends.
  data Scanned (cs : List ℕ) : Type 0 where
    at :
        (word behind next : List ℕ)
        → scan delimiters (ended cs) ≡ read (word, behind)
        → step_over behind ≡ read (ended next)
        → length next ≤ length cs
        → 0 ∉ next
        → ((fields delimiters cs ≡ word ∷ []) × (next ≡ []))
          ⊎ (fields delimiters cs ≡ word ∷ fields delimiters next)
        → Scanned cs

  scan-Scanned : (cs : List ℕ) → 0 ∉ cs → Scanned cs
  unfolding step_over
  scan-Scanned [] h =
      at [] (0 ∷ []) [] scan-nul refl (omega arith) refl (inl (unfold fields in refl, refl))
  scan-Scanned (c ∷ cs) h = elim (Bool-cases (strchr delimiters c)) [
    | inl delimiter ↦
        at [] (ended (c ∷ cs)) cs (scan-delimiter c (ended cs) delimiter) (ground (arith, h))
          (omega arith) (ground (arith, h)) (inr (fields-delimiter delimiters c cs delimiter))
    | inr inside ↦ elim (scan-Scanned cs (ground (arith, h))) [
      | at word behind next e stepped shorter clean split ↦
          at (c ∷ word) behind next (rw (scan-inside c (ended cs) inside, e) refl) stepped
            (omega arith) clean
            (elim split [
              | inl (e', n) ↦ inl (rw (fields-inside delimiters c cs inside, e') refl, n)
              | inr e' ↦ inr (rw (fields-inside delimiters c cs inside, e') refl)
            ])
    ]
  ]

  -- A round that finds a word, and what it leaves of the fields.
  data Rounded (s : List ℕ) : Type 0 where
    at :
        (bytes next : List ℕ)
        → round delimiters (ended s) ≡ read (bytes, ended next)
        → length next < length s
        → 0 ∉ next
        → words delimiters s ≡ bytes ∷ words delimiters next
        → two_empty_last (fields delimiters s) ≡ two_empty_last (fields delimiters next)
        → Rounded s

  round-Rounded :
      (s : List ℕ) (c : ℕ) (cs : List ℕ)
      → skip delimiters (ended s) ≡ read (c ∷ ended cs)
      → strchr delimiters c ≡ false
      → length (c ∷ cs) ≤ length s
      → 0 ∉ cs
      → words delimiters s ≡ words delimiters (c ∷ cs)
      → two_empty_last (fields delimiters s) ≡ two_empty_last (fields delimiters (c ∷ cs))
      → Rounded s
  unfolding round token
  round-Rounded s c cs skipped inside shorter clean same last = elim (scan-Scanned cs clean) [
    | at word behind next e stepped less clean' (inl (f, n)) ↦
        at (c ∷ word) next (rw (skipped, e, stepped)) (omega arith) clean'
          (same ∙ (rw (fields-inside delimiters c cs inside, f, n) (unfold fields in refl)))
          (last ∙ (rw (fields-inside delimiters c cs inside, f, n) (unfold fields in refl)))
    | at word behind next e stepped less clean' (inr f) ↦
        at (c ∷ word) next (rw (skipped, e, stepped)) (omega arith) clean'
          (same ∙ (rw (fields-inside delimiters c cs inside, f) refl))
          (last
            ∙ (rw (fields-inside delimiters c cs inside, f)
                (two_empty_last-cons c word (fields delimiters next))))
  ]

  only_nil :
      (ps : List (List ℕ)) → ps ≢ [] → all_nil ([] ∷ ps) ≡ true → two_empty_last ([] ∷ ps) ≡ true
  only_nil [] ne h = absurd (ne refl)
  only_nil (p ∷ ps) ne h = two_empty_last-all_nil [] p ps h

  push_first-ne-nil : (c : ℕ) (ps : List (List ℕ)) → push_first c ps ≢ []
  push_first-ne-nil c [] h = cc
  push_first-ne-nil c (p ∷ ps) h = cc

  fields-ne-nil : (s : List ℕ) → fields delimiters s ≢ []
  unfolding fields
  fields-ne-nil [] = λ h. cc
  fields-ne-nil (c ∷ cs) = elim (Bool-cases (strchr delimiters c)) [
    | inl delimiter ↦ rw (fields-delimiter delimiters c cs delimiter) (λ h. cc)
    | inr inside ↦
        rw (fields-inside delimiters c cs inside) (push_first-ne-nil c (fields delimiters cs))
  ]

  overran :
      (c : ℕ) (cs : List ℕ)
      → all_nil (fields delimiters (c ∷ cs)) ≡ true
      → two_empty_last (fields delimiters (c ∷ cs)) ≡ true
  overran c cs h = elim (Bool-cases (strchr delimiters c)) [
    | inl delimiter ↦
        let e = fields-delimiter delimiters c cs delimiter in
        rw e (only_nil (fields delimiters cs) (fields-ne-nil cs) (rw e at h))
    | inr inside ↦
        absurd (
          cc (h, fields-inside delimiters c cs inside, all_nil-push_first c (fields delimiters cs)))
  ]

  strtok_loop-more :
      (fuel c : ℕ) (cs : List ℕ) (tokens : List (List ℕ))
      → (c == 0) ≡ false
      → strtok_loop delimiters (suc fuel) (c ∷ cs) tokens ≡ (
          round delimiters (c ∷ cs) >>= λ (bytes, next).
          strtok_loop delimiters fuel next (tokens ++ (bytes ∷ [])))
  unfolding strtok_loop
  strtok_loop-more fuel c cs tokens h = rw (h, strtok_loop) refl

  abbrev outcome : (s : List ℕ) (tokens : List (List ℕ)) → Reading (List (List ℕ))
  outcome s tokens =
      if two_empty_last (fields delimiters s) then overrun else read (tokens ++ words delimiters s)

  pub strtok_loop-outcome :
      (fuel : ℕ) (s : List ℕ) (tokens : List (List ℕ))
      → length s < fuel
      → 0 ∉ s
      → strtok_loop delimiters fuel (ended s) tokens ≡ outcome s tokens
  strtok_loop-outcome zero s tokens h clean = absurd (omega arith)
  strtok_loop-outcome (suc fuel) [] tokens h clean =
      unfold strtok_loop fields in (rw append-nil refl)
  strtok_loop-outcome (suc fuel) (c ∷ cs) tokens h clean =
      let start : (c == 0) ≡ false = ground (arith, clean) in
      rw (strtok_loop-more fuel c (ended cs) tokens start) (elim (skip-Skipped (c ∷ cs) clean) [
        | none_left e nils ↦ unfold round in (rw (e, overran c cs nils) refl)
        | at_word c' cs' e word shorter clean' some_word same last ↦
            elim (round-Rounded (c ∷ cs) c' cs' e word shorter clean' same last) [
              | at bytes next r less clean'' ws tl ↦
                  rw (r, ws, tl)
                    (strtok_loop-outcome fuel next (tokens ++ (bytes ∷ [])) (omega arith) clean''
                      ∙ rw append_assoc refl)
            ]
      ])

-- On a text without a NUL, `strtok` returns false with the tokens as they were where the text or
-- the delimiters are empty; else it reads behind the end of the buffer where the last two of the
-- fields between single delimiters are empty (the text is a delimiter, or ends in two), and else
-- it returns true with the words of the text, the fields that are not empty, behind the tokens, in
-- their order.
pub strtok-words :
    (str delimiters : List ℕ) (tokens : List (List ℕ))
    → 0 ∉ str
    → strtok str delimiters tokens ≡ (
        if is_nil str || is_nil delimiters
        then read (false, tokens)
        else (if two_empty_last (fields delimiters str)
            then overrun
            else read (true, tokens ++ words delimiters str)))
unfolding strtok
strtok-words str delimiters tokens clean = elim (Bool-cases (is_nil str || is_nil delimiters)) [
  | inl nothing ↦ rw nothing refl
  | inr something ↦
      rw
        (
          something,
          strtok_loop-outcome delimiters (suc (length str)) str tokens (omega arith) clean,
        )
        (elim (Bool-cases (two_empty_last (fields delimiters str))) [
          | inl e ↦ rw e refl
          | inr e ↦ rw e refl
        ])
]
