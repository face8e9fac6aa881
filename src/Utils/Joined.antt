-- ===== src/Utils/Joined.antt =====
-- `strtok` of include/core/utils.h on words joined by a delimiter.
use lock_free.Common.{
  ℕ, ◌≡◌, ◌≢◌, refl, true, false, List, [], ◌∷◌, ◌++◌, arith, ap, ◌∙◌, ◌∉◌, has-append,
}
use lock_free.Utils.{read, is_nil, strchr, strtok_new}
use lock_free.Utils.Fields.{
  ne_nul, fields-delimiter, fields-inside, fields, non_empty, two_empty_last, two_empty_last-cons,
}
use lock_free.Utils.Split.{strtok-words}

-- The words with one byte between any two.
unfoldable pub join : (between : ℕ) → List (List ℕ) → List ℕ
join between [] = []
join between (w ∷ []) = w
join between (w ∷ v ∷ ws) = w ++ (between ∷ join between (v ∷ ws))

module _ (delimiters : List ℕ) where
  -- No byte of the word is a delimiter.
  abbrev pub Plain : List ℕ → Type 0
  Plain [] = Unit {0}
  Plain (c ∷ cs) = (strchr delimiters c ≡ false) × Plain cs

  -- The words have a byte at least, and no delimiter.
  abbrev pub AreWords : List (List ℕ) → Type 0
  AreWords [] = Unit {0}
  AreWords (w ∷ ws) = (is_nil w ≡ false) × Plain w × AreWords ws

  fields-Plain : (w : List ℕ) → Plain w → fields delimiters w ≡ w ∷ []
  fields-Plain [] h = unfold fields in refl
  fields-Plain (c ∷ cs) (h, hs) = rw (fields-inside delimiters c cs h, fields-Plain cs hs) refl

  fields-append :
      (w : List ℕ) (c : ℕ) (s : List ℕ)
      → Plain w
      → strchr delimiters c ≡ true
      → fields delimiters (w ++ (c ∷ s)) ≡ w ∷ fields delimiters s
  fields-append [] c s h d = fields-delimiter delimiters c s d
  fields-append (b ∷ w) c s (h, hs) d =
      rw (fields-inside delimiters b (w ++ (c ∷ s)) h, fields-append w c s hs d) refl

  module _ (between : ℕ) (d : strchr delimiters between ≡ true) where
    fields-join :
        (w : List ℕ) (ws : List (List ℕ))
        → AreWords (w ∷ ws)
        → fields delimiters (join between (w ∷ ws)) ≡ w ∷ ws
    unfolding join
    fields-join w [] (_, plain, _) = fields-Plain w plain
    fields-join w (v ∷ ws) (_, plain, rest) =
        fields-append w between (join between (v ∷ ws)) plain d
        ∙ ap (λ fs. w ∷ fs) (fields-join v ws rest)

  non_empty-AreWords : (ws : List (List ℕ)) → AreWords ws → non_empty ws ≡ ws
  non_empty-AreWords [] h = refl
  non_empty-AreWords ([] ∷ ws) (h, _, _) = cc
  non_empty-AreWords ((c ∷ w) ∷ ws) (_, _, rest) =
      ap (λ vs. (c ∷ w) ∷ vs) (non_empty-AreWords ws rest)

  two_empty_last-AreWords : (ws : List (List ℕ)) → AreWords ws → two_empty_last ws ≡ false
  two_empty_last-AreWords [] h = refl
  two_empty_last-AreWords ([] ∷ ws) (h, _, _) = cc
  two_empty_last-AreWords ((c ∷ w) ∷ ws) (_, _, rest) =
      two_empty_last-cons c w ws ∙ two_empty_last-AreWords ws rest

  Plain-nul : (w : List ℕ) → Plain w → 0 ∉ w
  Plain-nul [] h = refl
  Plain-nul (c ∷ cs) (h, hs) = ground (arith, ne_nul delimiters c h, Plain-nul cs hs)

  join-nul : (between : ℕ) (ws : List (List ℕ)) → between ≢ 0 → AreWords ws → 0 ∉ join between ws
  unfolding join
  join-nul between [] n h = refl
  join-nul between (w ∷ []) n (_, plain, _) = Plain-nul w plain
  join-nul between (w ∷ v ∷ ws) n (_, plain, rest) =
      let more = join-nul between (v ∷ ws) n rest in
      rw (has-append 0 w (between ∷ join between (v ∷ ws)), Plain-nul w plain)
        (ground (arith, more))

nil-append : (w s : List ℕ) → is_nil w ≡ false → is_nil (w ++ s) ≡ false
nil-append [] s h = cc
nil-append (c ∷ w) s h = refl

join-nil :
    (between : ℕ) (w : List ℕ) (ws : List (List ℕ))
    → is_nil w ≡ false
    → is_nil (join between (w ∷ ws)) ≡ false
unfolding join
join-nil between w [] h = h
join-nil between w (v ∷ ws) h = nil-append w (between ∷ join between (v ∷ ws)) h

some_delimiter :
    (delimiters : List ℕ) (between : ℕ)
    → between ≢ 0
    → strchr delimiters between ≡ true
    → is_nil delimiters ≡ false
unfolding strchr
some_delimiter [] between n h = absurd (ground arith)
some_delimiter (c ∷ cs) between n h = refl

-- One word at least, each with a byte and without a delimiter, joined by a delimiter that is not
-- NUL, are the tokens that `strtok` returns, in their order.
pub strtok_new-join :
    (delimiters : List ℕ) (between : ℕ) (w : List ℕ) (ws : List (List ℕ))
    → between ≢ 0
    → strchr delimiters between ≡ true
    → AreWords delimiters (w ∷ ws)
    → strtok_new (join between (w ∷ ws)) delimiters ≡ read (w ∷ ws)
unfolding strtok_new
strtok_new-join delimiters between w ws n d h =
    rw
      (
        strtok-words (join between (w ∷ ws)) delimiters []
            (join-nul delimiters between (w ∷ ws) n h),
        join-nil between w ws h.0,
        some_delimiter delimiters between n d,
        fields-join delimiters between d w ws h,
        two_empty_last-AreWords delimiters (w ∷ ws) h,
        non_empty-AreWords delimiters (w ∷ ws) h,
      )
      refl
