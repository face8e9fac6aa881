-- ===== src/Utils/Fields.antt =====
-- The fields of a text between single delimiters, as a description of the tokens that `strtok` of
-- include/core/utils.h finds.
use lock_free.Common.{◌==◌, ℕ, ◌≡◌, refl, Bool, true, false, ◌&&◌, List, [], ◌∷◌, arith}
use lock_free.Utils.{is_nil, strchr}

abbrev pub push_first : ℕ → List (List ℕ) → List (List ℕ)
push_first c [] = (c ∷ []) ∷ []
push_first c (p ∷ ps) = (c ∷ p) ∷ ps

-- What stands before, between and behind the delimiters, empty or not.
unfoldable pub fields : (delimiters text : List ℕ) → List (List ℕ)
fields delimiters [] = [] ∷ []
fields delimiters (c ∷ cs) = elim (strchr delimiters c) [
  | true ↦ [] ∷ fields delimiters cs
  | false ↦ push_first c (fields delimiters cs)
]

abbrev pub non_empty : List (List ℕ) → List (List ℕ)
non_empty [] = []
non_empty ([] ∷ ps) = non_empty ps
non_empty ((c ∷ cs) ∷ ps) = (c ∷ cs) ∷ non_empty ps

-- The words of a text: its fields that are not empty.
abbrev pub words : (delimiters text : List ℕ) → List (List ℕ)
words delimiters text = non_empty (fields delimiters text)

-- Are the last two fields empty? So they are when the text is a delimiter, or ends in two.
abbrev pub two_empty_last : List (List ℕ) → Bool
two_empty_last [] = false
two_empty_last (p ∷ []) = false
two_empty_last (p ∷ q ∷ []) = is_nil p && is_nil q
two_empty_last (p ∷ q ∷ r ∷ ps) = two_empty_last (q ∷ r ∷ ps)

abbrev pub all_nil : List (List ℕ) → Bool
all_nil [] = true
all_nil (p ∷ ps) = is_nil p && all_nil ps

pub two_empty_last-all_nil :
    (p q : List ℕ) (ps : List (List ℕ))
    → all_nil (p ∷ q ∷ ps) ≡ true
    → two_empty_last (p ∷ q ∷ ps) ≡ true
two_empty_last-all_nil [] [] [] h = refl
two_empty_last-all_nil [] [] (r ∷ ps) h = two_empty_last-all_nil [] r ps h
two_empty_last-all_nil [] (c ∷ q) ps h = cc
two_empty_last-all_nil (c ∷ p) q ps h = cc

pub two_empty_last-nil :
    (ps : List (List ℕ)) → all_nil ps ≡ false → two_empty_last ([] ∷ ps) ≡ two_empty_last ps
two_empty_last-nil [] h = cc
two_empty_last-nil ([] ∷ []) h = cc
two_empty_last-nil ((c ∷ p) ∷ []) h = refl
two_empty_last-nil (p ∷ q ∷ ps) h = refl

pub two_empty_last-cons :
    (c : ℕ) (p : List ℕ) (ps : List (List ℕ)) → two_empty_last ((c ∷ p) ∷ ps) ≡ two_empty_last ps
two_empty_last-cons c p [] = refl
two_empty_last-cons c p (q ∷ []) = refl
two_empty_last-cons c p (q ∷ r ∷ ps) = refl

pub non_empty-all_nil : (ps : List (List ℕ)) → all_nil ps ≡ true → non_empty ps ≡ []
non_empty-all_nil [] h = refl
non_empty-all_nil ([] ∷ ps) h = non_empty-all_nil ps h
non_empty-all_nil ((c ∷ p) ∷ ps) h = cc

module _ (delimiters : List ℕ) where
  pub ne_nul : (c : ℕ) → strchr delimiters c ≡ false → (c == 0) ≡ false
  unfolding strchr
  ne_nul c h = ground arith

  pub fields-delimiter :
      (c : ℕ) (cs : List ℕ)
      → strchr delimiters c ≡ true
      → fields delimiters (c ∷ cs) ≡ [] ∷ fields delimiters cs
  unfolding fields
  fields-delimiter c cs h = rw (h, fields) refl

  pub fields-inside :
      (c : ℕ) (cs : List ℕ)
      → strchr delimiters c ≡ false
      → fields delimiters (c ∷ cs) ≡ push_first c (fields delimiters cs)
  unfolding fields
  fields-inside c cs h = rw (h, fields) refl
