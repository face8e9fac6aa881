-- ===== src/Tests/Utils.antt =====
-- Texts that `strtok` of include/core/utils.h splits, and one on which it leaves the buffer.
use lock_free.Common.{ℕ, ◌≡◌, refl, true, false, List, [], ◌∷◌, ◌||◌, arith, if◌then◌else◌}
use lock_free.Utils.{
  read, overrun, c_str, strchr, skip, scan, step_over, token, round, strtok_loop, strtok,
  strtok_new, is_nil,
}
use lock_free.Utils.Fields.{fields, words, two_empty_last}
use lock_free.Utils.Split.{strtok-words}
use lock_free.Utils.Joined.{join, strtok_new-join}

-- ",;" and ";ab,;c"
abbrev delimiters : List ℕ
delimiters = 0x2c ∷ 0x3b ∷ []

abbrev text : List ℕ
text = 0x3b ∷ 0x61 ∷ 0x62 ∷ 0x2c ∷ 0x3b ∷ 0x63 ∷ []

strtok_test : strtok text delimiters [] ≡ read (true, (0x61 ∷ 0x62 ∷ []) ∷ (0x63 ∷ []) ∷ [])
unfolding strtok strtok_loop round token step_over skip scan strchr c_str
strtok_test = refl

-- "a,," has two delimiters at its end.
overrun_test : strtok (0x61 ∷ 0x2c ∷ 0x2c ∷ []) delimiters [] ≡ overrun
unfolding strtok strtok_loop round token step_over skip scan strchr c_str
overrun_test = refl

strtok-words_example : strtok text delimiters [] ≡ (
    if is_nil text || is_nil delimiters
    then read (false, [])
    else (if two_empty_last (fields delimiters text)
        then overrun
        else read (true, words delimiters text)))
strtok-words_example = strtok-words text delimiters [] refl

strtok_new-join_example :
    strtok_new (join 0x2c ((0x61 ∷ 0x62 ∷ []) ∷ (0x63 ∷ []) ∷ [])) delimiters
    ≡ read ((0x61 ∷ 0x62 ∷ []) ∷ (0x63 ∷ []) ∷ [])
unfolding strchr c_str
strtok_new-join_example =
    strtok_new-join delimiters 0x2c (0x61 ∷ 0x62 ∷ []) ((0x63 ∷ []) ∷ []) (omega arith) refl
      (refl, (refl, (refl, tt)), (refl, (refl, tt), tt))
