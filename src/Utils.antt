-- ===== src/Utils.antt =====
-- `utils::strtok` of include/core/utils.h. A text is the list of its bytes, and a pointer into it is
-- the list of the bytes from there to the end of the buffer, the NUL behind the text included. A
-- read behind the buffer is an `overrun`; the rounds of the loop are bounded by fuel.
pub mod Fields
pub mod Split
pub mod Joined
use lock_free.Common.{
  ℕ, zero, suc, Bool, true, false, ◌||◌, List, [], ◌∷◌, ◌++◌, ◌==◌, if◌then◌else◌, has, length,
}

pub data Reading (A : Type 0) : Type 0 where
  read : A → Reading A
  overrun : Reading A
  out_of_fuel : Reading A

infixl 5 ◌>>=◌
abbrev pub ◌>>=◌ : {A B : Type 0} → Reading A → (A → Reading B) → Reading B
read a >>= f = f a
overrun >>= f = overrun
out_of_fuel >>= f = out_of_fuel

-- `c_str()` as the functions of C read it: up to the first NUL.
unfoldable pub c_str : List ℕ → List ℕ
c_str [] = []
c_str (c ∷ cs) = if c == 0 then [] else c ∷ c_str cs

-- Is `strchr( delimiters.c_str(), c )` not null? The NUL at the end is found, too.
unfoldable pub strchr : (delimiters : List ℕ) → ℕ → Bool
unfolding c_str
strchr delimiters c = (c == 0) || has c (c_str delimiters)

-- `if (*cursor!='\0') { ++cursor; }`
unfoldable pub step_over : (cursor : List ℕ) → Reading (List ℕ)
step_over [] = overrun
step_over (c ∷ cs) = if c == 0 then read (c ∷ cs) else read cs

module _ (delimiters : List ℕ) where
  -- `while ( strchr( delimiters.c_str(), *cursor ) ) { ++cursor; }`
  unfoldable pub skip : (cursor : List ℕ) → Reading (List ℕ)
  skip [] = overrun
  skip (c ∷ cs) = elim (strchr delimiters c) [ true ↦ skip cs | false ↦ read (c ∷ cs) ]

  -- The loop over the bytes of a token: the bytes passed, and the pointer behind them.
  unfoldable pub scan : (cursor : List ℕ) → Reading (List ℕ × List ℕ)
  scan [] = overrun
  scan (c ∷ cs) = elim (strchr delimiters c) [
    | true ↦ read ([], c ∷ cs)
    | false ↦ scan cs >>= λ (bytes, cursor). read (c ∷ bytes, cursor)
  ]

  -- `head = cursor++`, and what follows up to `tokens.push_back`.
  unfoldable pub token : (head : List ℕ) → Reading (List ℕ × List ℕ)
  unfolding scan
  token [] = overrun
  token (c ∷ cs) = scan cs >>= λ (bytes, cursor). read (c ∷ bytes, cursor)

  -- A round of the loop: the token, and the pointer at its end.
  unfoldable pub round : (cursor : List ℕ) → Reading (List ℕ × List ℕ)
  unfolding skip token step_over
  round cursor = do
    head ← skip cursor
    (bytes, behind) ← token head
    next ← step_over behind
    read (bytes, next)

  unfoldable pub strtok_loop :
      (fuel : ℕ) (cursor : List ℕ) (tokens : List (List ℕ)) → Reading (List (List ℕ))
  strtok_loop zero cursor tokens = out_of_fuel
  strtok_loop (suc fuel) [] tokens = overrun
  strtok_loop (suc fuel) (c ∷ cs) tokens = elim (c == 0) [
    | true ↦ read tokens
    | false ↦ round (c ∷ cs) >>= λ (bytes, next). strtok_loop fuel next (tokens ++ (bytes ∷ []))
  ]

abbrev pub is_nil : List ℕ → Bool
is_nil [] = true
is_nil (c ∷ cs) = false

-- `strtok( str, delimiters, tokens )`, with the tokens as they are then.
unfoldable pub strtok :
    (str delimiters : List ℕ) (tokens : List (List ℕ)) → Reading (Bool × List (List ℕ))
strtok str delimiters tokens =
    if is_nil str || is_nil delimiters
    then read (false, tokens)
    else (strtok_loop delimiters (suc (length str)) (str ++ (0 ∷ [])) tokens >>= λ ts.
        read (true, ts))

-- `strtok( str, delimiters )`
unfoldable pub strtok_new : (str delimiters : List ℕ) → Reading (List (List ℕ))
strtok_new str delimiters = strtok str delimiters [] >>= λ (done, tokens). read tokens
