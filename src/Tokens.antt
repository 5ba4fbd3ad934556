-- ===== src/Tokens.antt =====
-- `strtok` with a set of delimiters, as the shells, myrpc.c and mydate.c call it. A line is a C string, given by
-- its bytes.
pub mod Words
use sp_hw.Base.{ℕ, zero, suc, Bool, List, [], ◌∷◌, Option, none, some, if◌then◌else◌, Bytes}

module _ (is_delim : ℕ → Bool) where
  -- The first part of `strtok`: pass over delimiters.
  unfoldable pub skip_delims : Bytes → Bytes
  skip_delims [] = []
  skip_delims (c ∷ s) = if is_delim c then skip_delims s else c ∷ s

  -- The second: the token, and what is left behind the delimiter that ends it.
  unfoldable pub token : Bytes → Bytes × Bytes
  token [] = ([], [])
  token (c ∷ s) = let (t, rest) = token s in if is_delim c then ([], s) else (c ∷ t, rest)

  abbrev pub next_token : Bytes → Option (Bytes × Bytes)
  next_token [] = none
  next_token (c ∷ s) = some (token (c ∷ s))

  -- `strtok`: the next token and the rest of the line, or NULL.
  unfoldable pub strtok : Bytes → Option (Bytes × Bytes)
  unfolding skip_delims token
  strtok s = next_token (skip_delims s)

  -- The loop of a program that takes all the tokens, with a call of `strtok` in each round.
  unfoldable pub tokens : ℕ → Bytes → List Bytes
  tokens zero s = []
  tokens (suc fuel) s = elim (strtok s) [ none ↦ [] | some (t, rest) ↦ t ∷ tokens fuel rest ]
