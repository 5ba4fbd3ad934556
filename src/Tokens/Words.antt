-- ===== src/Tokens/Words.antt =====
-- The words of a line, and lines written from words.
use sp_hw.Base.{
  ℕ, zero, suc, ◌<◌, ◌≡◌, ◌≢◌, refl, sym, ap, subst, ◌∙◌, Bool, true, false, Option-cases, inl, inr,
  List, [], ◌∷◌, ◌++◌, none, some, length, length-append, append-nil, append_assoc, map, All, Bytes,
  arith,
}
use sp_hw.Tokens.{skip_delims, token, next_token, strtok, tokens}

-- Words, each with the gap behind it.
abbrev pub line_of : List (Bytes × Bytes) → Bytes
line_of [] = []
line_of ((w, gap) ∷ pieces) = w ++ (gap ++ line_of pieces)

module _ (is_delim : ℕ → Bool) where
  -- All delimiters, or none.
  abbrev pub AllDelims : Bytes → Type 0
  AllDelims = All (λ c. is_delim c ≡ true)

  -- A word of a line.
  abbrev pub IsWord : Bytes → Type 0
  IsWord w = (w ≢ []) × All (λ c. is_delim c ≡ false) w

  -- A word and the gap behind it.
  abbrev pub IsPiece : Bytes × Bytes → Type 0
  IsPiece (w, gap) = IsWord w × AllDelims gap × (gap ≢ [])

  skip_delims-append :
      (gap s : Bytes) → AllDelims gap → skip_delims is_delim (gap ++ s) ≡ skip_delims is_delim s
  unfolding skip_delims
  skip_delims-append [] s h = refl
  skip_delims-append (c ∷ gap) s h = rw h.0 (skip_delims-append gap s h.1)

  pub token-append :
      (w : Bytes) (d : ℕ) (s : Bytes)
      → All (λ c. is_delim c ≡ false) w
      → is_delim d ≡ true
      → token is_delim (w ++ d ∷ s) ≡ (w, s)
  unfolding token
  token-append [] d s h e = rw e
  token-append (c ∷ w) d s h e = rw (h.0, token-append w d s h.1 e)

  strtok-word :
      (w : Bytes) (d : ℕ) (s : Bytes)
      → IsWord w
      → is_delim d ≡ true
      → strtok is_delim (w ++ d ∷ s) ≡ some (w, s)
  unfolding strtok skip_delims
  strtok-word [] d s h e = absurd (h.0 refl)
  strtok-word (c ∷ w) d s h e = rw h.1.0 (ap some (token-append (c ∷ w) d s h.1 e))

  pub tokens-gap :
      (fuel : ℕ) (gap s : Bytes)
      → AllDelims gap
      → tokens is_delim fuel (gap ++ s) ≡ tokens is_delim fuel s
  unfolding tokens strtok
  tokens-gap zero gap s h = refl
  tokens-gap (suc fuel) gap s h = rw (tokens, skip_delims-append gap s h)

  strtok_nil : strtok is_delim [] ≡ none
  unfolding strtok skip_delims
  strtok_nil = refl

  -- Words with gaps in front of a rest whose words are known.
  tokens-pieces :
      (pieces : List (Bytes × Bytes)) (s : Bytes) (ts : List Bytes) (fuel : ℕ)
      → ((n : ℕ) → length s < n → tokens is_delim n s ≡ ts)
      → All IsPiece pieces
      → length (line_of pieces ++ s) < fuel
      → tokens is_delim fuel (line_of pieces ++ s) ≡ map (λ (w, gap). w) pieces ++ ts
  unfolding tokens
  tokens-pieces pieces s ts zero r h lt = absurd (omega arith)
  tokens-pieces [] s ts (suc fuel) r h lt = r (suc fuel) lt
  tokens-pieces ((w, []) ∷ pieces) s ts (suc fuel) r h lt = absurd (h.0.2 refl)
  tokens-pieces ((w, d ∷ gap) ∷ pieces) s ts (suc fuel) r h lt =
      let moved : line_of ((w, d ∷ gap) ∷ pieces) ++ s ≡ w ++ d ∷ (gap ++ (line_of pieces ++ s)) =
        append_assoc w (d ∷ (gap ++ line_of pieces)) s
        ∙ ap (λ x. w ++ d ∷ x) (append_assoc gap (line_of pieces) s) in
      ap (tokens is_delim (suc fuel)) moved
      ∙ rw (tokens, strtok-word w d (gap ++ (line_of pieces ++ s)) h.0.0 h.0.1.0)
          (ap (◌∷◌ w) (
            tokens-gap fuel gap (line_of pieces ++ s) h.0.1.1
            ∙ tokens-pieces pieces s ts fuel r h.1 (
                omega (
                  arith,
                  ap length moved,
                  length-append w (d ∷ (gap ++ (line_of pieces ++ s))),
                  length-append gap (line_of pieces ++ s),
                ))))

  tokens_nil : (n : ℕ) → length {A = ℕ} [] < n → tokens is_delim n [] ≡ []
  unfolding tokens
  tokens_nil zero h = refl
  tokens_nil (suc n) h = rw (tokens, strtok_nil)

  pub tokens-line_of :
      (pieces : List (Bytes × Bytes)) (fuel : ℕ)
      → All IsPiece pieces
      → length (line_of pieces) < fuel
      → tokens is_delim fuel (line_of pieces) ≡ map (λ (w, gap). w) pieces
  tokens-line_of pieces fuel h lt =
      let same = append-nil (line_of pieces) in
      ap (tokens is_delim fuel) (sym same)
      ∙ tokens-pieces pieces [] [] fuel tokens_nil h (omega (arith, ap length same))
      ∙ append-nil (map (λ (w, gap). w) pieces)

  token-end : (w : Bytes) → All (λ c. is_delim c ≡ false) w → token is_delim w ≡ (w, [])
  unfolding token
  token-end [] h = refl
  token-end (c ∷ w) h = rw (h.0, token-end w h.1)

  strtok-end : (w : Bytes) → IsWord w → strtok is_delim w ≡ some (w, [])
  unfolding strtok skip_delims
  strtok-end [] h = absurd (h.0 refl)
  strtok-end (c ∷ w) h = rw h.1.0 (ap some (token-end (c ∷ w) h.1))

  tokens-word : (w : Bytes) → IsWord w → (n : ℕ) → length w < n → tokens is_delim n w ≡ w ∷ []
  unfolding tokens
  tokens-word w h zero lt = absurd (omega arith)
  tokens-word [] h (suc n) lt = absurd (h.0 refl)
  tokens-word (c ∷ w) h (suc n) lt =
      rw (tokens, strtok-end (c ∷ w) h) (ap (◌∷◌ (c ∷ w)) (tokens_nil n (omega arith)))

  -- A last word with nothing behind it.
  pub tokens-last :
      (pieces : List (Bytes × Bytes)) (w : Bytes) (fuel : ℕ)
      → All IsPiece pieces
      → IsWord w
      → length (line_of pieces ++ w) < fuel
      → tokens is_delim fuel (line_of pieces ++ w) ≡ map (λ (v, gap). v) pieces ++ w ∷ []
  tokens-last pieces w fuel h i lt = tokens-pieces pieces w (w ∷ []) fuel (tokens-word w i) h lt

  token-IsWord : (s : Bytes) → All (λ c. is_delim c ≡ false) (token is_delim s).0
  unfolding token
  token-IsWord [] = tt
  token-IsWord (c ∷ s) = ground (arith, token-IsWord s)

  skip_delims-head :
      (s : Bytes) (c : ℕ) (r : Bytes) → skip_delims is_delim s ≡ c ∷ r → is_delim c ≡ false
  unfolding skip_delims
  skip_delims-head [] c r e = cc
  skip_delims-head (x ∷ s) c r e = ground (arith, skip_delims-head s c r)

  strtok-next_token :
      (s r : Bytes) → skip_delims is_delim s ≡ r → strtok is_delim s ≡ next_token is_delim r
  unfolding strtok
  strtok-next_token s r k = ap (next_token is_delim) k

  token-cons :
      (c : ℕ) (r : Bytes)
      → is_delim c ≡ false
      → token is_delim (c ∷ r) ≡ (c ∷ (token is_delim r).0, (token is_delim r).1)
  unfolding token
  token-cons c r e = rw e

  strtok-IsWord : (s t rest : Bytes) → strtok is_delim s ≡ some (t, rest) → IsWord t
  strtok-IsWord s t rest e = by_rest (skip_delims is_delim s) refl
    where
      by_rest : (r : Bytes) → skip_delims is_delim s ≡ r → IsWord t
      by_rest [] k = cc (strtok-next_token s [] k)
      by_rest (c ∷ r) k =
          let plain : is_delim c ≡ false = skip_delims-head s c r k in
          let is : t ≡ c ∷ (token is_delim r).0 =
            cc (strtok-next_token s (c ∷ r) k, token-cons c r plain) in
          subst IsWord (sym is) (cc, (plain, token-IsWord r))

  -- Every word that either shell finds is not empty and holds no delimiter.
  pub tokens-IsWord : (fuel : ℕ) (s : Bytes) → All IsWord (tokens is_delim fuel s)
  unfolding tokens
  tokens-IsWord zero s = tt
  tokens-IsWord (suc fuel) s = elim (Option-cases (strtok is_delim s)) [
    | inl e ↦ rw (tokens, e) tt
    | inr ((t, rest), e) ↦ rw (tokens, e) (strtok-IsWord s t rest e, tokens-IsWord fuel rest)
  ]
