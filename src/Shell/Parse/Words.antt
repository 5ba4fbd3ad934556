-- ===== src/Shell/Parse/Words.antt =====
-- The words of a line of the shells.
use sp_hw.Base.{
  suc, ◌≡◌, refl, sym, ap, subst, ◌∙◌, Bool-cases, inl, inr, List, ◌++◌, length, length-append, map,
  All, Bytes, codes, str_eq, str_eq_iff, arith,
}
use sp_hw.Tokens.Words.{line_of, tokens-gap, tokens-line_of}
use sp_hw.Tokens.Words
use sp_hw.Shell.Parse.{is_delim, argv_of, parse_hw3, parse}

abbrev pub AllDelims : Bytes → Type 0
AllDelims = Words.AllDelims is_delim

abbrev pub IsPiece : Bytes × Bytes → Type 0
IsPiece = Words.IsPiece is_delim

-- The test for a bare newline changes nothing: the two shells split every line alike.
pub parse-eq-parse_hw3 : (line : Bytes) → parse line ≡ parse_hw3 line
parse-eq-parse_hw3 line = elim (Bool-cases (str_eq line (codes "\n"))) [
  | inl bare ↦
      subst (λ l. parse l ≡ parse_hw3 l) (sym ((str_eq_iff line (codes "\n")).0 bare)) bare_newline
  | inr more ↦ unfold parse parse_hw3 in rw more
]
  where
    bare_newline : parse (codes "\n") ≡ parse_hw3 (codes "\n")
    bare_newline = unfold parse parse_hw3 str_eq in refl

-- A line written from words, with any gap in front, and a gap of one or more delimiters behind each
-- word, is split into those words; a line of delimiters alone gives NULL.
pub parse-line_of :
    (gap : Bytes) (pieces : List (Bytes × Bytes))
    → AllDelims gap
    → All IsPiece pieces
    → parse (gap ++ line_of pieces) ≡ argv_of (map (λ (w, g). w) pieces)
parse-line_of gap pieces delims h =
    parse-eq-parse_hw3 (gap ++ line_of pieces)
    ∙ unfold parse_hw3 in
      ap argv_of (
        tokens-gap is_delim (suc (length (gap ++ line_of pieces))) gap (line_of pieces) delims
        ∙ tokens-line_of is_delim pieces (suc (length (gap ++ line_of pieces))) h
            (omega (arith, length-append gap (line_of pieces))))
