-- ===== src/Shell/Input.antt =====
-- `fgets(line, LONGLINE, stdin)` of the two shells: what the calls bring of the text that is typed, which holds
-- no NUL.
use sp_hw.Base.{
  ℕ, ◌-◌, ◌<◌, ◌≡◌, ◌≢◌, refl, ap, ◌∙◌, sym, ◌||◌, List, [], ◌∷◌, ◌++◌, if◌then◌else◌, ◌==◌,
  ==-false, length, length-append, append_assoc, All, Bytes, codes, arith,
}

-- LONGLINE
abbrev pub longline : ℕ
longline = 255

-- The bytes that one call takes at most.
abbrev pub room : ℕ
room = longline - 1

-- A byte in front of the rest of its line.
abbrev pub push : ℕ → List Bytes → List Bytes
push c [] = (c ∷ []) ∷ []
push c (line ∷ lines) = (c ∷ line) ∷ lines

-- The lines, with the bytes that the first of them may still take. A line ends behind its newline, or where
-- the array is full.
unfoldable pub lines_from : ℕ → Bytes → List Bytes
lines_from left [] = []
lines_from left (c ∷ typed) =
    let ends = c == b'\n' || left == 1 in
    let rest = lines_from (if ends then room else left - 1) typed in
    if ends then (c ∷ []) ∷ rest else push c rest

abbrev pub typed_lines : Bytes → List Bytes
typed_lines typed = lines_from room typed

-- A line that is typed, with its newline, and fits the array.
pub record IsTyped (line : Bytes) : Type 0 where
  pub body : Bytes
  pub is_line : line ≡ body ++ codes "\n"
  pub one_line : All (λ c. c ≢ b'\n') body
  pub short : length line < longline

lines_from-body :
    (left : ℕ) (body rest : Bytes)
    → All (λ c. c ≢ b'\n') body
    → length body < left
    → lines_from left (body ++ b'\n' ∷ rest) ≡ (body ++ codes "\n") ∷ lines_from room rest
unfolding lines_from
lines_from-body left [] rest h l = refl
lines_from-body left (c ∷ body) rest h l =
    rw (==-false c b'\n' (h.0), ==-false left 1 (λ e. absurd (omega (arith, e))))
      (ap (push c) (lines_from-body (left - 1) body rest (h.1) (omega arith)))

-- A line that is typed is brought by one call, and the next call goes on behind it.
pub typed_lines-IsTyped :
    (line rest : Bytes) → IsTyped line → typed_lines (line ++ rest) ≡ line ∷ typed_lines rest
typed_lines-IsTyped line rest t =
    ap (λ l. typed_lines (l ++ rest)) t.is_line
    ∙ ap typed_lines (append_assoc t.body (codes "\n") rest)
    ∙ lines_from-body room t.body rest t.one_line
        (omega (arith, t.short, ap length t.is_line, length-append t.body (codes "\n")))
    ∙ ap (λ l. l ∷ typed_lines rest) (sym t.is_line)
