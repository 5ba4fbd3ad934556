-- ===== src/Shell/Early/Started.antt =====
-- From a line to the program that the first shell starts.
use sp_hw.Base.{
  ℕ, suc, ◌≡◌, ◌≢◌, refl, sym, ap, ◌∙◌, true, false, List, [], ◌∷◌, ◌++◌, append-nil, Option, none,
  some, if◌then◌else◌, map, All, Bytes, codes, str_eq_self, str_eq-other,
}
use sp_hw.Shell.Input.{typed_lines, IsTyped, typed_lines-IsTyped}
use sp_hw.Shell.Parse.{argv_of, parse_hw3}
use sp_hw.Tokens.Words.{line_of}
use sp_hw.Shell.Parse.Words.{AllDelims, IsPiece, parse-line_of, parse-eq-parse_hw3}
use sp_hw.Shell.Builtin.{is_builtin_hw3}
use sp_hw.Shell.Early.{
  is_background_hw3, cut_at_ampersand, child_argv, WaitStatus, Setting, started, reported,
  after_wait, run_command_hw3, dispatch_hw3, run_words_hw3, main_loop_hw3, is_over, command_name,
}

-- Words of which none is an `&`.
abbrev pub IsPlain : List Bytes → Type 0
IsPlain words = All (λ s. s ≢ codes "&") words

-- What follows the words of a program: nothing, or an `&` with any words behind it.
abbrev pub suffix : Option (List Bytes) → List Bytes
suffix none = []
suffix (some back) = codes "&" ∷ back

-- The status that is reported.
abbrev pub status_of : Setting → ℕ → WaitStatus → Option (List Bytes) → WaitStatus
status_of w n stat none = stat
status_of w n stat (some back) = w.junk n

is_background_hw3-suffix :
    (front : List Bytes) (tail : Option (List Bytes))
    → IsPlain front
    → is_background_hw3 (front ++ suffix tail) ≡ elim tail [ none ↦ false | some back ↦ true ]
unfolding is_background_hw3
is_background_hw3-suffix [] none h = refl
is_background_hw3-suffix [] (some back) h = rw (str_eq_self (codes "&")) refl
is_background_hw3-suffix (s ∷ front) tail h =
    rw (str_eq-other (h.0)) (is_background_hw3-suffix front tail (h.1))

cut_at_ampersand-suffix :
    (front back : List Bytes) → IsPlain front → cut_at_ampersand (front ++ codes "&" ∷ back) ≡ front
unfolding cut_at_ampersand
cut_at_ampersand-suffix [] back h =
    ap (λ b. if b then [] else codes "&" ∷ cut_at_ampersand back) (str_eq_self (codes "&"))
cut_at_ampersand-suffix (s ∷ front) back h =
    rw (str_eq-other (h.0)) (ap (λ z. s ∷ z) (cut_at_ampersand-suffix front back (h.1)))

run_command_hw3-suffix :
    (w : Setting) (n : ℕ) (front : List Bytes) (tail : Option (List Bytes)) (stat : WaitStatus)
    → IsPlain front
    → w.fork n ≡ true
    → w.end n ≡ some stat
    → run_command_hw3 w n (front ++ suffix tail)
      ≡ started front ∷ reported (status_of w n stat tail) ∷ []
unfolding run_command_hw3 child_argv after_wait
run_command_hw3-suffix w n front none stat h f e =
    rw (f, is_background_hw3-suffix front none h, e)
      (ap (λ z. started z ∷ reported stat ∷ []) (append-nil front))
run_command_hw3-suffix w n front (some back) stat h f e =
    rw (f, is_background_hw3-suffix front (some back) h, cut_at_ampersand-suffix front back h) refl

main_loop_hw3-some :
    (w : Setting) (n : ℕ) (line : Bytes) (lines words : List Bytes)
    → parse_hw3 line ≡ some words
    → is_builtin_hw3 (command_name words) ≡ none
    → is_over (run_command_hw3 w n words) ≡ false
    → main_loop_hw3 w n (line ∷ lines) ≡ run_command_hw3 w n words ++ main_loop_hw3 w (suc n) lines
unfolding main_loop_hw3 run_words_hw3 dispatch_hw3
main_loop_hw3-some w n line lines words e b o = rw (e, b, o) refl

words_some :
    (front : List Bytes) (tail : Option (List Bytes))
    → front ≢ []
    → argv_of (front ++ suffix tail) ≡ some (front ++ suffix tail)
words_some [] tail h = absurd (h refl)
words_some (s ∷ front) tail h = refl

line-started :
    (w : Setting) (n : ℕ) (gap : Bytes) (pieces : List (Bytes × Bytes)) (lines front : List Bytes)
    (tail : Option (List Bytes)) (stat : WaitStatus)
    → AllDelims gap
    → All IsPiece pieces
    → map (λ (t, g). t) pieces ≡ front ++ suffix tail
    → front ≢ []
    → IsPlain front
    → is_builtin_hw3 (command_name (front ++ suffix tail)) ≡ none
    → w.fork n ≡ true
    → w.end n ≡ some stat
    → main_loop_hw3 w n ((gap ++ line_of pieces) ∷ lines)
      ≡ started front ∷ reported (status_of w n stat tail) ∷ main_loop_hw3 w (suc n) lines
unfolding is_over
line-started w n gap pieces lines front tail stat delims hs words some_front plain program f e =
    let parsed =
      sym (parse-eq-parse_hw3 (gap ++ line_of pieces))
      ∙ parse-line_of gap pieces delims hs
      ∙ ap argv_of words
      ∙ words_some front tail some_front in
    let runs = run_command_hw3-suffix w n front tail stat plain f e in
    main_loop_hw3-some w n (gap ++ line_of pieces) lines (front ++ suffix tail) parsed program
      (ap is_over runs)
    ∙ ap (λ z. z ++ main_loop_hw3 w (suc n) lines) runs

-- A line of up to 254 bytes, with its newline and any spacing, whose first word is not built in starts the
-- program with the words in front of the first `&`, and drops those behind it. Without an `&` the shell reports
-- how the program has ended; with one it reports at once what `stat` happens to hold. Then it goes on to what
-- is typed behind the line.
pub main_loop_hw3-started :
    (w : Setting) (n : ℕ) (gap : Bytes) (pieces : List (Bytes × Bytes)) (rest : Bytes)
    (front : List Bytes) (tail : Option (List Bytes)) (stat : WaitStatus)
    → IsTyped (gap ++ line_of pieces)
    → AllDelims gap
    → All IsPiece pieces
    → map (λ (t, g). t) pieces ≡ front ++ suffix tail
    → front ≢ []
    → IsPlain front
    → is_builtin_hw3 (command_name (front ++ suffix tail)) ≡ none
    → w.fork n ≡ true
    → w.end n ≡ some stat
    → main_loop_hw3 w n (typed_lines ((gap ++ line_of pieces) ++ rest))
      ≡ started front
        ∷ reported (status_of w n stat tail)
        ∷ main_loop_hw3 w (suc n) (typed_lines rest)
main_loop_hw3-started w n gap pieces rest front tail stat typed delims hs words some_front plain
      program f e =
    ap (main_loop_hw3 w n) (typed_lines-IsTyped (gap ++ line_of pieces) rest typed)
    ∙ line-started w n gap pieces (typed_lines rest) front tail stat delims hs words some_front
        plain program f e
