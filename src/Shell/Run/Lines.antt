-- ===== src/Shell/Run/Lines.antt =====
-- From a line to the processes that run.
use sp_hw.Base.{
  Bool-cases, inl, inr, ℕ, suc, ◌≤◌, ◌≡◌, ◌≢◌, refl, ap, ◌∙◌, true, false, List, [], ◌∷◌, ◌++◌,
  none, some, if◌then◌else◌, length, length-append, map, All, Bytes, codes, arith,
}
use sp_hw.Shell.Input.{typed_lines, IsTyped, typed_lines-IsTyped}
use sp_hw.Shell.Parse.{argv_of}
use sp_hw.Tokens.Words.{line_of}
use sp_hw.Shell.Parse.Words.{AllDelims, IsPiece, parse-line_of}
use sp_hw.Shell.Builtin.{is_builtin}
use sp_hw.Shell.Redirect.{is_background, prepare}
use sp_hw.Shell.Redirect.Order.{Lacks, vector, args-vector, prepare_plain}
use sp_hw.Shell.Pipe.{copies_fit}
use sp_hw.Shell.Pipe.Stages.{
  IsCommand, command_line, connected, command_line-ne-nil, pipe_and_exec-connected,
}
use sp_hw.Shell.Run.{
  World, executes, exec_child, starts, waits, report, run_command, dispatch, run_words, run_line,
  first, main_loop, ends,
}

length-command_line :
    (c : List Bytes) (ds : List (List Bytes)) → length ds ≤ length (command_line c ds)
length-command_line c [] = omega arith
length-command_line c (d ∷ ds) =
    omega (arith, length-append c (codes "|" ∷ command_line d ds), length-command_line d ds)

argv_of-some : (ss : List Bytes) → ss ≢ [] → argv_of ss ≡ some ss
argv_of-some [] h = absurd (h refl)
argv_of-some (s ∷ ss) h = refl

run_words-program :
    (w : World) (n : ℕ) (argv : List Bytes)
    → is_builtin (first argv) ≡ none
    → run_words w n (some argv) ≡ run_command w n argv
run_words-program w n argv e = unfold run_words dispatch in ap (dispatch w n argv) e

module _ (w : World) (n : ℕ) (c : List Bytes) (ds : List (List Bytes)) where
  -- The words of a pipeline with no redirection, whose children can do all that they ask for.
  pub record IsPipeline : Type 0 where
    pub head : IsCommand c
    pub others : All IsCommand ds
    pub fits : copies_fit (command_line c ds) ≡ true
    pub no_input : Lacks (codes "<") (command_line c ds)
    pub no_output : Lacks (codes ">") (command_line c ds)
    pub forks : w.fork n ≡ true
    pub calls : (k : ℕ) → w.child n k ≡ true

  exec_child-connected :
      IsPipeline
      → exec_child (w.child n) (prepare w.reads w.writes (vector (command_line c ds)))
        ≡ executes none none (connected false c ds)
  exec_child-connected p =
      ap (exec_child (w.child n))
        (prepare_plain (command_line c ds) w.reads w.writes p.no_input p.no_output)
      ∙ unfold exec_child in
        rw (args-vector (command_line c ds)) (
          ap (executes none none) (
            pipe_and_exec-connected c ds (suc (length (command_line c ds))) (w.child n) 0 false
              p.head p.others p.fits p.calls (omega (arith, length-command_line c ds))))

  -- A pipeline without redirections runs one process for each of its commands. The shell waits for the child
  -- that it forked and reports its end, unless an `&` stands anywhere in it; that `&` is handed to the program.
  pub run_command-connected :
      IsPipeline
      → run_command w n (command_line c ds) ≡ (
          if is_background (command_line c ds)
          then starts (executes none none (connected false c ds)) ∷ []
          else starts (executes none none (connected false c ds)) ∷ waits (report (w.end n)) ∷ [])
  run_command-connected p = unfold run_command in rw (p.forks, exec_child-connected p)

  run_line-connected :
      (gap : Bytes) (pieces : List (Bytes × Bytes))
      → IsPipeline
      → AllDelims gap
      → All IsPiece pieces
      → map (λ (t, g). t) pieces ≡ command_line c ds
      → is_builtin (first (command_line c ds)) ≡ none
      → run_line w n (gap ++ line_of pieces) ≡ (
          if is_background (command_line c ds)
          then starts (executes none none (connected false c ds)) ∷ []
          else starts (executes none none (connected false c ds)) ∷ waits (report (w.end n)) ∷ [])
  run_line-connected gap pieces p delims hs words program =
      let argv : List Bytes = command_line c ds in
      unfold run_line in
      ap (run_words w n) (
        parse-line_of gap pieces delims hs
        ∙ ap argv_of words
        ∙ argv_of-some argv (command_line-ne-nil c ds p.head))
      ∙ run_words-program w n argv program
      ∙ run_command-connected p

  -- The actions of such a line end nothing.
  run_line-goes_on :
      (line : Bytes) (lines : List Bytes)
      → run_line w n line ≡ (
          if is_background (command_line c ds)
          then starts (executes none none (connected false c ds)) ∷ []
          else starts (executes none none (connected false c ds)) ∷ waits (report (w.end n)) ∷ [])
      → main_loop w n (line ∷ lines) ≡ run_line w n line ++ main_loop w (suc n) lines
  unfolding ends
  run_line-goes_on line lines e =
      let stays : ends (
            if is_background (command_line c ds)
            then starts (executes none none (connected false c ds)) ∷ []
            else starts (executes none none (connected false c ds)) ∷ waits (report (w.end n)) ∷ [])
          ≡ false =
        elim (Bool-cases (is_background (command_line c ds))) [
          | inl y ↦ rw y refl
          | inr y ↦ rw y refl
        ] in
      unfold main_loop in
      ap (λ b. if b then run_line w n line else run_line w n line ++ main_loop w (suc n) lines)
        (ap ends e ∙ stays)

  -- From the line that the user types, of up to 254 bytes with its newline and with any spacing: if its first
  -- word is not a built-in command, a pipeline without redirections, whose words fit the copies and whose
  -- calls succeed, runs one process for each of its commands. The shell waits for the child that it forked,
  -- which becomes the first of them, and reports its end, unless an `&` stands anywhere in the line; that `&`
  -- is handed to the program. Then the shell goes on to what is typed behind the line.
  pub main_loop-connected :
      (gap : Bytes) (pieces : List (Bytes × Bytes)) (rest : Bytes)
      → IsPipeline
      → IsTyped (gap ++ line_of pieces)
      → AllDelims gap
      → All IsPiece pieces
      → map (λ (t, g). t) pieces ≡ command_line c ds
      → is_builtin (first (command_line c ds)) ≡ none
      → main_loop w n (typed_lines ((gap ++ line_of pieces) ++ rest))
        ≡ (if is_background (command_line c ds)
            then starts (executes none none (connected false c ds)) ∷ []
            else starts (executes none none (connected false c ds)) ∷ waits (report (w.end n)) ∷ [])
          ++ main_loop w (suc n) (typed_lines rest)
  main_loop-connected gap pieces rest p typed delims hs words program =
      let line : Bytes = gap ++ line_of pieces in
      let runs = run_line-connected gap pieces p delims hs words program in
      ap (main_loop w n) (typed_lines-IsTyped line rest typed)
      ∙ run_line-goes_on line (typed_lines rest) runs
      ∙ ap (λ actions. actions ++ main_loop w (suc n) (typed_lines rest)) runs
