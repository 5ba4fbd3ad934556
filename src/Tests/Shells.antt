-- ===== src/Tests/Shells.antt =====
-- Runs of the shells.
use sp_hw.Base.{
  ℕ, ◌≡◌, refl, Bool, true, false, List, [], ◌∷◌, ◌++◌, some, none, Bytes, Calls, String, codes,
  str_eq, ℤ, pos, arith, ◌==◌, if◌then◌else◌,
}
use sp_hw.Shell.Parse.{parse, argv_of}
use sp_hw.Tokens.Words.{line_of}
use sp_hw.Shell.Parse.Words.{parse-line_of}
use sp_hw.Shell.Builtin.{Effect, prints, Os, is_builtin}
use sp_hw.Shell.Redirect.{is_background}
use sp_hw.Shell.Pipe.{runs, process, pipe_and_exec, copies_fit}
use sp_hw.Shell.Pipe.Stages.{connected, pipe_and_exec-connected}
use sp_hw.Shell.Run.{World, exited, executes, starts, waits, report, main_loop}
use sp_hw.Shell.Run.Lines.{IsPipeline, main_loop-connected}
use sp_hw.Shell.Input.{typed_lines, IsTyped}

abbrev words : List String → List Bytes
words [] = []
words (w ∷ ws) = codes w ∷ words ws

parse_two : parse (codes " ls\t -l \n") ≡ some (words ("ls" ∷ "-l" ∷ []))
unfolding parse str_eq
parse_two = refl

abbrev pieces : List (Bytes × Bytes)
pieces = (codes "ls", codes "  ") ∷ (codes "|", codes " ") ∷ (codes "wc", codes "\n") ∷ []

not_nil : (x : ℕ) (xs : Bytes) → x ∷ xs ≡ [] → ⊥
not_nil x xs e = cc

abbrev spaces : Bytes
spaces = codes " "

parse-line_of_example : parse (spaces ++ line_of pieces) ≡ argv_of (words ("ls" ∷ "|" ∷ "wc" ∷ []))
parse-line_of_example =
    parse-line_of spaces pieces (refl, tt)
      (
        (
          (not_nil b'l' (codes "s"), (refl, (refl, tt))),
          (refl, (refl, tt)),
          not_nil b' ' (codes " "),
        ),
        (
          ((not_nil b'|' [], (refl, tt)), (refl, tt), not_nil b' ' []),
          (((not_nil b'w' (codes "c"), (refl, (refl, tt))), (refl, tt), not_nil b'\n' []), tt),
        ),
      )

abbrev cd_answer : Effect
cd_answer = prints (codes "cd is a builtin feature.\n")

abbrev digit : Bytes → ℤ
digit [] = pos 0
digit (c ∷ cs) = if c == b'2' then pos 2 else pos 0

abbrev two_strings : List Bytes
two_strings = words ("a" ∷ "b" ∷ [])

abbrev every_file : Bytes → Bool
every_file name = true

abbrev ls : List Bytes
ls = words ("ls" ∷ [])

abbrev wc : List Bytes
wc = words ("wc" ∷ [])

words_ne_nil : (w : Bytes) (ws : List Bytes) → w ∷ ws ≡ [] → ⊥
words_ne_nil w ws e = cc

no_failure : Calls
no_failure k = true

no_failure_lem : (k : ℕ) → no_failure k ≡ true
unfolding no_failure
no_failure_lem k = refl

pipe_and_exec-connected_example :
    pipe_and_exec 2 no_failure 0 false (words ("ls" ∷ "|" ∷ "wc" ∷ []))
    ≡ process false true (runs ls) ∷ process true false (runs wc) ∷ []
pipe_and_exec-connected_example =
    pipe_and_exec-connected ls (wc ∷ []) 2 no_failure 0 false
      (words_ne_nil (codes "ls") [], (unfold str_eq in (refl, tt)))
      ((words_ne_nil (codes "wc") [], (unfold str_eq in (refl, tt))), tt)
      (unfold copies_fit in refl) no_failure_lem (omega arith)

abbrev os : Os
os = record { chdir = every_file; cwd = none; hostname = none; identity = none }

abbrev world : World
world = record {
  os = os;
  atoi = digit;
  reads = every_file;
  writes = every_file;
  fork = no_failure;
  child = λ n. no_failure;
  end = λ n. exited 0;
}

ls_to_wc : IsPipeline world 0 ls (wc ∷ [])
ls_to_wc = record {
  head = (words_ne_nil (codes "ls") [], (unfold str_eq in (refl, tt)));
  others = ((words_ne_nil (codes "wc") [], (unfold str_eq in (refl, tt))), tt);
  fits = unfold copies_fit in refl;
  no_input = unfold str_eq in (refl, (refl, (refl, tt)));
  no_output = unfold str_eq in (refl, (refl, (refl, tt)));
  forks = no_failure_lem 0;
  calls = no_failure_lem;
}

pieces-IsTyped : IsTyped (spaces ++ line_of pieces)
pieces-IsTyped = record {
  body = codes " ls  | wc";
  is_line = refl;
  one_line = (
    (λ e. cc),
    (
      (λ e. cc),
      ((λ e. cc), ((λ e. cc), ((λ e. cc), ((λ e. cc), ((λ e. cc), ((λ e. cc), ((λ e. cc), tt))))))),
    ),
  );
  short = omega arith;
}

-- The pipeline, and `quit` behind it.
main_loop-connected_example :
    main_loop world 0 (typed_lines ((spaces ++ line_of pieces) ++ codes "quit\n"))
    ≡ (starts (executes none none (connected false ls (wc ∷ []))) ∷ waits none ∷ [])
      ++ main_loop world 1 (typed_lines (codes "quit\n"))
unfolding is_background str_eq report
main_loop-connected_example =
    main_loop-connected world 0 ls (wc ∷ []) spaces pieces (codes "quit\n") ls_to_wc pieces-IsTyped
      (refl, tt)
      (
        (
          (not_nil b'l' (codes "s"), (refl, (refl, tt))),
          (refl, (refl, tt)),
          not_nil b' ' (codes " "),
        ),
        (
          ((not_nil b'|' [], (refl, tt)), (refl, tt), not_nil b' ' []),
          (((not_nil b'w' (codes "c"), (refl, (refl, tt))), (refl, tt), not_nil b'\n' []), tt),
        ),
      )
      refl (unfold is_builtin str_eq in refl)
