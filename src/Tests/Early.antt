-- ===== src/Tests/Early.antt =====
-- A line with an ampersand in the shell of SP_HW3.
use sp_hw.Base.{
  ◌++◌, ◌≡◌, refl, ap, true, some, List, [], ◌∷◌, All, arith, length, Bytes, codes, pos,
}
use sp_hw.Tokens.Words.{line_of}
use sp_hw.Shell.Parse.Words.{IsPiece}
use sp_hw.Shell.Input.{lines_from, typed_lines, IsTyped}
use sp_hw.Shell.Early.{Setting, exited, unknown, started, reported, left, main_loop_hw3}
use sp_hw.Shell.Early.Started.{main_loop_hw3-started}

-- A shell whose `stat` holds nothing that the macros know.
abbrev setting : Setting
setting = record {
  atoi = λ s. pos 0;
  fork = λ n. true;
  end = λ n. some (exited 0);
  junk = λ n. unknown;
}

abbrev sleeping : List (Bytes × Bytes)
sleeping = (codes "ls", codes " ") ∷ (codes "&", codes " ") ∷ (codes "-l", codes "\n") ∷ []

sleeping-IsPiece : All IsPiece sleeping
sleeping-IsPiece = (
  (
    ((λ e. absurd (omega (arith, ap length e))), (refl, (refl, tt))),
    (refl, tt),
    (λ e. absurd (omega (arith, ap length e))),
  ),
  (
    (
      ((λ e. absurd (omega (arith, ap length e))), (refl, tt)),
      (refl, tt),
      (λ e. absurd (omega (arith, ap length e))),
    ),
    (
      (
        ((λ e. absurd (omega (arith, ap length e))), (refl, (refl, tt))),
        (refl, tt),
        (λ e. absurd (omega (arith, ap length e))),
      ),
      tt,
    ),
  ),
)

sleeping-IsTyped : IsTyped (line_of sleeping)
sleeping-IsTyped = record {
  body = codes "ls & -l";
  is_line = refl;
  one_line =
      ((λ e. cc), ((λ e. cc), ((λ e. cc), ((λ e. cc), ((λ e. cc), ((λ e. cc), ((λ e. cc), tt)))))));
  short = omega arith;
}

main_loop_hw3-started_example :
    main_loop_hw3 setting 0 (typed_lines (line_of sleeping ++ []))
    ≡ started (codes "ls" ∷ []) ∷ reported unknown ∷ left 0 ∷ []
unfolding main_loop_hw3 lines_from
main_loop_hw3-started_example =
    main_loop_hw3-started setting 0 [] sleeping [] (codes "ls" ∷ []) (some (codes "-l" ∷ []))
      (exited 0) sleeping-IsTyped tt sleeping-IsPiece refl
      (λ e. absurd (omega (arith, ap length e))) ((λ e. absurd (omega (arith, ap length e))), tt)
      refl refl refl
