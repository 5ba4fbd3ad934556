-- ===== src/Tests/Small.antt =====
-- A time for mydate.c, and commands for myrpc.c.
use sp_hw.Base.{
  ℕ, ◌+◌, ◌-◌, ◌*◌, ◌≡◌, ◌≢◌, refl, true, [], ◌∷◌, ◌++◌, some, Bytes, codes, ℤ, pos, arith, map,
  replicate,
}
use sp_hw.Date.{mydate, mydate_with, overruns}
use sp_hw.Date.Hours.{Time, ctime_string, shown_with, IsTime, mydate-overruns}
use sp_hw.Remote.{executes, commander}
use sp_hw.Remote.Commands.{Command, typed_line, words_of, IsCommand, zeros, commander-repeats}

abbrev number_from : ℕ → Bytes → ℕ
number_from n [] = n
number_from n (c ∷ s) = number_from (n * 10 + (c - b'0')) s

-- `atoi` of a string of digits_value.
abbrev digits_value : Bytes → ℤ
digits_value s = pos (number_from 0 s)

abbrev noon : Time
noon = record {
  dayname = codes "Thu";
  month = codes "Nov";
  gap = codes "  ";
  day = codes "2";
  hour = codes "12";
  min = codes "30";
  sec = codes "00";
  year = codes "2023";
}

not_nil : (x : ℕ) (xs : Bytes) → x ∷ xs ≢ []
not_nil x xs e = cc

noon-IsTime : IsTime digits_value 12 noon
noon-IsTime = record {
  pieces_are = (
    ((not_nil b'T' (codes "hu"), (refl, (refl, (refl, tt)))), (refl, tt), not_nil b' ' []),
    (
      (
        (not_nil b'N' (codes "ov"), (refl, (refl, (refl, tt)))),
        (refl, (refl, tt)),
        not_nil b' ' (codes " "),
      ),
      (
        ((not_nil b'2' [], (refl, tt)), (refl, tt), not_nil b' ' []),
        (
          ((not_nil b'1' (codes "2"), (refl, (refl, tt))), (refl, tt), not_nil b':' []),
          (
            ((not_nil b'3' (codes "0"), (refl, (refl, tt))), (refl, tt), not_nil b':' []),
            (((not_nil b'0' (codes "0"), (refl, (refl, tt))), (refl, tt), not_nil b' ' []), tt),
          ),
        ),
      ),
    ),
  );
  year_is = (not_nil b'2' (codes "023"), (refl, (refl, (refl, (refl, tt)))));
  hour_is = refl;
  in_day = omega arith;
}

mydate-overruns_example :
    (mydate digits_value (some (ctime_string noon)) ≡ overruns)
    × (mydate_with 8 digits_value (some (ctime_string noon)) ≡ shown_with noon (pos 0, true))
mydate-overruns_example = mydate-overruns digits_value 12 8 noon noon-IsTime (omega arith)

abbrev ls : Command
ls = record { pieces = (codes "ls", codes " ") ∷ []; last = codes "-l" }

abbrev date : Command
date = record { pieces = []; last = codes "date" }

ls-IsCommand : IsCommand ls
ls-IsCommand = record {
  pieces_are = (((not_nil b'l' (codes "s"), (refl, (refl, tt))), (refl, tt), not_nil b' ' []), tt);
  last_is = (not_nil b'-' (codes "l"), (refl, (refl, tt)));
  no_nul = ((λ e. cc), ((λ e. cc), ((λ e. cc), ((λ e. cc), ((λ e. cc), ((λ e. cc), tt))))));
  short = omega arith;
  fit = refl;
}

date-IsCommand : IsCommand date
date-IsCommand = record {
  pieces_are = tt;
  last_is = (not_nil b'd' (codes "ate"), (refl, (refl, (refl, (refl, tt)))));
  no_nul = ((λ e. cc), ((λ e. cc), ((λ e. cc), ((λ e. cc), ((λ e. cc), tt)))));
  short = omega arith;
  fit = refl;
}

commander-repeats_example :
    commander zeros 5 [] (map typed_line (ls ∷ date ∷ []))
    ≡ map (λ d. executes (words_of d)) (ls ∷ date ∷ [])
      ++ replicate 2 (executes (codes "date" ∷ []))
commander-repeats_example =
    commander-repeats 2 [] ls (date ∷ []) (ls-IsCommand, (date-IsCommand, tt))
