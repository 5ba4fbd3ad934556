-- ===== src/Date.antt =====
-- SP_HW/SP_HW5/part1/mydate.c: the words of `ctime`, and the hour as it is shown. `atoi` is a parameter.
pub mod Hours
use sp_hw.Base.{
  ℕ, suc, ◌+◌, ◌-◌, Bool, true, false, ◌||◌, List, [], ◌∷◌, Option, none, some, if◌then◌else◌, ltb,
  ◌==◌, length, take, ℤ, pos, negsuc, Bytes,
}
use sp_hw.Tokens.{tokens}

-- The bytes of `delimiters`.
abbrev pub is_delimiter : ℕ → Bool
is_delimiter c = c == b' ' || c == b':'

-- What is printed, in the order of the `printf`, with `PM` or `AM` behind it.
pub record Shown : Type 0 where
  pub month : Bytes
  pub day : Bytes
  pub dayname : Bytes
  pub year : Bytes
  pub hr : ℤ
  pub min : Bytes
  pub is_pm : Bool

-- The hour behind the test, and the half of the day.
unfoldable pub half_day : ℤ → ℤ × Bool
half_day (negsuc n) = (negsuc n, false)
half_day (pos h) = if ltb h 12 then (pos h, false) else (pos (h - 12), true)

-- The end of the program: without a time, behind a write behind `token`, behind an entry without a word, or
-- with a line.
pub data Ending : Type 0 where
  fails overruns unread : Ending
  prints : Shown → Ending

-- The entries of `token`.
abbrev pub token_size : ℕ
token_size = 7

-- Behind the loop. With fewer than seven words there is an entry without a word.
unfoldable pub show_words : (Bytes → ℤ) → List Bytes → Ending
unfolding half_day
show_words atoi (dayname ∷ month ∷ day ∷ hr ∷ min ∷ sec ∷ year ∷ more) =
    let (hour, is_pm) = half_day (atoi hr) in
    prints record {
      month = month;
      day = day;
      dayname = dayname;
      year = year;
      hr = hour;
      min = min;
      is_pm = is_pm;
    }
show_words atoi _ = unread

-- The loop, with the entries that the array has: it stores the words, and a NULL behind them.
unfoldable pub store_words : ℕ → (Bytes → ℤ) → List Bytes → Ending
unfolding show_words
store_words size atoi words = if ltb (length words) size then show_words atoi words else overruns

unfoldable pub parse_and_print : ℕ → (Bytes → ℤ) → Bytes → Ending
unfolding store_words tokens
parse_and_print size atoi time_str =
    store_words size atoi (tokens is_delimiter (suc (length time_str)) time_str)

-- The program with an array of that many entries, and the string of `ctime`, none if that or `time` fails.
-- Its last byte is cut off.
unfoldable pub mydate_with : ℕ → (Bytes → ℤ) → Option Bytes → Ending
unfolding parse_and_print
mydate_with size atoi none = fails
mydate_with size atoi (some time_str) =
    parse_and_print size atoi (take (length time_str - 1) time_str)

unfoldable pub mydate : (Bytes → ℤ) → Option Bytes → Ending
unfolding mydate_with
mydate atoi time_str = mydate_with token_size atoi time_str
