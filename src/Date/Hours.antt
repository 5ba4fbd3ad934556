-- ===== src/Date/Hours.antt =====
-- What mydate.c shows of a time.
use sp_hw.Base.{
  map, ltb-true, All, ap₂, Bool, ℕ, suc, ◌-◌, ◌%◌, ◌<◌, ◌≡◌, ap, ◌∙◌, Bool-cases, inl, inr, List,
  [], ◌∷◌, ◌++◌, some, length, length-append, take-append, ltb, leb, ℤ, pos, Bytes, codes, arith,
}
use sp_hw.Tokens.Words.{line_of, IsWord, IsPiece, tokens-last}
use sp_hw.Date.{
  is_delimiter, half_day, show_words, store_words, parse_and_print, Ending, prints, overruns,
  token_size, mydate_with, mydate,
}

-- A string of `ctime`: its words, and the gap in front of the day, which has one digit or two.
pub record Time : Type 0 where
  pub dayname : Bytes
  pub month : Bytes
  pub gap : Bytes
  pub day : Bytes
  pub hour : Bytes
  pub min : Bytes
  pub sec : Bytes
  pub year : Bytes

abbrev pub pieces_of : Time → List (Bytes × Bytes)
pieces_of t =
    (t.dayname, codes " ")
    ∷ (t.month, t.gap)
    ∷ (t.day, codes " ")
    ∷ (t.hour, codes ":")
    ∷ (t.min, codes ":")
    ∷ (t.sec, codes " ")
    ∷ []

abbrev pub ctime_string : Time → Bytes
ctime_string t = (line_of (pieces_of t) ++ t.year) ++ codes "\n"

-- What `ctime` writes of a time with this hour.
pub record IsTime (atoi : Bytes → ℤ) (h : ℕ) (t : Time) : Type 0 where
  pub pieces_are : All (IsPiece is_delimiter) (pieces_of t)
  pub year_is : IsWord is_delimiter t.year
  pub hour_is : atoi t.hour ≡ pos h
  pub in_day : h < 24

half_day-mod : (h : ℕ) → h < 24 → half_day (pos h) ≡ (pos (h % 12), leb 12 h)
unfolding half_day
half_day-mod h l = elim (Bool-cases (ltb h 12)) [
  | inl e ↦ rw e (ap₂ (λ x y. (x, y)) (ap pos (ground arith)) (ground arith))
  | inr e ↦ rw e (ap₂ (λ x y. (x, y)) (ap pos (ground arith)) (ground arith))
]

-- The line for an hour and a half of the day.
abbrev pub shown_with : Time → ℤ × Bool → Ending
shown_with t p = prints record {
  month = t.month;
  day = t.day;
  dayname = t.dayname;
  year = t.year;
  hr = p.0;
  min = t.min;
  is_pm = p.1;
}

parse_and_print-store_words :
    (size : ℕ) (atoi : Bytes → ℤ) (h : ℕ) (t : Time)
    → IsTime atoi h t
    → mydate_with size atoi (some (ctime_string t))
      ≡ store_words size atoi (map (λ (w, g). w) (pieces_of t) ++ t.year ∷ [])
unfolding mydate_with parse_and_print
parse_and_print-store_words size atoi h t i =
    let string = line_of (pieces_of t) ++ t.year in
    ap (parse_and_print size atoi) (
      take-append string (codes "\n") (length (string ++ codes "\n") - 1)
        (omega (arith, length-append string (codes "\n"))))
    ∙ ap (store_words size atoi) (
        tokens-last is_delimiter (pieces_of t) t.year (suc (length string)) i.pieces_are i.year_is
          (omega arith))

-- Whatever time `ctime` writes, the program writes behind its array. With one entry more, or any number more,
-- it would show the words of the time and the hour of the half of the day counted from 0, so that noon and
-- midnight would be the hour 0.
pub mydate-overruns :
    (atoi : Bytes → ℤ) (h size : ℕ) (t : Time)
    → IsTime atoi h t
    → token_size < size
    → (mydate atoi (some (ctime_string t)) ≡ overruns)
      × (mydate_with size atoi (some (ctime_string t)) ≡ shown_with t (pos (h % 12), leb 12 h))
unfolding mydate store_words show_words
mydate-overruns atoi h size t i more = (
  parse_and_print-store_words token_size atoi h t i,
  parse_and_print-store_words size atoi h t i
      ∙ rw (ltb-true 7 size more)
          (ap (shown_with t) (ap half_day i.hour_is ∙ half_day-mod h i.in_day)),
)
