-- ===== src/Tests/Dictionary.antt =====
-- Runs of the dictionary's search, servers and clients.
use sp_hw.Base.{
  String, ℕ, zero, suc, ◌≡◌, inl, refl, true, List, [], ◌∷◌, ◌++◌, some, none, replicate, Bytes,
  Calls, codes, str_eq, strcmp, arith,
}
use sp_hw.Dict.Asking.{ask, ended, with_text, without}
use sp_hw.Dict.Asking.Answers.{line_from, ask-line_from}
use sp_hw.Dict.Record.{Dictrec}
use sp_hw.Dict.Mapped.{Disk, search, open_table}
use sp_hw.Dict.Mapped.Order.{IsSorted, linear}
use sp_hw.Dict.Mapped.Search.{search-eq-linear}
use sp_hw.Dict.Dialogue.Replies.{HasTable}

abbrev padded : String → ℕ → Bytes
padded s n = codes s ++ replicate n 0

abbrev entry : String → String → Dictrec
entry w t = record { word = codes w; text = codes t }

-- A file of two records.
abbrev file : Bytes
file = padded "ant" 29 ++ (padded "small" 475 ++ (padded "bee" 29 ++ padded "busy" 476))

abbrev disk : Disk
disk = record { file = some file; maps = true }

abbrev table : List Dictrec
table = entry "ant" "small" ∷ entry "bee" "busy" ∷ []

abbrev no_failure : Calls
no_failure k = true

abbrev request : String → Dictrec
request w = record { word = codes w; text = [] }

sorted : IsSorted table
sorted i (suc (suc j)) lt inside = absurd (omega arith)
sorted i zero lt inside = absurd (omega arith)
sorted zero (suc zero) lt inside = unfold strcmp in refl
sorted (suc i) (suc zero) lt inside = absurd (omega arith)

opens : open_table disk ≡ some table
unfolding open_table
opens = refl

has_table : HasTable disk table
has_table = record {
  opens = opens;
  sorted = sorted;
  small = omega arith;
  texts = (omega arith, (omega arith, tt));
}

search-eq-linear_example : search 100 table (request "bee") 0 2 ≡ linear table (request "bee")
search-eq-linear_example = search-eq-linear table (request "bee") (omega arith) sorted

abbrev bee : Dictrec
bee = entry "bee" "busy"

ask-line_from_example :
    ask disk none [] (codes "bee" ∷ codes "cat" ∷ [])
    ≡ ended (with_text (codes "bee") (codes "busy") ∷ without (codes "cat") ∷ [])
unfolding line_from linear str_eq
ask-line_from_example =
    ask-line_from disk table has_table none [] (codes "bee" ∷ codes "cat" ∷ []) (inl refl)
      (omega arith, (omega arith, tt))
