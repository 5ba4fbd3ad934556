-- ===== src/Tests/Conversion.antt =====
-- A dictionary of two entries through convert.c and lookup1.c.
use sp_hw.Base.{ℕ, ◌≡◌, ◌≢◌, refl, List, [], ◌∷◌, some, All, Bytes, codes, replicate, str_eq, arith}
use sp_hw.Dict.Record.{Dictrec}
use sp_hw.Dict.Asking.{with_text, without}
use sp_hw.Dict.Asking.Endless.{running, rounds}
use sp_hw.Dict.Asking.Rounds.{entry_line, rounds-convert}
use sp_hw.Dict.Sequential.{Arrays, is_blank, fill, make_record, convert}
use sp_hw.Dict.Sequential.Entries.{IsPlain, IsEntry, source}

abbrev entries : List Dictrec
entries =
    record { word = codes "a"; text = codes "x" }
    ∷ record { word = codes "b"; text = codes "y" }
    ∷ []

single-IsPlain : (c : ℕ) → c ≢ 0 → c ≢ 10 → IsPlain (c ∷ [])
single-IsPlain c h k = ((λ e. cc), ((h, k), tt))

short-IsEntry :
    (c d : ℕ) → c ≢ 0 → c ≢ 10 → d ≢ 0 → d ≢ 10 → IsEntry (record { word = c ∷ []; text = d ∷ [] })
short-IsEntry c d h k h' k' = record {
  word_plain = single-IsPlain c h k;
  text_plain = single-IsPlain d h' k';
  word_fits = omega arith;
  text_fits = omega arith;
}

entries-IsEntry : All IsEntry entries
entries-IsEntry = (
  short-IsEntry 97 120 (λ e. cc) (λ e. cc) (λ e. cc) (λ e. cc),
  (short-IsEntry 98 121 (λ e. cc) (λ e. cc) (λ e. cc) (λ e. cc), tt),
)

-- The definition of a word ends with its first line, and the next one is taken for a word.
two_lines :
    convert (codes "a\n" ∷ codes "x\n" ∷ codes "y\n" ∷ codes "\n" ∷ [])
    ≡ convert (codes "a\n" ∷ codes "x\n" ∷ [])
unfolding convert is_blank make_record fill
two_lines = refl

abbrev long_word : Bytes
long_word = replicate 40 97

rounds-convert_example :
    (file : List Arrays) × (convert (source entries) ≡ some file)
    × (rounds 4 file record { word = []; text = [] } (codes "b" ∷ codes "c" ∷ [])
        ≡ running (
            with_text (codes "b") (codes "y")
            ∷ without (codes "c")
            ∷ without (codes "c")
            ∷ without (codes "c")
            ∷ []))
unfolding entry_line str_eq
rounds-convert_example =
    rounds-convert entries 2 (codes "b") [] (codes "c" ∷ []) entries-IsEntry
      (omega arith, (omega arith, tt))
