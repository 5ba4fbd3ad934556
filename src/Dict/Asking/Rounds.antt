-- ===== src/Dict/Asking/Rounds.antt =====
-- What main.c of SP_HW/SP_HW5/part3 prints, and that it never ends.
use sp_hw.Base.{
  ℕ, zero, suc, ◌+◌, ◌<◌, ◌≡◌, refl, ap, ◌∙◌, subst, inl, inr, false, List, [], ◌∷◌, ◌++◌, map,
  replicate, some, leb, length, All, Bytes, Bool-cases, str_eq, arith,
}
use sp_hw.Dict.Record.{word_size, Dictrec, Status, found}
use sp_hw.Dict.Sequential.{Arrays, convert, lookup1}
use sp_hw.Dict.Sequential.Entries.{IsEntry, source, first_entry, lookup1-convert}
use sp_hw.Dict.Asking.{Line, with_text, without}
use sp_hw.Dict.Asking.Endless.{Progress, running, saying, typed, behind, on_status, rounds}

abbrev pub status_line : Status × Dictrec → Line
status_line (found, r) = with_text r.word r.text
status_line (_, r) = without r.word

-- The line for a word: the text of the first entry that has it, or that there is none.
unfoldable pub entry_line : List Dictrec → Bytes → Line
entry_line es w = status_line (first_entry es record { word = w; text = [] })

abbrev pub last_word : Bytes → List Bytes → Bytes
last_word w [] = w
last_word w (x ∷ words) = last_word x words

abbrev IsShort : Bytes → Type 0
IsShort w = length w < word_size

on_entry :
    (es : List Dictrec) (w text : Bytes) (next : Dictrec → Progress)
    → (t : Bytes) × (on_status (some (first_entry es record { word = w; text = text })) next
        ≡ saying (entry_line es w) (next record { word = w; text = t }))
unfolding on_status entry_line
on_entry [] w text next = (text, refl)
on_entry (e ∷ es) w text next = elim (Bool-cases (str_eq e.word w)) [
  | inl same ↦ (e.text, rw same refl)
  | inr other ↦ let (t, h) = on_entry es w text next in (t, rw other h)
]

module _ (es : List Dictrec) (file : List Arrays)
    (finds : (sought : Dictrec) → lookup1 file sought ≡ some (first_entry es sought)) where
  short_test : (w : Bytes) → IsShort w → leb word_size (length w) ≡ false
  short_test w h = ground arith

  -- One round, for the word that it looks up.
  one_round :
      (n : ℕ) (w text : Bytes) (tryit : Dictrec) (words : List Bytes)
      → typed tryit words ≡ record { word = w; text = text }
      → IsShort w
      → (t : Bytes) × (rounds (suc n) file tryit words
          ≡ saying (entry_line es w) (rounds n file record { word = w; text = t } (behind words)))
  unfolding rounds
  one_round n w text tryit words e h =
      let (t, k) = on_entry es w text (λ r. rounds n file r (behind words)) in
      (t, rw (e, short_test w h, finds record { word = w; text = text }) k)

  -- Behind the end of the input.
  rounds-replicate :
      (n : ℕ) (w text : Bytes)
      → IsShort w
      → rounds n file record { word = w; text = text } [] ≡ running (replicate n (entry_line es w))
  unfolding rounds saying
  rounds-replicate zero w text h = refl
  rounds-replicate (suc n) w text h =
      let (t, e) =
        one_round n w text record { word = w; text = text } [] (unfold typed in refl) h in
      e ∙ ap (saying (entry_line es w)) (rounds-replicate n w t h)

  rounds-lines :
      (m n : ℕ) (w text : Bytes) (words : List Bytes)
      → m ≡ length words + n
      → IsShort w
      → All IsShort words
      → rounds m file record { word = w; text = text } words
        ≡ running (map (entry_line es) words ++ replicate n (entry_line es (last_word w words)))
  unfolding saying
  rounds-lines m n w text [] e s h =
      subst
        (λ k.
          rounds m file record { word = w; text = text } []
          ≡ running (replicate k (entry_line es w)))
        (omega (arith, e)) (rounds-replicate m w text s)
  rounds-lines zero n w text (x ∷ words) e s h = absurd (omega (arith, e))
  rounds-lines (suc m) n w text (x ∷ words) e s h =
      let (t, k) =
        one_round m x text record { word = w; text = text } (x ∷ words) (unfold typed in refl)
          (h.0) in
      k ∙ ap (saying (entry_line es x)) (rounds-lines m n x t words (omega (arith, e)) (h.0) (h.1))

-- Over the file that convert.c makes of a dictionary, the words that are typed are answered in order, by the
-- first entry with the word. Behind the end of the input the program does not end: in every further round
-- it answers the last word again.
pub rounds-convert :
    (es : List Dictrec) (n : ℕ) (w junk : Bytes) (words : List Bytes)
    → All IsEntry es
    → All (λ x. length x < word_size) (w ∷ words)
    → (file : List Arrays) × (convert (source es) ≡ some file)
      × (rounds (suc (length words + n)) file record { word = junk; text = junk } (w ∷ words)
          ≡ running
              (map (entry_line es) (w ∷ words) ++ replicate n (entry_line es (last_word w words))))
unfolding saying
rounds-convert es n w junk words h s =
    let (file, made, finds) = lookup1-convert es h in
    let (t, k) =
      one_round es file finds (length words + n) w junk record { word = junk; text = junk }
        (w ∷ words) (unfold typed in refl) (s.0) in
    (
      file,
      made,
      k
          ∙ ap (saying (entry_line es w))
              (rounds-lines es file finds (length words + n) n w t words refl (s.0) (s.1)),
    )
