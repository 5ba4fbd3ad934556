-- ===== src/Dict/Asking/Answers.antt =====
-- What main.c prints over a sorted dictionary.
use sp_hw.Base.{
  ltb-true, ◌<◌, ◌≡◌, refl, ap, inr, false, List, [], ◌∷◌, some, leb, length, map, All, Bytes,
  arith,
}
use sp_hw.Dict.Record.{word_size, text_size, Dictrec}
use sp_hw.Dict.Mapped.{Disk, Handle, Probe, hit, miss, fault, answer}
use sp_hw.Dict.Mapped.Order.{linear}
use sp_hw.Dict.Dialogue.Replies.{HasTable, Copies, linear-Copies, Fits, lookup-linear}
use sp_hw.Dict.Asking.{Line, with_text, without, Session, ended, says, on_answer, ask}

abbrev pub probe_line : Bytes → Probe → Line
probe_line w (hit r) = with_text w r.text
probe_line w miss = without w
probe_line w fault = without w

-- The line for a word, by a search from the start of the table.
unfoldable pub line_from : List Dictrec → Bytes → Line
line_from table w = probe_line w (linear table record { word = w; text = [] })

linear-text :
    (table : List Dictrec) (w text : Bytes)
    → linear table record { word = w; text = text } ≡ linear table record { word = w; text = [] }
unfolding linear
linear-text [] w text = refl
linear-text (r ∷ table) w text = rw (linear-text table w text) refl

on_answer-probe_line :
    (w text : Bytes) (table : List Dictrec) (p : Probe) (next : Handle → Bytes → Session)
    (lines : List Line)
    → Copies p
    → ((t : Bytes) → next (some table) t ≡ ended lines)
    → on_answer (answer record { word = w; text = text } table p) next
      ≡ ended (probe_line w p ∷ lines)
unfolding on_answer answer says
on_answer-probe_line w text table (hit r) next lines n h =
    rw (ltb-true (length r.text) text_size n) (ap (says (with_text w r.text)) (h r.text))
on_answer-probe_line w text table miss next lines n h = ap (says (without w)) (h text)
on_answer-probe_line w text table fault next lines n h = absurd n

module _ (disk : Disk) (table : List Dictrec) (has : HasTable disk table) where
  -- Over a file that opens and holds a sorted table of at most 2 ^ 30 records, whose texts end in their
  -- arrays, words that fit their array are answered in order, each with the text of its record in the table or as not found, until the
  -- input ends.
  pub ask-line_from :
      (handle : Handle) (text : Bytes) (words : List Bytes)
      → Fits table handle
      → All (λ w. length w < word_size) words
      → ask disk handle text words ≡ ended (map (line_from table) words)
  unfolding ask line_from
  ask-line_from handle text [] fits h = refl
  ask-line_from handle text (w ∷ words) fits h =
      rw
        (
          short w (h.0),
          lookup-linear disk table has handle record { word = w; text = text } fits,
          linear-text table w text,
        )
        (on_answer-probe_line w text table (linear table record { word = w; text = [] })
          (λ handle t. ask disk handle t words) (map (line_from table) words)
          (linear-Copies table record { word = w; text = [] } has.texts)
          (λ t. ask-line_from (some table) t words (inr refl) (h.1)))
    where
      short : (w : Bytes) → length w < word_size → leb word_size (length w) ≡ false
      short w l = ground arith
