-- ===== src/Dict/Asking/Endless.antt =====
-- SP_HW/SP_HW5/part3/main.c, with the lookup of lookup1.c: it asks for words without an end.
use sp_hw.Base.{ℕ, zero, suc, List, [], ◌∷◌, Option, none, some, if◌then◌else◌, leb, length, Bytes}
use sp_hw.Dict.Record.{word_size, Dictrec, Status, found, not_found, unavail}
use sp_hw.Dict.Sequential.{Arrays, lookup1}
use sp_hw.Dict.Asking.{Line, with_text, without}

-- Behind some rounds, with what is printed: the loop goes on, the program is gone, or it has written behind an
-- array or met a fault of the lookup.
pub data Progress : Type 0 where
  running died undefined : List Line → Progress

unfoldable pub saying : Line → Progress → Progress
saying line (running lines) = running (line ∷ lines)
saying line (died lines) = died (line ∷ lines)
saying line (undefined lines) = undefined (line ∷ lines)

-- What `gets` brings. At the end of the input it leaves the word as it is, and main.c does not ask.
unfoldable pub typed : Dictrec → List Bytes → Dictrec
typed tryit [] = tryit
typed tryit (w ∷ words) = record tryit { word = w }

abbrev pub behind : List Bytes → List Bytes
behind [] = []
behind (w ∷ words) = words

-- The `switch`, with what the loop does next.
unfoldable pub on_status : Option (Status × Dictrec) → (Dictrec → Progress) → Progress
unfolding saying
on_status none next = undefined []
on_status (some (found, r)) next = saying (with_text r.word r.text) (next r)
on_status (some (not_found, r)) next = saying (without r.word) (next r)
on_status (some (unavail, r)) next = died []

-- So many rounds of the loop.
unfoldable pub rounds : ℕ → List Arrays → Dictrec → List Bytes → Progress
unfolding typed on_status lookup1
rounds zero file tryit words = running []
rounds (suc n) file tryit words =
    let sought = typed tryit words in
    if leb word_size (length sought.word)
    then undefined []
    else on_status (lookup1 file sought) (λ r. rounds n file r (behind words))
