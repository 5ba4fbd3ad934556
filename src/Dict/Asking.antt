-- ===== src/Dict/Asking.antt =====
-- SP_HW/SP_HW11/part1/main.c, with the lookup of lookup5.c: it asks for words and prints their texts.
pub mod Answers
pub mod Endless
pub mod Rounds
use sp_hw.Base.{
  ℕ, zero, suc, Bool, true, false, List, [], ◌∷◌, Option, none, some, if◌then◌else◌, leb, length,
  Bytes,
}
use sp_hw.Dict.Record.{word_size, Dictrec, Status, found, not_found, unavail}
use sp_hw.Dict.Mapped.{Disk, Handle, Answer, exits, returns, crashes, lookup}

-- A line that is printed.
pub data Line : Type 0 where
  with_text : Bytes → Bytes → Line
  without : Bytes → Line

-- How it ends, with what is printed: at the end of the input, with an exit, or with a write behind an array or
-- a fault of the lookup.
pub data Session : Type 0 where
  ended exited undefined : List Line → Session

unfoldable pub says : Line → Session → Session
says line (ended lines) = ended (line ∷ lines)
says line (exited lines) = exited (line ∷ lines)
says line (undefined lines) = undefined (line ∷ lines)

-- The `switch`, with what the loop does next.
unfoldable pub on_answer : Answer → (Handle → Bytes → Session) → Session
unfolding says
on_answer exits next = exited []
on_answer crashes next = undefined []
on_answer (returns found r handle) next = says (with_text r.word r.text) (next handle r.text)
on_answer (returns not_found r handle) next = says (without r.word) (next handle r.text)
on_answer (returns unavail r handle) next = exited []

-- The loop over the words that `gets` brings, which does not know how long the array is. `tryit` keeps its
-- text.
unfoldable pub ask : Disk → Handle → Bytes → List Bytes → Session
unfolding on_answer lookup
ask disk handle text [] = ended []
ask disk handle text (w ∷ words) =
    if leb word_size (length w)
    then undefined []
    else on_answer (lookup disk handle record { word = w; text = text }) (λ h t. ask disk h t words)
