-- ===== src/Remote.antt =====
-- SP_quiz/quiz_1/myrpc.c: a commander that reads commands and a child for each of them, over a pipe. The
-- calls other than `pipe` are taken to succeed.
pub mod Commands
use sp_hw.Base.{
  ℕ, zero, suc, ◌-◌, Bool, true, ◌&&◌, not, List, [], ◌∷◌, ◌++◌, if◌then◌else◌, ltb, ◌==◌, length,
  take, drop, Bytes, cstr,
}
use sp_hw.Tokens.{tokens}

-- What becomes of a child: it calls `execvpe` with the words, or writes behind one of its arrays.
pub data Started : Type 0 where
  executes : List Bytes → Started
  overruns : Started

abbrev pub is_space : ℕ → Bool
is_space c = c == b' '

-- The sizes of `buf`, of `cmdToken` and of each string in it.
abbrev pub buf_size : ℕ
buf_size = 128

abbrev pub max_entries : ℕ
max_entries = 10

abbrev pub entry_size : ℕ
entry_size = 20

-- Each word fits its memory with the NUL, and all with the NULL behind them fit the vector.
abbrev pub all_short : List Bytes → Bool
all_short [] = true
all_short (w ∷ words) = ltb (length w) entry_size && all_short words

abbrev pub words_fit : List Bytes → Bool
words_fit words = ltb (length words) max_entries && all_short words

abbrev pub copied : List Bytes → Started
copied words = if words_fit words then executes words else overruns

-- The string of `buf` without its last byte, and its words.
unfoldable pub on_string : Bytes → Started
unfolding tokens
on_string [] = overruns
on_string (c ∷ s) =
    let command = take (length s) (c ∷ s) in copied (tokens is_space (suc (length command)) command)

-- The child, with what `buf` holds before the `read` and what that brings. The string ends at the first
-- NUL, which the commander does not send.
unfoldable pub child : Bytes → Bytes → Started
unfolding on_string cstr
child before sent =
    let buf = sent ++ drop (length sent) before in
    if ltb (length (cstr buf)) (length buf) then on_string (cstr buf) else overruns

-- The loop of the commander, with the descriptors that are free, `theCmd`, and what the calls of `fgets`
-- bring before the end of the input. `pipe` takes two descriptors, and one of them is not closed. At the end of
-- the input `theCmd` stays as it is.
unfoldable pub commander : Bytes → ℕ → Bytes → List Bytes → List Started
unfolding child
commander before zero cmd lines = []
commander before (suc zero) cmd lines = []
commander before (suc (suc free)) cmd [] = child before cmd ∷ commander before (suc free) cmd []
commander before (suc (suc free)) cmd (typed ∷ lines) =
    child before typed ∷ commander before (suc free) typed lines
