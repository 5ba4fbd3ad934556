-- ===== src/Shell/Parse.antt =====
-- parse.c of the two shells. A line is a C string, given by its bytes; memory is taken to suffice.
pub mod Words
use sp_hw.Base.{
  ℕ, zero, suc, Bool, true, false, ◌||◌, not, List, [], ◌∷◌, Option, none, some, if◌then◌else◌,
  ◌==◌, length, Bytes, codes, str_eq,
}
use sp_hw.Tokens.{strtok, tokens}

-- The bytes of `delim`: a space, a tab or a newline.
abbrev pub is_delim : ℕ → Bool
is_delim c = c == b' ' || c == b'\t' || c == b'\n'

abbrev pub argv_of : List Bytes → Option (List Bytes)
argv_of [] = none
argv_of (t ∷ ts) = some (t ∷ ts)

-- `parse` of SP_HW3: the words of the line, or NULL if it has none. Each round takes a byte or more.
unfoldable pub parse_hw3 : Bytes → Option (List Bytes)
unfolding tokens strtok
parse_hw3 line = argv_of (tokens is_delim (suc (length line)) line)

-- `parse` of SP_HW5, which tests for a bare newline first.
unfoldable pub parse : Bytes → Option (List Bytes)
unfolding tokens strtok
parse line =
    let words = argv_of (tokens is_delim (suc (length line)) line) in
    if str_eq line (codes "\n") then none else words
