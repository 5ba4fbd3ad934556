-- ===== src/Dict/Sequential.antt =====
-- SP_HW/SP_HW5/part3: convert.c makes a file of records from a text, and lookup1.c searches it from
-- the top. A file is the list of the lines or the records that the reads bring.
pub mod Entries
use sp_hw.Base.{
  ℕ, zero, suc, ◌+◌, ◌-◌, Bool, true, false, List, [], ◌∷◌, ◌++◌, Option, none, some, if◌then◌else◌,
  ltb, ◌==◌, ◌>>=◌, length, replicate, Bytes, cstr, str_eq,
}
use sp_hw.Dict.Record.{word_size, text_size, Dictrec, Status, found, not_found}

-- A record as bytes: its two arrays.
pub record Arrays : Type 0 where
  pub word_array : Bytes
  pub text_array : Bytes

abbrev pub newline : ℕ
newline = 10

-- `line[0] == '\n'`, for what `fgets` brings
unfoldable pub is_blank : Bytes → Bool
is_blank [] = false
is_blank (c ∷ line) = c == newline

-- `memset` with zeros, then `strcpy`. A string that the array cannot hold with its NUL overruns it:
-- `none`.
unfoldable pub fill : ℕ → Bytes → Option Bytes
fill size line =
    if ltb (length line) size then some (line ++ replicate (size - length line) 0) else none

-- The two `strcpy` and what is written.
unfoldable pub make_record : Bytes → Bytes → Option Arrays
make_record word text = do
  w ← fill word_size word
  t ← fill text_size text
  some (record { word_array = w; text_array = t })

-- The records written, from the lines still to be read. `none` is a `strcpy` that overruns.
unfoldable pub convert : List Bytes → Option (List Arrays)
convert [] = some []
convert (word ∷ []) = some []
convert (word ∷ text ∷ lines) = elim (is_blank word) [
  | true ↦ convert (text ∷ lines)
  | false ↦ elim (is_blank text) [
    | true ↦ convert lines
    | false ↦ do r ← make_record word text; rest ← convert lines; some (r ∷ rest)
  ]
]

-- A string without its last byte. The empty string has none: the source writes in front of the array.
unfoldable pub chop : Bytes → Option Bytes
chop [] = none
chop (c ∷ []) = some []
chop (c ∷ d ∷ s) = do rest ← chop (d ∷ s); some (c ∷ rest)

-- `strlen` of an array needs a NUL in it.
unfoldable pub terminated : ℕ → Bytes → Option Bytes
unfolding cstr
terminated size array = if ltb (length (cstr array)) size then some (cstr array) else none

-- The two strings of a record, each without its last byte.
unfoldable pub strings : Arrays → Option Dictrec
strings r = do
  w ← terminated word_size (r.word_array)
  word ← chop w
  t ← terminated text_size (r.text_array)
  text ← chop t
  some (record { word = word; text = text })

-- `lookup` of lookup1.c: the status, and `sought` behind the call.
unfoldable pub lookup1 : List Arrays → Dictrec → Option (Status × Dictrec)
unfolding str_eq
lookup1 [] sought = some (not_found, sought)
lookup1 (r ∷ file) sought =
    let rest = lookup1 file sought in
    do
      dr ← strings r
      if str_eq (dr.word) (sought.word)
          then some (found, record sought { text = dr.text })
          else rest
