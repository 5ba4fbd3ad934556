-- ===== src/Dict/Record.antt =====
-- dict.h: a record holds a word and its text, in two arrays of fixed length one behind the other,
-- and `lookup` answers with a status.
use sp_hw.Base.{Bytes, codes, cstr, drop, ℕ, []}

-- WORD, TEXT and sizeof(Dictrec)
abbrev pub word_size : ℕ
word_size = 32

abbrev pub text_size : ℕ
text_size = 480

abbrev pub dictrec_size : ℕ
dictrec_size = 512

-- The two strings of a record.
pub record Dictrec : Type 0 where
  pub word : Bytes
  pub text : Bytes

abbrev pub blank : Dictrec
blank = record { word = []; text = [] }

-- FOUND, NOTFOUND and UNAVAIL
pub data Status : Type 0 where
  found not_found unavail : Status

-- The record at the start of a piece of memory, as the string functions read it: a word that fills
-- its array runs on into the text.
unfoldable pub decode : Bytes → Dictrec
unfolding cstr
decode memory = record { word = cstr memory; text = cstr (drop word_size memory) }

-- The text of a server's reply for a word that it does not have.
abbrev pub missing : Bytes
missing = codes "XXXX"
