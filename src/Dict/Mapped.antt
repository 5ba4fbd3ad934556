-- ===== src/Dict/Mapped.antt =====
-- SP_HW/SP_HW11/part1/lookup5.c: binary search in a file of records that is mapped into memory.
pub mod Order
pub mod Search
use sp_hw.Base.{
  ℕ, zero, suc, ◌+◌, ◌-◌, ◌*◌, ◌/◌, ◌^◌, Bool, true, false, ◌&&◌, ◌||◌, not, List, [], ◌∷◌, Option,
  none, some, if◌then◌else◌, ltb, leb, ◌==◌, length, get_or, take, drop, Bytes, Sign, less, equal,
  greater, strcmp,
}
use sp_hw.Dict.Record.{dictrec_size, text_size, Dictrec, blank, Status, found, not_found, decode}

-- The records of the mapping.
unfoldable pub records : ℕ → Bytes → List Dictrec
unfolding decode
records zero file = []
records (suc n) file = decode file ∷ records n (drop dictrec_size file)

-- `strcmp` of a word with the word of a record
unfoldable pub dict_cmp : Bytes → Dictrec → Sign
unfolding strcmp
dict_cmp a b = strcmp a b.word

-- The outcome of a search. A fault is undefined behaviour: an `int` that overflows, or a record
-- outside the table.
pub data Probe : Type 0 where
  hit : Dictrec → Probe
  miss : Probe
  fault : Probe

abbrev pub int_limit : ℕ
int_limit = 2 ^ 31

abbrev pub on_sign {ℓ} : {A : Type ℓ} → Sign → A → A → A → A
on_sign less a b c = a
on_sign equal a b c = b
on_sign greater a b c = c

-- The loop, without the variable `offset`, which is not read, and with the rounds left until `cnt == 100`.
unfoldable pub search : ℕ → List Dictrec → Dictrec → ℕ → ℕ → Probe
unfolding dict_cmp
search zero table sought start end = miss
search (suc rounds) table sought start end =
    let mid = (end + start) / 2 in
    let result = dict_cmp (get_or table mid blank).word sought in
    let rest =
      search rounds table sought (on_sign result mid start start) (on_sign result end end mid) in
    if start == end
    then miss
    else if leb int_limit (end + start) || leb (length table) mid
    then fault
    else on_sign result rest (hit (get_or table mid blank)) rest

-- The static variables: the table, once the first call has mapped the file.
abbrev pub Handle : Type 0
Handle = Option (List Dictrec)

-- What the first call meets: the contents of the file, unless it cannot be opened, and whether it
-- can be mapped.
pub record Disk : Type 0 where
  pub file : Option Bytes
  pub maps : Bool

-- The first call. A mapping of no bytes is refused.
unfoldable pub open_table : Disk → Option (List Dictrec)
unfolding records
open_table disk = elim disk.file [
  | none ↦ none
  | some file ↦
      let numrec = length file / dictrec_size in
      if numrec == 0 || not disk.maps then none else some (records numrec file)
]

pub data Answer : Type 0 where
  exits : Answer
  returns : Status → Dictrec → Handle → Answer
  crashes : Answer

-- `strcpy` of the text that was found, which may run on behind the array of its record, into an array of the
-- same size.
unfoldable pub answer : Dictrec → List Dictrec → Probe → Answer
answer sought table (hit r) =
    if ltb (length r.text) text_size
    then returns found (record sought { text = r.text }) (some table)
    else crashes
answer sought table miss = returns not_found sought (some table)
answer sought table fault = crashes

unfoldable pub lookup_in : Dictrec → List Dictrec → Answer
unfolding search answer
lookup_in sought table = answer sought table (search 100 table sought 0 (length table))

unfoldable pub first_lookup : Option (List Dictrec) → Dictrec → Answer
first_lookup none sought = exits
first_lookup (some table) sought = lookup_in sought table

unfoldable pub lookup : Disk → Handle → Dictrec → Answer
unfolding open_table lookup_in first_lookup
lookup disk (some table) sought = lookup_in sought table
lookup disk none sought = first_lookup (open_table disk) sought
