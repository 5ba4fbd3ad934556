-- ===== src/Upper.antt =====
-- SP_HW/SP_HW6/44_1.c: a parent sends lines to its child through a pipe, and the child sends them back in
-- upper case.
pub mod Lines
pub mod Leftovers
use sp_hw.Base.{
  ℕ, zero, suc, ◌+◌, ◌-◌, Bool, true, false, ◌&&◌, List, [], ◌∷◌, ◌++◌, map, if◌then◌else◌, leb,
  length, take, drop, Bytes, codes, cstr, str_eq,
}

abbrev pub farewell : Bytes
farewell = codes "kill yourself\n"

-- A read puts its bytes at the start of the buffer, and leaves what stands behind them.
unfoldable pub overwrite : Bytes → Bytes → Bytes
overwrite bytes buf = bytes ++ drop (length bytes) buf

-- `strcmp(buf, "kill yourself\n") == 0`
unfoldable pub is_farewell : Bytes → Bool
unfolding cstr str_eq
is_farewell buf = str_eq (cstr buf) farewell

unfoldable pub to_upper : ℕ → ℕ
to_upper c = if leb c 122 && leb 97 c then c - 32 else c

-- The loop over the bytes read, in the buffer of the child.
unfoldable pub upper_first : ℕ → Bytes → Bytes
upper_first n buf = map to_upper (take n buf) ++ drop n buf

-- How it ends, with what the parent has printed: both exit, only the parent or only the child does,
-- or the parent waits for more input.
pub data Outcome : Type 0 where
  both_exit parent_exits child_exits at_input : List Bytes → Outcome

unfoldable pub after_tests : Bool → Bool → List Bytes → Outcome → Outcome
after_tests true true printed go_on = both_exit printed
after_tests true false printed go_on = parent_exits printed
after_tests false true printed go_on = child_exits printed
after_tests false false printed go_on = go_on

-- The two loops, with the buffers of the parent and of the child, and what was printed. The child writes
-- as many bytes as it has read.
unfoldable pub converse : Bytes → Bytes → List Bytes → List Bytes → Outcome
unfolding overwrite is_farewell upper_first after_tests
converse parent child printed [] = at_input printed
converse parent child printed (line ∷ lines) =
    let sent = overwrite line parent in
    let got = overwrite line child in
    let done = upper_first (length line) got in
    let reply = take (length line) done in
    let rest = converse (overwrite reply sent) done (printed ++ reply ∷ []) lines in
    after_tests (is_farewell sent) (is_farewell got) printed rest
