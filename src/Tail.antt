-- ===== src/Tail.antt =====
-- SP_HW/SP_HW2/tail.c: the last lines of a file, found by reading it backwards in blocks.
pub mod Lines
pub mod Result
use sp_hw.Base.{
  ℕ, zero, suc, ◌+◌, ◌-◌, Bool, true, false, ◌&&◌, ◌||◌, not, List, [], ◌∷◌, ◌++◌, Option, none,
  some, if◌then◌else◌, ltb, leb, ◌==◌, length, get_elem?, get_or, take, drop, Bytes, codes, str_eq,
  ℤ, pos, Calls, negsuc,
}

-- BUF_SIZE
abbrev pub buf_size : ℕ
buf_size = 1024

-- `newlineCount == newlineNeeded + 1`
unfoldable pub reached : ℕ → ℤ → Bool
reached c (pos n) = c == n + 1
reached c (negsuc zero) = c == 0
reached c (negsuc (suc n)) = false

-- The inner loop, with `n = i + 1` bytes left: the new `newlineCount`, and `i` where the loop breaks.
unfoldable pub scan : ℕ → Bytes → ℤ → ℕ → ℕ × Option ℕ
scan zero buf needed count = (count, none)
scan (suc i) buf needed count =
    let count' = if get_or buf i 0 == b'\n' then count + 1 else count in
    let rest = scan i buf needed count' in if reached count' needed then (count', some i) else rest

pub data Seek : Type 0 where
  at : ℕ → ℕ → Seek
  failed : Seek
  overflow : Seek
  out_of_fuel : Seek

-- INT_MAX
abbrev pub int_max : ℕ
int_max = 2147483647

-- `newlineNeeded + 1` is no int.
unfoldable pub too_many : ℤ → Bool
too_many (pos n) = leb int_max n
too_many (negsuc n) = false

-- A scan of some bytes adds 1 to `newlineNeeded`, and counts newlines: whether either leaves the ints.
unfoldable pub overflows : ℕ → ℤ → ℕ × Option ℕ → Bool
unfolding too_many
overflows size needed (count, found) = (not (size == 0) && too_many needed) || ltb int_max count

-- What follows a block: stop at the line found, at the start of the file, or go on.
unfoldable pub after_block : Calls → ℕ → ℕ → ℕ × Option ℕ → (ℕ → Seek) → Seek
after_block io k position (count, some i) next =
    if io (k + 2) then at (position + (i + 1)) (k + 3) else failed
after_block io k position (count, none) next =
    if position == 0 then (if io (k + 2) then at position (k + 3) else failed) else next count

-- `while(1)`: the offset from which the file is printed, and the number of calls made. A round
-- makes an lseek and a read, and the last one an lseek more.
unfoldable pub seek : ℕ → Calls → ℕ → Bytes → ℤ → ℕ → ℕ → Seek
unfolding scan reached overflows after_block
seek zero io k file needed position count = out_of_fuel
seek (suc fuel) io k file needed position count =
    let size = if ltb position buf_size then position else buf_size in
    let start = position - size in
    let found = scan size (take size (drop start file)) needed count in
    let next = after_block io k start found (seek fuel io (k + 2) file needed start) in
    let result = if overflows size needed found then overflow else next in
    if io k then (if io (k + 1) then result else failed) else failed

-- The last loop: read blocks from the offset to the end of the file, and write them. `rest` is the
-- part of the file that is still unread; a call that fails ends the program, and the output so far
-- stays written.
unfoldable pub print_rest : ℕ → Calls → ℕ → Bytes → Bytes × Bool
print_rest zero io k rest = ([], false)
print_rest (suc fuel) io k [] = ([], io k)
print_rest (suc fuel) io k (b ∷ bs) =
    let (out, done) = print_rest fuel io (k + 2) (drop buf_size (b ∷ bs)) in
    if not (io k)
    then ([], false)
    else if not (io (k + 1))
    then ([], false)
    else (take buf_size (b ∷ bs) ++ out, done)

-- The output, whether the program exits with EXIT_SUCCESS, and whether an int has overflowed instead.
pub record Run : Type 0 where
  pub output : Bytes
  pub success : Bool
  pub overflowed : Bool

unfoldable pub print_from : Calls → Bytes → Seek → Run
unfolding print_rest
print_from io file (at position k) =
    let (out, done) = print_rest (suc (length file)) io k (drop position file) in
    record { output = out; success = done; overflowed = false }
print_from io file failed = record { output = []; success = false; overflowed = false }
print_from io file overflow = record { output = []; success = false; overflowed = true }
print_from io file out_of_fuel = record { output = []; success = false; overflowed = false }

-- From `open` on; the calls are numbered from it.
unfoldable pub tail : Calls → Bytes → ℤ → Run
unfolding seek print_from
tail io file needed =
    if io 0
    then (if io 1
        then print_from io file (seek (suc (length file)) io 2 file needed (length file) 0)
        else record { output = []; success = false; overflowed = false })
    else record { output = []; success = false; overflowed = false }

unfoldable pub open_and_tail : (Bytes → Option Bytes) → Calls → Bytes → ℤ → Run
unfolding tail
open_and_tail files io path needed = elim (files path) [
  | none ↦ record { output = []; success = false; overflowed = false }
  | some file ↦ tail io file needed
]

-- The command line. `atoi` and the files are given from outside; a path that cannot be opened has
-- no contents. With one argument the last 10 lines are wanted.
unfoldable pub tail_main : (Bytes → ℤ) → (Bytes → Option Bytes) → Calls → List Bytes → Run
unfolding open_and_tail
tail_main atoi files io argv =
    let argc = length argv in
    if (not (argc == 2) && not (argc == 4)) || str_eq (get_or argv 1 []) (codes "--help")
    then record { output = []; success = false; overflowed = false }
    else if argc == 2
    then open_and_tail files io (get_or argv 1 []) (pos 10)
    else open_and_tail files io (get_or argv 3 []) (atoi (get_or argv 2 []))
