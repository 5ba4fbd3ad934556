-- ===== src/Shell/Pipe.antt =====
-- pipe_present.c and pipe_command.c of SP_HW/SP_HW5/part2.
pub mod Stages
use sp_hw.Base.{
  ℕ, zero, suc, ◌+◌, Bool, true, false, ◌&&◌, ◌||◌, not, List, [], ◌∷◌, Option, none, some,
  if◌then◌else◌, ltb, leb, ◌==◌, length, take, drop, Bytes, Calls, codes, str_eq,
}
use sp_hw.Shell.Redirect.{index_of}

-- The result of `pipe_present`: 0, -1 or an index.
pub data PipeAt : Type 0 where
  no_pipe : PipeAt
  illegal : PipeAt
  pipe_at : ℕ → PipeAt

-- At the index of the first `|`: the test for its being the first or the last string.
unfoldable pub place : List Bytes → Option ℕ → PipeAt
place argv none = no_pipe
place argv (some i) = if i == 0 || length argv == suc i then illegal else pipe_at i

unfoldable pub pipe_present : List Bytes → PipeAt
unfolding place index_of
pipe_present argv = place argv (index_of (codes "|") argv)

-- A process that `pipe_and_exec` makes: whether its stdin and its stdout are pipes, and the program
-- that it turns into, if it comes to that.
pub data Fate : Type 0 where
  runs : List Bytes → Fate
  gives_up : Fate
  overruns : Fate

pub record Process : Type 0 where
  pub from_pipe : Bool
  pub to_pipe : Bool
  pub fate : Fate

abbrev pub process : Bool → Bool → Fate → Process
process i o f = record { from_pipe = i; to_pipe = o; fate = f }

-- The copies of the strings have 50 bytes each, and the two vectors have 20 slots. The right one is
-- written at the index of the string in the whole vector.
abbrev pub slots : ℕ
slots = 20

abbrev pub string_size : ℕ
string_size = 50

unfoldable pub strings_fit : List Bytes → Bool
strings_fit [] = true
strings_fit (s ∷ ss) = ltb (length s) string_size && strings_fit ss

unfoldable pub copies_fit : List Bytes → Bool
unfolding strings_fit
copies_fit argv = leb (length argv) slots && strings_fit argv

-- `pipe_and_exec`, with fuel for its recursion: the processes from left to right. At a pipe, the calls
-- are `pipe`, `fork`, and a `dup2` on either side.
unfoldable pub pipe_and_exec : ℕ → Calls → ℕ → Bool → List Bytes → List Process
pipe_and_exec zero io k input argv = []
pipe_and_exec (suc fuel) io k input argv = elim (pipe_present argv) [
  | illegal ↦ process input false gives_up ∷ []
  | no_pipe ↦ process input false (runs argv) ∷ []
  | pipe_at i ↦
      let right = pipe_and_exec fuel io (k + 4) true (drop (suc i) argv) in
      let left_fate = if io (k + 2) then runs (take i argv) else gives_up in
      let right_part = if io (k + 3) then right else process true false gives_up ∷ [] in
      if not (copies_fit argv)
      then process input false overruns ∷ []
      else if not (io k && io (k + 1))
      then process input false gives_up ∷ []
      else process input true left_fate ∷ right_part
]
