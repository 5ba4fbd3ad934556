-- ===== src/Pour.antt =====
-- Programs that read blocks and write them on: SP_HW/SP_HW1/tee.c, and mycat.c and pipe_ls.c of
-- SP_HW/SP_HW5/part1. A write takes its whole block or fails.
pub mod Outputs
use sp_hw.Base.{
  ℕ, zero, suc, ◌+◌, Bool, true, false, ◌&&◌, ◌||◌, not, List, [], ◌∷◌, ◌++◌, Option, none, some,
  if◌then◌else◌, ltb, ◌==◌, get_elem?, get_or, length, Bytes, Calls, codes, str_eq,
}

-- What `read` brings: blocks of a byte or more, and behind them the end of the file or an error.
pub record Input : Type 0 where
  pub blocks : List Bytes
  pub ends : Bool

-- What a file held before the program, or nothing where there was none, and whether it opens.
pub record Disk : Type 0 where
  pub contents : Bytes → Bytes
  pub opens : Bytes → Bool

-- The file to which `tee` writes: with `-a` behind what it holds, and else from its start. With `-a`
-- alone `open` is given no path.
pub data Target : Type 0 where
  usage no_path : Target
  appends truncates : Bytes → Target

unfoldable pub append_target : Option Bytes → Target
append_target none = no_path
append_target (some path) = appends path

unfoldable pub target : List Bytes → Target
unfolding str_eq append_target
target argv =
    if ltb (length argv) 2 || ltb 3 (length argv) || str_eq (get_or argv 1 []) (codes "--help")
    then usage
    else if str_eq (get_or argv 1 []) (codes "-a")
    then append_target (get_elem? argv 2)
    else truncates (get_or argv 1 [])

-- What was written to the file and to stdout, and whether the program ends with EXIT_SUCCESS.
pub record Poured : Type 0 where
  pub file : Bytes
  pub stdout : Bytes
  pub success : Bool

unfoldable pub written_if : Bool → Bytes → Bytes → Bytes
written_if true block out = out ++ block
written_if false block out = out

-- The loop of `tee`: the writes of the k-th block, of which each may fail.
unfoldable pub tee_loop : Calls → Calls → ℕ → List Bytes → Bool → Bytes → Bytes → Poured
unfolding written_if
tee_loop to_file to_stdout k [] ends file stdout = record {
  file = file;
  stdout = stdout;
  success = ends;
}
tee_loop to_file to_stdout k (block ∷ blocks) ends file stdout =
    tee_loop to_file to_stdout (suc k) blocks ends (written_if (to_file k) block file)
      (written_if (to_stdout k) block stdout)

-- With the file it has opened, and what the file then holds.
unfoldable pub tee_into : Calls → Calls → Input → Bool → Bytes → Option Poured
unfolding tee_loop
tee_into to_file to_stdout input opened start =
    if opened then some (tee_loop to_file to_stdout 0 input.blocks input.ends start []) else none

unfoldable pub tee_target : Calls → Calls → Disk → Input → Target → Option Poured
unfolding tee_into
tee_target to_file to_stdout disk input usage = none
tee_target to_file to_stdout disk input no_path = none
tee_target to_file to_stdout disk input (appends path) =
    tee_into to_file to_stdout input (disk.opens path) (disk.contents path)
tee_target to_file to_stdout disk input (truncates path) =
    tee_into to_file to_stdout input (disk.opens path) []

-- `main` of tee.c: none where it ends before the loop.
unfoldable pub tee_main : Calls → Calls → Disk → Input → List Bytes → Option Poured
unfolding tee_target target
tee_main to_file to_stdout disk input argv = tee_target to_file to_stdout disk input (target argv)

-- The loop of `mycat`, which a failed write ends.
unfoldable pub mycat_loop : Calls → ℕ → List Bytes → Bool → Bytes → Bytes × Bool
mycat_loop writes k [] ends stdout = (stdout, ends)
mycat_loop writes k (block ∷ blocks) ends stdout =
    let rest = mycat_loop writes (suc k) blocks ends (stdout ++ block) in
    if not (writes k) then (stdout, false) else rest

unfoldable pub mycat_main : Calls → Disk → Input → List Bytes → Bytes × Bool
unfolding mycat_loop
mycat_main writes disk input argv =
    if not (length argv == 2)
    then ([], false)
    else if not (disk.opens (get_or argv 1 []))
    then ([], false)
    else mycat_loop writes 0 input.blocks input.ends []

-- The parent of `pipe_ls`, with what comes through the pipe, and whether `waitpid` succeeds.
unfoldable pub pipe_ls_loop : Calls → ℕ → List Bytes → Bool → Bool → Bytes → Bytes × Bool
pipe_ls_loop writes k [] ends waits stdout = (stdout, ends && waits)
pipe_ls_loop writes k (block ∷ blocks) ends waits stdout =
    let rest = pipe_ls_loop writes (suc k) blocks ends waits (stdout ++ block) in
    if not (writes k) then (stdout, false) else rest
