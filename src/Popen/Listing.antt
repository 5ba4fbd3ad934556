-- ===== src/Popen/Listing.antt =====
-- SP_HW/SP_HW5/part1/pipe_ls.c: a child that becomes `ls` with its stdout at a pipe, and the parent that prints
-- what comes through it.
pub mod Printed
use sp_hw.Base.{
  ℕ, Bool, true, false, not, List, [], Option, none, some, if◌then◌else◌, update, Bytes, Calls,
}
use sp_hw.Popen.{File, read_end, write_end, other, Table, is_open, Pipe, after_pipe, closed}
use sp_hw.Pour.{pipe_ls_loop}

-- The child: it runs `ls` with these descriptors, or exits because `dup` did not return 1.
pub data LsChild : Type 0 where
  runs_ls : Table → LsChild
  gives_up : LsChild

-- Behind `close(STDOUT_FILENO)`: `dup` takes the lowest descriptor that is not open, 0 or 1, and fails for a
-- descriptor that is not open itself.
unfoldable pub redirected : Pipe → Table → LsChild
unfolding closed
redirected p t =
    if not (is_open (t p.write_fd))
    then gives_up
    else if not (is_open (t 0))
    then gives_up
    else runs_ls (closed p.read_fd (update 1 (t p.write_fd) t))

unfoldable pub ls_child : Pipe → Table → LsChild
unfolding redirected
ls_child p t = redirected p (closed 1 t)

-- What comes through the pipe of what `ls` writes to its stdout.
abbrev pub at_pipe : Option File → List Bytes → List Bytes
at_pipe (some write_end) blocks = blocks
at_pipe (some read_end) blocks = []
at_pipe (some (other n)) blocks = []
at_pipe none blocks = []

-- Nothing comes from a child that has not become `ls`.
unfoldable pub sent : Bool → List Bytes → LsChild → List Bytes
sent execs blocks gives_up = []
sent execs blocks (runs_ls t) = if execs then at_pipe (t 1) blocks else []

-- Whether `pipe`, `fork`, `execlp`, the reads of the parent and `waitpid` succeed.
pub record LsCalls : Type 0 where
  pub pipes : Bool
  pub forks : Bool
  pub execs : Bool
  pub reads : Bool
  pub waits : Bool

-- The program, with its descriptors, the pipe and what `ls` writes. The parent has closed its end for writing, so
-- that its reads come to an end with the child.
unfoldable pub pipe_ls : LsCalls → Calls → Table → Pipe → List Bytes → Bytes × Bool
unfolding ls_child sent pipe_ls_loop
pipe_ls io writes t p blocks =
    if not io.pipes
    then ([], false)
    else if not io.forks
    then ([], false)
    else pipe_ls_loop writes 0 (sent io.execs blocks (ls_child p (after_pipe p t))) io.reads
        io.waits []
