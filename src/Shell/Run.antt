-- ===== src/Shell/Run.antt =====
-- run_command.c and shell.c of SP_HW/SP_HW5/part2: what the shell does with the lines that it reads.
pub mod Lines
use sp_hw.Base.{
  ℕ, zero, suc, ◌+◌, Bool, true, false, ◌&&◌, ◌||◌, not, List, [], ◌∷◌, ◌++◌, Option, none, some,
  if◌then◌else◌, ltb, leb, ◌==◌, length, Calls, Bytes, codes, ℤ,
}
use sp_hw.Shell.Input.{lines_from, typed_lines}
use sp_hw.Shell.Parse.{parse}
use sp_hw.Shell.Builtin.{
  Effect, prints, complains, changes_directory, exits, crashes, Os, Builtin, is_builtin, do_builtin,
}
use sp_hw.Shell.Redirect.{Argv, args, is_background, Prepared, gives_up, ready, prepare}
use sp_hw.Shell.Redirect.Order.{vector}
use sp_hw.Shell.Pipe.{Process, pipe_and_exec}

-- How the shell hears of a child's end: its status, or the signal that killed it.
pub data Ended : Type 0 where
  exited : ℕ → Ended
  signaled : ℕ → Ended

-- The message behind `waitpid`: none for a status of 0.
unfoldable pub report : Ended → Option Ended
report (exited n) = if n == 0 then none else some (exited n)
report (signaled n) = some (signaled n)

-- What the shell runs in: the system calls of its built-in commands, the files that can be opened
-- for reading and for writing, whether each `fork` succeeds, and the calls and
-- the end of each child.
pub record World : Type 0 where
  pub os : Os
  pub atoi : Bytes → ℤ
  pub reads : Bytes → Bool
  pub writes : Bytes → Bool
  pub fork : ℕ → Bool
  pub child : ℕ → Calls
  pub end : ℕ → Ended

-- The child's part: a setup that gives up, or the files of its stdin and stdout and its processes.
pub data Child : Type 0 where
  aborts : Child
  executes : Option Bytes → Option Bytes → List Process → Child

unfoldable pub exec_child : Calls → Prepared → Child
unfolding args
exec_child calls gives_up = aborts
exec_child calls (ready input output argv) =
    executes input output (pipe_and_exec (suc (length (args argv))) calls 0 false (args argv))

-- What the shell does, in order.
pub data Action : Type 0 where
  builtin : Effect → Action
  starts : Child → Action
  waits : Option Ended → Action
  fork_fails : Action
  quits : ℕ → Action

-- `run_command`: the n-th fork. Without an `&` the shell waits for the child.
unfoldable pub run_command : World → ℕ → List Bytes → List Action
unfolding is_background prepare exec_child report
run_command w n argv =
    let child = exec_child (w.child n) (prepare w.reads w.writes (vector argv)) in
    if not (w.fork n)
    then fork_fails ∷ []
    else if is_background argv
    then starts child ∷ []
    else starts child ∷ waits (report (w.end n)) ∷ []

-- Whether the shell is gone after the actions.
abbrev effect_ends : Effect → Bool
effect_ends (exits n) = true
effect_ends crashes = true
effect_ends _ = false

unfoldable pub ends : List Action → Bool
ends [] = false
ends (builtin e ∷ actions) = effect_ends e || ends actions
ends (fork_fails ∷ actions) = true
ends (_ ∷ actions) = ends actions

abbrev pub first : List Bytes → Bytes
first [] = []
first (s ∷ ss) = s

unfoldable pub dispatch : World → ℕ → List Bytes → Option Builtin → List Action
unfolding do_builtin run_command
dispatch w n argv (some b) = builtin (do_builtin w.os w.atoi b argv) ∷ []
dispatch w n argv none = run_command w n argv

-- The body of the loop, for the words of a line.
unfoldable pub run_words : World → ℕ → Option (List Bytes) → List Action
unfolding is_builtin dispatch
run_words w n none = []
run_words w n (some argv) = dispatch w n argv (is_builtin (first argv))

unfoldable pub run_line : World → ℕ → Bytes → List Action
unfolding parse run_words
run_line w n line = run_words w n (parse line)

-- The loop of `main`: a line at a time, until a command ends the shell or the input ends. `n` numbers the lines.
unfoldable pub main_loop : World → ℕ → List Bytes → List Action
unfolding ends run_line
main_loop w n [] = quits 0 ∷ []
main_loop w n (line ∷ lines) =
    let actions = run_line w n line in
    let rest = main_loop w (suc n) lines in if ends actions then actions else actions ++ rest

-- `main`, on all that is typed.
unfoldable pub shell_main : World → Bytes → List Action
unfolding main_loop lines_from
shell_main w typed = main_loop w 0 (typed_lines typed)
