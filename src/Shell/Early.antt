-- ===== src/Shell/Early.antt =====
-- run_command.c, is_background.c and shell.c of SP_HW/SP_HW3: the first shell, without redirections and
-- pipelines.
pub mod Started
use sp_hw.Base.{
  ℕ, zero, suc, ◌+◌, Bool, true, false, ◌||◌, not, List, [], ◌∷◌, ◌++◌, Option, none, some,
  if◌then◌else◌, Calls, Bytes, codes, str_eq, ℤ,
}
use sp_hw.Shell.Input.{lines_from, typed_lines}
use sp_hw.Shell.Parse.{parse_hw3}
use sp_hw.Shell.Builtin.{
  Effect, prints, complains, exits, crashes, Builtin, bi_echo, bi_quit, do_bi_echo_hw3,
  is_builtin_hw3,
}

unfoldable pub is_background_hw3 : List Bytes → Bool
unfolding str_eq
is_background_hw3 [] = false
is_background_hw3 (s ∷ ss) =
    let rest = is_background_hw3 ss in if str_eq s (codes "&") then true else rest

-- The vector of the child: a NULL takes the place of the first `&`.
unfoldable pub cut_at_ampersand : List Bytes → List Bytes
unfolding str_eq
cut_at_ampersand [] = []
cut_at_ampersand (s ∷ ss) =
    let rest = cut_at_ampersand ss in if str_eq s (codes "&") then [] else s ∷ rest

unfoldable pub child_argv : List Bytes → List Bytes
unfolding is_background_hw3 cut_at_ampersand
child_argv argv = if is_background_hw3 argv then cut_at_ampersand argv else argv

-- What the macros find in a status: one of the three, or none.
pub data WaitStatus : Type 0 where
  exited signaled stopped : ℕ → WaitStatus
  unknown : WaitStatus

-- What the shell runs in: `atoi`, whether each `fork` succeeds, what `waitpid` answers, and what `stat` holds
-- before it.
pub record Setting : Type 0 where
  pub atoi : Bytes → ℤ
  pub fork : Calls
  pub end : ℕ → Option WaitStatus
  pub junk : ℕ → WaitStatus

-- What the shell does, in order. A child that `execvp` refuses exits.
pub data Deed : Type 0 where
  built_in : Effect → Deed
  started : List Bytes → Deed
  reported : WaitStatus → Deed
  fork_failed wait_failed : Deed
  left : ℕ → Deed

unfoldable pub after_wait : Option WaitStatus → List Deed
after_wait none = wait_failed ∷ []
after_wait (some stat) = reported stat ∷ []

-- The n-th command. In the background nothing is written to `stat`.
unfoldable pub run_command_hw3 : Setting → ℕ → List Bytes → List Deed
unfolding child_argv is_background_hw3 after_wait
run_command_hw3 w n argv =
    if not (w.fork n)
    then fork_failed ∷ []
    else started (child_argv argv)
      ∷ (if is_background_hw3 argv then reported (w.junk n) ∷ [] else after_wait (w.end n))

-- The table leads to `my_exit` and `bi_echo` only.
unfoldable pub do_builtin_hw3 : (Bytes → ℤ) → Builtin → List Bytes → Effect
unfolding do_bi_echo_hw3
do_builtin_hw3 atoi bi_quit argv = exits 0
do_builtin_hw3 atoi bi_echo argv = do_bi_echo_hw3 atoi argv
do_builtin_hw3 atoi _ argv = crashes

abbrev is_exit : Effect → Bool
is_exit (exits n) = true
is_exit crashes = true
is_exit _ = false

unfoldable pub is_over : List Deed → Bool
is_over [] = false
is_over (built_in e ∷ deeds) = is_exit e || is_over deeds
is_over (fork_failed ∷ deeds) = true
is_over (wait_failed ∷ deeds) = true
is_over (_ ∷ deeds) = is_over deeds

abbrev pub command_name : List Bytes → Bytes
command_name [] = []
command_name (s ∷ ss) = s

unfoldable pub dispatch_hw3 : Setting → ℕ → List Bytes → Option Builtin → List Deed
unfolding do_builtin_hw3 run_command_hw3
dispatch_hw3 w n argv (some b) = built_in (do_builtin_hw3 w.atoi b argv) ∷ []
dispatch_hw3 w n argv none = run_command_hw3 w n argv

unfoldable pub run_words_hw3 : Setting → ℕ → Option (List Bytes) → List Deed
unfolding is_builtin_hw3 dispatch_hw3
run_words_hw3 w n none = []
run_words_hw3 w n (some argv) = dispatch_hw3 w n argv (is_builtin_hw3 (command_name argv))

-- The loop of `main`: the lines, until a command ends the shell or the input ends.
unfoldable pub main_loop_hw3 : Setting → ℕ → List Bytes → List Deed
unfolding run_words_hw3 parse_hw3 is_over
main_loop_hw3 w n [] = left 0 ∷ []
main_loop_hw3 w n (line ∷ lines) =
    let deeds = run_words_hw3 w n (parse_hw3 line) in
    let rest = main_loop_hw3 w (suc n) lines in if is_over deeds then deeds else deeds ++ rest

-- `main`, on all that is typed.
unfoldable pub shell_main_hw3 : Setting → Bytes → List Deed
unfolding main_loop_hw3 lines_from
shell_main_hw3 w typed = main_loop_hw3 w 0 (typed_lines typed)
