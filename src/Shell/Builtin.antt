-- ===== src/Shell/Builtin.antt =====
-- builtin.c of the two shells. An argument vector is the list of its strings; the entry behind the
-- last one is NULL. What is printed
-- is given as bytes; a message on stderr in front of an exit is left out.
pub mod Table
pub mod Echo
use sp_hw.Base.{
  ℕ, zero, suc, ◌+◌, ◌-◌, Bool, true, false, ◌||◌, not, List, [], ◌∷◌, ◌++◌, Option, none, some,
  if◌then◌else◌, leb, ltb, ◌==◌, length, get_elem?, get_or, take, Bytes, codes, str_eq, ℤ, pos,
  negsuc,
}

-- What a built-in command does to the shell.
pub data Effect : Type 0 where
  prints : Bytes → Effect
  complains : Bytes → Effect
  changes_directory : Bytes → Effect
  exits : ℕ → Effect
  crashes : Effect

-- EXIT_FAILURE
abbrev pub exit_failure : ℕ
exit_failure = 1

-- The answers of the system calls: `chdir` says whether a directory can be entered.
pub record Os : Type 0 where
  pub chdir : Bytes → Bool
  pub cwd : Option Bytes
  pub hostname : Option Bytes
  pub identity : Option Bytes

pub data Builtin : Type 0 where
  bi_builtin bi_echo bi_quit bi_cd bi_pwd bi_id bi_hostname : Builtin

-- `inbuilts` of SP_HW5, without the entry that ends it.
abbrev pub inbuilts : List (Bytes × Builtin)
inbuilts =
    (codes "builtin", bi_builtin)
    ∷ (codes "echo", bi_echo)
    ∷ (codes "quit", bi_quit)
    ∷ (codes "exit", bi_quit)
    ∷ (codes "bye", bi_quit)
    ∷ (codes "logout", bi_quit)
    ∷ (codes "cd", bi_cd)
    ∷ (codes "pwd", bi_pwd)
    ∷ (codes "id", bi_id)
    ∷ (codes "hostname", bi_hostname)
    ∷ []

-- The loop of `is_builtin`: the entry that `this` is to point at.
unfoldable pub find_entry : List (Bytes × Builtin) → Bytes → Option Builtin
find_entry [] cmd = none
find_entry ((keyword, b) ∷ table) cmd = if str_eq keyword cmd then some b else find_entry table cmd

unfoldable pub is_builtin : Bytes → Option Builtin
unfolding find_entry
is_builtin cmd = find_entry inbuilts cmd

-- The loop of `bi_builtin`, with the rounds left: a search by index, and not to the end of the table.
unfoldable pub scan_table : ℕ → ℕ → Bytes → Bool
scan_table zero i name = false
scan_table (suc rounds) i name =
    let rest = scan_table rounds (suc i) name in
    if str_eq name (get_or inbuilts i (codes "", bi_quit)).0 then true else rest

unfoldable pub do_bi_builtin : List Bytes → Effect
unfolding scan_table
do_bi_builtin argv = elim (get_elem? argv 1) [
  | none ↦ crashes
  | some name ↦
      if scan_table 10 0 name
      then prints (name ++ codes " is a builtin feature.\n")
      else prints (name ++ codes " is NOT a builtin feature.\n")
]

-- `chdir(argv[1])`: a missing directory name is a failure of the call.
unfoldable pub do_bi_cd : Os → List Bytes → Effect
do_bi_cd os argv = elim (get_elem? argv 1) [
  | none ↦ exits exit_failure
  | some dir ↦ if os.chdir dir then changes_directory dir else exits exit_failure
]

-- `argv[i]` printed as a line. Behind the NULL of the vector nothing may be read.
unfoldable pub print_arg : List Bytes → ℕ → Effect
print_arg argv i = elim (get_elem? argv i) [ none ↦ crashes | some s ↦ prints (s ++ codes "\n") ]

-- The strings with a space in front of each.
unfoldable pub spaced : List Bytes → Bytes
spaced [] = []
spaced (s ∷ ss) = codes " " ++ (s ++ spaced ss)

abbrev pub no_string : Bytes
no_string = codes "specified string doesn't exist\n"

-- `echo -n N` of SP_HW5, by the value of N and the number of strings behind it. The string printed is
-- argv[N + 3 - 1], which for N = 0, -1 and -2 is N itself, -n and echo.
unfoldable pub echo_nth : List Bytes → ℤ → ℕ → Effect
unfolding print_arg
echo_nth argv (pos n) count = if ltb count n then exits exit_failure else print_arg argv (n + 2)
echo_nth argv (negsuc zero) count = print_arg argv 1
echo_nth argv (negsuc (suc zero)) count = print_arg argv 0
echo_nth argv (negsuc (suc (suc n))) count = crashes

-- With -n, `atoi` of a missing N reads through NULL.
unfoldable pub echo_option : (Bytes → ℤ) → Bytes → Bytes → List Bytes → Effect
unfolding echo_nth
echo_option atoi name first [] = crashes
echo_option atoi name first (number ∷ strings) =
    echo_nth (name ∷ first ∷ number ∷ strings) (atoi number) (length strings)

-- `bi_echo` of SP_HW5. Called with no argument it ends the shell.
unfoldable pub do_bi_echo : (Bytes → ℤ) → List Bytes → Effect
unfolding echo_option spaced
do_bi_echo atoi [] = crashes
do_bi_echo atoi (name ∷ []) = exits exit_failure
do_bi_echo atoi (name ∷ first ∷ rest) =
    if str_eq first (codes "-n")
    then echo_option atoi name first rest
    else prints (first ++ (spaced rest ++ codes "\n"))

-- `echo -n N` of SP_HW3: the shell goes on after a complaint.
unfoldable pub echo_nth_hw3 : List Bytes → ℤ → ℕ → Effect
unfolding print_arg
echo_nth_hw3 argv (pos n) count =
    if leb count n || n == 0 then complains no_string else print_arg argv (n + 2)
echo_nth_hw3 argv (negsuc n) count = complains no_string

unfoldable pub echo_option_hw3 : (Bytes → ℤ) → Bytes → Bytes → List Bytes → Effect
unfolding echo_nth_hw3
echo_option_hw3 atoi name first [] = crashes
echo_option_hw3 atoi name first (number ∷ strings) =
    echo_nth_hw3 (name ∷ first ∷ number ∷ strings) (atoi number) (length strings)

unfoldable pub do_bi_echo_hw3 : (Bytes → ℤ) → List Bytes → Effect
unfolding echo_option_hw3 spaced
do_bi_echo_hw3 atoi [] = crashes
do_bi_echo_hw3 atoi (name ∷ []) = exits exit_failure
do_bi_echo_hw3 atoi (name ∷ first ∷ rest) =
    if str_eq first (codes "-n")
    then echo_option_hw3 atoi name first rest
    else prints (first ++ (spaced rest ++ codes "\n"))

-- A line with the answer of a system call, or an exit where the call fails.
abbrev print_answer : Option Bytes → Effect
print_answer none = exits exit_failure
print_answer (some s) = prints (s ++ codes "\n")

unfoldable pub do_bi_hostname : Os → Effect
do_bi_hostname os = print_answer os.hostname

unfoldable pub do_bi_id : Os → Effect
do_bi_id os = print_answer os.identity

unfoldable pub do_bi_pwd : Os → Effect
do_bi_pwd os = print_answer os.cwd

unfoldable pub do_bi_quit : Effect
do_bi_quit = exits 0

-- `do_builtin`: call the function of the entry that `is_builtin` has found.
unfoldable pub do_builtin : Os → (Bytes → ℤ) → Builtin → List Bytes → Effect
unfolding do_bi_builtin do_bi_echo do_bi_quit do_bi_cd do_bi_pwd do_bi_id do_bi_hostname
do_builtin os atoi bi_builtin argv = do_bi_builtin argv
do_builtin os atoi bi_echo argv = do_bi_echo atoi argv
do_builtin os atoi bi_quit argv = do_bi_quit
do_builtin os atoi bi_cd argv = do_bi_cd os argv
do_builtin os atoi bi_pwd argv = do_bi_pwd os
do_builtin os atoi bi_id argv = do_bi_id os
do_builtin os atoi bi_hostname argv = do_bi_hostname os

-- `inbuilts` of SP_HW3, and its `is_builtin`.
abbrev pub inbuilts_hw3 : List (Bytes × Builtin)
inbuilts_hw3 =
    (codes "exit", bi_quit)
    ∷ (codes "quit", bi_quit)
    ∷ (codes "logout", bi_quit)
    ∷ (codes "bye", bi_quit)
    ∷ (codes "echo", bi_echo)
    ∷ []

unfoldable pub is_builtin_hw3 : Bytes → Option Builtin
unfolding find_entry
is_builtin_hw3 cmd = find_entry inbuilts_hw3 cmd
