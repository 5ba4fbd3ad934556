-- ===== src/Tree/Reading.antt =====
-- get_process_info and main of SP_HW/SP_HW4/12-2.c: the table of processes is read from /proc, and its tree
-- is printed from process 1 on. An int is its pattern of 32 bits.
use sp_hw.Base.{
  ℕ, ◌-◌, ◌%◌, ◌^◌, min, List, [], ◌∷◌, Option, none, some, if◌then◌else◌, ltb, ◌==◌, ◌>>=◌, length,
  Bytes, codes, str_eq, Bool, true, false,
}
use sp_hw.Proc.{is_numeric}
use sp_hw.Proc.Status.{word, digits, scan_digits, or_else, nonempty, read_key, behind_key}
use sp_hw.Tree.{Process, Item, print_tree}

abbrev pub int_patterns : ℕ
int_patterns = 2 ^ 32

-- The largest `long`, where `strtol` stops.
abbrev pub long_max : ℕ
long_max = 2 ^ 63 - 1

-- The pattern of -n.
abbrev pub minus : ℕ → ℕ
minus n = (2 ^ 64 - min n (2 ^ 63)) % int_patterns

-- `%d`
unfoldable pub scan_int : Bytes → Option ℕ
unfolding scan_digits
scan_int [] = none
scan_int (c ∷ s) =
    if c == b'-'
    then scan_digits s >>= (λ n. some (minus n))
    else if c == b'+'
    then scan_digits s >>= (λ n. some (min n long_max % int_patterns))
    else scan_digits (c ∷ s) >>= (λ n. some (min n long_max % int_patterns))

-- `atoi` of a name of digits.
unfoldable pub pid_of : Bytes → ℕ
unfolding digits
pid_of d_name = min (digits 0 d_name) long_max % int_patterns

-- The two tests of the loop, for a line with its key.
unfoldable pub set_ppid : Bytes → Bytes → Process → Process
unfolding scan_int behind_key str_eq
set_ppid key buffer proc =
    if str_eq key (codes "PPid:")
    then record proc { ppid = or_else proc.ppid (scan_int (behind_key buffer)) }
    else proc

unfoldable pub set_name : Bytes → Bytes → Process → Process
unfolding word behind_key str_eq
set_name key buffer proc =
    if str_eq key (codes "Name:")
    then record proc { name = or_else proc.name (nonempty (word (behind_key buffer))) }
    else proc

-- The loop over the lines, each as `fgets` brings it, with the key that was read last.
unfoldable pub read_fields : Bytes → Process → List Bytes → Process
unfolding read_key set_ppid set_name
read_fields key proc [] = proc
read_fields key proc (buffer ∷ buffers) =
    let key' = read_key key buffer in
    read_fields key' (set_name key' buffer (set_ppid key' buffer proc)) buffers

-- The status file, unless it does not open; `junk` is what `key` holds before anything is read.
unfoldable pub get_process_info : Bytes → Bytes → Option (List Bytes) → Option Process
unfolding pid_of read_fields
get_process_info junk pid none = none
get_process_info junk pid (some buffers) =
    some (
      read_fields junk record { pid = pid_of pid; ppid = minus 1; name = codes "[Unknown]" }
        buffers)

unfoldable pub add_process : Option Process → List Process → List Process
add_process none processes = processes
add_process (some proc) processes = proc ∷ processes

-- The loop over /proc, with the files that it reads and the contents of `key` in each call.
unfoldable pub read_processes :
    (Bytes → Option (List Bytes)) → (Bytes → Bytes) → List Bytes → List Process
unfolding is_numeric get_process_info add_process
read_processes files junk [] = []
read_processes files junk (entry ∷ entries) =
    let rest = read_processes files junk entries in
    if is_numeric entry
    then add_process (get_process_info (junk entry) entry (files entry)) rest
    else rest

-- `errno` as a file leaves it: an `fopen` that fails sets it, and nothing sets it back.
unfoldable pub unless_fails : Option (List Bytes) → Bool → Bool
unless_fails none rest = false
unless_fails (some buffers) rest = rest

-- `errno` is still 0 after the loop.
unfoldable pub no_errno : (Bytes → Option (List Bytes)) → List Bytes → Bool
unfolding is_numeric unless_fails
no_errno files [] = true
no_errno files (entry ∷ entries) =
    let rest = no_errno files entries in
    if is_numeric entry then unless_fails (files entry) rest else rest

abbrev pub table_size : ℕ
table_size = 1024

-- A process more than the table has room for is written behind it. With an `errno` that is not 0 after the
-- loop, the program ends by `errorHandling("readdir")`, also when it was an `fopen` that failed. `none`
-- stands for a recursion that is not over within the fuel.
pub data Printing : Type 0 where
  overruns : Printing
  readdir_error : Printing
  prints : Option (List Item) → Printing

unfoldable pub print_processes : ℕ → Bool → List Process → Printing
print_processes fuel succeeded processes =
    if ltb table_size (length processes)
    then overruns
    else if succeeded
    then prints (print_tree fuel 1 0 processes)
    else readdir_error

unfoldable pub tree_main :
    ℕ → (Bytes → Option (List Bytes)) → (Bytes → Bytes) → List Bytes → Printing
unfolding read_processes no_errno print_processes
tree_main fuel files junk entries =
    print_processes fuel (no_errno files entries) (read_processes files junk entries)
