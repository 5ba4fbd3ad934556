-- ===== src/Proc/Opened.antt =====
-- SP_HW/SP_HW4/12-3.c: the processes that have a file open.
use sp_hw.Base.{
  ℕ, Bool, ◌||◌, List, [], ◌∷◌, ◌++◌, Option, none, some, if◌then◌else◌, ltb, length, Bytes, codes,
  cstr, str_eq,
}
use sp_hw.Proc.{is_numeric}

-- What `readlink` answers: ENOENT, another error, or the target with all its bytes.
pub data Link : Type 0 where
  gone unreadable : Link
  target : Bytes → Link

-- An entry of a directory /proc/PID/fd.
pub record Descriptor : Type 0 where
  pub d_name : Bytes
  pub link : Link

-- The lines that are printed: the warning, and the line of a process.
pub data Printed : Type 0 where
  warns has_open : Bytes → Bytes → Printed

-- How it ends, with what is printed: at the end of /proc, with an error, or with a write behind the
-- array `filepathname`.
pub data Listing : Type 0 where
  finished fails overruns : List Printed → Listing

unfoldable pub printing : List Printed → Listing → Listing
printing out (finished more) = finished (out ++ more)
printing out (fails more) = fails (out ++ more)
printing out (overruns more) = overruns (out ++ more)

abbrev pub path_size : ℕ
path_size = 1024

unfoldable pub is_dot : Bytes → Bool
unfolding str_eq
is_dot d_name = str_eq d_name (codes ".") || str_eq d_name (codes "..")

-- `strcmp(filepathname, argv[1])` and the line.
unfoldable pub report_open : Bytes → Bytes → Bytes → Listing → Listing
unfolding printing str_eq
report_open path pid filepathname rest =
    if str_eq filepathname path then printing (has_open pid filepathname ∷ []) rest else rest

-- The body of the loop behind `readlink`. `rest` is what comes behind it. A target that fills the array has
-- its NUL written behind it.
unfoldable pub follow : Bytes → Bytes → Bytes → Link → Listing → Listing
unfolding printing report_open cstr
follow path pid d_name gone rest = printing (warns pid d_name ∷ []) rest
follow path pid d_name unreadable rest = fails []
follow path pid d_name (target []) rest = rest
follow path pid d_name (target (c ∷ bytes)) rest =
    if ltb (length (c ∷ bytes)) path_size
    then report_open path pid (cstr (c ∷ bytes)) rest
    else overruns []

unfoldable pub scan_fds : Bytes → Bytes → List Descriptor → Listing → Listing
unfolding is_dot follow
scan_fds path pid [] behind = behind
scan_fds path pid (d ∷ ds) behind =
    let rest = scan_fds path pid ds behind in
    if is_dot d.d_name then rest else follow path pid d.d_name d.link rest

unfoldable pub scan_process : Bytes → Bytes → Option (List Descriptor) → Listing → Listing
unfolding scan_fds
scan_process path pid none rest = fails []
scan_process path pid (some ds) rest = scan_fds path pid ds rest

-- The loop over /proc, with the directories that `opendir` opens.
unfoldable pub list_opened : (Bytes → Option (List Descriptor)) → Bytes → List Bytes → Listing
unfolding is_numeric scan_process
list_opened open_fds path [] = finished []
list_opened open_fds path (entry ∷ entries) =
    let rest = list_opened open_fds path entries in
    if is_numeric entry then scan_process path entry (open_fds entry) rest else rest
