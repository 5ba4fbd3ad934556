-- ===== src/Popen.antt =====
-- SP_HW/SP_HW6/44_2.c: `my_popen` and `my_pclose`, over the descriptors of the parent and of the child.
pub mod Ends
pub mod Listing
use sp_hw.Base.{
  ℕ, ◌≡◌, Bool, true, false, not, Option, none, some, if◌then◌else◌, ◌==◌, update, Bytes, codes,
  str_eq,
}

-- What a descriptor leads to: an end of the new pipe, or another file.
pub data File : Type 0 where
  read_end write_end : File
  other : ℕ → File

-- The open descriptors of a process.
abbrev pub Table : Type 0
Table = ℕ → Option File

abbrev pub is_open : Option File → Bool
is_open none = false
is_open (some f) = true

-- `mypipe`, as `pipe` fills it.
pub record Pipe : Type 0 where
  pub read_fd : ℕ
  pub write_fd : ℕ

unfoldable pub after_pipe : Pipe → Table → Table
after_pipe p t = update p.read_fd (some read_end) (update p.write_fd (some write_end) t)

unfoldable pub closed : ℕ → Table → Table
closed fd t = update fd none t

-- `dup2`, which changes nothing where the old descriptor is not open.
unfoldable pub dup2 : ℕ → ℕ → Table → Table
dup2 old new t = if is_open (t old) then update new (t old) t else t

-- A process behind `my_popen`: it runs the shell, which `execlp` starts or the process exits; it goes on
-- with NULL; or with a stream, its descriptor and the pid of the child.
pub data Branch : Type 0 where
  executes returns_null : Table → Branch
  returns : ℕ → ℕ → Table → Branch

-- The child: `unused` is its other end of the pipe, `own` its end, and `std` the stdin or stdout for which it
-- stands.
unfoldable pub child_side : ℕ → ℕ → ℕ → Table → Branch
unfolding closed dup2
child_side unused own std t =
    if not (is_open (t unused))
    then returns_null t
    else if own == std
    then executes (closed unused t)
    else executes (closed own (dup2 own std (closed unused t)))

-- The parent closes the end of the child, and opens a stream on its own.
unfoldable pub parent_side : Bool → ℕ → ℕ → ℕ → Table → Branch
unfolding closed
parent_side fdopens pid unused own t =
    if not (is_open (t unused))
    then returns_null t
    else if fdopens
    then returns own pid (closed unused t)
    else returns_null (closed unused t)

unfoldable pub child_of : Bytes → Pipe → Table → Branch
unfolding child_side str_eq
child_of type p t =
    if str_eq type (codes "r")
    then child_side p.read_fd p.write_fd 1 t
    else if str_eq type (codes "w")
    then child_side p.write_fd p.read_fd 0 t
    else returns_null t

unfoldable pub parent_of : Bytes → Bool → ℕ → Pipe → Table → Branch
unfolding parent_side str_eq
parent_of type fdopens pid p t =
    if str_eq type (codes "r")
    then parent_side fdopens pid p.write_fd p.read_fd t
    else if str_eq type (codes "w")
    then parent_side fdopens pid p.read_fd p.write_fd t
    else returns_null t

-- What becomes of the call: one process, or the parent and the child.
pub data Called : Type 0 where
  alone : Branch → Called
  forked : Branch → Branch → Called

-- What the calls of the system answer.
pub record Answers : Type 0 where
  pub mallocs : Bool
  pub pipe : Option Pipe
  pub fork : Option ℕ
  pub fdopens : Bool

unfoldable pub fork_branches : Answers → Bytes → Pipe → Table → Option ℕ → Called
unfolding child_of parent_of
fork_branches a type p t none = alone (returns_null t)
fork_branches a type p t (some pid) = forked (parent_of type a.fdopens pid p t) (child_of type p t)

unfoldable pub with_pipe : Answers → Bytes → Table → Option Pipe → Called
unfolding after_pipe fork_branches
with_pipe a type t none = alone (returns_null t)
with_pipe a type t (some p) = fork_branches a type p (after_pipe p t) a.fork

unfoldable pub my_popen : Answers → Bytes → Table → Called
unfolding with_pipe
my_popen a type t = if a.mallocs then with_pipe a type t a.pipe else alone (returns_null t)

-- `waitpid` with WNOHANG: an error, no child that has ended, or its status.
pub data Waited : Type 0 where
  fails not_yet : Waited
  ended : ℕ → Waited

pub data Closing : Type 0 where
  minus_one : Closing
  status : ℕ → Closing

-- `junk` is what `status` holds before the call.
unfoldable pub waited : ℕ → Waited → Closing
waited junk fails = minus_one
waited junk not_yet = status junk
waited junk (ended s) = status s

unfoldable pub my_pclose : Bool → ℕ → Waited → Closing
unfolding waited
my_pclose fcloses junk w = if fcloses then waited junk w else minus_one
