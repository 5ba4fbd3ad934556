-- ===== src/Fifo.antt =====
-- SP_HW/SP_HW8/44-7: the experiments of server.c, which reads, and client.c, which writes, over one FIFO
-- with the documented behaviour of its calls. Each program makes the next of its calls in a step of its own.
pub mod Told
pub mod Entering
pub mod Leaving
pub mod Reports
use sp_hw.Base.{
  ℕ, ◌≡◌, Bool, true, false, List, [], ◌∷◌, ◌++◌, Option, none, some, if◌then◌else◌, ◌==◌, length,
  take, ℤ, pos, negsuc, Bytes, codes, cstr,
}

-- The branches of server.c and of client.c.
pub data ServerJob : Type 0 where
  make_only open_only wait_and_read read_at_once wait_only : ServerJob

pub data ClientJob : Type 0 where
  open_at_once wait_and_close wait_and_write idle : ClientJob

-- By `argc` and the value of `atoi(argv[1])`
unfoldable pub server_job : Option ℤ → ServerJob
server_job none = make_only
server_job (some (negsuc n)) = make_only
server_job (some (pos n)) =
    if n == 1
    then open_only
    else if n == 2
    then wait_and_read
    else if n == 3
    then read_at_once
    else if n == 4
    then wait_only
    else make_only

unfoldable pub client_job : Option ℤ → ClientJob
client_job none = open_at_once
client_job (some (negsuc n)) = idle
client_job (some (pos n)) =
    if n == 1 then wait_and_close else if n == 2 then wait_and_write else idle

-- What a program has printed on stdout when it ends: the `printf` calls of the sources, in their order.
pub data ServerReport : Type 0 where
  nothing told_opened told_no_writer told_empty : ServerReport
  told_read : ℕ → Bytes → ServerReport

pub data ClientReport : Type 0 where
  silent told_no_reader told_broken : ClientReport
  told_wrote : ℕ → ClientReport

-- A `read` without waiting: -1 with another error, bytes, -1 with EAGAIN, and 0 where no writer is left.
pub data Read : Type 0 where
  failed would_block : Read
  got : Bytes → Read

-- Where the server stands: in front of `mkfifo`, behind it, in an `open` that waits for a writer, with the
-- FIFO open, behind its `read` and behind its `printf`, which also has the FIFO open, and at its end with its
-- exit status.
pub data Server : Type 0 where
  server_starting server_ready server_waiting server_opened : Server
  server_read : Read → Server
  server_printed server_ended : ServerReport → ℕ → Server

-- Where the client stands: in front of its `open`, in one that waits for a reader, behind one that has failed
-- with ENXIO, with the FIFO open, behind its `write` and behind its `printf`, with the FIFO open, and at its end.
-- A client without a branch ends in `client_unused`.
pub data Client : Type 0 where
  client_starting client_waiting client_barred client_opened client_unused : Client
  client_wrote client_printed : ClientReport → Client
  client_ended : ClientReport → ℕ → Client

-- The two programs, whether the FIFO is there, and what is in it.
pub data State : Type 0 where
  state : Server → Client → Bool → Bytes → State

-- An `open` lets in the other side, if that waits in its own.
unfoldable pub let_in : Client → Client
let_in client_waiting = client_opened
let_in c = c

unfoldable pub let_in_server : Server → Server
let_in_server server_waiting = server_opened
let_in_server s = s

abbrev pub is_open : Client → Bool
is_open client_opened = true
is_open (client_wrote report) = true
is_open (client_printed report) = true
is_open _ = false

-- The read end is open, also in an `open` that still waits for a writer.
abbrev pub has_reader : Server → Bool
has_reader server_waiting = true
has_reader server_opened = true
has_reader (server_read r) = true
has_reader (server_printed report status) = true
has_reader _ = false

-- A blocking `open` for reading goes on if the write end is open or about to be.
unfoldable pub wait_for_writer : Client → Server
wait_for_writer client_waiting = server_opened
wait_for_writer c = if is_open c then server_opened else server_waiting

unfoldable pub read_fifo : Bool → Client → Bytes → Read
read_fifo false c content = failed
read_fifo true c [] = if is_open c then would_block else got []
read_fifo true c (x ∷ content) = got (take 1023 (x ∷ content))

-- The tests behind the `read`, and the string that is printed.
unfoldable pub after_read : Read → Server
unfolding cstr
after_read failed = server_printed nothing 1
after_read would_block = server_printed told_no_writer 1
after_read (got []) = server_printed told_empty 1
after_read (got (x ∷ text)) = server_printed (told_read (length (x ∷ text)) (cstr (x ∷ text))) 0

-- The `open` of the server, by the branch. `ok` is whether the call succeeds.
unfoldable pub open_server : ServerJob → Bool → Client → Bool → Bytes → State
unfolding let_in wait_for_writer
open_server make_only ok c made content = state (server_ended nothing 0) c made content
open_server job false c made content = state (server_ended nothing 1) c made content
open_server open_only true c made content = state server_opened (let_in c) made content
open_server read_at_once true c made content = state server_opened (let_in c) made content
open_server wait_and_read true c made content = state (wait_for_writer c) (let_in c) made content
open_server wait_only true c made content = state (wait_for_writer c) (let_in c) made content

-- With the FIFO open: the `read` or the `printf` of the branches that have one, or the end.
unfoldable pub finish_server : ServerJob → Bool → Client → Bytes → Server
unfolding read_fifo
finish_server make_only ok c content = server_ended nothing 0
finish_server open_only ok c content = server_printed told_opened 0
finish_server wait_only ok c content = server_ended nothing 0
finish_server wait_and_read ok c content = server_read (read_fifo ok c content)
finish_server read_at_once ok c content = server_read (read_fifo ok c content)

-- The next call of the server, none if it waits or has ended. A FIFO that is there already is as good as a
-- new one; and there is one `read` at most, so that what it takes away is not read again.
unfoldable pub server_step : ServerJob → Bool → State → Option State
unfolding open_server finish_server after_read
server_step job true (state server_starting c made content) =
    some (state server_ready c true content)
server_step job false (state server_starting c made content) =
    some (state (server_ended nothing 1) c made content)
server_step job ok (state server_ready c made content) = some (open_server job ok c made content)
server_step job ok (state server_waiting c made content) = none
server_step job ok (state server_opened c made content) =
    some (state (finish_server job ok c content) c made content)
server_step job ok (state (server_read r) c made content) =
    some (state (after_read r) c made content)
server_step job ok (state (server_printed report status) c made content) =
    some (state (server_ended report status) c made content)
server_step job ok (state (server_ended report status) c made content) = none

abbrev pub message : Bytes
message = codes "Hello from server!"

-- A blocking `open` for writing goes on if the read end is open or about to be; one with O_NONBLOCK fails
-- with ENXIO if it is not.
unfoldable pub wait_for_reader : Server → Client
wait_for_reader s = if has_reader s then client_opened else client_waiting

unfoldable pub open_if_reader : Server → Client
open_if_reader s = if has_reader s then client_opened else client_barred

unfoldable pub open_by_job : ClientJob → Server → Client
unfolding wait_for_reader open_if_reader
open_by_job idle s = client_unused
open_by_job open_at_once s = open_if_reader s
open_by_job wait_and_close s = wait_for_reader s
open_by_job wait_and_write s = wait_for_reader s

-- The `open` of the client fails where there is no FIFO, and may fail otherwise.
unfoldable pub open_client : ClientJob → Bool → Server → Bool → Bytes → State
unfolding open_by_job let_in_server
open_client idle ok s made content = state s client_unused made content
open_client job false s made content = state s (client_ended silent 1) made content
open_client job true s false content = state s (client_ended silent 1) false content
open_client job true s true content = state (let_in_server s) (open_by_job job s) true content

-- The `write`, to a reader that has the FIFO open or, with EPIPE, to none.
unfoldable pub write_message : Bool → Server → Bool → Bytes → State
write_message false s made content = state s (client_wrote silent) made content
write_message true s made content =
    if has_reader s
    then state s (client_wrote (told_wrote (length message))) made (content ++ message)
    else state s (client_wrote told_broken) made content

unfoldable pub finish_client : ClientJob → Bool → Server → Bool → Bytes → State
unfolding write_message
finish_client wait_and_write ok s made content = write_message ok s made content
finish_client job ok s made content = state s (client_ended silent 0) made content

unfoldable pub client_step : ClientJob → Bool → State → Option State
unfolding open_client finish_client
client_step job ok (state s client_starting made content) = some (open_client job ok s made content)
client_step job ok (state s client_waiting made content) = none
client_step job ok (state s client_opened made content) = some (finish_client job ok s made content)
client_step job ok (state s client_barred made content) =
    some (state s (client_ended told_no_reader 1) made content)
client_step job ok (state s (client_wrote report) made content) =
    some (state s (client_printed report) made content)
client_step job ok (state s (client_printed report) made content) =
    some (state s (client_ended report 0) made content)
client_step job ok (state s client_unused made content) = none
client_step job ok (state s (client_ended report status) made content) = none

-- The two programs in any order, each call with success or without.
pub data Reach (sj : ServerJob) (cj : ClientJob) (s : State) : State → Type 0 where
  here : Reach sj cj s s
  by_server :
      {t u : State} (ok : Bool) → Reach sj cj s t → server_step sj ok t ≡ some u → Reach sj cj s u
  by_client :
      {t u : State} (ok : Bool) → Reach sj cj s t → client_step cj ok t ≡ some u → Reach sj cj s u

-- Both in front of their first calls, with a FIFO of an earlier run or without.
abbrev pub initial : Bool → State
initial made = state server_starting client_starting made []

abbrev pub server_of : State → Server
server_of (state s c made content) = s

abbrev pub client_of : State → Client
client_of (state s c made content) = c
