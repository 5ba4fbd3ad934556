-- ===== src/Fetch/Request.antt =====
-- The request of SP_HW9/52_3: how the client (posixmq_file_client.c) writes it, and the loop of the server
-- (posixmq_file_server.c) with the queues of the clients.
use sp_hw.Base.{
  ℕ, suc, ◌+◌, true, not, List, [], ◌∷◌, ◌++◌, Option, none, some, if◌then◌else◌, ltb, length, take,
  drop, Bytes, codes, cstr, str_eq, Calls,
}
use sp_hw.Fetch.{Response, serve_request, Fetched, receive}

-- sizeof of each array of `struct req`, and of both
abbrev pub name_size : ℕ
name_size = 30

abbrev pub request_size : ℕ
request_size = 60

-- `strcpy` to a place of the request, none if it writes behind the request.
unfoldable pub strcpy_at : ℕ → Bytes → Bytes → Option Bytes
strcpy_at at s mem =
    if ltb (at + length s) request_size
    then some (take at mem ++ (s ++ 0 ∷ drop (suc (at + length s)) mem))
    else none

abbrev pub then_copy : Option Bytes → ℕ → Bytes → Option Bytes
then_copy none at s = none
then_copy (some mem) at s = strcpy_at at s mem

-- The two copies of the client, over what the request holds before.
unfoldable pub fill_request : Bytes → Bytes → Bytes → Option Bytes
unfolding strcpy_at
fill_request name file before = then_copy (strcpy_at 0 name before) name_size file

-- CLIENTMQ_NAME_TEMPLATE, with the digits of the process id
abbrev pub queue_name : Bytes → Bytes
queue_name digits = codes "/myclient" ++ (digits ++ codes "_mq_B103040009")

-- The names that the server reads out of a request.
unfoldable pub named_queue : Bytes → Bytes
unfolding cstr
named_queue mem = cstr mem

unfoldable pub named_file : Bytes → Bytes
unfolding cstr
named_file mem = cstr (drop name_size mem)

-- What `mq_receive` brings to the server: -1 with EINTR, -1 with another error, or a request.
pub data Event : Type 0 where
  interrupted broken : Event
  arrived : Bytes → Event

-- The loop of the server, with the number of the next `fork`: the requests that are handed to a child.
unfoldable pub server_main : Calls → ℕ → List Event → List Bytes
server_main forks k [] = []
server_main forks k (interrupted ∷ events) = server_main forks k events
server_main forks k (broken ∷ events) = []
server_main forks k (arrived mem ∷ events) =
    let rest = server_main forks (suc k) events in if forks k then mem ∷ rest else []

-- What the children send to the queue with a name, by what the files hold; `sends` are the calls of
-- `mq_send` of each child, and `before` what the array of its response holds.
unfoldable pub answers :
    Bytes → Bytes → Calls → (Bytes → Option (List Bytes)) → List Bytes → List Response
unfolding serve_request named_queue named_file
answers own before sends files [] = []
answers own before sends files (mem ∷ requests) =
    let rest = answers own before sends files requests in
    if str_eq (named_queue mem) own
    then serve_request true before sends (files (named_file mem)) ++ rest
    else rest

-- How the client ends: without its one argument, at a call that fails, behind the request's arrays, or with
-- what it has received.
pub data ClientEnd : Type 0 where
  usage fails overwrites : ClientEnd
  fetched : Fetched → ClientEnd

abbrev pub on_request : Calls → Option Bytes → (Bytes → List Response) → ClientEnd
on_request io none reply = overwrites
on_request io (some mem) reply =
    if not (io 2) then fails else if not (io 3) then fails else fetched (receive (reply mem))

-- The client, with its argument, the digits of its process id, what its request holds before and what
-- arrives in its queue behind a request. Its calls are numbered: the two `mq_open`, `mq_send` and `mq_close`.
unfoldable pub client_main :
    Calls → Option Bytes → Bytes → Bytes → (Bytes → List Response) → ClientEnd
unfolding fill_request receive
client_main io none digits before reply = usage
client_main io (some file) digits before reply =
    if not (io 0)
    then fails
    else if not (io 1)
    then fails
    else on_request io (fill_request (queue_name digits) file before) reply
