-- ===== src/Dict/Dialogue.antt =====
-- Dictionary servers and their clients over sockets: SP_HW/SP_HW11/part1 (usock_server.c, lookup7.c),
-- part2 (isock_server.c, lookup8.c) and part3 (udp_server.c, lookup9.c). A message is a whole
-- record: a send or receive of a part of one does not occur here.
pub mod Replies
use sp_hw.Base.{
  ℕ, zero, suc, ◌+◌, Bool, true, false, ◌&&◌, not, List, [], ◌∷◌, Option, none, some, if◌then◌else◌,
  ◌==◌, length, get_or, Bytes, Calls, str_eq,
}
use sp_hw.Dict.Record.{Dictrec, Status, found, not_found, unavail, missing}
use sp_hw.Dict.Mapped.{Disk, Handle, Answer, exits, returns, crashes, lookup}

pub data Exit : Type 0 where
  success failure crash : Exit

-- What a process has sent when it ends, or when there is nothing more to receive.
pub record Served : Type 0 where
  pub replies : List Dictrec
  pub exit : Exit

abbrev stop : Exit → Served
stop e = record { replies = []; exit = e }

abbrev pub prepend : Dictrec → Served → Served
prepend r s = record s { replies = r ∷ s.replies }

-- `switch (lookup(&tryit, argv[1]))`: the record to send. UNAVAIL ends the program.
unfoldable pub reply : Status → Dictrec → Option Dictrec
reply found r = some r
reply not_found r = some (record r { text = missing })
reply unavail r = none

-- The body of the servers' loops: look the record up, and send the reply or end.
pub data Handled : Type 0 where
  ends : Exit → Handled
  sending : Dictrec → Handle → Handled

unfoldable pub send_reply : Option Dictrec → Handle → Handled
send_reply none handle = ends failure
send_reply (some r) handle = sending r handle

unfoldable pub handled : Answer → Handled
unfolding reply send_reply
handled exits = ends failure
handled crashes = ends crash
handled (returns status r handle) = send_reply (reply status r) handle

-- The dialogue of a child of usock_server.c with its client, over the requests until the connection
-- ends. `k` numbers the sends.
unfoldable pub dialogue : Disk → Handle → Calls → ℕ → List Dictrec → Served
dialogue disk handle io k [] = stop success
dialogue disk handle io k (tryit ∷ requests) = elim (handled (lookup disk handle tryit)) [
  | ends e ↦ stop e
  | sending r handle' ↦
      if io k then prepend r (dialogue disk handle' io (suc k) requests) else stop failure
]

-- The rounds of the servers' main loop: a connection with the requests that it brings, or a failing
-- call. Each child starts with the static variables of the parent, which looks nothing up.
pub data Round : Type 0 where
  accept_fails fork_fails : Round
  connection : Calls → List Dictrec → Round

unfoldable pub accept_loop : Disk → List Round → List Served
unfolding dialogue handled lookup
accept_loop disk [] = []
accept_loop disk (accept_fails ∷ rounds) = []
accept_loop disk (fork_fails ∷ rounds) = []
accept_loop disk (connection io requests ∷ rounds) =
    dialogue disk none io 0 requests ∷ accept_loop disk rounds

-- `remove(argv[2])` may fail where there is no such file.
pub data Removal : Type 0 where
  removed no_such_file cannot_remove : Removal

abbrev gone : Removal → Bool
gone cannot_remove = false
gone _ = true

-- usock_server.c: socket, remove, bind and listen, and then the main loop.
unfoldable pub usock_server : Disk → List Bytes → Calls → Removal → List Round → List Served
unfolding accept_loop
usock_server disk argv io removal rounds =
    if length argv == 3 && io 0 && gone removal && io 1 && io 2 then accept_loop disk rounds else []

-- isock_server.c: socket, bind and listen, and then the main loop.
unfoldable pub isock_server : Disk → List Bytes → Calls → List Round → List Served
unfolding accept_loop
isock_server disk argv io rounds =
    if length argv == 2 && io 0 && io 1 && io 2 then accept_loop disk rounds else []

-- What udp_server.c receives: a datagram with a record, or one that is empty, which gets no reply.
pub data Packet : Type 0 where
  recvfrom_fails empty : Packet
  datagram : Dictrec → Packet

unfoldable pub udp_loop : Disk → Handle → Calls → ℕ → List Packet → Served
udp_loop disk handle io k [] = stop success
udp_loop disk handle io k (recvfrom_fails ∷ packets) = stop failure
udp_loop disk handle io k (empty ∷ packets) = udp_loop disk handle io k packets
udp_loop disk handle io k (datagram tryit ∷ packets) = elim (handled (lookup disk handle tryit)) [
  | ends e ↦ stop e
  | sending r handle' ↦
      if io k then prepend r (udp_loop disk handle' io (suc k) packets) else stop failure
]

unfoldable pub udp_server : Disk → List Bytes → Calls → Calls → List Packet → Served
unfolding udp_loop handled lookup
udp_server disk argv io sends packets =
    if length argv == 2 && io 0 && io 1 then udp_loop disk none sends 0 packets else stop failure

-- What a client's receive brings: the record of the server, nothing since the server has closed the
-- connection, or an error.
pub data Received : Type 0 where
  arrived : Dictrec → Received
  closed : Received
  recv_fails : Received

-- How a client's `lookup` ends.
pub data Outcome : Type 0 where
  quits : Outcome
  gives : Status → Dictrec → Outcome

-- The last test of the clients: a text other than XXXX is an answer.
unfoldable pub judge : Dictrec → Outcome
judge sought =
    if not (str_eq sought.text missing) then gives found sought else gives not_found sought

-- The exchange of a request and its answer. A receive of no bytes leaves the record as it was.
unfoldable pub exchange : Bool → Received → Dictrec → Outcome
unfolding judge
exchange sent (arrived r) sought = if sent then judge r else quits
exchange sent closed sought = if sent then judge sought else quits
exchange sent recv_fails sought = quits

-- lookup7.c. The first call makes the socket and connects it.
unfoldable pub lookup7 : Bool → Calls → Received → Dictrec → Outcome
unfolding exchange
lookup7 first_time io received sought =
    if first_time && not (io 0 && io 1) then quits else exchange (io 2) received sought

-- The result of `inet_pton`: 1, 0 for a text that is no address, or -1.
pub data Pton : Type 0 where
  parsed invalid unsupported : Pton

abbrev pton_ok : Pton → Bool
pton_ok unsupported = false
pton_ok _ = true

-- lookup8.c. The first call converts the address, makes the socket and connects it.
unfoldable pub lookup8 : Bool → Pton → Calls → Received → Dictrec → Outcome
unfolding exchange
lookup8 first_time pton io received sought =
    if first_time && not (pton_ok pton && io 0 && io 1)
    then quits
    else exchange (io 2) received sought

-- lookup9.c. The first call converts the address and makes the socket, which is never connected.
unfoldable pub lookup9 : Bool → Pton → Calls → Received → Dictrec → Outcome
unfolding exchange
lookup9 first_time pton io received sought =
    if first_time && not (pton_ok pton && io 0) then quits else exchange (io 1) received sought
