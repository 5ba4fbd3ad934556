-- ===== src/Tickets/Clients.antt =====
-- SP_HW/SP_HW8/44-6: the server (fifo_seqnum_server.c) and any number of clients (fifo_seqnum_client.c)
-- over the FIFO of the server and that of each client, in steps of single calls.
use sp_hw.Base.{Bool, true, false, ℕ, suc, ◌<◌, ◌≡◌, List, [], ◌∷◌, ◌++◌, update}
use sp_hw.Ranges.{Grant, advance}
use sp_hw.Tickets.{Request, max_retries}

-- Where a client stands: in front of the `write` of its request, whose FIFO it has made, in front of its
-- `open`, in that, which waits for a writer, in front of its `read` with nothing in the FIFO or with a
-- response there, behind its `printf`, and at an exit because one of its calls failed.
pub data Client : Type 0 where
  starting sent opening reading : Client
  answered printed : ℕ → Client
  gone : Client

-- Whether the next call of a client may fail, so that the client ends.
abbrev pub may_fail : Client → Bool
may_fail (printed m) = false
may_fail gone = false
may_fail _ = true

-- Where the server stands: in front of its `read`, in the loop around `open` with the retries made, with
-- the FIFO of a client open, or at its exit.
pub data Server : Type 0 where
  listening : Server
  trying : Request → ℕ → Server
  holding : Request → Server
  ended : Server

-- The clients by process id, the server, `seqNum`, the FIFO of the server, and the responses made so far,
-- the last one first.
pub data State : Type 0 where
  state : (ℕ → Client) → Server → ℕ → List Request → List Grant → State

abbrev pub request_of : ℕ → ℕ → Request
request_of pid len = record { pid = pid; seq_len = len }

abbrev pub response_to : Request → ℕ → Grant
response_to req n = record { client = req.pid; start = n; count = req.seq_len }

-- The steps, by the length that each client was started with. The `open` of the server succeeds if the
-- client is in its own, and fails with ENXIO in front of it; or it fails in another way. A `read` of the server
-- may fail; it does not bring a part of a request, since each is written whole.
pub data Step (len : ℕ → ℕ) : State → State → Type 0 where
  send :
      {cs : ℕ → Client} {p : Server} {n : ℕ} {queue : List Request} {log : List Grant} (pid : ℕ)
      → cs pid ≡ starting
      → Step len
          (state cs p n queue log)
          (state (update pid sent cs) p n (queue ++ request_of pid (len pid) ∷ []) log)
  open_own :
      {cs : ℕ → Client} {p : Server} {n : ℕ} {queue : List Request} {log : List Grant} (pid : ℕ)
      → cs pid ≡ sent
      → Step len (state cs p n queue log) (state (update pid opening cs) p n queue log)
  client_fails :
      {cs : ℕ → Client} {p : Server} {n : ℕ} {queue : List Request} {log : List Grant} (pid : ℕ)
      → may_fail (cs pid) ≡ true
      → Step len (state cs p n queue log) (state (update pid gone cs) p n queue log)
  read_fails :
      {cs : ℕ → Client} {n : ℕ} {queue : List Request} {log : List Grant}
      → Step len (state cs listening n queue log) (state cs listening n queue log)
  take_request :
      {cs : ℕ → Client} {n : ℕ} {queue : List Request} {log : List Grant} {req : Request}
      → Step len (state cs listening n (req ∷ queue) log) (state cs (trying req 0) n queue log)
  retry :
      {cs : ℕ → Client} {n k : ℕ} {queue : List Request} {log : List Grant} {req : Request}
      → cs req.pid ≡ sent
      → k < max_retries
      → Step len (state cs (trying req k) n queue log) (state cs (trying req (suc k)) n queue log)
  give_up :
      {cs : ℕ → Client} {n k : ℕ} {queue : List Request} {log : List Grant} {req : Request}
      → cs req.pid ≡ sent
      → k ≡ max_retries
      → Step len (state cs (trying req k) n queue log) (state cs listening n queue log)
  open_fails :
      {cs : ℕ → Client} {n k : ℕ} {queue : List Request} {log : List Grant} {req : Request}
      → Step len (state cs (trying req k) n queue log) (state cs listening n queue log)
  connect :
      {cs : ℕ → Client} {n k : ℕ} {queue : List Request} {log : List Grant} {req : Request}
      → cs req.pid ≡ opening
      → Step len
          (state cs (trying req k) n queue log)
          (state (update req.pid reading cs) (holding req) n queue log)
  flags_fail :
      {cs : ℕ → Client} {n : ℕ} {queue : List Request} {log : List Grant} {req : Request}
      → Step len
          (state cs (holding req) n queue log)
          (state (update req.pid gone cs) ended n queue log)
  respond :
      {cs : ℕ → Client} {n : ℕ} {queue : List Request} {log : List Grant} {req : Request}
      → cs req.pid ≡ reading
      → Step len (state cs (holding req) n queue log) (
          state
            (update req.pid (answered n) cs)
            listening
            (advance n req.seq_len)
            queue
            (response_to req n ∷ log))
  write_fails :
      {cs : ℕ → Client} {n : ℕ} {queue : List Request} {log : List Grant} {req : Request}
      → Step len (state cs (holding req) n queue log) (
          state
            (update req.pid gone cs)
            listening
            (advance n req.seq_len)
            queue
            (response_to req n ∷ log))
  print :
      {cs : ℕ → Client} {p : Server} {n m : ℕ} {queue : List Request} {log : List Grant} (pid : ℕ)
      → cs pid ≡ answered m
      → Step len (state cs p n queue log) (state (update pid (printed m) cs) p n queue log)

pub data Run (len : ℕ → ℕ) (s : State) : State → Type 0 where
  here : Run len s s
  next : {t u : State} → Run len s t → Step len t u → Run len s u

abbrev pub initial : State
initial = state (λ pid. starting) listening 0 [] []

abbrev pub client_of : State → ℕ → Client
client_of (state cs p n queue log) = cs

abbrev pub log_of : State → List Grant
log_of (state cs p n queue log) = log

abbrev pub server_of : State → Server
server_of (state cs p n queue log) = p
