-- ===== src/Tickets.antt =====
-- SP_HW/SP_HW8/44-6/fifo_seqnum_server.c: a server that gives each client a range of numbers and
-- answers through the FIFO of the client. An int is its pattern of 32 bits.
pub mod Retries
pub mod Ranges
pub mod Clients
pub mod Received
pub mod Once
pub mod Abandoned
use sp_hw.Base.{ℕ, zero, suc, ◌+◌, ◌≡◌, Bool, true, false, List, [], ◌∷◌, Option, some, none}
use Prim.Native.Nat.{◌%◌}

-- What `open(clientFifo, O_WRONLY|O_NONBLOCK)` does: it succeeds, fails with ENXIO since nobody
-- reads, or fails in another way.
pub data Opening : Type 0 where
  opened not_ready failed : Opening

-- `struct request`.
pub record Request : Type 0 where
  pub pid : ℕ
  pub seq_len : ℕ

-- What meets the server in one turn of its loop: a read that is too short, or a request, with the
-- answers of the successive opens, whether the blocking mode can be reset, and whether the response
-- can be written.
pub data Event : Type 0 where
  short_read : Event
  request : Request → (ℕ → Opening) → (flags_reset written : Bool) → Event

-- A response: to whom, `seqNum`, how many numbers were asked for, and whether it was written.
pub record Grant : Type 0 where
  pub client : ℕ
  pub start : ℕ
  pub count : ℕ
  pub delivered : Bool

-- What a turn comes to: `continue`, a response, or the end of the server.
pub data Turn : Type 0 where
  skips : Turn
  grants : Grant → Turn
  exits : Turn

abbrev pub max_retries : ℕ
max_retries = 5

abbrev pub int_size : ℕ
int_size = 4294967296

abbrev pub int_max : ℕ
int_max = 2147483647

unfoldable pub add_int : ℕ → ℕ → ℕ
add_int a b = (a + b) % int_size

-- The loop around `open`, with the retries made and those that are left.
unfoldable pub try_open : (ℕ → Opening) → ℕ → ℕ → Option ℕ
try_open opens retries zero = elim (opens retries) [
  | opened ↦ some retries
  | not_ready ↦ none
  | failed ↦ none
]
try_open opens retries (suc left) = elim (opens retries) [
  | opened ↦ some retries
  | not_ready ↦ try_open opens (suc retries) left
  | failed ↦ none
]

-- The number of retries behind which the FIFO is open.
abbrev pub open_client : (ℕ → Opening) → Option ℕ
open_client opens = try_open opens 0 max_retries

unfoldable pub respond : ℕ → Request → Bool → Bool → Option ℕ → Turn
respond seq_num req flags_reset written none = skips
respond seq_num req false written (some retries) = exits
respond seq_num req true written (some retries) =
    grants (record { client = req.pid; start = seq_num; count = req.seq_len; delivered = written })

unfoldable pub turn : ℕ → Event → Turn
turn seq_num short_read = skips
turn seq_num (request req opens flags_reset written) =
    respond seq_num req flags_reset written (open_client opens)

-- The responses of the server, from the number it has come to.
unfoldable pub serve : ℕ → List Event → List Grant
serve seq_num [] = []
serve seq_num (e ∷ events) = elim (turn seq_num e) [
  | skips ↦ serve seq_num events
  | grants g ↦ g ∷ serve (add_int seq_num (g.count)) events
  | exits ↦ []
]
