-- ===== src/Router.antt =====
-- SP_quiz/quiz_3: three nodes (node.c) are connected to a router (router.c), which passes their messages
-- on. The connections have the numbers 0, 1 and 2, and a node is addressed by one more.
pub mod Deliveries
use sp_hw.Base.{
  ℕ, zero, suc, ◌+◌, ◌<◌, ◌≤◌, ◌≡◌, ◌≢◌, Bool, true, false, List, [], ◌∷◌, ◌++◌, Option, none, some,
  if◌then◌else◌, ltb, update, Bytes,
}

-- `struct message`.
pub record Message : Type 0 where
  pub sender : ℕ
  pub receiver : ℕ
  pub buf : Bytes

-- A message that the router wrote: the connection it came from, the message that was read, the
-- connection it went to, and the message that was written.
pub record Delivery : Type 0 where
  pub from : ℕ
  pub original : Message
  pub onto : ℕ
  pub copy : Message

abbrev pub connections : ℕ
connections = 3

-- The loop over j of a message to all, from the connections left to go.
unfoldable pub send_all : ℕ → Message → ℕ → ℕ → List Delivery
send_all i m j zero = []
send_all i m j (suc left) =
    record { from = i; original = m; onto = j; copy = record m { receiver = j + 1 } }
    ∷ send_all i m (suc j) left

-- What the router writes for a message that it has read from connection i. `none` is an index behind
-- the array of connections.
unfoldable pub route_to : ℕ → Message → ℕ → Option (List Delivery)
unfolding send_all
route_to i m zero = some (send_all i m 0 i)
route_to i m (suc j) =
    if ltb j connections
    then some (record { from = i; original = m; onto = j; copy = m } ∷ [])
    else none

unfoldable pub route : ℕ → Message → Option (List Delivery)
unfolding route_to
route i m = route_to i m m.receiver

-- The message that a node writes, unless it has; the bytes on their way to the router, by
-- connection; the connection that the router reads; whether a node has closed its end; and what
-- was delivered.
pub record State : Type 0 where
  pub unsent : ℕ → Option Message
  pub inbox : ℕ → List Message
  pub reading : ℕ
  pub closed : ℕ → Bool
  pub delivered : List Delivery

-- `i++` in the loop over the connections, again and again.
unfoldable pub next_connection : ℕ → ℕ
next_connection i = if ltb (i + 1) connections then i + 1 else 0

-- A node writes its message once, and then reads until the router closes the connection, which the
-- router never does: no step closes one. The router goes on to the next connection when a read
-- returns 0.
pub data Step (s : State) : State → Type 0 where
  node_writes :
      {m : Message} (i : ℕ)
      → i < connections
      → s.unsent i ≡ some m
      → Step s (record s {
        unsent = update i none s.unsent;
        inbox = update i (s.inbox i ++ m ∷ []) s.inbox;
      })
  router_reads :
      {m : Message} {rest : List Message} {written : List Delivery}
      → s.inbox s.reading ≡ m ∷ rest
      → route s.reading m ≡ some written
      → Step s
          (record s { inbox = update s.reading rest s.inbox; delivered = s.delivered ++ written })
  router_goes_on :
      s.inbox s.reading ≡ []
      → s.closed s.reading ≡ true
      → Step s (record s { reading = next_connection s.reading })

-- All nodes are connected, each with its message.
abbrev pub initial : (ℕ → Message) → State
initial messages = record {
  unsent = λ i. some (messages i);
  inbox = λ i. [];
  reading = 0;
  closed = λ i. false;
  delivered = [];
}

pub data Reach (messages : ℕ → Message) : State → Type 0 where
  here : Reach messages (initial messages)
  next : {s t : State} → Reach messages s → Step s t → Reach messages t
