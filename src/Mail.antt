-- ===== src/Mail.antt =====
-- SP_HW/SP_HW8/46-2: a server that gives out sequence numbers (server.c) and its clients (client.c), over
-- one System V message queue. An int is its pattern of 32 bits.
pub mod Granted
pub mod Ranges
use sp_hw.Base.{
  ℕ, zero, suc, ◌+◌, ◌%◌, ◌<◌, ◌≤◌, ◌≡◌, ◌≢◌, List, [], ◌∷◌, ◌++◌, Option, none, some, update,
}
use sp_hw.Ranges.{Grant, advance}

-- `struct message`.
pub record Message : Type 0 where
  pub mtype : ℕ
  pub seq_num : ℕ
  pub request_value : ℕ

abbrev pub req_msg_type : ℕ
req_msg_type = 1

-- `msgrcv` takes the first message of a type out of the queue.
pub data Takes (wanted : ℕ) : List Message → Message → List Message → Type 0 where
  head_fits :
      {m : Message} {queue : List Message} → m.mtype ≡ wanted → Takes wanted (m ∷ queue) m queue
  passes_over :
      {m m' : Message} {queue rest : List Message}
      → m'.mtype ≢ wanted
      → Takes wanted queue m rest
      → Takes wanted (m' ∷ queue) m (m' ∷ rest)

-- Where a client stands: in front of its `msgsnd`, of its `msgrcv`, and behind it with its number.
pub data Client : Type 0 where
  asking awaiting : Client
  received : ℕ → Client

-- Where the server stands: in front of `msgrcv`, or in front of `msgsnd` with the response.
pub data Server : Type 0 where
  listening : Server
  answering : Message → Server

-- The clients by process id, the server, `seq_num`, the queue, and the responses made so far, the
-- last one first.
pub data State : Type 0 where
  state : (ℕ → Client) → Server → ℕ → List Message → List Grant → State

-- The request of a client, and the response of the server.
unfoldable pub make_request : ℕ → ℕ → Message
make_request pid increment = record {
  mtype = req_msg_type;
  seq_num = pid;
  request_value = increment;
}

unfoldable pub make_response : ℕ → Message → Message
make_response seq_num m = record m { mtype = m.seq_num; seq_num = seq_num }

-- The steps, by the increment that each client was started with. A process id of a client is 2 or
-- more, and a `msgsnd` of the server may fail.
pub data Step (increment : ℕ → ℕ) : State → State → Type 0 where
  ask :
      {cs : ℕ → Client} {p : Server} {n : ℕ} {queue : List Message} {log : List Grant} (pid : ℕ)
      → 2 ≤ pid
      → cs pid ≡ asking
      → Step increment
          (state cs p n queue log)
          (state (update pid awaiting cs) p n (queue ++ make_request pid (increment pid) ∷ []) log)
  serve :
      {cs : ℕ → Client} {n : ℕ} {queue rest : List Message} {log : List Grant} {m : Message}
      → Takes req_msg_type queue m rest
      → Step increment (state cs listening n queue log) (
          state cs
            (answering (make_response n m))
            (advance n m.request_value)
            rest
            (record { client = m.seq_num; start = n; count = m.request_value } ∷ log))
  answer :
      {cs : ℕ → Client} {n : ℕ} {queue : List Message} {log : List Grant} {m : Message}
      → Step increment
          (state cs (answering m) n queue log)
          (state cs listening n (queue ++ m ∷ []) log)
  answer_fails :
      {cs : ℕ → Client} {n : ℕ} {queue : List Message} {log : List Grant} {m : Message}
      → Step increment (state cs (answering m) n queue log) (state cs listening n queue log)
  get :
      {cs : ℕ → Client} {p : Server} {n : ℕ} {queue rest : List Message} {log : List Grant}
      {m : Message} (pid : ℕ)
      → 2 ≤ pid
      → cs pid ≡ awaiting
      → Takes pid queue m rest
      → Step increment
          (state cs p n queue log)
          (state (update pid (received m.seq_num) cs) p n rest log)

pub data Reach (increment : ℕ → ℕ) : State → Type 0 where
  here : Reach increment (state (λ pid. asking) listening 0 [] [])
  next : {s t : State} → Reach increment s → Step increment s t → Reach increment t
