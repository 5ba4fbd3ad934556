-- ===== src/Exchange.antt =====
-- SP_HW/SP_HW12: clients (lookup6.c) ask a server (shm_server.c) through one record of shared memory.
-- Semaphore 0 excludes the other clients; a client raises semaphore 1 by two, and the server lowers it
-- by one in front of its lookup and behind it. The kernel undoes what a client that ends has added to semaphore
-- 1. A word is taken to fit its array.
pub mod Turns
pub mod Holder
pub mod Mutex
pub mod Answers
use sp_hw.Base.{
  update, ℕ, zero, suc, ◌+◌, ◌-◌, ◌≡◌, Bool, true, false, Option, none, some, if◌then◌else◌, ◌==◌,
  Bytes, str_eq,
}
use sp_hw.Dict.Record.{Dictrec, missing}

-- Where a client stands in `lookup`: in front of the grab, the `strcpy` of the word, the alert, the
-- await, the release, and the `strcmp`; or outside it, before the first call or with what the last
-- call found; or behind its end.
pub data Client : Type 0 where
  idle gone : Client
  grabbing copying alerting awaiting releasing comparing : Bytes → Client
  returned : Bytes → Option Bytes → Client

-- Where the server stands: in front of the first `semop`, of its lookup, and of the second `semop`.
pub data Server : Type 0 where
  sleeping looking notifying : Server

-- The server, the values of semaphores 0 and 1, and the record in shared memory.
pub data Shared : Type 0 where
  shared : Server → ℕ → ℕ → Dictrec → Shared

-- The clients by number, what each has added to semaphore 1, and what they share.
pub data State : Type 0 where
  state : (ℕ → Client) → (ℕ → ℕ) → Shared → State

-- What the text of the record says when the lookup of a word has ended.
abbrev pub text_for : Option Bytes → Bytes
text_for none = missing
text_for (some text) = text

-- What a client takes from the text.
unfoldable pub read_text : Bytes → Option Bytes
unfolding str_eq
read_text text = if str_eq text missing then none else some text

-- The steps of a client. A new call of `lookup` may begin with any word.
pub data ClientStep : Client → Shared → Client → Shared → Type 0 where
  begin : {v : Shared} {word : Bytes} → ClientStep idle v (grabbing word) v
  begin_again :
      {v : Shared} {old word : Bytes} {result : Option Bytes}
      → ClientStep (returned old result) v (grabbing word) v
  grab :
      {p : Server} {m a : ℕ} {r : Dictrec} {word : Bytes}
      → ClientStep (grabbing word) (shared p (suc m) a r) (copying word) (shared p m a r)
  copy_word :
      {p : Server} {m a : ℕ} {old text word : Bytes}
      → ClientStep
          (copying word)
          (shared p m a (record { word = old; text = text }))
          (alerting word)
          (shared p m a (record { word = word; text = text }))
  alert :
      {p : Server} {m a : ℕ} {r : Dictrec} {word : Bytes}
      → ClientStep (alerting word) (shared p m a r) (awaiting word) (shared p m (suc (suc a)) r)
  await :
      {p : Server} {m : ℕ} {r : Dictrec} {word : Bytes}
      → ClientStep (awaiting word) (shared p m 0 r) (releasing word) (shared p m 0 r)
  release :
      {p : Server} {m a : ℕ} {r : Dictrec} {word : Bytes}
      → ClientStep (releasing word) (shared p m a r) (comparing word) (shared p (suc m) a r)
  compare_text :
      {p : Server} {m a : ℕ} {r : Dictrec} {word : Bytes}
      → ClientStep
          (comparing word)
          (shared p m a r)
          (returned word (read_text (r.text)))
          (shared p m a r)

-- The steps of the server, by the lookup in its dictionary.
pub data ServerStep (find : Bytes → Option Bytes) : Shared → Shared → Type 0 where
  wake :
      {m a : ℕ} {r : Dictrec} → ServerStep find (shared sleeping m (suc a) r) (shared looking m a r)
  look :
      {m a : ℕ} {word text : Bytes}
      → ServerStep find
          (shared looking m a (record { word = word; text = text }))
          (shared notifying m a (record { word = word; text = text_for (find word) }))
  notify :
      {m a : ℕ} {r : Dictrec}
      → ServerStep find (shared notifying m (suc a) r) (shared sleeping m a r)

-- What the next step of a client adds to semaphore 1: the alert has SEM_UNDO.
abbrev pub adds : Client → ℕ
adds (alerting word) = 2
adds _ = 0

-- A client ends between two calls of `lookup`, or before the first.
abbrev pub may_end : Client → Bool
may_end idle = true
may_end (returned word result) = true
may_end _ = false

-- The undo of what a client has added, which does not go below 0. Its grabs and releases cancel each other.
abbrev pub undo : ℕ → Shared → Shared
undo n (shared p m a r) = shared p m (a - n) r

-- The processes take steps in any order.
pub data Step (find : Bytes → Option Bytes) : State → State → Type 0 where
  by_client :
      {clients : ℕ → Client} {added : ℕ → ℕ} {v w : Shared} {c : Client} (i : ℕ)
      → ClientStep (clients i) v c w
      → Step find
          (state clients added v)
          (state (update i c clients) (update i (added i + adds (clients i)) added) w)
  leave :
      {clients : ℕ → Client} {added : ℕ → ℕ} {v : Shared} (i : ℕ)
      → may_end (clients i) ≡ true
      → Step find (state clients added v) (state (update i gone clients) added (undo (added i) v))
  by_server :
      {clients : ℕ → Client} {added : ℕ → ℕ} {v w : Shared}
      → ServerStep find v w
      → Step find (state clients added v) (state clients added w)

pub data Reach (find : Bytes → Option Bytes) (s : State) : State → Type 0 where
  here : Reach find s s
  next : {t u : State} → Reach find s t → Step find t u → Reach find s u

-- The server has set semaphore 0 to 1 and semaphore 1 to 0, and no client has asked yet.
abbrev pub initial : Dictrec → State
initial r = state (λ i. idle) (λ i. 0) (shared sleeping 1 0 r)

abbrev pub client_of : State → ℕ → Client
client_of (state clients added v) = clients

abbrev pub shared_of : State → Shared
shared_of (state clients added v) = v

-- A client that has ended.
abbrev pub is_gone : Client → Bool
is_gone gone = true
is_gone _ = false
