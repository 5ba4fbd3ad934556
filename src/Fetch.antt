-- ===== src/Fetch.antt =====
-- SP_HW/SP_HW9/52_3: a client asks a server for a file, and the server sends it in messages to the
-- queue of the client (posixmq_file_server.c, posixmq_file_client.c). A message is received in the
-- order in which it was sent.
pub mod Blocks
pub mod Failures
pub mod Request
pub mod Names
pub mod Queues
pub mod Served
use sp_hw.Base.{
  ℕ, zero, suc, ◌+◌, ◌-◌, Bool, true, false, List, [], ◌∷◌, ◌++◌, Option, none, some, if◌then◌else◌,
  ltb, length, replicate, Bytes, codes, cstr, Calls,
}

-- RESP_TYPE_FAILURE, RESP_TYPE_DATA and RESP_TYPE_END
pub data Kind : Type 0 where
  failure data_kind end_kind : Kind

-- `struct res`: the type and the array `content`.
pub record Response : Type 0 where
  pub kind : Kind
  pub content : Bytes

-- sizeof(response.content)
abbrev pub content_size : ℕ
content_size = 128

-- A block read into an array of zeros.
unfoldable pub in_array : Bytes → Bytes
in_array block = block ++ replicate (content_size - length block) 0

-- The message behind the loop. Its content is what the array holds then.
unfoldable pub send_end : Calls → ℕ → Bytes → List Response
send_end sends k content =
    if sends k then record { kind = end_kind; content = content } ∷ [] else []

-- The loop over the blocks that `read` brings, before its 0 or -1, with the number of the next
-- `mq_send`. A send that fails ends the loop.
unfoldable pub send_blocks : Calls → ℕ → List Bytes → List Response
unfolding send_end in_array
send_blocks sends k [] = send_end sends k (in_array [])
send_blocks sends k (block ∷ blocks) =
    let rest = send_blocks sends (suc k) blocks in
    if sends k
    then record { kind = data_kind; content = in_array block } ∷ rest
    else send_end sends (suc k) (in_array block)

abbrev pub not_opened : Bytes
not_opened = codes "Couldn't open the file\n"

-- What arrives in the queue of the client: nothing if the queue cannot be opened, a failure if the
-- file cannot, and its blocks otherwise. The array is not set before the failure: behind the text
-- stands what was there.
unfoldable pub serve_request : Bool → Bytes → Calls → Option (List Bytes) → List Response
unfolding send_blocks
serve_request false before sends file = []
serve_request true before sends none =
    if sends 0 then record { kind = failure; content = not_opened ++ 0 ∷ before } ∷ [] else []
serve_request true before sends (some blocks) = send_blocks sends 0 blocks

-- How the client ends: with a failure, with the number of its messages, waiting for a message that
-- does not come, or in a `printf` that reads behind the array. The bytes are those printed.
pub data Fetched : Type 0 where
  refused : Bytes → Fetched
  complete : Bytes → ℕ → Fetched
  waiting : Bytes → Fetched
  overruns : Bytes → Fetched

-- `printf("%s", response.content)` needs a NUL in the array.
unfoldable pub shown : Bytes → Option Bytes
unfolding cstr
shown content = if ltb (length (cstr content)) content_size then some (cstr content) else none

-- Behind a message that was printed: the loop goes on as long as the type is DATA. `receive_next` is
-- its next round, with what is printed.
unfoldable pub after_message : Kind → Bytes → ℕ → Fetched → Fetched
after_message data_kind printed count next_round = next_round
after_message failure printed count next_round = complete printed count
after_message end_kind printed count next_round = complete printed count

unfoldable pub after_print : Option Bytes → Kind → Bytes → ℕ → (Bytes → Fetched) → Fetched
unfolding after_message
after_print none kind printed count next_round = overruns printed
after_print (some text) kind printed count next_round =
    after_message kind (printed ++ text) count (next_round (printed ++ text))

-- The loop of the client, with what is printed and the messages received so far.
unfoldable pub receive_rest : List Response → Bytes → ℕ → Fetched
unfolding after_print shown
receive_rest [] printed count = waiting printed
receive_rest (m ∷ messages) printed count =
    after_print (shown m.content) m.kind printed (suc count)
      (λ now. receive_rest messages now (suc count))

unfoldable pub after_first : Kind → Option Bytes → (Bytes → Fetched) → Fetched
after_first kind none next_round = overruns []
after_first failure (some text) next_round = refused text
after_first data_kind (some text) next_round = next_round text
after_first end_kind (some text) next_round = complete text 1

-- The client, from its first message on.
unfoldable pub receive : List Response → Fetched
unfolding receive_rest after_first shown
receive [] = waiting []
receive (m ∷ messages) = after_first m.kind (shown m.content) (λ text. receive_rest messages text 1)
