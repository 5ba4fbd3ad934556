-- ===== src/Fetch/Served.antt =====
-- From the argument of a client of SP_HW9/52_3 to what it prints.
use sp_hw.Base.{
  ℕ, suc, ◌<◌, ◌≤◌, ◌≡◌, ◌≢◌, refl, sym, ap, ◌∙◌, true, List, [], ◌∷◌, ◌++◌, Option, some,
  if◌then◌else◌, ltb, ltb-true, length, length-append, ltb-false, Bool-cases, inl, inr, All, joined,
  Bytes, Calls, arith,
}
use sp_hw.Fetch.{Response, serve_request, content_size, complete, overruns, waiting, receive}
use sp_hw.Fetch.Blocks.{HasNoNul, RegularReads, receive-serve_request}
use sp_hw.Fetch.Request.{
  name_size, queue_name, named_queue, Event, arrived, server_main, answers, fetched, on_request,
  client_main,
}
use sp_hw.Fetch.Names.{AreNames, filled, fill_request-filled, named_file-filled, named_queue-filled}
use sp_hw.Fetch.Queues.{
  Unbroken, requests_of, Others, server_main-requests_of, requests_of-append, Unbroken-append,
  answers-Others, answers-own, answers-front,
}

-- A client with the digits of its process id, and the events that the server meets around its request.
pub record Asker : Type 0 where
  pub pid_digits : Bytes
  pub file : Bytes
  pub front : List Event
  pub back : List Event

abbrev pub own_queue : Asker → Bytes
own_queue s = queue_name s.pid_digits

abbrev pub events_of : Asker → Bytes → List Event
events_of s mem = s.front ++ arrived mem ∷ s.back

-- The names fit the request, and `mq_receive` and `fork` serve every request, the other ones of which name
-- other queues.
pub record IsServed (s : Asker) (before : Bytes) (forks : Calls) : Type 0 where
  pub names : AreNames (own_queue s) s.file before
  pub named : s.file ≢ []
  pub front_unbroken : Unbroken s.front
  pub back_unbroken : Unbroken s.back
  pub front_others : Others (own_queue s) (requests_of s.front)
  pub back_others : Others (own_queue s) (requests_of s.back)
  pub all_forked : (j : ℕ) → forks j ≡ true

on_request-received :
    (io : Calls) (mem : Bytes) (reply : Bytes → List Response)
    → ((j : ℕ) → io j ≡ true)
    → on_request io (some mem) reply ≡ fetched (receive (reply mem))
on_request-received io mem reply o = rw (o 2, o 3) refl

-- What the client gets if its request names its own queue, and nothing otherwise.
module _ (s : Asker) (before held : Bytes) (forks sends : Calls)
    (files : Bytes → Option (List Bytes)) (i : IsServed s before forks) where
  abbrev pub reply_of : Bytes → List Response
  reply_of mem = answers (own_queue s) held sends files (server_main forks 0 (events_of s mem))

  abbrev mem_of : Bytes
  mem_of = filled (own_queue s) s.file before

  reply-answers :
      reply_of mem_of ≡ answers (own_queue s) held sends files (mem_of ∷ requests_of s.back)
  reply-answers =
      ap (answers (own_queue s) held sends files) (
        server_main-requests_of forks 0 (events_of s mem_of) i.all_forked
          (Unbroken-append s.front mem_of s.back i.front_unbroken i.back_unbroken)
        ∙ requests_of-append s.front (arrived mem_of ∷ s.back))
      ∙ answers-front (own_queue s) held sends files (requests_of s.front)
          (mem_of ∷ requests_of s.back) i.front_others

  reply_short :
      length (own_queue s) < name_size
      → reply_of mem_of ≡ serve_request true held sends (files s.file)
  reply_short l =
      reply-answers
      ∙ answers-own (own_queue s) held sends files mem_of (requests_of s.back)
          (named_queue-filled (own_queue s) s.file before i.names
            ∙ rw (ltb-true (length (own_queue s)) name_size l) refl)
          i.back_others
      ∙ ap (λ f. serve_request true held sends (files f))
          (named_file-filled (own_queue s) s.file before i.names)

  longer : (file : Bytes) → file ≢ [] → own_queue s ++ file ≢ own_queue s
  longer [] h e = h refl
  longer (c ∷ file) h e = omega (arith, ap length e, length-append (own_queue s) (c ∷ file))

  reply_long : name_size ≤ length (own_queue s) → reply_of mem_of ≡ []
  reply_long l =
      let seen : named_queue mem_of ≡ own_queue s ++ s.file =
        named_queue-filled (own_queue s) s.file before i.names
        ∙ rw (ltb-false (length (own_queue s)) name_size l) refl in
      reply-answers
      ∙ answers-Others (own_queue s) held sends files (mem_of ∷ requests_of s.back)
          ((λ e. longer s.file i.named (sym seen ∙ e)), i.back_others)

  client_main-received :
      (io : Calls)
      → ((j : ℕ) → io j ≡ true)
      → client_main io (some s.file) s.pid_digits before reply_of
        ≡ fetched (receive (reply_of mem_of))
  unfolding client_main
  client_main-received io o =
      rw (o 0, o 1)
        (ap (λ m. on_request io m reply_of)
            (fill_request-filled (own_queue s) s.file before i.names)
          ∙ on_request-received io mem_of reply_of o)

-- A client asks for a regular file whose bytes are not zero, and no call of the client fails: among the
-- requests of other clients it prints the file if that is shorter than the array of a message, and reads
-- behind the array otherwise; if the name of its queue fills the array of the request, that is for a process
-- id of seven digits, it waits for ever.
pub client_main-served :
    (s : Asker) (before held : Bytes) (forks sends io : Calls) (files : Bytes → Option (List Bytes))
    (blocks : List Bytes)
    → IsServed s before forks
    → ((j : ℕ) → sends j ≡ true)
    → ((j : ℕ) → io j ≡ true)
    → files s.file ≡ some blocks
    → RegularReads blocks
    → All HasNoNul blocks
    → client_main io
        (some s.file)
        s.pid_digits
        before
        (λ mem. answers (own_queue s) held sends files (server_main forks 0 (events_of s mem)))
      ≡ (if ltb (length (own_queue s)) name_size
          then fetched (
              if ltb (length (joined blocks)) content_size
              then complete (joined blocks) (suc (length blocks))
              else overruns [])
          else fetched (waiting []))
unfolding receive
client_main-served s before held forks sends io files blocks i sent o e r h =
    client_main-received s before held forks sends files i io o
    ∙ elim (Bool-cases (ltb (length (own_queue s)) name_size)) [
      | inl l ↦ rw l (
          ap fetched (
            ap receive (
              reply_short s before held forks sends files i (ground arith)
              ∙ ap (serve_request true held sends) e)
            ∙ receive-serve_request held sends blocks sent r h))
      | inr l ↦ rw l (
          ap (λ ms. fetched (receive ms))
            (reply_long s before held forks sends files i (ground arith)))
    ]
