-- ===== src/Fetch/Queues.antt =====
-- The requests that the server of SP_HW9/52_3 meets, and what arrives in the queue of a client.
use sp_hw.Base.{
  ℕ, suc, ◌≡◌, ◌≢◌, refl, ap, ◌∙◌, true, List, [], ◌∷◌, ◌++◌, Option, if◌then◌else◌, append-nil,
  All, Bytes, str_eq, str_eq_self, str_eq-other, Calls,
}
use sp_hw.Fetch.{serve_request}
use sp_hw.Fetch.Request.{
  named_queue, named_file, Event, interrupted, broken, arrived, server_main, answers,
}

-- No error of `mq_receive` but EINTR.
abbrev pub Unbroken : List Event → Type 0
Unbroken [] = Unit
Unbroken (interrupted ∷ events) = Unbroken events
Unbroken (broken ∷ events) = ⊥
Unbroken (arrived mem ∷ events) = Unbroken events

abbrev pub requests_of : List Event → List Bytes
requests_of [] = []
requests_of (interrupted ∷ events) = requests_of events
requests_of (broken ∷ events) = requests_of events
requests_of (arrived mem ∷ events) = mem ∷ requests_of events

-- Requests of other clients.
abbrev pub Others : Bytes → List Bytes → Type 0
Others own requests = All (λ mem. named_queue mem ≢ own) requests

pub server_main-requests_of :
    (forks : Calls) (k : ℕ) (events : List Event)
    → ((j : ℕ) → forks j ≡ true)
    → Unbroken events
    → server_main forks k events ≡ requests_of events
unfolding server_main
server_main-requests_of forks k [] f h = refl
server_main-requests_of forks k (interrupted ∷ events) f h =
    server_main-requests_of forks k events f h
server_main-requests_of forks k (broken ∷ events) f h = absurd h
server_main-requests_of forks k (arrived mem ∷ events) f h =
    rw (f k) (ap (◌∷◌ mem) (server_main-requests_of forks (suc k) events f h))

pub requests_of-append :
    (front back : List Event) → requests_of (front ++ back) ≡ requests_of front ++ requests_of back
requests_of-append [] back = refl
requests_of-append (interrupted ∷ front) back = requests_of-append front back
requests_of-append (broken ∷ front) back = requests_of-append front back
requests_of-append (arrived mem ∷ front) back = ap (◌∷◌ mem) (requests_of-append front back)

pub Unbroken-append :
    (front : List Event) (mem : Bytes) (back : List Event)
    → Unbroken front
    → Unbroken back
    → Unbroken (front ++ arrived mem ∷ back)
Unbroken-append [] mem back h k = k
Unbroken-append (interrupted ∷ front) mem back h k = Unbroken-append front mem back h k
Unbroken-append (broken ∷ front) mem back h k = absurd h
Unbroken-append (arrived m ∷ front) mem back h k = Unbroken-append front mem back h k

module _ (own before : Bytes) (sends : Calls) (files : Bytes → Option (List Bytes)) where
  pub answers-Others :
      (requests : List Bytes) → Others own requests → answers own before sends files requests ≡ []
  unfolding answers
  answers-Others [] h = refl
  answers-Others (mem ∷ requests) h = rw (str_eq-other (h.0)) (answers-Others requests (h.1))

  answers_cons :
      (mem : Bytes) (requests : List Bytes)
      → answers own before sends files (mem ∷ requests) ≡ (
          if str_eq (named_queue mem) own
          then serve_request true before sends (files (named_file mem))
            ++ answers own before sends files requests
          else answers own before sends files requests)
  unfolding answers
  answers_cons mem requests = refl

  pub answers-own :
      (mem : Bytes) (requests : List Bytes)
      → named_queue mem ≡ own
      → Others own requests
      → answers own before sends files (mem ∷ requests)
        ≡ serve_request true before sends (files (named_file mem))
  answers-own mem requests e h =
      let part = serve_request true before sends (files (named_file mem)) in
      let rest = answers own before sends files requests in
      answers_cons mem requests
      ∙ ap (λ q. if str_eq q own then part ++ rest else rest) e
      ∙ ap (λ b. if b then part ++ rest else rest) (str_eq_self own)
      ∙ ap (λ r. part ++ r) (answers-Others requests h)
      ∙ append-nil part

  pub answers-front :
      (front requests : List Bytes)
      → Others own front
      → answers own before sends files (front ++ requests) ≡ answers own before sends files requests
  unfolding answers
  answers-front [] requests h = refl
  answers-front (mem ∷ front) requests h =
      rw (str_eq-other (h.0)) (answers-front front requests (h.1))
