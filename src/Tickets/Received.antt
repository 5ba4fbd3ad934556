-- ===== src/Tickets/Received.antt =====
-- The numbers that the clients of 44-6 print.
use sp_hw.Base.{
  some-inj, ℕ, ◌%◌, ◌≤◌, ◌≡◌, ◌≢◌, refl, sym, ap, ◌∙◌, subst, List, [], ◌∷◌, ◌++◌, Option, some,
  none, All, update, update_all,
}
use sp_hw.Ranges.{
  int_patterns, int_max, Grant, Logged, latest, older, total, Starts, Apart, Logged-Apart, advance,
  advance-total,
}
use sp_hw.Tickets.{Request}
use sp_hw.Tickets.Clients.{
  Client, sent, opening, reading, answered, printed, gone, Server, listening, trying, holding,
  State, state, request_of, response_to, Step, send, open_own, client_fails, read_fails, open_fails,
  take_request, retry, give_up, connect, flags_fail, respond, write_fails, print, Run, here, next,
  initial, client_of, log_of,
}

-- The number that a client has, in its FIFO or printed.
abbrev pub number_of : Client → Option ℕ
number_of (answered m) = some m
number_of (printed m) = some m
number_of _ = none

module _ (len : ℕ → ℕ) where
  abbrev pub grant_to : ℕ → ℕ → Grant
  grant_to pid n = record { client = pid; start = n; count = len pid }

  -- A request with the length of its client.
  abbrev IsOwn : Request → Type 0
  IsOwn req = req.seq_len ≡ len req.pid

  abbrev Serves : Server → Type 0
  Serves (trying req k) = IsOwn req
  Serves (holding req) = IsOwn req
  Serves _ = Unit

  -- A number that a client has stands in the log.
  abbrev IsGiven : List Grant → ℕ → Client → Type 0
  IsGiven log pid c = (m : ℕ) → number_of c ≡ some m → Logged (grant_to pid m) log

  record IsOrderly (cs : ℕ → Client) (p : Server) (n : ℕ) (queue : List Request) (log : List Grant)
      : Type 0 where
    own : All IsOwn queue
    serves : Serves p
    given : (pid : ℕ) → IsGiven log pid (cs pid)
    now : n ≡ total log % int_patterns
    starts : Starts log

  abbrev Inv : State → Type 0
  Inv (state cs p n queue log) = IsOrderly cs p n queue log

  All-snoc :
      (queue : List Request) (req : Request)
      → All IsOwn queue
      → IsOwn req
      → All IsOwn (queue ++ req ∷ [])
  All-snoc [] req h i = (i, tt)
  All-snoc (x ∷ queue) req h i = (h.0, All-snoc queue req (h.1) i)

  -- A client without a number takes the place of one.
  update-IsGiven :
      (log : List Grant) (pid : ℕ) (c : Client) (cs : ℕ → Client)
      → number_of c ≡ none
      → ((p : ℕ) → IsGiven log p (cs p))
      → (p : ℕ) → IsGiven log p (update pid c cs p)
  update-IsGiven log pid c cs e h = update_all (IsGiven log) pid c cs (λ m x. absurd (cc (e, x))) h

  response-eq-grant_to :
      (req : Request) (n : ℕ) → IsOwn req → response_to req n ≡ grant_to req.pid n
  response-eq-grant_to req n e = cc e

  -- A response that is made, with whatever becomes of its client.
  answer-IsOrderly :
      (cs : ℕ → Client) (n : ℕ) (queue : List Request) (log : List Grant) (req : Request)
      (c : Client)
      → ((m : ℕ) → number_of c ≡ some m → m ≡ n)
      → IsOrderly cs (holding req) n queue log
      → IsOrderly
          (update req.pid c cs)
          listening
          (advance n req.seq_len)
          queue
          (response_to req n ∷ log)
  answer-IsOrderly cs n queue log req c f i = record {
    own = i.own;
    serves = tt;
    given =
        update_all (IsGiven (response_to req n ∷ log)) req.pid c cs
          (λ m x.
            subst (λ g. Logged (grant_to req.pid m) (g ∷ log))
              (sym (response-eq-grant_to req n i.serves))
              (subst (λ k. Logged (grant_to req.pid m) (grant_to req.pid k ∷ log)) (f m x) latest))
          (λ p m x. older (i.given p m x));
    now = advance-total n req.seq_len (total log) i.now;
    starts = (i.now, i.starts);
  }

  Step-Inv : {s t : State} → Step len s t → Inv s → Inv t
  Step-Inv (send {cs = cs} {queue = queue} {log = log} pid e) i = record {
    own = All-snoc queue (request_of pid (len pid)) i.own refl;
    serves = i.serves;
    given = update-IsGiven log pid sent cs refl i.given;
    now = i.now;
    starts = i.starts;
  }
  Step-Inv (open_own {cs = cs} {log = log} pid e) i = record {
    own = i.own;
    serves = i.serves;
    given = update-IsGiven log pid opening cs refl i.given;
    now = i.now;
    starts = i.starts;
  }
  Step-Inv (client_fails {cs = cs} {log = log} pid e) i = record {
    own = i.own;
    serves = i.serves;
    given = update-IsGiven log pid gone cs refl i.given;
    now = i.now;
    starts = i.starts;
  }
  Step-Inv read_fails i = i
  Step-Inv take_request i = record {
    own = i.own.1;
    serves = i.own.0;
    given = i.given;
    now = i.now;
    starts = i.starts;
  }
  Step-Inv (retry e l) i = record {
    own = i.own;
    serves = i.serves;
    given = i.given;
    now = i.now;
    starts = i.starts;
  }
  Step-Inv (give_up e k) i = record {
    own = i.own;
    serves = tt;
    given = i.given;
    now = i.now;
    starts = i.starts;
  }
  Step-Inv open_fails i = record {
    own = i.own;
    serves = tt;
    given = i.given;
    now = i.now;
    starts = i.starts;
  }
  Step-Inv (connect {cs = cs} {log = log} {req = req} e) i = record {
    own = i.own;
    serves = i.serves;
    given = update-IsGiven log req.pid reading cs refl i.given;
    now = i.now;
    starts = i.starts;
  }
  Step-Inv (flags_fail {cs = cs} {log = log} {req = req}) i = record {
    own = i.own;
    serves = tt;
    given = update-IsGiven log req.pid gone cs refl i.given;
    now = i.now;
    starts = i.starts;
  }
  Step-Inv (respond {cs = cs} {n = n} {queue = queue} {log = log} {req = req} e) i =
      answer-IsOrderly cs n queue log req (answered n) (λ m x. sym (some-inj x)) i
  Step-Inv (write_fails {cs = cs} {n = n} {queue = queue} {log = log} {req = req}) i =
      answer-IsOrderly cs n queue log req gone (λ m x. absurd (cc x)) i
  Step-Inv (print {cs = cs} {m = m} {log = log} pid e) i = record {
    own = i.own;
    serves = i.serves;
    given =
        update_all (IsGiven log) pid (printed m) cs (λ k x. i.given pid k (ap number_of e ∙ x))
          i.given;
    now = i.now;
    starts = i.starts;
  }

  Run-Inv : {t : State} → Run len initial t → Inv t
  Run-Inv here = record {
    own = tt;
    serves = tt;
    given = λ pid m x. absurd (cc x);
    now = refl;
    starts = tt;
  }
  Run-Inv (next r st) = Step-Inv st (Run-Inv r)

  Inv-Apart :
      (t : State) (p q m k : ℕ)
      → Inv t
      → total (log_of t) ≤ int_max
      → client_of t p ≡ printed m
      → client_of t q ≡ printed k
      → p ≢ q
      → Apart (grant_to p m) (grant_to q k)
  Inv-Apart (state cs server n queue log) p q m k i b e f d =
      Logged-Apart (grant_to p m) (grant_to q k) log i.starts b (i.given p m (ap number_of e))
        (i.given q k (ap number_of f)) d

-- As long as all that was asked for stays within an int, two clients never print numbers whose ranges
-- overlap, however the processes are scheduled, whomever the server gives up and whichever calls fail.
pub Run-Apart :
    (len : ℕ → ℕ) (t : State) (p q m n : ℕ)
    → Run len initial t
    → total (log_of t) ≤ int_max
    → client_of t p ≡ printed m
    → client_of t q ≡ printed n
    → p ≢ q
    → Apart (grant_to len p m) (grant_to len q n)
Run-Apart len t p q m n r b e f d = Inv-Apart len t p q m n (Run-Inv len r) b e f d
