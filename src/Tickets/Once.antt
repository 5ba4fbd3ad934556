-- ===== src/Tickets/Once.antt =====
-- Each client of 44-6 has one request at most on its way.
use sp_hw.Base.{
  ℕ, ◌≡◌, ◌≢◌, sym, List, [], ◌∷◌, ◌++◌, All, ◌==◌, ==-true, Bool-cases, inl, inr, true_not_false,
  update, update_all,
}
use sp_hw.Ranges.{Grant}
use sp_hw.Tickets.{Request}
use sp_hw.Tickets.Clients.{
  Client, starting, sent, opening, reading, answered, printed, gone, Server, listening, trying,
  holding, ended, State, state, request_of, Step, send, open_own, client_fails, read_fails,
  open_fails, take_request, retry, give_up, connect, flags_fail, respond, write_fails, print, Run,
  here, next, initial,
}

-- The server does not deal with the client.
abbrev pub Ignores : ℕ → Server → Type 0
Ignores pid (trying req k) = req.pid ≢ pid
Ignores pid (holding req) = req.pid ≢ pid
Ignores pid _ = Unit

-- The FIFO has no request of the client.
abbrev pub Lacks : ℕ → List Request → Type 0
Lacks pid queue = All (λ req. req.pid ≢ pid) queue

abbrev pub Distinct : List Request → Type 0
Distinct [] = Unit
Distinct (req ∷ queue) = Lacks req.pid queue × Distinct queue

-- The request in the hands of the server is not in the FIFO too.
abbrev pub IsAlone : Server → List Request → Type 0
IsAlone (trying req k) queue = Lacks req.pid queue
IsAlone (holding req) queue = Lacks req.pid queue
IsAlone _ queue = Unit

-- A client that has not sent its request has none on its way.
abbrev IsFresh : Server → List Request → ℕ → Client → Type 0
IsFresh p queue pid c = c ≡ starting → Lacks pid queue × Ignores pid p

pub record IsSingle (cs : ℕ → Client) (p : Server) (queue : List Request) : Type 0 where
  pub fresh : (pid : ℕ) → IsFresh p queue pid (cs pid)
  pub distinct : Distinct queue
  pub alone : IsAlone p queue

abbrev Inv : State → Type 0
Inv (state cs p n queue log) = IsSingle cs p queue

pub Lacks-snoc :
    (pid : ℕ) (queue : List Request) (req : Request)
    → Lacks pid queue
    → req.pid ≢ pid
    → Lacks pid (queue ++ req ∷ [])
Lacks-snoc pid [] req h i = (i, tt)
Lacks-snoc pid (x ∷ queue) req h i = (h.0, Lacks-snoc pid queue req (h.1) i)

Distinct-snoc :
    (queue : List Request) (req : Request)
    → Distinct queue
    → Lacks req.pid queue
    → Distinct (queue ++ req ∷ [])
Distinct-snoc [] req d h = (tt, tt)
Distinct-snoc (x ∷ queue) req d h =
    (Lacks-snoc x.pid queue req (d.0) (λ e. h.0 (sym e)), Distinct-snoc queue req (d.1) (h.1))

IsAlone-snoc :
    (p : Server) (queue : List Request) (req : Request)
    → IsAlone p queue
    → Ignores req.pid p
    → IsAlone p (queue ++ req ∷ [])
IsAlone-snoc listening queue req h i = tt
IsAlone-snoc ended queue req h i = tt
IsAlone-snoc (trying r k) queue req h i = Lacks-snoc r.pid queue req h (λ e. i (sym e))
IsAlone-snoc (holding r) queue req h i = Lacks-snoc r.pid queue req h (λ e. i (sym e))

-- A client that moves on from another place, or to another place than the first.
moved :
    (cs : ℕ → Client) (p : Server) (queue : List Request) (i : ℕ) (c : Client)
    → c ≢ starting
    → ((pid : ℕ) → IsFresh p queue pid (cs pid))
    → (pid : ℕ) → IsFresh p queue pid (update i c cs pid)
moved cs p queue i c n h = update_all (IsFresh p queue) i c cs (λ e. absurd (n e)) h

-- A server that has nothing in its hands ignores everybody.
released :
    (cs : ℕ → Client) (p : Server) (queue : List Request)
    → ((pid : ℕ) → IsFresh p queue pid (cs pid))
    → (pid : ℕ) → IsFresh listening queue pid (cs pid)
released cs p queue h pid e = ((h pid e).0, tt)

still_starting :
    (cs : ℕ → Client) (i pid : ℕ)
    → update i sent cs pid ≡ starting
    → (cs pid ≡ starting) × (i ≢ pid)
still_starting cs i pid e = elim (Bool-cases (pid == i)) [
  | inl same ↦ absurd (cc (rw same at e))
  | inr apart ↦ (rw apart at e, λ x. true_not_false (==-true pid i (sym x)) apart)
]

Step-Inv : (len : ℕ → ℕ) {s t : State} → Step len s t → Inv s → Inv t
Step-Inv len (send {cs = cs} {p = p} {queue = queue} i e) h = record {
  fresh = λ pid x.
      let (old, n) = still_starting cs i pid x in
      (Lacks-snoc pid queue (request_of i (len i)) ((h.fresh pid old).0) n, (h.fresh pid old).1);
  distinct = Distinct-snoc queue (request_of i (len i)) h.distinct ((h.fresh i e).0);
  alone = IsAlone-snoc p queue (request_of i (len i)) h.alone ((h.fresh i e).1);
}
Step-Inv len (open_own {cs = cs} {p = p} {queue = queue} i e) h = record {
  fresh = moved cs p queue i opening (λ x. cc x) h.fresh;
  distinct = h.distinct;
  alone = h.alone;
}
Step-Inv len (client_fails {cs = cs} {p = p} {queue = queue} i e) h = record {
  fresh = moved cs p queue i gone (λ x. cc x) h.fresh;
  distinct = h.distinct;
  alone = h.alone;
}
Step-Inv len read_fails h = h
Step-Inv len (take_request {cs = cs} {queue = queue} {req = req}) h = record {
  fresh = λ pid x. ((h.fresh pid x).0.1, (h.fresh pid x).0.0);
  distinct = h.distinct.1;
  alone = h.distinct.0;
}
Step-Inv len (retry e l) h = record { fresh = h.fresh; distinct = h.distinct; alone = h.alone }
Step-Inv len (give_up {cs = cs} {k = k} {queue = queue} {req = req} e x) h = record {
  fresh = released cs (trying req k) queue h.fresh;
  distinct = h.distinct;
  alone = tt;
}
Step-Inv len (open_fails {cs = cs} {k = k} {queue = queue} {req = req}) h = record {
  fresh = released cs (trying req k) queue h.fresh;
  distinct = h.distinct;
  alone = tt;
}
Step-Inv len (connect {cs = cs} {k = k} {queue = queue} {req = req} e) h = record {
  fresh = moved cs (holding req) queue req.pid reading (λ x. cc x) h.fresh;
  distinct = h.distinct;
  alone = h.alone;
}
Step-Inv len (flags_fail {cs = cs} {queue = queue} {req = req}) h = record {
  fresh = moved cs ended queue req.pid gone (λ x. cc x) (released cs (holding req) queue h.fresh);
  distinct = h.distinct;
  alone = tt;
}
Step-Inv len (respond {cs = cs} {n = n} {queue = queue} {req = req} e) h = record {
  fresh =
      moved cs listening queue req.pid (answered n) (λ x. cc x)
        (released cs (holding req) queue h.fresh);
  distinct = h.distinct;
  alone = tt;
}
Step-Inv len (write_fails {cs = cs} {queue = queue} {req = req}) h = record {
  fresh =
      moved cs listening queue req.pid gone (λ x. cc x) (released cs (holding req) queue h.fresh);
  distinct = h.distinct;
  alone = tt;
}
Step-Inv len (print {cs = cs} {p = p} {m = m} {queue = queue} i e) h = record {
  fresh = moved cs p queue i (printed m) (λ x. cc x) h.fresh;
  distinct = h.distinct;
  alone = h.alone;
}

pub Run-IsSingle :
    (len : ℕ → ℕ) (cs : ℕ → Client) (p : Server) (n : ℕ) (queue : List Request) (log : List Grant)
    → Run len initial (state cs p n queue log)
    → IsSingle cs p queue
Run-IsSingle len cs p n queue log r = Run-Inv len r
  where
    Run-Inv : (len : ℕ → ℕ) {t : State} → Run len initial t → Inv t
    Run-Inv len here = record { fresh = λ pid e. (tt, tt); distinct = tt; alone = tt }
    Run-Inv len (next r st) = Step-Inv len st (Run-Inv len r)
