-- ===== src/Tickets/Abandoned.antt =====
-- A client of 44-6 that the server has given up.
use sp_hw.Base.{
  ℕ, ◌≡◌, ◌≢◌, refl, sym, ap, ◌∙◌, Bool, true, false, List, ◌==◌, Bool-cases, inl, inr,
  true_not_false, update, update_other, arith,
}
use sp_hw.Ranges.{Grant}
use sp_hw.Tickets.{Request}
use sp_hw.Tickets.Clients.{
  Client, sent, opening, reading, answered, printed, gone, Server, trying, State, state, request_of,
  Step, send, open_own, client_fails, read_fails, open_fails, take_request, retry, give_up, connect,
  flags_fail, respond, write_fails, print, Run, here, next, initial, client_of, server_of,
}
use sp_hw.Tickets.Once.{Lacks, Ignores, Lacks-snoc, Run-IsSingle}

-- In front of its `open` or in it, or ended by a call that failed.
abbrev pub is_forlorn : Client → Bool
is_forlorn sent = true
is_forlorn opening = true
is_forlorn gone = true
is_forlorn _ = false

module _ (pid : ℕ) where
  -- The client has sent its request, which is neither in the FIFO of the server nor in the server's hands.
  record IsLost (cs : ℕ → Client) (p : Server) (queue : List Request) : Type 0 where
    place : is_forlorn (cs pid) ≡ true
    not_queued : Lacks pid queue
    ignored : Ignores pid p

  abbrev IsAbandoned : State → Type 0
  IsAbandoned (state cs p n queue log) = IsLost cs p queue

  differs :
      (cs : ℕ → Client) (i : ℕ) → is_forlorn (cs pid) ≡ true → is_forlorn (cs i) ≡ false → i ≢ pid
  differs cs i h o x = true_not_false h (ap (λ k. is_forlorn (cs k)) (sym x) ∙ o)

  -- Another client moves.
  other_moves :
      (cs : ℕ → Client) (i : ℕ) (c : Client)
      → i ≢ pid
      → is_forlorn (cs pid) ≡ true
      → is_forlorn (update i c cs pid) ≡ true
  other_moves cs i c n h = ap is_forlorn (update_other i c cs pid n) ∙ h

  -- A client moves, to a forlorn place.
  any_moves :
      (cs : ℕ → Client) (i : ℕ) (c : Client)
      → is_forlorn c ≡ true
      → is_forlorn (cs pid) ≡ true
      → is_forlorn (update i c cs pid) ≡ true
  any_moves cs i c d h = elim (Bool-cases (pid == i)) [ inl e ↦ rw e d | inr e ↦ rw e h ]

module _ (len : ℕ → ℕ) (pid : ℕ) where
  Step-IsAbandoned : {s t : State} → Step len s t → IsAbandoned pid s → IsAbandoned pid t
  Step-IsAbandoned (send {cs = cs} {queue = queue} i e) a =
      let n = differs pid cs i a.place (ap is_forlorn e) in
      record {
        place = other_moves pid cs i sent n a.place;
        not_queued = Lacks-snoc pid queue (request_of i (len i)) a.not_queued n;
        ignored = a.ignored;
      }
  Step-IsAbandoned (open_own {cs = cs} i e) a = record {
    place = any_moves pid cs i opening refl a.place;
    not_queued = a.not_queued;
    ignored = a.ignored;
  }
  Step-IsAbandoned (client_fails {cs = cs} i e) a = record {
    place = any_moves pid cs i gone refl a.place;
    not_queued = a.not_queued;
    ignored = a.ignored;
  }
  Step-IsAbandoned read_fails a = a
  Step-IsAbandoned take_request a = record {
    place = a.place;
    not_queued = a.not_queued.1;
    ignored = a.not_queued.0;
  }
  Step-IsAbandoned (retry e l) a = record {
    place = a.place;
    not_queued = a.not_queued;
    ignored = a.ignored;
  }
  Step-IsAbandoned (give_up e k) a = record {
    place = a.place;
    not_queued = a.not_queued;
    ignored = tt;
  }
  Step-IsAbandoned open_fails a = record {
    place = a.place;
    not_queued = a.not_queued;
    ignored = tt;
  }
  Step-IsAbandoned (connect {cs = cs} {req = req} e) a = record {
    place = other_moves pid cs req.pid reading a.ignored a.place;
    not_queued = a.not_queued;
    ignored = a.ignored;
  }
  Step-IsAbandoned (flags_fail {cs = cs} {req = req}) a = record {
    place = any_moves pid cs req.pid gone refl a.place;
    not_queued = a.not_queued;
    ignored = tt;
  }
  Step-IsAbandoned (respond {cs = cs} {n = n} {req = req} e) a = record {
    place = other_moves pid cs req.pid (answered n) a.ignored a.place;
    not_queued = a.not_queued;
    ignored = tt;
  }
  Step-IsAbandoned (write_fails {cs = cs} {req = req}) a = record {
    place = any_moves pid cs req.pid gone refl a.place;
    not_queued = a.not_queued;
    ignored = tt;
  }
  Step-IsAbandoned (print {cs = cs} {m = m} i e) a = record {
    place = other_moves pid cs i (printed m) (differs pid cs i a.place (ap is_forlorn e)) a.place;
    not_queued = a.not_queued;
    ignored = a.ignored;
  }

  Run-IsAbandoned : {s t : State} → Run len s t → IsAbandoned pid s → IsAbandoned pid t
  Run-IsAbandoned here a = a
  Run-IsAbandoned (next r st) a = Step-IsAbandoned st (Run-IsAbandoned r a)

forlorn_of : (pid : ℕ) (t : State) → IsAbandoned pid t → is_forlorn (client_of t pid) ≡ true
forlorn_of pid (state cs p n queue log) a = a.place

-- The sixth `open` of the server, which meets a client in front of its own.
last_try :
    (len : ℕ → ℕ) {cs : ℕ → Client} {n k : ℕ} {queue : List Request} {log : List Grant}
    {req : Request} {t : State}
    → Step len (state cs (trying req k) n queue log) t
    → k ≡ 5
    → cs req.pid ≡ sent
    → Lacks req.pid queue
    → server_of t ≢ trying req k
    → IsAbandoned req.pid t
last_try len (send i e) five late alone d = absurd (d refl)
last_try len (open_own i e) five late alone d = absurd (d refl)
last_try len (client_fails i e) five late alone d = absurd (d refl)
last_try len (retry e l) five late alone d = absurd (omega (arith, l, five))
last_try len (give_up e x) five late alone d = record {
  place = ap is_forlorn late;
  not_queued = alone;
  ignored = tt;
}
last_try len open_fails five late alone d = record {
  place = ap is_forlorn late;
  not_queued = alone;
  ignored = tt;
}
last_try len (connect e) five late alone d = absurd (cc (e, late))
last_try len (print i e) five late alone d = absurd (d refl)

-- If a client has sent its request and is not yet in its `open` when the server makes its sixth try to open
-- its FIFO, then behind that try the client is never answered in any run: it is in front of its `open` or in it,
-- where it waits, or one of its own calls has failed.
pub Run-is_forlorn :
    (len : ℕ → ℕ) (cs : ℕ → Client) (n : ℕ) (queue : List Request) (log : List Grant)
    (req : Request) (t u : State)
    → Run len initial (state cs (trying req 5) n queue log)
    → cs req.pid ≡ sent
    → Step len (state cs (trying req 5) n queue log) t
    → server_of t ≢ trying req 5
    → Run len t u
    → is_forlorn (client_of u req.pid) ≡ true
Run-is_forlorn len cs n queue log req t u r e try d later =
    let single = Run-IsSingle len cs (trying req 5) n queue log r in
    forlorn_of req.pid u
      (Run-IsAbandoned len req.pid later (last_try len try refl e single.alone d))
