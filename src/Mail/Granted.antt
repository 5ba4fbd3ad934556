-- ===== src/Mail/Granted.antt =====
-- Every number that a client of 46-2 receives was given to this client.
use sp_hw.Base.{
  ℕ, ◌≤◌, ◌≡◌, ◌⊎◌, inl, inr, refl, sym, ap, ◌∙◌, subst, List, [], ◌∷◌, ◌++◌, All, ◌==◌, ==_iff,
  Bool-cases, update, update_same, update_other, true_not_false, arith,
}
use sp_hw.Mail.{
  Message, req_msg_type, Takes, head_fits, passes_over, Client, awaiting, received, Server,
  listening, answering, State, state, make_request, make_response, Step, ask, serve, answer,
  answer_fails, get, Reach, here, next,
}
use sp_hw.Ranges.{Grant, Logged, latest, older}

module _ (increment : ℕ → ℕ) where
  abbrev pub grant_to : ℕ → ℕ → Grant
  grant_to pid n = record { client = pid; start = n; count = increment pid }

  -- A request of a client.
  record IsRequest (m : Message) : Type 0 where
    kind : m.mtype ≡ req_msg_type
    sender : 2 ≤ m.seq_num
    own : m.request_value ≡ increment m.seq_num

  -- A response that the log has.
  record IsResponse (log : List Grant) (m : Message) : Type 0 where
    receiver : 2 ≤ m.mtype
    logged : Logged (grant_to m.mtype m.seq_num) log

  abbrev IsMail : List Grant → Message → Type 0
  IsMail log m = IsRequest m ⊎ IsResponse log m

  abbrev Pending : List Grant → Server → Type 0
  Pending log listening = Unit
  Pending log (answering m) = IsResponse log m

  record IsOrderly (cs : ℕ → Client) (p : Server) (queue : List Message) (log : List Grant)
      : Type 0 where
    mail : All (IsMail log) queue
    pending : Pending log p
    got : (pid n : ℕ) → cs pid ≡ received n → Logged (grant_to pid n) log

  abbrev Inv : State → Type 0
  Inv (state cs p n queue log) = IsOrderly cs p queue log

  taken :
      {log : List Grant} {wanted : ℕ} {queue rest : List Message} {m : Message}
      → Takes wanted queue m rest
      → All (IsMail log) queue
      → IsMail log m × (m.mtype ≡ wanted) × All (IsMail log) rest
  taken (head_fits e) h = (h.0, e, h.1)
  taken (passes_over e t) h = let (a, b, c) = taken t (h.1) in (a, b, (h.0, c))

  All-IsMail :
      (log : List Grant) (g : Grant) (queue : List Message)
      → All (IsMail log) queue
      → All (IsMail (g ∷ log)) queue
  All-IsMail log g [] h = tt
  All-IsMail log g (m ∷ queue) (inl r, h) = (inl r, All-IsMail log g queue h)
  All-IsMail log g (m ∷ queue) (inr r, h) =
      (inr (record { receiver = r.receiver; logged = older r.logged }), All-IsMail log g queue h)

  All-snoc :
      {log : List Grant} (queue : List Message) (m : Message)
      → All (IsMail log) queue
      → IsMail log m
      → All (IsMail log) (queue ++ m ∷ [])
  All-snoc [] m h i = (i, tt)
  All-snoc (x ∷ queue) m h i = (h.0, All-snoc queue m (h.1) i)

  -- A message of type 1 is a request.
  IsRequest-from_client :
      {log : List Grant} (m : Message) → IsMail log m → m.mtype ≡ req_msg_type → IsRequest m
  IsRequest-from_client m (inl r) e = r
  IsRequest-from_client m (inr r) e = absurd (omega (arith, e, r.receiver))

  IsResponse-to_client :
      {log : List Grant} (m : Message) (pid : ℕ)
      → IsMail log m
      → m.mtype ≡ pid
      → 2 ≤ pid
      → IsResponse log m
  IsResponse-to_client m pid (inl r) e h = absurd (omega (arith, e, r.kind))
  IsResponse-to_client m pid (inr r) e h = r

  got_update :
      {log : List Grant} (cs : ℕ → Client) (pid : ℕ) (c : Client)
      → ((n : ℕ) → c ≡ received n → Logged (grant_to pid n) log)
      → ((p n : ℕ) → cs p ≡ received n → Logged (grant_to p n) log)
      → (p n : ℕ) → update pid c cs p ≡ received n
      → Logged (grant_to p n) log
  got_update {log} cs pid c f h p n e = elim (Bool-cases (pid == p)) [
    | inl same ↦
        let s = (==_iff pid p).0 same in
        subst (λ x. Logged (grant_to x n) log) s
          (f n (sym (update_same pid c cs) ∙ ap (update pid c cs) s ∙ e))
    | inr apart ↦
        h p n (sym (update_other pid c cs p (λ x. true_not_false ((==_iff pid p).1 x) apart)) ∙ e)
  ]

  received-inj : {m n : ℕ} → received m ≡ received n → m ≡ n
  received-inj e = cc

  Step-Inv : {s t : State} → Step increment s t → Inv s → Inv t
  unfolding make_request make_response
  Step-Inv (ask {cs = cs} {queue = queue} pid h e) i = record {
    mail = All-snoc queue _ i.mail (inl (record { kind = refl; sender = h; own = refl }));
    pending = i.pending;
    got = got_update cs pid awaiting (λ n x. absurd cc) i.got;
  }
  Step-Inv (serve {n = n} {queue = queue} {rest = rest} {log = log} {m = m} t) i =
      let (mail, kind, others) = taken t i.mail in
      let r = IsRequest-from_client m mail kind in
      record {
        mail = All-IsMail log _ rest others;
        pending = record {
          receiver = r.sender;
          logged =
              subst
                (λ x.
                  Logged (grant_to m.seq_num n)
                    (record { client = m.seq_num; start = n; count = x } ∷ log))
                (sym r.own) latest;
        };
        got = λ p k x. older (i.got p k x);
      }
  Step-Inv (answer {queue = queue} {m = m}) i = record {
    mail = All-snoc queue m i.mail (inr i.pending);
    pending = tt;
    got = i.got;
  }
  Step-Inv answer_fails i = record { mail = i.mail; pending = tt; got = i.got }
  Step-Inv (get {cs = cs} {log = log} {m = m} pid h e t) i =
      let (mail, kind, others) = taken t i.mail in
      let r = IsResponse-to_client m pid mail kind h in
      record {
        mail = others;
        pending = i.pending;
        got =
            got_update cs pid (received m.seq_num)
              (λ n x.
                subst (λ y. Logged (grant_to pid y) log) (received-inj x)
                  (subst (λ y. Logged (grant_to y m.seq_num) log) kind r.logged))
              i.got;
      }

  Reach-Inv : {t : State} → Reach increment t → Inv t
  Reach-Inv here = record { mail = tt; pending = tt; got = λ p n e. absurd cc }
  Reach-Inv (next r st) = Step-Inv st (Reach-Inv r)

  -- What a client has received was given to it, for the increment that it asked for.
  pub received-Logged :
      (cs : ℕ → Client) (p : Server) (n : ℕ) (queue : List Message) (log : List Grant) (pid k : ℕ)
      → Reach increment (state cs p n queue log)
      → cs pid ≡ received k
      → Logged (grant_to pid k) log
  received-Logged cs p n queue log pid k r e = (Reach-Inv r).got pid k e
