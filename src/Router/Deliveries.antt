-- ===== src/Router/Deliveries.antt =====
-- What the router of quiz_3 delivers.
use sp_hw.Base.{
  some-inj, ℕ, zero, suc, ◌≡◌, refl, subst, Bool, true, false, List, [], ◌∷◌, ◌++◌, none, some, All,
  if◌then◌else◌, ltb, true_not_false,
}
use sp_hw.Router.{
  Message, Delivery, connections, send_all, route_to, route, State, Step, node_writes, router_reads,
  router_goes_on, Reach, here, next,
}

-- A message of connection 0 that names its receiver, and goes there unchanged.
pub record IsFromFirst (d : Delivery) : Type 0 where
  pub first : d.from ≡ 0
  pub addressed : d.original.receiver ≡ suc d.onto
  pub unchanged : d.copy ≡ d.original

All-append :
    (xs ys : List Delivery) → All IsFromFirst xs → All IsFromFirst ys → All IsFromFirst (xs ++ ys)
All-append [] ys h k = k
All-append (x ∷ xs) ys h k = (h.0, All-append xs ys (h.1) k)

if_some : (b : Bool) (x y : List Delivery) → (if b then some x else none) ≡ some y → x ≡ y
if_some true x y h = some-inj h
if_some false x y h = cc

route_to-first :
    (m : Message) (r : ℕ) (written : List Delivery)
    → m.receiver ≡ r
    → route_to 0 m r ≡ some written
    → All IsFromFirst written
unfolding route_to send_all
route_to-first m zero written e h = subst (All IsFromFirst) (some-inj h) tt
route_to-first m (suc j) written e h =
    subst (All IsFromFirst) (if_some (ltb j connections) _ written h)
      (record { first = refl; addressed = e; unchanged = refl }, tt)

-- The router stands at connection 0, which is open.
record IsStuck (s : State) : Type 0 where
  at_first : s.reading ≡ 0
  all_open : (i : ℕ) → s.closed i ≡ false
  from_first : All IsFromFirst s.delivered

Step-IsStuck : {s t : State} → Step s t → IsStuck s → IsStuck t
unfolding route
Step-IsStuck (node_writes i l e) h = record {
  at_first = h.at_first;
  all_open = h.all_open;
  from_first = h.from_first;
}
Step-IsStuck {s} (router_reads {m = m} {written = written} e r) h = record {
  at_first = h.at_first;
  all_open = h.all_open;
  from_first = All-append s.delivered written h.from_first (
      route_to-first m m.receiver written refl
        (subst (λ i. route i m ≡ some written) h.at_first r));
}
Step-IsStuck {s} (router_goes_on e c) h = absurd (true_not_false c (h.all_open s.reading))

Reach-IsStuck : (messages : ℕ → Message) {t : State} → Reach messages t → IsStuck t
Reach-IsStuck messages here = record { at_first = refl; all_open = λ i. refl; from_first = tt }
Reach-IsStuck messages (next r st) = Step-IsStuck st (Reach-IsStuck messages r)

-- Whatever the nodes send and however they are scheduled, all that the router ever delivers are messages
-- of the node that connected first, and of these only those that name a receiver: it has them
-- unchanged. No message of another node is delivered, and no message to all.
pub Reach-IsFromFirst :
    (messages : ℕ → Message) (t : State) → Reach messages t → All IsFromFirst t.delivered
Reach-IsFromFirst messages t r = (Reach-IsStuck messages r).from_first
