-- ===== src/Tickets/Ranges.antt =====
-- The ranges of numbers that the server of 44-6 gives out.
use sp_hw.Base.{
  ℕ, ◌+◌, ◌≤◌, ◌≡◌, refl, sym, subst, Bool, true, false, List, [], ◌∷◌, Option, some, none, All,
  arith,
}
use native.Mathlib.Nat.{mod-eq_of_lt}
use sp_hw.Tickets.{
  Request, Event, short_read, request, Grant, Turn, skips, grants, exits, int_max, add_int,
  open_client, respond, turn, serve,
}

-- The numbers asked for in all requests.
abbrev pub demand : List Event → ℕ
demand [] = 0
demand (short_read ∷ events) = demand events
demand (request req opens flags_reset written ∷ events) = req.seq_len + demand events

-- Each range starts where the one before it ends.
abbrev pub Consecutive : ℕ → List Grant → Type 0
Consecutive n [] = Unit
Consecutive n (g ∷ gs) = (g.start ≡ n) × Consecutive (n + g.count) gs

-- A range ends at or before the start of every later one.
abbrev pub Apart : List Grant → Type 0
Apart [] = Unit
Apart (g ∷ gs) = All (λ later. g.start + g.count ≤ later.start) gs × Apart gs

starts_later :
    (n bound : ℕ) (gs : List Grant) → Consecutive n gs → bound ≤ n → All (λ g. bound ≤ g.start) gs
starts_later n bound [] c l = tt
starts_later n bound (g ∷ gs) c l =
    (omega (arith, c.0), starts_later (n + g.count) bound gs (c.1) (omega arith))

Consecutive-Apart : (n : ℕ) (gs : List Grant) → Consecutive n gs → Apart gs
Consecutive-Apart n [] c = tt
Consecutive-Apart n (g ∷ gs) c = (
  starts_later (n + g.count) (g.start + g.count) gs (c.1) (omega (arith, c.0)),
  Consecutive-Apart (n + g.count) gs (c.1),
)

add_int-eq-add : (a b : ℕ) → a + b ≤ int_max → add_int a b ≡ a + b
unfolding add_int
add_int-eq-add a b h = mod-eq_of_lt (omega arith)

-- A response starts at the number of the server and has the count of the request.
record IsOwn (seq_num count : ℕ) (g : Grant) : Type 0 where
  at : g.start ≡ seq_num
  size : g.count ≡ count

abbrev count_of : Event → ℕ
count_of short_read = 0
count_of (request req opens flags_reset written) = req.seq_len

-- What a turn may come to.
abbrev IsOwnTurn : ℕ → ℕ → Turn → Type 0
IsOwnTurn seq_num count (grants g) = IsOwn seq_num count g
IsOwnTurn seq_num count _ = Unit

respond-IsOwnTurn :
    (seq_num : ℕ) (req : Request) (flags_reset written : Bool) (o : Option ℕ)
    → IsOwnTurn seq_num (req.seq_len) (respond seq_num req flags_reset written o)
unfolding respond
respond-IsOwnTurn seq_num req flags_reset written none = tt
respond-IsOwnTurn seq_num req false written (some r) = tt
respond-IsOwnTurn seq_num req true written (some r) = record { at = refl; size = refl }

turn-IsOwnTurn : (seq_num : ℕ) (e : Event) → IsOwnTurn seq_num (count_of e) (turn seq_num e)
unfolding turn
turn-IsOwnTurn seq_num short_read = tt
turn-IsOwnTurn seq_num (request req opens flags_reset written) =
    respond-IsOwnTurn seq_num req flags_reset written (open_client opens)

-- The rest of the responses, by what a turn came to.
abbrev continued : ℕ → List Event → Turn → List Grant
continued seq_num events skips = serve seq_num events
continued seq_num events (grants g) = g ∷ serve (add_int seq_num (g.count)) events
continued seq_num events exits = []

serve-continued :
    (seq_num : ℕ) (e : Event) (events : List Event) (r : Turn)
    → turn seq_num e ≡ r
    → serve seq_num (e ∷ events) ≡ continued seq_num events r
unfolding serve
serve-continued seq_num e events skips h = rw (serve, h) refl
serve-continued seq_num e events (grants g) h = rw (serve, h) refl
serve-continued seq_num e events exits h = rw (serve, h) refl

demand-count_of :
    (e : Event) (events : List Event) → demand (e ∷ events) ≡ count_of e + demand events
demand-count_of short_read events = omega arith
demand-count_of (request req opens flags_reset written) events = refl

continued-Consecutive :
    (seq_num : ℕ) (e : Event) (events : List Event)
    → ((n : ℕ) → n + demand events ≤ int_max → Consecutive n (serve n events))
    → seq_num + demand (e ∷ events) ≤ int_max
    → (r : Turn) → IsOwnTurn seq_num (count_of e) r
    → Consecutive seq_num (continued seq_num events r)
continued-Consecutive seq_num e events ih h skips own =
    ih seq_num (omega (arith, demand-count_of e events))
continued-Consecutive seq_num e events ih h exits own = tt
continued-Consecutive seq_num e events ih h (grants g) own =
    let sum : add_int seq_num (g.count) ≡ seq_num + g.count =
      add_int-eq-add seq_num (g.count) (omega (arith, demand-count_of e events, own.size)) in
    (
      own.at,
      subst (λ n. Consecutive n (serve (add_int seq_num (g.count)) events)) sum
          (ih (add_int seq_num (g.count)) (omega (arith, sum, demand-count_of e events, own.size))),
    )

-- If the numbers asked for do not pass the largest int, each response starts where the one before it
-- ends, and the first at the number that the server has come to.
pub serve-Consecutive :
    (seq_num : ℕ) (events : List Event)
    → seq_num + demand events ≤ int_max
    → Consecutive seq_num (serve seq_num events)
unfolding serve
serve-Consecutive seq_num [] h = tt
serve-Consecutive seq_num (e ∷ events) h =
    subst (Consecutive seq_num) (sym (serve-continued seq_num e events (turn seq_num e) refl)) (
      continued-Consecutive seq_num e events (λ n k. serve-Consecutive n events k) h
        (turn seq_num e) (turn-IsOwnTurn seq_num e))

-- If the numbers asked for do not pass the largest int, no number is given to two clients: a range ends
-- at or before the start of every later one.
pub serve-Apart :
    (seq_num : ℕ) (events : List Event)
    → seq_num + demand events ≤ int_max
    → Apart (serve seq_num events)
serve-Apart seq_num events h = Consecutive-Apart seq_num _ (serve-Consecutive seq_num events h)
