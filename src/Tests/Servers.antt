-- ===== src/Tests/Servers.antt =====
-- Runs of the servers.
use sp_hw.Base.{ℕ, zero, suc, ◌≡◌, ◌≤◌, ◌↔◌, refl, true, false, List, [], ◌∷◌, some}
use sp_hw.Tickets.{
  Opening, opened, not_ready, Event, request, short_read, max_retries, open_client, turn, respond,
  serve, add_int, try_open,
}
use sp_hw.Tickets.Retries.{OpensAt, open_client-OpensAt}

-- The reader is there at the third try.
abbrev third_try : ℕ → Opening
third_try zero = not_ready
third_try (suc zero) = not_ready
third_try _ = opened

abbrev never : ℕ → Opening
never n = not_ready

abbrev events : List Event
events =
    request (record { pid = 7; seq_len = 3 }) third_try true true
    ∷ short_read
    ∷ request (record { pid = 8; seq_len = 2 }) never true true
    ∷ request (record { pid = 9; seq_len = 4 }) third_try true false
    ∷ []

events_served :
    serve 0 events
    ≡ record { client = 7; start = 0; count = 3; delivered = true }
      ∷ record { client = 9; start = 3; count = 4; delivered = false }
      ∷ []
unfolding serve turn respond try_open add_int
events_served = refl

open_client-OpensAt_example :
    (open_client third_try ≡ some 2) ↔ (OpensAt third_try 0 2 × (2 ≤ max_retries))
open_client-OpensAt_example = open_client-OpensAt third_try 2
