-- ===== src/Mail/Ranges.antt =====
-- The ranges of numbers that the clients of 46-2 receive.
use sp_hw.Base.{ℕ, ◌%◌, ◌≤◌, ◌≡◌, ◌≢◌, refl, List}
use sp_hw.Mail.{
  Client, received, State, state, Step, ask, serve, answer, answer_fails, get, Reach, here, next,
}
use sp_hw.Mail.Granted.{grant_to, received-Logged}
use sp_hw.Ranges.{int_max, int_patterns, Grant, total, Starts, Apart, Logged-Apart, advance-total}

record IsCounted (n : ℕ) (log : List Grant) : Type 0 where
  now : n ≡ total log % int_patterns
  starts : Starts log

abbrev Inv : State → Type 0
Inv (state cs p n queue log) = IsCounted n log

Step-Inv : (increment : ℕ → ℕ) {s t : State} → Step increment s t → Inv s → Inv t
Step-Inv increment (ask pid h e) i = i
Step-Inv increment (serve {n = n} {log = log} {m = m} t) i = record {
  now = advance-total n m.request_value (total log) i.now;
  starts = (i.now, i.starts);
}
Step-Inv increment answer i = i
Step-Inv increment answer_fails i = i
Step-Inv increment (get pid h e t) i = i

Reach-Inv : (increment : ℕ → ℕ) {t : State} → Reach increment t → Inv t
Reach-Inv increment here = record { now = refl; starts = tt }
Reach-Inv increment (next r st) = Step-Inv increment st (Reach-Inv increment r)

abbrev pub client_of : State → ℕ → Client
client_of (state cs p n queue log) = cs

abbrev pub log_of : State → List Grant
log_of (state cs p n queue log) = log

-- As long as all that was asked for stays within an int, two clients never receive numbers whose ranges
-- overlap, however the processes are scheduled and whichever responses get lost.
pub Reach-Apart :
    (increment : ℕ → ℕ) (t : State) (p q m n : ℕ)
    → Reach increment t
    → total (log_of t) ≤ int_max
    → client_of t p ≡ received m
    → client_of t q ≡ received n
    → p ≢ q
    → Apart (grant_to increment p m) (grant_to increment q n)
Reach-Apart increment (state cs server k queue log) p q m n r b e f d =
    Logged-Apart (grant_to increment p m) (grant_to increment q n) log
      (Reach-Inv increment r).starts b (received-Logged increment cs server k queue log p m r e)
      (received-Logged increment cs server k queue log q n r f) d
