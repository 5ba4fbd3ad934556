-- ===== src/Tests/Posting.antt =====
-- Two clients of 46-2, with the process ids 7 and 8.
use sp_hw.Base.{ℕ, ◌≢◌, refl, arith}
use sp_hw.Mail.{
  State, head_fits, passes_over, Reach, here, next, ask, serve, answer, get, make_request,
  make_response,
}
use sp_hw.Mail.Granted.{grant_to}
use sp_hw.Mail.Ranges.{Reach-Apart}
use sp_hw.Ranges.{Apart, advance}

abbrev three : ℕ → ℕ
three pid = 3

abbrev both_asked : (t : State) × Reach three t
both_asked = (_, next (next here (ask 7 (omega arith) refl)) (ask 8 (omega arith) refl))

abbrev both_served : (t : State) × Reach three t
unfolding make_request make_response advance
both_served = (
  _,
  next (next (next (next (both_asked.1) (serve (head_fits refl))) answer) (serve (head_fits refl)))
      answer,
)

seven-ne-eight : ◌≢◌ {A = ℕ} 7 8
seven-ne-eight e = cc

abbrev both_received : (t : State) × Reach three t
unfolding make_request make_response advance
both_received = (
  _,
  next
      (next (both_served.1)
        (get 8 (omega arith) refl (passes_over seven-ne-eight (head_fits refl))))
      (get 7 (omega arith) refl (head_fits refl)),
)

Reach-Apart_example : Apart (grant_to three 7 0) (grant_to three 8 3)
unfolding make_request make_response advance
Reach-Apart_example =
    Reach-Apart three (both_received.0) 7 8 0 3 (both_received.1) (omega arith) refl refl
      seven-ne-eight
