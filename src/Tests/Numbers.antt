-- ===== src/Tests/Numbers.antt =====
-- Clients of 44-6 with the process ids 7 and 8.
use sp_hw.Base.{true, ℕ, ◌≡◌, ◌≢◌, refl, [], arith, update}
use sp_hw.Ranges.{Apart, advance}
use sp_hw.Tickets.Clients.{
  Step, give_up, State, initial, Run, here, next, send, open_own, take_request, retry, connect,
  respond, print, client_of, sent, starting, request_of,
}
use sp_hw.Tickets.Received.{grant_to, Run-Apart}
use sp_hw.Tickets.Abandoned.{is_forlorn, Run-is_forlorn}

abbrev three : ℕ → ℕ
three pid = 3

-- Client 7 is late by one try.
abbrev seven_answered : (t : State) × Run three initial t
unfolding advance
seven_answered = (
  _,
  next
      (next
        (next (next (next (next here (send 7 refl)) take_request) (retry refl (omega arith)))
          (open_own 7 refl))
        (connect refl))
      (respond refl),
)

abbrev both_printed : (t : State) × Run three initial t
unfolding advance
both_printed = (
  _,
  next
      (next
        (next
          (next (next (next (next (seven_answered.1) (send 8 refl)) (open_own 8 refl)) take_request)
            (connect refl))
          (respond refl))
        (print 8 refl))
      (print 7 refl),
)

seven-ne-eight : ◌≢◌ {A = ℕ} 7 8
seven-ne-eight e = cc

Run-Apart_example : Apart (grant_to three 7 0) (grant_to three 8 3)
unfolding advance
Run-Apart_example =
    Run-Apart three (both_printed.0) 7 8 0 3 (both_printed.1) (omega arith) refl refl seven-ne-eight

-- Five tries in vain.
abbrev five_retries : (t : State) × Run three initial t
five_retries = (
  _,
  next
      (next
        (next
          (next (next (next (next here (send 7 refl)) take_request) (retry refl (omega arith)))
            (retry refl (omega arith)))
          (retry refl (omega arith)))
        (retry refl (omega arith)))
      (retry refl (omega arith)),
)

-- The sixth try, and then the client goes into its `open`, and another client sends a request.
abbrev sixth : (t : State) × Step three (five_retries.0) t
sixth = (_, give_up refl refl)

abbrev later : (t : State) × Run three (sixth.0) t
later = (_, next (next (next here (open_own 7 refl)) (send 8 refl)) take_request)

Run-is_forlorn_example : is_forlorn (client_of (later.0) 7) ≡ true
Run-is_forlorn_example =
    Run-is_forlorn three (update 7 sent (λ pid. starting)) 0 [] [] (request_of 7 3) (sixth.0)
      (later.0) (five_retries.1) refl (sixth.1) (λ e. cc e) (later.1)
