-- ===== src/Detector.antt =====
-- SP_quiz/quiz_1/detector.c: it counts SIGINT and, at each SIGALRM, sends a mail if there was one.
pub mod Mails
use sp_hw.Base.{ℕ, zero, suc, ◌+◌, Bool, true, false, List, [], ◌∷◌, if◌then◌else◌, ◌==◌}

-- Where the process stands: in `sigsuspend`, or in `alarmHandler` with `system` running.
pub data Place : Type 0 where
  waiting mailing : Place

-- `cnt`, the mails that were begun, and whether a SIGALRM is pending.
pub record Watch : Type 0 where
  pub place : Place
  pub cnt : ℕ
  pub mails : ℕ
  pub pending : Bool

-- A signal, or the end of the command that `system` runs.
pub data Event : Type 0 where
  interrupt alarm mailed : Event

-- `alarmHandler`, up to `system`.
unfoldable pub alarm_handler : Watch → Watch
alarm_handler w = if w.cnt == 0 then w else record w { place = mailing; mails = suc w.mails }

unfoldable pub int_handler : Watch → Watch
int_handler w = record w { cnt = suc w.cnt }

-- The end of `alarmHandler`, and a SIGALRM that was pending behind it.
unfoldable pub after_mail : Watch → Watch
unfolding alarm_handler
after_mail w =
    let reset = record w { place = waiting; cnt = 0; pending = false } in
    if w.pending then alarm_handler reset else reset

-- While the command runs, `system` ignores SIGINT, and SIGALRM is blocked in its own handler.
unfoldable pub on_event : Place → Event → Watch → Watch
unfolding alarm_handler int_handler after_mail
on_event waiting interrupt w = int_handler w
on_event waiting alarm w = alarm_handler w
on_event waiting mailed w = w
on_event mailing interrupt w = w
on_event mailing alarm w = record w { pending = true }
on_event mailing mailed w = after_mail w

-- The loop of `main`, for what happens.
unfoldable pub watch : Watch → List Event → Watch
unfolding on_event
watch w [] = w
watch w (e ∷ events) = watch (on_event w.place e w) events
