-- ===== src/Tests/Watching.antt =====
-- Two errors, an alarm, and an error while the mail is sent.
use sp_hw.Base.{◌≡◌, ◌≢◌, [], ◌∷◌}
use sp_hw.Detector.{interrupt, alarm, mailed, watch}
use sp_hw.Detector.Mails.{quiet, watch-round}

interrupt-ne-mailed : interrupt ≢ mailed
interrupt-ne-mailed e = cc

alarm-ne-mailed : alarm ≢ mailed
alarm-ne-mailed e = cc

watch-round_example :
    watch (quiet 4) (interrupt ∷ interrupt ∷ alarm ∷ interrupt ∷ alarm ∷ mailed ∷ alarm ∷ [])
    ≡ quiet 5
watch-round_example =
    watch-round 1 1 4 (interrupt ∷ alarm ∷ []) (interrupt-ne-mailed, (alarm-ne-mailed, tt))
