-- ===== src/Detector/Mails.antt =====
-- Which mails the detector sends.
use sp_hw.Base.{
  ℕ, zero, suc, ◌+◌, ◌≡◌, ◌≢◌, refl, ap, ◌∙◌, Bool, true, false, List, [], ◌∷◌, ◌++◌, ==-false, All,
  replicate, arith,
}
use sp_hw.Detector.{
  waiting, mailing, Watch, Event, interrupt, alarm, mailed, alarm_handler, int_handler, after_mail,
  on_event, watch,
}

watch-append : (w : Watch) (xs ys : List Event) → watch w (xs ++ ys) ≡ watch (watch w xs) ys
unfolding watch
watch-append w [] ys = refl
watch-append w (x ∷ xs) ys = watch-append (on_event w.place x w) xs ys

-- A detector with nothing to report, behind so many mails.
abbrev pub quiet : ℕ → Watch
quiet mails = record { place = waiting; cnt = 0; mails = mails; pending = false }

watch-interrupts :
    (k n mails : ℕ)
    → watch
        record { place = waiting; cnt = n; mails = mails; pending = false }
        (replicate k interrupt)
      ≡ record { place = waiting; cnt = k + n; mails = mails; pending = false }
unfolding watch on_event int_handler
watch-interrupts zero n mails =
    ap (λ c. record { place = waiting; cnt = c; mails = mails; pending = false }) (omega arith)
watch-interrupts (suc k) n mails =
    watch-interrupts k (suc n) mails
    ∙ ap (λ c. record { place = waiting; cnt = c; mails = mails; pending = false }) (omega arith)

watch-alarms : (k mails : ℕ) → watch (quiet mails) (replicate k alarm) ≡ quiet mails
unfolding watch on_event alarm_handler
watch-alarms zero mails = refl
watch-alarms (suc k) mails = watch-alarms k mails

-- Whatever comes while a mail is sent, the detector is quiet behind it.
watch-mailing :
    (during : List Event) (n mails : ℕ) (pending : Bool)
    → All (λ e. e ≢ mailed) during
    → watch
        record { place = mailing; cnt = n; mails = mails; pending = pending }
        (during ++ mailed ∷ [])
      ≡ quiet mails
unfolding watch on_event after_mail alarm_handler
watch-mailing [] n mails true h = refl
watch-mailing [] n mails false h = refl
watch-mailing (interrupt ∷ during) n mails pending h = watch-mailing during n mails pending (h.1)
watch-mailing (alarm ∷ during) n mails pending h = watch-mailing during n mails true (h.1)
watch-mailing (mailed ∷ during) n mails pending h = absurd (h.0 refl)

one_alarm :
    (c mails : ℕ)
    → c ≢ 0
    → watch record { place = waiting; cnt = c; mails = mails; pending = false } (alarm ∷ [])
      ≡ record { place = mailing; cnt = c; mails = suc mails; pending = false }
unfolding watch on_event alarm_handler
one_alarm c mails n = rw (==-false c 0 n) refl

watch-alarm :
    (k mails : ℕ)
    → watch (quiet mails) (replicate (suc k) interrupt ++ alarm ∷ [])
      ≡ record { place = mailing; cnt = suc k; mails = suc mails; pending = false }
watch-alarm k mails =
    watch-append (quiet mails) (replicate (suc k) interrupt) (alarm ∷ [])
    ∙ ap (λ w. watch w (alarm ∷ [])) (watch-interrupts (suc k) 0 mails)
    ∙ one_alarm (suc k + 0) mails (omega arith)
    ∙ ap (λ c. record { place = mailing; cnt = c; mails = suc mails; pending = false })
        (omega arith)

-- After one interrupt or more the next alarm sends one mail for all of them. The interrupts that come
-- while it is sent are lost: behind it no alarm sends a mail for them.
pub watch-round :
    (k n mails : ℕ) (during : List Event)
    → All (λ e. e ≢ mailed) during
    → watch (quiet mails) (
        (replicate (suc k) interrupt ++ alarm ∷ [])
        ++ ((during ++ mailed ∷ []) ++ replicate n alarm))
      ≡ quiet (suc mails)
watch-round k n mails during h =
    watch-append (quiet mails) (replicate (suc k) interrupt ++ alarm ∷ [])
      ((during ++ mailed ∷ []) ++ replicate n alarm)
    ∙ ap (λ w. watch w ((during ++ mailed ∷ []) ++ replicate n alarm)) (watch-alarm k mails)
    ∙ watch-append record { place = mailing; cnt = suc k; mails = suc mails; pending = false }
        (during ++ mailed ∷ []) (replicate n alarm)
    ∙ ap (λ w. watch w (replicate n alarm)) (watch-mailing during (suc k) (suc mails) false h)
    ∙ watch-alarms n (suc mails)
