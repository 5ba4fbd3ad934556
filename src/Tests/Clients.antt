-- ===== src/Tests/Clients.antt =====
-- A client of SP_HW12 on its own, up to the release.
use sp_hw.Base.{Bool-cases, inl, inr, ◌==◌, ◌≡◌, refl, false, Option, some, Bytes, codes}
use sp_hw.Dict.Record.{blank}
use sp_hw.Exchange.{
  returned, State, read_text, text_for, begin, grab, copy_word, alert, await, wake, look, notify,
  by_client, by_server, client_of, shared_of, Reach, here, next, initial,
}
use sp_hw.Exchange.Holder.{NoneGone}
use sp_hw.Exchange.Turns.{holds}
use sp_hw.Exchange.Answers.{text_of, Reach-one_holder, Reach-read_text, Reach-wrong_answer}

abbrev answer : Bytes → Option Bytes
answer word = some (codes "yes")

abbrev asked : (t : State) × Reach answer (initial blank) t
asked = (
  _,
  next
      (next (next (next here (by_client 0 (begin {word = codes "a"}))) (by_client 0 grab))
        (by_client 0 copy_word))
      (by_client 0 alert),
)

abbrev woken : (t : State) × Reach answer (initial blank) t
woken = (
  _,
  next (next (next (next (asked.1) (by_server wake)) (by_server look)) (by_server notify))
      (by_client 0 await),
)

Reach-one_holder_example : holds (client_of (woken.0) 1) ≡ false
Reach-one_holder_example = Reach-one_holder answer blank (woken.0) 0 1 (woken.1) refl (λ e. cc)

woken-NoneGone : NoneGone (woken.0)
woken-NoneGone j = elim (Bool-cases (j == 0)) [ inl e ↦ rw e refl | inr e ↦ rw e refl ]

Reach-read_text_example : read_text (text_of (shared_of (woken.0))) ≡ some (codes "yes")
Reach-read_text_example =
    Reach-read_text answer blank (woken.0) 0 (codes "a") (woken.1) woken-NoneGone refl (λ e. cc)

Reach-wrong_answer_example :
    (t : State) × Reach answer (initial blank) t
    × (client_of t 0 ≡ returned (codes "a") (read_text (text_for (answer (codes "b")))))
Reach-wrong_answer_example = Reach-wrong_answer answer blank (codes "a") (codes "b")
