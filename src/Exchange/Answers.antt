-- ===== src/Exchange/Answers.antt =====
-- What the clients of SP_HW12 get.
use sp_hw.Base.{
  true_not_false, ℕ, zero, suc, ◌≡◌, ◌≢◌, ◌⊎◌, inl, inr, refl, sym, ap, ◌∙◌, subst, true, false,
  Option, none, some, ◌==◌, ==_iff, Bool-cases, Bytes, str_eq, str_eq_iff, arith,
}
use sp_hw.Dict.Record.{Dictrec, missing}
use sp_hw.Exchange.{
  Client, copying, alerting, awaiting, releasing, returned, sleeping, looking, notifying, Shared,
  shared, State, state, text_for, read_text, ClientStep, begin, grab, copy_word, alert, await,
  release, compare_text, ServerStep, wake, look, notify, by_client, leave, by_server, client_of,
  shared_of, Reach, here, next, initial,
}
use sp_hw.Exchange.Turns.{holds, Phase}
use sp_hw.Exchange.Mutex.{others_of, Reach-MutexInv}
use sp_hw.Exchange.Holder.{IsHeld, Inv, NoneGone, Reach-Inv}

abbrev pub text_of : Shared → Bytes
text_of (shared p m a r) = r.text

holder_of :
    (find : Bytes → Option Bytes) (clients : ℕ → Client) (added : ℕ → ℕ) (v : Shared) (i : ℕ)
    → Inv find (state clients added v)
    → holds (clients i) ≡ true
    → IsHeld find clients v i
holder_of find clients added v i (inl f) h = absurd (true_not_false h (f.all_outside i))
holder_of find clients added v i (inr (k, held)) h = elim (Bool-cases (i == k)) [
  | inl e ↦ subst (IsHeld find clients v) (sym ((==_iff i k).0 e)) held
  | inr e ↦ absurd (true_not_false h (held.others i (λ x. true_not_false ((==_iff i k).1 x) e)))
]

-- While a client is between its grab and its release, no other client is.
pub Reach-one_holder :
    (find : Bytes → Option Bytes) (r : Dictrec) (t : State) (i j : ℕ)
    → Reach find (initial r) t
    → holds (client_of t i) ≡ true
    → j ≢ i
    → holds (client_of t j) ≡ false
Reach-one_holder find r (state clients added v) i j run h n =
    (others_of i h (Reach-MutexInv find r run)).0 j n

Phase-text :
    (find : Bytes → Option Bytes) (word : Bytes) (v : Shared)
    → Phase find (releasing word) v
    → text_of v ≡ text_for (find word)
Phase-text find word (shared sleeping m a r) p = p.content
Phase-text find word (shared looking m a r) p = absurd p
Phase-text find word (shared notifying m a r) p = absurd p

read_text-text_for : (o : Option Bytes) → o ≢ some missing → read_text (text_for o) ≡ o
unfolding read_text str_eq
read_text-text_for none h = refl
read_text-text_for (some text) h = elim (Bool-cases (str_eq text missing)) [
  | inl e ↦ absurd (h (ap some ((str_eq_iff text missing).0 e)))
  | inr e ↦ rw e refl
]

-- If the dictionary has no text XXXX for the word and no client has ended, a client that has been woken and
-- has not yet released semaphore 0 finds the answer for its own word in the record, whatever calls the other
-- clients make.
pub Reach-read_text :
    (find : Bytes → Option Bytes) (r : Dictrec) (t : State) (i : ℕ) (word : Bytes)
    → Reach find (initial r) t
    → NoneGone t
    → client_of t i ≡ releasing word
    → find word ≢ some missing
    → read_text (text_of (shared_of t)) ≡ find word
Reach-read_text find r (state clients added v) i word run none_gone e h =
    let held = holder_of find clients added v i (Reach-Inv find r run none_gone) (ap holds e) in
    ap read_text (Phase-text find word v (subst (λ c. Phase find c v) e (held.phase)))
    ∙ read_text-text_for (find word) h

-- What can go on: a step of one client or of the server.
abbrev pub CanStep : (Bytes → Option Bytes) → Client → Shared → Type 0
CanStep find c v =
    ((d : Client) × (w : Shared) × ClientStep c v d w) ⊎ ((w : Shared) × ServerStep find v w)

Phase-CanStep :
    (find : Bytes → Option Bytes) (c : Client) (v : Shared) → Phase find c v → CanStep find c v
Phase-CanStep find (copying w) (shared sleeping m a r) p =
    inl (_, _, copy_word {old = r.word} {text = r.text})
Phase-CanStep find (alerting w) (shared sleeping m a r) p = inl (_, _, alert)
Phase-CanStep find (awaiting w) (shared sleeping m zero r) p = inl (_, _, await)
Phase-CanStep find (awaiting w) (shared sleeping m (suc a) r) p = inr (_, wake)
Phase-CanStep find (awaiting w) (shared looking m a r) p =
    inr (_, look {word = r.word} {text = r.text})
Phase-CanStep find (awaiting w) (shared notifying m zero r) p = absurd (omega (arith, p.alarm))
Phase-CanStep find (awaiting w) (shared notifying m (suc a) r) p = inr (_, notify)
Phase-CanStep find (releasing w) (shared sleeping m a r) p = inl (_, _, release)
Phase-CanStep find _ _ p = absurd p

-- As long as no client has ended, a client between its grab and its release never waits in vain: it can take a step itself, or the
-- server can.
pub Reach-CanStep :
    (find : Bytes → Option Bytes) (r : Dictrec) (t : State) (i : ℕ)
    → Reach find (initial r) t
    → NoneGone t
    → holds (client_of t i) ≡ true
    → CanStep find (client_of t i) (shared_of t)
Reach-CanStep find r (state clients added v) i run none_gone h =
    Phase-CanStep find (clients i) v
      ((holder_of find clients added v i (Reach-Inv find r run none_gone) h).phase)

-- For any two words and any dictionary there is a run in which client 0 asks for the first word and
-- returns with the answer for the second: client 1 has asked for that one between the release of
-- client 0 and its comparison.
pub Reach-wrong_answer :
    (find : Bytes → Option Bytes) (r : Dictrec) (a b : Bytes)
    → (t : State) × Reach find (initial r) t
      × (client_of t 0 ≡ returned a (read_text (text_for (find b))))
Reach-wrong_answer find r a b =
    let asked =
      next
        (next (next (next here (by_client 0 (begin {word = a}))) (by_client 0 grab))
          (by_client 0 copy_word))
        (by_client 0 alert) in
    let released =
      next
        (next (next (next (next asked (by_server wake)) (by_server look)) (by_server notify))
          (by_client 0 await))
        (by_client 0 release) in
    let other =
      next
        (next (next (next released (by_client 1 (begin {word = b}))) (by_client 1 grab))
          (by_client 1 copy_word))
        (by_client 1 alert) in
    let answered = next (next other (by_server wake)) (by_server look) in
    (_, next answered (by_client 0 compare_text), refl)

-- Without the undo a client would wait for its answer. For any two words and any dictionary there is a run in
-- which client 0 has asked for the first word and ends while client 1, which asks for the second, waits for the
-- server: semaphore 1 falls back to 0, and client 1 returns with the answer for the first word.
pub Reach-undone :
    (find : Bytes → Option Bytes) (r : Dictrec) (a b : Bytes)
    → (t : State) × Reach find (initial r) t
      × (client_of t 1 ≡ returned b (read_text (text_for (find a))))
Reach-undone find r a b =
    let asked =
      next
        (next (next (next here (by_client 0 (begin {word = a}))) (by_client 0 grab))
          (by_client 0 copy_word))
        (by_client 0 alert) in
    let answered =
      next
        (next
          (next (next (next (next asked (by_server wake)) (by_server look)) (by_server notify))
            (by_client 0 await))
          (by_client 0 release))
        (by_client 0 compare_text) in
    let other =
      next
        (next (next (next answered (by_client 1 (begin {word = b}))) (by_client 1 grab))
          (by_client 1 copy_word))
        (by_client 1 alert) in
    let undone = next other (leave 0 refl) in
    (
      _,
      next (next (next undone (by_client 1 await)) (by_client 1 release))
          (by_client 1 compare_text),
      refl,
    )
