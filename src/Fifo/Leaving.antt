-- ===== src/Fifo/Leaving.antt =====
-- The steps of the client of 44-7 behind its `open`, and what the server has reported.
use sp_hw.Base.{
  some-inj, ◌≡◌, refl, ap, subst, Bool, true, false, inl, inr, [], ◌++◌, some, Bool-cases, length,
  Bytes,
}
use sp_hw.Fifo.{
  ServerJob, ClientJob, open_at_once, wait_and_close, wait_and_write, idle, ClientReport, silent,
  told_no_reader, told_broken, told_wrote, Server, Client, client_starting, client_waiting,
  client_barred, client_opened, client_unused, client_wrote, client_printed, client_ended, State,
  state, has_reader, message, write_message, finish_client, client_step,
}
use sp_hw.Fifo.Told.{has_opened, IsTold, IsContent, Inv}
use sp_hw.Fifo.Entering.{IsTold-later, open_client-Inv}

-- A client that had the FIFO open goes on to a later place.
goes_on :
    (sj : ServerJob) (s : Server) (d : Client)
    → has_opened d ≡ true
    → IsTold sj s client_opened
    → IsTold sj s d
goes_on sj s d o h =
    IsTold-later sj client_opened d (λ e. o) (λ e. absurd (cc e)) (λ e. absurd (cc e)) s
      (λ e. absurd (cc e)) h

still_empty : (content : Bytes) → IsContent client_opened content → content ≡ []
still_empty content (inl e) = e
still_empty content (inr (e, w)) = absurd (cc w)

write_message-Inv :
    (sj : ServerJob) (ok : Bool) (s : Server) (made : Bool) (content : Bytes)
    → IsTold sj s client_opened
    → content ≡ []
    → Inv sj (write_message ok s made content)
unfolding write_message
write_message-Inv sj false s made content h e = (goes_on sj s (client_wrote silent) refl h, inl e)
write_message-Inv sj true s made content h e = elim (Bool-cases (has_reader s)) [
  | inl r ↦ rw r (
    goes_on sj s (client_wrote (told_wrote (length message))) refl h,
    inr (ap (◌++ message) e, refl),
  )
  | inr r ↦ rw r (goes_on sj s (client_wrote told_broken) refl h, inl e)
]

finish_client-Inv :
    (sj : ServerJob) (cj : ClientJob) (ok : Bool) (s : Server) (made : Bool) (content : Bytes)
    → IsTold sj s client_opened
    → content ≡ []
    → Inv sj (finish_client cj ok s made content)
unfolding finish_client
finish_client-Inv sj idle ok s made content h e =
    (goes_on sj s (client_ended silent 0) refl h, inl e)
finish_client-Inv sj open_at_once ok s made content h e =
    (goes_on sj s (client_ended silent 0) refl h, inl e)
finish_client-Inv sj wait_and_close ok s made content h e =
    (goes_on sj s (client_ended silent 0) refl h, inl e)
finish_client-Inv sj wait_and_write ok s made content h e =
    write_message-Inv sj ok s made content h e

-- Behind the `printf`, and behind the end.
printed-Inv :
    (sj : ServerJob) (s : Server) (report : ClientReport) (content : Bytes)
    → IsTold sj s (client_wrote report)
    → IsContent (client_wrote report) content
    → IsTold sj s (client_printed report) × IsContent (client_printed report) content
printed-Inv sj s report content h k = (
  IsTold-later sj (client_wrote report) (client_printed report) (λ e. refl) (λ e. absurd (cc e))
      (λ w. w) s (λ e. absurd (cc e)) h,
  k,
)

ended-Inv :
    (sj : ServerJob) (s : Server) (report : ClientReport) (content : Bytes)
    → IsTold sj s (client_printed report)
    → IsContent (client_printed report) content
    → IsTold sj s (client_ended report 0) × IsContent (client_ended report 0) content
ended-Inv sj s report content h k = (
  IsTold-later sj (client_printed report) (client_ended report 0) (λ e. refl) (λ e. refl) (λ w. w) s
      (λ e. absurd (cc e)) h,
  k,
)

barred-Inv :
    (sj : ServerJob) (s : Server) (content : Bytes)
    → IsTold sj s client_barred
    → IsContent client_barred content
    → IsTold sj s (client_ended told_no_reader 1)
      × IsContent (client_ended told_no_reader 1) content
barred-Inv sj s content h k = (
  IsTold-later sj client_barred (client_ended told_no_reader 1) (λ e. absurd (cc e))
      (λ e. absurd (cc e)) (λ e. absurd (cc e)) s (λ e. refl) h,
  k,
)

pub client_step-Inv :
    (sj : ServerJob) (cj : ClientJob) (ok : Bool) (t u : State)
    → Inv sj t
    → client_step cj ok t ≡ some u
    → Inv sj u
unfolding client_step
client_step-Inv sj cj ok (state s client_starting made content) u h e =
    subst (Inv sj) (some-inj e) (open_client-Inv sj cj ok s made content (h.0) (h.1))
client_step-Inv sj cj ok (state s client_opened made content) u h e =
    subst (Inv sj) (some-inj e)
      (finish_client-Inv sj cj ok s made content (h.0) (still_empty content (h.1)))
client_step-Inv sj cj ok (state s client_barred made content) u h e =
    subst (Inv sj) (some-inj e) (barred-Inv sj s content (h.0) (h.1))
client_step-Inv sj cj ok (state s (client_wrote report) made content) u h e =
    subst (Inv sj) (some-inj e) (printed-Inv sj s report content (h.0) (h.1))
client_step-Inv sj cj ok (state s (client_printed report) made content) u h e =
    subst (Inv sj) (some-inj e) (ended-Inv sj s report content (h.0) (h.1))
client_step-Inv sj cj ok (state s client_waiting made content) u h e = absurd (cc e)
client_step-Inv sj cj ok (state s client_unused made content) u h e = absurd (cc e)
client_step-Inv sj cj ok (state s (client_ended report status) made content) u h e = absurd (cc e)
