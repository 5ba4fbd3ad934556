-- ===== src/Fifo/Entering.antt =====
-- The `open` of the client of 44-7, and what the server has reported.
use sp_hw.Base.{◌≡◌, refl, sym, subst, Bool, true, false, inl, inr, [], ◌∷◌, Bool-cases, Bytes}
use sp_hw.Fifo.{
  ServerJob, ClientJob, open_at_once, wait_and_close, wait_and_write, idle, ServerReport, nothing,
  told_opened, told_no_writer, told_empty, told_read, silent, Read, failed, would_block, got,
  Server, server_starting, server_ready, server_waiting, server_opened, server_read, server_printed,
  server_ended, Client, client_starting, client_opened, client_unused, client_ended, let_in_server,
  has_reader, wait_for_reader, open_if_reader, open_by_job, open_client,
}
use sp_hw.Fifo.Told.{has_opened, has_closed, has_written, IsRead, IsReport, IsTold, IsContent, Inv}

-- Whatever was true of a report stays true where the client loses none of what it has done.
module _ (sj : ServerJob) (c d : Client) (o : has_opened c ≡ true → has_opened d ≡ true)
    (k : has_closed c ≡ true → has_closed d ≡ true)
    (w : has_written c ≡ true → has_written d ≡ true) where
  IsRead-later : (r : Read) → IsRead sj r c → IsRead sj r d
  IsRead-later failed h = tt
  IsRead-later would_block h = o h
  IsRead-later (got []) (inl e) = inl e
  IsRead-later (got []) (inr e) = inr (k e)
  IsRead-later (got (x ∷ text)) h = (h.0, w (h.1))

  IsReport-later : (report : ServerReport) → IsReport sj report c → IsReport sj report d
  IsReport-later nothing h = tt
  IsReport-later told_opened h = tt
  IsReport-later told_no_writer h = o h
  IsReport-later told_empty (inl e) = inl e
  IsReport-later told_empty (inr e) = inr (k e)
  IsReport-later (told_read n text) h = (h.0, h.1, w (h.2))

  -- Either nothing has been done, or it stays done.
  pub IsTold-later :
      (s : Server) → (has_opened c ≡ false → has_opened d ≡ false) → IsTold sj s c → IsTold sj s d
  IsTold-later server_starting n h = n h
  IsTold-later server_ready n h = n h
  IsTold-later server_waiting n h = n h
  IsTold-later server_opened n (inl e) = inl e
  IsTold-later server_opened n (inr e) = inr (o e)
  IsTold-later (server_read r) n h = IsRead-later r h
  IsTold-later (server_printed report status) n h = IsReport-later report h
  IsTold-later (server_ended report status) n h = IsReport-later report h

-- A client that has not opened the FIFO, and comes to a place where it still has not.
stays_out :
    (sj : ServerJob) (s : Server) (d : Client)
    → has_opened d ≡ false
    → IsTold sj s client_starting
    → IsTold sj s d
stays_out sj s d n h =
    IsTold-later sj client_starting d (λ e. absurd (cc e)) (λ e. absurd (cc e)) (λ e. absurd (cc e))
      s (λ e. n) h

nothing_there :
    (d : Client) (content : Bytes) → IsContent client_starting content → IsContent d content
nothing_there d content (inl e) = inl e
nothing_there d content (inr (e, w)) = absurd (cc w)

-- A client comes in where the server has its end open, or is about to.
comes_in :
    (sj : ServerJob) (s : Server)
    → has_reader s ≡ true
    → IsTold sj s client_starting
    → IsTold sj (let_in_server s) client_opened
unfolding let_in_server
comes_in sj server_starting r h = absurd (cc r)
comes_in sj server_ready r h = absurd (cc r)
comes_in sj server_waiting r h = inr refl
comes_in sj server_opened r h = inr refl
comes_in sj (server_read x) r h =
    IsRead-later sj client_starting client_opened (λ e. refl) (λ e. absurd (cc e))
      (λ e. absurd (cc e)) x h
comes_in sj (server_printed report status) r h =
    IsReport-later sj client_starting client_opened (λ e. refl) (λ e. absurd (cc e))
      (λ e. absurd (cc e)) report h
comes_in sj (server_ended report status) r h = absurd (cc r)

stays_as : (s : Server) → has_reader s ≡ false → let_in_server s ≡ s
unfolding let_in_server
stays_as server_starting r = refl
stays_as server_ready r = refl
stays_as server_waiting r = absurd (cc r)
stays_as server_opened r = absurd (cc r)
stays_as (server_read x) r = refl
stays_as (server_printed report status) r = refl
stays_as (server_ended report status) r = refl

-- A branch that opens the FIFO.
abbrev opens : ClientJob → Bool
opens idle = false
opens _ = true

open_by_job-IsTold :
    (sj : ServerJob) (s : Server) (cj : ClientJob)
    → opens cj ≡ true
    → IsTold sj s client_starting
    → IsTold sj (let_in_server s) (open_by_job cj s)
unfolding open_by_job wait_for_reader open_if_reader
open_by_job-IsTold sj s cj o h = elim (Bool-cases (has_reader s)) [
  | inl r ↦ let inside = comes_in sj s r h in by_job_in r inside cj o
  | inr r ↦
      subst (λ x. IsTold sj x (open_by_job cj s)) (sym (stays_as s r))
        (stays_out sj s (open_by_job cj s) (by_job_out r cj) h)
]
  where
    by_job_in :
        has_reader s ≡ true
        → IsTold sj (let_in_server s) client_opened
        → (j : ClientJob) → opens j ≡ true
        → IsTold sj (let_in_server s) (open_by_job j s)
    by_job_in r i idle o = absurd (cc o)
    by_job_in r i open_at_once o = rw r i
    by_job_in r i wait_and_close o = rw r i
    by_job_in r i wait_and_write o = rw r i

    by_job_out : has_reader s ≡ false → (j : ClientJob) → has_opened (open_by_job j s) ≡ false
    by_job_out r idle = refl
    by_job_out r open_at_once = rw r refl
    by_job_out r wait_and_close = rw r refl
    by_job_out r wait_and_write = rw r refl

refused-Inv :
    (sj : ServerJob) (s : Server) (d : Client) (content : Bytes)
    → has_opened d ≡ false
    → IsTold sj s client_starting
    → IsContent client_starting content
    → IsTold sj s d × IsContent d content
refused-Inv sj s d content n h k = (stays_out sj s d n h, nothing_there d content k)

pub open_client-Inv :
    (sj : ServerJob) (cj : ClientJob) (ok : Bool) (s : Server) (made : Bool) (content : Bytes)
    → IsTold sj s client_starting
    → IsContent client_starting content
    → Inv sj (open_client cj ok s made content)
unfolding open_client
open_client-Inv sj idle ok s made content h k = refused-Inv sj s client_unused content refl h k
open_client-Inv sj open_at_once false s made content h k =
    refused-Inv sj s (client_ended silent 1) content refl h k
open_client-Inv sj wait_and_close false s made content h k =
    refused-Inv sj s (client_ended silent 1) content refl h k
open_client-Inv sj wait_and_write false s made content h k =
    refused-Inv sj s (client_ended silent 1) content refl h k
open_client-Inv sj open_at_once true s false content h k =
    refused-Inv sj s (client_ended silent 1) content refl h k
open_client-Inv sj wait_and_close true s false content h k =
    refused-Inv sj s (client_ended silent 1) content refl h k
open_client-Inv sj wait_and_write true s false content h k =
    refused-Inv sj s (client_ended silent 1) content refl h k
open_client-Inv sj open_at_once true s true content h k = (
  open_by_job-IsTold sj s open_at_once refl h,
  nothing_there (open_by_job open_at_once s) content k,
)
open_client-Inv sj wait_and_close true s true content h k = (
  open_by_job-IsTold sj s wait_and_close refl h,
  nothing_there (open_by_job wait_and_close s) content k,
)
open_client-Inv sj wait_and_write true s true content h k = (
  open_by_job-IsTold sj s wait_and_write refl h,
  nothing_there (open_by_job wait_and_write s) content k,
)
