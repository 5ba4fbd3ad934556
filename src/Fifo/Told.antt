-- ===== src/Fifo/Told.antt =====
-- What the programs of 44-7 report, against what has happened on the FIFO: the steps of the server.
use sp_hw.Base.{
  some-inj, ℕ, ◌≡◌, ◌≢◌, refl, sym, ap, subst, ◌∙◌, Bool, true, false, ◌⊎◌, inl, inr, [], ◌∷◌, some,
  ◌==◌, Bool-cases, length, Bytes, cstr,
}
use sp_hw.Fifo.{
  ServerJob, make_only, open_only, wait_and_read, read_at_once, wait_only, ServerReport, nothing,
  told_opened, told_no_writer, told_empty, told_read, ClientReport, told_wrote, Read, failed,
  would_block, got, Server, server_starting, server_ready, server_waiting, server_opened,
  server_read, server_printed, server_ended, Client, client_starting, client_waiting, client_barred,
  client_opened, client_unused, client_wrote, client_printed, client_ended, State, state, let_in,
  is_open, wait_for_writer, read_fifo, after_read, open_server, finish_server, server_step, message,
}

-- Whether the client has opened the FIFO: it has it open, or has ended with success behind its `open`.
abbrev pub has_opened : Client → Bool
has_opened client_opened = true
has_opened (client_wrote report) = true
has_opened (client_printed report) = true
has_opened (client_ended report status) = status == 0
has_opened _ = false

-- Whether it has closed it again.
abbrev pub has_closed : Client → Bool
has_closed (client_ended report status) = status == 0
has_closed _ = false

abbrev pub is_written : ClientReport → Bool
is_written (told_wrote n) = true
is_written _ = false

-- Whether its `write` has put the message into the FIFO.
abbrev pub has_written : Client → Bool
has_written (client_wrote report) = is_written report
has_written (client_printed report) = is_written report
has_written (client_ended report status) = is_written report
has_written _ = false

-- The branches of the server that wait for a writer.
abbrev pub waits : ServerJob → Bool
waits wait_and_read = true
waits wait_only = true
waits _ = false

-- What a `read` says of the client.
abbrev pub IsRead : ServerJob → Read → Client → Type 0
IsRead sj failed c = Unit
IsRead sj would_block c = has_opened c ≡ true
IsRead sj (got []) c = (waits sj ≡ false) ⊎ (has_closed c ≡ true)
IsRead sj (got (x ∷ text)) c = (x ∷ text ≡ message) × (has_written c ≡ true)

-- What a report says of the client.
abbrev pub IsReport : ServerJob → ServerReport → Client → Type 0
IsReport sj nothing c = Unit
IsReport sj told_opened c = Unit
IsReport sj told_no_writer c = has_opened c ≡ true
IsReport sj told_empty c = (waits sj ≡ false) ⊎ (has_closed c ≡ true)
IsReport sj (told_read n text) c = (n ≡ length message) × (text ≡ message) × (has_written c ≡ true)

abbrev pub IsTold : ServerJob → Server → Client → Type 0
IsTold sj server_starting c = has_opened c ≡ false
IsTold sj server_ready c = has_opened c ≡ false
IsTold sj server_waiting c = has_opened c ≡ false
IsTold sj server_opened c = (waits sj ≡ false) ⊎ (has_opened c ≡ true)
IsTold sj (server_read r) c = IsRead sj r c
IsTold sj (server_printed report status) c = IsReport sj report c
IsTold sj (server_ended report status) c = IsReport sj report c

-- The FIFO has got nothing, or the message of the client.
abbrev pub IsContent : Client → Bytes → Type 0
IsContent c content = (content ≡ []) ⊎ ((content ≡ message) × (has_written c ≡ true))

abbrev pub Inv : ServerJob → State → Type 0
Inv sj (state s c made content) = IsTold sj s c × IsContent c content

not_nil : (x : ℕ) (content : Bytes) → x ∷ content ≢ []
not_nil x content e = cc

-- A client that has opened the FIFO and does not have it open has closed it.
open_or_closed : (c : Client) → is_open c ≡ false → has_opened c ≡ true → has_closed c ≡ true
open_or_closed client_opened n o = absurd (cc n)
open_or_closed (client_wrote report) n o = absurd (cc n)
open_or_closed (client_printed report) n o = absurd (cc n)
open_or_closed (client_ended report status) n o = o
open_or_closed client_starting n o = absurd (cc o)
open_or_closed client_waiting n o = absurd (cc o)
open_or_closed client_barred n o = absurd (cc o)
open_or_closed client_unused n o = absurd (cc o)

open-has_opened : (c : Client) → is_open c ≡ true → has_opened c ≡ true
open-has_opened client_opened o = refl
open-has_opened (client_wrote report) o = refl
open-has_opened (client_printed report) o = refl
open-has_opened (client_ended report status) o = absurd (cc o)
open-has_opened client_starting o = absurd (cc o)
open-has_opened client_waiting o = absurd (cc o)
open-has_opened client_barred o = absurd (cc o)
open-has_opened client_unused o = absurd (cc o)

message-IsRead :
    (sj : ServerJob) (c : Client) → has_written c ≡ true → IsRead sj (read_fifo true c message) c
unfolding read_fifo
message-IsRead sj c w = (refl, w)

read_fifo-IsRead :
    (sj : ServerJob) (ok : Bool) (c : Client) (content : Bytes)
    → IsTold sj server_opened c
    → IsContent c content
    → IsRead sj (read_fifo ok c content) c
unfolding read_fifo
read_fifo-IsRead sj false c content t h = tt
read_fifo-IsRead sj true c [] t h = elim (Bool-cases (is_open c)) [
  | inl o ↦ rw o (open-has_opened c o)
  | inr n ↦ rw n (elim t [ inl e ↦ inl e | inr o ↦ inr (open_or_closed c n o) ])
]
read_fifo-IsRead sj true c (x ∷ content) t (inl e) = absurd (not_nil x content e)
read_fifo-IsRead sj true c (x ∷ content) t (inr (e, w)) =
    subst (λ bytes. IsRead sj (read_fifo true c bytes) c) (sym e) (message-IsRead sj c w)

finish_server-IsTold :
    (sj : ServerJob) (ok : Bool) (c : Client) (content : Bytes)
    → IsTold sj server_opened c
    → IsContent c content
    → IsTold sj (finish_server sj ok c content) c
unfolding finish_server
finish_server-IsTold make_only ok c content t h = tt
finish_server-IsTold open_only ok c content t h = tt
finish_server-IsTold wait_only ok c content t h = tt
finish_server-IsTold wait_and_read ok c content t h =
    read_fifo-IsRead wait_and_read ok c content t h
finish_server-IsTold read_at_once ok c content t h = read_fifo-IsRead read_at_once ok c content t h

cstr-message : cstr message ≡ message
unfolding cstr
cstr-message = refl

after_read-IsTold :
    (sj : ServerJob) (r : Read) (c : Client) → IsRead sj r c → IsTold sj (after_read r) c
unfolding after_read
after_read-IsTold sj failed c h = tt
after_read-IsTold sj would_block c h = h
after_read-IsTold sj (got []) c h = h
after_read-IsTold sj (got (x ∷ text)) c h = (ap length (h.0), ap cstr (h.0) ∙ cstr-message, h.1)

let_in-IsContent :
    (c : Client) (content : Bytes) → IsContent c content → IsContent (let_in c) content
unfolding let_in
let_in-IsContent client_waiting content h = elim h [ inl e ↦ inl e | inr (e, w) ↦ absurd (cc w) ]
let_in-IsContent client_starting content h = h
let_in-IsContent client_barred content h = h
let_in-IsContent client_opened content h = h
let_in-IsContent client_unused content h = h
let_in-IsContent (client_wrote report) content h = h
let_in-IsContent (client_printed report) content h = h
let_in-IsContent (client_ended report status) content h = h

wait_for_writer-IsTold :
    (sj : ServerJob) (c : Client) → has_opened c ≡ false → IsTold sj (wait_for_writer c) (let_in c)
unfolding wait_for_writer let_in
wait_for_writer-IsTold sj client_waiting h = inr refl
wait_for_writer-IsTold sj client_starting h = refl
wait_for_writer-IsTold sj client_barred h = refl
wait_for_writer-IsTold sj client_unused h = refl
wait_for_writer-IsTold sj client_opened h = inr refl
wait_for_writer-IsTold sj (client_wrote report) h = inr refl
wait_for_writer-IsTold sj (client_printed report) h = inr refl
wait_for_writer-IsTold sj (client_ended report status) h = h

open_server-Inv :
    (sj : ServerJob) (ok : Bool) (c : Client) (made : Bool) (content : Bytes)
    → has_opened c ≡ false
    → IsContent c content
    → Inv sj (open_server sj ok c made content)
unfolding open_server
open_server-Inv make_only ok c made content h k = (tt, k)
open_server-Inv open_only false c made content h k = (tt, k)
open_server-Inv wait_and_read false c made content h k = (tt, k)
open_server-Inv read_at_once false c made content h k = (tt, k)
open_server-Inv wait_only false c made content h k = (tt, k)
open_server-Inv open_only true c made content h k = (inl refl, let_in-IsContent c content k)
open_server-Inv read_at_once true c made content h k = (inl refl, let_in-IsContent c content k)
open_server-Inv wait_and_read true c made content h k =
    (wait_for_writer-IsTold wait_and_read c h, let_in-IsContent c content k)
open_server-Inv wait_only true c made content h k =
    (wait_for_writer-IsTold wait_only c h, let_in-IsContent c content k)

pub server_step-Inv :
    (sj : ServerJob) (ok : Bool) (t u : State) → Inv sj t → server_step sj ok t ≡ some u → Inv sj u
unfolding server_step
server_step-Inv sj true (state server_starting c made content) u h e = subst (Inv sj) (some-inj e) h
server_step-Inv sj false (state server_starting c made content) u h e =
    subst (Inv sj) (some-inj e) (tt, h.1)
server_step-Inv sj ok (state server_ready c made content) u h e =
    subst (Inv sj) (some-inj e) (open_server-Inv sj ok c made content (h.0) (h.1))
server_step-Inv sj ok (state server_waiting c made content) u h e = absurd (cc e)
server_step-Inv sj ok (state server_opened c made content) u h e =
    subst (Inv sj) (some-inj e) (finish_server-IsTold sj ok c content (h.0) (h.1), h.1)
server_step-Inv sj ok (state (server_read r) c made content) u h e =
    subst (Inv sj) (some-inj e) (after_read-IsTold sj r c (h.0), h.1)
server_step-Inv sj ok (state (server_printed report status) c made content) u h e =
    subst (Inv sj) (some-inj e) h
server_step-Inv sj ok (state (server_ended report status) c made content) u h e = absurd (cc e)
