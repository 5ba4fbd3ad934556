-- ===== src/Fifo/Reports.antt =====
-- The reports of the server of 44-7 in every run.
use sp_hw.Base.{refl, Bool, inl}
use sp_hw.Fifo.{
  ServerJob, ClientJob, State, state, Reach, here, by_server, by_client, initial, server_of,
  client_of,
}
use sp_hw.Fifo.Told.{IsTold, Inv, server_step-Inv}
use sp_hw.Fifo.Leaving.{client_step-Inv}

Reach-Inv :
    (sj : ServerJob) (cj : ClientJob) (made : Bool) (t : State)
    → Reach sj cj (initial made) t
    → Inv sj t
Reach-Inv sj cj made _ here = (refl, inl refl)
Reach-Inv sj cj made _ (by_server {t = t} {u = u} ok r e) =
    server_step-Inv sj ok t u (Reach-Inv sj cj made t r) e
Reach-Inv sj cj made _ (by_client {t = t} {u = u} ok r e) =
    client_step-Inv sj cj ok t u (Reach-Inv sj cj made t r) e

-- Whatever the two programs were started with, in every order of their steps and whichever of their calls fail:
-- where the server says that there is no writer, the client has opened the FIFO; where a server that waits in
-- its `open` says that the FIFO is empty, the client has opened the FIFO and closed it again; what the server
-- prints as read is the whole message, which the client has written; and as long as the server waits in its
-- `open`, the client has not opened the FIFO.
pub Reach-IsTold :
    (sj : ServerJob) (cj : ClientJob) (made : Bool) (t : State)
    → Reach sj cj (initial made) t
    → IsTold sj (server_of t) (client_of t)
Reach-IsTold sj cj made (state s c m content) r = (Reach-Inv sj cj made (state s c m content) r).0
