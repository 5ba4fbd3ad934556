-- ===== src/Tests/Experiments.antt =====
-- Experiments of SP_HW8/44-7.
use sp_hw.Base.{◌≡◌, refl, true, false, some, pos, []}
use sp_hw.Fifo.{
  server_job, client_job, wait_and_read, wait_and_write, read_at_once, server_step, client_step,
  State, state, Reach, here, by_server, by_client, initial, server_of, client_of, server_opened,
  server_read, server_printed, got, told_no_writer, client_starting, client_opened,
}
use sp_hw.Fifo.Told.{IsTold}
use sp_hw.Fifo.Reports.{Reach-IsTold}

jobs : (server_job (some (pos 2)) ≡ wait_and_read) × (client_job (some (pos 2)) ≡ wait_and_write)
unfolding server_job client_job
jobs = (refl, refl)

-- The client waits in its `open`, the server comes, reads before the client writes, and prints.
abbrev early_read : (t : State) × Reach wait_and_read wait_and_write (initial false) t
unfolding server_step client_step
early_read = (
  _,
  by_server true
      (by_server true (by_server true (by_client true (by_server true here refl) refl) refl) refl)
      refl,
)

Reach-IsTold_example : IsTold wait_and_read (server_of (early_read.0)) (client_of (early_read.0))
Reach-IsTold_example = Reach-IsTold wait_and_read wait_and_write false (early_read.0) (early_read.1)

says_no_writer : early_read.0 ≡ state (server_printed told_no_writer 1) client_opened true []
unfolding server_step client_step
says_no_writer = refl

-- A server alone that reads at once gets 0.
read_alone :
    server_step read_at_once true (state server_opened client_starting true [])
    ≡ some (state (server_read (got [])) client_starting true [])
unfolding server_step
read_alone = refl
