-- ===== src/Popen/Listing/Printed.antt =====
-- What pipe_ls.c prints.
use sp_hw.Base.{◌≡◌, ◌≢◌, true, some, update}
use sp_hw.Popen.{write_end, Table, Pipe, is_open, closed}

-- A pipe behind `pipe`, where stdin and stdout were open before.
record BehindPipe (p : Pipe) (t : Table) : Type 0 where
  read_other : p.read_fd ≢ 1
  write_other : p.write_fd ≢ 1
  at_write : t p.write_fd ≡ some write_end
  stdin : is_open (t 0) ≡ true

-- The descriptors with which `ls` runs.
abbrev for_ls : Pipe → Table → Table
unfolding closed
for_ls p t = closed p.read_fd (update 1 (some write_end) (closed 1 t))
