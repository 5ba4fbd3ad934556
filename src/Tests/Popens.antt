-- ===== src/Tests/Popens.antt =====
-- `my_popen` in a process with its three standard descriptors, and in one whose stdout is closed.
use sp_hw.Base.{Calls, ◌≡◌, refl, true, none, some, if◌then◌else◌, ltb, ◌==◌, arith, codes}
use sp_hw.Popen.{
  Table, other, Pipe, read_end, write_end, Answers, not_yet, status, my_popen, my_pclose,
}
use sp_hw.Popen.Listing.{LsCalls}
use sp_hw.Popen.Ends.{Connected, my_popen-Connected}

abbrev standard : Table
standard fd = if ltb fd 3 then some (other fd) else none

-- Without stdout the pipe takes its descriptor.
abbrev no_stdout : Table
no_stdout fd = if fd == 1 then none else standard fd

abbrev low : Pipe
low = record { read_fd = 1; write_fd = 3 }

abbrev answers : Answers
answers = record { mallocs = true; pipe = some low; fork = some 70; fdopens = true }

-- A child that has not ended leaves the status as it was.
status_unset : my_pclose true 99 not_yet ≡ status 99
unfolding my_pclose
status_unset = refl

my_popen-Connected_example :
    Connected (my_popen answers (codes "r") no_stdout) 70 1 read_end 1 write_end no_stdout
    × Connected (my_popen answers (codes "w") no_stdout) 70 3 write_end 0 read_end no_stdout
my_popen-Connected_example =
    my_popen-Connected answers low 70 no_stdout
      record { mallocs = refl; pipe = refl; fork = refl; fdopens = refl }
      record { differ = λ e. absurd (omega (arith, e)); read_free = refl; write_free = refl }

-- `ls` writes two blocks.
abbrev all_done : LsCalls
all_done = record { pipes = true; forks = true; execs = true; reads = true; waits = true }

abbrev every_write : Calls
every_write k = true

abbrev three_four : Pipe
three_four = record { read_fd = 3; write_fd = 4 }
