-- ===== src/Transfer/Progress.antt =====
-- Runs of 54_1 go on until all is printed, and end.
use sp_hw.Base.{ℕ, zero, suc, ◌+◌, ◌*◌, ◌≡◌, refl, List, [], ◌∷◌, All, length, Bytes, arith}
use sp_hw.Transfer.{
  waiting, filling, posting, posting_end, last_wait, done, awaiting, reading, releasing,
  releasing_end, left, State, state, WriterStep, wait_writer, fill, fill_end, post_reader, post_end,
  wait_last, ReaderStep, wait_reader, print, read_empty, post_writer, post_last, Step, by_writer,
  by_reader, Reach, here, next, initial,
}
use sp_hw.Transfer.Turns.{NotEmpty, Inv, Reach-Inv}
use sp_hw.Transfer.Delivery.{writer_of, reader_of, output_of}

-- Both processes are through, and all lines are printed.
pub record IsComplete (all : List Bytes) (t : State) : Type 0 where
  pub writer_done : writer_of t ≡ done
  pub reader_left : reader_of t ≡ left
  pub printed : output_of t ≡ all

-- A state in which no step is possible.
abbrev pub IsStuck : State → Type 0
IsStuck t = (u : State) → Step t u → ⊥

Inv-IsComplete : (all : List Bytes) (t : State) → Inv all t → IsStuck t → IsComplete all t
Inv-IsComplete all (state waiting awaiting (suc w) m shm input output) i h =
    absurd (h _ (by_writer wait_writer))
Inv-IsComplete all (state waiting awaiting zero zero shm input output) i h = absurd (omega arith)
Inv-IsComplete all (state waiting awaiting zero (suc m) shm input output) i h =
    absurd (h _ (by_reader wait_reader))
Inv-IsComplete all (state filling awaiting w m shm [] output) i h =
    absurd (h _ (by_writer fill_end))
Inv-IsComplete all (state filling awaiting w m shm (line ∷ input) output) i h =
    absurd (h _ (by_writer fill))
Inv-IsComplete all (state posting awaiting w m shm input output) i h =
    absurd (h _ (by_writer post_reader))
Inv-IsComplete all (state waiting reading w m [] input output) i h =
    absurd (h _ (by_reader read_empty))
Inv-IsComplete all (state waiting reading w m (c ∷ shm) input output) i h =
    absurd (h _ (by_reader print))
Inv-IsComplete all (state waiting releasing w m shm input output) i h =
    absurd (h _ (by_reader post_writer))
Inv-IsComplete all (state posting_end awaiting w m shm input output) i h =
    absurd (h _ (by_writer post_end))
Inv-IsComplete all (state last_wait awaiting w zero shm input output) i h = absurd (omega arith)
Inv-IsComplete all (state last_wait awaiting w (suc m) shm input output) i h =
    absurd (h _ (by_reader wait_reader))
Inv-IsComplete all (state last_wait reading w m [] input output) i h =
    absurd (h _ (by_reader read_empty))
Inv-IsComplete all (state last_wait reading w m (c ∷ shm) input output) i h =
    absurd (h _ (by_reader print))
Inv-IsComplete all (state last_wait releasing_end w m shm input output) i h =
    absurd (h _ (by_reader post_last))
Inv-IsComplete all (state last_wait left zero m shm input output) i h = absurd (omega arith)
Inv-IsComplete all (state last_wait left (suc w) m shm input output) i h =
    absurd (h _ (by_writer wait_last))
Inv-IsComplete all (state done left w m shm input output) i h = record {
  writer_done = refl;
  reader_left = refl;
  printed = i.lines;
}
Inv-IsComplete all _ i h = absurd i

-- The steps still to be taken.
abbrev pub rank : State → ℕ
rank (state waiting awaiting (suc w) m shm input output) = 6 * length input + 7
rank (state waiting awaiting zero m shm input output) = 6 * length input + 10
rank (state filling r w m shm input output) = 6 * length input + 6
rank (state posting r w m shm input output) = 6 * length input + 11
rank (state waiting reading w m shm input output) = 6 * length input + 9
rank (state waiting releasing w m shm input output) = 6 * length input + 8
rank (state posting_end r w m shm input output) = 5
rank (state last_wait awaiting w m shm input output) = 4
rank (state last_wait reading w m shm input output) = 3
rank (state last_wait releasing_end w m shm input output) = 2
rank (state last_wait left w m shm input output) = 1
rank _ = 0

WriterStep-rank :
    (all : List Bytes) {s t : State} → WriterStep s t → Inv all s → rank s ≡ suc (rank t)
WriterStep-rank all (wait_writer {r = awaiting}) i = omega arith
WriterStep-rank all (wait_writer {r = reading}) i = absurd (omega arith)
WriterStep-rank all (wait_writer {r = releasing}) i = absurd (omega arith)
WriterStep-rank all (fill {r = awaiting}) i = omega arith
WriterStep-rank all (fill_end {r = awaiting}) i = omega arith
WriterStep-rank all (post_reader {r = awaiting} {w = zero}) i = omega arith
WriterStep-rank all (post_reader {r = awaiting} {w = suc w}) i = absurd (omega arith)
WriterStep-rank all (post_end {r = awaiting}) i = omega arith
WriterStep-rank all (wait_last {r = left}) i = omega arith
WriterStep-rank all (wait_last {r = awaiting}) i = absurd (omega arith)
WriterStep-rank all (wait_last {r = reading}) i = absurd (omega arith)
WriterStep-rank all (wait_last {r = releasing_end}) i = absurd (omega arith)
WriterStep-rank all _ i = absurd i

ReaderStep-rank :
    (all : List Bytes) {s t : State} → ReaderStep s t → Inv all s → rank s ≡ suc (rank t)
ReaderStep-rank all (wait_reader {p = waiting} {w = zero}) i = omega arith
ReaderStep-rank all (wait_reader {p = waiting} {w = suc w}) i = absurd (omega arith)
ReaderStep-rank all (wait_reader {p = filling}) i = absurd (omega arith)
ReaderStep-rank all (wait_reader {p = posting}) i = absurd (omega arith)
ReaderStep-rank all (wait_reader {p = posting_end}) i = absurd (omega arith)
ReaderStep-rank all (wait_reader {p = last_wait}) i = omega arith
ReaderStep-rank all (print {p = waiting}) i = omega arith
ReaderStep-rank all (print {p = last_wait}) i = absurd (cc (i.empty))
ReaderStep-rank all (read_empty {p = waiting}) i = absurd (i.this refl)
ReaderStep-rank all (read_empty {p = last_wait}) i = omega arith
ReaderStep-rank all (post_writer {p = waiting}) i = omega arith
ReaderStep-rank all (post_last {p = last_wait}) i = omega arith
ReaderStep-rank all _ i = absurd i

Step-rank : (all : List Bytes) {s t : State} → Step s t → Inv all s → rank s ≡ suc (rank t)
Step-rank all (by_writer st) i = WriterStep-rank all st i
Step-rank all (by_reader st) i = ReaderStep-rank all st i

-- The number of steps of a run.
abbrev pub steps : {s t : State} → Reach s t → ℕ
steps here = 0
steps (next r st) = suc (steps r)

-- If no line is empty and neither process can take a step, both are through and all lines are
-- printed: there is no deadlock.
pub Reach-IsComplete :
    (lines : List Bytes) (shm : Bytes) (t : State)
    → All NotEmpty lines
    → Reach (initial shm lines) t
    → IsStuck t
    → IsComplete lines t
Reach-IsComplete lines shm t h r = Inv-IsComplete lines t (Reach-Inv lines shm h r)

-- If no line is empty, then however the two processes are scheduled, the steps taken and those still to be taken add up to 6
-- for each line and 7 for the end of the input: no run goes on for ever.
pub steps-rank :
    (lines : List Bytes) (shm : Bytes) {t : State}
    → All NotEmpty lines
    → (r : Reach (initial shm lines) t) → steps r + rank t ≡ 6 * length lines + 7
steps-rank lines shm h here = omega arith
steps-rank lines shm h (next r st) =
    omega (arith, steps-rank lines shm h r, Step-rank lines st (Reach-Inv lines shm h r))
