-- ===== src/Transfer/Turns.antt =====
-- Which states of the two processes can occur together.
use sp_hw.Base.{
  ℕ, zero, suc, ◌≡◌, ◌≢◌, refl, sym, ◌∙◌, List, [], ◌∷◌, ◌++◌, append-nil, append_assoc, All, Bytes,
  arith,
}
use sp_hw.Transfer.{
  waiting, filling, posting, posting_end, last_wait, done, awaiting, reading, releasing,
  releasing_end, left, State, state, WriterStep, wait_writer, fill, fill_end, post_reader, post_end,
  wait_last, ReaderStep, wait_reader, print, read_empty, post_writer, post_last, Step, by_writer,
  by_reader, Reach, here, next, initial,
}

abbrev pub NotEmpty : Bytes → Type 0
NotEmpty line = line ≢ []

-- No line is under way: all lines are printed or still to come.
pub record Between (all : List Bytes) (w m : ℕ) (w' m' : ℕ) (input output : List Bytes)
    : Type 0 where
  pub turn_writer : w ≡ w'
  pub turn_reader : m ≡ m'
  pub lines : output ++ input ≡ all
  pub later : All NotEmpty input

-- The line in the memory is under way.
pub record UnderWay (all : List Bytes) (w m : ℕ) (m' : ℕ) (shm : Bytes) (input output : List Bytes)
    : Type 0 where
  pub turn_writer : w ≡ 0
  pub turn_reader : m ≡ m'
  pub lines : output ++ (shm ∷ input) ≡ all
  pub this : NotEmpty shm
  pub later : All NotEmpty input

-- The end of the input is under way, or has been seen.
pub record AtEnd (all : List Bytes) (w m : ℕ) (w' m' : ℕ) (shm : Bytes) (input output : List Bytes)
    : Type 0 where
  pub turn_writer : w ≡ w'
  pub turn_reader : m ≡ m'
  pub empty : shm ≡ []
  pub no_more : input ≡ []
  pub lines : output ≡ all

-- The states that occur.
abbrev pub Inv : List Bytes → State → Type 0
Inv all (state waiting awaiting (suc w) m shm input output) = Between all (suc w) m 1 0 input output
Inv all (state waiting awaiting zero m shm input output) = UnderWay all 0 m 1 shm input output
Inv all (state filling awaiting w m shm input output) = Between all w m 0 0 input output
Inv all (state posting awaiting w m shm input output) = UnderWay all w m 0 shm input output
Inv all (state waiting reading w m shm input output) = UnderWay all w m 0 shm input output
Inv all (state waiting releasing w m shm input output) = Between all w m 0 0 input output
Inv all (state posting_end awaiting w m shm input output) = AtEnd all w m 0 0 shm input output
Inv all (state last_wait awaiting w m shm input output) = AtEnd all w m 0 1 shm input output
Inv all (state last_wait reading w m shm input output) = AtEnd all w m 0 0 shm input output
Inv all (state last_wait releasing_end w m shm input output) = AtEnd all w m 0 0 shm input output
Inv all (state last_wait left w m shm input output) = AtEnd all w m 1 0 shm input output
Inv all (state done left w m shm input output) = AtEnd all w m 0 0 shm input output
Inv all _ = ⊥

pub initial-Inv :
    (shm : Bytes) (lines : List Bytes) → All NotEmpty lines → Inv lines (initial shm lines)
initial-Inv shm lines h = record { turn_writer = refl; turn_reader = refl; lines = refl; later = h }

WriterStep-Inv : (all : List Bytes) {s t : State} → WriterStep s t → Inv all s → Inv all t
WriterStep-Inv all (wait_writer {r = awaiting}) i = ground arith
WriterStep-Inv all (wait_writer {r = reading}) i = absurd (omega arith)
WriterStep-Inv all (wait_writer {r = releasing}) i = absurd (omega arith)
WriterStep-Inv all (fill {r = awaiting}) i = record {
  turn_writer = i.turn_writer;
  turn_reader = i.turn_reader;
  lines = i.lines;
  this = i.later.0;
  later = i.later.1;
}
WriterStep-Inv all (fill_end {r = awaiting}) i = record {
  turn_writer = i.turn_writer;
  turn_reader = i.turn_reader;
  empty = refl;
  no_more = refl;
  lines = sym (append-nil _) ∙ i.lines;
}
WriterStep-Inv all (post_reader {r = awaiting} {w = zero}) i = ground arith
WriterStep-Inv all (post_reader {r = awaiting} {w = suc w}) i = absurd (omega arith)
WriterStep-Inv all (post_end {r = awaiting}) i = ground arith
WriterStep-Inv all (wait_last {r = left}) i = ground arith
WriterStep-Inv all (wait_last {r = awaiting}) i = absurd (omega arith)
WriterStep-Inv all (wait_last {r = reading}) i = absurd (omega arith)
WriterStep-Inv all (wait_last {r = releasing_end}) i = absurd (omega arith)
WriterStep-Inv all _ i = absurd i

ReaderStep-Inv : (all : List Bytes) {s t : State} → ReaderStep s t → Inv all s → Inv all t
ReaderStep-Inv all (wait_reader {p = waiting} {w = zero}) i = ground arith
ReaderStep-Inv all (wait_reader {p = waiting} {w = suc w}) i = absurd (omega arith)
ReaderStep-Inv all (wait_reader {p = filling}) i = absurd (omega arith)
ReaderStep-Inv all (wait_reader {p = posting}) i = absurd (omega arith)
ReaderStep-Inv all (wait_reader {p = posting_end}) i = absurd (omega arith)
ReaderStep-Inv all (wait_reader {p = last_wait}) i = ground arith
ReaderStep-Inv all (print {p = waiting} {c = c} {shm = shm} {input = input} {output = output}) i =
    record {
      turn_writer = i.turn_writer;
      turn_reader = i.turn_reader;
      lines = append_assoc output ((c ∷ shm) ∷ []) input ∙ i.lines;
      later = i.later;
    }
ReaderStep-Inv all (print {p = last_wait}) i = absurd (cc (i.empty))
ReaderStep-Inv all (read_empty {p = waiting}) i = absurd (i.this refl)
ReaderStep-Inv all (read_empty {p = last_wait}) i = ground arith
ReaderStep-Inv all (post_writer {p = waiting}) i = ground arith
ReaderStep-Inv all (post_last {p = last_wait}) i = ground arith
ReaderStep-Inv all _ i = absurd i

pub Step-Inv : (all : List Bytes) {s t : State} → Step s t → Inv all s → Inv all t
Step-Inv all (by_writer st) i = WriterStep-Inv all st i
Step-Inv all (by_reader st) i = ReaderStep-Inv all st i

-- Every state that is reached from the start keeps the turns.
pub Reach-Inv :
    (lines : List Bytes) (shm : Bytes) {t : State}
    → All NotEmpty lines
    → Reach (initial shm lines) t
    → Inv lines t
Reach-Inv lines shm h here = initial-Inv shm lines h
Reach-Inv lines shm h (next r st) = Step-Inv lines st (Reach-Inv lines shm h r)
