-- ===== src/Transfer.antt =====
-- SP_HW/SP_HW9/54_1: a writer hands lines to a reader through shared memory. Two semaphores say whose
-- turn it is. A line is the C string that stands in the memory.
pub mod Turns
pub mod Delivery
pub mod Progress
use sp_hw.Base.{ℕ, zero, suc, ◌≡◌, ◌≢◌, List, [], ◌∷◌, ◌++◌, Bytes}

-- Where the writer stands: in front of `sem_wait(writer_sem)`, with its turn, in front of
-- `sem_post(reader_sem)` after a line or after the end of the input, in front of the last
-- `sem_wait`, and behind it.
pub data Writer : Type 0 where
  waiting filling posting posting_end last_wait done : Writer

-- Where the reader stands: in front of `sem_wait(reader_sem)`, with its turn, in front of
-- `sem_post(writer_sem)` after a line or after an empty string, and behind the loop.
pub data Reader : Type 0 where
  awaiting reading releasing releasing_end left : Reader

-- The two processes, the values of the two semaphores, the memory, the lines of stdin that are
-- still to come, and the lines printed.
pub data State : Type 0 where
  state : Writer → Reader → ℕ → ℕ → Bytes → List Bytes → List Bytes → State

-- The writer's steps. `fgets` brings the next line, or NULL at the end of the input.
pub data WriterStep : State → State → Type 0 where
  wait_writer :
      {r : Reader} {w m : ℕ} {shm : Bytes} {input output : List Bytes}
      → WriterStep
          (state waiting r (suc w) m shm input output)
          (state filling r w m shm input output)
  fill :
      {r : Reader} {w m : ℕ} {shm line : Bytes} {input output : List Bytes}
      → WriterStep
          (state filling r w m shm (line ∷ input) output)
          (state posting r w m line input output)
  fill_end :
      {r : Reader} {w m : ℕ} {shm : Bytes} {output : List Bytes}
      → WriterStep (state filling r w m shm [] output) (state posting_end r w m [] [] output)
  post_reader :
      {r : Reader} {w m : ℕ} {shm : Bytes} {input output : List Bytes}
      → WriterStep
          (state posting r w m shm input output)
          (state waiting r w (suc m) shm input output)
  post_end :
      {r : Reader} {w m : ℕ} {shm : Bytes} {input output : List Bytes}
      → WriterStep
          (state posting_end r w m shm input output)
          (state last_wait r w (suc m) shm input output)
  wait_last :
      {r : Reader} {w m : ℕ} {shm : Bytes} {input output : List Bytes}
      → WriterStep
          (state last_wait r (suc w) m shm input output)
          (state done r w m shm input output)

-- The reader's steps. An empty string ends its loop, and any other is printed.
pub data ReaderStep : State → State → Type 0 where
  wait_reader :
      {p : Writer} {w m : ℕ} {shm : Bytes} {input output : List Bytes}
      → ReaderStep
          (state p awaiting w (suc m) shm input output)
          (state p reading w m shm input output)
  print :
      {p : Writer} {w m c : ℕ} {shm : Bytes} {input output : List Bytes}
      → ReaderStep
          (state p reading w m (c ∷ shm) input output)
          (state p releasing w m (c ∷ shm) input (output ++ (c ∷ shm) ∷ []))
  read_empty :
      {p : Writer} {w m : ℕ} {input output : List Bytes}
      → ReaderStep (state p reading w m [] input output) (state p releasing_end w m [] input output)
  post_writer :
      {p : Writer} {w m : ℕ} {shm : Bytes} {input output : List Bytes}
      → ReaderStep
          (state p releasing w m shm input output)
          (state p awaiting (suc w) m shm input output)
  post_last :
      {p : Writer} {w m : ℕ} {shm : Bytes} {input output : List Bytes}
      → ReaderStep
          (state p releasing_end w m shm input output)
          (state p left (suc w) m shm input output)

-- The two processes take steps in any order.
pub data Step (s t : State) : Type 0 where
  by_writer : WriterStep s t → Step s t
  by_reader : ReaderStep s t → Step s t

pub data Reach (s : State) : State → Type 0 where
  here : Reach s s
  next : {t u : State} → Reach s t → Step t u → Reach s u

-- After the setup: `writer_sem` is 1 and `reader_sem` 0.
abbrev pub initial : Bytes → List Bytes → State
initial shm lines = state waiting awaiting 1 0 shm lines []
