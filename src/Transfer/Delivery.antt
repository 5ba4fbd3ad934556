-- ===== src/Transfer/Delivery.antt =====
-- The lines that the reader of 54_1 prints, and the use of the memory.
use sp_hw.Base.{
  zero, suc, ◌≡◌, refl, ◌∙◌, Bool, true, false, List, [], ◌∷◌, ◌++◌, append-nil, All, Bytes,
}
use sp_hw.Transfer.{
  Writer, waiting, filling, posting, posting_end, last_wait, done, Reader, awaiting, reading,
  releasing, releasing_end, left, State, state, Reach, initial,
}
use sp_hw.Transfer.Turns.{NotEmpty, Inv, Reach-Inv}

abbrev pub writer_of : State → Writer
writer_of (state p r w m shm input output) = p

abbrev pub reader_of : State → Reader
reader_of (state p r w m shm input output) = r

abbrev pub output_of : State → List Bytes
output_of (state p r w m shm input output) = output

-- Between its `sem_wait` and its `sem_post` a process may use the memory.
abbrev pub writer_turn : Writer → Bool
writer_turn filling = true
writer_turn posting = true
writer_turn posting_end = true
writer_turn _ = false

abbrev pub reader_turn : Reader → Bool
reader_turn reading = true
reader_turn releasing = true
reader_turn releasing_end = true
reader_turn _ = false

Inv-exclusive :
    (all : List Bytes) (t : State)
    → Inv all t
    → writer_turn (writer_of t) ≡ true
    → reader_turn (reader_of t) ≡ true
    → ⊥
Inv-exclusive all (state filling reading w m shm input output) i h k = i
Inv-exclusive all (state filling releasing w m shm input output) i h k = i
Inv-exclusive all (state filling releasing_end w m shm input output) i h k = i
Inv-exclusive all (state posting reading w m shm input output) i h k = i
Inv-exclusive all (state posting releasing w m shm input output) i h k = i
Inv-exclusive all (state posting releasing_end w m shm input output) i h k = i
Inv-exclusive all (state posting_end reading w m shm input output) i h k = i
Inv-exclusive all (state posting_end releasing w m shm input output) i h k = i
Inv-exclusive all (state posting_end releasing_end w m shm input output) i h k = i
Inv-exclusive all (state _ _ w m shm input output) i h k = cc

false_unless_true : (b : Bool) → (b ≡ true → ⊥) → b ≡ false
false_unless_true true h = absurd (h refl)
false_unless_true false h = refl

-- In every state reached from the start with non-empty lines, while the writer is between its
-- `sem_wait` and its `sem_post`, where it may use the memory, the reader is not.
pub Reach-exclusive :
    (lines : List Bytes) (shm : Bytes) (t : State)
    → All NotEmpty lines
    → Reach (initial shm lines) t
    → writer_turn (writer_of t) ≡ true
    → reader_turn (reader_of t) ≡ false
Reach-exclusive lines shm t h r k =
    false_unless_true _ (Inv-exclusive lines t (Reach-Inv lines shm h r) k)

-- The printed lines are the first of all lines.
abbrev pub IsStartOf : List Bytes → List Bytes → Type 0
IsStartOf output all = (rest : List Bytes) × (output ++ rest ≡ all)

Inv-IsStartOf : (all : List Bytes) (t : State) → Inv all t → IsStartOf (output_of t) all
Inv-IsStartOf all (state waiting awaiting (suc w) m shm input output) i = (input, i.lines)
Inv-IsStartOf all (state waiting awaiting zero m shm input output) i = (shm ∷ input, i.lines)
Inv-IsStartOf all (state filling awaiting w m shm input output) i = (input, i.lines)
Inv-IsStartOf all (state posting awaiting w m shm input output) i = (shm ∷ input, i.lines)
Inv-IsStartOf all (state waiting reading w m shm input output) i = (shm ∷ input, i.lines)
Inv-IsStartOf all (state waiting releasing w m shm input output) i = (input, i.lines)
Inv-IsStartOf all (state posting_end awaiting w m shm input output) i =
    ([], append-nil output ∙ i.lines)
Inv-IsStartOf all (state last_wait awaiting w m shm input output) i =
    ([], append-nil output ∙ i.lines)
Inv-IsStartOf all (state last_wait reading w m shm input output) i =
    ([], append-nil output ∙ i.lines)
Inv-IsStartOf all (state last_wait releasing_end w m shm input output) i =
    ([], append-nil output ∙ i.lines)
Inv-IsStartOf all (state last_wait left w m shm input output) i = ([], append-nil output ∙ i.lines)
Inv-IsStartOf all (state done left w m shm input output) i = ([], append-nil output ∙ i.lines)
Inv-IsStartOf all _ i = absurd i

-- If no line is empty, the reader has at every moment printed the first lines of the input, in order,
-- each once.
pub Reach-IsStartOf :
    (lines : List Bytes) (shm : Bytes) (t : State)
    → All NotEmpty lines
    → Reach (initial shm lines) t
    → IsStartOf (output_of t) lines
Reach-IsStartOf lines shm t h r = Inv-IsStartOf lines t (Reach-Inv lines shm h r)
