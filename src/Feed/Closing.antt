-- ===== src/Feed/Closing.antt =====
-- The end of the producer of SP_HW10 (producer.c): it kills the consumers, which may be in their handlers
-- (consumer.c), takes the semaphore and prints the count. It starts where no consumer is in its handler.
use sp_hw.Base.{ℕ, suc, ◌<◌, ◌≡◌, Bool, true, false, Option, none, some, Bytes, update}
use sp_hw.Feed.{Rows, still_there}

-- Where a consumer stands: outside its handler with the signal that is pending, in front of `sem_wait`, in
-- front of `shm_buf->cnt++`, in front of `sem_post`, and killed, with the semaphore or without.
pub data Place : Type 0 where
  idle : Option ℕ → Place
  wanting holding counted killed killed_inside : Place

-- The producer: in the loop of `kill`, between `sem_wait` and `sem_post`, and behind that.
pub data Producer : Type 0 where
  killing : ℕ → Producer
  printing printed : Producer

-- The consumers, whether the semaphore is free, the producer, and `shm_buf->cnt`.
pub data Closing : Type 0 where
  closing : (ℕ → Place) → Bool → Producer → ℕ → Closing

-- SIGKILL
unfoldable pub kill : Place → Place
kill (idle pending) = killed
kill wanting = killed
kill holding = killed_inside
kill counted = killed_inside
kill killed = killed
kill killed_inside = killed_inside

-- The calls of the consumers and of the producer, with the buffer as it is in the end.
pub data Next (decimal : ℕ → Bytes) (buffer_row : ℕ) (rows : Rows) (consumer_amount : ℕ)
    : Closing → Closing → Type 0 where
  pass_over :
      {places : ℕ → Place} {free : Bool} {p : Producer} {cnt value : ℕ} (j : ℕ)
      → places j ≡ idle (some value)
      → still_there decimal buffer_row rows value ≡ false
      → Next decimal buffer_row rows consumer_amount
          (closing places free p cnt)
          (closing (update j (idle none) places) free p cnt)
  compare_row :
      {places : ℕ → Place} {free : Bool} {p : Producer} {cnt value : ℕ} (j : ℕ)
      → places j ≡ idle (some value)
      → still_there decimal buffer_row rows value ≡ true
      → Next decimal buffer_row rows consumer_amount
          (closing places free p cnt)
          (closing (update j wanting places) free p cnt)
  grab :
      {places : ℕ → Place} {p : Producer} {cnt : ℕ} (j : ℕ)
      → places j ≡ wanting
      → Next decimal buffer_row rows consumer_amount
          (closing places true p cnt)
          (closing (update j holding places) false p cnt)
  count :
      {places : ℕ → Place} {free : Bool} {p : Producer} {cnt : ℕ} (j : ℕ)
      → places j ≡ holding
      → Next decimal buffer_row rows consumer_amount
          (closing places free p cnt)
          (closing (update j counted places) free p (suc cnt))
  release :
      {places : ℕ → Place} {free : Bool} {p : Producer} {cnt : ℕ} (j : ℕ)
      → places j ≡ counted
      → Next decimal buffer_row rows consumer_amount
          (closing places free p cnt)
          (closing (update j (idle none) places) true p cnt)
  strike :
      {places : ℕ → Place} {free : Bool} {cnt i : ℕ}
      → i < consumer_amount
      → Next decimal buffer_row rows consumer_amount
          (closing places free (killing i) cnt)
          (closing (update i (kill (places i)) places) free (killing (suc i)) cnt)
  take :
      {places : ℕ → Place} {cnt i : ℕ}
      → i ≡ consumer_amount
      → Next decimal buffer_row rows consumer_amount
          (closing places true (killing i) cnt)
          (closing places false printing cnt)
  post :
      {places : ℕ → Place} {free : Bool} {cnt : ℕ}
      → Next decimal buffer_row rows consumer_amount
          (closing places free printing cnt)
          (closing places true printed cnt)

pub data Run (decimal : ℕ → Bytes) (buffer_row : ℕ) (rows : Rows) (consumer_amount : ℕ)
    (s : Closing) : Closing → Type 0 where
  here : Run decimal buffer_row rows consumer_amount s s
  next :
      {t u : Closing}
      → Run decimal buffer_row rows consumer_amount s t
      → Next decimal buffer_row rows consumer_amount t u
      → Run decimal buffer_row rows consumer_amount s u

-- Behind the last round, with the signals that are pending.
abbrev pub initial : (ℕ → Option ℕ) → ℕ → Closing
initial pending cnt = closing (λ j. idle (pending j)) true (killing 0) cnt
