-- ===== src/Feed.antt =====
-- SP_HW/SP_HW10: a producer writes numbers into the rows of a buffer in shared memory and sends each
-- number to every consumer with a signal (producer.c); a consumer counts the numbers that it still
-- finds in the buffer (consumer.c). The text of a number, which `snprintf` makes, is a parameter.
pub mod Rows
pub mod Count
pub mod Closing
pub mod Semaphore
pub mod Deadlock
use sp_hw.Base.{
  ℕ, zero, suc, ◌+◌, ◌%◌, ◌<◌, ◌≤◌, ◌≡◌, ◌≢◌, Bool, true, false, List, [], Option, none, some,
  if◌then◌else◌, ◌==◌, update, Bytes, str_eq,
}

-- The rows of the buffer, each with the string in it.
abbrev pub Rows : Type 0
Rows = ℕ → Bytes

-- The rows after the shared memory was created.
abbrev pub no_text : Rows
no_text row = []

-- How many numbers the producer has written, up to which consumer it has sent the last of them,
-- the signals that are pending, by consumer, and `shm_buf->cnt`.
pub data Feed : Type 0 where
  feed : ℕ → ℕ → (ℕ → Option ℕ) → ℕ → Feed

-- SIGUSR1 is not queued: while it is pending, another one is lost.
abbrev pub pend : ℕ → Option ℕ → Option ℕ
pend value none = some value
pend value (some earlier) = some earlier

module _ (decimal : ℕ → Bytes) (buffer_row : ℕ) where
  -- `snprintf` of the number i into its row. The offset of a row, `(i % buffer_row) * MSG_LENGTH`, is taken
  -- to fit an `int`.
  unfoldable pub write : ℕ → Rows → Rows
  write i rows = update (i % buffer_row) (decimal i) rows

  -- The buffer after the first n rounds of the producer.
  unfoldable pub written : ℕ → Rows
  unfolding write
  written zero = no_text
  written (suc n) = write n (written n)

  -- The test in `handler`.
  unfoldable pub still_there : Rows → ℕ → Bool
  unfolding str_eq
  still_there rows value = str_eq (rows (value % buffer_row)) (decimal value)

  -- `shm_buf->cnt` behind `handler`.
  unfoldable pub handler : Rows → ℕ → ℕ → ℕ
  unfolding still_there
  handler rows value cnt = if still_there rows value then suc cnt else cnt

  -- A round of the producer writes a number once the last one was sent, or its time was over, and
  -- sends it to the consumers one by one. A consumer handles its signal at any time.
  pub data Step (data_amount consumer_amount : ℕ) : Feed → Feed → Type 0 where
    produce :
        {n sent cnt : ℕ} {pending : ℕ → Option ℕ}
        → n < data_amount
        → Step data_amount consumer_amount (feed n sent pending cnt) (feed (suc n) 0 pending cnt)
    send :
        {n sent cnt : ℕ} {pending : ℕ → Option ℕ}
        → sent < consumer_amount
        → Step data_amount consumer_amount
            (feed (suc n) sent pending cnt)
            (feed (suc n) (suc sent) (update sent (pend n (pending sent)) pending) cnt)
    handle :
        {n sent cnt value : ℕ} {pending : ℕ → Option ℕ} (j : ℕ)
        → j < consumer_amount
        → pending j ≡ some value
        → Step data_amount consumer_amount
            (feed n sent pending cnt)
            (feed n sent (update j none pending) (handler (written n) value cnt))

  pub data Reach (data_amount consumer_amount : ℕ) : Feed → Type 0 where
    here : Reach data_amount consumer_amount (feed 0 consumer_amount (λ j. none) 0)
    next :
        {s t : Feed}
        → Reach data_amount consumer_amount s
        → Step data_amount consumer_amount s t
        → Reach data_amount consumer_amount t
