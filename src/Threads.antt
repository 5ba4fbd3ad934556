-- ===== src/Threads.antt =====
-- SP_quiz/quiz_2/1.c: one producer and several consumers as threads, with a mutex, a condition
-- variable and a buffer of one character.
pub mod Mutex
pub mod Joins
use sp_hw.Base.{
  update, ◌%◌, ℕ, zero, suc, ◌+◌, ◌-◌, ◌<◌, ◌≤◌, ◌≡◌, ◌≢◌, Bool, true, false, Option, none, some,
  if◌then◌else◌, ◌==◌,
}

-- termination_char and the first character of the buffer
abbrev pub termination_char : ℕ
termination_char = b'#'

abbrev pub nothing_yet : ℕ
nothing_yet = b'&'

-- DATA_UPPERBOUND
abbrev pub data_upperbound : ℕ
data_upperbound = 9

-- An int is its pattern of 32 bits.
abbrev pub int_range : ℕ
int_range = 4294967296

-- Where a consumer stands, with its sum: in front of the lock, holding the mutex in front of the
-- wait, waiting for the condition, woken and in want of the mutex, in front of the test, in front of
-- the unlock, and behind the loop.
pub data Consumer : Type 0 where
  locking calling asleep woken testing unlocking finished : ℕ → Consumer

-- Where the producer stands: in front of the next datum, with the number of those left; in front of
-- the broadcast, likewise; at the join of a consumer, with its number; and behind the joins.
pub data Producer : Type 0 where
  producing broadcasting joining : ℕ → Producer
  joined_all : Producer

-- The consumers by number, the producer, who holds the mutex, and the buffer.
pub data State : Type 0 where
  state : (ℕ → Consumer) → Producer → Option ℕ → ℕ → State

-- `*sum += buffer - '0'`
unfoldable pub add_digit : ℕ → ℕ → ℕ
add_digit sum c = (sum + c + (int_range - b'0')) % int_range

-- `pthread_cond_broadcast` wakes all that wait.
abbrev pub awaken : Consumer → Consumer
awaken (asleep sum) = woken sum
awaken c = c

-- The steps of consumer i over the mutex, by the buffer. A wait may also end by itself.
pub data ConsumerStep (i buffer : ℕ) : Consumer → Option ℕ → Consumer → Option ℕ → Type 0 where
  lock : {sum : ℕ} → ConsumerStep i buffer (locking sum) none (calling sum) (some i)
  wait : {sum : ℕ} {m : Option ℕ} → ConsumerStep i buffer (calling sum) m (asleep sum) none
  wake_up : {sum : ℕ} {m : Option ℕ} → ConsumerStep i buffer (asleep sum) m (woken sum) m
  relock : {sum : ℕ} → ConsumerStep i buffer (woken sum) none (testing sum) (some i)
  leave :
      {sum : ℕ} {m : Option ℕ}
      → buffer ≡ termination_char
      → ConsumerStep i buffer (testing sum) m (finished sum) m
  add :
      {sum : ℕ} {m : Option ℕ}
      → buffer ≢ termination_char
      → ConsumerStep i buffer (testing sum) m (unlocking (add_digit sum buffer)) m
  unlock : {sum : ℕ} {m : Option ℕ} → ConsumerStep i buffer (unlocking sum) m (locking sum) none

-- The steps of the producer, for a number of consumers.
pub data ProducerStep (count : ℕ) : State → State → Type 0 where
  produce :
      {cs : ℕ → Consumer} {left : ℕ} {m : Option ℕ} {buffer digit : ℕ}
      → digit ≤ data_upperbound
      → ProducerStep count
          (state cs (producing (suc left)) m buffer)
          (state cs (broadcasting left) m (digit + b'0'))
  broadcast :
      {cs : ℕ → Consumer} {left : ℕ} {m : Option ℕ} {buffer : ℕ}
      → ProducerStep count
          (state cs (broadcasting left) m buffer)
          (state (λ i. awaken (cs i)) (producing left) m buffer)
  terminate :
      {cs : ℕ → Consumer} {m : Option ℕ} {buffer : ℕ}
      → ProducerStep count
          (state cs (producing zero) m buffer)
          (state cs (joining 0) m termination_char)
  join :
      {cs : ℕ → Consumer} {i sum : ℕ} {m : Option ℕ} {buffer : ℕ}
      → i < count
      → cs i ≡ finished sum
      → ProducerStep count (state cs (joining i) m buffer) (state cs (joining (suc i)) m buffer)
  end_joins :
      {cs : ℕ → Consumer} {i : ℕ} {m : Option ℕ} {buffer : ℕ}
      → count ≤ i
      → ProducerStep count (state cs (joining i) m buffer) (state cs joined_all m buffer)

-- The threads take steps in any order.
pub data Step (count : ℕ) : State → State → Type 0 where
  by_consumer :
      {cs : ℕ → Consumer} {p : Producer} {m n : Option ℕ} {buffer : ℕ} {c : Consumer} (i : ℕ)
      → i < count
      → ConsumerStep i buffer (cs i) m c n
      → Step count (state cs p m buffer) (state (update i c cs) p n buffer)
  by_producer : {s t : State} → ProducerStep count s t → Step count s t

pub data Reach (count : ℕ) (s : State) : State → Type 0 where
  here : Reach count s s
  next : {t u : State} → Reach count s t → Step count t u → Reach count s u

-- The consumers have been created, and the producer has `left` data to produce.
abbrev pub initial : ℕ → State
initial left = state (λ i. locking 0) (producing left) none nothing_yet
