-- ===== src/Tests/Joining.antt =====
-- Two consumers of quiz_2/1.c: one ends, and the producer waits for the other.
use sp_hw.Base.{◌≢◌, refl, arith}
use sp_hw.Threads.{
  joined_all, State, lock, wait, wake_up, relock, leave, terminate, join, by_consumer, by_producer,
  Reach, here, next, initial,
}
use sp_hw.Threads.Joins.{producer_of, Reach-joined_all}

abbrev first_ends : (t : State) × Reach 2 (initial 0) t
first_ends = (
  _,
  next
      (next
        (next
          (next
            (next (next here (by_consumer 0 (omega arith) lock)) (by_consumer 0 (omega arith) wait))
            (by_producer terminate))
          (by_consumer 0 (omega arith) wake_up))
        (by_consumer 0 (omega arith) relock))
      (by_consumer 0 (omega arith) (leave refl)),
)

abbrev first_joined : (t : State) × Reach 2 (initial 0) t
first_joined = (_, next (first_ends.1) (by_producer (join (omega arith) refl)))

Reach-joined_all_example : producer_of (first_joined.0) ≢ joined_all
Reach-joined_all_example = Reach-joined_all 2 0 (first_joined.0) (first_joined.1) (omega arith)
