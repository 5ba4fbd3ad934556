-- ===== src/Tests/Feeding.antt =====
-- A producer of SP_HW10 with two rows, where the text of a number is one byte.
use sp_hw.Base.{
  Option, some, update, ℕ, suc, ◌+◌, ◌*◌, ◌≤◌, ◌≡◌, ◌↔◌, refl, true, false, [], ◌∷◌, Bytes, str_eq,
  arith,
}
use sp_hw.Feed.{Rows, Feed, produce, send, handle, Reach, here, next, written, write, still_there}
use sp_hw.Feed.Closing
use sp_hw.Feed.Closing.{
  Place, idle, wanting, holding, killing, Closing, closing, kill, compare_row, grab, strike, Run,
  initial,
}
use sp_hw.Feed.Deadlock.{is_killing, producer_of, Run-killing}
use sp_hw.Feed.Rows.{still_there-written}
use sp_hw.Feed.Count.{cnt_of, Reach-cnt_of}

abbrev byte_text : ℕ → Bytes
byte_text n = suc n ∷ []

byte_text_injective : (i j : ℕ) → byte_text i ≡ byte_text j → i ≡ j
byte_text_injective i j e = cc

-- Two numbers fit, and the third takes the row of the first.
overwritten : still_there byte_text 2 (written byte_text 2 3) 0 ≡ false
unfolding still_there written write str_eq
overwritten = refl

still_there-written_example :
    (still_there byte_text 2 (written byte_text 2 3) 1 ≡ true) ↔ (3 ≤ 1 + 2)
still_there-written_example =
    still_there-written byte_text 2 (omega arith) 3 1 byte_text_injective (omega arith)

abbrev one_counted : (t : Feed) × Reach byte_text 2 1 1 t
one_counted = (
  _,
  next (next (next here (produce (omega arith))) (send (omega arith)))
      (handle 0 (omega arith) refl),
)

Reach-cnt_of_example : cnt_of (one_counted.0) ≤ 1 * 1
Reach-cnt_of_example = Reach-cnt_of byte_text 2 1 1 (one_counted.0) (one_counted.1)

-- Two consumers with the last number pending; the first is killed with the semaphore, then the second compares
-- its row.
abbrev last_pending : ℕ → Option ℕ
last_pending j = some 2

abbrev last_rows : Rows
last_rows = written byte_text 2 3

row_there : still_there byte_text 2 last_rows 2 ≡ true
unfolding still_there written write str_eq
row_there = refl

abbrev idle_both : ℕ → Place
idle_both j = idle (last_pending j)

abbrev killed_holding : ℕ → Place
unfolding kill
killed_holding = update 0 (kill holding) (update 0 holding (update 0 wanting idle_both))

abbrev first_killed :
    Run byte_text 2 last_rows 2
      (initial last_pending 0)
      (closing killed_holding false (killing 1) 0)
unfolding kill
first_killed =
    Closing.next
      (Closing.next (Closing.next Closing.here (compare_row 0 refl row_there)) (grab 0 refl))
      (strike (omega arith))

abbrev second_compares :
    (t : Closing) × Run byte_text 2 last_rows 2 (closing killed_holding false (killing 1) 0) t
unfolding kill
second_compares = (_, Closing.next Closing.here (compare_row 1 refl row_there))

Run-killing_example : is_killing (producer_of (second_compares.0)) ≡ true
unfolding kill
Run-killing_example =
    Run-killing byte_text 2 last_rows 2 last_pending 0 killed_holding false 1 0 0
      (second_compares.0) first_killed refl (second_compares.1)
