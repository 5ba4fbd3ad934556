-- ===== src/Tests/Transfers.antt =====
-- A whole run of 54_1 on one line.
use sp_hw.Base.{◌+◌, ◌≡◌, refl, false, List, [], ◌∷◌, All, Bytes, codes}
use sp_hw.Transfer.{
  State, state, done, left, filling, awaiting, Step, by_writer, by_reader, Reach, here, next,
  initial, wait_writer, fill, fill_end, post_reader, post_end, wait_last, wait_reader, print,
  read_empty, post_writer, post_last,
}
use sp_hw.Transfer.Turns.{NotEmpty}
use sp_hw.Transfer.Delivery.{
  IsStartOf, output_of, reader_of, reader_turn, Reach-exclusive, Reach-IsStartOf,
}
use sp_hw.Transfer.Progress.{IsComplete, rank, steps, Reach-IsComplete, steps-rank}

abbrev one_line : List Bytes
one_line = codes "a" ∷ []

one_line-NotEmpty : All NotEmpty one_line
one_line-NotEmpty = ((λ e. cc), tt)

abbrev his_turn : State
his_turn = state filling awaiting 0 0 [] one_line []

abbrev at_end : State
at_end = state done left 0 0 [] [] one_line

reach_turn : Reach (initial [] one_line) his_turn
reach_turn = next here (by_writer wait_writer)

abbrev whole_run : Reach (initial [] one_line) at_end
whole_run =
    next
      (next
        (next
          (next
            (next
              (next
                (next
                  (next
                    (next
                      (next
                        (next (next (next here (by_writer wait_writer)) (by_writer fill))
                          (by_writer post_reader))
                        (by_reader wait_reader))
                      (by_reader print))
                    (by_reader post_writer))
                  (by_writer wait_writer))
                (by_writer fill_end))
              (by_writer post_end))
            (by_reader wait_reader))
          (by_reader read_empty))
        (by_reader post_last))
      (by_writer wait_last)

stuck_at_end : (u : State) → Step at_end u → ⊥
stuck_at_end u (by_writer st) = elim st [ ]
stuck_at_end u (by_reader st) = elim st [ ]

Reach-exclusive_example : reader_turn (reader_of his_turn) ≡ false
Reach-exclusive_example = Reach-exclusive one_line [] his_turn one_line-NotEmpty reach_turn refl

Reach-IsStartOf_example : IsStartOf (output_of at_end) one_line
Reach-IsStartOf_example = Reach-IsStartOf one_line [] at_end one_line-NotEmpty whole_run

Reach-IsComplete_example : IsComplete one_line at_end
Reach-IsComplete_example =
    Reach-IsComplete one_line [] at_end one_line-NotEmpty whole_run stuck_at_end

steps-rank_example : steps whole_run + rank at_end ≡ 13
steps-rank_example = steps-rank one_line [] one_line-NotEmpty whole_run
