-- ===== src/Tests/Files.antt =====
-- Runs of tail.c and cp.c.
use sp_hw.Base.{arith, false, ℕ, ◌≡◌, refl, true, List, [], ◌∷◌, ◌++◌, Bytes, Calls, codes, pos}
use sp_hw.Tail.{tail}
use sp_hw.Tail.Result.{IsTail, tail-IsTail}
use sp_hw.Copy.{all_zeros, copy, cp_main}
use sp_hw.Copy.Holes.{Holds, empty_dest, copy-fills}

abbrev no_failure : Calls
no_failure k = true

abbrev three_lines : Bytes
three_lines = codes "a\nbc\nd\n"

tail_two :
    tail no_failure three_lines (pos 2)
    ≡ record { output = codes "bc\nd\n"; success = true; overflowed = false }
unfolding tail
tail_two = refl

-- Without a newline at the end of the file, one line too many is printed.
tail_unfinished :
    tail no_failure (codes "a\nb\nc") (pos 1)
    ≡ record { output = codes "b\nc"; success = true; overflowed = false }
unfolding tail
tail_unfinished = refl

tail-IsTail_example : IsTail 2 three_lines no_failure (tail no_failure three_lines (pos 2))
tail-IsTail_example = tail-IsTail no_failure three_lines 2 (omega arith)

abbrev data_then_zeros : List Bytes
data_then_zeros = codes "ab" ∷ (0 ∷ 0 ∷ []) ∷ []

cons_ne_nil : (x : ℕ) (xs : Bytes) → x ∷ xs ≡ [] → ⊥
cons_ne_nil x xs e = cc

short_copy :
    copy no_failure 2 data_then_zeros empty_dest
    ≡ (record { contents = codes "ab"; offset = 4 }, true)
unfolding copy all_zeros cp_main
short_copy = refl

copy-fills_example :
    Holds (codes "ab" ++ 0 ∷ 0 ∷ []) (copy no_failure 2 data_then_zeros empty_dest).0
copy-fills_example =
    copy-fills data_then_zeros no_failure 2
      (cons_ne_nil b'a' (b'b' ∷ []), (cons_ne_nil 0 (0 ∷ []), tt)) (unfold cp_main in refl)
