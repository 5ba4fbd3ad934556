-- ===== src/Tests/Talking.antt =====
-- Lines typed to 44_1.c.
use sp_hw.Base.{◌≡◌, refl, ap, [], ◌∷◌, arith, length, Bytes, codes}
use sp_hw.Upper.{
  farewell, to_upper, upper_first, overwrite, is_farewell, after_tests, both_exit, at_input,
  converse,
}
use sp_hw.Upper.Lines.{IsTalk, converse-map}

abbrev hello : Bytes
hello = codes "hi\n"

abbrev long_line : Bytes
long_line = codes "please do not stop\n"

-- The farewell as the first line ends both.
farewell_first : converse (codes "") (codes "") [] (farewell ∷ []) ≡ both_exit []
unfolding converse overwrite is_farewell after_tests upper_first
farewell_first = refl

hello-IsTalk : IsTalk hello
hello-IsTalk = (ground arith, λ e. absurd (omega (arith, ap length e)))

converse-map_example :
    converse long_line [] [] (hello ∷ hello ∷ []) ≡ at_input (codes "HI\n" ∷ codes "HI\n" ∷ [])
unfolding to_upper
converse-map_example =
    converse-map long_line [] [] (hello ∷ hello ∷ []) (hello-IsTalk, (hello-IsTalk, tt))
