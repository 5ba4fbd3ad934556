-- ===== src/Tests/Pouring.antt =====
-- Two blocks through tee and mycat, with a write that fails.
use sp_hw.Base.{◌≡◌, ◌≢◌, refl, true, some, ◌==◌, [], ◌∷◌, Calls, codes}
use sp_hw.Pour.{Input, Disk, tee_main, target, usage}
use sp_hw.Pour.Outputs.{tee_main-passed}

abbrev two_blocks : Input
two_blocks = record { blocks = codes "ab" ∷ codes "cd" ∷ []; ends = true }

abbrev log_disk : Disk
log_disk = record { contents = λ path. codes "old"; opens = λ path. true }

-- Every write but the one of the second block.
abbrev first_only : Calls
first_only k = k == 0

abbrev all_calls : Calls
all_calls k = true

no_arguments : target (codes "tee" ∷ []) ≡ usage
unfolding target
no_arguments = refl

tee_main-passed_example :
    (tee_main first_only all_calls log_disk two_blocks (codes "tee" ∷ codes "-a" ∷ codes "log" ∷ [])
      ≡ some record { file = codes "oldab"; stdout = codes "abcd"; success = true })
    × (codes "log" ≢ codes "-a"
        → codes "log" ≢ codes "--help"
        → tee_main first_only all_calls log_disk two_blocks (codes "tee" ∷ codes "log" ∷ [])
          ≡ some record { file = codes "ab"; stdout = codes "abcd"; success = true })
tee_main-passed_example =
    tee_main-passed first_only all_calls log_disk two_blocks (codes "tee") (codes "log") refl
