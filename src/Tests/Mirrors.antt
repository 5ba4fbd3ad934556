-- ===== src/Tests/Mirrors.antt =====
-- A file of two bytes copied over a longer one.
use sp_hw.Base.{true, false, none, if◌then◌else◌, ◌==◌, List, [], ◌∷◌, Bytes, Calls, codes}
use sp_hw.Mirror.{mirror_main}
use sp_hw.Mirror.Whole.{IsEnd, mirror_main-IsEnd}

abbrev no_failure : Calls
no_failure k = true

-- The second mapping fails.
abbrev no_target : Calls
no_target k = if k == 6 then false else true

abbrev paths : List Bytes
paths = codes "49_1" ∷ codes "a" ∷ codes "b" ∷ []

mirror_main-IsEnd_example : IsEnd (codes "ab") none (mirror_main no_target paths (codes "ab") none)
mirror_main-IsEnd_example = mirror_main-IsEnd no_target (codes "ab") none paths
