-- ===== src/Proc.antt =====
-- SP_HW/SP_HW4/12-1.c and 12-3.c: what the directories of /proc tell about the processes.
pub mod Status
pub mod Fields
pub mod Users
pub mod Opened
pub mod Openers
use sp_hw.Base.{ℕ, Bool, true, false, ◌&&◌, List, [], ◌∷◌, if◌then◌else◌, leb, Bytes}

-- `isdigit`
unfoldable pub is_digit : ℕ → Bool
is_digit c = leb 48 c && leb c 57

unfoldable pub is_numeric : Bytes → Bool
unfolding is_digit
is_numeric [] = true
is_numeric (c ∷ str) = let rest = is_numeric str in if is_digit c then rest else false

-- The entries that pass a test.
abbrev pub select {ℓ} : {A : Type ℓ} → (A → Bool) → List A → List A
select test [] = []
select test (x ∷ xs) = let rest = select test xs in if test x then x ∷ rest else rest
