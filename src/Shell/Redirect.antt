-- ===== src/Shell/Redirect.antt =====
-- redirect_in.c, redirect_out.c and is_background.c of SP_HW/SP_HW5/part2. A vector has a slot for
-- each pointer, `none` for NULL: the functions read it up to the first NULL, and cut it by writing one.
pub mod Order
use sp_hw.Base.{
  ℕ, zero, suc, ◌+◌, Bool, true, false, List, [], ◌∷◌, Option, none, some, if◌then◌else◌, ◌==◌,
  length, get_elem?, set, Bytes, codes, str_eq,
}

abbrev pub Argv : Type 0
Argv = List (Option Bytes)

-- The strings up to the first NULL.
unfoldable pub args : Argv → List Bytes
args [] = []
args (none ∷ argv) = []
args (some s ∷ argv) = s ∷ args argv

-- `argv[i]`, where a slot behind the vector counts as NULL.
abbrev pub slot : Argv → ℕ → Option Bytes
slot [] i = none
slot (s ∷ argv) zero = s
slot (s ∷ argv) (suc i) = slot argv i

-- The loops that look for a symbol: its index, unless NULL comes first.
unfoldable pub index_of : Bytes → List Bytes → Option ℕ
index_of symbol [] = none
index_of symbol (s ∷ ss) =
    let rest = index_of symbol ss in
    if str_eq s symbol then some 0 else elim rest [ none ↦ none | some i ↦ some (suc i) ]

-- `is_background`: is there an `&` anywhere? The vector stays as it is.
unfoldable pub is_background : List Bytes → Bool
is_background [] = false
is_background (s ∷ ss) = let rest = is_background ss in if str_eq s (codes "&") then true else rest

-- What a redirection comes to: no symbol (-1), an exit, or the file and the vector that is left (0).
pub data Redirected : Type 0 where
  no_symbol : Redirected
  fails : Redirected
  redirects : Bytes → Argv → Redirected

-- With the symbol at `i`: `open(argv[i + 1])` fails for NULL, and `dup2` of a failed open ends the
-- program. Then argv[i] is cut off.
unfoldable pub input_at : (Bytes → Bool) → Argv → ℕ → Option Bytes → Redirected
input_at opens argv i none = fails
input_at opens argv i (some file) = if opens file then redirects file (set argv i none) else fails

abbrev input_from : (Bytes → Bool) → Argv → Option ℕ → Redirected
input_from opens argv none = no_symbol
input_from opens argv (some i) = input_at opens argv i (slot argv (suc i))

-- `redirect_in`; `opens` says which files `open` and `dup2` succeed on.
unfoldable pub redirect_in : (Bytes → Bool) → Argv → Redirected
unfolding input_at index_of args
redirect_in opens argv = input_from opens argv (index_of (codes "<") (args argv))

-- The same for `>`, where the file's name is cut off too.
unfoldable pub output_at : (Bytes → Bool) → Argv → ℕ → Option Bytes → Redirected
output_at opens argv i none = fails
output_at opens argv i (some file) =
    if opens file then redirects file (set (set argv (suc i) none) i none) else fails

abbrev output_from : (Bytes → Bool) → Argv → Option ℕ → Redirected
output_from opens argv none = no_symbol
output_from opens argv (some i) = output_at opens argv i (slot argv (suc i))

unfoldable pub redirect_out : (Bytes → Bool) → Argv → Redirected
unfolding output_at index_of args
redirect_out opens argv = output_from opens argv (index_of (codes ">") (args argv))

-- What the child of the shell has set up: the files behind stdin and stdout, and its vector.
pub data Prepared : Type 0 where
  gives_up : Prepared
  ready : Option Bytes → Option Bytes → Argv → Prepared

abbrev with_output : Option Bytes → Argv → Redirected → Prepared
with_output input argv no_symbol = ready input none argv
with_output input argv fails = gives_up
with_output input argv (redirects file argv') = ready input (some file) argv'

-- The calls of redirect_in and redirect_out in the child; their results are not looked at.
unfoldable pub after_input : (Bytes → Bool) → Argv → Redirected → Prepared
after_input writes argv no_symbol = with_output none argv (redirect_out writes argv)
after_input writes argv fails = gives_up
after_input writes argv (redirects file argv') =
    with_output (some file) argv' (redirect_out writes argv')

unfoldable pub prepare : (Bytes → Bool) → (Bytes → Bool) → Argv → Prepared
unfolding redirect_in redirect_out after_input
prepare reads writes argv = after_input writes argv (redirect_in reads argv)
