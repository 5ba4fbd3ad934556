-- ===== src/Shell/Builtin/Table.antt =====
-- The commands that `bi_builtin` calls built in, and those that the shells run as such.
use sp_hw.Base.{◌≡◌, refl, List, [], ◌∷◌, ◌++◌, none, some, Bytes, codes, str_eq, arith}
use sp_hw.Shell.Builtin.{prints, find_entry, is_builtin, scan_table, do_bi_builtin}

str_eq_comm : (a b : Bytes) → str_eq a b ≡ str_eq b a
unfolding str_eq
str_eq_comm [] [] = refl
str_eq_comm [] (y ∷ b) = refl
str_eq_comm (x ∷ a) [] = refl
str_eq_comm (x ∷ a) (y ∷ b) = ground (arith, str_eq_comm a b)

-- The command `builtin` says of a name that it is built in exactly if the shell runs it itself: the
-- ten rounds of its loop are the entries of the table.
pub do_bi_builtin-is_builtin :
    (cmd name : Bytes) (rest : List Bytes)
    → do_bi_builtin (cmd ∷ name ∷ rest)
      ≡ prints (
          name ++ (elim (is_builtin name) [
            | none ↦ codes " is NOT a builtin feature.\n"
            | some b ↦ codes " is a builtin feature.\n"
          ]))
unfolding do_bi_builtin scan_table is_builtin find_entry
do_bi_builtin-is_builtin cmd name rest = ground (
  arith,
  str_eq_comm name (codes "builtin"),
  str_eq_comm name (codes "echo"),
  str_eq_comm name (codes "quit"),
  str_eq_comm name (codes "exit"),
  str_eq_comm name (codes "bye"),
  str_eq_comm name (codes "logout"),
  str_eq_comm name (codes "cd"),
  str_eq_comm name (codes "pwd"),
  str_eq_comm name (codes "id"),
  str_eq_comm name (codes "hostname"),
)
