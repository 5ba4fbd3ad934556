-- ===== src/Shell/Builtin/Echo.antt =====
-- The command `echo` of the two shells.
use sp_hw.Base.{
  ℕ, zero, suc, ◌+◌, ◌<◌, ◌≡◌, false, List, [], ◌∷◌, ◌++◌, some, if◌then◌else◌, ltb, ◌==◌, length,
  get_elem?, Bytes, codes, str_eq, arith, ℤ, pos,
}
use sp_hw.Shell.Builtin.{prints, complains, no_string, print_arg, do_bi_echo, do_bi_echo_hw3}

get_elem?-lt :
    (xs : List Bytes) (i : ℕ) (s : Bytes)
    → get_elem? xs i ≡ some s
    → ltb (length xs) (suc i) ≡ false
get_elem?-lt [] i s h = cc
get_elem?-lt (x ∷ xs) zero s h = ground arith
get_elem?-lt (x ∷ xs) (suc i) s h = ground (arith, get_elem?-lt xs i s h)

print_arg-some :
    (argv : List Bytes) (i : ℕ) (s : Bytes)
    → get_elem? argv i ≡ some s
    → print_arg argv i ≡ prints (s ++ codes "\n")
unfolding print_arg
print_arg-some argv i s h = ground arith

sucs : (n : ℕ) → suc n + 2 ≡ suc (suc (suc n))
sucs n = omega arith

abbrev pub dash_n : Bytes
dash_n = codes "-n"

module _ (atoi : Bytes → ℤ) (name number : Bytes) (strings : List Bytes) (n : ℕ)
    (value : atoi number ≡ pos (suc n)) where
  -- `echo -n N` of SP_HW5 prints the N-th string, counted from 1, where there is one.
  pub do_bi_echo-nth :
      (s : Bytes)
      → get_elem? strings n ≡ some s
      → do_bi_echo atoi (name ∷ dash_n ∷ number ∷ strings) ≡ prints (s ++ codes "\n")
  unfolding do_bi_echo str_eq
  do_bi_echo-nth s here = rw value (
      rw (get_elem?-lt strings n s here) (
        rw (sucs n) (print_arg-some (name ∷ dash_n ∷ number ∷ strings) (suc (suc (suc n))) s here)))

  -- That of SP_HW3 does so for all strings but the last: that one it says does not exist.
  pub do_bi_echo_hw3-last :
      n < length strings
      → do_bi_echo_hw3 atoi (name ∷ dash_n ∷ number ∷ strings) ≡ (
          if suc n == length strings
          then complains no_string
          else do_bi_echo atoi (name ∷ dash_n ∷ number ∷ strings))
  unfolding do_bi_echo do_bi_echo_hw3 str_eq
  do_bi_echo_hw3-last lt = rw value (ground arith)
