-- ===== src/Shell/Redirect/Order.antt =====
-- Redirections in the order of the command line.
use sp_hw.Base.{
  suc, ◌≡◌, refl, sym, ap, ◌∙◌, Bool, true, false, List, [], ◌∷◌, ◌++◌, none, some, length, set,
  All, append_assoc, Bytes, codes, str_eq, str_eq_self,
}
use sp_hw.Shell.Redirect.{
  Argv, args, slot, index_of, no_symbol, redirects, input_at, output_at, redirect_in, redirect_out,
  after_input, with_output, ready, prepare,
}

-- The vector of a list of strings.
abbrev pub vector : List Bytes → Argv
vector [] = none ∷ []
vector (s ∷ ss) = some s ∷ vector ss

-- None of the strings is the symbol.
abbrev pub Lacks : Bytes → List Bytes → Type 0
Lacks symbol = All (λ s. str_eq s symbol ≡ false)

pub args-vector : (ss : List Bytes) → args (vector ss) ≡ ss
unfolding args
args-vector [] = refl
args-vector (s ∷ ss) = ap (◌∷◌ s) (args-vector ss)

pub index_of-append :
    (symbol : Bytes) (pre rest : List Bytes)
    → Lacks symbol pre
    → index_of symbol (pre ++ symbol ∷ rest) ≡ some (length pre)
unfolding index_of
index_of-append symbol [] rest h = rw (str_eq_self symbol)
index_of-append symbol (s ∷ pre) rest h = rw (h.0, index_of-append symbol pre rest h.1)

pub index_of-none : (symbol : Bytes) (ss : List Bytes) → Lacks symbol ss → index_of symbol ss ≡ none
unfolding index_of
index_of-none symbol [] h = refl
index_of-none symbol (s ∷ ss) h = rw (h.0, index_of-none symbol ss h.1)

slot-vector :
    (pre : List Bytes) (symbol file : Bytes) (rest : List Bytes)
    → slot (vector (pre ++ symbol ∷ file ∷ rest)) (suc (length pre)) ≡ some file
slot-vector [] symbol file rest = refl
slot-vector (p ∷ pre) symbol file rest = slot-vector pre symbol file rest

-- The slots behind a cut stay, but are not read.
args-set :
    (pre : List Bytes) (s : Bytes) (rest : List Bytes)
    → args (set (vector (pre ++ s ∷ rest)) (length pre) none) ≡ pre
unfolding args
args-set [] s rest = refl
args-set (p ∷ pre) s rest = ap (◌∷◌ p) (args-set pre s rest)

args-set-set :
    (pre : List Bytes) (s file : Bytes) (rest : List Bytes)
    → args (set (set (vector (pre ++ s ∷ file ∷ rest)) (suc (length pre)) none) (length pre) none)
      ≡ pre
unfolding args
args-set-set [] s file rest = refl
args-set-set (p ∷ pre) s file rest = ap (◌∷◌ p) (args-set-set pre s file rest)

module _ (pre : List Bytes) (file : Bytes) (rest : List Bytes) where
  redirect_in-at :
      (reads : Bytes → Bool)
      → Lacks (codes "<") pre
      → reads file ≡ true
      → redirect_in reads (vector (pre ++ codes "<" ∷ file ∷ rest))
        ≡ redirects file (set (vector (pre ++ codes "<" ∷ file ∷ rest)) (length pre) none)
  redirect_in-at reads lacks opens =
      unfold redirect_in in
      rw
        (
          args-vector (pre ++ codes "<" ∷ file ∷ rest),
          index_of-append (codes "<") pre (file ∷ rest) lacks,
        )
        (rw (slot-vector pre (codes "<") file rest) (unfold input_at in rw opens))

  redirect_out-at :
      (argv : Argv) (writes : Bytes → Bool)
      → Lacks (codes ">") pre
      → writes file ≡ true
      → args argv ≡ pre ++ codes ">" ∷ file ∷ rest
      → slot argv (suc (length pre)) ≡ some file
      → redirect_out writes argv
        ≡ redirects file (set (set argv (suc (length pre)) none) (length pre) none)
  redirect_out-at argv writes lacks opens seen here =
      unfold redirect_out in
      rw (seen, index_of-append (codes ">") pre (file ∷ rest) lacks)
        (rw here (unfold output_at in rw opens))

-- A vector with four strings behind `pre`, cut at the third of them.
module _ (a b c d : Bytes) (rest : List Bytes) where
  abbrev cut_at_third : List Bytes → Argv
  cut_at_third pre = set (vector (pre ++ a ∷ b ∷ c ∷ d ∷ rest)) (length (pre ++ a ∷ b ∷ [])) none

  slot-cut_at_third : (pre : List Bytes) → slot (cut_at_third pre) (suc (length pre)) ≡ some b
  slot-cut_at_third [] = refl
  slot-cut_at_third (p ∷ pre) = slot-cut_at_third pre

  args-cut_at_third : (pre : List Bytes) → args (cut_at_third pre) ≡ pre ++ a ∷ b ∷ []
  unfolding args
  args-cut_at_third [] = refl
  args-cut_at_third (p ∷ pre) = ap (◌∷◌ p) (args-cut_at_third pre)

  args-cut_twice :
      (pre : List Bytes)
      → args (set (set (cut_at_third pre) (suc (length pre)) none) (length pre) none) ≡ pre
  unfolding args
  args-cut_twice [] = refl
  args-cut_twice (p ∷ pre) = ap (◌∷◌ p) (args-cut_twice pre)

All-append :
    (symbol : Bytes) (xs ys : List Bytes)
    → Lacks symbol xs
    → Lacks symbol ys
    → Lacks symbol (xs ++ ys)
All-append symbol [] ys h k = k
All-append symbol (x ∷ xs) ys h k = (h.0, All-append symbol xs ys h.1 k)

out_ne_in : str_eq (codes ">") (codes "<") ≡ false
unfolding str_eq
out_ne_in = refl

redirect_out-none :
    (argv : Argv) (writes : Bytes → Bool)
    → Lacks (codes ">") (args argv)
    → redirect_out writes argv ≡ no_symbol
redirect_out-none argv writes lacks =
    unfold redirect_out in rw (index_of-none (codes ">") (args argv) lacks)

redirect_in-none :
    (argv : Argv) (reads : Bytes → Bool)
    → Lacks (codes "<") (args argv)
    → redirect_in reads argv ≡ no_symbol
redirect_in-none argv reads lacks =
    unfold redirect_in in rw (index_of-none (codes "<") (args argv) lacks)

-- Without redirections the vector stays.
pub prepare_plain :
    (ss : List Bytes) (reads writes : Bytes → Bool)
    → Lacks (codes "<") ss
    → Lacks (codes ">") ss
    → prepare reads writes (vector ss) ≡ ready none none (vector ss)
unfolding prepare after_input
prepare_plain ss reads writes lacks_in lacks_out =
    ap (after_input writes (vector ss))
      (redirect_in-none (vector ss) reads (rw args-vector lacks_in))
    ∙ ap (with_output none (vector ss))
        (redirect_out-none (vector ss) writes (rw args-vector lacks_out))

-- A command with `<` in front of all other redirections: input comes from the file, and what stands
-- behind the `<` is dropped from the vector, so that a `>` or a `|` there has no effect.
pub prepare_input_first :
    (pre : List Bytes) (file : Bytes) (rest : List Bytes) (reads writes : Bytes → Bool)
    → Lacks (codes "<") pre
    → Lacks (codes ">") pre
    → reads file ≡ true
    → (argv : Argv) × (prepare reads writes (vector (pre ++ codes "<" ∷ file ∷ rest))
        ≡ ready (some file) none argv)
      × (args argv ≡ pre)
prepare_input_first pre file rest reads writes lacks_in lacks_out opens =
    let argv : Argv = set (vector (pre ++ codes "<" ∷ file ∷ rest)) (length pre) none in
    let seen : args argv ≡ pre = args-set pre (codes "<") (file ∷ rest) in
    (
      argv,
      unfold prepare after_input in
          rw (redirect_in-at pre file rest reads lacks_in opens)
            (rw (redirect_out-none argv writes (rw seen lacks_out))),
      seen,
    )

-- A command with `>` in front of `<`: both redirections are made, and both are taken off the vector.
pub prepare_output_first :
    (pre : List Bytes) (out_file in_file : Bytes) (rest : List Bytes) (reads writes : Bytes → Bool)
    → Lacks (codes "<") pre
    → Lacks (codes ">") pre
    → str_eq out_file (codes "<") ≡ false
    → reads in_file ≡ true
    → writes out_file ≡ true
    → (argv : Argv) × (prepare reads writes
          (vector (pre ++ codes ">" ∷ out_file ∷ codes "<" ∷ in_file ∷ rest))
        ≡ ready (some in_file) (some out_file) argv)
      × (args argv ≡ pre)
unfolding prepare after_input
prepare_output_first pre out_file in_file rest reads writes lacks_in lacks_out plain opens creates =
    let gt = codes ">" in
    let lt = codes "<" in
    let front : List Bytes = pre ++ gt ∷ out_file ∷ [] in
    let regroup = append_assoc pre (gt ∷ out_file ∷ []) (lt ∷ in_file ∷ rest) in
    let argv : Argv = cut_at_third gt out_file lt in_file rest pre in
    let cut : set (vector (front ++ lt ∷ in_file ∷ rest)) (length front) none ≡ argv =
      ap (λ ss. set (vector ss) (length front) none) regroup in
    let input : redirect_in reads (vector (pre ++ gt ∷ out_file ∷ lt ∷ in_file ∷ rest))
        ≡ redirects in_file argv =
      ap (λ ss. redirect_in reads (vector ss)) (sym regroup)
      ∙ redirect_in-at front in_file rest reads
          (All-append lt pre (gt ∷ out_file ∷ []) lacks_in (out_ne_in, (plain, tt))) opens
      ∙ ap (redirects in_file) cut in
    let output =
      redirect_out-at pre out_file [] argv writes lacks_out creates
        (args-cut_at_third gt out_file lt in_file rest pre)
        (slot-cut_at_third gt out_file lt in_file rest pre) in
    (
      set (set argv (suc (length pre)) none) (length pre) none,
      ap (after_input writes _) input ∙ ap (with_output (some in_file) argv) output,
      args-cut_twice gt out_file lt in_file rest pre,
    )
