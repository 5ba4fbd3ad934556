-- ===== src/Shell/Pipe/Stages.antt =====
-- A pipeline written from its commands.
use sp_hw.Base.{
  ℕ, zero, suc, ◌+◌, ◌<◌, ◌≡◌, ◌≢◌, refl, ap, ◌∙◌, Bool, true, false, ◌&&◌, List, [], ◌∷◌, ◌++◌,
  some, leb, length, length-append, drop, take-append, All, append_assoc, Calls, Bytes, codes,
  arith,
}
use sp_hw.Shell.Redirect.Order.{Lacks, index_of-append, index_of-none}
use sp_hw.Shell.Pipe.{
  no_pipe, pipe_at, place, pipe_present, runs, Process, process, strings_fit, slots, copies_fit,
  pipe_and_exec,
}

abbrev pub bar : Bytes
bar = codes "|"

-- A command of a pipeline: some strings, none of them the bar.
abbrev pub IsCommand : List Bytes → Type 0
IsCommand c = (c ≢ []) × Lacks bar c

-- The first command and those behind the bars.
abbrev pub command_line : List Bytes → List (List Bytes) → List Bytes
command_line c [] = c
command_line c (d ∷ ds) = c ++ bar ∷ command_line d ds

-- Each command reads from the one in front and writes to the one behind.
abbrev pub connected : Bool → List Bytes → List (List Bytes) → List Process
connected input c [] = process input false (runs c) ∷ []
connected input c (d ∷ ds) = process input true (runs c) ∷ connected true d ds

pipe_present-last : (c : List Bytes) → IsCommand c → pipe_present c ≡ no_pipe
pipe_present-last c h =
    unfold pipe_present in ap (place c) (index_of-none bar c h.1) ∙ unfold place in refl

pub command_line-ne-nil :
    (c : List Bytes) (ds : List (List Bytes)) → IsCommand c → command_line c ds ≢ []
command_line-ne-nil c [] h = h.0
command_line-ne-nil [] (d ∷ ds) h = absurd (h.0 refl)
command_line-ne-nil (s ∷ c) (d ∷ ds) h = λ e. cc

length_pos : (xs : List Bytes) → xs ≢ [] → 0 < length xs
length_pos [] h = absurd (h refl)
length_pos (x ∷ xs) h = omega arith

pipe_present-middle :
    (c rest : List Bytes)
    → IsCommand c
    → rest ≢ []
    → pipe_present (c ++ bar ∷ rest) ≡ pipe_at (length c)
pipe_present-middle c rest h ne =
    unfold pipe_present in
    ap (place (c ++ bar ∷ rest)) (index_of-append bar c rest h.1)
    ∙ middle (length c) (length rest) (length_pos c h.0) (length_pos rest ne)
        (length-append c (bar ∷ rest))
  where
    middle :
        (m n : ℕ)
        → 0 < m
        → 0 < n
        → length (c ++ bar ∷ rest) ≡ m + suc n
        → place (c ++ bar ∷ rest) (some m) ≡ pipe_at m
    middle m n p q e = unfold place in rw e (ground arith)

strings_fit-append : (xs ys : List Bytes) → strings_fit (xs ++ ys) ≡ true → strings_fit ys ≡ true
unfolding strings_fit
strings_fit-append [] ys h = h
strings_fit-append (x ∷ xs) ys h = ground (arith, strings_fit-append xs ys)

copies_fit-rest :
    (c rest : List Bytes) → copies_fit (c ++ bar ∷ rest) ≡ true → copies_fit rest ≡ true
copies_fit-rest c rest h =
    let e = length-append c (bar ∷ rest) in
    unfold copies_fit in
    ground (arith, e, strings_fit-append (c ++ bar ∷ []) rest, append_assoc c (bar ∷ []) rest, h')
  where
    h' : (leb (length (c ++ bar ∷ rest)) slots && strings_fit (c ++ bar ∷ rest)) ≡ true
    h' = unfold copies_fit in h

drop_past :
    (c : List Bytes) (b : Bytes) (rest : List Bytes) → drop (suc (length c)) (c ++ b ∷ rest) ≡ rest
drop_past [] b rest = refl
drop_past (x ∷ c) b rest = drop_past c b rest

-- A pipeline of commands, with no more than 20 strings of less than 50 bytes each, and calls that
-- succeed: there is one process for each command, in order, with a pipe between neighbours, the first
-- one's stdin and the last one's stdout left as they were.
pub pipe_and_exec-connected :
    (c : List Bytes) (ds : List (List Bytes)) (fuel : ℕ) (io : Calls) (k : ℕ) (input : Bool)
    → IsCommand c
    → All IsCommand ds
    → copies_fit (command_line c ds) ≡ true
    → ((n : ℕ) → io n ≡ true)
    → length ds < fuel
    → pipe_and_exec fuel io k input (command_line c ds) ≡ connected input c ds
unfolding pipe_and_exec
pipe_and_exec-connected c ds zero io k input h hs fit ok lt = absurd (omega arith)
pipe_and_exec-connected c [] (suc fuel) io k input h hs fit ok lt =
    rw (pipe_and_exec, pipe_present-last c h)
pipe_and_exec-connected c (d ∷ ds) (suc fuel) io k input h hs fit ok lt =
    let rest = command_line d ds in
    rw
      (
        pipe_and_exec,
        pipe_present-middle c rest h (command_line-ne-nil d ds hs.0),
        fit,
        ok k,
        ok (k + 1),
        ok (k + 2),
        ok (k + 3),
      )
      (rw (take-append c (bar ∷ rest) (length c) refl, drop_past c bar rest)
        (ap (◌∷◌ (process input true (runs c))) (
          pipe_and_exec-connected d ds fuel io (k + 4) true hs.0 hs.1 (copies_fit-rest c rest fit)
            ok (omega arith))))
