-- ===== src/Remote/Commands.antt =====
-- The commands of myrpc.c.
use sp_hw.Base.{
  ℕ, zero, suc, ◌+◌, ◌-◌, ◌<◌, ◌≡◌, ◌≢◌, refl, ap, ap₂, ◌∙◌, true, List, [], ◌∷◌, ◌++◌, length,
  length-append, take-append, drop, replicate, map, All, ltb-true, cstr-padded, Bytes, codes, arith,
}
use sp_hw.Tokens.{tokens}
use sp_hw.Tokens.Words.{line_of, IsWord, IsPiece, tokens-last}
use sp_hw.Remote.{executes, is_space, buf_size, words_fit, copied, on_string, child, commander}

-- A command: its words but the last with their gaps, and the last.
pub record Command : Type 0 where
  pub pieces : List (Bytes × Bytes)
  pub last : Bytes

abbrev pub text_of : Command → Bytes
text_of c = line_of c.pieces ++ c.last

abbrev pub typed_line : Command → Bytes
typed_line c = text_of c ++ codes "\n"

abbrev pub words_of : Command → List Bytes
words_of c = map (λ (w, gap). w) c.pieces ++ c.last ∷ []

-- A command that the arrays can take.
pub record IsCommand (c : Command) : Type 0 where
  pub pieces_are : All (IsPiece is_space) c.pieces
  pub last_is : IsWord is_space c.last
  pub no_nul : All (λ b. b ≢ 0) (typed_line c)
  pub short : length (typed_line c) < buf_size
  pub fit : words_fit (words_of c) ≡ true

abbrev pub zeros : Bytes
zeros = replicate buf_size 0

drop-replicate : (n m k : ℕ) → m ≡ n + k → drop {A = ℕ} n (replicate m 0) ≡ replicate k 0
drop-replicate zero m k e = ap (λ i. replicate i 0) (omega (arith, e))
drop-replicate (suc n) zero k e = absurd (omega (arith, e))
drop-replicate (suc n) (suc m) k e = drop-replicate n m k (omega (arith, e))

on_string_lem :
    (t : Bytes) (d : ℕ) → on_string (t ++ d ∷ []) ≡ copied (tokens is_space (suc (length t)) t)
unfolding on_string
on_string_lem [] d = refl
on_string_lem (x ∷ t) d =
    ap (λ s. copied (tokens is_space (suc (length s)) s))
      (take-append (x ∷ t) (d ∷ []) (length (t ++ d ∷ []))
        (omega (arith, length-append t (d ∷ []))))

copied-fit : (words : List Bytes) → words_fit words ≡ true → copied words ≡ executes words
copied-fit words h = rw h refl

on_string-typed_line :
    (c : Command) → IsCommand c → on_string (typed_line c) ≡ executes (words_of c)
on_string-typed_line c h =
    on_string_lem (text_of c) b'\n'
    ∙ ap copied (
        tokens-last is_space c.pieces c.last (suc (length (text_of c))) h.pieces_are h.last_is
          (omega arith))
    ∙ copied-fit (words_of c) h.fit

-- A string with a NUL behind it.
child-on_string :
    (before sent : Bytes) (k : ℕ)
    → drop (length sent) before ≡ replicate (suc k) 0
    → All (λ b. b ≢ 0) sent
    → child before sent ≡ on_string sent
unfolding child
child-on_string before sent k e h =
    rw
      (
        e,
        cstr-padded sent (suc k) h,
        ltb-true (length sent) (length (sent ++ 0 ∷ replicate k 0))
            (omega (arith, length-append sent (0 ∷ replicate k 0))),
      )
      refl

pub child-typed_line :
    (c : Command) → IsCommand c → child zeros (typed_line c) ≡ executes (words_of c)
child-typed_line c h =
    let n = length (typed_line c) in
    child-on_string zeros (typed_line c) (buf_size - suc n)
      (drop-replicate n buf_size (suc (buf_size - suc n)) (omega (arith, h.short))) h.no_nul
    ∙ on_string-typed_line c h

-- What `theCmd` holds in the end.
abbrev pub last_cmd : Bytes → List Bytes → Bytes
last_cmd cmd [] = cmd
last_cmd cmd (typed ∷ lines) = last_cmd typed lines

commander-lines :
    (before : Bytes) (free k : ℕ) (cmd : Bytes) (lines : List Bytes)
    → free ≡ suc (length lines + k)
    → commander before free cmd lines
      ≡ map (child before) lines ++ replicate k (child before (last_cmd cmd lines))
unfolding commander
commander-lines before zero k cmd lines e = absurd (omega (arith, e))
commander-lines before (suc zero) zero cmd [] e = refl
commander-lines before (suc zero) (suc k) cmd [] e = absurd (omega (arith, e))
commander-lines before (suc zero) k cmd (l ∷ lines) e = absurd (omega (arith, e))
commander-lines before (suc (suc free)) zero cmd [] e = absurd (omega (arith, e))
commander-lines before (suc (suc free)) (suc k) cmd [] e =
    ap (◌∷◌ (child before cmd)) (commander-lines before (suc free) k cmd [] (omega (arith, e)))
commander-lines before (suc (suc free)) k cmd (l ∷ lines) e =
    ap (◌∷◌ (child before l)) (commander-lines before (suc free) k l lines (omega (arith, e)))

map-child :
    (cs : List Command)
    → All IsCommand cs
    → map (child zeros) (map typed_line cs) ≡ map (λ c. executes (words_of c)) cs
map-child [] h = refl
map-child (c ∷ cs) h = ap₂ ◌∷◌ (child-typed_line c (h.0)) (map-child cs (h.1))

-- The command in front of the end of the input.
abbrev pub last_of : Command → List Command → Command
last_of c [] = c
last_of c (d ∷ cs) = last_of d cs

last_cmd-last_of :
    (cmd : Bytes) (c : Command) (cs : List Command)
    → last_cmd cmd (map typed_line (c ∷ cs)) ≡ typed_line (last_of c cs)
last_cmd-last_of cmd c [] = refl
last_cmd-last_of cmd c (d ∷ cs) = last_cmd-last_of (typed_line c) d cs

last_of-IsCommand :
    (c : Command) (cs : List Command) → All IsCommand (c ∷ cs) → IsCommand (last_of c cs)
last_of-IsCommand c [] h = h.0
last_of-IsCommand c (d ∷ cs) h = last_of-IsCommand d cs h.1

length-map : (cs : List Command) → length (map typed_line cs) ≡ length cs
length-map [] = refl
length-map (c ∷ cs) = omega (arith, length-map cs)

-- The commands that are typed are executed in their order, each with its words, if they fit the arrays, the
-- child's array holds zeros before the `read`, and the descriptors last for them. Behind the end of the
-- input the last command is executed again and again, until one command fewer than there were free
-- descriptors has been executed, and `pipe` fails.
pub commander-repeats :
    (k : ℕ) (cmd : Bytes) (c : Command) (cs : List Command)
    → All IsCommand (c ∷ cs)
    → commander zeros (suc (length (c ∷ cs) + k)) cmd (map typed_line (c ∷ cs))
      ≡ map (λ d. executes (words_of d)) (c ∷ cs)
        ++ replicate k (executes (words_of (last_of c cs)))
commander-repeats k cmd c cs h =
    commander-lines zeros (suc (length (c ∷ cs) + k)) k cmd (map typed_line (c ∷ cs))
      (omega (arith, length-map (c ∷ cs)))
    ∙ ap₂ ◌++◌ (map-child (c ∷ cs) h) (
        ap (replicate k) (
          ap (child zeros) (last_cmd-last_of cmd c cs)
          ∙ child-typed_line (last_of c cs) (last_of-IsCommand c cs h)))
