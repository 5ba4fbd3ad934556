-- ===== src/Upper/Leftovers.antt =====
-- What a long line leaves in the buffers of 44_1.c.
use sp_hw.Base.{
  ℕ, zero, suc, ◌<◌, ◌≤◌, ◌≡◌, ◌≢◌, inl, inr, sym, ap, ◌∙◌, false, List, [], ◌∷◌, ◌++◌, map,
  append-nil, append_assoc, All, length, drop, Bytes, cstr, str_eq, str_eq_iff, Bool-cases, arith,
}
use sp_hw.Upper.{farewell, overwrite, is_farewell, to_upper, upper_first, at_input, converse}
use sp_hw.Upper.Lines.{IsLine, converse-line, not_nul}

-- The first n bytes are there, and none is a NUL.
abbrev IsFilled : ℕ → Bytes → Type 0
IsFilled zero buf = Unit
IsFilled (suc n) [] = ⊥
IsFilled (suc n) (c ∷ buf) = (c ≢ 0) × IsFilled n buf

IsFilled-cstr : (n : ℕ) (buf : Bytes) → IsFilled n buf → n ≤ length (cstr buf)
unfolding cstr
IsFilled-cstr zero buf h = omega arith
IsFilled-cstr (suc n) [] h = absurd h
IsFilled-cstr (suc n) (c ∷ buf) h = ground (arith, h.0, IsFilled-cstr n buf (h.1))

IsFilled-line :
    (n : ℕ) (line rest : Bytes)
    → All (λ c. c ≢ 0) line
    → n ≤ length line
    → IsFilled n (line ++ rest)
IsFilled-line zero line rest h l = tt
IsFilled-line (suc n) [] rest h l = absurd (omega arith)
IsFilled-line (suc n) (c ∷ line) rest h l = (h.0, IsFilled-line n line rest (h.1) (omega arith))

IsFilled-overwrite :
    (n : ℕ) (line buf : Bytes)
    → All (λ c. c ≢ 0) line
    → IsFilled n buf
    → IsFilled n (overwrite line buf)
unfolding overwrite
IsFilled-overwrite n [] buf h f = f
IsFilled-overwrite zero (c ∷ line) buf h f = tt
IsFilled-overwrite (suc n) (c ∷ line) [] h f = absurd f
IsFilled-overwrite (suc n) (c ∷ line) (b ∷ buf) h f =
    (h.0, IsFilled-overwrite n line buf (h.1) (f.1))

to_upper-ne-zero : (c : ℕ) → c ≢ 0 → to_upper c ≢ 0
unfolding to_upper
to_upper-ne-zero c h = ground arith

IsFilled-upper_first : (n k : ℕ) (buf : Bytes) → IsFilled n buf → IsFilled n (upper_first k buf)
unfolding upper_first
IsFilled-upper_first n zero buf f = f
IsFilled-upper_first zero (suc k) buf f = tt
IsFilled-upper_first (suc n) (suc k) [] f = absurd f
IsFilled-upper_first (suc n) (suc k) (b ∷ buf) f =
    (to_upper-ne-zero b (f.0), IsFilled-upper_first n k buf (f.1))

-- A buffer that is filled further than the farewell is long does not hold it.
is_farewell-IsFilled : (buf : Bytes) → IsFilled 15 buf → is_farewell buf ≡ false
unfolding is_farewell
is_farewell-IsFilled buf f = elim (Bool-cases (str_eq (cstr buf) farewell)) [
  | inl e ↦
      absurd
        (omega (arith, IsFilled-cstr 15 buf f, ap length ((str_eq_iff (cstr buf) farewell).0 e)))
  | inr e ↦ e
]

IsLine-no_nul : (line : Bytes) → IsLine line → All (λ c. c ≢ 0) line
IsLine-no_nul [] h = absurd h
IsLine-no_nul (c ∷ []) h = (not_nul c h, tt)
IsLine-no_nul (c ∷ d ∷ line) h = (h.0, IsLine-no_nul (d ∷ line) (h.2))

upper-no_nul : (line : Bytes) → All (λ c. c ≢ 0) line → All (λ c. c ≢ 0) (map to_upper line)
upper-no_nul [] h = tt
upper-no_nul (c ∷ line) h = (to_upper-ne-zero c (h.0), upper-no_nul line (h.1))

converse-IsFilled :
    (parent child : Bytes) (printed lines : List Bytes)
    → IsFilled 15 parent
    → IsFilled 15 child
    → All IsLine lines
    → converse parent child printed lines ≡ at_input (printed ++ map (map to_upper) lines)
unfolding converse
converse-IsFilled parent child printed [] f g h = ap at_input (sym (append-nil printed))
converse-IsFilled parent child printed (line ∷ lines) f g h =
    let clean = IsLine-no_nul line (h.0) in
    let sent = IsFilled-overwrite 15 line parent clean f in
    let got = IsFilled-overwrite 15 line child clean g in
    converse-line parent child line lines printed
      (is_farewell-IsFilled (overwrite line parent) sent)
      (is_farewell-IsFilled (overwrite line child) got)
    ∙ converse-IsFilled (overwrite (map to_upper line) (overwrite line parent))
        (upper_first (length line) (overwrite line child)) (printed ++ map to_upper line ∷ []) lines
        (IsFilled-overwrite 15 (map to_upper line) (overwrite line parent) (upper-no_nul line clean)
          sent)
        (IsFilled-upper_first 15 (length line) (overwrite line child) got) (h.1)
    ∙ ap at_input (append_assoc printed (map to_upper line ∷ []) (map (map to_upper) lines))

-- Behind a line longer than the farewell no line ends the two programs, the farewell itself included:
-- every line is printed in upper case, and the parent waits for more.
pub converse-long :
    (parent child line : Bytes) (lines : List Bytes)
    → IsLine line
    → length farewell < length line
    → All IsLine lines
    → converse parent child [] (line ∷ lines) ≡ at_input (map (map to_upper) (line ∷ lines))
unfolding overwrite
converse-long parent child line lines h l k =
    let clean = IsLine-no_nul line h in
    let sent = IsFilled-line 15 line (drop (length line) parent) clean l in
    let got = IsFilled-line 15 line (drop (length line) child) clean l in
    converse-line parent child line lines [] (is_farewell-IsFilled (overwrite line parent) sent)
      (is_farewell-IsFilled (overwrite line child) got)
    ∙ converse-IsFilled (overwrite (map to_upper line) (overwrite line parent))
        (upper_first (length line) (overwrite line child)) (map to_upper line ∷ []) lines
        (IsFilled-overwrite 15 (map to_upper line) (overwrite line parent) (upper-no_nul line clean)
          sent)
        (IsFilled-upper_first 15 (length line) (overwrite line child) got) k
