-- ===== src/Upper/Lines.antt =====
-- Lines that 44_1.c sends back.
use sp_hw.Base.{
  ℕ, suc, ◌≡◌, ◌≢◌, inl, inr, refl, sym, ap, ap₂, ◌∙◌, subst, false, List, [], ◌∷◌, ◌++◌, map,
  append-nil, append_assoc, All, length, take, drop, Bytes, cstr, str_eq, str_eq_iff, Bool-cases,
  arith,
}
use sp_hw.Upper.{
  farewell, overwrite, is_farewell, to_upper, upper_first, at_input, after_tests, converse,
}

-- A line as `read` brings it from a terminal: no NUL, and a newline at its end only.
abbrev pub IsLine : Bytes → Type 0
IsLine [] = ⊥
IsLine (c ∷ []) = c ≡ b'\n'
IsLine (c ∷ d ∷ line) = (c ≢ 0) × (c ≢ b'\n') × IsLine (d ∷ line)

cstr-cons : (c : ℕ) (s : Bytes) → c ≢ 0 → cstr (c ∷ s) ≡ c ∷ cstr s
unfolding cstr
cstr-cons c s h = ground arith

pub not_nul : (c : ℕ) → c ≡ b'\n' → c ≢ 0
not_nul c h e = cc (h, e)

same_head : {x y : ℕ} {xs ys : Bytes} → x ∷ xs ≡ y ∷ ys → x ≡ y
same_head e = cc

same_tail : {x y : ℕ} {xs ys : Bytes} → x ∷ xs ≡ y ∷ ys → xs ≡ ys
same_tail e = cc

-- The two lines are the same up to the first newline.
line_unique :
    (line other rest : Bytes)
    → IsLine line
    → IsLine other
    → cstr (line ++ rest) ≡ other
    → line ≡ other
line_unique [] other rest h k e = absurd h
line_unique (c ∷ []) [] rest h k e = absurd k
line_unique (c ∷ []) (x ∷ []) rest h k e = ap (λ z. z ∷ []) (h ∙ sym k)
line_unique (c ∷ []) (x ∷ y ∷ other) rest h k e =
    absurd (k.1 (sym (same_head (sym (cstr-cons c rest (not_nul c h)) ∙ e)) ∙ h))
line_unique (c ∷ d ∷ line) [] rest h k e = absurd k
line_unique (c ∷ d ∷ line) (x ∷ []) rest h k e =
    absurd (h.1 (same_head (sym (cstr-cons c (d ∷ line ++ rest) (h.0)) ∙ e) ∙ k))
line_unique (c ∷ d ∷ line) (x ∷ y ∷ other) rest h k e =
    let f = sym (cstr-cons c (d ∷ line ++ rest) (h.0)) ∙ e in
    ap₂ (λ u v. u ∷ v) (same_head f)
      (line_unique (d ∷ line) (y ∷ other) rest (h.2) (k.2) (same_tail f))

take-append : (xs ys : Bytes) → take (length xs) (xs ++ ys) ≡ xs
take-append [] ys = refl
take-append (x ∷ xs) ys = ap (λ z. x ∷ z) (take-append xs ys)

drop-append : (xs ys : Bytes) → drop (length xs) (xs ++ ys) ≡ ys
drop-append [] ys = refl
drop-append (x ∷ xs) ys = drop-append xs ys

length-map : (xs : Bytes) → length (map to_upper xs) ≡ length xs
length-map [] = refl
length-map (x ∷ xs) = ap suc (length-map xs)

-- The reply of the child is the line in upper case.
pub reply-map :
    (line buf : Bytes)
    → take (length line) (upper_first (length line) (overwrite line buf)) ≡ map to_upper line
unfolding upper_first overwrite
reply-map line buf = rw (take-append line (drop (length line) buf)) (
    subst
      (λ n.
        take n (map to_upper line ++ drop (length line) (line ++ drop (length line) buf))
        ≡ map to_upper line)
      (length-map line) (take-append (map to_upper line) _))

farewell-IsLine : IsLine farewell
farewell-IsLine = ground arith

-- No other line is taken for the farewell, whatever the buffer held.
pub is_farewell-overwrite :
    (line buf : Bytes) → IsLine line → line ≢ farewell → is_farewell (overwrite line buf) ≡ false
unfolding is_farewell overwrite
is_farewell-overwrite line buf h n =
    elim (Bool-cases (str_eq (cstr (line ++ drop (length line) buf)) farewell)) [
      | inl e ↦ absurd (
          n (
            line_unique line farewell (drop (length line) buf) h farewell-IsLine
              ((str_eq_iff _ farewell).0 e)))
      | inr e ↦ e
    ]

-- One line that neither side takes for the farewell.
pub converse-line :
    (parent child line : Bytes) (lines printed : List Bytes)
    → is_farewell (overwrite line parent) ≡ false
    → is_farewell (overwrite line child) ≡ false
    → converse parent child printed (line ∷ lines)
      ≡ converse
          (overwrite (map to_upper line) (overwrite line parent))
          (upper_first (length line) (overwrite line child))
          (printed ++ map to_upper line ∷ [])
          lines
unfolding converse after_tests
converse-line parent child line lines printed p c =
    rw (p, c)
      (ap
        (λ r.
          converse (overwrite r (overwrite line parent))
            (upper_first (length line) (overwrite line child)) (printed ++ r ∷ []) lines)
        (reply-map line child))

-- The lines of an input, none of which is the farewell.
abbrev pub IsTalk : Bytes → Type 0
IsTalk line = IsLine line × (line ≢ farewell)

-- Whatever the two buffers held, lines other than the farewell are printed in upper case, one by one, and
-- the parent waits for more.
pub converse-map :
    (parent child : Bytes) (printed lines : List Bytes)
    → All IsTalk lines
    → converse parent child printed lines ≡ at_input (printed ++ map (map to_upper) lines)
unfolding converse
converse-map parent child printed [] h = ap at_input (sym (append-nil printed))
converse-map parent child printed (line ∷ lines) h =
    converse-line parent child line lines printed
      (is_farewell-overwrite line parent (h.0.0) (h.0.1))
      (is_farewell-overwrite line child (h.0.0) (h.0.1))
    ∙ converse-map (overwrite (map to_upper line) (overwrite line parent))
        (upper_first (length line) (overwrite line child)) (printed ++ map to_upper line ∷ []) lines
        (h.1)
    ∙ ap at_input (append_assoc printed (map to_upper line ∷ []) (map (map to_upper) lines))
