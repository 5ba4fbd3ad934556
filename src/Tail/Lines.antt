-- ===== src/Tail/Lines.antt =====
-- Newlines counted from the front, and what one block of the backward scan of tail.c finds.
use native.Mathlib.Nat.{zero-add, suc-add}
use sp_hw.Base.{
  ℕ, zero, suc, ◌+◌, ◌≤◌, ◌<◌, ◌≡◌, refl, sym, ap, ◌∙◌, [], ◌∷◌, ◌++◌, Option, none, some,
  if◌then◌else◌, ◌==◌, length, get_or, take, drop, take-append-drop, take_nil, Bytes, pos, arith,
}
use sp_hw.Tail.{reached, scan}

unfoldable pub newlines : Bytes → ℕ
newlines [] = 0
newlines (b ∷ bs) = (if b == b'\n' then 1 else 0) + newlines bs

pub newlines-append : (a b : Bytes) → newlines (a ++ b) ≡ newlines a + newlines b
unfolding newlines
newlines-append [] b = omega arith
newlines-append (x ∷ a) b = omega (arith, newlines-append a b)

pub newlines-take-drop :
    (n : ℕ) (bs : Bytes) → newlines bs ≡ newlines (take n bs) + newlines (drop n bs)
newlines-take-drop n bs =
    ap newlines (sym (take-append-drop n bs)) ∙ newlines-append (take n bs) (drop n bs)

pub newlines-take-suc :
    (i : ℕ) (bs : Bytes)
    → i < length bs
    → newlines (take (suc i) bs) ≡ newlines (take i bs) + (if get_or bs i 0 == b'\n' then 1 else 0)
unfolding newlines
newlines-take-suc i [] h = elim h [ ]
newlines-take-suc zero (b ∷ bs) h = omega arith
newlines-take-suc (suc i) (b ∷ bs) h = omega (arith, newlines-take-suc i bs)

pub newlines-take-block :
    (a size i : ℕ) (bs : Bytes)
    → i ≤ size
    → newlines (take (a + i) bs) ≡ newlines (take a bs) + newlines (take i (take size (drop a bs)))
unfolding newlines
newlines-take-block zero zero zero bs h = refl
newlines-take-block zero (suc size) zero bs h = refl
newlines-take-block zero zero (suc i) bs h = absurd (omega arith)
newlines-take-block zero (suc size) (suc i) [] h = rw zero-add
newlines-take-block zero (suc size) (suc i) (b ∷ bs) h =
    rw zero-add (omega (arith, rw zero-add at (newlines-take-block zero size i bs (omega arith))))
newlines-take-block (suc a) size i [] h = rw (take_nil (suc a + i), take_nil size, take_nil i)
newlines-take-block (suc a) size i (b ∷ bs) h =
    rw suc-add (omega (arith, newlines-take-block a size i bs h))

-- From a count that is not past `m`, a scan of the first `n` bytes counts all of their newlines, or
-- breaks at the newline that makes the count m + 1.
abbrev pub Scanned : ℕ → Bytes → ℕ → ℕ → ℕ × Option ℕ → Type 0
Scanned n buf m count (count', none) = (count' ≡ count + newlines (take n buf)) × (count' ≤ m)
Scanned n buf m count (count', some i) =
    (i < n)
    × (get_or buf i 0 ≡ b'\n')
    × (count + newlines (take n buf) ≡ m + 1 + newlines (take i buf))
    × (count' ≡ m + 1)

pub scan-Scanned :
    (n : ℕ) (buf : Bytes) (m count : ℕ)
    → n ≤ length buf
    → count ≤ m
    → Scanned n buf m count (scan n buf (pos m) count)
unfolding scan reached newlines
scan-Scanned zero buf m count h le = (omega arith, le)
scan-Scanned (suc i) buf m count h le = ground (
  arith,
  newlines-take-suc i buf,
  scan-Scanned i buf m (if get_or buf i 0 == b'\n' then count + 1 else count),
)
