-- ===== src/Tickets/Retries.antt =====
-- The retries of the loop around `open` in 44-6.
use sp_hw.Base.{
  some-inj, ℕ, zero, suc, ◌+◌, ◌≤◌, ◌<◌, ◌≡◌, ◌↔◌, ◌⊎◌, inl, inr, refl, sym, ap, ◌∙◌, Option, some,
  none, arith,
}
use sp_hw.Tickets.{Opening, opened, not_ready, failed, max_retries, try_open, open_client}

-- The FIFO opens at the k-th try, counted from 0, and the tries from `from` to there fail with ENXIO.
pub record OpensAt (opens : ℕ → Opening) (from k : ℕ) : Type 0 where
  pub before : (j : ℕ) → from ≤ j → j < k → opens j ≡ not_ready
  pub at : opens k ≡ opened

Opening-cases : (o : Opening) → (o ≡ opened) ⊎ ((o ≡ not_ready) ⊎ (o ≡ failed))
Opening-cases opened = inl refl
Opening-cases not_ready = inr (inl refl)
Opening-cases failed = inr (inr refl)

same_or_later : (from k : ℕ) → from ≤ k → (from ≡ k) ⊎ (suc from ≤ k)
same_or_later from k h = ground arith

try_open-opened :
    (opens : ℕ → Opening) (from left : ℕ)
    → opens from ≡ opened
    → try_open opens from left ≡ some from
unfolding try_open
try_open-opened opens from zero e = rw (try_open, e) refl
try_open-opened opens from (suc left) e = rw (try_open, e) refl

try_open-failed :
    (opens : ℕ → Opening) (from left : ℕ) → opens from ≡ failed → try_open opens from left ≡ none
unfolding try_open
try_open-failed opens from zero e = rw (try_open, e) refl
try_open-failed opens from (suc left) e = rw (try_open, e) refl

try_open-gives_up :
    (opens : ℕ → Opening) (from : ℕ) → opens from ≡ not_ready → try_open opens from 0 ≡ none
unfolding try_open
try_open-gives_up opens from e = rw (try_open, e) refl

try_open-retries :
    (opens : ℕ → Opening) (from left : ℕ)
    → opens from ≡ not_ready
    → try_open opens from (suc left) ≡ try_open opens (suc from) left
unfolding try_open
try_open-retries opens from left e = rw (try_open, e) refl

none_not_some : {o : Option ℕ} {k : ℕ} → o ≡ none → o ≡ some k → ⊥
none_not_some e f = cc

try_open-finds :
    (opens : ℕ → Opening) (from k left : ℕ)
    → OpensAt opens from k
    → from ≤ k
    → k ≤ from + left
    → try_open opens from left ≡ some k
try_open-finds opens from k zero h l b =
    let e : from ≡ k = omega arith in try_open-opened opens from 0 (ap opens e ∙ h.at) ∙ ap some e
try_open-finds opens from k (suc left) h l b = elim (same_or_later from k l) [
  | inl e ↦ try_open-opened opens from (suc left) (ap opens e ∙ h.at) ∙ ap some e
  | inr s ↦
      try_open-retries opens from left (h.before from (omega arith) (omega arith))
      ∙ try_open-finds opens (suc from) k left
          (record { before = λ j a c. h.before j (omega arith) c; at = h.at }) s (omega arith)
]

opens_now :
    (opens : ℕ → Opening) (from k left : ℕ)
    → opens from ≡ opened
    → some from ≡ some k
    → OpensAt opens from k × (from ≤ k) × (k ≤ from + left)
opens_now opens from k left o e =
    let s = some-inj e in
    (
      record { before = λ j a c. absurd (omega (arith, s)); at = ap opens (sym s) ∙ o },
      omega arith,
      omega arith,
    )

try_open-OpensAt :
    (opens : ℕ → Opening) (from k left : ℕ)
    → try_open opens from left ≡ some k
    → OpensAt opens from k × (from ≤ k) × (k ≤ from + left)
try_open-OpensAt opens from k zero e = elim (Opening-cases (opens from)) [
  | inl o ↦ opens_now opens from k zero o (sym (try_open-opened opens from zero o) ∙ e)
  | inr (inl o) ↦ absurd (none_not_some (try_open-gives_up opens from o) e)
  | inr (inr o) ↦ absurd (none_not_some (try_open-failed opens from zero o) e)
]
try_open-OpensAt opens from k (suc left) e = elim (Opening-cases (opens from)) [
  | inl o ↦ opens_now opens from k (suc left) o (sym (try_open-opened opens from (suc left) o) ∙ e)
  | inr (inl o) ↦
      let (i, l, b) =
        try_open-OpensAt opens (suc from) k left (sym (try_open-retries opens from left o) ∙ e) in
      (
        record {
          before = λ j a c. elim (same_or_later from j a) [
            | inl s ↦ ap opens (sym s) ∙ o
            | inr s ↦ i.before j s c
          ];
          at = i.at;
        },
        omega arith,
        omega arith,
      )
  | inr (inr o) ↦ absurd (none_not_some (try_open-failed opens from (suc left) o) e)
]

-- The loop around `open` ends with the FIFO open exactly when one of the six tries, the first and five retries,
-- succeeds and all before it failed with ENXIO.
pub open_client-OpensAt :
    (opens : ℕ → Opening) (k : ℕ)
    → (open_client opens ≡ some k) ↔ (OpensAt opens 0 k × (k ≤ max_retries))
open_client-OpensAt opens k = (
  (λ e. let (i, l, b) = try_open-OpensAt opens 0 k max_retries e in (i, omega arith)),
  λ h. try_open-finds opens 0 k max_retries (h.0) (omega arith) (omega (arith, h.1)),
)
