-- ===== src/Base/Family.antt =====
-- Families of processes: a function from the number of a process, and the update of one of them.
use Prim.Native.Nat.{ℕ}
use mathlib.Core.Path.{◌≡◌, sym, refl, subst}
use mathlib.Core.Logic.{◌≢◌, inl, inr}
use mathlib.Core.Bool.{Bool, false}
use sp_hw.Base.Tests.{◌==◌, if◌then◌else◌, ==_iff, ==-true, ==-false, Bool-cases}

abbrev pub update : {A : Type 0} → ℕ → A → (ℕ → A) → ℕ → A
update i c family j = if j == i then c else family j

module _ {A : Type 0} (i : ℕ) (c : A) (family : ℕ → A) where
  pub update_same : update i c family i ≡ c
  update_same = rw (==-true i i refl) refl

  pub update_other : (k : ℕ) → i ≢ k → update i c family k ≡ family k
  update_other k n = rw (==-false k i (λ e. n (sym e))) refl

-- Which processes a test picks out.
module _ {A : Type 0} (test : A → Bool) where
  abbrev pub OthersOutside : (ℕ → A) → ℕ → Type 0
  OthersOutside family i = (j : ℕ) → j ≢ i → test (family j) ≡ false

  abbrev pub AllOutside : (ℕ → A) → Type 0
  AllOutside family = (j : ℕ) → test (family j) ≡ false

  module _ (i : ℕ) (c : A) (family : ℕ → A) where
    pub update-OthersOutside : OthersOutside family i → OthersOutside (update i c family) i
    update-OthersOutside h j k = rw (==-false j i k) (h j k)

    pub update-AllOutside : test c ≡ false → OthersOutside family i → AllOutside (update i c family)
    update-AllOutside o h j = elim (Bool-cases (j == i)) [
      | inl e ↦ rw e o
      | inr e ↦ rw e (h j (λ x. cc (e, ==-true j i x)))
    ]

    pub update_outside :
        test c ≡ false → (j : ℕ) → test (family j) ≡ false → test (update i c family j) ≡ false
    update_outside o j h = elim (Bool-cases (j == i)) [ inl e ↦ rw e o | inr e ↦ rw e h ]

-- What holds of each member holds behind an update, if it holds of the new one.
pub update_all :
    {A : Type 0} (P : ℕ → A → Type 0) (i : ℕ) (c : A) (family : ℕ → A)
    → P i c
    → ((j : ℕ) → P j (family j))
    → (j : ℕ) → P j (update i c family j)
update_all P i c family new old j = elim (Bool-cases (j == i)) [
  | inl e ↦ rw e (subst (λ k. P k c) (sym ((==_iff j i).0 e)) new)
  | inr e ↦ rw e (old j)
]
