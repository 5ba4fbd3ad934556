-- ===== src/Base/Text.antt =====
-- Bytes, and the C strings that they hold: `strlen`, `strcmp` and the bytes before the first NUL.
use Prim.Native.Nat.{ℕ, zero, suc, compare, Ordering}
use Prim.Native.Char.{code}
use Prim.Native.String.{String}
use mathlib.Core.Path.{◌≡◌, refl}
use mathlib.Core.Logic.{◌≢◌, ◌↔◌}
use mathlib.Core.Bool.{Bool, true, false, ◌&&◌}
use mathlib.Core.List.{List, [], ◌∷◌, ◌++◌}
use native.Mathlib.Omega.{arith}
use sp_hw.Base.Lists.{All, replicate}
use sp_hw.Base.Tests.{◌==◌, if◌then◌else◌, Bool-cases}

abbrev pub Bytes : Type 0
Bytes = List ℕ

-- The code points of a text: its bytes, if it is ASCII.
abbrev pub codes : String → Bytes
codes String.[] = []
codes (String.◌∷◌ c s) = code c ∷ codes s

-- The string that starts at the first byte of `bs`: what stands before the first NUL.
unfoldable pub cstr : Bytes → Bytes
cstr [] = []
cstr (b ∷ bs) = if b == 0 then [] else b ∷ cstr bs

-- `strcmp(a, b) == 0`
unfoldable pub str_eq : Bytes → Bytes → Bool
str_eq [] [] = true
str_eq (x ∷ a) (y ∷ b) = x == y && str_eq a b
str_eq _ _ = false

pub str_eq_iff : (a b : Bytes) → (str_eq a b ≡ true) ↔ (a ≡ b)
unfolding str_eq
str_eq_iff (x ∷ a) (y ∷ b) = ground (arith, str_eq_iff a b)
str_eq_iff _ _ = ground arith

pub str_eq_self : (a : Bytes) → str_eq a a ≡ true
str_eq_self a = (str_eq_iff a a).1 refl

pub str_eq-other : {a b : Bytes} → a ≢ b → str_eq a b ≡ false
str_eq-other {a = a} {b = b} h = ground (arith, str_eq_iff a b, Bool-cases (str_eq a b))

-- The sign of `strcmp(a, b)`. Bytes compare as `unsigned char`.
pub data Sign : Type 0 where
  less equal greater : Sign

unfoldable pub strcmp : Bytes → Bytes → Sign
strcmp [] [] = equal
strcmp [] (y ∷ b) = less
strcmp (x ∷ a) [] = greater
strcmp (x ∷ a) (y ∷ b) =
    let rest = strcmp a b in
    elim (compare x y) [ Ordering.lt ↦ less | Ordering.gt ↦ greater | Ordering.eq ↦ rest ]

pub strcmp-eq : (a b : Bytes) → strcmp a b ≡ equal → a ≡ b
unfolding strcmp
strcmp-eq [] [] h = refl
strcmp-eq [] (y ∷ b) h = cc
strcmp-eq (x ∷ a) [] h = cc
strcmp-eq (x ∷ a) (y ∷ b) h = ground (arith, strcmp-eq a b)

pub strcmp_self : (a : Bytes) → strcmp a a ≡ equal
unfolding strcmp
strcmp_self [] = refl
strcmp_self (x ∷ a) = ground (arith, strcmp_self a)

pub strcmp_flip : (a b : Bytes) → strcmp a b ≡ less → strcmp b a ≡ greater
unfolding strcmp
strcmp_flip [] [] h = cc
strcmp_flip [] (y ∷ b) h = refl
strcmp_flip (x ∷ a) [] h = cc
strcmp_flip (x ∷ a) (y ∷ b) h = ground (arith, strcmp_flip a b)

pub strcmp_flip_greater : (a b : Bytes) → strcmp a b ≡ greater → strcmp b a ≡ less
unfolding strcmp
strcmp_flip_greater [] [] h = cc
strcmp_flip_greater [] (y ∷ b) h = cc
strcmp_flip_greater (x ∷ a) [] h = refl
strcmp_flip_greater (x ∷ a) (y ∷ b) h = ground (arith, strcmp_flip_greater a b)

-- A string in an array of zeros is read back.
pub cstr-padded : (s : Bytes) (k : ℕ) → All (λ c. c ≢ 0) s → cstr (s ++ replicate k 0) ≡ s
unfolding cstr
cstr-padded [] zero h = refl
cstr-padded [] (suc k) h = refl
cstr-padded (c ∷ s) k h = ground (arith, cstr-padded s k (h.1), h.0)
