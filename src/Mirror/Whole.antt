-- ===== src/Mirror/Whole.antt =====
-- What 49_1.c leaves at the path of the destination.
use sp_hw.Base.{
  ℕ, suc, ◌-◌, ◌≡◌, ◌≢◌, inl, inr, refl, sym, ap, ◌∙◌, Bool, true, false, ◌||◌, not, List, [], ◌∷◌,
  ◌++◌, append-nil, Option, some, if◌then◌else◌, ◌==◌, Bool-cases, length, get_or, subst,
  length-append, length-take, length-replicate, take, drop_all, replicate, Bytes, Calls, codes,
  str_eq, str_eq-other, arith,
}
use sp_hw.Mirror.{contents, ftruncate, memcpy, mmap, fill, mirror, mirror_main}

length-ftruncate : (n : ℕ) (bytes : Bytes) → length (ftruncate n bytes) ≡ n
unfolding ftruncate
length-ftruncate n bytes = grind (
  arith,
  length-append (take n bytes) (replicate (n - length bytes) 0),
  length-take n bytes,
  length-replicate {A = ℕ} (n - length bytes) 0,
)

memcpy-ftruncate : (src bytes : Bytes) → memcpy src (ftruncate (length src) bytes) ≡ src
unfolding memcpy
memcpy-ftruncate src bytes =
    ap (λ z. src ++ z)
      (drop_all (length src) (ftruncate (length src) bytes)
        (omega (arith, length-ftruncate (length src) bytes)))
    ∙ append-nil src

-- What may be at the path behind an end with an error: what was there, where nothing was an empty file,
-- or that with the length of the source.
pub data IsLeft (src : Bytes) (old : Option Bytes) : Option Bytes → Type 0 where
  untouched : IsLeft src old old
  created : IsLeft src old (some (contents old))
  resized : IsLeft src old (some (ftruncate (length src) (contents old)))

-- An end of the program: with success and the source at the path, or with an error.
pub data IsEnd (src : Bytes) (old : Option Bytes) : Option Bytes × Bool → Type 0 where
  whole : src ≢ [] → IsEnd src old (some src, true)
  error : {left : Option Bytes} → IsLeft src old left → IsEnd src old (left, false)

either_branch {ℓ κ} :
    {A : Type ℓ} (P : A → Type κ) (b : Bool) {x y : A} → P x → P y → P (if b then x else y)
either_branch P true p q = p
either_branch P false p q = q

mmap-ne-nil : (src : Bytes) (succeeds : Bool) → mmap succeeds (length src) ≡ true → src ≢ []
unfolding mmap
mmap-ne-nil [] succeeds h e = absurd (ground (arith, h))
mmap-ne-nil (c ∷ src) succeeds h e = absurd (omega (arith, ap length e))

module _ (io : Calls) (src : Bytes) (old : Option Bytes) where
  fill-IsEnd : src ≢ [] → IsEnd src old (fill io src (contents old))
  unfolding fill
  fill-IsEnd n = either_branch (IsEnd src old) (not (io 5)) (error created) (
      either_branch (IsEnd src old) (not (mmap (io 6) (length src))) (error resized) (
        either_branch (IsEnd src old) (not (io 7)) (error resized) (
          subst (λ z. IsEnd src old (some z, true)) (sym (memcpy-ftruncate src (contents old)))
            (whole n))))

  -- Whichever calls fail, the program ends with success and the whole source at the other path, the source not
  -- being empty, or with an error and what was there, with an empty file in place of none, or that brought to the
  -- length of the source.
  pub mirror_main-IsEnd : (argv : List Bytes) → IsEnd src old (mirror_main io argv src old)
  unfolding mirror_main mirror
  mirror_main-IsEnd argv =
      let same = error untouched in
      either_branch (IsEnd src old)
        (not (length argv == 3) || str_eq (get_or argv 1 []) (codes "--help")) same
        (either_branch (IsEnd src old) (not (io 0)) same (
          either_branch (IsEnd src old) (not (io 1)) same
            (elim (Bool-cases (mmap (io 2) (length src))) [
              | inr e ↦ rw e same
              | inl e ↦ rw e (
                  either_branch (IsEnd src old) (not (io 3)) same (
                    either_branch (IsEnd src old) (not (io 4)) same
                      (fill-IsEnd (mmap-ne-nil src (io 2) e))))
            ])))

not_zero : (n : ℕ) → (suc n == 0) ≡ false
not_zero n = ground arith

-- Where no call fails a source that is not empty is copied, whatever the destination held; an empty one
-- ends the program with an error before the destination is opened.
pub mirror_main-whole :
    (io : Calls) (name from to src : Bytes) (old : Option Bytes)
    → ((k : ℕ) → io k ≡ true)
    → from ≢ codes "--help"
    → mirror_main io (name ∷ from ∷ to ∷ []) src old
      ≡ (if length src == 0 then (old, false) else (some src, true))
unfolding mirror_main mirror fill mmap
mirror_main-whole io name from to [] old h n = rw (str_eq-other n, h 0, h 1) refl
mirror_main-whole io name from to (c ∷ src) old h n =
    rw (str_eq-other n, h 0, h 1, h 2, h 3, h 4, h 5, h 6, h 7, not_zero (length src))
      (ap (λ z. (some z, true)) (memcpy-ftruncate (c ∷ src) (contents old)))
