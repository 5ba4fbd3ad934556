-- ===== src/Fetch/Names.antt =====
-- The names in a request of SP_HW9/52_3.
use sp_hw.Base.{
  ℕ, zero, suc, ◌+◌, ◌-◌, ◌<◌, ◌≤◌, ◌≡◌, refl, ap, ◌∙◌, false, [], ◌∷◌, ◌++◌, some, if◌then◌else◌,
  ltb, ltb-true, length, length-append, length-drop, length-take, take, Bool-cases, inl, inr, drop,
  drop-append, append-nil, append_assoc, Bytes, cstr, arith, ==-false,
}
use sp_hw.Fetch.Blocks.{HasNoNul}
use sp_hw.Fetch.Request.{
  name_size, request_size, strcpy_at, then_copy, fill_request, named_queue, named_file,
}

cstr-append : (s rest : Bytes) → HasNoNul s → cstr (s ++ rest) ≡ s ++ cstr rest
unfolding cstr
cstr-append [] rest h = refl
cstr-append (c ∷ s) rest h = rw (==-false c 0 (h.0)) (ap (◌∷◌ c) (cstr-append s rest (h.1)))

cstr_nul : (rest : Bytes) → cstr (0 ∷ rest) ≡ []
unfolding cstr
cstr_nul rest = refl

-- A string up to the NUL behind it.
cstr-stop : (s rest : Bytes) → HasNoNul s → cstr (s ++ 0 ∷ rest) ≡ s
cstr-stop s rest h = cstr-append s (0 ∷ rest) h ∙ ap (λ r. s ++ r) (cstr_nul rest) ∙ append-nil s

take_past : (s rest : Bytes) (n m : ℕ) → m ≡ length s + n → take m (s ++ rest) ≡ s ++ take n rest
take_past [] rest n m e = ap (λ k. take k rest) (omega (arith, e))
take_past (c ∷ s) rest n zero e = absurd (omega (arith, e))
take_past (c ∷ s) rest n (suc m) e = ap (◌∷◌ c) (take_past s rest n m (omega (arith, e)))

strcpy_at-fits :
    (at : ℕ) (s mem : Bytes)
    → at + length s < request_size
    → strcpy_at at s mem ≡ some (take at mem ++ (s ++ 0 ∷ drop (suc (at + length s)) mem))
unfolding strcpy_at
strcpy_at-fits at s mem h = rw (ltb-true (at + length s) request_size h) refl

-- The request behind the copy of the name, and behind both.
abbrev with_name : Bytes → Bytes → Bytes
with_name name before = name ++ 0 ∷ drop (suc (length name)) before

abbrev pub filled : Bytes → Bytes → Bytes → Bytes
filled name file before =
    take name_size (with_name name before)
    ++ (file ++ 0 ∷ drop (suc (name_size + length file)) (with_name name before))

module _ (name file before : Bytes) where
  -- Names that `strcpy` writes into the request, with room for the NUL of the second in its array.
  pub record AreNames : Type 0 where
    pub whole : length before ≡ request_size
    pub name_no_nul : HasNoNul name
    pub file_no_nul : HasNoNul file
    pub name_fits : length name ≤ name_size
    pub file_fits : length file < name_size

  pub fill_request-filled :
      AreNames → fill_request name file before ≡ some (filled name file before)
  unfolding fill_request
  fill_request-filled h =
      ap (λ m. then_copy m name_size file)
        (strcpy_at-fits 0 name before (omega (arith, h.name_fits))
          ∙ ap (λ n. some (name ++ 0 ∷ drop (suc n) before)) (omega arith))
      ∙ strcpy_at-fits name_size file (with_name name before) (omega (arith, h.file_fits))

  front_size : AreNames → name_size ≡ length (take name_size (with_name name before))
  front_size h = omega (
    arith,
    length-take name_size (with_name name before),
    length-append name (0 ∷ drop (suc (length name)) before),
    length-drop (suc (length name)) before,
    h.whole,
    h.name_fits,
  )

  pub named_file-filled : AreNames → named_file (filled name file before) ≡ file
  unfolding named_file
  named_file-filled h =
      let behind = drop (suc (name_size + length file)) (with_name name before) in
      ap cstr (
        drop-append (take name_size (with_name name before)) (file ++ 0 ∷ behind) name_size
          (front_size h))
      ∙ cstr-stop file behind h.file_no_nul

  -- What the server takes for the name of the client's queue.
  abbrev pub name_received : Bytes
  name_received = if ltb (length name) name_size then name else name ++ file

  -- The name ends in its array, or fills it.
  short_front :
      (n : ℕ)
      → name_size ≡ length name + suc n
      → take name_size (with_name name before)
        ≡ name ++ 0 ∷ take n (drop (suc (length name)) before)
  short_front n e = take_past name (0 ∷ drop (suc (length name)) before) (suc n) name_size e

  full_front : length name ≡ name_size → take name_size (with_name name before) ≡ name
  full_front e =
      take_past name (0 ∷ drop (suc (length name)) before) 0 name_size (omega (arith, e))
      ∙ append-nil name

  short_name : AreNames → length name < name_size → named_queue (filled name file before) ≡ name
  unfolding named_queue
  short_name h l =
      let n = name_size - suc (length name) in
      let front = take n (drop (suc (length name)) before) in
      let behind = file ++ 0 ∷ drop (suc (name_size + length file)) (with_name name before) in
      ap (λ f. cstr (f ++ behind)) (short_front n (omega (arith, l)))
      ∙ ap cstr (append_assoc name (0 ∷ front) behind)
      ∙ cstr-stop name (front ++ behind) h.name_no_nul

  full_name :
      AreNames → length name ≡ name_size → named_queue (filled name file before) ≡ name ++ file
  unfolding named_queue
  full_name h l =
      let behind = drop (suc (name_size + length file)) (with_name name before) in
      ap (λ f. cstr (f ++ (file ++ 0 ∷ behind))) (full_front l)
      ∙ cstr-append name (file ++ 0 ∷ behind) h.name_no_nul
      ∙ ap (λ r. name ++ r) (cstr-stop file behind h.file_no_nul)

  pub named_queue-filled : AreNames → named_queue (filled name file before) ≡ name_received
  named_queue-filled h = elim (Bool-cases (ltb (length name) name_size)) [
    | inl e ↦ rw e (short_name h (ground arith))
    | inr e ↦ rw e (full_name h (omega (arith, h.name_fits, long e)))
  ]
    where
      long : ltb (length name) name_size ≡ false → name_size ≤ length name
      long e = ground arith
