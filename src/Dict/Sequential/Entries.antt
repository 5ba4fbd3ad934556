-- ===== src/Dict/Sequential/Entries.antt =====
-- A dictionary goes through convert.c and lookup1.c.
use sp_hw.Base.{
  ltb-true, ltb-false, ℕ, zero, suc, ◌+◌, ◌-◌, ◌<◌, ◌≤◌, ◌≡◌, ◌≢◌, refl, ap, ◌∙◌, Bool, true, false,
  List, [], ◌∷◌, ◌++◌, Option, none, some, if◌then◌else◌, ◌>>=◌, length, replicate, length-append,
  All, Bytes, cstr, str_eq, ◌⊎◌, inl, inr, arith,
}
use sp_hw.Dict.Record.{word_size, text_size, Dictrec, Status, found, not_found}
use sp_hw.Dict.Sequential.{
  Arrays, newline, is_blank, fill, make_record, convert, chop, terminated, strings, lookup1,
}

-- A string that stands on a line of its own: not empty, with no NUL and no newline.
abbrev pub IsPlain : Bytes → Type 0
IsPlain s = (s ≢ []) × All (λ c. (c ≢ 0) × (c ≢ newline)) s

-- An entry whose lines fit into the arrays of a record.
pub record IsEntry (e : Dictrec) : Type 0 where
  pub word_plain : IsPlain e.word
  pub text_plain : IsPlain e.text
  pub word_fits : length e.word + 1 < word_size
  pub text_fits : length e.text + 1 < text_size

abbrev pub line : Bytes → Bytes
line s = s ++ newline ∷ []

-- The text of a dictionary: a word, its definition and a blank line for each entry.
abbrev pub source : List Dictrec → List Bytes
source [] = []
source (e ∷ es) = line (e.word) ∷ line (e.text) ∷ line [] ∷ source es

-- The first entry with the word.
abbrev pub first_entry : List Dictrec → Dictrec → Status × Dictrec
first_entry [] sought = (not_found, sought)
first_entry (e ∷ es) sought =
    let rest = first_entry es sought in
    if str_eq (e.word) (sought.word) then (found, record sought { text = e.text }) else rest

cstr-line :
    (s : Bytes) (k : ℕ)
    → All (λ c. (c ≢ 0) × (c ≢ newline)) s
    → cstr (line s ++ replicate k 0) ≡ line s
unfolding cstr
cstr-line [] zero h = refl
cstr-line [] (suc k) h = refl
cstr-line (c ∷ s) k h = ground (arith, cstr-line s k (h.1), h.0)

chop-line : (s : Bytes) → chop (line s) ≡ some s
unfolding chop
chop-line [] = refl
chop-line (c ∷ []) = refl
chop-line (c ∷ d ∷ s) = rw (chop-line (d ∷ s)) refl

is_blank-line : (s : Bytes) → IsPlain s → is_blank (line s) ≡ false
unfolding is_blank
is_blank-line [] h = absurd (h.0 refl)
is_blank-line (c ∷ s) h = ground (arith, h.1)

length-line : (s : Bytes) → length (line s) ≡ length s + 1
length-line s = length-append s (newline ∷ [])

fill-line :
    (size : ℕ) (s : Bytes)
    → length s + 1 < size
    → fill size (line s) ≡ some (line s ++ replicate (size - length (line s)) 0)
unfolding fill
fill-line size s h = rw (ltb-true (length (line s)) size (omega (arith, length-line s, h))) refl

terminated-line :
    (size k : ℕ) (s : Bytes)
    → IsPlain s
    → length s + 1 < size
    → terminated size (line s ++ replicate k 0) ≡ some (line s)
unfolding terminated
terminated-line size k s p h =
    rw (cstr-line s k (p.1))
      (rw (ltb-true (length (line s)) size (omega (arith, length-line s, h))) refl)

fill_overrun : (size : ℕ) (s : Bytes) → size ≤ length s → fill size s ≡ none
unfolding fill
fill_overrun size s h = rw (ltb-false (length s) size h) refl

bind_none :
    {A B : Type 0} (o : Option A) (f : A → Option B) → ((a : A) → f a ≡ none) → (o >>= f) ≡ none
bind_none none f h = refl
bind_none (some a) f h = h a

make_record_overrun :
    (word text : Bytes)
    → (word_size ≤ length word) ⊎ (text_size ≤ length text)
    → make_record word text ≡ none
unfolding make_record
make_record_overrun word text (inl h) = rw (fill_overrun word_size word h) refl
make_record_overrun word text (inr h) =
    bind_none (fill word_size word) _ (λ w. rw (fill_overrun text_size text h) refl)

-- The record of an entry.
abbrev image : Dictrec → Arrays
image e = record {
  word_array = line (e.word) ++ replicate (word_size - length (line (e.word))) 0;
  text_array = line (e.text) ++ replicate (text_size - length (line (e.text))) 0;
}

abbrev images : List Dictrec → List Arrays
images [] = []
images (e ∷ es) = image e ∷ images es

make_record-image :
    (e : Dictrec) → IsEntry e → make_record (line (e.word)) (line (e.text)) ≡ some (image e)
unfolding make_record
make_record-image e h =
    rw (fill-line word_size (e.word) (h.word_fits), fill-line text_size (e.text) (h.text_fits)) refl

strings-image : (e : Dictrec) → IsEntry e → strings (image e) ≡ some e
unfolding strings
strings-image e h =
    rw
      (
        terminated-line word_size (word_size - length (line (e.word))) (e.word) (h.word_plain)
            (h.word_fits),
        terminated-line text_size (text_size - length (line (e.text))) (e.text) (h.text_plain)
            (h.text_fits),
        chop-line (e.word),
        chop-line (e.text),
      )
      refl

-- A blank line where a word should stand is passed over.
convert_blank : (lines : List Bytes) → convert (line [] ∷ lines) ≡ convert lines
unfolding convert is_blank
convert_blank [] = refl
convert_blank (l ∷ lines) = refl

convert_pair :
    (word text : Bytes) (lines : List Bytes) (r : Arrays)
    → is_blank word ≡ false
    → is_blank text ≡ false
    → make_record word text ≡ some r
    → convert (word ∷ text ∷ lines) ≡ (convert lines >>= λ rest. some (r ∷ rest))
unfolding convert
convert_pair word text lines r w t m = rw (convert, w, t, m) refl

convert-images : (es : List Dictrec) → All IsEntry es → convert (source es) ≡ some (images es)
unfolding convert
convert-images [] h = refl
convert-images (e ∷ es) h =
    convert_pair (line (e.word)) (line (e.text)) (line [] ∷ source es) (image e)
      (is_blank-line (e.word) (h.0.word_plain)) (is_blank-line (e.text) (h.0.text_plain))
      (make_record-image e (h.0))
    ∙ ap (λ o. o >>= λ rest. some (image e ∷ rest))
        (convert_blank (source es) ∙ convert-images es (h.1))

some_if :
    {A : Type 0} (b : Bool) (x y : A) → (if b then some x else some y) ≡ some (if b then x else y)
some_if true x y = refl
some_if false x y = refl

lookup1-images :
    (es : List Dictrec) (sought : Dictrec)
    → All IsEntry es
    → lookup1 (images es) sought ≡ some (first_entry es sought)
unfolding lookup1
lookup1-images [] sought h = refl
lookup1-images (e ∷ es) sought h =
    rw (strings-image e (h.0), lookup1-images es sought (h.1))
      (some_if (str_eq (e.word) (sought.word)) _ _)

-- For entries whose words and texts are not empty, hold no NUL and no newline, and fit into the arrays
-- of a record: convert.c turns the text of the dictionary into a file in which lookup1.c finds, for
-- every word sought, the first entry with that word, or says that there is none.
pub lookup1-convert :
    (es : List Dictrec)
    → All IsEntry es
    → (file : List Arrays) × (convert (source es) ≡ some file)
      × ((sought : Dictrec) → lookup1 file sought ≡ some (first_entry es sought))
lookup1-convert es h = (images es, convert-images es h, λ sought. lookup1-images es sought h)

-- A line that does not fit into its array with a NUL overruns it, for the word as for the text, if
-- neither line is blank.
pub convert_overrun :
    (word text : Bytes) (lines : List Bytes)
    → is_blank word ≡ false
    → is_blank text ≡ false
    → (word_size ≤ length word) ⊎ (text_size ≤ length text)
    → convert (word ∷ text ∷ lines) ≡ none
unfolding convert
convert_overrun word text lines w t h = rw (convert, w, t, make_record_overrun word text h) refl
