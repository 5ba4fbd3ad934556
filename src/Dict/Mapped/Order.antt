-- ===== src/Dict/Mapped/Order.antt =====
-- Sorted tables of records, and the search from the front.
use sp_hw.Base.{
  ℕ, ◌≤◌, ◌<◌, ◌≡◌, List, [], ◌∷◌, if◌then◌else◌, length, get_or, Bytes, Sign, less, equal, greater,
  strcmp, strcmp_self, strcmp_flip, str_eq, arith,
}
use sp_hw.Dict.Record.{Dictrec, blank}
use sp_hw.Dict.Mapped.{Probe, hit, miss}

abbrev pub word_at : List Dictrec → ℕ → Bytes
word_at table i = (get_or table i blank).word

-- Words in strictly increasing order.
abbrev pub IsSorted : List Dictrec → Type 0
IsSorted table =
    (i j : ℕ) → i < j → j < length table → strcmp (word_at table i) (word_at table j) ≡ less

-- The search from the front.
unfoldable pub linear : List Dictrec → Dictrec → Probe
linear [] sought = miss
linear (r ∷ table) sought = if str_eq r.word sought.word then hit r else linear table sought

abbrev pub Located : Sign → ℕ → ℕ → Type 0
Located less mid i = mid ≤ i
Located equal mid i = mid ≡ i
Located greater mid i = i < mid

pub sorted_self :
    (table : List Dictrec) (mid i : ℕ)
    → mid ≡ i
    → strcmp (word_at table mid) (word_at table i) ≡ equal
sorted_self table mid i e = rw e (strcmp_self (word_at table i))

-- On which side of `mid` the word at `i` stands.
pub located :
    (table : List Dictrec) (mid i : ℕ) (sign : Sign)
    → IsSorted table
    → mid < length table
    → i < length table
    → strcmp (word_at table mid) (word_at table i) ≡ sign
    → Located sign mid i
located table mid i less sorted mid_in i_in e =
    omega (arith, λ (lt : i < mid). clash (sorted i mid lt mid_in))
  where
    clash : strcmp (word_at table i) (word_at table mid) ≡ less → ⊥
    clash l = cc (e, strcmp_flip (word_at table i) (word_at table mid) l)
located table mid i greater sorted mid_in i_in e = omega (
  arith,
  λ (lt : mid < i). clash (sorted mid i lt i_in),
  λ (same : mid ≡ i). clash' (sorted_self table mid i same),
)
  where
    clash : strcmp (word_at table mid) (word_at table i) ≡ less → ⊥
    clash l = cc (e, l)

    clash' : strcmp (word_at table mid) (word_at table i) ≡ equal → ⊥
    clash' l = cc (e, l)
located table mid i equal sorted mid_in i_in e = omega (
  arith,
  λ (lt : mid < i). clash (sorted mid i lt i_in),
  λ (lt : i < mid). clash' (sorted i mid lt mid_in),
)
  where
    clash : strcmp (word_at table mid) (word_at table i) ≡ less → ⊥
    clash l = cc (e, l)

    clash' : strcmp (word_at table i) (word_at table mid) ≡ less → ⊥
    clash' l = cc (e, strcmp_flip (word_at table i) (word_at table mid) l)
