-- ===== src/Dict/Mapped/Search.antt =====
-- The binary search of lookup5.c against a search from the front.
use native.Mathlib.Nat.{pow-suc, pow-zero}
use native.Mathlib.Decide.{dec_lt}
use sp_hw.Base.{
  ℕ, zero, suc, ◌+◌, ◌-◌, ◌/◌, ◌^◌, ◌≤◌, ◌<◌, ◌≡◌, ◌≢◌, inl, inr, refl, sym, ap, ◌∙◌, false,
  Bool-cases, List, [], ◌∷◌, leb, ◌==◌, length, get_or, Sign, less, equal, greater, strcmp-eq,
  str_eq, str_eq_iff, arith,
}
use sp_hw.Dict.Record.{Dictrec, blank}
use sp_hw.Dict.Mapped.{dict_cmp, Probe, hit, miss, fault, int_limit, on_sign, search}
use sp_hw.Dict.Mapped.Order.{word_at, IsSorted, linear, Located, sorted_self, located}

module _ (table : List Dictrec) (sought : Dictrec) (small : length table ≤ 2 ^ 30) where
  -- A hit is a record of the table that has the word, and nothing faults.
  abbrev Sound : Probe → Type 0
  Sound (hit r) =
      (i : ℕ) × (i < length table) × (get_or table i blank ≡ r) × (word_at table i ≡ sought.word)
  Sound miss = Unit
  Sound fault = ⊥

  -- One round on a range that is not empty.
  search_round :
      (rounds start end : ℕ) (sign : Sign)
      → dict_cmp (word_at table ((end + start) / 2)) sought ≡ sign
      → start < end
      → end ≤ length table
      → search (suc rounds) table sought start end
        ≡ on_sign sign
            (search rounds table sought ((end + start) / 2) end)
            (hit (get_or table ((end + start) / 2) blank))
            (search rounds table sought start ((end + start) / 2))
  unfolding search
  search_round rounds start end sign e lt le =
      let differ : (start == end) ≡ false = ground arith in
      let fits : leb int_limit (end + start) ≡ false = ground arith in
      let inside : leb (length table) ((end + start) / 2) ≡ false = ground arith in
      rw (differ, fits, inside, e) (by_sign sign)
    where
      by_sign :
          (sign : Sign)
          → on_sign sign
              (search rounds table sought
                (on_sign sign ((end + start) / 2) start start)
                (on_sign sign end end ((end + start) / 2)))
              (hit (get_or table ((end + start) / 2) blank))
              (search rounds table sought
                (on_sign sign ((end + start) / 2) start start)
                (on_sign sign end end ((end + start) / 2)))
            ≡ on_sign sign
                (search rounds table sought ((end + start) / 2) end)
                (hit (get_or table ((end + start) / 2) blank))
                (search rounds table sought start ((end + start) / 2))
      by_sign less = refl
      by_sign equal = refl
      by_sign greater = refl

  search_empty : (rounds start : ℕ) → search rounds table sought start start ≡ miss
  unfolding search
  search_empty zero start = refl
  search_empty (suc rounds) start = ground arith

  search-Sound :
      (rounds start end : ℕ)
      → start ≤ end
      → end ≤ length table
      → Sound (search rounds table sought start end)
  search-Sound zero start end h le = unfold search in tt
  search-Sound (suc rounds) start end h le = elim (dec_lt start end) [
    | yes lt ↦
        let mid : ℕ = (end + start) / 2 in
        by_sign mid (dict_cmp (word_at table mid) sought) refl (omega arith)
          (search_round rounds start end _ refl lt le)
          (search-Sound rounds mid end (omega arith) le)
          (search-Sound rounds start mid (omega arith) (omega arith))
    | no stop ↦ let e : end ≡ start = omega arith in rw (e, search_empty (suc rounds) start) tt
  ]
    where
      by_sign :
          (mid : ℕ) (sign : Sign)
          → dict_cmp (word_at table mid) sought ≡ sign
          → mid < length table
          → search (suc rounds) table sought start end
            ≡ on_sign sign
                (search rounds table sought mid end)
                (hit (get_or table mid blank))
                (search rounds table sought start mid)
          → Sound (search rounds table sought mid end)
          → Sound (search rounds table sought start mid)
          → Sound (search (suc rounds) table sought start end)
      by_sign mid less e lt round up down = rw round up
      by_sign mid greater e lt round up down = rw round down
      by_sign mid equal e lt round up down =
          rw round (mid, lt, refl, unfold dict_cmp in strcmp-eq _ _ e)

  search-finds :
      (rounds start end i : ℕ)
      → IsSorted table
      → word_at table i ≡ sought.word
      → start ≤ i
      → i < end
      → end ≤ length table
      → end - start ≤ 2 ^ rounds
      → search (suc rounds) table sought start end ≡ hit (get_or table i blank)
  search-finds zero start end i sorted here lo hi le width =
      let mid : ℕ = (end + start) / 2 in
      let same : mid ≡ i = omega (arith, pow-zero 2) in
      let e : dict_cmp (word_at table mid) sought ≡ equal =
        unfold dict_cmp in rw (← here) (sorted_self table mid i same) in
      search_round zero start end equal e (omega arith) le
      ∙ ap (λ j. hit (get_or table j blank)) same
  search-finds (suc rounds) start end i sorted here lo hi le width =
      let mid : ℕ = (end + start) / 2 in
      by_sign mid (dict_cmp (word_at table mid) sought) refl (omega arith)
        (search_round (suc rounds) start end _ refl (omega arith) le)
        (λ below.
          search-finds rounds mid end i sorted here below hi le (omega (arith, pow-suc 2 rounds)))
        (λ above.
          search-finds rounds start mid i sorted here lo above (omega arith)
            (omega (arith, pow-suc 2 rounds)))
    where
      at_sign :
          (mid : ℕ) (sign : Sign)
          → mid < length table
          → dict_cmp (word_at table mid) sought ≡ sign
          → Located sign mid i
      at_sign mid sign inside e =
          located table mid i sign sorted inside (omega arith) (unfold dict_cmp in rw here e)

      by_sign :
          (mid : ℕ) (sign : Sign)
          → dict_cmp (word_at table mid) sought ≡ sign
          → mid < length table
          → search (suc (suc rounds)) table sought start end
            ≡ on_sign sign
                (search (suc rounds) table sought mid end)
                (hit (get_or table mid blank))
                (search (suc rounds) table sought start mid)
          → (mid ≤ i → search (suc rounds) table sought mid end ≡ hit (get_or table i blank))
          → (i < mid → search (suc rounds) table sought start mid ≡ hit (get_or table i blank))
          → search (suc (suc rounds)) table sought start end ≡ hit (get_or table i blank)
      by_sign mid less e inside round up down = round ∙ up (at_sign mid less inside e)
      by_sign mid greater e inside round up down = round ∙ down (at_sign mid greater inside e)
      by_sign mid equal e inside round up down =
          round ∙ ap (λ j. hit (get_or table j blank)) (at_sign mid equal inside e)

-- Where the search from the front ends.
linear-hit :
    (table : List Dictrec) (sought r : Dictrec)
    → linear table sought ≡ hit r
    → (i : ℕ) × (i < length table) × (get_or table i blank ≡ r) × (word_at table i ≡ sought.word)
unfolding linear
linear-hit [] sought r h = cc
linear-hit (x ∷ table) sought r h = elim (Bool-cases (str_eq x.word sought.word)) [
  | inl same ↦ (0, omega arith, ground arith, (str_eq_iff x.word sought.word).0 same)
  | inr differ ↦
      let (i, lt, e, w) = linear-hit table sought r (rw differ at h) in (suc i, omega arith, e, w)
]

pub linear-not_fault : (table : List Dictrec) (sought : Dictrec) → linear table sought ≢ fault
unfolding linear
linear-not_fault [] sought h = cc
linear-not_fault (x ∷ table) sought h = ground (arith, linear-not_fault table sought)

linear-miss :
    (table : List Dictrec) (sought : Dictrec) (i : ℕ)
    → linear table sought ≡ miss
    → i < length table
    → word_at table i ≢ sought.word
unfolding linear
linear-miss [] sought i h lt e = elim lt [ ]
linear-miss (x ∷ table) sought zero h lt e = ground (arith, str_eq_iff x.word sought.word)
linear-miss (x ∷ table) sought (suc i) h lt e = ground (arith, linear-miss table sought i)

-- On a sorted table of at most 2 ^ 30 records, the binary search with its limit of 100 rounds gives
-- what the search from the front gives: the record that has the word, or a miss. It reads no record
-- outside the table and no `int` overflows.
pub search-eq-linear :
    (table : List Dictrec) (sought : Dictrec)
    → length table ≤ 2 ^ 30
    → IsSorted table
    → search 100 table sought 0 (length table) ≡ linear table sought
search-eq-linear table sought small sorted = by_linear (linear table sought) refl
  where
    by_linear :
        (p : Probe)
        → linear table sought ≡ p
        → search 100 table sought 0 (length table) ≡ linear table sought
    by_linear (hit r) e =
        let (i, lt, is_r, w) = linear-hit table sought r e in
        search-finds table sought small 99 0 (length table) i sorted w (omega arith) lt
          (omega arith) (omega arith)
        ∙ ap hit is_r
        ∙ sym e
    by_linear miss e =
        no_hit _ (search-Sound table sought small 100 0 (length table) (omega arith) (omega arith))
        ∙ sym e
      where
        no_hit : (p : Probe) → Sound table sought small p → p ≡ miss
        no_hit (hit r) (i, lt, _, w) = absurd (linear-miss table sought i e lt w)
        no_hit miss s = refl
        no_hit fault s = absurd s
    by_linear fault e = absurd (linear-not_fault table sought e)
