-- ===== src/Feed/Rows.antt =====
-- Which numbers stand in the buffer of SP_HW10.
use sp_hw.Base.{
  ℕ, zero, suc, ◌+◌, ◌%◌, ◌<◌, ◌≤◌, ◌≡◌, ◌≢◌, ◌↔◌, ◌⊎◌, inl, inr, sym, ap, ◌∙◌, true, ◌==◌, ==_iff,
  Bool-cases, update, update_same, update_other, true_not_false, Bytes, str_eq_iff, arith,
}
use sp_hw.Feed.{write, written, still_there}

-- Two numbers that share a row and are less than a round apart are one.
row_unique : (r u v : ℕ) → 0 < r → u % r ≡ v % r → u ≤ v → v < u + r → u ≡ v
row_unique r u v p e l h = grind arith

row_again : (r u : ℕ) → 0 < r → (u + r) % r ≡ u % r
row_again r u p = grind arith

lt_or_eq : (m n : ℕ) → m < suc n → (m < n) ⊎ (m ≡ n)
lt_or_eq m n h = ground arith

le_or_le : (m n : ℕ) → (m ≤ n) ⊎ (n ≤ m)
le_or_le m n = ground arith

module _ (decimal : ℕ → Bytes) (buffer_row : ℕ) (rows_exist : 0 < buffer_row) where
  -- The number that stands in the row of another one.
  record IsLatest (n v u : ℕ) : Type 0 where
    before : u < n
    same_row : u % buffer_row ≡ v % buffer_row
    in_round : n ≤ u + buffer_row
    text : written decimal buffer_row n (v % buffer_row) ≡ decimal u

  earlier : (n v : ℕ) → v < suc n → n % buffer_row ≢ v % buffer_row → v < n
  earlier n v h d = elim (lt_or_eq v n h) [
    | inl l ↦ l
    | inr e ↦ absurd (d (ap (λ x. x % buffer_row) (sym e)))
  ]

  not_a_round :
      (n v u : ℕ) → n % buffer_row ≢ v % buffer_row → IsLatest n v u → suc n ≤ u + buffer_row
  not_a_round n v u d l = elim (lt_or_eq n (u + buffer_row) (omega (arith, l.in_round))) [
    | inl h ↦ h
    | inr e ↦
        absurd (d (ap (λ x. x % buffer_row) e ∙ row_again buffer_row u rows_exist ∙ l.same_row))
  ]

  closest : (n v u : ℕ) → v < n → n ≤ v + buffer_row → IsLatest n v u → u ≡ v
  closest n v u h b l = elim (le_or_le u v) [
    | inl k ↦ row_unique buffer_row u v rows_exist l.same_row k (omega (arith, l.in_round))
    | inr k ↦
        sym (row_unique buffer_row v u rows_exist (sym l.same_row) k (omega (arith, l.before)))
  ]

  at_row : (n v : ℕ) → v % buffer_row ≡ n % buffer_row → IsLatest (suc n) v n
  unfolding written write
  at_row n v same = record {
    before = omega arith;
    same_row = sym same;
    in_round = omega (arith, rows_exist);
    text =
        ap (update (n % buffer_row) (decimal n) (written decimal buffer_row n)) same
        ∙ update_same (n % buffer_row) (decimal n) (written decimal buffer_row n);
  }

  latest : (n v : ℕ) → v < n → (u : ℕ) × IsLatest n v u
  unfolding written write
  latest zero v h = absurd (omega arith)
  latest (suc n) v h = elim (Bool-cases (v % buffer_row == n % buffer_row)) [
    | inl e ↦ let same = (==_iff (v % buffer_row) (n % buffer_row)).0 e in (n, at_row n v same)
    | inr e ↦
        let differs : n % buffer_row ≢ v % buffer_row =
          λ x. true_not_false ((==_iff (v % buffer_row) (n % buffer_row)).1 (sym x)) e in
        let (u, l) = latest n v (earlier n v h differs) in
        (
          u,
          record {
            before = omega (arith, l.before);
            same_row = l.same_row;
            in_round = not_a_round n v u differs l;
            text =
                update_other (n % buffer_row) (decimal n) (written decimal buffer_row n)
                  (v % buffer_row) differs
                ∙ l.text;
          },
        )
  ]

  -- After n rounds of the producer, a consumer that handles the number v counts it exactly when fewer
  -- numbers than the buffer has rows were written behind it.
  pub still_there-written :
      (n v : ℕ)
      → ((i j : ℕ) → decimal i ≡ decimal j → i ≡ j)
      → v < n
      → (still_there decimal buffer_row (written decimal buffer_row n) v ≡ true)
        ↔ (n ≤ v + buffer_row)
  unfolding still_there
  still_there-written n v inj h =
      let (u, l) = latest n v h in
      (
        (λ e.
            let same = inj u v (sym l.text ∙ (str_eq_iff _ _).0 e) in
            omega (arith, same, l.in_round)),
        λ b. (str_eq_iff _ _).1 (l.text ∙ ap decimal (closest n v u h b l)),
      )
