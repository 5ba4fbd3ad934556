-- ===== src/Feed/Count.antt =====
-- How many numbers the consumers of SP_HW10 count.
use sp_hw.Base.{
  ℕ, zero, suc, ◌+◌, ◌*◌, ◌<◌, ◌≤◌, ◌≡◌, ◌≢◌, inl, inr, refl, sym, ap, ◌∙◌, Option, none, some,
  ◌==◌, ==_iff, Bool-cases, update, update_same, update_other, true_not_false, Bytes, arith,
}
use sp_hw.Feed.{
  Rows, Feed, feed, pend, Step, produce, send, handle, Reach, here, next, written, still_there,
  handler,
}

-- 1 for a signal that is pending.
abbrev pub one_if : Option ℕ → ℕ
one_if none = 0
one_if (some value) = 1

-- How many signals are pending at the first k consumers.
abbrev pub waiting : ℕ → (ℕ → Option ℕ) → ℕ
waiting zero pending = 0
waiting (suc k) pending = one_if (pending k) + waiting k pending

waiting_beyond :
    (k i : ℕ) (c : Option ℕ) (pending : ℕ → Option ℕ)
    → k ≤ i
    → waiting k (update i c pending) ≡ waiting k pending
waiting_beyond zero i c pending h = refl
waiting_beyond (suc k) i c pending h =
    let e = ap one_if (update_other i c pending k (λ x. absurd (omega arith))) in
    omega (arith, e, waiting_beyond k i c pending (omega arith))

-- One consumer's signal changes.
waiting-update :
    (k i : ℕ) (c : Option ℕ) (pending : ℕ → Option ℕ)
    → i < k
    → waiting k (update i c pending) + one_if (pending i) ≡ waiting k pending + one_if c
waiting-update zero i c pending h = absurd (omega arith)
waiting-update (suc k) i c pending h = elim (Bool-cases (i == k)) [
  | inl e ↦ at_end ((==_iff i k).0 e)
  | inr e ↦
      let n : i ≢ k = λ x. true_not_false ((==_iff i k).1 x) e in
      let f = ap one_if (update_other i c pending k n) in
      omega (arith, f, waiting-update k i c pending (ground (arith, n)))
]
  where
    at_end :
        i ≡ k
        → waiting (suc k) (update i c pending) + one_if (pending i)
          ≡ waiting (suc k) pending + one_if c
    at_end e =
        let new =
          ap (λ x. one_if (update i c pending x)) (sym e) ∙ ap one_if (update_same i c pending) in
        let old = ap (λ x. one_if (pending x)) e in
        omega (arith, new, old, waiting_beyond k i c pending (omega (arith, e)))

-- How many signals the producer can have sent.
abbrev pub sent_so_far : ℕ → ℕ → ℕ → ℕ
sent_so_far k zero sent = 0
sent_so_far k (suc n) sent = n * k + sent

-- Each number that was sent is counted, pending, or lost.
abbrev Inv : ℕ → ℕ → Feed → Type 0
Inv data_amount k (feed n sent pending cnt) =
    (cnt + waiting k pending ≤ sent_so_far k n sent) × (sent ≤ k) × (n ≤ data_amount)

pend-le : (value : ℕ) (o : Option ℕ) → one_if (pend value o) ≤ one_if o + 1
pend-le value none = omega arith
pend-le value (some earlier) = omega arith

handler-le :
    (decimal : ℕ → Bytes) (buffer_row : ℕ) (rows : Rows) (value cnt : ℕ)
    → handler decimal buffer_row rows value cnt ≤ cnt + 1
unfolding handler
handler-le decimal buffer_row rows value cnt =
    elim (Bool-cases (still_there decimal buffer_row rows value)) [
      | inl e ↦ rw e (omega arith)
      | inr e ↦ rw e (omega arith)
    ]

one_more : (n k : ℕ) → suc n * k ≡ n * k + k
one_more n k = grind arith

waiting-none : (k : ℕ) → waiting k (λ j. none) ≡ 0
waiting-none zero = refl
waiting-none (suc k) = omega (arith, waiting-none k)

mul_mono : (m n k : ℕ) → m ≤ n → m * k ≤ n * k
mul_mono m n k h = grind arith

abbrev pub cnt_of : Feed → ℕ
cnt_of (feed n sent pending cnt) = cnt

cnt-le :
    (data_amount k n sent cnt w : ℕ)
    → cnt + w ≤ sent_so_far k n sent
    → sent ≤ k
    → n ≤ data_amount
    → cnt ≤ data_amount * k
cnt-le data_amount k zero sent cnt w h l m = omega arith
cnt-le data_amount k (suc n) sent cnt w h l m =
    omega (arith, one_more n k, mul_mono (suc n) data_amount k m)

module _ (decimal : ℕ → Bytes) (buffer_row data_amount k : ℕ) where
  Step-Inv :
      {s t : Feed}
      → Step decimal buffer_row data_amount k s t
      → Inv data_amount k s
      → Inv data_amount k t
  Step-Inv (produce {n = zero} h) i = (omega (arith, i.0), omega arith, omega arith)
  Step-Inv (produce {n = suc n} h) i =
      (omega (arith, i.0, i.1, one_more n k), omega arith, omega arith)
  Step-Inv (send {n = n} {sent = sent} {pending = pending} h) i = (
    omega (
      arith,
      i.0,
      waiting-update k sent (pend n (pending sent)) pending h,
      pend-le n (pending sent),
    ),
    omega arith,
    i.2,
  )
  Step-Inv (handle {n = n} {sent = sent} {cnt = cnt} {value = value} {pending = pending} j h e) i =
      (
        omega (
          arith,
          i.0,
          waiting-update k j none pending h,
          ap one_if e,
          handler-le decimal buffer_row (written decimal buffer_row n) value cnt,
        ),
        i.1,
        i.2,
      )

  Reach-Inv : {t : Feed} → Reach decimal buffer_row data_amount k t → Inv data_amount k t
  Reach-Inv here = (omega (arith, waiting-none k), omega arith, omega arith)
  Reach-Inv (next r st) = Step-Inv st (Reach-Inv r)

  Inv-cnt_of : (t : Feed) → Inv data_amount k t → cnt_of t ≤ data_amount * k
  Inv-cnt_of (feed n sent pending cnt) i =
      cnt-le data_amount k n sent cnt (waiting k pending) (i.0) (i.1) (i.2)

  -- However the processes are scheduled, the consumers together never count more numbers than the
  -- amount of data times the number of consumers: the loss rate is not negative.
  pub Reach-cnt_of :
      (t : Feed) → Reach decimal buffer_row data_amount k t → cnt_of t ≤ data_amount * k
  Reach-cnt_of t r = Inv-cnt_of t (Reach-Inv r)
