-- ===== src/Feed/Deadlock.antt =====
-- A consumer of SP_HW10 that is killed with the semaphore.
use sp_hw.Base.{
  ℕ, suc, ◌≡◌, refl, sym, ap, subst, ◌∙◌, Bool, true, false, inl, inr, Option, none, Bytes, update,
  update_same, update_other, OthersOutside, update-OthersOutside, update_outside, true_not_false,
  ◌==◌, ==_iff, Bool-cases,
}
use sp_hw.Feed.{Rows}
use sp_hw.Feed.Closing.{
  Place, idle, wanting, killed_inside, Producer, killing, Closing, closing, kill, Next, pass_over,
  compare_row, grab, count, release, strike, take, post, Run, here, next, initial,
}
use sp_hw.Feed.Semaphore.{is_inside, Inv, nobody, different, others_of, struck, Next-Inv}

abbrev pub is_killing : Producer → Bool
is_killing (killing i) = true
is_killing _ = false

-- A consumer has been killed with the semaphore.
pub record IsStuck (places : ℕ → Place) (free : Bool) (p : Producer) (j : ℕ) : Type 0 where
  pub lost : places j ≡ killed_inside
  pub others : OthersOutside is_inside places j
  pub taken : free ≡ false
  pub in_loop : is_killing p ≡ true

abbrev pub Stuck : Closing → ℕ → Type 0
Stuck (closing places free p cnt) j = IsStuck places free p j

-- Another consumer takes a place outside.
update-IsStuck :
    {places : ℕ → Place} {free : Bool} {p : Producer} (j i : ℕ) (c : Place)
    → is_inside (places i) ≡ false
    → is_inside c ≡ false
    → IsStuck places free p j
    → IsStuck (update i c places) free p j
update-IsStuck {places = places} j i c o d k = record {
  lost = update_other i c places j (different places j i (ap is_inside k.lost) o) ∙ k.lost;
  others = λ m n. update_outside is_inside i c places d m (k.others m n);
  taken = k.taken;
  in_loop = k.in_loop;
}

-- Where else a consumer is inside, there is none.
lost_there :
    {places : ℕ → Place} {free : Bool} {p : Producer} (j i : ℕ)
    → is_inside (places i) ≡ true
    → IsStuck places free p j
    → (i ≡ j) × (places i ≡ killed_inside)
lost_there {places = places} j i e k = elim (Bool-cases (i == j)) [
  | inl y ↦ let x = (==_iff i j).0 y in (x, ap places x ∙ k.lost)
  | inr n ↦ absurd (true_not_false e (k.others i (λ x. true_not_false ((==_iff i j).1 x) n)))
]

kill_inside : {c : Place} → c ≡ killed_inside → kill c ≡ killed_inside
unfolding kill
kill_inside e = ap kill e

strike-IsStuck :
    (places : ℕ → Place) (free : Bool) (i j : ℕ)
    → IsStuck places free (killing i) j
    → IsStuck (update i (kill (places i)) places) free (killing (suc i)) j
strike-IsStuck places free i j k = elim (Bool-cases (is_inside (places i))) [
  | inl e ↦
      let (x, y) = lost_there j i e k in
      subst (IsStuck (update i (kill (places i)) places) free (killing (suc i))) x record {
        lost = update_same i (kill (places i)) places ∙ kill_inside y;
        others =
            update-OthersOutside is_inside i (kill (places i)) places
              (subst (OthersOutside is_inside places) (sym x) k.others);
        taken = k.taken;
        in_loop = refl;
      }
  | inr o ↦ in_next (update-IsStuck j i (kill (places i)) o (struck (places i) ∙ o) k)
]
  where
    in_next :
        {others : ℕ → Place}
        → IsStuck others free (killing i) j
        → IsStuck others free (killing (suc i)) j
    in_next s = record { lost = s.lost; others = s.others; taken = s.taken; in_loop = refl }

module _ {decimal : ℕ → Bytes} {buffer_row : ℕ} {rows : Rows} {consumer_amount : ℕ} where
  Next-Stuck :
      {s t : Closing} (j : ℕ)
      → Next decimal buffer_row rows consumer_amount s t
      → Stuck s j
      → Stuck t j
  Next-Stuck j (pass_over i e x) k = update-IsStuck j i (idle none) (ap is_inside e) refl k
  Next-Stuck j (compare_row i e x) k = update-IsStuck j i wanting (ap is_inside e) refl k
  Next-Stuck j (grab i e) k = absurd (cc k.taken)
  Next-Stuck j (count i e) k = absurd (cc (e, (lost_there j i (ap is_inside e) k).1))
  Next-Stuck j (release i e) k = absurd (cc (e, (lost_there j i (ap is_inside e) k).1))
  Next-Stuck j (strike {places = places} {free = free} {i = i} l) k =
      strike-IsStuck places free i j k
  Next-Stuck j (take e) k = absurd (cc k.taken)
  Next-Stuck j post k = absurd (cc k.in_loop)

  Run-Stuck :
      {s t : Closing} (j : ℕ)
      → Run decimal buffer_row rows consumer_amount s t
      → Stuck s j
      → Stuck t j
  Run-Stuck j here k = k
  Run-Stuck j (next r x) k = Next-Stuck j x (Run-Stuck j r k)

  Run-Inv :
      {pending : ℕ → Option ℕ} {cnt : ℕ} {t : Closing}
      → Run decimal buffer_row rows consumer_amount (initial pending cnt) t
      → Inv t
  Run-Inv here = nobody (λ j. refl) refl refl
  Run-Inv (next r x) = Next-Inv x (Run-Inv r)

abbrev pub producer_of : Closing → Producer
producer_of (closing places free p cnt) = p

killing_of : (t : Closing) (j : ℕ) → Stuck t j → is_killing (producer_of t) ≡ true
killing_of (closing places free p cnt) j k = k.in_loop

-- Where a consumer has been killed between its `sem_wait` and its `sem_post`, the producer never comes to
-- print the count, whatever the other consumers do.
pub Run-killing :
    (decimal : ℕ → Bytes) (buffer_row : ℕ) (rows : Rows) (consumer_amount : ℕ)
    (pending : ℕ → Option ℕ) (start : ℕ) (places : ℕ → Place) (free : Bool) (i cnt j : ℕ)
    (t : Closing)
    → Run decimal buffer_row rows consumer_amount
        (initial pending start)
        (closing places free (killing i) cnt)
    → places j ≡ killed_inside
    → Run decimal buffer_row rows consumer_amount (closing places free (killing i) cnt) t
    → is_killing (producer_of t) ≡ true
Run-killing decimal buffer_row rows consumer_amount pending start places free i cnt j t r e later =
    let o = others_of j (ap is_inside e) (Run-Inv r) in
    killing_of t j
      (Run-Stuck j later record { lost = e; others = o.0; taken = o.1; in_loop = refl })
