-- ===== src/Feed/Semaphore.antt =====
-- Who has the semaphore at the end of SP_HW10.
use sp_hw.Base.{
  ℕ, suc, ◌≡◌, ◌≢◌, refl, sym, ap, subst, ◌∙◌, Bool, true, false, inl, inr, none, Bytes, update,
  update_same, update_other, AllOutside, OthersOutside, update-OthersOutside, update-AllOutside,
  update_outside, true_not_false, ◌==◌, ==_iff, Bool-cases,
}
use sp_hw.Feed.{Rows}
use sp_hw.Feed.Closing.{
  Place, idle, wanting, holding, counted, killed, killed_inside, Producer, killing, printing,
  Closing, closing, kill, Next, pass_over, compare_row, grab, count, release, strike, take, post,
}

-- Whether a consumer has the semaphore, also as one that was killed with it.
abbrev pub is_inside : Place → Bool
is_inside holding = true
is_inside counted = true
is_inside killed_inside = true
is_inside _ = false

abbrev pub is_printing : Producer → Bool
is_printing printing = true
is_printing _ = false

-- The semaphore is free, one consumer has it, or the producer.
pub data Holds (places : ℕ → Place) (free : Bool) (p : Producer) : Type 0 where
  nobody : AllOutside is_inside places → free ≡ true → is_printing p ≡ false → Holds places free p
  one :
      (j : ℕ)
      → is_inside (places j) ≡ true
      → OthersOutside is_inside places j
      → free ≡ false
      → is_printing p ≡ false
      → Holds places free p
  printer : AllOutside is_inside places → free ≡ false → is_printing p ≡ true → Holds places free p

abbrev pub Inv : Closing → Type 0
Inv (closing places free p cnt) = Holds places free p

pub different :
    (places : ℕ → Place) (i j : ℕ)
    → is_inside (places i) ≡ true
    → is_inside (places j) ≡ false
    → j ≢ i
different places i j e o x = true_not_false e (ap (λ k. is_inside (places k)) (sym x) ∙ o)

-- A consumer outside takes a place outside.
stays_outside :
    {places : ℕ → Place} {free : Bool} {p : Producer} (j : ℕ) (c : Place)
    → is_inside (places j) ≡ false
    → is_inside c ≡ false
    → Holds places free p
    → Holds (update j c places) free p
stays_outside {places = places} j c o d (nobody h f q) =
    nobody (λ k. update_outside is_inside j c places d k (h k)) f q
stays_outside {places = places} j c o d (printer h f q) =
    printer (λ k. update_outside is_inside j c places d k (h k)) f q
stays_outside {places = places} j c o d (one i e h f q) =
    one i (ap is_inside (update_other j c places i (different places i j e o)) ∙ e)
      (λ k n. update_outside is_inside j c places d k (h k n)) f q

-- The consumer with the semaphore is the only one inside.
pub others_of :
    {places : ℕ → Place} {free : Bool} {p : Producer} (j : ℕ)
    → is_inside (places j) ≡ true
    → Holds places free p
    → OthersOutside is_inside places j × (free ≡ false) × (is_printing p ≡ false)
others_of j e (nobody h f q) = absurd (true_not_false e (h j))
others_of j e (printer h f q) = absurd (true_not_false e (h j))
others_of {places = places} j e (one i d h f q) = elim (Bool-cases (j == i)) [
  | inl y ↦ (subst (OthersOutside is_inside places) (sym ((==_iff j i).0 y)) h, f, q)
  | inr n ↦ absurd (true_not_false e (h j (λ x. true_not_false ((==_iff j i).1 x) n)))
]

-- It takes another place inside.
stays_inside :
    {places : ℕ → Place} {free : Bool} {p : Producer} (j : ℕ) (c : Place)
    → is_inside (places j) ≡ true
    → is_inside c ≡ true
    → Holds places free p
    → Holds (update j c places) free p
stays_inside {places = places} j c e d h =
    let o = others_of j e h in
    one j (ap is_inside (update_same j c places) ∙ d)
      (update-OthersOutside is_inside j c places (o.0)) (o.1) (o.2)

pub struck : (c : Place) → is_inside (kill c) ≡ is_inside c
unfolding kill
struck (idle pending) = refl
struck wanting = refl
struck holding = refl
struck counted = refl
struck killed = refl
struck killed_inside = refl

strike-Holds :
    (places : ℕ → Place) (free : Bool) (i : ℕ)
    → Holds places free (killing i)
    → Holds (update i (kill (places i)) places) free (killing (suc i))
strike-Holds places free i h = elim (Bool-cases (is_inside (places i))) [
  | inl e ↦ on_producer (stays_inside i (kill (places i)) e (struck (places i) ∙ e) h)
  | inr o ↦ on_producer (stays_outside i (kill (places i)) o (struck (places i) ∙ o) h)
]
  where
    on_producer :
        {others : ℕ → Place} → Holds others free (killing i) → Holds others free (killing (suc i))
    on_producer (nobody g f q) = nobody g f refl
    on_producer (one j e g f q) = one j e g f refl
    on_producer (printer g f q) = printer g f q

module _ {decimal : ℕ → Bytes} {buffer_row : ℕ} {rows : Rows} {consumer_amount : ℕ} where
  pub Next-Inv : {s t : Closing} → Next decimal buffer_row rows consumer_amount s t → Inv s → Inv t
  Next-Inv (pass_over j e x) h = stays_outside j (idle none) (ap is_inside e) refl h
  Next-Inv (compare_row j e x) h = stays_outside j wanting (ap is_inside e) refl h
  Next-Inv (grab {places = places} j e) (nobody g f q) =
      one j (ap is_inside (update_same j holding places))
        (update-OthersOutside is_inside j holding places (λ k n. g k)) refl q
  Next-Inv (grab j e) (one i d g f q) = absurd (cc f)
  Next-Inv (grab j e) (printer g f q) = absurd (cc f)
  Next-Inv (count j e) h = stays_inside j counted (ap is_inside e) refl h
  Next-Inv (release {places = places} j e) h =
      let o = others_of j (ap is_inside e) h in
      nobody (update-AllOutside is_inside j (idle none) places refl (o.0)) refl (o.2)
  Next-Inv (strike {places = places} {free = free} {i = i} l) h = strike-Holds places free i h
  Next-Inv (take e) (nobody g f q) = printer g refl refl
  Next-Inv (take e) (one j d g f q) = absurd (cc f)
  Next-Inv (take e) (printer g f q) = absurd (cc f)
  Next-Inv post (nobody g f q) = absurd (cc q)
  Next-Inv post (one j d g f q) = absurd (cc q)
  Next-Inv post (printer g f q) = nobody g refl refl
