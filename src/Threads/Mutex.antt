-- ===== src/Threads/Mutex.antt =====
-- Who holds the mutex of quiz_2/1.c.
use sp_hw.Base.{
  ℕ, ◌≡◌, ◌≢◌, refl, sym, ap, ◌∙◌, subst, Bool, true, false, Option, none, some, update,
  update_same, update_other, update-OthersOutside, update-AllOutside, update_outside, OthersOutside,
  AllOutside, true_not_false, ◌==◌, ==_iff, Bool-cases, inl, inr,
}
use sp_hw.Threads.{
  Consumer, locking, calling, asleep, woken, testing, unlocking, finished, awaken, ConsumerStep,
  lock, wait, wake_up, relock, leave, add, unlock, add_digit,
}

-- A consumer holds the mutex from a lock to the unlock, and for good when it has left its loop.
abbrev pub holds : Consumer → Bool
holds (calling sum) = true
holds (testing sum) = true
holds (unlocking sum) = true
holds (finished sum) = true
holds _ = false

-- The mutex names its holder.
abbrev pub Held : (ℕ → Consumer) → Option ℕ → Type 0
Held cs none = AllOutside holds cs
Held cs (some i) = (holds (cs i) ≡ true) × OthersOutside holds cs i

holds-awaken : (c : Consumer) → holds (awaken c) ≡ holds c
holds-awaken (asleep sum) = refl
holds-awaken (locking sum) = refl
holds-awaken _ = refl

pub awaken-Held : (cs : ℕ → Consumer) (m : Option ℕ) → Held cs m → Held (λ i. awaken (cs i)) m
awaken-Held cs none h = λ j. holds-awaken (cs j) ∙ h j
awaken-Held cs (some i) h = (holds-awaken (cs i) ∙ h.0, λ j n. holds-awaken (cs j) ∙ h.1 j n)

-- A consumer that does not hold the mutex while another does.
outside_step :
    (i k buffer : ℕ) {c d : Consumer} {m n : Option ℕ}
    → ConsumerStep i buffer c m d n
    → m ≡ some k
    → holds c ≡ false
    → (n ≡ m) × (holds d ≡ false)
outside_step i k buffer lock e h = absurd cc
outside_step i k buffer wait e h = absurd cc
outside_step i k buffer wake_up e h = (refl, refl)
outside_step i k buffer relock e h = absurd cc
outside_step i k buffer (leave b) e h = absurd cc
outside_step i k buffer (add b) e h = absurd cc
outside_step i k buffer unlock e h = absurd cc

-- What a consumer's own step leaves: it holds the mutex and the mutex names it, or nobody does.
abbrev Settled : ℕ → Consumer → Option ℕ → Type 0
Settled i d none = holds d ≡ false
Settled i d (some k) = (k ≡ i) × (holds d ≡ true)

inside_step :
    (i buffer : ℕ) {c d : Consumer} {m n : Option ℕ}
    → ConsumerStep i buffer c m d n
    → m ≡ some i
    → holds c ≡ true
    → Settled i d n
inside_step i buffer lock e h = absurd cc
inside_step i buffer wait e h = refl
inside_step i buffer wake_up e h = absurd cc
inside_step i buffer relock e h = absurd cc
inside_step i buffer (leave {sum = sum} b) e h =
    subst (Settled i (finished sum)) (sym e) (refl, refl)
inside_step i buffer (add {sum = sum} b) e h =
    subst (Settled i (unlocking (add_digit sum buffer))) (sym e) (refl, refl)
inside_step i buffer unlock e h = refl

free_step :
    (i buffer : ℕ) {c d : Consumer} {m n : Option ℕ}
    → ConsumerStep i buffer c m d n
    → m ≡ none
    → holds c ≡ false
    → Settled i d n
free_step i buffer lock e h = (refl, refl)
free_step i buffer wait e h = absurd cc
free_step i buffer (wake_up {sum = sum}) e h = subst (Settled i (woken sum)) (sym e) refl
free_step i buffer relock e h = (refl, refl)
free_step i buffer (leave b) e h = absurd cc
free_step i buffer (add b) e h = absurd cc
free_step i buffer unlock e h = absurd cc

-- The consumer that moved is the one that held the mutex, or nobody held it.
Settled-Held :
    (cs : ℕ → Consumer) (i : ℕ) (d : Consumer) (n : Option ℕ)
    → OthersOutside holds cs i
    → Settled i d n
    → Held (update i d cs) n
Settled-Held cs i d none h s = update-AllOutside holds i d cs s h
Settled-Held cs i d (some k) h s =
    subst (λ x. Held (update i d cs) (some x)) (sym (s.0))
      (ap holds (update_same i d cs) ∙ s.1, update-OthersOutside holds i d cs h)

other-Held :
    (cs : ℕ → Consumer) (i k : ℕ) (d : Consumer)
    → i ≢ k
    → Held cs (some k)
    → holds d ≡ false
    → Held (update i d cs) (some k)
other-Held cs i k d n h o =
    (ap holds (update_other i d cs k n) ∙ h.0, λ j l. update_outside holds i d cs o j (h.1 j l))

pub ConsumerStep-Held :
    (cs : ℕ → Consumer) (i buffer : ℕ) (d : Consumer) (m n : Option ℕ)
    → ConsumerStep i buffer (cs i) m d n
    → Held cs m
    → Held (update i d cs) n
ConsumerStep-Held cs i buffer d none n st h =
    Settled-Held cs i d n (λ j l. h j) (free_step i buffer st refl (h i))
ConsumerStep-Held cs i buffer d (some k) n st h = elim (Bool-cases (i == k)) [
  | inl e ↦
      let same = (==_iff i k).0 e in
      Settled-Held cs i d n (λ j l. h.1 j (λ x. l (x ∙ sym same)))
        (inside_step i buffer st (ap some (sym same)) (ap (λ x. holds (cs x)) same ∙ h.0))
  | inr e ↦
      let differs : i ≢ k = λ x. true_not_false ((==_iff i k).1 x) e in
      let (kept, o) = outside_step i k buffer st refl (h.1 i differs) in
      subst (Held (update i d cs)) (sym kept) (other-Held cs i k d differs h o)
]
