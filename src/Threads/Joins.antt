-- ===== src/Threads/Joins.antt =====
-- How far the producer of quiz_2/1.c comes with its joins.
use sp_hw.Base.{
  ℕ, zero, suc, ◌<◌, ◌≤◌, ◌≡◌, ◌≢◌, refl, sym, ap, ◌∙◌, subst, true, Option, none, some, update,
  update_other, true_not_false, ◌==◌, ==_iff, Bool-cases, inl, inr, arith,
}
use sp_hw.Threads.{
  Consumer, finished, Producer, producing, broadcasting, joining, joined_all, State, state,
  ConsumerStep, lock, wait, wake_up, relock, leave, add, unlock, ProducerStep, produce, broadcast,
  terminate, join, end_joins, Step, by_consumer, by_producer, Reach, here, next, initial,
}
use sp_hw.Threads.Mutex.{holds, Held, awaken-Held, ConsumerStep-Held}

abbrev pub consumer_of : State → ℕ → Consumer
consumer_of (state cs p m buffer) = cs

abbrev pub producer_of : State → Producer
producer_of (state cs p m buffer) = p

abbrev pub mutex_of : State → Option ℕ
mutex_of (state cs p m buffer) = m

abbrev pub IsFinished : Consumer → Type 0
IsFinished c = (sum : ℕ) × (c ≡ finished sum)

-- The consumers that have been joined are through.
abbrev Joined : ℕ → (ℕ → Consumer) → Producer → Type 0
Joined count cs (joining k) = (j : ℕ) → j < k → IsFinished (cs j)
Joined count cs joined_all = (j : ℕ) → j < count → IsFinished (cs j)
Joined count cs _ = Unit

-- The mutex and the joins are in order.
record IsOrderly (count : ℕ) (cs : ℕ → Consumer) (p : Producer) (m : Option ℕ) : Type 0 where
  held : Held cs m
  joined : Joined count cs p

abbrev Inv : ℕ → State → Type 0
Inv count (state cs p m buffer) = IsOrderly count cs p m

-- A consumer that is through takes no step.
finished-ConsumerStep :
    (i buffer sum : ℕ) {c d : Consumer} {m n : Option ℕ}
    → ConsumerStep i buffer c m d n
    → c ≡ finished sum
    → ⊥
finished-ConsumerStep i buffer sum lock e = cc
finished-ConsumerStep i buffer sum wait e = cc
finished-ConsumerStep i buffer sum wake_up e = cc
finished-ConsumerStep i buffer sum relock e = cc
finished-ConsumerStep i buffer sum (leave b) e = cc
finished-ConsumerStep i buffer sum (add b) e = cc
finished-ConsumerStep i buffer sum unlock e = cc

IsFinished-kept :
    (cs : ℕ → Consumer) (i j buffer : ℕ) (d : Consumer) (m n : Option ℕ)
    → ConsumerStep i buffer (cs i) m d n
    → IsFinished (cs j)
    → IsFinished (update i d cs j)
IsFinished-kept cs i j buffer d m n st (sum, e) = elim (Bool-cases (i == j)) [
  | inl same ↦ absurd (finished-ConsumerStep i buffer sum st (ap cs ((==_iff i j).0 same) ∙ e))
  | inr apart ↦ (sum, update_other i d cs j (λ x. true_not_false ((==_iff i j).1 x) apart) ∙ e)
]

joined_kept :
    (count : ℕ) (cs ds : ℕ → Consumer) (p : Producer)
    → ((j : ℕ) → IsFinished (cs j) → IsFinished (ds j))
    → Joined count cs p
    → Joined count ds p
joined_kept count cs ds (joining k) f h = λ j l. f j (h j l)
joined_kept count cs ds joined_all f h = λ j l. f j (h j l)
joined_kept count cs ds (producing k) f h = tt
joined_kept count cs ds (broadcasting k) f h = tt

-- One more consumer is joined.
joined_next :
    (cs : ℕ → Consumer) (i sum : ℕ)
    → cs i ≡ finished sum
    → ((j : ℕ) → j < i → IsFinished (cs j))
    → (j : ℕ) → j < suc i
    → IsFinished (cs j)
joined_next cs i sum e h j l = elim (Bool-cases (j == i)) [
  | inl same ↦ (sum, ap cs ((==_iff j i).0 same) ∙ e)
  | inr apart ↦ h j (ground (arith, apart))
]

ProducerStep-Inv : (count : ℕ) {s t : State} → ProducerStep count s t → Inv count s → Inv count t
ProducerStep-Inv count (produce d) h = record { held = h.held; joined = tt }
ProducerStep-Inv count (broadcast {cs = cs} {m = m}) h = record {
  held = awaken-Held cs m h.held;
  joined = tt;
}
ProducerStep-Inv count terminate h = record { held = h.held; joined = λ j l. absurd (omega arith) }
ProducerStep-Inv count (join {cs = cs} {i = i} {sum = sum} l e) h = record {
  held = h.held;
  joined = joined_next cs i sum e h.joined;
}
ProducerStep-Inv count (end_joins b) h = record {
  held = h.held;
  joined = λ j l. h.joined j (omega (arith, b));
}

Step-Inv : (count : ℕ) {s t : State} → Step count s t → Inv count s → Inv count t
Step-Inv count (by_consumer {cs = cs} {p = p} {m = m} {n = n} {buffer = buffer} {c = c} i l st) h =
    record {
      held = ConsumerStep-Held cs i buffer c m n st h.held;
      joined =
          joined_kept count cs (update i c cs) p (λ j f. IsFinished-kept cs i j buffer c m n st f)
            h.joined;
    }
Step-Inv count (by_producer st) h = ProducerStep-Inv count st h

Reach-Inv : (count left : ℕ) {t : State} → Reach count (initial left) t → Inv count t
Reach-Inv count left here = record { held = λ j. refl; joined = tt }
Reach-Inv count left (next r st) = Step-Inv count st (Reach-Inv count left r)

Held-holder :
    (cs : ℕ → Consumer) (m : Option ℕ) (i : ℕ) → Held cs m → holds (cs i) ≡ true → m ≡ some i
Held-holder cs none i h e = absurd (true_not_false e (h i))
Held-holder cs (some k) i h e = elim (Bool-cases (i == k)) [
  | inl same ↦ ap some (sym ((==_iff i k).0 same))
  | inr apart ↦ absurd (true_not_false e (h.1 i (λ x. true_not_false ((==_iff i k).1 x) apart)))
]

-- A consumer that has left its loop keeps the mutex for good: in every state that is reached, it is
-- the holder.
pub Reach-mutex_of :
    (count left : ℕ) (t : State) (i : ℕ)
    → Reach count (initial left) t
    → IsFinished (consumer_of t i)
    → mutex_of t ≡ some i
Reach-mutex_of count left (state cs p m buffer) i r (sum, e) =
    Held-holder cs m i (Reach-Inv count left r).held (ap holds e)

same_holder : {m : Option ℕ} {i j : ℕ} → m ≡ some i → m ≡ some j → i ≡ j
same_holder e f = cc

two_finished :
    (count left : ℕ) (t : State)
    → Reach count (initial left) t
    → IsFinished (consumer_of t 0)
    → IsFinished (consumer_of t 1)
    → ⊥
two_finished count left t r f g =
    let e : ◌≡◌ {A = ℕ} 0 1 =
      same_holder (Reach-mutex_of count left t 0 r f) (Reach-mutex_of count left t 1 r g) in
    absurd (omega (arith, e))

at_most_one : (k : ℕ) → (2 ≤ k → ⊥) → k ≤ 1
at_most_one zero h = omega arith
at_most_one (suc zero) h = omega arith
at_most_one (suc (suc k)) h = absurd (h (omega arith))

-- The producer never joins more than one consumer, however many there are and however the threads
-- are scheduled.
pub Reach-joining :
    (count left : ℕ) (t : State) (k : ℕ)
    → Reach count (initial left) t
    → producer_of t ≡ joining k
    → k ≤ 1
Reach-joining count left (state cs p m buffer) k r e = at_most_one k (λ two.
    let done = subst (Joined count cs) e (Reach-Inv count left r).joined in
    two_finished count left (state cs p m buffer) r (done 0 (omega arith)) (done 1 (omega arith)))

-- With two consumers or more the program does not end: the producer never gets behind its joins.
pub Reach-joined_all :
    (count left : ℕ) (t : State)
    → Reach count (initial left) t
    → 2 ≤ count
    → producer_of t ≢ joined_all
Reach-joined_all count left (state cs p m buffer) r two e =
    let done = subst (Joined count cs) e (Reach-Inv count left r).joined in
    two_finished count left (state cs p m buffer) r (done 0 (omega arith)) (done 1 (omega arith))
