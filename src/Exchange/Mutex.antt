-- ===== src/Exchange/Mutex.antt =====
-- Semaphore 0 of SP_HW12, whatever becomes of semaphore 1.
use sp_hw.Base.{
  update, update_same, update_other, update-OthersOutside, update-AllOutside, update_outside,
  OthersOutside, AllOutside, true_not_false, ℕ, suc, ◌≡◌, inl, inr, refl, sym, ap, ◌∙◌, subst, true,
  false, Option, ◌==◌, ==_iff, Bool-cases, Bytes, arith,
}
use sp_hw.Dict.Record.{Dictrec}
use sp_hw.Exchange.{
  Client, idle, gone, returned, Shared, shared, State, state, ClientStep, begin, begin_again, grab,
  copy_word, alert, await, release, compare_text, ServerStep, wake, look, notify, Step, by_client,
  leave, by_server, Reach, here, next, initial, may_end, undo,
}
use sp_hw.Exchange.Turns.{holds, mutex_of}

-- Nobody has the mutex, or one client.
pub data Mutex (clients : ℕ → Client) (m : ℕ) : Type 0 where
  nobody : AllOutside holds clients → m ≡ 1 → Mutex clients m
  one : (j : ℕ) → holds (clients j) ≡ true → OthersOutside holds clients j → m ≡ 0 → Mutex clients m

abbrev pub MutexInv : State → Type 0
MutexInv (state clients added v) = Mutex clients (mutex_of v)

stays_out :
    {clients : ℕ → Client} {m : ℕ} (i : ℕ) (c : Client)
    → holds (clients i) ≡ false
    → holds c ≡ false
    → Mutex clients m
    → Mutex (update i c clients) m
stays_out {clients = clients} i c o d (nobody h e) =
    nobody (λ k. update_outside holds i c clients d k (h k)) e
stays_out {clients = clients} i c o d (one j h others e) =
    one j
      (ap holds (
          update_other i c clients j
            (λ x. true_not_false h (ap (λ k. holds (clients k)) (sym x) ∙ o)))
        ∙ h)
      (λ k n. update_outside holds i c clients d k (others k n)) e

pub others_of :
    {clients : ℕ → Client} {m : ℕ} (i : ℕ)
    → holds (clients i) ≡ true
    → Mutex clients m
    → OthersOutside holds clients i × (m ≡ 0)
others_of i h (nobody out e) = absurd (true_not_false h (out i))
others_of {clients = clients} i h (one j k others e) = elim (Bool-cases (i == j)) [
  | inl y ↦ (subst (OthersOutside holds clients) (sym ((==_iff i j).0 y)) others, e)
  | inr n ↦ absurd (true_not_false h (others i (λ x. true_not_false ((==_iff i j).1 x) n)))
]

stays_in :
    {clients : ℕ → Client} {m : ℕ} (i : ℕ) (c : Client)
    → holds (clients i) ≡ true
    → holds c ≡ true
    → Mutex clients m
    → Mutex (update i c clients) m
stays_in {clients = clients} i c h d x =
    let (others, e) = others_of i h x in
    one i (ap holds (update_same i c clients) ∙ d) (update-OthersOutside holds i c clients others) e

takes :
    {clients : ℕ → Client} {m : ℕ} (i : ℕ) (c : Client)
    → holds c ≡ true
    → Mutex clients (suc m)
    → Mutex (update i c clients) m
takes {clients = clients} i c d (nobody h e) =
    one i (ap holds (update_same i c clients) ∙ d)
      (update-OthersOutside holds i c clients (λ k n. h k)) (omega (arith, e))
takes i c d (one j h others e) = absurd (omega (arith, e))

gives :
    {clients : ℕ → Client} {m : ℕ} (i : ℕ) (c : Client)
    → holds (clients i) ≡ true
    → holds c ≡ false
    → Mutex clients m
    → Mutex (update i c clients) (suc m)
gives {clients = clients} i c h d x =
    let (others, e) = others_of i h x in
    nobody (update-AllOutside holds i c clients d others) (omega (arith, e))

ClientStep-Mutex :
    (clients : ℕ → Client) (i : ℕ) {b c : Client} {v w : Shared}
    → ClientStep b v c w
    → clients i ≡ b
    → Mutex clients (mutex_of v)
    → Mutex (update i c clients) (mutex_of w)
ClientStep-Mutex clients i (begin {word = word}) e h = stays_out i _ (ap holds e) refl h
ClientStep-Mutex clients i begin_again e h = stays_out i _ (ap holds e) refl h
ClientStep-Mutex clients i grab e h = takes i _ refl h
ClientStep-Mutex clients i copy_word e h = stays_in i _ (ap holds e) refl h
ClientStep-Mutex clients i alert e h = stays_in i _ (ap holds e) refl h
ClientStep-Mutex clients i await e h = stays_in i _ (ap holds e) refl h
ClientStep-Mutex clients i release e h = gives i _ (ap holds e) refl h
ClientStep-Mutex clients i compare_text e h = stays_out i _ (ap holds e) refl h

ServerStep-mutex_of :
    (find : Bytes → Option Bytes) {v w : Shared} → ServerStep find v w → mutex_of v ≡ mutex_of w
ServerStep-mutex_of find wake = refl
ServerStep-mutex_of find look = refl
ServerStep-mutex_of find notify = refl

may_end-holds : (c : Client) → may_end c ≡ true → holds c ≡ false
may_end-holds idle e = refl
may_end-holds (returned word result) e = refl
may_end-holds _ e = absurd (cc e)

undo-mutex_of : (n : ℕ) (v : Shared) → mutex_of v ≡ mutex_of (undo n v)
undo-mutex_of n (shared p m a r) = refl

Step-MutexInv :
    (find : Bytes → Option Bytes) {s t : State} → Step find s t → MutexInv s → MutexInv t
Step-MutexInv find (by_client {clients = clients} i st) h = ClientStep-Mutex clients i st refl h
Step-MutexInv find (leave {clients = clients} {added = added} {v = v} i e) h =
    subst (Mutex (update i gone clients)) (undo-mutex_of (added i) v)
      (stays_out i gone (may_end-holds (clients i) e) refl h)
Step-MutexInv find (by_server {clients = clients} st) h =
    subst (Mutex clients) (ServerStep-mutex_of find st) h

pub Reach-MutexInv :
    (find : Bytes → Option Bytes) (r : Dictrec) {t : State} → Reach find (initial r) t → MutexInv t
Reach-MutexInv find r here = nobody (λ j. refl) refl
Reach-MutexInv find r (next run st) = Step-MutexInv find st (Reach-MutexInv find r run)
