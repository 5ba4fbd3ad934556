-- ===== src/Exchange/Holder.antt =====
-- At most one client of SP_HW12 holds the record, and the server serves that one.
use sp_hw.Base.{
  ap, ◌+◌, update, update_same, update_other, update-OthersOutside, update-AllOutside,
  update_outside, OthersOutside, AllOutside, true_not_false, ℕ, ◌≡◌, ◌≢◌, ◌⊎◌, inl, inr, refl, sym,
  ◌∙◌, subst, false, Option, ◌==◌, ==_iff, Bool-cases, Bytes,
}
use sp_hw.Dict.Record.{Dictrec}
use sp_hw.Exchange.{
  Client, Shared, State, state, ClientStep, Step, by_client, leave, by_server, Reach, here, next,
  initial, gone, is_gone, client_of, adds, begin, begin_again, grab, copy_word, alert, await,
  release, compare_text,
}
use sp_hw.Exchange.Turns.{
  holds, FreeShared, Phase, ServerStep-FreeShared, ServerStep-Phase, outside_step, inside_step,
  free_step, Phase-mutex,
}

-- Client i holds the record, and no other.
pub record IsHeld (find : Bytes → Option Bytes) (clients : ℕ → Client) (v : Shared) (i : ℕ)
    : Type 0 where
  pub phase : Phase find (clients i) v
  pub others : OthersOutside holds clients i

pub record IsFree (clients : ℕ → Client) (v : Shared) : Type 0 where
  pub all_outside : AllOutside holds clients
  pub at_rest : FreeShared v

-- The states that occur.
abbrev pub Inv : (Bytes → Option Bytes) → State → Type 0
Inv find (state clients added v) = IsFree clients v ⊎ ((i : ℕ) × IsHeld find clients v i)

-- The client that moved comes to hold the record, or nobody does.
moved-Inv :
    (find : Bytes → Option Bytes) (clients : ℕ → Client) (added : ℕ → ℕ) (i : ℕ) (c : Client)
    (w : Shared)
    → OthersOutside holds clients i
    → Phase find c w ⊎ ((holds c ≡ false) × FreeShared w)
    → Inv find (state (update i c clients) added w)
moved-Inv find clients added i c w h (inl p) = inr (
  i,
  record {
    phase = subst (λ x. Phase find x w) (sym (update_same i c clients)) p;
    others = update-OthersOutside holds i c clients h;
  },
)
moved-Inv find clients added i c w h (inr f) =
    inl (record { all_outside = update-AllOutside holds i c clients (f.0) h; at_rest = f.1 })

-- Another client than the one that holds the record moved.
other-Inv :
    (find : Bytes → Option Bytes) (clients : ℕ → Client) (added : ℕ → ℕ) (i k : ℕ) (c : Client)
    (v : Shared)
    → IsHeld find clients v k
    → i ≢ k
    → holds c ≡ false
    → Inv find (state (update i c clients) added v)
other-Inv find clients added i k c v h n o = inr (
  k,
  record {
    phase = subst (λ x. Phase find x v) (sym (update_other i c clients k n)) (h.phase);
    others = λ j l. update_outside holds i c clients o j (h.others j l);
  },
)

ClientStep-Inv :
    (find : Bytes → Option Bytes) (clients : ℕ → Client) (old added : ℕ → ℕ) (i : ℕ) (c : Client)
    (v w : Shared)
    → ClientStep (clients i) v c w
    → Inv find (state clients old v)
    → Inv find (state (update i c clients) added w)
ClientStep-Inv find clients old added i c v w st (inl f) =
    moved-Inv find clients added i c w (λ j l. f.all_outside j)
      (free_step find st (f.all_outside i) (f.at_rest))
ClientStep-Inv find clients old added i c v w st (inr (k, h)) = elim (Bool-cases (i == k)) [
  | inl e ↦
      let same = (==_iff i k).0 e in
      moved-Inv find clients added i c w (λ j l. h.others j (λ x. l (x ∙ sym same)))
        (inside_step find st (subst (λ x. Phase find (clients x) v) (sym same) (h.phase)))
  | inr e ↦
      let differs : i ≢ k = λ x. true_not_false ((==_iff i k).1 x) e in
      let (o, kept) =
        outside_step st (h.others i differs) (Phase-mutex find (clients k) v (h.phase)) in
      subst (λ x. Inv find (state (update i c clients) added x)) (sym kept)
        (other-Inv find clients added i k c v h differs o)
]

-- No client has ended.
abbrev pub NoneGone : State → Type 0
NoneGone t = (j : ℕ) → is_gone (client_of t j) ≡ false

-- A client that takes a step has not ended.
not_gone : {c d : Client} {v w : Shared} → ClientStep c v d w → is_gone c ≡ false
not_gone begin = refl
not_gone begin_again = refl
not_gone grab = refl
not_gone copy_word = refl
not_gone alert = refl
not_gone await = refl
not_gone release = refl
not_gone compare_text = refl

-- Where none has ended now, none had before.
Step-NoneGone :
    (find : Bytes → Option Bytes) {s t : State} → Step find s t → NoneGone t → NoneGone s
Step-NoneGone find (by_client {clients = clients} {c = c} i st) h j = elim (Bool-cases (j == i)) [
  | inl e ↦ ap (λ k. is_gone (clients k)) ((==_iff j i).0 e) ∙ not_gone st
  | inr e ↦
      sym (ap is_gone (update_other i c clients j (λ x. true_not_false ((==_iff j i).1 (sym x)) e)))
      ∙ h j
]
Step-NoneGone find (leave {clients = clients} i e) h j =
    absurd (true_not_false (ap is_gone (update_same i gone clients)) (h i))
Step-NoneGone find (by_server st) h j = h j

Step-Inv :
    (find : Bytes → Option Bytes) {s t : State}
    → Step find s t
    → NoneGone t
    → Inv find s
    → Inv find t
Step-Inv find (by_client {clients = clients} {added = added} {v = v} {w = w} {c = c} i st) n h =
    ClientStep-Inv find clients added (update i (added i + adds (clients i)) added) i c v w st h
Step-Inv find (leave {clients = clients} i e) n h =
    absurd (true_not_false (ap is_gone (update_same i gone clients)) (n i))
Step-Inv find (by_server st) n (inl f) = absurd (ServerStep-FreeShared find st (f.at_rest))
Step-Inv find (by_server {clients = clients} st) n (inr (i, h)) =
    inr (i, record { phase = ServerStep-Phase find (clients i) st (h.phase); others = h.others })

pub Reach-Inv :
    (find : Bytes → Option Bytes) (r : Dictrec) {t : State}
    → Reach find (initial r) t
    → NoneGone t
    → Inv find t
Reach-Inv find r here n = inl (record { all_outside = λ j. refl; at_rest = (refl, refl) })
Reach-Inv find r (next run st) n =
    Step-Inv find st n (Reach-Inv find r run (Step-NoneGone find st n))
