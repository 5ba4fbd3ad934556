-- ===== src/Exchange/Turns.antt =====
-- Which states of the clients and the server of SP_HW12 can occur together.
use sp_hw.Base.{ℕ, ◌≡◌, ◌⊎◌, inl, inr, refl, ap, Bool, true, false, Option, Bytes, arith}
use sp_hw.Exchange.{
  Client, copying, alerting, awaiting, releasing, sleeping, looking, notifying, Shared, shared,
  text_for, ClientStep, begin, begin_again, grab, copy_word, alert, await, release, compare_text,
  ServerStep, wake, look, notify,
}

-- Between the grab and the release a client holds the record.
abbrev pub holds : Client → Bool
holds (copying w) = true
holds (alerting w) = true
holds (awaiting w) = true
holds (releasing w) = true
holds _ = false

-- What is shared while nobody holds the record.
abbrev pub FreeShared : Shared → Type 0
FreeShared (shared sleeping m a r) = (m ≡ 1) × (a ≡ 0)
FreeShared _ = ⊥

-- The mutex is taken and semaphore 1 has a value.
pub record IsTaken (m a n : ℕ) (P : Type 0) : Type 0 where
  pub mutex : m ≡ 0
  pub alarm : a ≡ n
  pub content : P

-- What is shared while a client that stands there holds the record.
abbrev pub Phase : (Bytes → Option Bytes) → Client → Shared → Type 0
Phase find (copying w) (shared sleeping m a r) = IsTaken m a 0 Unit
Phase find (alerting w) (shared sleeping m a r) = IsTaken m a 0 (r.word ≡ w)
Phase find (awaiting w) (shared sleeping m a r) =
    IsTaken m a 2 (r.word ≡ w) ⊎ IsTaken m a 0 (r.text ≡ text_for (find w))
Phase find (awaiting w) (shared looking m a r) = IsTaken m a 1 (r.word ≡ w)
Phase find (awaiting w) (shared notifying m a r) = IsTaken m a 1 (r.text ≡ text_for (find w))
Phase find (releasing w) (shared sleeping m a r) = IsTaken m a 0 (r.text ≡ text_for (find w))
Phase find _ _ = ⊥

pub ServerStep-FreeShared :
    (find : Bytes → Option Bytes) {v w : Shared} → ServerStep find v w → FreeShared v → ⊥
ServerStep-FreeShared find wake f = omega (arith, f.1)
ServerStep-FreeShared find look f = f
ServerStep-FreeShared find notify f = f

pub ServerStep-Phase :
    (find : Bytes → Option Bytes) (c : Client) {v w : Shared}
    → ServerStep find v w
    → Phase find c v
    → Phase find c w
ServerStep-Phase find (awaiting w) wake (inl p) = record {
  mutex = p.mutex;
  alarm = omega (arith, p.alarm);
  content = p.content;
}
ServerStep-Phase find (awaiting w) wake (inr p) = absurd (omega (arith, p.alarm))
ServerStep-Phase find (awaiting w) look p = record {
  mutex = p.mutex;
  alarm = p.alarm;
  content = ap (λ x. text_for (find x)) (p.content);
}
ServerStep-Phase find (awaiting w) notify p =
    inr (record { mutex = p.mutex; alarm = omega (arith, p.alarm); content = p.content })
ServerStep-Phase find (copying w) wake p = absurd (omega (arith, p.alarm))
ServerStep-Phase find (alerting w) wake p = absurd (omega (arith, p.alarm))
ServerStep-Phase find (releasing w) wake p = absurd (omega (arith, p.alarm))
ServerStep-Phase find _ _ p = absurd p

abbrev pub mutex_of : Shared → ℕ
mutex_of (shared p m a r) = m

-- A client that does not hold the record, while another does.
pub outside_step :
    {c d : Client} {v w : Shared}
    → ClientStep c v d w
    → holds c ≡ false
    → mutex_of v ≡ 0
    → (holds d ≡ false) × (w ≡ v)
outside_step begin h z = (refl, refl)
outside_step begin_again h z = (refl, refl)
outside_step grab h z = absurd (omega (arith, z))
outside_step compare_text h z = (refl, refl)
outside_step _ h z = absurd cc

-- A client that holds the record.
pub inside_step :
    (find : Bytes → Option Bytes) {c d : Client} {v w : Shared}
    → ClientStep c v d w
    → Phase find c v
    → Phase find d w ⊎ ((holds d ≡ false) × FreeShared w)
inside_step find (copy_word {p = sleeping}) p =
    inl (record { mutex = p.mutex; alarm = p.alarm; content = refl })
inside_step find (alert {p = sleeping}) p =
    inl (inl (record { mutex = p.mutex; alarm = omega (arith, p.alarm); content = p.content }))
inside_step find (await {p = sleeping}) (inl p) = absurd (omega (arith, p.alarm))
inside_step find (await {p = sleeping}) (inr p) = inl p
inside_step find (await {p = looking}) p = absurd (omega (arith, p.alarm))
inside_step find (await {p = notifying}) p = absurd (omega (arith, p.alarm))
inside_step find (release {p = sleeping}) p = inr (refl, (omega (arith, p.mutex), p.alarm))
inside_step find _ p = absurd p

-- A client, while nobody holds the record.
pub free_step :
    (find : Bytes → Option Bytes) {c d : Client} {v w : Shared}
    → ClientStep c v d w
    → holds c ≡ false
    → FreeShared v
    → Phase find d w ⊎ ((holds d ≡ false) × FreeShared w)
free_step find begin h f = inr (refl, f)
free_step find begin_again h f = inr (refl, f)
free_step find (grab {p = sleeping}) h f =
    inl (record { mutex = omega (arith, f.0); alarm = f.1; content = tt })
free_step find (grab {p = looking}) h f = absurd f
free_step find (grab {p = notifying}) h f = absurd f
free_step find compare_text h f = inr (refl, f)
free_step find _ h f = absurd cc

pub Phase-mutex :
    (find : Bytes → Option Bytes) (c : Client) (v : Shared) → Phase find c v → mutex_of v ≡ 0
Phase-mutex find (copying w) (shared sleeping m a r) p = p.mutex
Phase-mutex find (alerting w) (shared sleeping m a r) p = p.mutex
Phase-mutex find (awaiting w) (shared sleeping m a r) (inl p) = p.mutex
Phase-mutex find (awaiting w) (shared sleeping m a r) (inr p) = p.mutex
Phase-mutex find (awaiting w) (shared looking m a r) p = p.mutex
Phase-mutex find (awaiting w) (shared notifying m a r) p = p.mutex
Phase-mutex find (releasing w) (shared sleeping m a r) p = p.mutex
Phase-mutex find _ _ p = absurd p
