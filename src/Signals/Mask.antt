-- ===== src/Signals/Mask.antt =====
-- What the calls of 22-4.c do to the mask of blocked signals.
use sp_hw.Base.{ℕ, ◌≡◌, refl, ap, ◌∙◌, Bool, true, false, some, ◌==◌, if◌then◌else◌}
use sp_hw.Signals.{Answer, attempt, with_signal, my_sighold, my_sigrelse}
use sp_hw.Signals.Calls.{Kernel, IsDocumented}

-- One signal is blocked or not, the others are as before, and so are all handlers.
pub record IsMasked {S M : Type 0} (k : Kernel S M) (blocked : ℕ → S → Bool) (catchable : ℕ → Bool)
    (sig : ℕ) (bit : Bool) (s t : S) : Type 0 where
  pub bits : (n : ℕ) → catchable n ≡ true → blocked n t ≡ (if n == sig then bit else blocked n s)
  pub handlers : (n : ℕ) → k.get_action n t ≡ k.get_action n s

if_true_or : (x y : Bool) → y ≡ false → (if x then true else y) ≡ x
if_true_or true y h = refl
if_true_or false y h = h

module _ {S M : Type 0} (k : Kernel S M) (member : ℕ → M → Bool) (blocked : ℕ → S → Bool)
    (catchable : ℕ → Bool) (d : IsDocumented k member blocked catchable) where
  -- The mask with one signal.
  pub single :
      {B : Type 0} (sig : ℕ) (s : S) (go_on : M → Answer S B)
      → catchable sig ≡ true
      → (m : M) × (with_signal k sig s go_on ≡ go_on m) × ((n : ℕ) → member n m ≡ (n == sig))
  unfolding with_signal attempt
  single sig s go_on c =
      let empty = d.empty_law in
      let added = d.add_law sig (empty.0) c in
      (
        added.0,
        rw (empty.1, added.1),
        λ n. added.2 n ∙ if_true_or (n == sig) (member n (empty.0)) (empty.2 n),
      )

  pub block_single :
      (sig : ℕ) (m : M) (s : S)
      → ((n : ℕ) → member n m ≡ (n == sig))
      → (t : S) × (k.block m s ≡ some t) × IsMasked k blocked catchable sig true s t
  block_single sig m s h =
      let (t, e, b, a) = d.block_law m s in
      (
        t,
        e,
        record {
          bits = λ n c. b n c ∙ ap (λ x. if x then true else blocked n s) (h n);
          handlers = a;
        },
      )

  pub unblock_single :
      (sig : ℕ) (m : M) (s : S)
      → ((n : ℕ) → member n m ≡ (n == sig))
      → (t : S) × (k.unblock m s ≡ some t) × IsMasked k blocked catchable sig false s t
  unblock_single sig m s h =
      let (t, e, b, a) = d.unblock_law m s in
      (
        t,
        e,
        record {
          bits = λ n c. b n ∙ ap (λ x. if x then false else blocked n s) (h n);
          handlers = a;
        },
      )

  -- For a signal that can be caught, sighold returns 0, blocks it and changes nothing else.
  pub my_sighold-IsMasked :
      (sig : ℕ) (s : S)
      → catchable sig ≡ true
      → (t : S) × (my_sighold k sig s ≡ (t, some 0)) × IsMasked k blocked catchable sig true s t
  unfolding my_sighold attempt
  my_sighold-IsMasked sig s c =
      let (m, e, h) = single sig s (λ mask. attempt s (k.block mask s) (λ t. (t, some 0))) c in
      let (t, b, i) = block_single sig m s h in (t, e ∙ rw b, i)

  -- For a signal that can be caught, sigrelse returns 0, unblocks it and changes nothing else.
  pub my_sigrelse-IsMasked :
      (sig : ℕ) (s : S)
      → catchable sig ≡ true
      → (t : S) × (my_sigrelse k sig s ≡ (t, some 0)) × IsMasked k blocked catchable sig false s t
  unfolding my_sigrelse attempt
  my_sigrelse-IsMasked sig s c =
      let (m, e, h) = single sig s (λ mask. attempt s (k.unblock mask s) (λ t. (t, some 0))) c in
      let (t, b, i) = unblock_single sig m s h in (t, e ∙ rw b, i)

  -- For a signal that can be caught, sighold and sigrelse return 0; the first blocks the signal, the
  -- second unblocks it, and nothing else changes.
  pub my_sighold-my_sigrelse :
      (sig : ℕ) (s : S)
      → catchable sig ≡ true
      → ((t : S) × (my_sighold k sig s ≡ (t, some 0)) × IsMasked k blocked catchable sig true s t)
        × ((t : S) × (my_sigrelse k sig s ≡ (t, some 0))
            × IsMasked k blocked catchable sig false s t)
  my_sighold-my_sigrelse sig s c = (my_sighold-IsMasked sig s c, my_sigrelse-IsMasked sig s c)
