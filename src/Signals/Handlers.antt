-- ===== src/Signals/Handlers.antt =====
-- What the calls of 22-4.c do to the handlers.
use sp_hw.Base.{
  ℕ, zero, suc, ◌≡◌, ◌≢◌, refl, sym, ap, ◌∙◌, Bool, true, false, Option, some, none, ◌==◌,
  if◌then◌else◌, arith,
}
use sp_hw.Signals.{
  Answer, attempt, sig_dfl, sig_ign, my_sigignore, my_sigpause, set_hold, set_handler, my_sigset,
}
use sp_hw.Signals.Calls.{Kernel, IsDocumented}
use sp_hw.Signals.Mask.{IsMasked, single, block_single, unblock_single}

-- One signal has a new handler and is blocked or not; the other handlers are as before, and so are
-- the other signals that can be caught.
pub record IsInstalled {S M : Type 0} (k : Kernel S M) (blocked : ℕ → S → Bool)
    (catchable : ℕ → Bool) (sig handler : ℕ) (bit : Bool) (s t : S) : Type 0 where
  pub bits : (n : ℕ) → catchable n ≡ true → blocked n t ≡ (if n == sig then bit else blocked n s)
  pub handlers : (n : ℕ) → k.get_action n t ≡ (if n == sig then some handler else k.get_action n s)

both_tests :
    {A : Type 0} (b : Bool) (x y z : A) → y ≡ z → (if b then x else y) ≡ (if b then x else z)
both_tests b x y z h = ap (λ u. if b then x else u) h

attempt-some :
    {S A B : Type 0} (s : S) {o : Option A} {a : A}
    → o ≡ some a
    → (go_on : A → Answer S B) → attempt s o go_on ≡ go_on a
unfolding attempt
attempt-some s e go_on = rw e

same_branch :
    {A : Type 0} (x : A) (f : ℕ → A) (n : ℕ)
    → n ≢ 0
    → (if n == 0
        then x
        else if n == sig_ign
        then f sig_ign
        else if n == sig_dfl
        then f sig_dfl
        else f n)
      ≡ f n
same_branch x f zero h = absurd (h refl)
same_branch x f (suc zero) h = refl
same_branch x f (suc (suc n)) h = ground arith

module _ {S M : Type 0} (k : Kernel S M) (member : ℕ → M → Bool) (blocked : ℕ → S → Bool)
    (catchable : ℕ → Bool) (d : IsDocumented k member blocked catchable) where
  -- The branches of sigset but the first are one.
  my_sigset-set_handler :
      (sig handler : ℕ) (s : S)
      → handler ≢ 0
      → my_sigset k sig handler s ≡ set_handler k sig handler s
  unfolding my_sigset attempt
  my_sigset-set_handler sig handler s h =
      let (m, e, l) = d.current_law s in
      rw e (same_branch (set_hold k sig s) (λ n. set_handler k sig n s) handler h)

  set_handler-IsInstalled :
      (sig handler : ℕ) (s : S)
      → catchable sig ≡ true
      → (old : ℕ) × (t : S) × (k.get_action sig s ≡ some old)
        × (set_handler k sig handler s ≡ (t, some old))
        × IsInstalled k blocked catchable sig handler false s t
  unfolding set_handler attempt
  set_handler-IsInstalled sig handler s c =
      let (empty, e, l) = d.empty_law in
      let (old, g) = d.get_law sig s c in
      let (t, i, bt, at) = d.set_law sig handler s c in
      let (m, w, h) =
        single k member blocked catchable d sig t
          (λ mask. attempt t (k.unblock mask t) (λ u. (u, some old))) c in
      let (u, x, masked) = unblock_single k member blocked catchable d sig m t h in
      (
        old,
        u,
        g,
        attempt-some s e _ ∙ attempt-some s g _ ∙ attempt-some s i _ ∙ w ∙ attempt-some t x _,
        record {
          bits = λ n cn. masked.bits n cn ∙ both_tests (n == sig) false _ _ (bt n);
          handlers = λ n. masked.handlers n ∙ at n;
        },
      )

  set_handler_fixed :
      (sig handler : ℕ) (s : S)
      → catchable sig ≡ false
      → (o : Option ℕ) → k.get_action sig s ≡ o
      → set_handler k sig handler s ≡ (s, none)
  unfolding set_handler attempt
  set_handler_fixed sig handler s c none g = let (empty, e, l) = d.empty_law in rw (e, g)
  set_handler_fixed sig handler s c (some old) g =
      let (empty, e, l) = d.empty_law in rw (e, g, d.fixed_law sig handler s c)

  -- For a signal that can be caught and a handler that is not NULL, sigset returns the old handler,
  -- installs the new one and unblocks the signal. Nothing else changes.
  pub my_sigset-IsInstalled :
      (sig handler : ℕ) (s : S)
      → catchable sig ≡ true
      → handler ≢ 0
      → (old : ℕ) × (t : S) × (k.get_action sig s ≡ some old)
        × (my_sigset k sig handler s ≡ (t, some old))
        × IsInstalled k blocked catchable sig handler false s t
  my_sigset-IsInstalled sig handler s c h =
      let (old, t, g, e, i) = set_handler-IsInstalled sig handler s c in
      (old, t, g, my_sigset-set_handler sig handler s h ∙ e, i)

  -- For a signal that can be caught, `sigset(sig, SIG_DFL)` blocks the signal and leaves its handler
  -- installed. Nothing else changes.
  pub my_sigset-sig_dfl :
      (sig : ℕ) (s : S)
      → catchable sig ≡ true
      → (old : ℕ) × (t : S) × (k.get_action sig t ≡ some old)
        × (my_sigset k sig sig_dfl s ≡ (t, some old))
        × IsMasked k blocked catchable sig true s t
  unfolding my_sigset set_hold attempt
  my_sigset-sig_dfl sig s c =
      let (now, e, l) = d.current_law s in
      let (m, w, h) =
        single k member blocked catchable d sig s
          (λ mask.
            attempt s (k.block mask s) (λ t. attempt t (k.get_action sig t) (λ old. (t, some old))))
          c in
      let (t, b, i) = block_single k member blocked catchable d sig m s h in
      let (old, g) = d.get_law sig t c in (old, t, g, rw e (w ∙ rw (b, g)), i)

  -- For a signal whose handler cannot be changed, sigset with a handler that is not NULL and sigignore
  -- return -1 and change nothing.
  pub my_sigset-my_sigignore :
      (sig handler : ℕ) (s : S)
      → catchable sig ≡ false
      → handler ≢ 0
      → (my_sigset k sig handler s ≡ (s, none)) × (my_sigignore k sig s ≡ (s, none))
  unfolding my_sigignore attempt
  my_sigset-my_sigignore sig handler s c h =
      let (empty, e, l) = d.empty_law in
      (
        my_sigset-set_handler sig handler s h
            ∙ set_handler_fixed sig handler s c (k.get_action sig s) refl,
        rw (e, d.fixed_law sig sig_ign s c),
      )

  -- For a signal that can be caught, sigignore and `sigset(sig, SIG_IGN)` install the same handler, but
  -- the first keeps the mask and the second unblocks the signal. Nothing else changes.
  pub my_sigignore-my_sigset :
      (sig : ℕ) (s : S)
      → catchable sig ≡ true
      → (old : ℕ) × (t u : S) × (my_sigignore k sig s ≡ (t, some 0))
        × (my_sigset k sig sig_ign s ≡ (u, some old))
        × ((n : ℕ) → k.get_action n t ≡ k.get_action n u)
        × ((n : ℕ) → blocked n t ≡ blocked n s)
        × IsInstalled k blocked catchable sig sig_ign false s u
  unfolding my_sigignore attempt
  my_sigignore-my_sigset sig s c =
      let (empty, e, l) = d.empty_law in
      let (t, i, bt, at) = d.set_law sig sig_ign s c in
      let (old, u, g, x, installed) = my_sigset-IsInstalled sig sig_ign s c (λ z. cc) in
      (old, t, u, rw (e, i), x, λ n. at n ∙ sym (installed.handlers n), bt, installed)

  -- For a signal that can be caught, sigpause returns -1 and suspends the process with the mask that it
  -- has, less the signal.
  pub my_sigpause-sigsuspend :
      (sig : ℕ) (s : S)
      → catchable sig ≡ true
      → (m : M) × (my_sigpause k sig s ≡ (k.sigsuspend m s, none))
        × ((n : ℕ) → member n m ≡ (if n == sig then false else blocked n s))
  unfolding my_sigpause attempt
  my_sigpause-sigsuspend sig s c =
      let (now, e, l) = d.current_law s in
      let (m, f, h) = d.delete_law sig now c in
      (m, rw (e, f), λ n. h n ∙ both_tests (n == sig) false _ _ (l n))
