-- ===== src/Signals/Calls.antt =====
-- The signal calls of the kernel and of the C library that 22-4.c uses, and what their documentation
-- says.
use sp_hw.Base.{ℕ, ◌≡◌, Bool, true, false, Option, some, none, ◌==◌, if◌then◌else◌}

-- The calls. `S` is what the kernel keeps of the process and `M` is `sigset_t`; `none` is a call that
-- returns -1. `current` is `sigprocmask` without a new mask, `get_action` is `sigaction` without a
-- new action, and `set_action` gives the handler with an empty mask and no flags.
pub record Kernel (S M : Type 0) : Type 0 where
  pub sigemptyset : Option M
  pub sigaddset : ℕ → M → Option M
  pub sigdelset : ℕ → M → Option M
  pub current : S → Option M
  pub block : M → S → Option S
  pub unblock : M → S → Option S
  pub get_action : ℕ → S → Option ℕ
  pub set_action : ℕ → ℕ → S → Option S
  pub sigsuspend : M → S → S

-- What is said of the calls, by the view of a mask as the set of its members, of a process as the set
-- of its blocked signals, and by which signals can be caught.
pub record IsDocumented {S M : Type 0} (k : Kernel S M) (member : ℕ → M → Bool)
    (blocked : ℕ → S → Bool) (catchable : ℕ → Bool) : Type 0 where
  pub empty_law : (m : M) × (k.sigemptyset ≡ some m) × ((n : ℕ) → member n m ≡ false)
  pub add_law :
      (sig : ℕ) (m : M)
      → catchable sig ≡ true
      → (m' : M) × (k.sigaddset sig m ≡ some m')
        × ((n : ℕ) → member n m' ≡ (if n == sig then true else member n m))
  pub delete_law :
      (sig : ℕ) (m : M)
      → catchable sig ≡ true
      → (m' : M) × (k.sigdelset sig m ≡ some m')
        × ((n : ℕ) → member n m' ≡ (if n == sig then false else member n m))
  pub current_law :
      (s : S) → (m : M) × (k.current s ≡ some m) × ((n : ℕ) → member n m ≡ blocked n s)
  pub block_law :
      (m : M) (s : S)
      → (t : S) × (k.block m s ≡ some t)
        × ((n : ℕ) → catchable n ≡ true → blocked n t ≡ (if member n m then true else blocked n s))
        × ((n : ℕ) → k.get_action n t ≡ k.get_action n s)
  pub unblock_law :
      (m : M) (s : S)
      → (t : S) × (k.unblock m s ≡ some t)
        × ((n : ℕ) → blocked n t ≡ (if member n m then false else blocked n s))
        × ((n : ℕ) → k.get_action n t ≡ k.get_action n s)
  pub get_law : (sig : ℕ) (s : S) → catchable sig ≡ true → (h : ℕ) × (k.get_action sig s ≡ some h)
  pub set_law :
      (sig h : ℕ) (s : S)
      → catchable sig ≡ true
      → (t : S) × (k.set_action sig h s ≡ some t)
        × ((n : ℕ) → blocked n t ≡ blocked n s)
        × ((n : ℕ) → k.get_action n t ≡ (if n == sig then some h else k.get_action n s))
  pub fixed_law : (sig h : ℕ) (s : S) → catchable sig ≡ false → k.set_action sig h s ≡ none
