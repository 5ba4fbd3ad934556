-- ===== src/Signals.antt =====
-- SP_HW/SP_HW7/22-4/22-4.c: the calls of System V, written with sigprocmask and sigaction.
pub mod Calls
pub mod Mask
pub mod Handlers
use sp_hw.Base.{ℕ, zero, suc, ◌≡◌, Bool, true, false, Option, some, none, ◌==◌, if◌then◌else◌}
use sp_hw.Signals.Calls.{Kernel}

-- `SIG_DFL` is `(sighandler_t) 0`, which is NULL, and `SIG_IGN` is `(sighandler_t) 1`.
abbrev pub sig_dfl : ℕ
sig_dfl = 0

abbrev pub sig_ign : ℕ
sig_ign = 1

-- The state behind a call, and what it returns: `none` is -1.
abbrev pub Answer : Type 0 → Type 0 → Type 0
Answer S A = S × Option A

-- A call that fails ends the function with -1, and any other goes on.
unfoldable pub attempt : {S A B : Type 0} → S → Option A → (A → Answer S B) → Answer S B
attempt s none go_on = (s, none)
attempt s (some a) go_on = go_on a

module _ {S M : Type 0} (k : Kernel S M) where
  -- `sigemptyset(&mask)`, then `sigaddset(&mask, sig)`.
  unfoldable pub with_signal : {B : Type 0} → ℕ → S → (M → Answer S B) → Answer S B
  with_signal sig s go_on =
      attempt s (k.sigemptyset) (λ empty. attempt s (k.sigaddset sig empty) go_on)

  unfoldable pub my_sighold : ℕ → S → Answer S ℕ
  my_sighold sig s = with_signal sig s (λ mask. attempt s (k.block mask s) (λ t. (t, some 0)))

  unfoldable pub my_sigrelse : ℕ → S → Answer S ℕ
  my_sigrelse sig s = with_signal sig s (λ mask. attempt s (k.unblock mask s) (λ t. (t, some 0)))

  unfoldable pub my_sigignore : ℕ → S → Answer S ℕ
  my_sigignore sig s =
      attempt s (k.sigemptyset) (λ empty. attempt s (k.set_action sig sig_ign s) (λ t. (t, some 0)))

  -- What `sigsuspend` returns is -1, in the state behind the signal.
  unfoldable pub my_sigpause : ℕ → S → Answer S ℕ
  my_sigpause sig s =
      attempt s (k.current s)
        (λ mask. attempt s (k.sigdelset sig mask) (λ less. (k.sigsuspend less s, none)))

  -- The branch for NULL: the signal is blocked, and the handler asked for.
  unfoldable pub set_hold : ℕ → S → Answer S ℕ
  set_hold sig s = with_signal sig s (λ mask.
      attempt s (k.block mask s) (λ t. attempt t (k.get_action sig t) (λ old. (t, some old))))

  -- The branches for `SIG_IGN`, for `SIG_DFL` and for a function: the handler is installed with an
  -- empty mask, then the signal is unblocked. `sigaction` puts the old handler into `oldsa`.
  unfoldable pub set_handler : ℕ → ℕ → S → Answer S ℕ
  set_handler sig handler s = attempt s (k.sigemptyset) (λ empty.
      attempt s (k.get_action sig s) (λ old.
        attempt s (k.set_action sig handler s)
          (λ t. with_signal sig t (λ mask. attempt t (k.unblock mask t) (λ u. (u, some old))))))

  -- The branches in the order of the source.
  unfoldable pub my_sigset : ℕ → ℕ → S → Answer S ℕ
  my_sigset sig handler s = attempt s (k.current s) (λ mask.
      if handler == 0
      then set_hold sig s
      else if handler == sig_ign
      then set_handler sig sig_ign s
      else if handler == sig_dfl
      then set_handler sig sig_dfl s
      else set_handler sig handler s)
