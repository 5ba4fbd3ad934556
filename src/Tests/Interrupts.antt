-- ===== src/Tests/Interrupts.antt =====
-- The calls of 22-4.c on a small kernel, where every number is a signal and 9 and 19 are fixed.
use sp_hw.Base.{ℕ, ◌≡◌, ◌≢◌, refl, Bool, true, false, some, none, ◌==◌, if◌then◌else◌}
use sp_hw.Signals.{my_sigset}
use sp_hw.Signals.Calls.{Kernel, IsDocumented}
use sp_hw.Signals.Handlers.{IsInstalled, my_sigset-IsInstalled}

-- The blocked signals and the handlers.
abbrev Process : Type 0
Process = (ℕ → Bool) × (ℕ → ℕ)

abbrev Set : Type 0
Set = ℕ → Bool

some_if :
    {A : Type 0} (b : Bool) (x y : A) → some (if b then x else y) ≡ (if b then some x else some y)
some_if true x y = refl
some_if false x y = refl

unfoldable catchable : ℕ → Bool
catchable n = if n == 9 then false else if n == 19 then false else true

unfoldable small_kernel : Kernel Process Set
small_kernel = record {
  sigemptyset = some (λ n. false);
  sigaddset = λ sig m. if catchable sig then some (λ n. if n == sig then true else m n) else none;
  sigdelset = λ sig m. if catchable sig then some (λ n. if n == sig then false else m n) else none;
  current = λ s. some (s.0);
  block = λ m s. some ((λ n. if m n then catchable n else s.0 n), s.1);
  unblock = λ m s. some ((λ n. if m n then false else s.0 n), s.1);
  get_action = λ sig s. some (s.1 sig);
  set_action =
      λ sig h s. if catchable sig then some (s.0, (λ n. if n == sig then h else s.1 n)) else none;
  sigsuspend = λ m s. s;
}

abbrev member : ℕ → Set → Bool
member n m = m n

abbrev blocked : ℕ → Process → Bool
blocked n s = s.0 n

kernel-IsDocumented : IsDocumented small_kernel member blocked catchable
unfolding small_kernel
kernel-IsDocumented = record {
  empty_law = ((λ n. false), refl, λ n. refl);
  add_law = λ sig m c. ((λ n. if n == sig then true else m n), rw c refl, λ n. refl);
  delete_law = λ sig m c. ((λ n. if n == sig then false else m n), rw c refl, λ n. refl);
  current_law = λ s. (s.0, refl, λ n. refl);
  block_law = λ m s.
      (((λ n. if m n then catchable n else s.0 n), s.1), refl, (λ n c. rw c refl), λ n. refl);
  unblock_law = λ m s. (((λ n. if m n then false else s.0 n), s.1), refl, (λ n. refl), λ n. refl);
  get_law = λ sig s c. (s.1 sig, refl);
  set_law = λ sig h s c. (
    (s.0, (λ n. if n == sig then h else s.1 n)),
    rw c refl,
    (λ n. refl),
    λ n. some_if (n == sig) h (s.1 n),
  );
  fixed_law = λ sig h s c. rw c refl;
}

-- Nothing is blocked, and every handler is the default.
abbrev fresh : Process
fresh = ((λ n. false), (λ n. 0))

abbrev handler_address : ℕ
handler_address = 4096

handler_address-nonzero : handler_address ≢ 0
handler_address-nonzero e = cc

my_sigset-IsInstalled_example :
    (old : ℕ) × (t : Process) × (small_kernel.get_action 2 fresh ≡ some old)
    × (my_sigset small_kernel 2 handler_address fresh ≡ (t, some old))
    × IsInstalled small_kernel blocked catchable 2 handler_address false fresh t
unfolding catchable
my_sigset-IsInstalled_example =
    my_sigset-IsInstalled small_kernel member blocked catchable kernel-IsDocumented 2
      handler_address fresh refl handler_address-nonzero
