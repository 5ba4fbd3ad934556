-- ===== src/Ranges.antt =====
-- Ranges of numbers that a server gives out one behind the other, as those of SP_HW/SP_HW8/44-6 and 46-2 do.
-- An int is its pattern of 32 bits.
use sp_hw.Base.{ℕ, ◌+◌, ◌%◌, ◌≤◌, ◌≡◌, ◌≢◌, ◌⊎◌, inl, inr, refl, List, [], ◌∷◌, arith}

abbrev pub int_patterns : ℕ
int_patterns = 4294967296

-- A response: for whom, its number, and by how much the next one is larger.
pub record Grant : Type 0 where
  pub client : ℕ
  pub start : ℕ
  pub count : ℕ

-- A response stands in the log.
pub data Logged (g : Grant) : List Grant → Type 0 where
  latest : {log : List Grant} → Logged g (g ∷ log)
  older : {h : Grant} {log : List Grant} → Logged g log → Logged g (h ∷ log)

-- INT_MAX
abbrev pub int_max : ℕ
int_max = 2147483647

-- All that was asked for.
abbrev pub total : List Grant → ℕ
total [] = 0
total (g ∷ log) = g.count + total log

-- Each response starts behind those before it, up to the wrap-around.
abbrev pub Starts : List Grant → Type 0
Starts [] = Unit
Starts (g ∷ log) = (g.start ≡ total log % int_patterns) × Starts log

start-total : (g : Grant) (t : ℕ) → g.start ≡ t % int_patterns → t ≤ int_max → g.start ≡ t
start-total g t e h = omega (arith, e)

Logged-total :
    (g : Grant) (log : List Grant)
    → Starts log
    → total log ≤ int_max
    → Logged g log
    → g.start + g.count ≤ total log
Logged-total g [] s b l = elim l [ ]
Logged-total g (h ∷ log) s b latest = omega (arith, start-total g (total log) (s.0) (omega arith))
Logged-total g (h ∷ log) s b (older l) = omega (arith, Logged-total g log (s.1) (omega arith) l)

-- One range ends at or before the start of the other.
abbrev pub Apart : Grant → Grant → Type 0
Apart g h = (g.start + g.count ≤ h.start) ⊎ (h.start + h.count ≤ g.start)

pub Logged-Apart :
    (g h : Grant) (log : List Grant)
    → Starts log
    → total log ≤ int_max
    → Logged g log
    → Logged h log
    → g.client ≢ h.client
    → Apart g h
Logged-Apart g h [] s b l k n = elim l [ ]
Logged-Apart g h (x ∷ log) s b latest latest n = absurd (n refl)
Logged-Apart g h (x ∷ log) s b latest (older k) n = inr (
    omega (
      arith,
      start-total g (total log) (s.0) (omega arith),
      Logged-total h log (s.1) (omega arith) k,
    ))
Logged-Apart g h (x ∷ log) s b (older l) latest n = inl (
    omega (
      arith,
      start-total h (total log) (s.0) (omega arith),
      Logged-total g log (s.1) (omega arith) l,
    ))
Logged-Apart g h (x ∷ log) s b (older l) (older k) n =
    Logged-Apart g h log (s.1) (omega arith) l k n

-- `seq_num += count`
unfoldable pub advance : ℕ → ℕ → ℕ
advance seq_num count = (seq_num + count) % int_patterns

pub advance-total :
    (n value t : ℕ) → n ≡ t % int_patterns → advance n value ≡ (value + t) % int_patterns
unfolding advance
advance-total n value t e = omega (arith, e)
