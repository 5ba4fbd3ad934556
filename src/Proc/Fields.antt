-- ===== src/Proc/Fields.antt =====
-- What 12-1.c finds in a status file that the kernel writes.
use sp_hw.Base.{
  ℕ, ◌+◌, ◌-◌, ◌*◌, ◌%◌, ◌≤◌, ◌≡◌, ◌≢◌, refl, ap, ◌∙◌, true, false, List, [], ◌∷◌, ◌++◌, some,
  length, All, Bytes, codes, str_eq_self, str_eq-other, ==-false, min, arith,
}
use sp_hw.Proc.{is_digit}
use sp_hw.Proc.Status.{
  is_space, skip_space, word, after_word, digits, scan_digits, scan_unsigned, read_key, behind_key,
  find_uid, find_name, no_uid, uid_size, ulong_max, get_process_uid, get_process_cmdname,
}

-- A status file as the kernel writes it: the name in its first line, the owner in a later one.
pub record StatusFile : Type 0 where
  pub comm : Bytes
  pub middle : List Bytes
  pub owner : Bytes
  pub behind : Bytes
  pub after : List Bytes

abbrev pub name_line : Bytes → Bytes
name_line comm = codes "Name:" ++ b'\t' ∷ comm ++ b'\n' ∷ []

abbrev pub uid_line : Bytes → Bytes → Bytes
uid_line owner behind = codes "Uid:" ++ b'\t' ∷ owner ++ b'\t' ∷ behind

abbrev pub lines : StatusFile → List Bytes
lines st = name_line st.comm ∷ st.middle ++ uid_line st.owner st.behind ∷ st.after

abbrev pub first_key : Bytes → Bytes
first_key line = read_key [] line

abbrev pub StartsDark : Bytes → Type 0
StartsDark [] = ⊥
StartsDark (c ∷ s) = is_space c ≡ false

abbrev pub AreDigits : Bytes → Type 0
AreDigits owner = All (λ c. is_digit c ≡ true) owner

-- The name starts with no white space, no line between has the key of the owner, and the owner is a
-- number that fits.
pub record IsStatus (st : StatusFile) : Type 0 where
  pub named : StartsDark st.comm
  pub others : All (λ line. first_key line ≢ codes "Uid:") st.middle
  pub numeric : AreDigits st.owner
  pub nonempty : st.owner ≢ []
  pub small : digits 0 st.owner ≤ no_uid

pub read_key-name_line : (key comm : Bytes) → read_key key (name_line comm) ≡ codes "Name:"
unfolding read_key skip_space word
read_key-name_line key comm = refl

read_key-uid_line : (key owner behind : Bytes) → read_key key (uid_line owner behind) ≡ codes "Uid:"
unfolding read_key skip_space word
read_key-uid_line key owner behind = refl

-- A line does not bring a key that is neither its own nor the last one.
read_key-other : (key line k : Bytes) → key ≢ k → first_key line ≢ k → read_key key line ≢ k
unfolding read_key
read_key-other key line k h l = ground arith

pub word-line : (s : Bytes) → word (s ++ b'\n' ∷ []) ≡ word s
unfolding word
word-line [] = refl
word-line (c ∷ s) = rw (word-line s) refl

pub digits-line : (acc : ℕ) (s rest : Bytes) → digits acc (s ++ b'\t' ∷ rest) ≡ digits acc s
unfolding digits is_digit
digits-line acc [] rest = refl
digits-line acc (c ∷ s) rest = rw (digits-line (acc * 10 + (c - 48)) s rest) refl

pub skip_space-digit : (c : ℕ) (s : Bytes) → is_digit c ≡ true → skip_space (c ∷ s) ≡ c ∷ s
unfolding skip_space is_digit
skip_space-digit c s h = ground arith

pub digit_no_sign : (c : ℕ) → is_digit c ≡ true → (c ≢ b'-') × (c ≢ b'+')
unfolding is_digit
digit_no_sign c h = ground arith

scan_unsigned-digit :
    (c : ℕ) (s : Bytes)
    → is_digit c ≡ true
    → scan_unsigned (c ∷ s) ≡ some (min (digits 0 (c ∷ s)) ulong_max % uid_size)
unfolding scan_unsigned scan_digits
scan_unsigned-digit c s h =
    let signs = digit_no_sign c h in
    rw (==-false c b'-' (signs.0), ==-false c b'+' (signs.1), h) refl

pub small_number : (n : ℕ) → n ≤ no_uid → min n ulong_max % uid_size ≡ n
small_number n h = grind arith

scan_unsigned-digits :
    (owner rest : Bytes)
    → AreDigits owner
    → owner ≢ []
    → digits 0 owner ≤ no_uid
    → scan_unsigned (skip_space (owner ++ b'\t' ∷ rest)) ≡ some (digits 0 owner)
scan_unsigned-digits [] rest h n l = absurd (n refl)
scan_unsigned-digits (c ∷ s) rest h n l =
    ap scan_unsigned (skip_space-digit c (s ++ b'\t' ∷ rest) (h.0))
    ∙ scan_unsigned-digit c (s ++ b'\t' ∷ rest) (h.0)
    ∙ ap (λ v. some (min v ulong_max % uid_size)) (digits-line 0 (c ∷ s) rest)
    ∙ ap some (small_number (digits 0 (c ∷ s)) l)

behind_key-uid_line :
    (owner rest : Bytes) → behind_key (uid_line owner rest) ≡ skip_space (owner ++ b'\t' ∷ rest)
unfolding behind_key skip_space after_word
behind_key-uid_line owner rest = refl

pub behind_key-name_line :
    (c : ℕ) (s : Bytes) → is_space c ≡ false → behind_key (name_line (c ∷ s)) ≡ c ∷ s ++ b'\n' ∷ []
unfolding behind_key skip_space after_word
behind_key-name_line c s h = rw h refl

name_not_uid : codes "Name:" ≢ codes "Uid:"
name_not_uid e = absurd (omega (arith, ap length e))

find_uid-middle :
    (key : Bytes) (middle : List Bytes) (owner behind : Bytes) (after : List Bytes)
    → key ≢ codes "Uid:"
    → All (λ line. first_key line ≢ codes "Uid:") middle
    → AreDigits owner
    → owner ≢ []
    → digits 0 owner ≤ no_uid
    → find_uid key (middle ++ uid_line owner behind ∷ after) ≡ digits 0 owner
unfolding find_uid
find_uid-middle key [] owner behind after k m h n l =
    rw
      (
        read_key-uid_line key owner behind,
        behind_key-uid_line owner behind,
        scan_unsigned-digits owner behind h n l,
        str_eq_self (codes "Uid:"),
      )
      refl
find_uid-middle key (line ∷ middle) owner behind after k m h n l =
    let other = read_key-other key line (codes "Uid:") k (m.0) in
    rw (str_eq-other other)
      (find_uid-middle (read_key key line) middle owner behind after other (m.1) h n l)

pub get_process_uid-lines :
    (junk : Bytes) (st : StatusFile)
    → IsStatus st
    → get_process_uid junk (some (lines st)) ≡ digits 0 st.owner
unfolding get_process_uid find_uid
get_process_uid-lines junk st h =
    rw (read_key-name_line junk st.comm, str_eq-other name_not_uid)
      (find_uid-middle (codes "Name:") st.middle st.owner st.behind st.after name_not_uid h.others
        h.numeric h.nonempty h.small)

find_name-first :
    (cmdname junk comm : Bytes) (rest : List Bytes)
    → StartsDark comm
    → find_name cmdname junk (name_line comm ∷ rest) ≡ word comm
unfolding find_name word
find_name-first cmdname junk [] rest h = absurd h
find_name-first cmdname junk (c ∷ s) rest h =
    rw
      (
        read_key-name_line junk (c ∷ s),
        str_eq_self (codes "Name:"),
        behind_key-name_line c s h,
        word-line s,
        h,
      )
      refl

pub get_process_cmdname-lines :
    (junk cmdname : Bytes) (st : StatusFile)
    → IsStatus st
    → get_process_cmdname junk cmdname (some (lines st)) ≡ word st.comm
unfolding get_process_cmdname
get_process_cmdname-lines junk cmdname st h =
    find_name-first cmdname junk st.comm (st.middle ++ uid_line st.owner st.behind ∷ st.after)
      h.named
