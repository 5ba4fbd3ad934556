-- ===== src/Tree/Fields.antt =====
-- What 12-2.c reads in the status files that the kernel writes.
use sp_hw.Base.{
  ℕ, ◌+◌, ◌-◌, ◌*◌, ◌%◌, ◌^◌, ◌<◌, min, ◌≡◌, ◌≢◌, refl, ap, ◌∙◌, true, List, [], ◌∷◌, ◌++◌, some,
  ==-false, All, Bytes, codes, str_eq-other, arith,
}
use sp_hw.Proc.{is_digit}
use sp_hw.Proc.Status.{
  skip_space, word, after_word, digits, scan_digits, or_else, nonempty, read_key, behind_key,
}
use sp_hw.Proc.Fields.{
  name_line, first_key, StartsDark, AreDigits, word-line, behind_key-name_line, skip_space-digit,
  digit_no_sign,
}
use sp_hw.Tree.{Process}
use sp_hw.Tree.Reading.{
  int_patterns, long_max, minus, scan_int, pid_of, set_ppid, set_name, read_fields,
  get_process_info,
}

-- A status file as the kernel writes it: the name in its first line, the parent in a later one.
pub record StatusFile : Type 0 where
  pub comm : Bytes
  pub middle : List Bytes
  pub parent : Bytes
  pub after : List Bytes

abbrev pub ppid_line : Bytes → Bytes
ppid_line parent = codes "PPid:" ++ b'\t' ∷ parent ++ b'\n' ∷ []

abbrev pub lines : StatusFile → List Bytes
lines st = name_line st.comm ∷ st.middle ++ ppid_line st.parent ∷ st.after

-- A line with a key of its own, neither that of the name nor that of the parent.
pub record IsOther (line : Bytes) : Type 0 where
  pub keyed : first_key line ≢ []
  pub no_ppid : first_key line ≢ codes "PPid:"
  pub no_name : first_key line ≢ codes "Name:"

-- The name starts with no white space, the other lines have other keys, and the parent is a number that
-- fits into an int.
pub record IsStatus (st : StatusFile) : Type 0 where
  pub named : StartsDark st.comm
  pub middle_others : All IsOther st.middle
  pub after_others : All IsOther st.after
  pub numeric : AreDigits st.parent
  pub has_parent : st.parent ≢ []
  pub small : digits 0 st.parent < 2 ^ 31

digits-newline : (acc : ℕ) (s : Bytes) → digits acc (s ++ b'\n' ∷ []) ≡ digits acc s
unfolding digits is_digit
digits-newline acc [] = refl
digits-newline acc (c ∷ s) = rw (digits-newline (acc * 10 + (c - 48)) s) refl

small_int : (n : ℕ) → n < 2 ^ 31 → min n long_max % int_patterns ≡ n
small_int n h = grind arith

scan_int-digit :
    (c : ℕ) (s : Bytes)
    → is_digit c ≡ true
    → scan_int (c ∷ s) ≡ some (min (digits 0 (c ∷ s)) long_max % int_patterns)
unfolding scan_int scan_digits
scan_int-digit c s h =
    let signs = digit_no_sign c h in
    rw (==-false c b'-' (signs.0), ==-false c b'+' (signs.1), h) refl

scan_int-digits :
    (parent : Bytes)
    → AreDigits parent
    → parent ≢ []
    → digits 0 parent < 2 ^ 31
    → scan_int (skip_space (parent ++ b'\n' ∷ [])) ≡ some (digits 0 parent)
scan_int-digits [] h n l = absurd (n refl)
scan_int-digits (c ∷ s) h n l =
    ap scan_int (skip_space-digit c (s ++ b'\n' ∷ []) (h.0))
    ∙ scan_int-digit c (s ++ b'\n' ∷ []) (h.0)
    ∙ ap (λ v. some (min v long_max % int_patterns)) (digits-newline 0 (c ∷ s))
    ∙ ap some (small_int (digits 0 (c ∷ s)) l)

read_key-keyed : (key l : Bytes) → first_key l ≢ [] → read_key key l ≡ first_key l
unfolding read_key
read_key-keyed key l h = ground arith

-- A line with another key changes nothing.
set_other :
    (key l : Bytes) (proc : Process)
    → IsOther l
    → set_name (read_key key l) l (set_ppid (read_key key l) l proc) ≡ proc
unfolding set_name set_ppid
set_other key l proc h =
    rw (read_key-keyed key l h.keyed, str_eq-other h.no_ppid, str_eq-other h.no_name) refl

read_fields-after :
    (key : Bytes) (proc : Process) (ls : List Bytes)
    → All IsOther ls
    → read_fields key proc ls ≡ proc
unfolding read_fields
read_fields-after key proc [] h = refl
read_fields-after key proc (l ∷ ls) h =
    rw (set_other key l proc (h.0)) (read_fields-after (read_key key l) proc ls (h.1))

read_key-ppid_line : (key parent : Bytes) → read_key key (ppid_line parent) ≡ codes "PPid:"
unfolding read_key skip_space word
read_key-ppid_line key parent = refl

behind_key-ppid_line :
    (parent : Bytes) → behind_key (ppid_line parent) ≡ skip_space (parent ++ b'\n' ∷ [])
unfolding behind_key skip_space after_word
behind_key-ppid_line parent = refl

set_on_ppid_line :
    (parent : Bytes) (proc : Process)
    → AreDigits parent
    → parent ≢ []
    → digits 0 parent < 2 ^ 31
    → set_name (codes "PPid:") (ppid_line parent) (set_ppid (codes "PPid:") (ppid_line parent) proc)
      ≡ record proc { ppid = digits 0 parent }
unfolding set_name set_ppid
set_on_ppid_line parent proc h n l =
    ap (λ o. record proc { ppid = or_else proc.ppid o }) (scan_int-digits parent h n l)

set_on_name_line :
    (comm : Bytes) (proc : Process)
    → StartsDark comm
    → set_name (codes "Name:") (name_line comm) (set_ppid (codes "Name:") (name_line comm) proc)
      ≡ record proc { name = word comm }
unfolding set_name set_ppid word
set_on_name_line [] proc h = absurd h
set_on_name_line (c ∷ s) proc h =
    ap (λ b. record proc { name = or_else proc.name (nonempty (word b)) })
      (behind_key-name_line c s h)
    ∙ rw (h, word-line s) refl

read_fields-middle :
    (key : Bytes) (proc : Process) (middle after : List Bytes) (parent : Bytes)
    → All IsOther middle
    → All IsOther after
    → AreDigits parent
    → parent ≢ []
    → digits 0 parent < 2 ^ 31
    → read_fields key proc (middle ++ ppid_line parent ∷ after)
      ≡ record proc { ppid = digits 0 parent }
unfolding read_fields
read_fields-middle key proc [] after parent m a h n l =
    ap (λ p. read_fields (codes "PPid:") p after) (set_on_ppid_line parent proc h n l)
    ∙ read_fields-after (codes "PPid:") (record proc { ppid = digits 0 parent }) after a
read_fields-middle key proc (x ∷ middle) after parent m a h n l =
    ap (λ p. read_fields (read_key key x) p (middle ++ ppid_line parent ∷ after))
      (set_other key x proc (m.0))
    ∙ read_fields-middle (read_key key x) proc middle after parent (m.1) a h n l

-- The process that a status file describes.
abbrev pub process_of : (Bytes → StatusFile) → Bytes → Process
process_of status entry = record {
  pid = pid_of entry;
  ppid = digits 0 (status entry).parent;
  name = word (status entry).comm;
}

pub get_process_info-lines :
    (junk entry : Bytes) (status : Bytes → StatusFile)
    → IsStatus (status entry)
    → get_process_info junk entry (some (lines (status entry))) ≡ some (process_of status entry)
unfolding get_process_info read_fields
get_process_info-lines junk entry status h =
    let st = status entry in
    let start : Process = record { pid = pid_of entry; ppid = minus 1; name = codes "[Unknown]" } in
    ap some (
      ap (λ p. read_fields (codes "Name:") p (st.middle ++ ppid_line st.parent ∷ st.after))
        (set_on_name_line st.comm start h.named)
      ∙ read_fields-middle (codes "Name:") (record start { name = word st.comm }) st.middle st.after
          st.parent h.middle_others h.after_others h.numeric h.has_parent h.small)
