-- ===== src/Proc/Status.antt =====
-- get_process_uid and get_process_cmdname of SP_HW/SP_HW4/12-1.c, on the lines of a status file.
use sp_hw.Base.{
  ℕ, ◌+◌, ◌-◌, ◌*◌, ◌%◌, ◌^◌, min, Bool, ◌&&◌, ◌||◌, List, [], ◌∷◌, Option, none, some,
  if◌then◌else◌, leb, ◌==◌, ◌>>=◌, take, Bytes, codes, str_eq,
}
use sp_hw.Proc.{is_digit}

-- `isspace`
abbrev pub is_space : ℕ → Bool
is_space c = c == 32 || (leb 9 c && leb c 13)

-- `sscanf` skips white space in front of a word.
unfoldable pub skip_space : Bytes → Bytes
skip_space [] = []
skip_space (c ∷ s) = let rest = skip_space s in if is_space c then rest else c ∷ s

unfoldable pub word : Bytes → Bytes
word [] = []
word (c ∷ s) = let rest = word s in if is_space c then [] else c ∷ rest

unfoldable pub after_word : Bytes → Bytes
after_word [] = []
after_word (c ∷ s) = let rest = after_word s in if is_space c then c ∷ s else rest

-- The value of the digits in front, with the value of those before them.
unfoldable pub digits : ℕ → Bytes → ℕ
unfolding is_digit
digits acc [] = acc
digits acc (c ∷ s) = let rest = digits (acc * 10 + (c - 48)) s in if is_digit c then rest else acc

abbrev pub uid_size : ℕ
uid_size = 2 ^ 32

-- `(uid_t)-1`
abbrev pub no_uid : ℕ
no_uid = uid_size - 1

-- The largest `unsigned long`, where `strtoul` stops.
abbrev pub ulong_max : ℕ
ulong_max = 2 ^ 64 - 1

-- `%u`: digits with at most one sign in front; a `-` negates the number.
unfoldable pub scan_digits : Bytes → Option ℕ
unfolding is_digit digits
scan_digits [] = none
scan_digits (c ∷ s) = if is_digit c then some (digits 0 (c ∷ s)) else none

abbrev pub negated : ℕ → ℕ
negated n = if leb n ulong_max then ulong_max + 1 - n else ulong_max

unfoldable pub scan_unsigned : Bytes → Option ℕ
unfolding scan_digits
scan_unsigned [] = none
scan_unsigned (c ∷ s) =
    if c == b'-'
    then scan_digits s >>= (λ n. some (negated n % uid_size))
    else if c == b'+'
    then scan_digits s >>= (λ n. some (min n ulong_max % uid_size))
    else scan_digits (c ∷ s) >>= (λ n. some (min n ulong_max % uid_size))

-- A conversion that fails leaves its variable as it is.
abbrev pub or_else {ℓ} : {A : Type ℓ} → A → Option A → A
or_else old none = old
or_else old (some new) = new

abbrev pub nonempty : Bytes → Option Bytes
nonempty [] = none
nonempty (c ∷ s) = some (c ∷ s)

-- `sscanf(buffer, "%31s", key)`
unfoldable pub read_key : Bytes → Bytes → Bytes
unfolding skip_space word
read_key key buffer = or_else key (nonempty (take 31 (word (skip_space buffer))))

-- What stands behind the first word: `%*s` and the white space behind it. Both words fail where there
-- is no first one.
unfoldable pub behind_key : Bytes → Bytes
unfolding skip_space after_word
behind_key buffer = skip_space (after_word (skip_space buffer))

-- The loops over the lines, each as `fgets` brings it, with the key that was read last.
unfoldable pub find_uid : Bytes → List Bytes → ℕ
unfolding read_key behind_key scan_unsigned
find_uid key [] = no_uid
find_uid key (buffer ∷ buffers) =
    let rest = find_uid (read_key key buffer) buffers in
    if str_eq (read_key key buffer) (codes "Uid:")
    then or_else no_uid (scan_unsigned (behind_key buffer))
    else rest

unfoldable pub find_name : Bytes → Bytes → List Bytes → Bytes
unfolding read_key behind_key word
find_name cmdname key [] = cmdname
find_name cmdname key (buffer ∷ buffers) =
    let rest = find_name cmdname (read_key key buffer) buffers in
    if str_eq (read_key key buffer) (codes "Name:")
    then or_else cmdname (nonempty (word (behind_key buffer)))
    else rest

-- `junk` is what the array `key` holds before anything is read.
unfoldable pub get_process_uid : Bytes → Option (List Bytes) → ℕ
unfolding find_uid
get_process_uid junk none = no_uid
get_process_uid junk (some buffers) = find_uid junk buffers

-- `cmdname` is what the array of the caller holds.
unfoldable pub get_process_cmdname : Bytes → Bytes → Option (List Bytes) → Bytes
unfolding find_name
get_process_cmdname junk cmdname none = codes "[Unknown]"
get_process_cmdname junk cmdname (some buffers) = find_name cmdname junk buffers
