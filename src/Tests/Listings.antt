-- ===== src/Tests/Listings.antt =====
-- Small /proc directories for the programs of SP_HW4.
use sp_hw.Base.{
  ◌≡◌, refl, ap, Option, none, some, List, [], ◌∷◌, arith, length, Bytes, codes, cstr, str_eq,
  if◌then◌else◌,
}
use sp_hw.Proc.{is_digit, is_numeric}
use sp_hw.Proc.Status.{digits, word, read_key, skip_space}
use sp_hw.Proc.Fields.{StatusFile, lines, IsStatus}
use sp_hw.Proc.Users.{Files, list_user, HasStatus, list_user-select}
use sp_hw.Proc.Opened.{Descriptor, gone, target, warns, has_open, finished, list_opened, is_dot}
use sp_hw.Proc.Openers.{list_opened-all_lines}

abbrev tmux : StatusFile
tmux = record {
  comm = codes "tmux: server";
  middle = codes "Umask:\t0022\n" ∷ [];
  owner = codes "1000";
  behind = codes "1000\n";
  after = [];
}

abbrev files : Files
files = record {
  for_uid = λ entry. some (lines tmux);
  for_name = λ entry. some (lines tmux);
  uid_key = λ entry. [];
  name_key = λ entry. [];
  cmdname = λ entry. [];
}

tmux-IsStatus : IsStatus tmux
unfolding read_key skip_space word digits is_digit
tmux-IsStatus = record {
  named = refl;
  others = (λ e. absurd (omega (arith, ap length e)), tt);
  numeric = (refl, (refl, (refl, (refl, tt))));
  nonempty = λ e. absurd (omega (arith, ap length e));
  small = omega arith;
}

tmux_listed : HasStatus files (λ entry. tmux) (codes "17")
tmux_listed = record { uid_file = refl; name_file = refl; is_status = tmux-IsStatus }

-- The name of `tmux: server` is cut behind its first word.
list_user-select_example :
    list_user files 1000 (codes "." ∷ codes "17" ∷ []) ≡ (codes "17", codes "tmux:") ∷ []
unfolding is_numeric is_digit digits word
list_user-select_example =
    list_user-select files (λ entry. tmux) 1000 (codes "." ∷ codes "17" ∷ [])
      ((λ e. absurd (ground (arith, e))), ((λ e. tmux_listed), tt))

abbrev one_fd : List Descriptor
one_fd =
    record { d_name = codes "."; link = gone }
    ∷ record { d_name = codes "0"; link = target (codes "/a") }
    ∷ record { d_name = codes "1"; link = gone }
    ∷ []

-- Process 2 belongs to another user.
abbrev fds_of : Bytes → Option (List Descriptor)
fds_of pid = if str_eq pid (codes "2") then none else some one_fd

list_opened-all_lines_example :
    list_opened fds_of (codes "/a") (codes "1" ∷ codes "self" ∷ [])
    ≡ finished (has_open (codes "1") (codes "/a") ∷ warns (codes "1") (codes "1") ∷ [])
unfolding is_numeric is_digit is_dot str_eq cstr
list_opened-all_lines_example =
    list_opened-all_lines fds_of (codes "/a") (codes "1" ∷ codes "self" ∷ [])
      (λ e. absurd (omega (arith, ap length e)))
      ((λ e. (tt, ((omega arith, refl), (tt, tt)))), ((λ e. absurd (ground (arith, e))), tt))
