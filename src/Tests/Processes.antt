-- ===== src/Tests/Processes.antt =====
-- A table of three processes for 12-2.c.
use sp_hw.Base.{
  ◌≤◌, ◌≡◌, refl, ap, true, Option, All, Bytes, length, str_eq, if◌then◌else◌, List, [], ◌∷◌, some,
  codes, arith,
}
use sp_hw.Proc.{is_digit, is_numeric}
use sp_hw.Proc.Status.{digits, word, read_key, skip_space}
use sp_hw.Tree.Depth.{IsDeeper}
use sp_hw.Tree.Fields.{StatusFile, lines, IsStatus}
use sp_hw.Tree.Reading.{pid_of, prints, tree_main}
use sp_hw.Tree.Listed.{processes_of, tree_main-Below}
use sp_hw.Tree.{Process, Item, tabs, line, print_children, print_matches, print_tree}
use sp_hw.Tree.Descendants.{In, Below}

abbrev table : List Process
table =
    record { pid = 1; ppid = 0; name = codes "init" }
    ∷ record { pid = 3; ppid = 2; name = codes "cat" }
    ∷ record { pid = 2; ppid = 1; name = codes "sh" }
    ∷ []

table_printed :
    print_tree 4 1 0 table
    ≡ some (
        tabs 0
        ∷ line 1 (codes "init")
        ∷ tabs 1
        ∷ line 2 (codes "sh")
        ∷ tabs 2
        ∷ line 3 (codes "cat")
        ∷ [])
unfolding print_tree print_matches print_children
table_printed = refl

abbrev own_parent : Process
own_parent = record { pid = 5; ppid = 5; name = codes "x" }

abbrev status : Bytes → StatusFile
status entry =
    if str_eq entry (codes "1")
    then record {
      comm = codes "init";
      middle = codes "Pid:\t1\n" ∷ [];
      parent = codes "0";
      after = [];
    }
    else record {
      comm = codes "sh -l";
      middle = [];
      parent = codes "1";
      after = codes "Uid:\t7\n" ∷ [];
    }

abbrev files : Bytes → Option (List Bytes)
files entry = some (lines (status entry))

init-IsStatus : IsStatus (status (codes "1"))
unfolding str_eq read_key skip_space word digits is_digit
init-IsStatus = record {
  named = refl;
  middle_others = (
    record {
      keyed = λ e. absurd (omega (arith, ap length e));
      no_ppid = λ e. absurd (omega (arith, ap length e));
      no_name = λ e. absurd (omega (arith, ap length e));
    },
    tt,
  );
  after_others = tt;
  numeric = (refl, tt);
  has_parent = λ e. absurd (omega (arith, ap length e));
  small = omega arith;
}

sh-IsStatus : IsStatus (status (codes "2"))
unfolding str_eq read_key skip_space word digits is_digit
sh-IsStatus = record {
  named = refl;
  middle_others = tt;
  after_others = (
    record {
      keyed = λ e. absurd (omega (arith, ap length e));
      no_ppid = λ e. absurd (omega (arith, ap length e));
      no_name = λ e. absurd (omega (arith, ap length e));
    },
    tt,
  );
  numeric = (refl, tt);
  has_parent = λ e. absurd (omega (arith, ap length e));
  small = omega arith;
}

tree_main-Below_example :
    (items : List Item) × (tree_main 2 files
        (λ entry. [])
        (codes "self" ∷ codes "2" ∷ codes "1" ∷ [])
      ≡ prints (some items))
    × ((p : Process)
        → Below (processes_of status (codes "self" ∷ codes "2" ∷ codes "1" ∷ [])) 1 p
        → In (line p.pid p.name) items)
tree_main-Below_example =
    tree_main-Below files (λ entry. []) status (codes "self" ∷ codes "2" ∷ codes "1" ∷ []) (λ n. n)
      2 1
      (
        (λ e. absurd (self_not_numeric e)),
        ((λ e. (refl, sh-IsStatus)), ((λ e. (refl, init-IsStatus)), tt)),
      )
      two_fit deep (omega arith)
  where
    self_not_numeric : is_numeric (codes "self") ≡ true → ⊥
    self_not_numeric e = unfold is_numeric is_digit in cc e

    two_fit : length (processes_of status (codes "self" ∷ codes "2" ∷ codes "1" ∷ [])) ≤ 1024
    two_fit = unfold is_numeric is_digit in omega arith

    deep :
        All
          (λ p. IsDeeper (λ n. n) p × (p.pid ≤ 2))
          (processes_of status (codes "self" ∷ codes "2" ∷ codes "1" ∷ []))
    deep =
        unfold is_numeric is_digit pid_of digits str_eq in
        ((omega arith, omega arith), ((omega arith, omega arith), tt))
