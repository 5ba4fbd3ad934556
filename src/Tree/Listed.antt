-- ===== src/Tree/Listed.antt =====
-- What 12-2.c makes of the status files that the kernel writes.
use sp_hw.Base.{
  ℕ, suc, ◌+◌, ◌≤◌, ◌<◌, ◌≡◌, refl, ap, ap₂, inl, inr, true, List, [], ◌∷◌, map, Option, some,
  ltb-true, ltb-false, Bool-cases, length, All, Bytes,
}
use sp_hw.Proc.{is_numeric, select}
use sp_hw.Tree.{Process, Item, line}
use sp_hw.Tree.Depth.{IsDeeper}
use sp_hw.Tree.Descendants.{In, Below, print_tree-Below}
use sp_hw.Tree.Reading.{
  add_process, read_processes, unless_fails, no_errno, table_size, overruns, prints,
  print_processes, tree_main,
}
use sp_hw.Tree.Fields.{StatusFile, lines, IsStatus, process_of, get_process_info-lines}

-- The entry has the status file `status`.
abbrev pub HasStatus : (Bytes → Option (List Bytes)) → (Bytes → StatusFile) → Bytes → Type 0
HasStatus files status entry = (files entry ≡ some (lines (status entry))) × IsStatus (status entry)

-- The processes that are in /proc.
abbrev pub processes_of : (Bytes → StatusFile) → List Bytes → List Process
processes_of status entries = map (process_of status) (select is_numeric entries)

read_processes-processes_of :
    (files : Bytes → Option (List Bytes)) (junk : Bytes → Bytes) (status : Bytes → StatusFile)
    (entries : List Bytes)
    → All (λ entry. is_numeric entry ≡ true → HasStatus files status entry) entries
    → read_processes files junk entries ≡ processes_of status entries
unfolding read_processes add_process
read_processes-processes_of files junk status [] h = refl
read_processes-processes_of files junk status (entry ∷ entries) h =
    let rest = read_processes-processes_of files junk status entries (h.1) in
    elim (Bool-cases (is_numeric entry)) [
      | inr other ↦ rw (other) rest
      | inl number ↦
          let has = h.0 number in
          rw (number, has.0)
            (ap₂ add_process (get_process_info-lines (junk entry) entry status (has.1)) rest)
    ]

-- Where every process has its status file, no `fopen` fails.
no_errno-true :
    (files : Bytes → Option (List Bytes)) (status : Bytes → StatusFile) (entries : List Bytes)
    → All (λ entry. is_numeric entry ≡ true → HasStatus files status entry) entries
    → no_errno files entries ≡ true
unfolding no_errno unless_fails
no_errno-true files status [] h = refl
no_errno-true files status (entry ∷ entries) h =
    let rest = no_errno-true files status entries (h.1) in
    elim (Bool-cases (is_numeric entry)) [
      | inr other ↦ rw (other) rest
      | inl number ↦ rw (number, (h.0 number).0) rest
    ]

-- Over status files as the kernel writes them, of at most 1,024 processes of which each stands deeper than its
-- parent and none deeper than a bound: the program prints the line of every process whose chain of
-- parents in /proc leads to process 1, and the recursion takes no more levels than the bound leaves
-- below process 1.
pub tree_main-Below :
    (files : Bytes → Option (List Bytes)) (junk : Bytes → Bytes) (status : Bytes → StatusFile)
    (entries : List Bytes) (depth : ℕ → ℕ) (bound fuel : ℕ)
    → All (λ entry. is_numeric entry ≡ true → HasStatus files status entry) entries
    → length (processes_of status entries) ≤ table_size
    → All (λ p. IsDeeper depth p × (depth p.pid ≤ bound)) (processes_of status entries)
    → bound < depth 1 + suc fuel
    → (items : List Item) × (tree_main (suc fuel) files junk entries ≡ prints (some items))
      × ((p : Process) → Below (processes_of status entries) 1 p → In (line p.pid p.name) items)
unfolding tree_main print_processes
tree_main-Below files junk status entries depth bound fuel h room deep b =
    let ps = processes_of status entries in
    let (items, e, all_below) = print_tree-Below depth bound fuel 1 0 ps deep b in
    (
      items,
      rw
          (
            read_processes-processes_of files junk status entries h,
            ltb-false table_size (length ps) room,
            no_errno-true files status entries h,
          )
          (ap prints e),
      all_below,
    )

-- With a readable process more than the table has room for, the program writes behind the table.
pub tree_main-overruns :
    (fuel : ℕ) (files : Bytes → Option (List Bytes)) (junk : Bytes → Bytes)
    (status : Bytes → StatusFile) (entries : List Bytes)
    → All (λ entry. is_numeric entry ≡ true → HasStatus files status entry) entries
    → table_size < length (processes_of status entries)
    → tree_main fuel files junk entries ≡ overruns
unfolding tree_main print_processes
tree_main-overruns fuel files junk status entries h more =
    rw
      (
        read_processes-processes_of files junk status entries h,
        ltb-true table_size (length (processes_of status entries)) more,
      )
      refl
