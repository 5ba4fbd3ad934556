-- ===== src/Tree.antt =====
-- SP_HW/SP_HW4/12-2.c: prints the tree of the processes.
pub mod Depth
pub mod Descendants
pub mod Reading
pub mod Fields
pub mod Listed
use sp_hw.Base.{
  ℕ, zero, suc, ◌+◌, ◌≤◌, Bool, true, false, ◌&&◌, List, [], ◌∷◌, ◌++◌, Option, none, some,
  if◌then◌else◌, ◌==◌, leb, ◌>>=◌, Bytes,
}

-- `Process`.
pub record Process : Type 0 where
  pub pid : ℕ
  pub ppid : ℕ
  pub name : Bytes

-- What is printed: the tabs of a level, or the line of a process.
pub data Item : Type 0 where
  tabs : ℕ → Item
  line : ℕ → Bytes → Item

-- The loop over j, by what the call for a child prints.
unfoldable pub print_children : (ℕ → Option (List Item)) → ℕ → List Process → Option (List Item)
print_children call pid [] = some []
print_children call pid (p ∷ ps) =
    let rest = print_children call pid ps in
    if p.ppid == pid
    then call p.pid >>= (λ items. rest >>= (λ more. some (items ++ more)))
    else rest

-- The loop over i, by what the loop over j prints.
unfoldable pub print_matches : Option (List Item) → ℕ → List Process → Option (List Item)
print_matches children pid [] = some []
print_matches children pid (p ∷ ps) =
    let rest = print_matches children pid ps in
    if p.pid == pid
    then children >>= (λ items. rest >>= (λ more. some (line p.pid p.name ∷ items ++ more)))
    else rest

-- `print_tree`, with the depth of the recursion that is left.
unfoldable pub print_tree : ℕ → ℕ → ℕ → List Process → Option (List Item)
print_tree zero pid level processes = none
print_tree (suc fuel) pid level processes =
    print_matches
      (print_children (λ child. print_tree fuel child (suc level) processes) pid processes) pid
      processes
    >>= (λ items. some (tabs level ∷ items))
