-- ===== src/Tree/Depth.antt =====
-- How deep the recursion of 12-2.c goes.
use sp_hw.Base.{
  ℕ, zero, suc, ◌+◌, ◌≤◌, ◌<◌, ◌≡◌, refl, ap, Bool, true, false, List, [], ◌∷◌, ◌++◌, Option, none,
  some, if◌then◌else◌, ◌==◌, ==_iff, ◌>>=◌, All, arith,
}
use sp_hw.Tree.{Process, Item, tabs, line, print_children, print_matches, print_tree}

-- Something was printed: the recursion came to its end.
abbrev pub Ends : Option (List Item) → Type 0
Ends o = (items : List Item) × (o ≡ some items)

-- Every process stands deeper than its parent.
abbrev pub IsDeeper : (ℕ → ℕ) → Process → Type 0
IsDeeper depth p = depth p.ppid < depth p.pid

Ends-bind :
    (o : Option (List Item)) (f : List Item → Option (List Item))
    → Ends o
    → ((items : List Item) → Ends (f items))
    → Ends (o >>= f)
Ends-bind none f (items, e) h = absurd cc
Ends-bind (some found) f e h = h found

Ends-if :
    (b : Bool) (x y : Option (List Item)) → (b ≡ true → Ends x) → Ends y → Ends (if b then x else y)
Ends-if true x y h k = h refl
Ends-if false x y h k = k

print_children-Ends :
    (call : ℕ → Option (List Item)) (pid : ℕ) (ps : List Process)
    → All (λ p. p.ppid ≡ pid → Ends (call p.pid)) ps
    → Ends (print_children call pid ps)
unfolding print_children
print_children-Ends call pid [] h = ([], refl)
print_children-Ends call pid (p ∷ ps) h =
    let rest = print_children-Ends call pid ps (h.1) in
    Ends-if (p.ppid == pid) _ _
      (λ e.
        Ends-bind (call p.pid) _ (h.0 ((==_iff p.ppid pid).0 e))
          (λ items. Ends-bind (print_children call pid ps) _ rest (λ more. (items ++ more, refl))))
      rest

print_matches-Ends :
    (children : Option (List Item)) (pid : ℕ) (ps : List Process)
    → Ends children
    → Ends (print_matches children pid ps)
unfolding print_matches
print_matches-Ends children pid [] h = ([], refl)
print_matches-Ends children pid (p ∷ ps) h =
    let rest = print_matches-Ends children pid ps h in
    Ends-if (p.pid == pid) _ _
      (λ e. Ends-bind children _ h (λ items.
        Ends-bind (print_matches children pid ps) _ rest
          (λ more. (line p.pid p.name ∷ items ++ more, refl))))
      rest

All-map :
    {P Q : Process → Type 0} (ps : List Process) → ((p : Process) → P p → Q p) → All P ps → All Q ps
All-map [] f h = tt
All-map (p ∷ ps) f h = (f p (h.0), All-map ps f (h.1))

round-Ends :
    (fuel pid level : ℕ) (ps : List Process)
    → All (λ p. p.ppid ≡ pid → Ends (print_tree fuel p.pid (suc level) ps)) ps
    → Ends (print_tree (suc fuel) pid level ps)
unfolding print_tree
round-Ends fuel pid level ps h =
    Ends-bind _ _
      (print_matches-Ends _ pid ps
        (print_children-Ends (λ child. print_tree fuel child (suc level) ps) pid ps h))
      (λ items. (tabs level ∷ items, refl))

-- The recursion comes to its end within the levels that are left below the process.
pub print_tree-Ends :
    (depth : ℕ → ℕ) (bound fuel pid level : ℕ) (ps : List Process)
    → All (λ p. IsDeeper depth p × (depth p.pid ≤ bound)) ps
    → bound < depth pid + suc fuel
    → Ends (print_tree (suc fuel) pid level ps)
print_tree-Ends depth bound zero pid level ps h b =
    round-Ends zero pid level ps
      (All-map ps (λ p d e. absurd (omega (arith, d.0, d.1, b, ap depth e))) h)
print_tree-Ends depth bound (suc fuel) pid level ps h b = round-Ends (suc fuel) pid level ps (
    All-map ps
      (λ p d e.
        print_tree-Ends depth bound fuel p.pid (suc level) ps h
          (omega (arith, d.0, d.1, b, ap depth e)))
      h)
