-- ===== src/Tree/Descendants.antt =====
-- Which processes 12-2.c prints.
use sp_hw.Base.{
  true_not_false, ℕ, zero, suc, ◌+◌, ◌≤◌, ◌<◌, ◌≡◌, ◌⊎◌, inl, inr, refl, subst, Bool, true, false,
  List, [], ◌∷◌, ◌++◌, Option, none, some, if◌then◌else◌, ◌==◌, ==_iff, ◌>>=◌, All,
}
use sp_hw.Tree.{Process, Item, tabs, line, print_children, print_matches, print_tree}
use sp_hw.Tree.Depth.{IsDeeper, print_tree-Ends}

-- An element of a list.
pub data In {A : Type 0} (a : A) : List A → Type 0 where
  first : {xs : List A} → In a (a ∷ xs)
  later : {b : A} {xs : List A} → In a xs → In a (b ∷ xs)

-- The process is in the table, and its chain of parents in the table leads to the root.
pub data Below (ps : List Process) : ℕ → Process → Type 0 where
  itself : {root : ℕ} {p : Process} → In p ps → p.pid ≡ root → Below ps root p
  under :
      {root : ℕ} {q c p : Process}
      → In q ps
      → q.pid ≡ root
      → In c ps
      → c.ppid ≡ root
      → Below ps c.pid p
      → Below ps root p

in_left : {A : Type 0} {a : A} {xs : List A} (ys : List A) → In a xs → In a (xs ++ ys)
in_left ys first = first
in_left ys (later i) = later (in_left ys i)

in_right : {A : Type 0} {a : A} (xs : List A) {ys : List A} → In a ys → In a (xs ++ ys)
in_right [] i = i
in_right (x ∷ xs) i = later (in_right xs i)

-- The parts of what two calls print.
both_end :
    (o q : Option (List Item)) (f : List Item → List Item → List Item) (items : List Item)
    → (o >>= (λ a. q >>= (λ b. some (f a b)))) ≡ some items
    → (a b : List Item) × (o ≡ some a) × (q ≡ some b) × (f a b ≡ items)
both_end none q f items e = absurd cc
both_end (some a) none f items e = absurd cc
both_end (some a) (some b) f items e = (a, b, refl, refl, cc)

if_cases :
    (b : Bool) (x y : Option (List Item)) (items : List Item)
    → (if b then x else y) ≡ some items
    → ((b ≡ true) × (x ≡ some items)) ⊎ ((b ≡ false) × (y ≡ some items))
if_cases true x y items e = inl (refl, e)
if_cases false x y items e = inr (refl, e)

-- What a call prints stands among other items.
IsPart : Option (List Item) → List Item → Type 0
IsPart o items = (sub : List Item) × (o ≡ some sub) × ((x : Item) → In x sub → In x items)

IsPart-more :
    (o : Option (List Item)) (more items : List Item)
    → ((x : Item) → In x more → In x items)
    → IsPart o more
    → IsPart o items
unfolding IsPart
IsPart-more o more items h (sub, e, k) = (sub, e, λ x i. h x (k x i))

print_children-IsPart :
    (call : ℕ → Option (List Item)) (pid : ℕ) (ps : List Process) (items : List Item) (c : Process)
    → print_children call pid ps ≡ some items
    → In c ps
    → c.ppid ≡ pid
    → IsPart (call c.pid) items
unfolding print_children IsPart
print_children-IsPart call pid [] items c e i h = elim i [ ]
print_children-IsPart call pid (p ∷ ps) items c e first h =
    elim (if_cases (p.ppid == pid) _ _ items e) [
      | inl (b, k) ↦
          let (sub, more, o, q, f) =
            both_end (call p.pid) (print_children call pid ps) (λ x y. x ++ y) items k in
          (sub, o, λ x i. subst (In x) f (in_left more i))
      | inr (b, k) ↦ absurd (true_not_false ((==_iff p.ppid pid).1 h) b)
    ]
print_children-IsPart call pid (p ∷ ps) items c e (later i) h =
    elim (if_cases (p.ppid == pid) _ _ items e) [
      | inl (b, k) ↦
          let (sub, more, o, q, f) =
            both_end (call p.pid) (print_children call pid ps) (λ x y. x ++ y) items k in
          IsPart-more (call c.pid) more items (λ x j. subst (In x) f (in_right sub j))
            (print_children-IsPart call pid ps more c q i h)
      | inr (b, k) ↦ print_children-IsPart call pid ps items c k i h
    ]

-- The loop over i prints the line of every process with the number, and its children below it.
print_matches-In :
    (children : Option (List Item)) (pid : ℕ) (ps : List Process) (items : List Item) (c : Process)
    → print_matches children pid ps ≡ some items
    → In c ps
    → c.pid ≡ pid
    → In (line c.pid c.name) items × IsPart children items
unfolding print_matches IsPart
print_matches-In children pid [] items c e i h = elim i [ ]
print_matches-In children pid (p ∷ ps) items c e first h =
    elim (if_cases (p.pid == pid) _ _ items e) [
      | inl (b, k) ↦
          let (sub, more, o, q, f) =
            both_end children (print_matches children pid ps) (λ x y. line p.pid p.name ∷ x ++ y)
              items k in
          (
            subst (In (line p.pid p.name)) f first,
            (sub, o, λ x i. subst (In x) f (later (in_left more i))),
          )
      | inr (b, k) ↦ absurd (true_not_false ((==_iff p.pid pid).1 h) b)
    ]
print_matches-In children pid (p ∷ ps) items c e (later i) h =
    elim (if_cases (p.pid == pid) _ _ items e) [
      | inl (b, k) ↦
          let (sub, more, o, q, f) =
            both_end children (print_matches children pid ps) (λ x y. line p.pid p.name ∷ x ++ y)
              items k in
          let (l, part) = print_matches-In children pid ps more c q i h in
          (
            subst (In (line c.pid c.name)) f (later (in_right sub l)),
            IsPart-more children more items (λ x j. subst (In x) f (later (in_right sub j))) part,
          )
      | inr (b, k) ↦ print_matches-In children pid ps items c k i h
    ]

then_some :
    (o : Option (List Item)) (t : Item) (items : List Item)
    → (o >>= (λ xs. some (t ∷ xs))) ≡ some items
    → (xs : List Item) × (o ≡ some xs) × (t ∷ xs ≡ items)
then_some none t items e = absurd cc
then_some (some xs) t items e = (xs, refl, cc)

-- Where the recursion ends, every process below the root has its line.
print_tree-In :
    (fuel root level : ℕ) (ps : List Process) (items : List Item) (p : Process)
    → print_tree fuel root level ps ≡ some items
    → Below ps root p
    → In (line p.pid p.name) items
unfolding print_tree IsPart
print_tree-In zero root level ps items p e b = absurd cc
print_tree-In (suc fuel) root level ps items p e (itself i h) =
    let (xs, o, t) = then_some _ (tabs level) items e in
    subst (In (line p.pid p.name)) t (later ((print_matches-In _ root ps xs p o i h).0))
print_tree-In (suc fuel) root level ps items p e (under {q = q} {c = c} i h k l b) =
    let (xs, o, t) = then_some _ (tabs level) items e in
    let (children, d, f) = (print_matches-In _ root ps xs q o i h).1 in
    let (sub, g, z) =
      print_children-IsPart (λ n. print_tree fuel n (suc level) ps) root ps children c d k l in
    subst (In (line p.pid p.name)) t
      (later (f _ (z _ (print_tree-In fuel c.pid (suc level) ps sub p g b))))

-- If every process of the table stands deeper than its parent, and none deeper than a bound, the call
-- for a process ends, with one level of recursion more than the bound leaves below the process, and
-- prints the line of every process in the table whose chain of parents leads to it.
pub print_tree-Below :
    (depth : ℕ → ℕ) (bound fuel root level : ℕ) (ps : List Process)
    → All (λ p. IsDeeper depth p × (depth p.pid ≤ bound)) ps
    → bound < depth root + suc fuel
    → (items : List Item) × (print_tree (suc fuel) root level ps ≡ some items)
      × ((p : Process) → Below ps root p → In (line p.pid p.name) items)
print_tree-Below depth bound fuel root level ps h b =
    let (items, e) = print_tree-Ends depth bound fuel root level ps h b in
    (items, e, λ p i. print_tree-In (suc fuel) root level ps items p e i)

none_unless_some : (o : Option (List Item)) → ((items : List Item) → o ≡ some items → ⊥) → o ≡ none
none_unless_some none h = refl
none_unless_some (some items) h = absurd (h items refl)

own_parent_not_some :
    (fuel level : ℕ) (ps : List Process) (p : Process) (items : List Item)
    → In p ps
    → p.ppid ≡ p.pid
    → print_tree fuel p.pid level ps ≡ some items
    → ⊥
unfolding print_tree IsPart
own_parent_not_some zero level ps p items i h e = cc
own_parent_not_some (suc fuel) level ps p items i h e =
    let (xs, o, t) = then_some _ (tabs level) items e in
    let (children, d, f) = (print_matches-In _ p.pid ps xs p o i refl).1 in
    let (sub, g, z) =
      print_children-IsPart (λ n. print_tree fuel n (suc level) ps) p.pid ps children p d i h in
    own_parent_not_some fuel (suc level) ps p sub i h g

-- A process of the table that is its own parent makes the recursion endless: no depth is enough.
pub print_tree_endless :
    (fuel level : ℕ) (ps : List Process) (p : Process)
    → In p ps
    → p.ppid ≡ p.pid
    → print_tree fuel p.pid level ps ≡ none
print_tree_endless fuel level ps p i h =
    none_unless_some _ (λ items. own_parent_not_some fuel level ps p items i h)
