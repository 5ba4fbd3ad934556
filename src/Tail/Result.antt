-- ===== src/Tail/Result.antt =====
-- Where the scan of tail.c stops, and what is printed from there.
use sp_hw.Base.{
  leb, ltb-false, Bool, not, ◌&&◌, ◌||◌, ℕ, zero, suc, ◌+◌, ◌-◌, ◌≤◌, ◌<◌, ◌≡◌, ◌⊎◌, inl, inr, refl,
  sym, ap, subst, ◌∙◌, true, false, Bool-cases, ==_iff, [], ◌∷◌, ◌++◌, Option, none, some,
  if◌then◌else◌, ltb, ◌==◌, length, length-take, length-drop, get_or, get_or-take, get_or-drop,
  take, drop, take-append-drop, drop-lt, take_all, Bytes, pos, Calls, arith,
}
use sp_hw.Tail.{
  buf_size, int_max, too_many, overflows, Seek, at, failed, overflow, out_of_fuel, after_block,
  scan, seek, print_rest, Run, print_from, tail,
}
use sp_hw.Tail.Lines.{newlines, newlines-take-block, newlines-take-drop, scan-Scanned, Scanned}

-- The offset `q` at which the last `m` lines of the file start: 0 if the file has no more than `m`
-- newlines, or just behind the newline that has exactly `m` newlines after it.
pub data IsStart (file : Bytes) (m : ℕ) : ℕ → Type 0 where
  whole : newlines file ≤ m → IsStart file m 0
  behind :
      (j : ℕ)
      → j < length file
      → get_or file j 0 ≡ b'\n'
      → newlines file ≡ m + 1 + newlines (take j file)
      → IsStart file m (suc j)

abbrev pub SomeFails : Calls → Type 0
SomeFails io = (k : ℕ) × (io k ≡ false)

abbrev pub Stops : Bytes → ℕ → Calls → Seek → Type 0
Stops file m io (at q k) = IsStart file m q
Stops file m io failed = SomeFails io
Stops file m io overflow = ⊥
Stops file m io out_of_fuel = ⊥

module _ (file : Bytes) (m start size count : ℕ) (fits : start + size ≤ length file) where
  IsStart-block :
      (c i : ℕ)
      → count + newlines (take (start + size) file) ≡ newlines file
      → Scanned size (take size (drop start file)) m count (c, some i)
      → IsStart file m (start + (i + 1))
  IsStart-block c i total (lt, here, found, is) =
      let e : start + (i + 1) ≡ suc (start + i) = omega arith in
      rw e (
        behind (start + i) (omega arith)
          (sym (get_or-drop start i file 0)
            ∙ sym (get_or-take size i (drop start file) 0 lt)
            ∙ here)
          (omega (
            arith,
            newlines-take-block start size size file,
            newlines-take-block start size i file,
          )))

  after_block-Stops :
      (io : Calls) (k : ℕ) (found : ℕ × Option ℕ) (next : ℕ → Seek)
      → count + newlines (take (start + size) file) ≡ newlines file
      → Scanned size (take size (drop start file)) m count found
      → ((c : ℕ)
          → c ≤ m
          → 0 < start
          → c + newlines (take start file) ≡ newlines file
          → Stops file m io (next c))
      → Stops file m io (after_block io k start found next)
  unfolding after_block newlines
  after_block-Stops io k (c, some i) next total scanned go = elim (Bool-cases (io (k + 2))) [
    | inl ok ↦ rw ok (IsStart-block c i total scanned)
    | inr bad ↦ rw bad (k + 2, bad)
  ]
  after_block-Stops io k (c, none) next total (counted, le) go =
      let tot : c + newlines (take start file) ≡ newlines file =
        omega (arith, newlines-take-block start size size file) in
      elim (Bool-cases (start == 0)) [
        | inr more ↦ rw more (go c le (ground arith) tot)
        | inl first ↦ elim (Bool-cases (io (k + 2))) [
          | inl ok ↦
              rw (first, ok)
                (subst (IsStart file m) (sym ((==_iff start 0).0 first))
                  (whole (at_zero start ((==_iff start 0).0 first) tot)))
          | inr bad ↦ rw (first, bad) (k + 2, bad)
        ]
      ]
    where
      at_zero : (s : ℕ) → s ≡ 0 → c + newlines (take s file) ≡ newlines file → newlines file ≤ m
      at_zero zero e t = omega arith
      at_zero (suc s) e t = absurd (omega arith)

leb-false : (a b : ℕ) → b < a → leb a b ≡ false
leb-false a b h = ground arith

no_reason : (b : Bool) → ((not b && false) || false) ≡ false
no_reason true = refl
no_reason false = refl

overflows-Scanned :
    (size : ℕ) (buf : Bytes) (m count : ℕ) (found : ℕ × Option ℕ)
    → m < int_max
    → Scanned size buf m count found
    → overflows size (pos m) found ≡ false
unfolding overflows too_many
overflows-Scanned size buf m count (c, none) small (counted, le) =
    rw (leb-false int_max m small, ltb-false int_max c (omega arith)) (no_reason (size == 0))
overflows-Scanned size buf m count (c, some i) small (lt, here, found, is) =
    rw (leb-false int_max m small, ltb-false int_max c (omega (arith, is))) (no_reason (size == 0))

seek-Stops :
    (fuel : ℕ) (io : Calls) (k : ℕ) (file : Bytes) (m position count : ℕ)
    → m < int_max
    → position < fuel
    → position ≤ length file
    → count ≤ m
    → count + newlines (take position file) ≡ newlines file
    → Stops file m io (seek fuel io k file (pos m) position count)
unfolding seek
seek-Stops zero io k file m position count small h le cm total = absurd (omega arith)
seek-Stops (suc fuel) io k file m position count small h le cm total =
    let size : ℕ = if ltb position buf_size then position else buf_size in
    let start : ℕ = position - size in
    let e : start + size ≡ position = ground arith in
    let block : Bytes = take size (drop start file) in
    let scanned =
      scan-Scanned size block m count
        (omega (arith, length-take size (drop start file), length-drop start file)) cm in
    let result =
      after_block-Stops file m start size count (omega arith) io k (scan size block (pos m) count)
        (seek fuel io (k + 2) file (pos m) start) (rw e total) scanned
        (λ c cle pos_start tot.
          seek-Stops fuel io (k + 2) file m start c small (ground arith) (omega arith) cle tot) in
    let in_range =
      overflows-Scanned size block m count (scan size block (pos m) count) small scanned in
    elim (Bool-cases (io k)) [
      | inl ok ↦ elim (Bool-cases (io (k + 1))) [
        | inl ok2 ↦ rw (ok, ok2, in_range) result
        | inr bad ↦ rw (ok, bad) (k + 1, bad)
      ]
      | inr bad ↦ rw bad (k, bad)
    ]

-- Printing from a suffix: all of it when every call succeeds.
print_rest-Prints :
    (fuel : ℕ) (io : Calls) (k : ℕ) (rest : Bytes)
    → length rest < fuel
    → ((print_rest fuel io k rest).1 ≡ true) × ((print_rest fuel io k rest).0 ≡ rest)
      ⊎ ((print_rest fuel io k rest).1 ≡ false) × SomeFails io
unfolding print_rest
print_rest-Prints zero io k rest h = absurd (omega arith)
print_rest-Prints (suc fuel) io k [] h = elim (Bool-cases (io k)) [
  | inl ok ↦ inl (ok, refl)
  | inr bad ↦ inr (bad, (k, bad))
]
print_rest-Prints (suc fuel) io k (b ∷ bs) h = elim (Bool-cases (io k)) [
  | inr bad ↦ rw bad (inr (refl, (k, bad)))
  | inl ok ↦ elim (Bool-cases (io (k + 1))) [
    | inr bad ↦ rw (ok, bad) (inr (refl, (k + 1, bad)))
    | inl ok1 ↦
        rw (ok, ok1)
          (elim (print_rest-Prints fuel io (k + 2) (drop buf_size (b ∷ bs))
            (omega (arith, length-drop buf_size (b ∷ bs)))) [
              | inl (done, all) ↦ inl (done, rw all (take-append-drop buf_size (b ∷ bs)))
              | inr (bad, failing) ↦ inr (bad, failing)
            ])
  ]
]

-- `out` is the last `m` lines of the file: all of it if it has no more than `m` newlines, and else
-- what follows the newline that has exactly `m` newlines behind it.
abbrev pub IsLastLines : ℕ → Bytes → Bytes → Type 0
IsLastLines m file out =
    ((newlines file ≤ m) × (out ≡ file))
    ⊎ ((before : Bytes) × (file ≡ before ++ (b'\n' ∷ out)) × (newlines out ≡ m))

IsStart-IsLastLines : {file : Bytes} {m q : ℕ} → IsStart file m q → IsLastLines m file (drop q file)
IsStart-IsLastLines (whole few) = inl (few, refl)
IsStart-IsLastLines {file} {m} (behind j lt here total) =
    let cut : drop j file ≡ b'\n' ∷ drop (suc j) file = rw (← here) (drop-lt j file 0 lt) in
    inr (
      take j file,
      rw (← cut) (sym (take-append-drop j file)),
      unfold newlines in omega (arith, newlines-take-drop j file, ap newlines cut),
    )

-- What a run of `tail` with a non-negative count means.
abbrev pub IsTail : ℕ → Bytes → Calls → Run → Type 0
IsTail m file io r =
    (r.overflowed ≡ false)
    × (((r.success ≡ true) × IsLastLines m file r.output) ⊎ ((r.success ≡ false) × SomeFails io))

print_from-IsTail :
    (io : Calls) (file : Bytes) (m : ℕ) (s : Seek)
    → Stops file m io s
    → IsTail m file io (print_from io file s)
unfolding print_from
print_from-IsTail io file m (at q k) start =
    elim (print_rest-Prints (suc (length file)) io k (drop q file)
      (omega (arith, length-drop q file))) [
        | inl (done, all) ↦ (refl, inl (done, rw all (IsStart-IsLastLines start)))
        | inr (bad, some_call) ↦ (refl, inr (bad, some_call))
      ]
print_from-IsTail io file m failed bad = (refl, inr (refl, bad))
print_from-IsTail io file m overflow never = absurd never
print_from-IsTail io file m out_of_fuel never = absurd never

-- On a file that opens, with a count m that is not negative and below INT_MAX, no int overflows, and `tail`
-- either succeeds and has printed the whole file, if it has no more than m newlines, or what follows the
-- newline that has exactly m newlines behind it, or reports failure and then one of its system calls has
-- failed. The fuel given for its loops suffices.
pub tail-IsTail :
    (io : Calls) (file : Bytes) (m : ℕ) → m < int_max → IsTail m file io (tail io file (pos m))
unfolding tail
tail-IsTail io file m small = elim (Bool-cases (io 0)) [
  | inr bad ↦ rw bad (refl, inr (refl, (0, bad)))
  | inl ok ↦ elim (Bool-cases (io 1)) [
    | inr bad ↦ rw (ok, bad) (refl, inr (refl, (1, bad)))
    | inl ok1 ↦
        rw (ok, ok1)
          (print_from-IsTail io file m _ (
            seek-Stops (suc (length file)) io 2 file m (length file) 0 small (omega arith)
              (omega arith) (omega arith)
              (rw (take_all (length file) file (omega arith)) (omega arith))))
  ]
]
