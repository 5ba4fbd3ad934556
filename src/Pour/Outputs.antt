-- ===== src/Pour/Outputs.antt =====
-- What tee, mycat and pipe_ls write.
use sp_hw.Base.{
  ℕ, suc, ◌≡◌, ◌≢◌, inl, inr, refl, sym, ap, ap₂, ◌∙◌, Bool, true, false, ◌&&◌, List, [], ◌∷◌, ◌++◌,
  append-nil, append_assoc, some, if◌then◌else◌, Bool-cases, str_eq-other, ◌==◌, joined, take,
  length, Bytes, Calls, codes, str_eq, arith,
}
use sp_hw.Pour.{
  Input, Disk, target, append_target, written_if, tee_loop, tee_into, tee_target, tee_main,
  mycat_loop, mycat_main, pipe_ls_loop,
}

-- The blocks whose write succeeds, numbered from `k`.
abbrev pub passed : Calls → ℕ → List Bytes → List Bytes
passed writes k [] = []
passed writes k (block ∷ blocks) =
    let rest = passed writes (suc k) blocks in if writes k then block ∷ rest else rest

written_if-passed :
    (writes : Calls) (k : ℕ) (block : Bytes) (blocks : List Bytes) (out : Bytes)
    → written_if (writes k) block out ++ joined (passed writes (suc k) blocks)
      ≡ out ++ joined (passed writes k (block ∷ blocks))
unfolding written_if
written_if-passed writes k block blocks out = elim (Bool-cases (writes k)) [
  | inl e ↦ rw e (append_assoc out block (joined (passed writes (suc k) blocks)))
  | inr e ↦ rw e refl
]

tee_loop-passed :
    (to_file to_stdout : Calls) (k : ℕ) (blocks : List Bytes) (ends : Bool) (file stdout : Bytes)
    → tee_loop to_file to_stdout k blocks ends file stdout ≡ record {
      file = file ++ joined (passed to_file k blocks);
      stdout = stdout ++ joined (passed to_stdout k blocks);
      success = ends;
    }
unfolding tee_loop
tee_loop-passed to_file to_stdout k [] ends file stdout =
    ap₂ (λ f o. record { file = f; stdout = o; success = ends }) (sym (append-nil file))
      (sym (append-nil stdout))
tee_loop-passed to_file to_stdout k (block ∷ blocks) ends file stdout =
    tee_loop-passed to_file to_stdout (suc k) blocks ends (written_if (to_file k) block file)
      (written_if (to_stdout k) block stdout)
    ∙ ap₂ (λ f o. record { file = f; stdout = o; success = ends })
        (written_if-passed to_file k block blocks file)
        (written_if-passed to_stdout k block blocks stdout)

-- With `-a` the blocks go behind what the file holds, and without it the file holds only them. A block
-- whose write to one of the two outputs fails is missing there only, and the program ends with success
-- wherever its reads do.
pub tee_main-passed :
    (to_file to_stdout : Calls) (disk : Disk) (input : Input) (name path : Bytes)
    → disk.opens path ≡ true
    → (tee_main to_file to_stdout disk input (name ∷ codes "-a" ∷ path ∷ [])
        ≡ some record {
          file = disk.contents path ++ joined (passed to_file 0 input.blocks);
          stdout = joined (passed to_stdout 0 input.blocks);
          success = input.ends;
        })
      × (path ≢ codes "-a"
          → path ≢ codes "--help"
          → tee_main to_file to_stdout disk input (name ∷ path ∷ [])
            ≡ some record {
              file = joined (passed to_file 0 input.blocks);
              stdout = joined (passed to_stdout 0 input.blocks);
              success = input.ends;
            })
unfolding tee_main target append_target tee_target tee_into str_eq
tee_main-passed to_file to_stdout disk input name path h = (
  rw h (
      ap some
        (tee_loop-passed to_file to_stdout 0 input.blocks input.ends (disk.contents path) [])),
  λ a b.
      rw (str_eq-other a, str_eq-other b, h)
        (ap some (tee_loop-passed to_file to_stdout 0 input.blocks input.ends [] [])),
)

-- How many blocks come before the first write that fails.
abbrev pub before_failure : Calls → ℕ → List Bytes → ℕ
before_failure writes k [] = 0
before_failure writes k (block ∷ blocks) =
    let rest = before_failure writes (suc k) blocks in if writes k then suc rest else 0

and_true : (b : Bool) → (b && true) ≡ b
and_true b = ground arith

none_of_suc : (b : Bool) (n : ℕ) → (b && (0 == suc n)) ≡ false
none_of_suc b n = ground arith

same_suc : (a b : ℕ) → (a == b) ≡ (suc a == suc b)
same_suc a b = ground arith

mycat_loop-take :
    (writes : Calls) (k : ℕ) (blocks : List Bytes) (ends : Bool) (stdout : Bytes)
    → mycat_loop writes k blocks ends stdout ≡ (
      stdout ++ joined (take (before_failure writes k blocks) blocks),
      ends && (before_failure writes k blocks == length blocks),
    )
unfolding mycat_loop
mycat_loop-take writes k [] ends stdout =
    ap₂ (λ o b. (o, b)) (sym (append-nil stdout)) (sym (and_true ends))
mycat_loop-take writes k (block ∷ blocks) ends stdout = elim (Bool-cases (writes k)) [
  | inl e ↦ rw e (
      mycat_loop-take writes (suc k) blocks ends (stdout ++ block)
      ∙ ap₂ (λ o b. (o, ends && b))
          (append_assoc stdout block (joined (take (before_failure writes (suc k) blocks) blocks)))
          (same_suc (before_failure writes (suc k) blocks) (length blocks)))
  | inr e ↦
      rw e (ap₂ (λ o b. (o, b)) (sym (append-nil stdout)) (sym (none_of_suc ends (length blocks))))
]

pipe_ls_loop-mycat_loop :
    (writes : Calls) (k : ℕ) (blocks : List Bytes) (ends waits : Bool) (stdout : Bytes)
    → pipe_ls_loop writes k blocks ends waits stdout
      ≡ mycat_loop writes k blocks (ends && waits) stdout
unfolding pipe_ls_loop mycat_loop
pipe_ls_loop-mycat_loop writes k [] ends waits stdout = refl
pipe_ls_loop-mycat_loop writes k (block ∷ blocks) ends waits stdout =
    rw (pipe_ls_loop-mycat_loop writes (suc k) blocks ends waits (stdout ++ block)) refl

-- `mycat` and the parent of `pipe_ls` print the blocks in front of the first write that fails, and end
-- with success exactly if none fails and the input ends without an error, for `pipe_ls` also `waitpid`.
pub mycat_main-take :
    (writes : Calls) (disk : Disk) (input : Input) (name path : Bytes) (waits : Bool)
    → disk.opens path ≡ true
    → let blocks = input.blocks in
      let n = before_failure writes 0 blocks in
      (mycat_main writes disk input (name ∷ path ∷ [])
        ≡ (joined (take n blocks), input.ends && (n == length blocks)))
      × (pipe_ls_loop writes 0 blocks input.ends waits []
          ≡ (joined (take n blocks), (input.ends && waits) && (n == length blocks)))
unfolding mycat_main
mycat_main-take writes disk input name path waits h = (
  rw h (mycat_loop-take writes 0 input.blocks input.ends []),
  pipe_ls_loop-mycat_loop writes 0 input.blocks input.ends waits []
      ∙ mycat_loop-take writes 0 input.blocks (input.ends && waits) [],
)
