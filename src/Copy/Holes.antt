-- ===== src/Copy/Holes.antt =====
-- What cp.c leaves in the destination: the source, but for a hole at its end.
use sp_hw.Base.{
  ℕ, ◌+◌, ◌-◌, ◌≤◌, ◌≡◌, ◌≢◌, refl, sym, ap, ap₂, ◌≡⟨◌⟩◌, ◌∎, ◌∙◌, true, false, Bool-cases, inl,
  inr, List, [], ◌∷◌, ◌++◌, length, length-append, length-replicate, replicate, replicate-append,
  joined, take_all, drop_all, append-nil, append_assoc, Bytes, Calls, All, arith,
}
use mathlib.Core.Bool.{false≢true}
use sp_hw.Copy.{Dest, all_zeros, lseek_cur, write, copy_block, copy}

-- The destination stands for `bs`: its bytes and then zeros, up to the offset.
pub record Holds (bs : Bytes) (d : Dest) : Type 0 where
  pub in_file : length d.contents ≤ d.offset
  pub padded : d.contents ++ replicate (d.offset - length d.contents) 0 ≡ bs

all_zeros-replicate : (bs : Bytes) → all_zeros bs ≡ true → bs ≡ replicate (length bs) 0
unfolding all_zeros
all_zeros-replicate [] h = refl
all_zeros-replicate (b ∷ bs) h = ground (arith, all_zeros-replicate bs)

Holds-length : (bs : Bytes) (d : Dest) → Holds bs d → length bs ≡ d.offset
Holds-length bs d h =
    ap length (sym h.padded)
    ∙ length-append d.contents (replicate (d.offset - length d.contents) 0)
    ∙ omega (arith, length-replicate {A = ℕ} (d.offset - length d.contents) 0, h.in_file)

copy_block_zeros :
    (block : Bytes) (d : Dest)
    → all_zeros block ≡ true
    → copy_block block d ≡ lseek_cur (length block) d
copy_block_zeros block d z = unfold copy_block in rw z

copy_block_data :
    (block : Bytes) (d : Dest) → all_zeros block ≡ false → copy_block block d ≡ write block d
copy_block_data block d z = unfold copy_block in rw z

lseek_cur-Holds :
    (bs block : Bytes) (d : Dest)
    → all_zeros block ≡ true
    → Holds bs d
    → Holds (bs ++ block) (lseek_cur (length block) d)
unfolding lseek_cur
lseek_cur-Holds bs block d z h =
    let gap : ℕ = d.offset - length d.contents in
    record {
      in_file = omega (arith, h.in_file);
      padded =
          d.contents ++ replicate (d.offset + length block - length d.contents) 0
          ≡⟨ ap (λ n. d.contents ++ replicate n 0) (omega (arith, h.in_file)) ⟩
            d.contents ++ replicate (gap + length block) 0
          ≡⟨ ap (λ x. d.contents ++ x) (sym (replicate-append gap (length block) 0)) ⟩
            d.contents ++ (replicate gap 0 ++ replicate (length block) 0)
          ≡⟨ sym (append_assoc d.contents (replicate gap 0) (replicate (length block) 0)) ⟩
            (d.contents ++ replicate gap 0) ++ replicate (length block) 0
          ≡⟨ ap₂ ◌++◌ h.padded (sym (all_zeros-replicate block z)) ⟩ bs ++ block ∎;
    }

write-contents : (bs block : Bytes) (d : Dest) → Holds bs d → (write block d).contents ≡ bs ++ block
unfolding write
write-contents bs block d h =
    rw
      (
        take_all d.offset d.contents h.in_file,
        drop_all (d.offset + length block) d.contents (omega (arith, h.in_file)),
        append-nil block,
      )
      (sym (append_assoc d.contents (replicate (d.offset - length d.contents) 0) block)
        ∙ ap (λ x. x ++ block) h.padded)

-- A destination with no gap at its end.
Holds-contents : (bs : Bytes) (d : Dest) → d.contents ≡ bs → d.offset ≡ length bs → Holds bs d
Holds-contents bs d same at_end =
    let e : d.offset - length d.contents ≡ 0 = omega (arith, ap length same) in
    record { in_file = omega (arith, ap length same); padded = rw e (append-nil d.contents ∙ same) }

write-offset : (block : Bytes) (d : Dest) → (write block d).offset ≡ d.offset + length block
unfolding write
write-offset block d = refl

write-Holds : (bs block : Bytes) (d : Dest) → Holds bs d → Holds (bs ++ block) (write block d)
write-Holds bs block d h =
    Holds-contents (bs ++ block) (write block d) (write-contents bs block d h)
      (omega (arith, write-offset block d, length-append bs block, Holds-length bs d h))

copy_block-Holds :
    (done block : Bytes) (d : Dest) → Holds done d → Holds (done ++ block) (copy_block block d)
copy_block-Holds done block d h = elim (Bool-cases (all_zeros block)) [
  | inl z ↦ rw (copy_block_zeros block d z) (lseek_cur-Holds done block d z h)
  | inr some ↦ rw (copy_block_data block d some) (write-Holds done block d h)
]

-- `read` returns no empty block before the end of the file.
abbrev pub NonEmpty : Bytes → Type 0
NonEmpty bs = bs ≢ []

copy-Holds :
    (blocks : List Bytes) (io : Calls) (k : ℕ) (done : Bytes) (d : Dest)
    → All NonEmpty blocks
    → Holds done d
    → (copy io k blocks d).1 ≡ true
    → Holds (done ++ joined blocks) (copy io k blocks d).0
unfolding copy
copy-Holds [] io k done d ne h ok = rw append-nil h
copy-Holds ([] ∷ blocks) io k done d ne h ok = absurd (ne.0 refl)
copy-Holds ((b ∷ bs) ∷ blocks) io k done d ne h ok = elim (Bool-cases (io k)) [
  | inr bad ↦ absurd (false≢true (rw bad at ok))
  | inl ok0 ↦ elim (Bool-cases (io (k + 1))) [
    | inr bad ↦ absurd (false≢true (rw (ok0, bad) at ok))
    | inl ok1 ↦
        rw (ok0, ok1, ← append_assoc done (b ∷ bs) (joined blocks))
          (copy-Holds blocks io (k + 2) (done ++ b ∷ bs) (copy_block (b ∷ bs) d) ne.1
            (copy_block-Holds done (b ∷ bs) d h) (rw (ok0, ok1) at ok))
  ]
]

abbrev pub empty_dest : Dest
empty_dest = record { contents = []; offset = 0 }

-- Whatever blocks the reads return, a copy that succeeds leaves a destination that reads as the
-- source once the gap between its end and its offset is filled with zeros.
pub copy-fills :
    (blocks : List Bytes) (io : Calls) (k : ℕ)
    → All NonEmpty blocks
    → (copy io k blocks empty_dest).1 ≡ true
    → Holds (joined blocks) (copy io k blocks empty_dest).0
copy-fills blocks io k ne ok =
    copy-Holds blocks io k [] empty_dest ne (record { in_file = omega arith; padded = refl }) ok

joined-snoc :
    (front : List Bytes) (last : Bytes) → joined (front ++ last ∷ []) ≡ joined front ++ last
joined-snoc [] last = append-nil last
joined-snoc (b ∷ front) last =
    rw (joined-snoc front last) (sym (append_assoc b (joined front) last))

-- The destination before the last block.
before_last :
    (front : List Bytes) (last : Bytes) (io : Calls) (k : ℕ) (done : Bytes) (d : Dest)
    → All NonEmpty (front ++ last ∷ [])
    → Holds done d
    → (copy io k (front ++ last ∷ []) d).1 ≡ true
    → (d' : Dest) × Holds (done ++ joined front) d'
      × ((copy io k (front ++ last ∷ []) d).0 ≡ copy_block last d')
unfolding copy
before_last [] [] io k done d ne h ok = absurd (ne.0 refl)
before_last [] (b ∷ bs) io k done d ne h ok = (d, rw append-nil h, ground arith)
before_last ([] ∷ front) last io k done d ne h ok = absurd (ne.0 refl)
before_last ((b ∷ bs) ∷ front) last io k done d ne h ok = elim (Bool-cases (io k)) [
  | inr bad ↦ absurd (false≢true (rw bad at ok))
  | inl ok0 ↦ elim (Bool-cases (io (k + 1))) [
    | inr bad ↦ absurd (false≢true (rw (ok0, bad) at ok))
    | inl ok1 ↦
        rw (ok0, ok1, ← append_assoc done (b ∷ bs) (joined front))
          (before_last front last io (k + 2) (done ++ b ∷ bs) (copy_block (b ∷ bs) d) ne.1
            (copy_block-Holds done (b ∷ bs) d h) (rw (ok0, ok1) at ok))
  ]
]

-- A copy that succeeds holds exactly the bytes of the source if the last block is not all zeros. If
-- it is, the destination is shorter than the source by at least that block.
pub copy_last_block :
    (front : List Bytes) (last : Bytes) (io : Calls) (k : ℕ)
    → All NonEmpty (front ++ last ∷ [])
    → (copy io k (front ++ last ∷ []) empty_dest).1 ≡ true
    → let held = (copy io k (front ++ last ∷ []) empty_dest).0.contents in
      (all_zeros last ≡ false → held ≡ joined (front ++ last ∷ []))
      × (all_zeros last ≡ true → length held + length last ≤ length (joined (front ++ last ∷ [])))
copy_last_block front last io k ne ok =
    let (d, h, same) =
      before_last front last io k [] empty_dest ne (record { in_file = omega arith; padded = refl })
        ok in
    (
      λ data_block.
          rw (same, copy_block_data last d data_block)
            (write-contents (joined front) last d h ∙ sym (joined-snoc front last)),
      λ zeros.
          rw (same, copy_block_zeros last d zeros, joined-snoc front last)
            (unfold lseek_cur in
              omega (
                arith,
                h.in_file,
                Holds-length (joined front) d h,
                length-append (joined front) last,
              )),
    )
