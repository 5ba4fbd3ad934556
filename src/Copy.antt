-- ===== src/Copy.antt =====
-- SP_HW/SP_HW1/cp.c: a copy that skips blocks of zeros, so that they become holes.
pub mod Holes
use sp_hw.Base.{
  ℕ, ◌+◌, ◌-◌, Bool, true, false, ◌&&◌, ◌||◌, not, List, [], ◌∷◌, ◌++◌, if◌then◌else◌, ◌==◌, length,
  get_or, take, drop, replicate, Bytes, Calls, codes, str_eq,
}

-- The destination: what the file holds, and the offset of its descriptor.
pub record Dest : Type 0 where
  pub contents : Bytes
  pub offset : ℕ

-- Whether the bytes that a read returned are all zero.
unfoldable pub all_zeros : Bytes → Bool
all_zeros [] = true
all_zeros (b ∷ bs) = if not (b == 0) then false else all_zeros bs

-- `lseek(fd, n, SEEK_CUR)`: the offset moves, also past the end; the file stays.
unfoldable pub lseek_cur : ℕ → Dest → Dest
lseek_cur n d = record d { offset = d.offset + n }

-- `write` at the offset: a gap behind the end of the file reads as zeros.
unfoldable pub write : Bytes → Dest → Dest
write bs d = record {
  contents =
      take d.offset d.contents
      ++ (replicate (d.offset - length d.contents) 0
          ++ (bs ++ drop (d.offset + length bs) d.contents));
  offset = d.offset + length bs;
}

-- One block: skipped if it is all zeros, written if not.
unfoldable pub copy_block : Bytes → Dest → Dest
unfolding all_zeros lseek_cur write
copy_block block d = if all_zeros block then lseek_cur (length block) d else write block d

-- The copying loop over what the reads return, one block each; a read of no bytes is the end of
-- the file. The result says whether the program comes to EXIT_SUCCESS.
unfoldable pub copy : Calls → ℕ → List Bytes → Dest → Dest × Bool
copy io k [] d = (d, io k)
copy io k ([] ∷ blocks) d = (d, io k)
copy io k ((b ∷ bs) ∷ blocks) d =
    let rest = copy io (k + 2) blocks (copy_block (b ∷ bs) d) in
    if not (io k) then (d, false) else if not (io (k + 1)) then (d, false) else rest

-- The command: the calls are numbered from the two `open`s. O_TRUNC empties the destination.
unfoldable pub cp_main : Calls → List Bytes → List Bytes → Dest → Dest × Bool
unfolding copy copy_block
cp_main io argv blocks old =
    let copied = copy io 2 blocks (record { contents = []; offset = 0 }) in
    if not (length argv == 3) || str_eq (get_or argv 1 []) (codes "--help")
    then (old, false)
    else if not (io 0)
    then (old, false)
    else if not (io 1)
    then (old, false)
    else copied
