-- ===== src/Mirror.antt =====
-- SP_HW/SP_HW9/49_1/49_1.c: a copy of a file through two mappings.
pub mod Whole
use sp_hw.Base.{
  ℕ, ◌+◌, ◌-◌, Bool, true, false, ◌&&◌, ◌||◌, not, List, [], ◌∷◌, ◌++◌, Option, none, some,
  if◌then◌else◌, ◌==◌, length, get_or, take, drop, replicate, Bytes, Calls, codes, str_eq,
}

-- What a path holds, none where there is no file.
abbrev pub contents : Option Bytes → Bytes
contents none = []
contents (some bytes) = bytes

-- `ftruncate` cuts the file or fills it with zeros.
unfoldable pub ftruncate : ℕ → Bytes → Bytes
ftruncate n bytes = take n bytes ++ replicate (n - length bytes) 0

-- `memcpy` to the start of the destination's mapping.
unfoldable pub memcpy : Bytes → Bytes → Bytes
memcpy src dest = src ++ drop (length src) dest

-- `mmap` refuses a length of 0.
unfoldable pub mmap : Bool → ℕ → Bool
mmap succeeds n = not (n == 0) && succeeds

-- Behind the `open` of the destination, with what that holds. The calls of the program are numbered.
unfoldable pub fill : Calls → Bytes → Bytes → Option Bytes × Bool
unfolding ftruncate mmap memcpy
fill io src old =
    if not (io 5)
    then (some old, false)
    else if not (mmap (io 6) (length src))
    then (some (ftruncate (length src) old), false)
    else if not (io 7)
    then (some (ftruncate (length src) old), false)
    else (some (memcpy src (ftruncate (length src) old)), true)

-- The source and what is at the other path before; the result is what is there behind the program, and whether it
-- ends with EXIT_SUCCESS.
unfoldable pub mirror : Calls → Bytes → Option Bytes → Option Bytes × Bool
unfolding mmap fill
mirror io src old =
    if not (io 0)
    then (old, false)
    else if not (io 1)
    then (old, false)
    else if not (mmap (io 2) (length src))
    then (old, false)
    else if not (io 3)
    then (old, false)
    else if not (io 4)
    then (old, false)
    else fill io src (contents old)

unfoldable pub mirror_main : Calls → List Bytes → Bytes → Option Bytes → Option Bytes × Bool
unfolding mirror str_eq
mirror_main io argv src old =
    if not (length argv == 3) || str_eq (get_or argv 1 []) (codes "--help")
    then (old, false)
    else mirror io src old
