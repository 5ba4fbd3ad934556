-- ===== src/Proc/Users.antt =====
-- main of SP_HW/SP_HW4/12-1.c: the processes of a user.
use sp_hw.Base.{
  ℕ, ◌≡◌, refl, Bool, true, ◌&&◌, List, [], ◌∷◌, map, Option, some, if◌then◌else◌, ◌==◌, All, Bytes,
  Bool-cases, inl, inr,
}
use sp_hw.Proc.{is_numeric, select}
use sp_hw.Proc.Status.{word, digits, get_process_uid, get_process_cmdname}
use sp_hw.Proc.Fields.{
  StatusFile, lines, IsStatus, get_process_uid-lines, get_process_cmdname-lines,
}

-- What `main` reads: the status file of an entry, as it is at the first and at the second opening,
-- and what the arrays `key` of the two calls and `cmdname` hold before anything is written to them.
pub record Files : Type 0 where
  pub for_uid : Bytes → Option (List Bytes)
  pub for_name : Bytes → Option (List Bytes)
  pub uid_key : Bytes → Bytes
  pub name_key : Bytes → Bytes
  pub cmdname : Bytes → Bytes

-- The loop over the entries of /proc: the pid and the name of each line that is printed. Behind the loop
-- a file that did not open still shows in `errno` and ends the program by `perror("readdir")`; these lines
-- are printed by then.
unfoldable pub list_user : Files → ℕ → List Bytes → List (Bytes × Bytes)
unfolding is_numeric get_process_uid get_process_cmdname
list_user files user_id [] = []
list_user files user_id (entry ∷ entries) =
    let rest = list_user files user_id entries in
    if is_numeric entry
    then if get_process_uid (files.uid_key entry) (files.for_uid entry) == user_id
      then (
        entry,
        get_process_cmdname (files.name_key entry) (files.cmdname entry) (files.for_name entry),
      )
        ∷ rest
      else rest
    else rest

-- The process has the status file `status`, which does not change between the two openings.
pub record HasStatus (files : Files) (status : Bytes → StatusFile) (entry : Bytes) : Type 0 where
  pub uid_file : files.for_uid entry ≡ some (lines (status entry))
  pub name_file : files.for_name entry ≡ some (lines (status entry))
  pub is_status : IsStatus (status entry)

abbrev pub is_owned : (Bytes → StatusFile) → ℕ → Bytes → Bool
is_owned status user_id entry = is_numeric entry && (digits 0 (status entry).owner == user_id)

-- Over status files as the kernel writes them the program prints the numeric entries whose owner is
-- the user, in their order, each with the first word of its name.
pub list_user-select :
    (files : Files) (status : Bytes → StatusFile) (user_id : ℕ) (entries : List Bytes)
    → All (λ entry. is_numeric entry ≡ true → HasStatus files status entry) entries
    → list_user files user_id entries
      ≡ map (λ entry. (entry, word (status entry).comm)) (select (is_owned status user_id) entries)
unfolding list_user
list_user-select files status user_id [] h = refl
list_user-select files status user_id (entry ∷ entries) h = elim (Bool-cases (is_numeric entry)) [
  | inr other ↦ rw (other) (list_user-select files status user_id entries (h.1))
  | inl number ↦
      let has = h.0 number in
      rw
        (
          number,
          has.uid_file,
          has.name_file,
          get_process_uid-lines (files.uid_key entry) (status entry) has.is_status,
          get_process_cmdname-lines (files.name_key entry) (files.cmdname entry) (status entry)
              has.is_status,
          list_user-select files status user_id entries (h.1),
        )
        (elim (Bool-cases (digits 0 (status entry).owner == user_id)) [
          | inl e ↦ rw e refl
          | inr e ↦ rw e refl
        ])
]
