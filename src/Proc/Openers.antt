-- ===== src/Proc/Openers.antt =====
-- What 12-3.c prints, and how far it gets.
use sp_hw.Base.{
  ◌<◌, ◌≡◌, ◌≢◌, refl, sym, ap, ◌∙◌, true, List, [], ◌∷◌, ◌++◌, append-nil, append_assoc, Option,
  none, some, if◌then◌else◌, ltb-true, length, All, joined, map, Bytes, cstr, str_eq, Bool-cases,
  inl, inr,
}
use sp_hw.Proc.{is_numeric, select}
use sp_hw.Proc.Opened.{
  Link, gone, unreadable, target, Descriptor, Printed, warns, has_open, Listing, finished, fails,
  overruns, printing, path_size, is_dot, report_open, follow, scan_fds, scan_process, list_opened,
}

-- A target that is shorter than the array and a C string.
abbrev pub IsRead : Link → Type 0
IsRead gone = Unit
IsRead unreadable = ⊥
IsRead (target bytes) = (length bytes < path_size) × (cstr bytes ≡ bytes)

abbrev pub link_lines : Bytes → Bytes → Bytes → Link → List Printed
link_lines path pid d_name gone = warns pid d_name ∷ []
link_lines path pid d_name unreadable = []
link_lines path pid d_name (target bytes) =
    if str_eq bytes path then has_open pid bytes ∷ [] else []

abbrev pub fd_lines : Bytes → Bytes → Descriptor → List Printed
fd_lines path pid d = if is_dot d.d_name then [] else link_lines path pid d.d_name d.link

-- The lines of a process: one for each descriptor that leads to the path, and the warnings.
abbrev pub process_lines : Bytes → Bytes → Option (List Descriptor) → List Printed
process_lines path pid none = []
process_lines path pid (some ds) = joined (map (fd_lines path pid) ds)

abbrev pub all_lines : (Bytes → Option (List Descriptor)) → Bytes → List Bytes → List Printed
all_lines open_fds path entries =
    joined (map (λ entry. process_lines path entry (open_fds entry)) (select is_numeric entries))

abbrev pub IsOpen : Option (List Descriptor) → Type 0
IsOpen none = ⊥
IsOpen (some ds) = All (λ d. IsRead d.link) ds

printing-nil : (l : Listing) → printing [] l ≡ l
unfolding printing
printing-nil (finished more) = refl
printing-nil (fails more) = refl
printing-nil (overruns more) = refl

printing-append :
    (a b : List Printed) (l : Listing) → printing (a ++ b) l ≡ printing a (printing b l)
unfolding printing
printing-append a b (finished more) = ap finished (append_assoc a b more)
printing-append a b (fails more) = ap fails (append_assoc a b more)
printing-append a b (overruns more) = ap overruns (append_assoc a b more)

follow-link_lines :
    (path pid d_name : Bytes) (link : Link) (rest : Listing)
    → path ≢ []
    → IsRead link
    → follow path pid d_name link rest ≡ printing (link_lines path pid d_name link) rest
unfolding follow report_open str_eq
follow-link_lines path pid d_name gone rest n h = refl
follow-link_lines path pid d_name unreadable rest n h = absurd h
follow-link_lines [] pid d_name (target []) rest n h = absurd (n refl)
follow-link_lines (p ∷ path) pid d_name (target []) rest n h = sym (printing-nil rest)
follow-link_lines path pid d_name (target (c ∷ bytes)) rest n h =
    rw (ltb-true (length (c ∷ bytes)) path_size (h.0), h.1)
      (elim (Bool-cases (str_eq (c ∷ bytes) path)) [
        | inl e ↦ rw e refl
        | inr e ↦ rw e (sym (printing-nil rest))
      ])

scan_fds-fd_lines :
    (path pid : Bytes) (ds : List Descriptor) (behind : Listing)
    → path ≢ []
    → All (λ d. IsRead d.link) ds
    → scan_fds path pid ds behind ≡ printing (joined (map (fd_lines path pid) ds)) behind
unfolding scan_fds
scan_fds-fd_lines path pid [] behind n h = sym (printing-nil behind)
scan_fds-fd_lines path pid (d ∷ ds) behind n h = elim (Bool-cases (is_dot d.d_name)) [
  | inl e ↦ rw e (scan_fds-fd_lines path pid ds behind n (h.1))
  | inr e ↦ rw e (
      follow-link_lines path pid d.d_name d.link (scan_fds path pid ds behind) n (h.0)
      ∙ ap (printing (link_lines path pid d.d_name d.link))
          (scan_fds-fd_lines path pid ds behind n (h.1))
      ∙ sym (
          printing-append (link_lines path pid d.d_name d.link)
            (joined (map (fd_lines path pid) ds)) behind))
]

scan_process-process_lines :
    (path pid : Bytes) (fds : Option (List Descriptor)) (rest : Listing)
    → path ≢ []
    → IsOpen fds
    → scan_process path pid fds rest ≡ printing (process_lines path pid fds) rest
unfolding scan_process
scan_process-process_lines path pid none rest n h = absurd h
scan_process-process_lines path pid (some ds) rest n h = scan_fds-fd_lines path pid ds rest n h

-- The processes in front of others print their lines.
list_opened-front :
    (open_fds : Bytes → Option (List Descriptor)) (path : Bytes) (front entries : List Bytes)
    → path ≢ []
    → All (λ entry. is_numeric entry ≡ true → IsOpen (open_fds entry)) front
    → list_opened open_fds path (front ++ entries)
      ≡ printing (all_lines open_fds path front) (list_opened open_fds path entries)
unfolding list_opened
list_opened-front open_fds path [] entries n h =
    sym (printing-nil (list_opened open_fds path entries))
list_opened-front open_fds path (entry ∷ front) entries n h =
    let rest = list_opened-front open_fds path front entries n (h.1) in
    elim (Bool-cases (is_numeric entry)) [
      | inr other ↦ rw other rest
      | inl number ↦ rw number (
          scan_process-process_lines path entry (open_fds entry)
            (list_opened open_fds path (front ++ entries)) n (h.0 number)
          ∙ ap (printing (process_lines path entry (open_fds entry))) rest
          ∙ sym (
              printing-append (process_lines path entry (open_fds entry))
                (all_lines open_fds path front) (list_opened open_fds path entries)))
    ]

-- Where every fd directory opens and every link is read, the program prints for each process one line
-- for each descriptor that leads to the path, and a warning for each link that is gone.
pub list_opened-all_lines :
    (open_fds : Bytes → Option (List Descriptor)) (path : Bytes) (entries : List Bytes)
    → path ≢ []
    → All (λ entry. is_numeric entry ≡ true → IsOpen (open_fds entry)) entries
    → list_opened open_fds path entries ≡ finished (all_lines open_fds path entries)
unfolding list_opened printing
list_opened-all_lines open_fds path entries n h =
    ap (list_opened open_fds path) (sym (append-nil entries))
    ∙ list_opened-front open_fds path entries [] n h
    ∙ ap finished (append-nil (all_lines open_fds path entries))

-- The first process whose fd directory does not open ends the program with an error: what is behind it
-- in /proc is not looked at.
pub list_opened-refused :
    (open_fds : Bytes → Option (List Descriptor)) (path pid : Bytes) (front behind : List Bytes)
    → path ≢ []
    → All (λ entry. is_numeric entry ≡ true → IsOpen (open_fds entry)) front
    → is_numeric pid ≡ true
    → open_fds pid ≡ none
    → list_opened open_fds path (front ++ pid ∷ behind) ≡ fails (all_lines open_fds path front)
unfolding list_opened printing scan_process
list_opened-refused open_fds path pid front behind n h number refused =
    list_opened-front open_fds path front (pid ∷ behind) n h
    ∙ rw (number, refused) (ap fails (append-nil (all_lines open_fds path front)))
