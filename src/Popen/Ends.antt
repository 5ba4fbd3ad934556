-- ===== src/Popen/Ends.antt =====
-- Which ends of the pipe of `my_popen` the parent and the child keep.
use sp_hw.Base.{
  ℕ, ◌≡◌, ◌≢◌, inl, inr, refl, sym, ap₂, subst, ◌∙◌, true, none, some, ◌==◌, ==-true, ==_iff,
  true_not_false, str_eq-other, Bool-cases, Bytes, codes, str_eq, arith,
}
use sp_hw.Popen.{
  File, read_end, write_end, Table, Pipe, after_pipe, closed, dup2, executes, returns_null, returns,
  child_side, parent_side, child_of, parent_of, Called, forked, Answers, fork_branches, with_pipe,
  my_popen,
}

-- Descriptors that `pipe` may take: two that were not open.
pub record IsFree (p : Pipe) (t : Table) : Type 0 where
  pub differ : p.read_fd ≢ p.write_fd
  pub read_free : t p.read_fd ≡ none
  pub write_free : t p.write_fd ≡ none

-- The table has one descriptor for the file, and is the other one everywhere else.
pub record Keeps (fd : ℕ) (f : File) (before after : Table) : Type 0 where
  pub at : after fd ≡ some f
  pub elsewhere : (k : ℕ) → k ≢ fd → after k ≡ before k

-- A table behind `pipe`: both ends, and the other descriptors as before.
record HasPipe (own unused : ℕ) (f g : File) (before t : Table) : Type 0 where
  differ : own ≢ unused
  own_free : before own ≡ none
  unused_free : before unused ≡ none
  at_own : t own ≡ some f
  at_unused : t unused ≡ some g
  others : (k : ℕ) → k ≢ own → k ≢ unused → t k ≡ before k

after_pipe-read_end :
    (p : Pipe) (t : Table)
    → IsFree p t
    → HasPipe p.read_fd p.write_fd read_end write_end t (after_pipe p t)
unfolding after_pipe
after_pipe-read_end p t h = record {
  differ = h.differ;
  own_free = h.read_free;
  unused_free = h.write_free;
  at_own = ground arith;
  at_unused = ground (arith, h.differ);
  others = λ k x y. ground arith;
}

after_pipe-write_end :
    (p : Pipe) (t : Table)
    → IsFree p t
    → HasPipe p.write_fd p.read_fd write_end read_end t (after_pipe p t)
unfolding after_pipe
after_pipe-write_end p t h = record {
  differ = λ e. h.differ (sym e);
  own_free = h.write_free;
  unused_free = h.read_free;
  at_own = ground (arith, h.differ);
  at_unused = ground arith;
  others = λ k x y. ground arith;
}

module _ (own unused : ℕ) (f g : File) (before t : Table)
    (h : HasPipe own unused f g before t) where
  closed-Keeps : Keeps own f before (closed unused t)
  unfolding closed
  closed-Keeps = record {
    at = ground (arith, h.at_own, h.differ);
    elsewhere = λ k n. ground (arith, h.others k n, h.unused_free);
  }

  -- The parent keeps its own end.
  parent_side-Keeps :
      (pid : ℕ) → parent_side true pid unused own t ≡ returns own pid (closed unused t)
  unfolding parent_side
  parent_side-Keeps pid = rw h.at_unused refl

module _ (own : ℕ) (f : File) (before t : Table) (h : Keeps own f before t)
    (free : before own ≡ none) where
  moved-Keeps : (std : ℕ) → own ≢ std → Keeps std f before (closed own (dup2 own std t))
  unfolding closed dup2
  moved-Keeps std n =
      rw h.at
        record { at = ground (arith, n); elsewhere = λ k m. ground (arith, h.elsewhere k, free) }

-- The child has its end as the standard stream, and no other.
child_side-Keeps :
    (own unused : ℕ) (f g : File) (before t : Table) (std : ℕ)
    → HasPipe own unused f g before t
    → (after : Table) × (child_side unused own std t ≡ executes after) × Keeps std f before after
unfolding child_side
child_side-Keeps own unused f g before t std h = elim (Bool-cases (own == std)) [
  | inl e ↦
      let kept = closed-Keeps own unused f g before t h in
      (
        closed unused t,
        rw (h.at_unused, e) refl,
        subst (λ k. Keeps k f before (closed unused t)) ((==_iff own std).0 e) kept,
      )
  | inr e ↦
      let kept = closed-Keeps own unused f g before t h in
      (
        closed own (dup2 own std (closed unused t)),
        rw (h.at_unused, e) refl,
        moved-Keeps own f before (closed unused t) kept h.own_free std
            (λ x. true_not_false (==-true own std x) e),
      )
]

-- A stream of the parent to the child: the parent gets the descriptor `fd`, an end of the pipe, and the
-- child has the other end as its descriptor `std`; all else is open in both as before the call.
pub record Connected (called : Called) (pid fd : ℕ) (f : File) (std : ℕ) (g : File) (t : Table)
    : Type 0 where
  pub parent : Table
  pub child : Table
  pub branches : called ≡ forked (returns fd pid parent) (executes child)
  pub parent_keeps : Keeps fd f t parent
  pub child_keeps : Keeps std g t child

-- The calls of the system succeed.
pub record Succeeds (a : Answers) (p : Pipe) (pid : ℕ) : Type 0 where
  pub mallocs : a.mallocs ≡ true
  pub pipe : a.pipe ≡ some p
  pub fork : a.fork ≡ some pid
  pub fdopens : a.fdopens ≡ true

my_popen-forked :
    (a : Answers) (p : Pipe) (pid : ℕ) (type : Bytes) (t : Table)
    → Succeeds a p pid
    → my_popen a type t
      ≡ forked (parent_of type true pid p (after_pipe p t)) (child_of type p (after_pipe p t))
unfolding my_popen with_pipe fork_branches
my_popen-forked a p pid type t h = rw (h.mallocs, h.pipe, h.fork, h.fdopens) refl

-- Where the calls of the system succeed, with "r" the parent gets the read end, and the child has the
-- write end as its standard output; with "w" the parent gets the write end, and the child has the read end
-- as its standard input. Neither has another descriptor of the pipe, whichever two descriptors `pipe`
-- took, and all the other descriptors are as before.
pub my_popen-Connected :
    (a : Answers) (p : Pipe) (pid : ℕ) (t : Table)
    → Succeeds a p pid
    → IsFree p t
    → Connected (my_popen a (codes "r") t) pid p.read_fd read_end 1 write_end t
      × Connected (my_popen a (codes "w") t) pid p.write_fd write_end 0 read_end t
unfolding child_of parent_of str_eq
my_popen-Connected a p pid t h free =
    let reads = after_pipe-read_end p t free in
    let writes = after_pipe-write_end p t free in
    let writer =
      child_side-Keeps p.write_fd p.read_fd write_end read_end t (after_pipe p t) 1 writes in
    let reader =
      child_side-Keeps p.read_fd p.write_fd read_end write_end t (after_pipe p t) 0 reads in
    (
      record {
        parent = closed p.write_fd (after_pipe p t);
        child = writer.0;
        branches =
            my_popen-forked a p pid (codes "r") t h
            ∙ ap₂ forked
                (parent_side-Keeps p.read_fd p.write_fd read_end write_end t (after_pipe p t) reads
                  pid)
                (writer.1);
        parent_keeps =
            closed-Keeps p.read_fd p.write_fd read_end write_end t (after_pipe p t) reads;
        child_keeps = writer.2;
      },
      record {
        parent = closed p.read_fd (after_pipe p t);
        child = reader.0;
        branches =
            my_popen-forked a p pid (codes "w") t h
            ∙ ap₂ forked
                (parent_side-Keeps p.write_fd p.read_fd write_end read_end t (after_pipe p t) writes
                  pid)
                (reader.1);
        parent_keeps =
            closed-Keeps p.write_fd p.read_fd write_end read_end t (after_pipe p t) writes;
        child_keeps = reader.2;
      },
    )

-- With any other type both processes go on behind the call with NULL, and both have both ends open.
pub my_popen-bad_type :
    (a : Answers) (p : Pipe) (pid : ℕ) (type : Bytes) (t : Table)
    → Succeeds a p pid
    → type ≢ codes "r"
    → type ≢ codes "w"
    → my_popen a type t ≡ forked (returns_null (after_pipe p t)) (returns_null (after_pipe p t))
unfolding child_of parent_of
my_popen-bad_type a p pid type t h r w =
    my_popen-forked a p pid type t h ∙ rw (str_eq-other r, str_eq-other w) refl
